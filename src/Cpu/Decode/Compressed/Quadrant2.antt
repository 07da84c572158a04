-- ===== src/Cpu/Decode/Compressed/Quadrant2.antt =====
-- src/emulator/cpu/decode/decode-c.ts: the quadrant of the stack-based loads and stores, `c.slli`, the
-- register moves and the register jumps.
use ya_risc_v.Prelude.{◌==◌, ◌||◌, if◌then◌else◌, ℕ}
use ya_risc_v.Cpu.Decode.Fields.{bits}
use ya_risc_v.Cpu.Instructions.Result.{op_add}
use ya_risc_v.Cpu.Decode.Compressed.Quadrant0.{illegal_halfword}
use ya_risc_v.Cpu.Decode.Instruction.{
  Instruction, store_word, jump_register, shift_immediate, load, hint, load_word, breakpoint, store,
  operate, load_double, store_double,
}
use ya_risc_v.Cpu.Instructions.AluImm.{shift_left}
use ya_risc_v.Cpu.Decode.Compressed.Fields.{
  destination_of, decode_ld_sp_offset, function3_of_halfword, return_address, decode_lw_sp_offset,
  source2_of, decode_sd_sp_offset, decode_sw_sp_offset, stack_pointer, zero_immediate, decode_shamt,
  source1_of,
}

-- `funct3` 4 of the quadrant
unfoldable pub decode_move_or_jump : ℕ → Instruction
unfolding illegal_halfword
decode_move_or_jump halfword =
    let bit12 = bits halfword 12 0x1 in
    let rs1 = source1_of halfword in
    let rs2 = source2_of halfword in
    if bit12 == 0
    then (if rs2 == 0
        then (if rs1 == 0
            then illegal_halfword halfword
            else jump_register (record {
              destination_register = 0;
              source_register1 = rs1;
              immediate = zero_immediate;
            }))
        else if rs1 == 0
        then hint
        else operate op_add
            (record { destination_register = rs1; source_register1 = 0; source_register2 = rs2 }))
    else if rs2 == 0
    then (if rs1 == 0
        then breakpoint
        else jump_register (record {
          destination_register = return_address;
          source_register1 = rs1;
          immediate = zero_immediate;
        }))
    else if rs1 == 0
    then hint
    else operate op_add
        (record { destination_register = rs1; source_register1 = rs1; source_register2 = rs2 })

unfoldable pub decode_quadrant2 : ℕ → Instruction
unfolding illegal_halfword decode_move_or_jump decode_lw_sp_offset decode_ld_sp_offset
    decode_sw_sp_offset decode_sd_sp_offset
decode_quadrant2 halfword =
    let rd = destination_of halfword in
    let shift_amount = decode_shamt halfword in
    if function3_of_halfword halfword == 0x0
    then (if rd == 0 || shift_amount == 0
        then hint
        else shift_immediate shift_left (record {
          destination_register = rd;
          source_register1 = rd;
          shift_amount = shift_amount;
        }))
    else if function3_of_halfword halfword == 0x2
    then (if rd == 0
        then illegal_halfword halfword
        else load load_word (record {
          destination_register = rd;
          source_register1 = stack_pointer;
          immediate = decode_lw_sp_offset halfword;
        }))
    else if function3_of_halfword halfword == 0x3
    then (if rd == 0
        then illegal_halfword halfword
        else load load_double (record {
          destination_register = rd;
          source_register1 = stack_pointer;
          immediate = decode_ld_sp_offset halfword;
        }))
    else if function3_of_halfword halfword == 0x4
    then decode_move_or_jump halfword
    else if function3_of_halfword halfword == 0x6
    then store store_word (record {
      source_register1 = stack_pointer;
      source_register2 = source2_of halfword;
      immediate = decode_sw_sp_offset halfword;
    })
    else if function3_of_halfword halfword == 0x7
    then store store_double (record {
      source_register1 = stack_pointer;
      source_register2 = source2_of halfword;
      immediate = decode_sd_sp_offset halfword;
    })
    else illegal_halfword halfword
