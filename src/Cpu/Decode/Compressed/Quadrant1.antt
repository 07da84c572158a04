-- ===== src/Cpu/Decode/Compressed/Quadrant1.antt =====
-- src/emulator/cpu/decode/decode-c.ts: the quadrant of immediates, arithmetic, jumps and branches.
use ya_risc_v.Cpu.Instructions.Op32.{Op32Args}
use ya_risc_v.Cpu.Instructions.Op.{OpArgs}
use ya_risc_v.Cpu.Instructions.OpImm.{ShiftImmArgs}
use ya_risc_v.Cpu.Decode.Fields.{bits}
use ya_risc_v.Prelude.{Bool, ◌==◌, ◌&&◌, ◌||◌, if◌then◌else◌, ℕ}
use ya_risc_v.Cpu.Decode.Compressed.Quadrant0.{illegal_halfword}
use ya_risc_v.Cpu.Instructions.Result.{op_xor, op_and, op_sub, op_or}
use ya_risc_v.Cpu.Instructions.Alu32.{op32_sub, op32_add}
use ya_risc_v.Cpu.Instructions.Condition.{branch_eq, branch_ne}
use ya_risc_v.Cpu.Decode.Instruction.{
  Instruction, add_immediate_32, jump, branch, operate_32, shift_immediate, load_upper, hint,
  operate_immediate, operate,
}
use ya_risc_v.Cpu.Instructions.AluImm.{
  shift_right_logical, shift_right_arithmetic, imm_and, imm_add,
}
use ya_risc_v.Cpu.Decode.Compressed.Fields.{
  destination_of, decode_cj_offset, function3_of_halfword, decode_addi16_sp_immediate,
  decode_ci_imm6, source2_prime_of, stack_pointer, decode_cb_offset, decode_shamt,
  decode_lui_immediate, source1_prime_of,
}

unfoldable pub decode_quadrant1_arithmetic : ℕ → Instruction
unfolding illegal_halfword decode_ci_imm6
decode_quadrant1_arithmetic halfword =
    let rd = source1_prime_of halfword in
    let funct2_high = bits halfword 10 0x3 in
    let shift_amount = decode_shamt halfword in
    let shift : ShiftImmArgs = record {
      destination_register = rd;
      source_register1 = rd;
      shift_amount = shift_amount;
    } in
    let bit12 = bits halfword 12 0x1 in
    let funct2_low = bits halfword 5 0x3 in
    let args : OpArgs = record {
      destination_register = rd;
      source_register1 = rd;
      source_register2 = source2_prime_of halfword;
    } in
    let args32 : Op32Args = record {
      destination_register = rd;
      source_register1 = rd;
      source_register2 = source2_prime_of halfword;
    } in
    if funct2_high == 0
    then (if shift_amount == 0 then hint else shift_immediate shift_right_logical shift)
    else if funct2_high == 1
    then (if shift_amount == 0 then hint else shift_immediate shift_right_arithmetic shift)
    else if funct2_high == 2
    then operate_immediate imm_and (record {
      destination_register = rd;
      source_register1 = rd;
      immediate = decode_ci_imm6 halfword;
    })
    else if bit12 == 0
    then (if funct2_low == 0
        then operate op_sub args
        else if funct2_low == 1
        then operate op_xor args
        else if funct2_low == 2
        then operate op_or args
        else if funct2_low == 3
        then operate op_and args
        else illegal_halfword halfword)
    else if funct2_low == 0
    then operate_32 op32_sub args32
    else if funct2_low == 1
    then operate_32 op32_add args32
    else illegal_halfword halfword

abbrev pub immediate_is_zero : ℕ → Bool
immediate_is_zero halfword = bits halfword 2 0x1f == 0 && bits halfword 12 0x1 == 0

-- `c.addi16sp` and `c.lui`
unfoldable pub decode_lui_or_stack : ℕ → Instruction
unfolding illegal_halfword decode_addi16_sp_immediate decode_lui_immediate
decode_lui_or_stack halfword =
    let rd = destination_of halfword in
    if rd == stack_pointer
    then (if immediate_is_zero halfword
        then illegal_halfword halfword
        else operate_immediate imm_add (record {
          destination_register = stack_pointer;
          source_register1 = stack_pointer;
          immediate = decode_addi16_sp_immediate halfword;
        }))
    else if immediate_is_zero halfword
    then illegal_halfword halfword
    else if rd == 0
    then hint
    else load_upper
        (record { destination_register = rd; immediate = decode_lui_immediate halfword })

unfoldable pub decode_quadrant1 : ℕ → Instruction
unfolding illegal_halfword decode_ci_imm6 decode_lui_or_stack decode_quadrant1_arithmetic
    decode_cj_offset decode_cb_offset
decode_quadrant1 halfword =
    let rd = destination_of halfword in
    if function3_of_halfword halfword == 0x0
    then (if rd == 0 || immediate_is_zero halfword
        then hint
        else operate_immediate imm_add (record {
          destination_register = rd;
          source_register1 = rd;
          immediate = decode_ci_imm6 halfword;
        }))
    else if function3_of_halfword halfword == 0x1
    then (if rd == 0
        then illegal_halfword halfword
        else add_immediate_32 (record {
          destination_register = rd;
          source_register1 = rd;
          immediate = decode_ci_imm6 halfword;
        }))
    else if function3_of_halfword halfword == 0x2
    then (if rd == 0
        then hint
        else operate_immediate imm_add (record {
          destination_register = rd;
          source_register1 = 0;
          immediate = decode_ci_imm6 halfword;
        }))
    else if function3_of_halfword halfword == 0x3
    then decode_lui_or_stack halfword
    else if function3_of_halfword halfword == 0x4
    then decode_quadrant1_arithmetic halfword
    else if function3_of_halfword halfword == 0x5
    then jump (record { destination_register = 0; immediate = decode_cj_offset halfword })
    else if function3_of_halfword halfword == 0x6
    then branch branch_eq (record {
      source_register1 = source1_prime_of halfword;
      source_register2 = 0;
      immediate = decode_cb_offset halfword;
    })
    else if function3_of_halfword halfword == 0x7
    then branch branch_ne (record {
      source_register1 = source1_prime_of halfword;
      source_register2 = 0;
      immediate = decode_cb_offset halfword;
    })
    else illegal_halfword halfword
