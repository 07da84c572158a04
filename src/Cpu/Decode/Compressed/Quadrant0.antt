-- ===== src/Cpu/Decode/Compressed/Quadrant0.antt =====
-- src/emulator/cpu/decode/decode-c.ts: the quadrant of `c.addi4spn` and the register-based loads and
-- stores. The word given to `illegal` is the trap value of `illegalC`.
use ya_risc_v.Cpu.Instructions.AluImm.{imm_add}
use ya_risc_v.Prelude.{bit_and, ◌==◌, if◌then◌else◌, ℕ}
use ya_risc_v.Bytes.{signed_number_to_bytes}
use ya_risc_v.Cpu.Decode.Compressed.Fields.{
  function3_of_halfword, decode_ld_sd_offset, source2_prime_of, decode_lw_sw_offset,
  decode_addi4_spn_immediate, stack_pointer, source1_prime_of, destination_prime_of,
}
use ya_risc_v.Cpu.Decode.Instruction.{
  illegal, Instruction, store_word, load, load_word, operate_immediate, load_double, store,
  store_double,
}

unfoldable pub illegal_halfword : ℕ → Instruction
illegal_halfword halfword = illegal (bit_and halfword 0xffff)

unfoldable pub decode_quadrant0 : ℕ → Instruction
unfolding illegal_halfword signed_number_to_bytes decode_lw_sw_offset decode_ld_sd_offset
decode_quadrant0 halfword =
    let nzuimm = decode_addi4_spn_immediate halfword in
    if function3_of_halfword halfword == 0x0
    then (if nzuimm == 0
        then illegal_halfword halfword
        else operate_immediate imm_add (record {
          destination_register = destination_prime_of halfword;
          source_register1 = stack_pointer;
          immediate = signed_number_to_bytes nzuimm 32;
        }))
    else if function3_of_halfword halfword == 0x2
    then load load_word (record {
      destination_register = destination_prime_of halfword;
      source_register1 = source1_prime_of halfword;
      immediate = decode_lw_sw_offset halfword;
    })
    else if function3_of_halfword halfword == 0x3
    then load load_double (record {
      destination_register = destination_prime_of halfword;
      source_register1 = source1_prime_of halfword;
      immediate = decode_ld_sd_offset halfword;
    })
    else if function3_of_halfword halfword == 0x6
    then store store_word (record {
      source_register1 = source1_prime_of halfword;
      source_register2 = source2_prime_of halfword;
      immediate = decode_lw_sw_offset halfword;
    })
    else if function3_of_halfword halfword == 0x7
    then store store_double (record {
      source_register1 = source1_prime_of halfword;
      source_register2 = source2_prime_of halfword;
      immediate = decode_ld_sd_offset halfword;
    })
    else illegal_halfword halfword
