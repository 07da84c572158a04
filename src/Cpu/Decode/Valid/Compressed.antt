-- ===== src/Cpu/Decode/Valid/Compressed.antt =====
-- Every instruction of decode-c.ts is one whose operands fit.
use ya_risc_v.Cpu.Pmp.Napot.{encoded}
use ya_risc_v.Cpu.Decode.Compressed.{decode_compressed}
use ya_risc_v.Cpu.Decode.Fields.{bits}
use ya_risc_v.Cpu.Decode.Compressed.Quadrant0.{decode_quadrant0, illegal_halfword}
use ya_risc_v.Cpu.Decode.Valid.{IsValid, bits-lt, operand_rules}
use ya_risc_v.Prelude.{arith, bit_and_ones, bit_or-lt, ◌*◌, ◌^◌, ◌<◌, ℕ}
use ya_risc_v.Cpu.Decode.Compressed.Quadrant1.{
  decode_lui_or_stack, decode_quadrant1, decode_quadrant1_arithmetic,
}
use ya_risc_v.Cpu.Decode.Compressed.Quadrant2.{decode_move_or_jump, decode_quadrant2}
use ya_risc_v.Cpu.Decode.Compressed.Fields.{
  decode_sw_sp_offset, decode_cj_offset, decode_sd_sp_offset, decode_shamt, decode_lw_sw_offset,
  decode_ld_sd_offset, compact_register, decode_addi16_sp_immediate, decode_cb_offset,
  decode_ld_sp_offset, decode_lw_sp_offset, decode_ci_imm6, stack_pointer, decode_lui_immediate,
}

compact_register-lt : (encoded : ℕ) → compact_register encoded < 32
compact_register-lt encoded = omega (arith, bit_and_ones 3 encoded)

zero_below : 0 < 32
zero_below = omega arith

one_below : 1 < 32
one_below = omega arith

stack_pointer-lt : stack_pointer < 32
stack_pointer-lt = omega arith

decode_shamt-lt : (halfword : ℕ) → decode_shamt halfword < 64
decode_shamt-lt halfword =
    bit_or-lt 6 (bits halfword 12 0x1 * 2 ^ 5) (bits halfword 2 0x1f)
      (omega (arith, bits-lt halfword 12 1)) (omega (arith, bits-lt halfword 2 5))

illegal_halfword-IsValid : (halfword : ℕ) → IsValid (illegal_halfword halfword)
unfolding illegal_halfword
illegal_halfword-IsValid halfword = record { operands = omega (arith, bit_and_ones 16 halfword) }

ruleset compressed_rules = (
  operand_rules, compact_register-lt, zero_below, one_below, stack_pointer-lt, decode_shamt-lt,
  illegal_halfword-IsValid,
)

module _ (halfword : ℕ) where
  decode_quadrant0-IsValid : IsValid (decode_quadrant0 halfword)
  unfolding decode_quadrant0 decode_lw_sw_offset decode_ld_sd_offset
  decode_quadrant0-IsValid = search (compressed_rules) depth 40

  decode_quadrant1_arithmetic-IsValid : IsValid (decode_quadrant1_arithmetic halfword)
  unfolding decode_quadrant1_arithmetic decode_ci_imm6
  decode_quadrant1_arithmetic-IsValid = search (compressed_rules) depth 40

  decode_lui_or_stack-IsValid : IsValid (decode_lui_or_stack halfword)
  unfolding decode_lui_or_stack decode_addi16_sp_immediate decode_lui_immediate
  decode_lui_or_stack-IsValid = search (compressed_rules) depth 40

  decode_quadrant1-IsValid : IsValid (decode_quadrant1 halfword)
  unfolding decode_quadrant1 decode_ci_imm6 decode_cj_offset decode_cb_offset
  decode_quadrant1-IsValid =
      search (compressed_rules, decode_quadrant1_arithmetic-IsValid, decode_lui_or_stack-IsValid)
        depth 40

  decode_move_or_jump-IsValid : IsValid (decode_move_or_jump halfword)
  unfolding decode_move_or_jump
  decode_move_or_jump-IsValid = search (compressed_rules) depth 40

  decode_quadrant2-IsValid : IsValid (decode_quadrant2 halfword)
  unfolding decode_quadrant2 decode_lw_sp_offset decode_ld_sp_offset decode_sw_sp_offset
      decode_sd_sp_offset
  decode_quadrant2-IsValid = search (compressed_rules, decode_move_or_jump-IsValid) depth 40

-- Every 16-bit encoding decodes to an instruction whose register numbers are below 32, whose shift
-- amounts are below the width of the shift, and whose immediates are words.
pub decode_compressed-IsValid : (halfword : ℕ) → IsValid (decode_compressed halfword)
unfolding decode_compressed
decode_compressed-IsValid halfword =
    search
      (
        compressed_rules, decode_quadrant0-IsValid, decode_quadrant1-IsValid,
        decode_quadrant2-IsValid,
      )
      depth 40
