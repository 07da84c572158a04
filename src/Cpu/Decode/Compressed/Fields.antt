-- ===== src/Cpu/Decode/Compressed/Fields.antt =====
-- src/emulator/cpu/decode/decode-c.ts: the fields and immediates of a 16-bit encoding.
use ya_risc_v.Prelude.{ℕ, ◌+◌, ◌*◌, ◌^◌, ◌!=◌, if◌then◌else◌, bit_and, bit_or}
use ya_risc_v.Bytes.{Bytes, signed_number_to_bytes}
use ya_risc_v.Cpu.Decode.Fields.{bits}

abbrev pub stack_pointer : ℕ
stack_pointer = 2

abbrev pub return_address : ℕ
return_address = 1

abbrev pub zero_immediate : Bytes
zero_immediate = signed_number_to_bytes 0 32

abbrev pub compact_register : ℕ → ℕ
compact_register encoded = 8 + bit_and encoded 0x7

abbrev pub function3_of_halfword : ℕ → ℕ
function3_of_halfword halfword = bits halfword 13 0x7

abbrev pub destination_of : ℕ → ℕ
destination_of halfword = bits halfword 7 0x1f

abbrev pub source1_of : ℕ → ℕ
source1_of halfword = bits halfword 7 0x1f

abbrev pub source2_of : ℕ → ℕ
source2_of halfword = bits halfword 2 0x1f

abbrev pub destination_prime_of : ℕ → ℕ
destination_prime_of halfword = compact_register (bits halfword 2 0x7)

abbrev pub source1_prime_of : ℕ → ℕ
source1_prime_of halfword = compact_register (bits halfword 7 0x7)

abbrev pub source2_prime_of : ℕ → ℕ
source2_prime_of halfword = compact_register (bits halfword 2 0x7)

unfoldable pub decode_ci_imm6 : ℕ → Bytes
unfolding signed_number_to_bytes
decode_ci_imm6 halfword =
    signed_number_to_bytes (bit_or (bits halfword 7 0x20) (bits halfword 2 0x1f)) 6

abbrev pub decode_addi4_spn_immediate : ℕ → ℕ
decode_addi4_spn_immediate halfword =
    bit_or
      (bit_or (bit_or (bits halfword 7 0xf * 2 ^ 6) (bits halfword 11 0x3 * 2 ^ 4))
        (bits halfword 5 0x1 * 2 ^ 3))
      (bits halfword 6 0x1 * 2 ^ 2)

unfoldable pub decode_lw_sw_offset : ℕ → Bytes
unfolding signed_number_to_bytes
decode_lw_sw_offset halfword =
    signed_number_to_bytes
      (bit_or (bit_or (bits halfword 10 0x7 * 2 ^ 3) (bits halfword 6 0x1 * 2 ^ 2))
        (bits halfword 5 0x1 * 2 ^ 6))
      32

unfoldable pub decode_ld_sd_offset : ℕ → Bytes
unfolding signed_number_to_bytes
decode_ld_sd_offset halfword =
    signed_number_to_bytes (bit_or (bits halfword 10 0x7 * 2 ^ 3) (bits halfword 5 0x3 * 2 ^ 6)) 32

unfoldable pub decode_addi16_sp_immediate : ℕ → Bytes
unfolding signed_number_to_bytes
decode_addi16_sp_immediate halfword =
    signed_number_to_bytes
      (bit_or
        (bit_or
          (bit_or (bit_or (bits halfword 12 0x1 * 2 ^ 9) (bits halfword 6 0x1 * 2 ^ 4))
            (bits halfword 5 0x1 * 2 ^ 6))
          (bits halfword 3 0x3 * 2 ^ 7))
        (bits halfword 2 0x1 * 2 ^ 5))
      10

-- The negative number that `| 0xfffc_0000` gives is written as its 32 bits.
unfoldable pub decode_lui_immediate : ℕ → Bytes
unfolding signed_number_to_bytes
decode_lui_immediate halfword =
    let nzimm17_12 = bit_or (bits halfword 12 0x1 * 2 ^ 5) (bits halfword 2 0x1f) in
    let upper = if bit_and nzimm17_12 0x20 != 0 then 0xfffc0000 else 0 in
    let sign_extended = bit_or (nzimm17_12 * 2 ^ 12) upper in
    signed_number_to_bytes sign_extended 32

unfoldable pub decode_lw_sp_offset : ℕ → Bytes
unfolding signed_number_to_bytes
decode_lw_sp_offset halfword =
    signed_number_to_bytes
      (bit_or (bit_or (bits halfword 12 0x1 * 2 ^ 5) (bits halfword 4 0x7 * 2 ^ 2))
        (bits halfword 2 0x3 * 2 ^ 6))
      32

unfoldable pub decode_ld_sp_offset : ℕ → Bytes
unfolding signed_number_to_bytes
decode_ld_sp_offset halfword =
    signed_number_to_bytes
      (bit_or (bit_or (bits halfword 12 0x1 * 2 ^ 5) (bits halfword 5 0x3 * 2 ^ 3))
        (bits halfword 2 0x7 * 2 ^ 6))
      32

unfoldable pub decode_sw_sp_offset : ℕ → Bytes
unfolding signed_number_to_bytes
decode_sw_sp_offset halfword =
    signed_number_to_bytes (bit_or (bits halfword 9 0xf * 2 ^ 2) (bits halfword 7 0x3 * 2 ^ 6)) 32

unfoldable pub decode_sd_sp_offset : ℕ → Bytes
unfolding signed_number_to_bytes
decode_sd_sp_offset halfword =
    signed_number_to_bytes (bit_or (bits halfword 10 0x7 * 2 ^ 3) (bits halfword 7 0x7 * 2 ^ 6)) 32

unfoldable pub decode_cj_offset : ℕ → Bytes
unfolding signed_number_to_bytes
decode_cj_offset halfword =
    signed_number_to_bytes
      (bit_or
        (bit_or
          (bit_or
            (bit_or
              (bit_or
                (bit_or (bit_or (bits halfword 12 0x1 * 2 ^ 11) (bits halfword 11 0x1 * 2 ^ 4))
                  (bits halfword 9 0x3 * 2 ^ 8))
                (bits halfword 8 0x1 * 2 ^ 10))
              (bits halfword 7 0x1 * 2 ^ 6))
            (bits halfword 6 0x1 * 2 ^ 7))
          (bits halfword 3 0x7 * 2 ^ 1))
        (bits halfword 2 0x1 * 2 ^ 5))
      12

unfoldable pub decode_cb_offset : ℕ → Bytes
unfolding signed_number_to_bytes
decode_cb_offset halfword =
    signed_number_to_bytes
      (bit_or
        (bit_or
          (bit_or (bit_or (bits halfword 12 0x1 * 2 ^ 8) (bits halfword 10 0x3 * 2 ^ 3))
            (bits halfword 5 0x3 * 2 ^ 6))
          (bits halfword 3 0x3 * 2 ^ 1))
        (bits halfword 2 0x1 * 2 ^ 5))
      9

abbrev pub decode_shamt : ℕ → ℕ
decode_shamt halfword = bit_or (bits halfword 12 0x1 * 2 ^ 5) (bits halfword 2 0x1f)
