-- ===== src/Cpu/Decode/Fields.antt =====
-- src/emulator/cpu/decode/decode-32.ts: the fields and immediates of a 32-bit encoding.
use ya_risc_v.Prelude.{ℕ, ◌*◌, ◌/◌, ◌^◌, bit_and, bit_or}
use ya_risc_v.Bytes.{Bytes, signed_number_to_bytes}

-- `(word >>> shift) & mask`
abbrev pub bits : ℕ → ℕ → ℕ → ℕ
bits word shift mask = bit_and (word / 2 ^ shift) mask

unfoldable pub decode_i_type_immediate : ℕ → Bytes
unfolding signed_number_to_bytes
decode_i_type_immediate word = signed_number_to_bytes (word / 2 ^ 20) 12

unfoldable pub decode_s_type_immediate : ℕ → Bytes
unfolding signed_number_to_bytes
decode_s_type_immediate word =
    let imm11_5 = bits word 25 0x7f in
    let imm4_0 = bits word 7 0x1f in signed_number_to_bytes (bit_or (imm11_5 * 2 ^ 5) imm4_0) 12

unfoldable pub decode_b_type_immediate : ℕ → Bytes
unfolding signed_number_to_bytes
decode_b_type_immediate word =
    let imm12 = bits word 31 0x1 in
    let imm11 = bits word 7 0x1 in
    let imm10_5 = bits word 25 0x3f in
    let imm4_1 = bits word 8 0xf in
    signed_number_to_bytes
      (bit_or (bit_or (bit_or (imm12 * 2 ^ 12) (imm11 * 2 ^ 11)) (imm10_5 * 2 ^ 5))
        (imm4_1 * 2 ^ 1))
      13

-- `word & 0xfffff000`
unfoldable pub decode_u_type_immediate : ℕ → Bytes
unfolding signed_number_to_bytes
decode_u_type_immediate word = signed_number_to_bytes (bit_and word 0xfffff000) 32

unfoldable pub decode_j_type_immediate : ℕ → Bytes
unfolding signed_number_to_bytes
decode_j_type_immediate word =
    let imm20 = bits word 31 0x1 in
    let imm19_12 = bits word 12 0xff in
    let imm11 = bits word 20 0x1 in
    let imm10_1 = bits word 21 0x3ff in
    signed_number_to_bytes
      (bit_or (bit_or (bit_or (imm20 * 2 ^ 20) (imm19_12 * 2 ^ 12)) (imm11 * 2 ^ 11))
        (imm10_1 * 2 ^ 1))
      21

abbrev pub destination_register_of : ℕ → ℕ
destination_register_of word = bits word 7 0x1f

abbrev pub source_register1_of : ℕ → ℕ
source_register1_of word = bits word 15 0x1f

abbrev pub source_register2_of : ℕ → ℕ
source_register2_of word = bits word 20 0x1f

abbrev pub function3_of : ℕ → ℕ
function3_of word = bits word 12 0x7

abbrev pub function7_of : ℕ → ℕ
function7_of word = bits word 25 0x7f
