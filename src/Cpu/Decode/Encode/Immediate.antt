-- ===== src/Cpu/Decode/Encode/Immediate.antt =====
-- The scattered immediates of the 32-bit formats, as sums of fields.
use ya_risc_v.Bytes.{signed_number_to_bytes}
use ya_risc_v.Cpu.Decode.Fields.{
  decode_s_type_immediate, decode_b_type_immediate, decode_u_type_immediate,
  decode_j_type_immediate,
}
use ya_risc_v.Prelude.{
  arith, ap, bit_and_ones, bit_or, sym, bit_or_shifted, ◌+◌, ◌*◌, ◌/◌, ◌^◌, ◌%◌, ◌<◌, ◌≡◌, ◌∙◌, ℕ,
  refl, bit_and-zero, bit_and_fields, ◌-◌,
}

-- `x | r` is a sum when `x` is a multiple of a power above `r`.
pub bit_or_add : (k q x r : ℕ) → x ≡ q * 2 ^ k → r < 2 ^ k → bit_or x r ≡ x + r
bit_or_add k q x r multiple small =
    ap (λ (t : ℕ). bit_or t r) multiple
    ∙ bit_or_shifted k q r small
    ∙ ap (λ (t : ℕ). t + r) (sym multiple)

abbrev pub b_offset : ℕ → ℕ
b_offset word =
    word / 2 ^ 31 % 2 * 2 ^ 12
    + word / 2 ^ 7 % 2 * 2 ^ 11
    + word / 2 ^ 25 % 64 * 2 ^ 5
    + word / 2 ^ 8 % 16 * 2 ^ 1

abbrev pub j_offset : ℕ → ℕ
j_offset word =
    word / 2 ^ 31 % 2 * 2 ^ 20
    + word / 2 ^ 12 % 256 * 2 ^ 12
    + word / 2 ^ 20 % 2 * 2 ^ 11
    + word / 2 ^ 21 % 1024 * 2 ^ 1

pub decode_s_type_immediate-value :
    (word : ℕ)
    → decode_s_type_immediate word
      ≡ signed_number_to_bytes (word / 2 ^ 25 % 128 * 2 ^ 5 + word / 2 ^ 7 % 32) 12
unfolding decode_s_type_immediate
decode_s_type_immediate-value word =
    ap (λ (v : ℕ). signed_number_to_bytes v 12)
      (rw (bit_and_ones 7 (word / 2 ^ 25), bit_and_ones 5 (word / 2 ^ 7))
        (bit_or_shifted 5 (word / 2 ^ 25 % 128) (word / 2 ^ 7 % 32) (omega arith)))

scattered_b :
    (a b c d : ℕ)
    → a < 2
    → b < 2
    → c < 64
    → d < 16
    → bit_or (bit_or (bit_or (a * 2 ^ 12) (b * 2 ^ 11)) (c * 2 ^ 5)) (d * 2 ^ 1)
      ≡ a * 2 ^ 12 + b * 2 ^ 11 + c * 2 ^ 5 + d * 2 ^ 1
scattered_b a b c d ha hb hc hd =
    let first = bit_or_add 12 a (a * 2 ^ 12) (b * 2 ^ 11) refl (omega arith) in
    let second =
      bit_or_add 11 (a * 2 ^ 1 + b) (bit_or (a * 2 ^ 12) (b * 2 ^ 11)) (c * 2 ^ 5)
        (omega (arith, first)) (omega arith) in
    let third =
      bit_or_add 5 (a * 2 ^ 7 + b * 2 ^ 6 + c)
        (bit_or (bit_or (a * 2 ^ 12) (b * 2 ^ 11)) (c * 2 ^ 5)) (d * 2 ^ 1)
        (omega (arith, first, second)) (omega arith) in
    omega (arith, first, second, third)

scattered_j :
    (a b c d : ℕ)
    → a < 2
    → b < 256
    → c < 2
    → d < 1024
    → bit_or (bit_or (bit_or (a * 2 ^ 20) (b * 2 ^ 12)) (c * 2 ^ 11)) (d * 2 ^ 1)
      ≡ a * 2 ^ 20 + b * 2 ^ 12 + c * 2 ^ 11 + d * 2 ^ 1
scattered_j a b c d ha hb hc hd =
    let first = bit_or_add 20 a (a * 2 ^ 20) (b * 2 ^ 12) refl (omega arith) in
    let second =
      bit_or_add 12 (a * 2 ^ 8 + b) (bit_or (a * 2 ^ 20) (b * 2 ^ 12)) (c * 2 ^ 11)
        (omega (arith, first)) (omega arith) in
    let third =
      bit_or_add 11 (a * 2 ^ 9 + b * 2 ^ 1 + c)
        (bit_or (bit_or (a * 2 ^ 20) (b * 2 ^ 12)) (c * 2 ^ 11)) (d * 2 ^ 1)
        (omega (arith, first, second)) (omega arith) in
    omega (arith, first, second, third)

pub decode_b_type_immediate-value :
    (word : ℕ) → decode_b_type_immediate word ≡ signed_number_to_bytes (b_offset word) 13
unfolding decode_b_type_immediate
decode_b_type_immediate-value word =
    ap (λ (v : ℕ). signed_number_to_bytes v 13)
      (rw
        (
          bit_and_ones 1 (word / 2 ^ 31),
          bit_and_ones 1 (word / 2 ^ 7),
          bit_and_ones 6 (word / 2 ^ 25),
          bit_and_ones 4 (word / 2 ^ 8),
        )
        (scattered_b (word / 2 ^ 31 % 2) (word / 2 ^ 7 % 2) (word / 2 ^ 25 % 64) (word / 2 ^ 8 % 16)
          (omega arith) (omega arith) (omega arith) (omega arith)))

pub decode_j_type_immediate-value :
    (word : ℕ) → decode_j_type_immediate word ≡ signed_number_to_bytes (j_offset word) 21
unfolding decode_j_type_immediate
decode_j_type_immediate-value word =
    ap (λ (v : ℕ). signed_number_to_bytes v 21)
      (rw
        (
          bit_and_ones 1 (word / 2 ^ 31),
          bit_and_ones 8 (word / 2 ^ 12),
          bit_and_ones 1 (word / 2 ^ 20),
          bit_and_ones 10 (word / 2 ^ 21),
        )
        (scattered_j (word / 2 ^ 31 % 2) (word / 2 ^ 12 % 256) (word / 2 ^ 20 % 2)
          (word / 2 ^ 21 % 1024) (omega arith) (omega arith) (omega arith) (omega arith)))

pub decode_u_type_immediate-value :
    (word : ℕ)
    → word < 2 ^ 32
    → decode_u_type_immediate word ≡ signed_number_to_bytes (word / 2 ^ 12 * 2 ^ 12) 32
unfolding decode_u_type_immediate
decode_u_type_immediate-value word small =
    ap (λ (v : ℕ). signed_number_to_bytes v 32)
      (ground (
        arith,
        bit_and_fields 12 (word / 2 ^ 12) (2 ^ 20 - 1) (word % 2 ^ 12) 0 (omega arith)
            (omega arith),
        bit_and-zero (word % 2 ^ 12),
        bit_and_ones 20 (word / 2 ^ 12),
      ))
