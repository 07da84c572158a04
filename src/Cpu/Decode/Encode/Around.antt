-- ===== src/Cpu/Decode/Encode/Around.antt =====
-- The immediates of the 16-bit formats inside whole halfwords: the decoder reads no bit of what
-- stands around them.
use ya_risc_v.Bytes.{signed_number_to_bytes}
use ya_risc_v.Cpu.Decode.Fields.{bits}
use ya_risc_v.Cpu.Decode.Encode.Compressed.{
  gathered, Scattered, ci, cb, ld_sd, lw_sw, addi4_spn, cj, sw_sp, lui, addi16_sp, sd_sp, ld_sp,
  lw_sp, shamt, high_bits, width_of, scatter, count_of, low_bits, gathered-alone, unit_of, around,
}
use ya_risc_v.Prelude.{
  List, sym, bit_and_ones, arith, refl, bit_and-pow, ◌/◌, ◌^◌, ◌%◌, ◌-◌, ◌≡◌, ◌∙◌, ◌∷◌, [], ℕ, ◌+◌,
  ◌*◌, ◌<◌,
}
use ya_risc_v.Cpu.Decode.Compressed.Fields.{
  decode_lui_immediate, decode_cj_offset, decode_lw_sp_offset, decode_addi16_sp_immediate,
  decode_lw_sw_offset, decode_ld_sp_offset, decode_ld_sd_offset, decode_sw_sp_offset,
  decode_ci_imm6, decode_cb_offset, decode_sd_sp_offset,
}

-- The fields that the decoder of a format reads: first bit and width.
abbrev fields : Scattered → List (ℕ × ℕ)
fields ci = (12, 1) ∷ (2, 5) ∷ []
fields lui = (12, 1) ∷ (2, 5) ∷ []
fields shamt = (12, 1) ∷ (2, 5) ∷ []
fields addi4_spn = (7, 4) ∷ (11, 2) ∷ (5, 1) ∷ (6, 1) ∷ []
fields cj = (12, 1) ∷ (11, 1) ∷ (9, 2) ∷ (8, 1) ∷ (7, 1) ∷ (6, 1) ∷ (3, 3) ∷ (2, 1) ∷ []
fields cb = (12, 1) ∷ (10, 2) ∷ (5, 2) ∷ (3, 2) ∷ (2, 1) ∷ []
fields lw_sw = (10, 3) ∷ (6, 1) ∷ (5, 1) ∷ []
fields ld_sd = (10, 3) ∷ (5, 2) ∷ []
fields addi16_sp = (12, 1) ∷ (6, 1) ∷ (5, 1) ∷ (3, 2) ∷ (2, 1) ∷ []
fields lw_sp = (12, 1) ∷ (4, 3) ∷ (2, 2) ∷ []
fields ld_sp = (12, 1) ∷ (5, 2) ∷ (2, 3) ∷ []
fields sw_sp = (9, 4) ∷ (7, 2) ∷ []
fields sd_sp = (10, 3) ∷ (7, 3) ∷ []

abbrev SameFields : List (ℕ × ℕ) → ℕ → ℕ → Type 0
SameFields [] h x = Unit {0}
SameFields ((s, k) ∷ rest) h x = (h / 2 ^ s % 2 ^ k ≡ x / 2 ^ s % 2 ^ k) × SameFields rest h x

same_bits :
    (s k h x : ℕ)
    → h / 2 ^ s % 2 ^ k ≡ x / 2 ^ s % 2 ^ k
    → bits h s (2 ^ k - 1) ≡ bits x s (2 ^ k - 1)
same_bits s k h x e = bit_and_ones k (h / 2 ^ s) ∙ e ∙ sym (bit_and_ones k (x / 2 ^ s))

-- Bit 12, read at its place.
same_sign : (h x : ℕ) → h / 2 ^ 12 % 2 ^ 1 ≡ x / 2 ^ 12 % 2 ^ 1 → bits h 7 0x20 ≡ bits x 7 0x20
same_sign h x e = omega (arith, bit_and-pow 5 (h / 2 ^ 7), bit_and-pow 5 (x / 2 ^ 7))

abbrev SameBits : List (ℕ × ℕ) → ℕ → ℕ → Type 0
SameBits [] h x = Unit {0}
SameBits ((s, k) ∷ rest) h x = (bits h s (2 ^ k - 1) ≡ bits x s (2 ^ k - 1)) × SameBits rest h x

bits_of_fields : (list : List (ℕ × ℕ)) (h x : ℕ) → SameFields list h x → SameBits list h x
bits_of_fields [] h x same = tt
bits_of_fields ((s, k) ∷ rest) h x same = (same_bits s k h x same.0, bits_of_fields rest h x same.1)

gathered-same :
    (format : Scattered) (h x : ℕ)
    → SameFields (fields format) h x
    → gathered format h ≡ gathered format x
unfolding decode_ci_imm6 decode_cj_offset decode_cb_offset decode_lw_sw_offset decode_ld_sd_offset
    decode_addi16_sp_immediate decode_lw_sp_offset decode_ld_sp_offset decode_sw_sp_offset
    decode_sd_sp_offset decode_lui_immediate
gathered-same ci h x same = rw (same_sign h x same.0, same_bits 2 5 h x same.1.0) refl
gathered-same lui h x same = let e = bits_of_fields (fields lui) h x same in rw (e.0, e.1.0) refl
gathered-same shamt h x same =
    let e = bits_of_fields (fields shamt) h x same in rw (e.0, e.1.0) refl
gathered-same addi4_spn h x same =
    let e = bits_of_fields (fields addi4_spn) h x same in rw (e.0, e.1.0, e.1.1.0, e.1.1.1.0) refl
gathered-same cj h x same =
    let e = bits_of_fields (fields cj) h x same in
    rw
      (
        e.0, e.1.0, e.1.1.0, e.1.1.1.0, e.1.1.1.1.0, e.1.1.1.1.1.0, e.1.1.1.1.1.1.0,
        e.1.1.1.1.1.1.1.0,
      )
      refl
gathered-same cb h x same =
    let e = bits_of_fields (fields cb) h x same in
    rw (e.0, e.1.0, e.1.1.0, e.1.1.1.0, e.1.1.1.1.0) refl
gathered-same lw_sw h x same =
    let e = bits_of_fields (fields lw_sw) h x same in rw (e.0, e.1.0, e.1.1.0) refl
gathered-same ld_sd h x same =
    let e = bits_of_fields (fields ld_sd) h x same in rw (e.0, e.1.0) refl
gathered-same addi16_sp h x same =
    let e = bits_of_fields (fields addi16_sp) h x same in
    rw (e.0, e.1.0, e.1.1.0, e.1.1.1.0, e.1.1.1.1.0) refl
gathered-same lw_sp h x same =
    let e = bits_of_fields (fields lw_sp) h x same in rw (e.0, e.1.0, e.1.1.0) refl
gathered-same ld_sp h x same =
    let e = bits_of_fields (fields ld_sp) h x same in rw (e.0, e.1.0, e.1.1.0) refl
gathered-same sw_sp h x same =
    let e = bits_of_fields (fields sw_sp) h x same in rw (e.0, e.1.0) refl
gathered-same sd_sp h x same =
    let e = bits_of_fields (fields sd_sp) h x same in rw (e.0, e.1.0) refl

module _ (i quadrant low high function3 : ℕ) (hq : quadrant < 4) (h3 : function3 < 8) where
  fields-same :
      (format : Scattered)
      → i < count_of format
      → low < 2 ^ low_bits format
      → high < 2 ^ high_bits format
      → SameFields
          (fields format)
          (scatter format (i * unit_of format) + around quadrant low high function3)
          (scatter format (i * unit_of format))
  fields-same ci hi hl hh = (omega arith, (omega arith, tt))
  fields-same lui hi hl hh = (omega arith, (omega arith, tt))
  fields-same shamt hi hl hh = (omega arith, (omega arith, tt))
  fields-same addi4_spn hi hl hh = (omega arith, (omega arith, (omega arith, (omega arith, tt))))
  fields-same cj hi hl hh = (
    omega arith,
    (
      omega arith,
      (omega arith, (omega arith, (omega arith, (omega arith, (omega arith, (omega arith, tt)))))),
    ),
  )
  fields-same cb hi hl hh =
      (omega arith, (omega arith, (omega arith, (omega arith, (omega arith, tt)))))
  fields-same lw_sw hi hl hh = (omega arith, (omega arith, (omega arith, tt)))
  fields-same ld_sd hi hl hh = (omega arith, (omega arith, tt))
  fields-same addi16_sp hi hl hh =
      (omega arith, (omega arith, (omega arith, (omega arith, (omega arith, tt)))))
  fields-same lw_sp hi hl hh = (omega arith, (omega arith, (omega arith, tt)))
  fields-same ld_sp hi hl hh = (omega arith, (omega arith, (omega arith, tt)))
  fields-same sw_sp hi hl hh = (omega arith, (omega arith, tt))
  fields-same sd_sp hi hl hh = (omega arith, (omega arith, tt))

-- An immediate of a 16-bit format, scattered over a halfword, is gathered again by the decoder,
-- sign-extended from the width of its format, whatever quadrant, `funct3` and registers stand
-- around it. The immediate is the `i`-th multiple of the format's unit, and `i` is below their
-- number; the shift amount is taken as a number that is never negative.
pub gathered-scatter :
    (format : Scattered) (i quadrant low high function3 : ℕ)
    → i < count_of format
    → quadrant < 4
    → low < 2 ^ low_bits format
    → high < 2 ^ high_bits format
    → function3 < 8
    → gathered format (scatter format (i * unit_of format) + around quadrant low high function3)
      ≡ signed_number_to_bytes (i * unit_of format) (width_of format)
gathered-scatter format i quadrant low high function3 hi hq hl hh h3 =
    gathered-same format (scatter format (i * unit_of format) + around quadrant low high function3)
      (scatter format (i * unit_of format))
      (fields-same i quadrant low high function3 hq h3 format hi hl hh)
    ∙ gathered-alone format i hi
