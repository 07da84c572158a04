-- ===== src/Cpu/Decode/Encode/Compressed.antt =====
-- The scattered immediates of the 16-bit formats, written down from the RISC-V manual: what
-- src/emulator/cpu/decode/decode-c.ts has to gather again.
-- The formats by the instructions that use them; `shamt` is the shift amount.
use ya_risc_v.Bytes.Convert.{signed_number_to_bytes-IsWord, bytes_to_big_int-value}
use ya_risc_v.Bytes.Value.{word-ext, IsWord}
use ya_risc_v.Bytes.{Bytes, bytes_to_big_int, signed_number_to_bytes}
use ya_risc_v.Cpu.Decode.Compressed.Fields.{
  decode_lw_sp_offset, decode_cb_offset, decode_ld_sd_offset, decode_ld_sp_offset,
  decode_addi16_sp_immediate, decode_sd_sp_offset, decode_sw_sp_offset, decode_cj_offset,
  decode_lw_sw_offset, decode_ci_imm6, decode_shamt, decode_addi4_spn_immediate,
  decode_lui_immediate,
}
use ya_risc_v.Prelude.{
  refl, all_below, Bool, true, ◌+◌, ◌*◌, ◌/◌, ◌^◌, ◌%◌, ◌==◌, ◌≡◌, ℕ, all_below_sound, sym, ◌<◌,
  ◌∙◌, ==_iff,
}

pub data Scattered : Type 0 where
  ci lui shamt addi4_spn cj cb lw_sw ld_sd addi16_sp lw_sp ld_sp sw_sp sd_sp : Scattered

-- `width` bits of an immediate from bit `low` on, moved to bit `place` of the halfword.
abbrev pub moved : (immediate low width place : ℕ) → ℕ
moved immediate low width place = immediate / 2 ^ low % 2 ^ width * 2 ^ place

abbrev pub scatter : Scattered → ℕ → ℕ
scatter ci v = moved v 5 1 12 + moved v 0 5 2
scatter lui v = moved v 17 1 12 + moved v 12 5 2
scatter shamt v = moved v 5 1 12 + moved v 0 5 2
scatter addi4_spn v = moved v 4 2 11 + moved v 6 4 7 + moved v 2 1 6 + moved v 3 1 5
scatter cj v =
    moved v 11 1 12
    + moved v 4 1 11
    + moved v 8 2 9
    + moved v 10 1 8
    + moved v 6 1 7
    + moved v 7 1 6
    + moved v 1 3 3
    + moved v 5 1 2
scatter cb v = moved v 8 1 12 + moved v 3 2 10 + moved v 6 2 5 + moved v 1 2 3 + moved v 5 1 2
scatter lw_sw v = moved v 3 3 10 + moved v 2 1 6 + moved v 6 1 5
scatter ld_sd v = moved v 3 3 10 + moved v 6 2 5
scatter addi16_sp v = moved v 9 1 12 + moved v 4 1 6 + moved v 6 1 5 + moved v 7 2 3 + moved v 5 1 2
scatter lw_sp v = moved v 5 1 12 + moved v 2 3 4 + moved v 6 2 2
scatter ld_sp v = moved v 5 1 12 + moved v 3 2 5 + moved v 6 3 2
scatter sw_sp v = moved v 2 4 9 + moved v 6 2 7
scatter sd_sp v = moved v 3 3 10 + moved v 6 3 7

abbrev pub gathered : Scattered → ℕ → Bytes
gathered ci = decode_ci_imm6
gathered lui = decode_lui_immediate
gathered shamt = λ halfword. signed_number_to_bytes (decode_shamt halfword) 32
gathered addi4_spn = λ halfword. signed_number_to_bytes (decode_addi4_spn_immediate halfword) 32
gathered cj = decode_cj_offset
gathered cb = decode_cb_offset
gathered lw_sw = decode_lw_sw_offset
gathered ld_sd = decode_ld_sd_offset
gathered addi16_sp = decode_addi16_sp_immediate
gathered lw_sp = decode_lw_sp_offset
gathered ld_sp = decode_ld_sp_offset
gathered sw_sp = decode_sw_sp_offset
gathered sd_sp = decode_sd_sp_offset

-- Immediates are multiples of `unit_of`, and there are `count_of` of them.
abbrev pub unit_of : Scattered → ℕ
unit_of ci = 1
unit_of shamt = 1
unit_of lui = 4096
unit_of addi4_spn = 4
unit_of cj = 2
unit_of cb = 2
unit_of addi16_sp = 16
unit_of lw_sw = 4
unit_of lw_sp = 4
unit_of sw_sp = 4
unit_of _ = 8

abbrev pub count_of : Scattered → ℕ
count_of cj = 2048
count_of cb = 256
count_of addi4_spn = 256
count_of lw_sw = 32
count_of ld_sd = 32
count_of _ = 64

-- The width from which the immediate is sign-extended.
abbrev pub width_of : Scattered → ℕ
width_of ci = 6
width_of lui = 18
width_of cj = 12
width_of cb = 9
width_of addi16_sp = 10
width_of _ = 32

-- The widths of what may stand between the immediate's bits: from bit 2 on, and from bit 7 on.
abbrev pub low_bits : Scattered → ℕ
low_bits addi4_spn = 3
low_bits lw_sw = 3
low_bits ld_sd = 3
low_bits sw_sp = 5
low_bits sd_sp = 5
low_bits _ = 0

abbrev pub high_bits : Scattered → ℕ
high_bits addi4_spn = 0
high_bits cj = 0
high_bits sw_sp = 0
high_bits sd_sp = 0
high_bits cb = 3
high_bits lw_sw = 3
high_bits ld_sd = 3
high_bits _ = 5

-- The other parts of a halfword: the quadrant, registers and `funct3`.
abbrev pub around : (quadrant low high function3 : ℕ) → ℕ
around quadrant low high function3 = quadrant + low * 2 ^ 2 + high * 2 ^ 7 + function3 * 2 ^ 13

abbrev gathers : Scattered → ℕ → Bool
gathers format i =
    let v = i * unit_of format in
    bytes_to_big_int (gathered format (scatter format v))
    == bytes_to_big_int (signed_number_to_bytes v (width_of format))

gathers_small : (format : Scattered) → all_below (gathers format) (count_of format) ≡ true
unfolding all_below bytes_to_big_int signed_number_to_bytes decode_ci_imm6 decode_cj_offset
    decode_cb_offset decode_lw_sw_offset decode_ld_sd_offset decode_addi16_sp_immediate
    decode_lw_sp_offset decode_ld_sp_offset decode_sw_sp_offset decode_sd_sp_offset
    decode_lui_immediate
gathers_small ci = refl
gathers_small _ = refl

gathered-IsWord : (format : Scattered) (halfword : ℕ) → IsWord (gathered format halfword)
unfolding decode_ci_imm6 decode_cj_offset decode_cb_offset decode_lw_sw_offset decode_ld_sd_offset
    decode_addi16_sp_immediate decode_lw_sp_offset decode_ld_sp_offset decode_sw_sp_offset
    decode_sd_sp_offset decode_lui_immediate
gathered-IsWord ci halfword = signed_number_to_bytes-IsWord _ 6
gathered-IsWord lui halfword = signed_number_to_bytes-IsWord _ 32
gathered-IsWord shamt halfword = signed_number_to_bytes-IsWord _ 32
gathered-IsWord addi4_spn halfword = signed_number_to_bytes-IsWord _ 32
gathered-IsWord cj halfword = signed_number_to_bytes-IsWord _ 12
gathered-IsWord cb halfword = signed_number_to_bytes-IsWord _ 9
gathered-IsWord addi16_sp halfword = signed_number_to_bytes-IsWord _ 10
gathered-IsWord lw_sw halfword = signed_number_to_bytes-IsWord _ 32
gathered-IsWord ld_sd halfword = signed_number_to_bytes-IsWord _ 32
gathered-IsWord lw_sp halfword = signed_number_to_bytes-IsWord _ 32
gathered-IsWord ld_sp halfword = signed_number_to_bytes-IsWord _ 32
gathered-IsWord sw_sp halfword = signed_number_to_bytes-IsWord _ 32
gathered-IsWord sd_sp halfword = signed_number_to_bytes-IsWord _ 32

-- Where nothing stands around the immediate.
pub gathered-alone :
    (format : Scattered) (i : ℕ)
    → i < count_of format
    → gathered format (scatter format (i * unit_of format))
      ≡ signed_number_to_bytes (i * unit_of format) (width_of format)
gathered-alone format i below =
    let v = i * unit_of format in
    let left = gathered-IsWord format (scatter format v) in
    let right = signed_number_to_bytes-IsWord v (width_of format) in
    let passed =
      all_below_sound (gathers format) (count_of format) (gathers_small format) i below in
    let same =
      (==_iff (bytes_to_big_int (gathered format (scatter format v)))
          (bytes_to_big_int (signed_number_to_bytes v (width_of format)))).0
        passed in
    word-ext left right (sym (bytes_to_big_int-value left) ∙ same ∙ bytes_to_big_int-value right)
