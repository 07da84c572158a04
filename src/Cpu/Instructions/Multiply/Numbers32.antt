-- ===== src/Cpu/Instructions/Multiply/Numbers32.antt =====
-- Products, quotients and remainders of signed integers, cut to 32 bits.
use ya_risc_v.Cpu.Instructions.Op32M.{signed32_min}
use ya_risc_v.Cpu.Decode.Instruction.{
  multiply_word, remainder_word_unsigned, divide_word_unsigned, divide_word, remainder_word,
  MulOp32,
}
use ya_risc_v.Prelude.{
  low_bits_ℤ, refl, suc, ap, leb, ltb, arith, sym, is_same_ℤ, negated, negsuc, zero, pos, ◌*ℤ◌,
  ◌/ℤ◌, ◌%ℤ◌, ◌+◌, ◌*◌, ◌/◌, ◌^◌, ◌%◌, ◌≤◌, ◌<◌, ◌==◌, ◌&&◌, ◌-◌, ◌≡◌, ◌∙◌, if◌then◌else◌, ℕ, ℤ,
}
use native.Mathlib.Nat.{add-mul, mul_comm, div-le_self, mod-le, div-one, mod-one}

-- A 32-bit number in two's complement, and its distance from zero.
abbrev pub signed32 : ℕ → ℤ
signed32 v = if leb 0x80000000 v then negsuc (2 ^ 32 - v - 1) else pos v

abbrev pub magnitude32 : ℕ → ℕ
magnitude32 a = if ltb a (2 ^ 31) then a else 2 ^ 32 - a

-- The operations on 32-bit numbers.
abbrev pub multiply_result32 : MulOp32 → ℕ → ℕ → ℕ
multiply_result32 multiply_word a b = a * b % 2 ^ 32
multiply_result32 divide_word a b =
    let q = magnitude32 a / magnitude32 b in
    if b == 0
    then 2 ^ 32 - 1
    else if ltb a (2 ^ 31)
    then (if ltb b (2 ^ 31) then q else (2 ^ 32 - q) % 2 ^ 32)
    else if ltb b (2 ^ 31)
    then (2 ^ 32 - q) % 2 ^ 32
    else q
multiply_result32 divide_word_unsigned a b = if b == 0 then 2 ^ 32 - 1 else a / b
multiply_result32 remainder_word a b =
    let r = magnitude32 a % magnitude32 b in
    if b == 0 then a else if ltb a (2 ^ 31) then r else (2 ^ 32 - r) % 2 ^ 32
multiply_result32 remainder_word_unsigned a b = if b == 0 then a else a % b

low_negated : (n : ℕ) → n ≤ 2 ^ 31 → low_bits_ℤ 32 (negated n) ≡ (2 ^ 32 - n) % 2 ^ 32
low_negated zero h = refl
low_negated (suc n) h = omega arith

complement : (a b : ℕ) → a < 2 ^ 32 → (2 ^ 32 - a - 1 + 1) * b + a * b ≡ 2 ^ 32 * b
complement a b h =
    ap (λ (t : ℕ). t * b + a * b) {y = 2 ^ 32 - a} (omega arith)
    ∙ sym (add-mul (2 ^ 32 - a) a b)
    ∙ ap (λ (t : ℕ). t * b) (omega arith)

mirrored : (a b : ℕ) → b < 2 ^ 32 → a * (2 ^ 32 - b - 1 + 1) + b * a ≡ 2 ^ 32 * a
mirrored a b h = ap (λ (t : ℕ). t + b * a) (mul_comm a (2 ^ 32 - b - 1 + 1)) ∙ complement b a h

-- A negative product agrees with the positive one that complements it.
negative_low :
    (n product b : ℕ) → n + product ≡ 2 ^ 32 * b → low_bits_ℤ 32 (negated n) ≡ product % 2 ^ 32
negative_low zero product b e = omega arith
negative_low (suc n) product b e = omega arith

module _ (a b : ℕ) (ha : a < 2 ^ 32) (hb : b < 2 ^ 32) where
  pub product32 : low_bits_ℤ 32 (signed32 a *ℤ signed32 b) ≡ multiply_result32 multiply_word a b
  product32 = ground (
    arith,
    negative_low ((2 ^ 32 - a - 1 + 1) * b) (a * b) b (complement a b ha),
    negative_low (a * (2 ^ 32 - b - 1 + 1)) (b * a) a (mirrored a b hb),
    complement a (2 ^ 32 - b - 1 + 1) ha,
    mirrored a b hb,
    mul_comm a b,
  )

  pub quotient32 :
      low_bits_ℤ 32 (
        if is_same_ℤ (signed32 b) (pos 0)
        then negsuc 0
        else if is_same_ℤ (signed32 a) signed32_min && is_same_ℤ (signed32 b) (negsuc 0)
        then signed32 a
        else signed32 a /ℤ signed32 b)
      ≡ multiply_result32 divide_word a b
  quotient32 = ground (
    arith,
    div-le_self a b,
    div-le_self (2 ^ 32 - a) b,
    div-le_self a (2 ^ 32 - b),
    div-le_self (2 ^ 32 - a) (2 ^ 32 - b),
    low_negated ((2 ^ 32 - a - 1 + 1) / b),
    low_negated (a / (2 ^ 32 - b - 1 + 1)),
    div-one (2 ^ 31),
  )

  pub remainder32 :
      low_bits_ℤ 32 (
        if is_same_ℤ (signed32 b) (pos 0)
        then signed32 a
        else if is_same_ℤ (signed32 a) signed32_min && is_same_ℤ (signed32 b) (negsuc 0)
        then pos 0
        else signed32 a %ℤ signed32 b)
      ≡ multiply_result32 remainder_word a b
  remainder32 = ground (
    arith,
    mod-le a b,
    mod-le (2 ^ 32 - a) b,
    mod-le a (2 ^ 32 - b),
    mod-le (2 ^ 32 - a) (2 ^ 32 - b),
    low_negated ((2 ^ 32 - a - 1 + 1) % b),
    low_negated ((2 ^ 32 - a - 1 + 1) % (2 ^ 32 - b - 1 + 1)),
    mod-one (2 ^ 31),
  )
