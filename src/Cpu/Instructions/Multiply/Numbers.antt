-- ===== src/Cpu/Instructions/Multiply/Numbers.antt =====
-- Products, quotients and remainders of signed integers, cut to 64 bits.
-- The distance of a 64-bit number in two's complement from zero.
use native.Mathlib.Nat.{add-mul, mul_comm, div-lt_iff_lt-mul, div-le_self, mod-le, div-one, mod-one}
use ya_risc_v.Cpu.Decode.Instruction.{
  multiply_high_unsigned, multiply_high_signed_unsigned, divide_unsigned, remainder_unsigned,
  multiply, MulOp, divide, multiply_high, remainder,
}
use ya_risc_v.Cpu.Instructions.OpM.{signed_min}
use ya_risc_v.Prelude.{
  ltb, ◌+◌, ◌*◌, ◌/◌, ◌^◌, ◌%◌, ◌==◌, ◌-◌, ◌≡◌, ◌∙◌, if◌then◌else◌, ℕ, low_bits_ℤ, shift_right_ℤ,
  suc, refl, arith, pos, negated, ◌*ℤ◌, ◌<◌, ap, sym, is_same_ℤ, negsuc, zero, ◌/ℤ◌, ◌%ℤ◌, ◌&&◌,
  ◌≤◌,
}
use ya_risc_v.Cpu.Instructions.Result.{signed}

abbrev pub magnitude : ℕ → ℕ
magnitude a = if ltb a (2 ^ 63) then a else 2 ^ 64 - a

-- The operations of the M extension on 64-bit numbers. The high half of a signed product is that of
-- the unsigned one, less each factor whose partner is negative.
abbrev pub multiply_result : MulOp → ℕ → ℕ → ℕ
multiply_result multiply a b = a * b % 2 ^ 64
multiply_result multiply_high a b =
    (a * b / 2 ^ 64
      + 2 ^ 65
      - (if ltb a (2 ^ 63) then 0 else b)
      - (if ltb b (2 ^ 63) then 0 else a))
    % 2 ^ 64
multiply_result multiply_high_signed_unsigned a b =
    (a * b / 2 ^ 64 + 2 ^ 64 - (if ltb a (2 ^ 63) then 0 else b)) % 2 ^ 64
multiply_result multiply_high_unsigned a b = a * b / 2 ^ 64
multiply_result divide a b =
    let q = magnitude a / magnitude b in
    if b == 0
    then 2 ^ 64 - 1
    else if ltb a (2 ^ 63)
    then (if ltb b (2 ^ 63) then q else (2 ^ 64 - q) % 2 ^ 64)
    else if ltb b (2 ^ 63)
    then (2 ^ 64 - q) % 2 ^ 64
    else q
multiply_result divide_unsigned a b = if b == 0 then 2 ^ 64 - 1 else a / b
multiply_result remainder a b =
    let r = magnitude a % magnitude b in
    if b == 0 then a else if ltb a (2 ^ 63) then r else (2 ^ 64 - r) % 2 ^ 64
multiply_result remainder_unsigned a b = if b == 0 then a else a % b

-- The high half of the negative of a product.
high_negated :
    (n : ℕ)
    → low_bits_ℤ 64 (shift_right_ℤ (negated n) 64)
      ≡ (2 ^ 64 - (n + 2 ^ 64 - 1) / 2 ^ 64 % 2 ^ 64) % 2 ^ 64
high_negated zero = refl
high_negated (suc n) = omega arith

-- The product of a complement.
complement : (a b : ℕ) → a < 2 ^ 64 → (2 ^ 64 - a - 1 + 1) * b + a * b ≡ 2 ^ 64 * b
complement a b h =
    ap (λ (t : ℕ). t * b + a * b) {y = 2 ^ 64 - a} (omega arith)
    ∙ sym (add-mul (2 ^ 64 - a) a b)
    ∙ ap (λ (t : ℕ). t * b) (omega arith)

mirrored : (a b : ℕ) → b < 2 ^ 64 → a * (2 ^ 64 - b - 1 + 1) + b * a ≡ 2 ^ 64 * a
mirrored a b h = ap (λ (t : ℕ). t + b * a) (mul_comm a (2 ^ 64 - b - 1 + 1)) ∙ complement b a h

low_negated : (n : ℕ) → n ≤ 2 ^ 63 → low_bits_ℤ 64 (negated n) % 2 ^ 64 ≡ (2 ^ 64 - n) % 2 ^ 64
low_negated zero h = refl
low_negated (suc n) h = omega arith

negative_high :
    (n a b : ℕ)
    → b < 2 ^ 64
    → n + a * b ≡ 2 ^ 64 * b
    → low_bits_ℤ 64 (shift_right_ℤ (negated n) 64) % 2 ^ 64 ≡ (a * b / 2 ^ 64 + 2 ^ 64 - b) % 2 ^ 64
negative_high n a b h e = rw (high_negated n) (omega arith)

module _ (a b : ℕ) (ha : a < 2 ^ 64) (hb : b < 2 ^ 64) where
  pub product-lt : a * b / 2 ^ 64 < 2 ^ 64
  product-lt = (div-lt_iff_lt-mul (omega arith)).1 (omega (arith, complement a b ha))

  pub high_mixed :
      low_bits_ℤ 64 (shift_right_ℤ (signed a *ℤ pos b) 64) % 2 ^ 64
      ≡ multiply_result multiply_high_signed_unsigned a b
  high_mixed =
      ground
        (arith, product-lt, negative_high ((2 ^ 64 - a - 1 + 1) * b) a b hb (complement a b ha))

  pub high_signed :
      low_bits_ℤ 64 (shift_right_ℤ (signed a *ℤ signed b) 64) % 2 ^ 64
      ≡ multiply_result multiply_high a b
  high_signed = ground (
    arith,
    product-lt,
    negative_high ((2 ^ 64 - a - 1 + 1) * b) a b hb (complement a b ha),
    negative_high (a * (2 ^ 64 - b - 1 + 1)) b a ha (mirrored a b hb),
    complement a (2 ^ 64 - b - 1 + 1) ha,
    mirrored a b hb,
    mul_comm a b,
  )

  pub quotient_signed :
      low_bits_ℤ 64 (
          if is_same_ℤ (signed b) (pos 0)
          then negsuc 0
          else if is_same_ℤ (signed a) signed_min && is_same_ℤ (signed b) (negsuc 0)
          then signed a
          else signed a /ℤ signed b)
        % 2 ^ 64
      ≡ multiply_result divide a b
  quotient_signed = ground (
    arith,
    div-le_self a b,
    div-le_self (2 ^ 64 - a) b,
    div-le_self a (2 ^ 64 - b),
    div-le_self (2 ^ 64 - a) (2 ^ 64 - b),
    low_negated ((2 ^ 64 - a - 1 + 1) / b),
    low_negated (a / (2 ^ 64 - b - 1 + 1)),
    div-one (2 ^ 63),
  )

  pub remainder_signed :
      low_bits_ℤ 64 (
          if is_same_ℤ (signed b) (pos 0)
          then signed a
          else if is_same_ℤ (signed a) signed_min && is_same_ℤ (signed b) (negsuc 0)
          then pos 0
          else signed a %ℤ signed b)
        % 2 ^ 64
      ≡ multiply_result remainder a b
  remainder_signed = ground (
    arith,
    mod-le a b,
    mod-le (2 ^ 64 - a) b,
    mod-le a (2 ^ 64 - b),
    mod-le (2 ^ 64 - a) (2 ^ 64 - b),
    low_negated ((2 ^ 64 - a - 1 + 1) % b),
    low_negated ((2 ^ 64 - a - 1 + 1) % (2 ^ 64 - b - 1 + 1)),
    mod-one (2 ^ 63),
  )
