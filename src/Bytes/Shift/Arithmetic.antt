-- ===== src/Bytes/Shift/Arithmetic.antt =====
-- `shiftRightArithmeticBytes` divides and keeps the sign.
use ya_risc_v.Prelude.{ℕ, ◌+◌, ◌-◌, ◌*◌, ◌/◌, ◌%◌, ◌^◌, ◌≤◌, ◌<◌, ◌≡◌, ap, ◌∙◌}
use ya_risc_v.Prelude.{refl, arith, bit_or, bit_or_above, ltb, leb, ◌==◌, ◌!=◌, if◌then◌else◌, ◌&&◌}
use native.Mathlib.Nat.{div-lt_iff_lt-mul, one-le-pow}
use ya_risc_v.Bytes.{Bytes, byte, test_bits, shift_right_byte, shift_right_logical_bytes}
use ya_risc_v.Bytes.{shift_right_arithmetic_bytes}
use ya_risc_v.Bytes.Value.{value, IsWord, digits_value, digits_value-word, value-tabulate}
use ya_risc_v.Bytes.Value.{tabulate-IsWord, value-lt}
use ya_risc_v.Bytes.Convert.{test_bits-sign}
use ya_risc_v.Prelude.{if-ap, bit_or-lt, Bool, true, false}
use ya_risc_v.Bytes.Shift.Base.{digits_value-ext, below_eight, pow_amount, pow_bytes}
use ya_risc_v.Bytes.Shift.Right.{value-shift_right_logical_bytes}

pub shift_right_logical_bytes-IsWord : (s : Bytes) (k : ℕ) → IsWord (shift_right_logical_bytes s k)
unfolding shift_right_logical_bytes
shift_right_logical_bytes-IsWord s k =
    tabulate-IsWord
      (λ i. if ltb i (8 - k % 64 / 8) then shift_right_byte s (k % 64 / 8) (k % 64 % 8) i else 0)
      (λ i. ground arith)

-- The byte that holds the last bit of the logical result gets ones above it.
abbrev Filled : ℕ → Type 0
Filled j =
    (d : ℕ)
    → d < 2 ^ (8 - j)
    → ((if j != 0 then bit_or d (255 * 2 ^ (8 - j) % 256) else d) ≡ d + (256 - 2 ^ (8 - j)))
      × (2 ^ (8 - j) ≤ 256)

filled : (j : ℕ) → j < 8 → Filled j
filled =
    below_eight Filled (λ d h. omega arith) (λ d h. omega (arith, bit_or_above 7 1 d h))
      (λ d h. omega (arith, bit_or_above 6 3 d h)) (λ d h. omega (arith, bit_or_above 5 7 d h))
      (λ d h. omega (arith, bit_or_above 4 15 d h)) (λ d h. omega (arith, bit_or_above 3 31 d h))
      (λ d h. omega (arith, bit_or_above 2 63 d h)) (λ d h. omega (arith, bit_or_above 1 127 d h))

-- Bytes of ones above, and `m` the bound on the byte between.
abbrev Extended : ℕ → Type 0
Extended b =
    (l g : ℕ → ℕ) (m : ℕ)
    → ((i : ℕ) → l i < 256)
    → m ≤ 256
    → digits_value 8 0 l < 256 ^ (7 - b) * m
    → (l (7 - b) < m → g (7 - b) ≡ l (7 - b) + (256 - m))
    → digits_value 8 0 (λ i. if leb (8 - b) i then 255 else if i == 7 - b then g i else l i)
      ≡ digits_value 8 0 l + (2 ^ 64 - 256 ^ (7 - b) * m)

extended : (b : ℕ) → b < 8 → Extended b
extended =
    below_eight Extended (λ l g m p q r e. omega (arith, e (omega arith)))
      (λ l g m p q r e. omega (arith, e (omega arith)))
      (λ l g m p q r e. omega (arith, e (omega arith)))
      (λ l g m p q r e. omega (arith, e (omega arith)))
      (λ l g m p q r e. omega (arith, e (omega arith)))
      (λ l g m p q r e. omega (arith, e (omega arith)))
      (λ l g m p q r e. omega (arith, e (omega arith)))
      (λ l g m p q r e. omega (arith, e (omega arith)))

whole_halves : (b : ℕ) → b < 8 → 256 ^ b * 256 ^ (7 - b) ≡ 256 ^ 7
whole_halves =
    below_eight (λ (b : ℕ). 256 ^ b * 256 ^ (7 - b) ≡ 256 ^ 7) refl refl refl refl refl refl refl
      refl

bit_halves : (j : ℕ) → j < 8 → 2 ^ j * 2 ^ (8 - j) ≡ 256
bit_halves =
    below_eight (λ (j : ℕ). 2 ^ j * 2 ^ (8 - j) ≡ 256) refl refl refl refl refl refl refl refl

-- The bits that are left of a word after a shift by `k`, as whole bytes and bits.
abbrev remaining : ℕ → ℕ
remaining k = 256 ^ (7 - k / 8) * 2 ^ (8 - k % 8)

remaining-complement : (k : ℕ) → k < 64 → remaining k * 2 ^ k ≡ 2 ^ 64
remaining-complement k few = rw (← pow_amount k) (
    omega (
      arith,
      ap (λ (t : ℕ). t * (2 ^ (k % 8) * 2 ^ (8 - k % 8))) (whole_halves (k / 8) (omega arith)),
      bit_halves (k % 8) (omega arith),
    ))

remaining-pow : (k : ℕ) → k < 64 → remaining k ≡ 2 ^ (64 - k)
remaining-pow k few = pow_bytes (7 - k / 8) (8 - k % 8) ∙ ap (λ (t : ℕ). 2 ^ t) (omega arith)

below_remaining : (k v : ℕ) → k < 64 → v < 2 ^ 64 → v / 2 ^ k < remaining k
below_remaining k v few h =
    (div-lt_iff_lt-mul (one-le-pow k 2 (omega arith))).1 (rw (remaining-complement k few) h)

-- The fills, when the word is negative.
module _ {s : Bytes} (k : ℕ) (few : k < 64) (w : IsWord s) where
  logical : Bytes
  logical = shift_right_logical_bytes s k

  filled_byte : ℕ → ℕ
  filled_byte i =
      if k % 8 != 0 then bit_or (byte logical i) (255 * 2 ^ (8 - k % 8) % 256) else byte logical i

  logical-value : digits_value 8 0 (byte logical) ≡ value s / 2 ^ k
  unfolding logical
  logical-value =
      digits_value-word (shift_right_logical_bytes-IsWord s k)
      ∙ value-shift_right_logical_bytes k w
      ∙ ap (λ (t : ℕ). value s / 2 ^ t) (omega arith)

  fills-value :
      digits_value 8 0 (λ i.
        if leb (8 - k / 8) i then 255 else if i == 7 - k / 8 then filled_byte i else byte logical i)
      ≡ value s / 2 ^ k + (2 ^ 64 - 2 ^ (64 - k))
  unfolding logical filled_byte
  fills-value =
      extended (k / 8) (omega arith) (byte logical) filled_byte (2 ^ (8 - k % 8))
        (shift_right_logical_bytes-IsWord s k).bytes
        (filled (k % 8) (omega arith) 0 (one-le-pow (8 - k % 8) 2 (omega arith))).1
        (rw logical-value (below_remaining k (value s) few (value-lt w)))
        (λ h. (filled (k % 8) (omega arith) (byte logical (7 - k / 8)) h).0)
      ∙ rw (logical-value, remaining-pow k few) refl

fill :
    (c d e : Bool) (x y : ℕ)
    → (if c then 255 else if d && e then x else y)
      ≡ (if c then 255 else if e then (if d then x else y) else y)
fill true d e x y = refl
fill false true e x y = refl
fill false false true x y = refl
fill false false false x y = refl

by_sign :
    (c : Bool) (t l : Bytes) (v r : ℕ)
    → value t ≡ v + r
    → value l ≡ v
    → value (if c then t else l) ≡ v + (if c then r else 0)
by_sign true t l v r p q = p
by_sign false t l v r p q = omega (arith, q)

-- Over words, `shiftRightArithmeticBytes` divides by the power of two that the low six bits of the amount
-- give, and sets the bits above the quotient when the word is negative.
pub value-shift_right_arithmetic_bytes :
    {s : Bytes} (k : ℕ)
    → IsWord s
    → value (shift_right_arithmetic_bytes s k)
      ≡ value s / 2 ^ (k % 64) + (if leb (2 ^ 63) (value s) then 2 ^ 64 - 2 ^ (64 - k % 64) else 0)
unfolding shift_right_arithmetic_bytes logical filled_byte
value-shift_right_arithmetic_bytes {s} k w = rw (test_bits-sign w) (
    by_sign (leb (2 ^ 63) (value s)) _ _ _ _
      (value-tabulate 8 0 (λ i.
          if leb (8 - k % 64 / 8) i
          then 255
          else if k % 64 % 8 != 0 && i == 7 - k % 64 / 8
          then bit_or (byte (shift_right_logical_bytes s (k % 64)) i)
              (255 * 2 ^ (8 - k % 64 % 8) % 256)
          else byte (shift_right_logical_bytes s (k % 64)) i)
        ∙ digits_value-ext 8 0 _ _ (λ i.
          fill (leb (8 - k % 64 / 8) i) (k % 64 % 8 != 0) (i == 7 - k % 64 / 8)
            (bit_or (byte (shift_right_logical_bytes s (k % 64)) i)
              (255 * 2 ^ (8 - k % 64 % 8) % 256))
            (byte (shift_right_logical_bytes s (k % 64)) i))
        ∙ fills-value (k % 64) (omega arith) w)
      (value-shift_right_logical_bytes (k % 64) w ∙ ap (λ (t : ℕ). value s / 2 ^ t) (omega arith)))

pub shift_right_arithmetic_bytes-IsWord :
    {s : Bytes} (k : ℕ) → IsWord s → IsWord (shift_right_arithmetic_bytes s k)
unfolding shift_right_arithmetic_bytes
shift_right_arithmetic_bytes-IsWord {s} k w =
    if-ap IsWord (test_bits (byte s 7) 0x80) _ _
      (tabulate-IsWord
        (λ i.
          if leb (8 - k % 64 / 8) i
          then 255
          else if k % 64 % 8 != 0 && i == 7 - k % 64 / 8
          then bit_or (byte (shift_right_logical_bytes s (k % 64)) i)
              (255 * 2 ^ (8 - k % 64 % 8) % 256)
          else byte (shift_right_logical_bytes s (k % 64)) i)
        (λ i. ground (
          arith,
          (shift_right_logical_bytes-IsWord s (k % 64)).bytes i,
          bit_or-lt 8 (byte (shift_right_logical_bytes s (k % 64)) i)
              (255 * 2 ^ (8 - k % 64 % 8) % 256),
        )))
      (shift_right_logical_bytes-IsWord s (k % 64))
