-- ===== src/Bytes/Shift/Left.antt =====
-- `shiftLeftBytes` is multiplication by a power of two.
use ya_risc_v.Prelude.{ℕ, zero, suc, ◌+◌, ◌-◌, ◌*◌, ◌/◌, ◌%◌, ◌^◌, ◌<◌, ◌≡◌, ap, ◌∙◌, arith}
use ya_risc_v.Prelude.{ltb, leb, ◌!=◌, if◌then◌else◌, ◌&&◌, bit_or, bit_or_shifted}
use native.Mathlib.Nat.{one-le-pow, add-zero}
use ya_risc_v.Bytes.{Bytes, byte, shift_left_byte, shift_left_bytes}
use ya_risc_v.Bytes.Value.{
  tabulate-IsWord, value, IsBytes, IsWord, digits_value, value-tabulate, digits_value-word,
}
use ya_risc_v.Bytes.Value.{digits_value-lt}
use ya_risc_v.Bytes.Shift.Base.{digits_value-carry, digits_value-mul, digits_value-ext}
use ya_risc_v.Bytes.Shift.Base.{below_eight, pow_amount}

-- What a shift to the left by `j` bits moves from one byte into the next.
carry_left : Bytes → ℕ → ℕ → ℕ
carry_left s j zero = 0
carry_left s j (suc t) = byte s t / 2 ^ (8 - j)

-- A byte shifted to the left within its 8 bits, and the bits that leave it.
abbrev LeftStep : ℕ → Type 0
LeftStep j =
    (x h : ℕ)
    → x < 256
    → h < 2 ^ j
    → (2 ^ j * x + h ≡ (2 ^ j * x + h) % 256 + 256 * (x / 2 ^ (8 - j))) × (x / 2 ^ (8 - j) < 2 ^ j)

left_step : (j : ℕ) → j < 8 → LeftStep j
left_step =
    below_eight LeftStep (λ x h p q. omega arith) (λ x h p q. omega arith) (λ x h p q. omega arith)
      (λ x h p q. omega arith) (λ x h p q. omega arith) (λ x h p q. omega arith)
      (λ x h p q. omega arith) (λ x h p q. omega arith)

suc-sub_one : (t : ℕ) → suc t - 1 ≡ t
suc-sub_one t = omega arith

no_carry : (x : ℕ) → x < 256 → x / 2 ^ 8 ≡ 0
no_carry x h = omega arith

module _ (s : Bytes) (bytes : IsBytes s) (j : ℕ) (small : j < 8) where
  left_digit : ℕ → ℕ
  left_digit t = (2 ^ j * byte s t + carry_left s j t) % 256

  carry_left-lt : (t : ℕ) → carry_left s j t < 2 ^ j
  unfolding carry_left
  carry_left-lt zero = one-le-pow j 2 (omega arith)
  carry_left-lt (suc t) =
      (left_step j small (byte s t) 0 (bytes t) (one-le-pow j 2 (omega arith))).1

  left_digit-carry :
      (t : ℕ) → 2 ^ j * byte s t + carry_left s j t ≡ left_digit t + 256 * carry_left s j (suc t)
  unfolding left_digit carry_left
  left_digit-carry t = (left_step j small (byte s t) _ (bytes t) (carry_left-lt t)).0

  shift_left_byte-left_digit : (b i : ℕ) → shift_left_byte s b j i ≡ left_digit (i - b)
  unfolding left_digit carry_left
  shift_left_byte-left_digit b i = by_index (i - b)
    where
      by_index :
          (t : ℕ)
          → (if j != 0 && ltb 0 t
                then bit_or (byte s t * 2 ^ j) (byte s (t - 1) / 2 ^ (8 - j))
                else byte s t * 2 ^ j)
              % 256
            ≡ (2 ^ j * byte s t + carry_left s j t) % 256
      by_index zero = ground arith
      by_index (suc t) = rw (suc-sub_one t) (
          ground (
            arith,
            bit_or_shifted j (byte s (suc t)) (byte s t / 2 ^ (8 - j)),
            carry_left-lt (suc t),
            no_carry (byte s t) (bytes t),
          ))

  left_digits_sum :
      (n : ℕ)
      → digits_value n 0 left_digit + 256 ^ n * carry_left s j (n + 0)
        ≡ 2 ^ j * digits_value n 0 (byte s)
  unfolding carry_left
  left_digits_sum n =
      digits_value-carry (λ t. 2 ^ j * byte s t) left_digit (carry_left s j) left_digit-carry n 0
      ∙ add-zero _
      ∙ digits_value-mul (2 ^ j) n 0 (byte s)

  left_digits-lt : (n : ℕ) → digits_value n 0 left_digit < 256 ^ n
  unfolding left_digit
  left_digits-lt n = digits_value-lt n 0 left_digit (λ t. omega arith)

-- Whole bytes move by an index.
abbrev MovedLeft : ℕ → Type 0
MovedLeft b =
    (g : ℕ → ℕ)
    → digits_value 8 0 (λ i. if leb b i then g (i - b) else 0) ≡ 256 ^ b * digits_value (8 - b) 0 g

moved_left : (b : ℕ) → b < 8 → MovedLeft b
moved_left =
    below_eight MovedLeft (λ g. omega arith) (λ g. omega arith) (λ g. omega arith)
      (λ g. omega arith) (λ g. omega arith) (λ g. omega arith) (λ g. omega arith) (λ g. omega arith)

-- The low digits of a product, moved up, are the product modulo 2 ^ 64.
abbrev LeftTotal : ℕ → Type 0
LeftTotal b =
    (f : ℕ → ℕ) (c a m : ℕ)
    → a < 256 ^ (8 - b)
    → a + 256 ^ (8 - b) * c ≡ m * digits_value (8 - b) 0 f
    → 256 ^ b * a ≡ 256 ^ b * (m * digits_value 8 0 f) % 2 ^ 64

left_total : (b : ℕ) → b < 8 → LeftTotal b
left_total =
    below_eight LeftTotal (λ f c a m p q. omega arith) (λ f c a m p q. omega arith)
      (λ f c a m p q. omega arith) (λ f c a m p q. omega arith) (λ f c a m p q. omega arith)
      (λ f c a m p q. omega arith) (λ f c a m p q. omega arith) (λ f c a m p q. omega arith)

-- Over words, `shiftLeftBytes` multiplies by the power of two that the low six bits of the amount give,
-- modulo 2 ^ 64.
pub value-shift_left_bytes :
    {s : Bytes} (k : ℕ) → IsWord s → value (shift_left_bytes s k) ≡ value s * 2 ^ (k % 64) % 2 ^ 64
unfolding shift_left_bytes
value-shift_left_bytes {s} k w =
    value-tabulate 8 0 (λ i. if leb b i then shift_left_byte s b j i else 0)
    ∙ digits_value-ext 8 0 _ _ (λ i.
      ap (λ (t : ℕ). if leb b i then t else 0) (shift_left_byte-left_digit s w.bytes j small b i))
    ∙ moved_left b few (left_digit s w.bytes j small)
    ∙ left_total b few (byte s) _ _ (2 ^ j) (left_digits-lt s w.bytes j small (8 - b))
        (left_digits_sum s w.bytes j small (8 - b))
    ∙ total
  where
    b : ℕ
    b = k % 64 / 8

    j : ℕ
    j = k % 64 % 8

    few : b < 8
    few = omega arith

    small : j < 8
    small = omega arith

    total : 256 ^ b * (2 ^ j * digits_value 8 0 (byte s)) % 2 ^ 64 ≡ value s * 2 ^ (k % 64) % 2 ^ 64
    total = rw (digits_value-word w, ← pow_amount (k % 64)) (omega arith)

pub shift_left_bytes-IsWord : (s : Bytes) (k : ℕ) → IsWord (shift_left_bytes s k)
unfolding shift_left_bytes
shift_left_bytes-IsWord s k =
    tabulate-IsWord
      (λ i. if leb (k % 64 / 8) i then shift_left_byte s (k % 64 / 8) (k % 64 % 8) i else 0)
      (λ i. ground arith)
