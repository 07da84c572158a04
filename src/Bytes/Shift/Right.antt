-- ===== src/Bytes/Shift/Right.antt =====
-- `shiftRightLogicalBytes` is division by a power of two.
use ya_risc_v.Prelude.{
  ℕ, zero, suc, ◌+◌, ◌-◌, ◌*◌, ◌/◌, ◌%◌, ◌^◌, ◌≤◌, ◌<◌, ◌≡◌, refl, ap, sym, ◌∙◌, arith,
}
use ya_risc_v.Prelude.{ltb, if◌then◌else◌}
use native.Mathlib.Nat.{one-le-pow}
use ya_risc_v.Bytes.{Bytes, byte, shift_right_byte}
use ya_risc_v.Bytes.{shift_right_logical_bytes}
use ya_risc_v.Bytes.Value.{value, IsWord, digits_value, value-tabulate, digits_value-word}
use ya_risc_v.Bytes.Value.{digits_value-lt}
use native.Mathlib.Nat.{mul-add-div, mod-lt, div-eq_of_lt, div-div-eq-div-mul}
use ya_risc_v.Prelude.{bit_or_above, [], ◌∷◌, length}
use ya_risc_v.Bytes.Shift.Base.{digits_value-carry, digits_value-mul, digits_value-ext}
use ya_risc_v.Bytes.Shift.Base.{below_eight, pow_amount}

abbrev RightStep : ℕ → Type 0
RightStep j =
    (x y : ℕ)
    → x < 256
    → y < 256
    → (2 ^ j * ((y * 2 ^ (8 - j) + x / 2 ^ j) % 256) + x % 2 ^ j ≡ x + 256 * (y % 2 ^ j))
      × (x / 2 ^ j < 2 ^ (8 - j))

right_step : (j : ℕ) → j < 8 → RightStep j
right_step =
    below_eight RightStep (λ x y p q. omega arith) (λ x y p q. omega arith) (λ x y p q. omega arith)
      (λ x y p q. omega arith) (λ x y p q. omega arith) (λ x y p q. omega arith)
      (λ x y p q. omega arith) (λ x y p q. omega arith)

-- A read past the end of a `Uint8Array` is `undefined ?? 0`.
byte_beyond : (b : Bytes) (i : ℕ) → length b ≤ i → byte b i ≡ 0
byte_beyond [] i h = refl
byte_beyond (x ∷ b) zero h = absurd (omega arith)
byte_beyond (x ∷ b) (suc i) h = byte_beyond b i (omega arith)

suc-add_one : (t : ℕ) → t + 1 ≡ suc t
suc-add_one t = omega arith

whole_byte : (y x : ℕ) → x < 256 → (y * 2 ^ 8 + x / 2 ^ 0) % 256 ≡ x
whole_byte y x h = omega arith

quotient : (m x r : ℕ) → r < m → (m * x + r) / m ≡ x
quotient m x r h = mul-add-div {m = m} (omega arith) x r ∙ omega (arith, div-eq_of_lt h)

module _ (s : Bytes) (w : IsWord s) (j : ℕ) (small : j < 8) where
  right_digit : ℕ → ℕ
  right_digit t = (byte s (suc t) * 2 ^ (8 - j) + byte s t / 2 ^ j) % 256

  right_digit-carry :
      (t : ℕ) → 2 ^ j * right_digit t + byte s t % 2 ^ j ≡ byte s t + 256 * (byte s (suc t) % 2 ^ j)
  unfolding right_digit
  right_digit-carry t =
      (right_step j small (byte s t) (byte s (suc t)) (w.bytes t) (w.bytes (suc t))).0

  shift_right_byte-right_digit : (b i : ℕ) → shift_right_byte s b j i ≡ right_digit (i + b)
  unfolding right_digit
  shift_right_byte-right_digit b i = rw (suc-add_one (i + b)) (
      ground (
        arith,
        (right_step j small (byte s (i + b)) 0 (w.bytes (i + b)) (omega arith)).1,
        bit_or_above (8 - j) (byte s (suc (i + b))) (byte s (i + b) / 2 ^ j),
        byte_beyond s (suc (i + b)),
        w.size,
        whole_byte (byte s (suc (i + b))) (byte s (i + b)) (w.bytes (i + b)),
      ))

  right_digits_sum :
      (n b : ℕ)
      → n + b ≡ 8
      → digits_value n b (byte s) ≡ 2 ^ j * digits_value n b right_digit + byte s b % 2 ^ j
  right_digits_sum n b e = ground (
    arith,
    digits_value-carry (λ t. 2 ^ j * right_digit t) (byte s) (λ t. byte s t % 2 ^ j)
        right_digit-carry n b,
    digits_value-mul (2 ^ j) n b right_digit,
    byte_beyond s (n + b),
    w.size,
    one-le-pow j 2,
  )

-- Whole bytes move down by an index.
abbrev MovedRight : ℕ → Type 0
MovedRight b =
    (g : ℕ → ℕ)
    → digits_value 8 0 (λ i. if ltb i (8 - b) then g (i + b) else 0) ≡ digits_value (8 - b) b g

moved_right : (b : ℕ) → b < 8 → MovedRight b
moved_right =
    below_eight MovedRight (λ g. omega arith) (λ g. omega arith) (λ g. omega arith)
      (λ g. omega arith) (λ g. omega arith) (λ g. omega arith) (λ g. omega arith) (λ g. omega arith)

abbrev DroppedRight : ℕ → Type 0
DroppedRight b =
    (f : ℕ → ℕ)
    → digits_value b 0 f < 256 ^ b
    → digits_value 8 0 f / 256 ^ b ≡ digits_value (8 - b) b f

dropped_right : (b : ℕ) → b < 8 → DroppedRight b
dropped_right =
    below_eight DroppedRight (λ f h. omega arith) (λ f h. omega arith) (λ f h. omega arith)
      (λ f h. omega arith) (λ f h. omega arith) (λ f h. omega arith) (λ f h. omega arith)
      (λ f h. omega arith)

-- Over words, `shiftRightLogicalBytes` divides by the power of two that the low six bits of the
-- amount give.
pub value-shift_right_logical_bytes :
    {s : Bytes} (k : ℕ) → IsWord s → value (shift_right_logical_bytes s k) ≡ value s / 2 ^ (k % 64)
unfolding shift_right_logical_bytes
value-shift_right_logical_bytes {s} k w =
    value-tabulate 8 0 (λ i. if ltb i (8 - b) then shift_right_byte s b j i else 0)
    ∙ digits_value-ext 8 0 _ _ (λ i.
      ap (λ (t : ℕ). if ltb i (8 - b) then t else 0) (shift_right_byte-right_digit s w j small b i))
    ∙ moved_right b few (right_digit s w j small)
    ∙ sym (quotient (2 ^ j) _ (byte s b % 2 ^ j) (mod-lt (byte s b) (one-le-pow j 2 (omega arith))))
    ∙ ap (λ (t : ℕ). t / 2 ^ j) (sym (right_digits_sum s w j small (8 - b) b (omega arith)))
    ∙ ap (λ (t : ℕ). t / 2 ^ j)
        (sym (dropped_right b few (byte s) (digits_value-lt b 0 (byte s) w.bytes)))
    ∙ total
  where
    b : ℕ
    b = k % 64 / 8

    j : ℕ
    j = k % 64 % 8

    few : b < 8
    few = omega arith

    small : j < 8
    small = omega arith

    total : digits_value 8 0 (byte s) / 256 ^ b / 2 ^ j ≡ value s / 2 ^ (k % 64)
    total =
        rw
          (digits_value-word w, div-div-eq-div-mul (value s) (256 ^ b) (2 ^ j), pow_amount (k % 64))
