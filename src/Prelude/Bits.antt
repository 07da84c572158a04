-- ===== src/Prelude/Bits.antt =====
-- Laws of the native `&`, `|` and `^` at variables: the lowest digit first, then fields of bits.
use Prim.Native.Nat.{ℕ, zero, suc, ◌+◌, ◌-◌, ◌*◌, ◌/◌, ◌%◌, ◌^◌, ◌≤◌, ◌<◌, min, max, digits, differ}
use Prim.Native.Nat.{bit_and, bit_or, bit_xor, bit_and-bitwise, bit_or-bitwise, bit_xor-bitwise}
use mathlib.Core.Path.{◌≡◌, refl, ap, sym, ◌∙◌}
use native.Mathlib.Nat.{pow-suc, one-le-pow}
use native.Mathlib.Omega.{arith}

module _ (z : ℕ → ℕ) (f : ℕ → ℕ → ℕ) where
  digits-zero : (count y : ℕ) → digits z f count 0 y ≡ z y
  digits-zero zero y = refl
  digits-zero (suc count) y = refl

  -- Digits past the end of the first number change nothing.
  digits_stable :
      (x few many y : ℕ) → x ≤ few → few ≤ many → digits z f many x y ≡ digits z f few x y
  digits_stable zero few many y h le = digits-zero many y ∙ sym (digits-zero few y)
  digits_stable (suc x) (suc few) (suc many) y h le =
      ap (λ (rest : ℕ). rest * 2 + f (suc x % 2) (y % 2))
        (digits_stable (suc x / 2) few many (y / 2) (omega arith) (omega arith))
  digits_stable (suc x) zero many y h le = absurd (omega arith)
  digits_stable (suc x) (suc few) zero y h le = absurd (omega arith)

  digits-half : (x y : ℕ) → digits z f x (suc x / 2) y ≡ digits z f (suc x / 2) (suc x / 2) y
  digits-half x y = digits_stable (suc x / 2) (suc x / 2) x y (omega arith) (omega arith)

pub bit_and_step : (a b : ℕ) → bit_and a b ≡ 2 * bit_and (a / 2) (b / 2) + min (a % 2) (b % 2)
bit_and_step zero b = omega (arith, bit_and-bitwise 0 b, bit_and-bitwise 0 (b / 2))
bit_and_step (suc a) b = omega (
  arith,
  bit_and-bitwise (suc a) b,
  bit_and-bitwise (suc a / 2) (b / 2),
  digits-half (λ t. 0) min a (b / 2),
)

pub bit_or_step : (a b : ℕ) → bit_or a b ≡ 2 * bit_or (a / 2) (b / 2) + max (a % 2) (b % 2)
bit_or_step zero b = omega (arith, bit_or-bitwise 0 b, bit_or-bitwise 0 (b / 2))
bit_or_step (suc a) b = omega (
  arith,
  bit_or-bitwise (suc a) b,
  bit_or-bitwise (suc a / 2) (b / 2),
  digits-half (λ t. t) max a (b / 2),
)

pub bit_xor_step : (a b : ℕ) → bit_xor a b ≡ 2 * bit_xor (a / 2) (b / 2) + differ (a % 2) (b % 2)
bit_xor_step zero b = ground (arith, bit_xor-bitwise 0 b, bit_xor-bitwise 0 (b / 2))
bit_xor_step (suc a) b = ground (
  arith,
  bit_xor-bitwise (suc a) b,
  bit_xor-bitwise (suc a / 2) (b / 2),
  digits-half (λ t. t) differ a (b / 2),
)

-- An operation that works digit by digit splits at any width.
module _ (op dig : ℕ → ℕ → ℕ)
    (step : (a b : ℕ) → op a b ≡ 2 * op (a / 2) (b / 2) + dig (a % 2) (b % 2))
    (base : op 0 0 ≡ 0) where
  pub fields_of_step :
      (k q p r s : ℕ)
      → r < 2 ^ k
      → s < 2 ^ k
      → op (q * 2 ^ k + r) (p * 2 ^ k + s) ≡ op q p * 2 ^ k + op r s
  fields_of_step zero q p r s hr hs = ground (arith, base)
  fields_of_step (suc k) q p r s hr hs = ground (
    arith,
    step (q * 2 ^ suc k + r) (p * 2 ^ suc k + s),
    step r s,
    pow-suc 2 k,
    ap (λ (t : ℕ). q * t) (pow-suc 2 k),
    ap (λ (t : ℕ). p * t) (pow-suc 2 k),
    ap (λ (t : ℕ). op q p * t) (pow-suc 2 k),
    fields_of_step k q p (r / 2) (s / 2) (omega arith) (omega arith),
  )

  pub lt_of_step :
      ((x y : ℕ) → dig (x % 2) (y % 2) ≤ 1) → (k r s : ℕ) → r < 2 ^ k → s < 2 ^ k → op r s < 2 ^ k
  lt_of_step bit zero r s hr hs = ground (arith, base)
  lt_of_step bit (suc k) r s hr hs = ground (
    arith,
    step r s,
    bit r s,
    pow-suc 2 k,
    lt_of_step bit k (r / 2) (s / 2) (omega arith) (omega arith),
  )

pub bit_and_fields :
    (k q p r s : ℕ)
    → r < 2 ^ k
    → s < 2 ^ k
    → bit_and (q * 2 ^ k + r) (p * 2 ^ k + s) ≡ bit_and q p * 2 ^ k + bit_and r s
bit_and_fields = fields_of_step bit_and min bit_and_step refl

pub bit_or_fields :
    (k q p r s : ℕ)
    → r < 2 ^ k
    → s < 2 ^ k
    → bit_or (q * 2 ^ k + r) (p * 2 ^ k + s) ≡ bit_or q p * 2 ^ k + bit_or r s
bit_or_fields = fields_of_step bit_or max bit_or_step refl

pub bit_xor_fields :
    (k q p r s : ℕ)
    → r < 2 ^ k
    → s < 2 ^ k
    → bit_xor (q * 2 ^ k + r) (p * 2 ^ k + s) ≡ bit_xor q p * 2 ^ k + bit_xor r s
bit_xor_fields = fields_of_step bit_xor differ bit_xor_step refl

pub bit_and-lt : (k r s : ℕ) → r < 2 ^ k → s < 2 ^ k → bit_and r s < 2 ^ k
bit_and-lt = lt_of_step bit_and min bit_and_step refl (λ x y. omega arith)

pub bit_or-lt : (k r s : ℕ) → r < 2 ^ k → s < 2 ^ k → bit_or r s < 2 ^ k
bit_or-lt = lt_of_step bit_or max bit_or_step refl (λ x y. omega arith)

differ-le-one : (x y : ℕ) → x ≤ 1 → y ≤ 1 → differ x y ≤ 1
differ-le-one zero y p q = q
differ-le-one (suc x) zero p q = p
differ-le-one (suc x) (suc y) p q = differ-le-one x y (omega arith) (omega arith)

pub bit_xor-lt : (k r s : ℕ) → r < 2 ^ k → s < 2 ^ k → bit_xor r s < 2 ^ k
bit_xor-lt =
    lt_of_step bit_xor differ bit_xor_step refl
      (λ x y. differ-le-one (x % 2) (y % 2) (omega arith) (omega arith))

-- Nothing is below a zero, and any bound on the digits of the other number will do.
zero_operand_below : (bound x : ℕ) → x ≤ bound → (bit_and x 0 ≡ 0) × (bit_or x 0 ≡ x)
zero_operand_below zero zero h = (refl, refl)
zero_operand_below zero (suc x) h = absurd (omega arith)
zero_operand_below (suc bound) x h = (
  omega (arith, bit_and_step x 0, (zero_operand_below bound (x / 2) (omega arith)).0),
  omega (arith, bit_or_step x 0, (zero_operand_below bound (x / 2) (omega arith)).1),
)

pub bit_and-zero : (x : ℕ) → bit_and x 0 ≡ 0
bit_and-zero x = (zero_operand_below x x (omega arith)).0

pub bit_or-zero : (x : ℕ) → bit_or x 0 ≡ x
bit_or-zero x = (zero_operand_below x x (omega arith)).1

pub zero-bit_or : (a : ℕ) → bit_or 0 a ≡ a
zero-bit_or a = bit_or-bitwise 0 a

-- `(q << k) | r` is a sum when `r` fits the `k` low bits.
pub bit_or_shifted : (k q r : ℕ) → r < 2 ^ k → bit_or (q * 2 ^ k) r ≡ q * 2 ^ k + r
bit_or_shifted k q r h =
    ground (arith, bit_or_fields k q 0 0 r, bit_or-zero q, zero-bit_or r, one-le-pow k 2)

-- The test `(x >> k) & 1`.
pub bit_and-pow : (k x : ℕ) → bit_and x (2 ^ k) ≡ x / 2 ^ k % 2 * 2 ^ k
bit_and-pow k x = ground (
  arith,
  bit_and_fields k (x / 2 ^ k) 1 (x % 2 ^ k) 0,
  bit_and_step (x / 2 ^ k) 1,
  bit_and-zero (x / 2 ^ k / 2),
  bit_and-zero (x % 2 ^ k),
  one-le-pow k 2,
)

pub bit_or_above : (k q r : ℕ) → r < 2 ^ k → bit_or r (q * 2 ^ k) ≡ q * 2 ^ k + r
bit_or_above k q r h =
    ground (arith, bit_or_fields k 0 q r 0, bit_or-zero r, zero-bit_or q, one-le-pow k 2)

low_ones : (k r : ℕ) → r < 2 ^ k → bit_and r (2 ^ k - 1) ≡ r
low_ones zero r h = bit_and-zero r ∙ omega arith
low_ones (suc k) r h = ground (
  arith,
  bit_and_step r (2 ^ suc k - 1),
  pow-suc 2 k,
  one-le-pow k 2,
  low_ones k (r / 2) (omega (arith, pow-suc 2 k)),
)

-- A mask of `k` ones keeps the remainder.
pub bit_and_ones : (k x : ℕ) → bit_and x (2 ^ k - 1) ≡ x % 2 ^ k
bit_and_ones k x = ground (
  arith,
  bit_and_fields k (x / 2 ^ k) 0 (x % 2 ^ k) (2 ^ k - 1),
  bit_and-zero (x / 2 ^ k),
  low_ones k (x % 2 ^ k),
  one-le-pow k 2,
)
