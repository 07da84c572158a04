-- ===== src/Bytes/Value.antt =====
-- The number that a byte array stands for, and what a valid 8-byte word is.
use ya_risc_v.Prelude.{ℕ, zero, suc, ◌+◌, ◌*◌, ◌^◌, ◌<◌, ◌≡◌, refl, sym, ap, ap₂, ◌∙◌, arith}
use ya_risc_v.Prelude.{[], ◌∷◌, length}
use native.Mathlib.Nat.{pow-suc, add-zero}
use ya_risc_v.Bytes.{Bytes, byte, tabulate, copy_bytes}

abbrev pub value : Bytes → ℕ
value [] = 0
value (x ∷ xs) = x + 256 * value xs

abbrev pub IsBytes : Bytes → Type 0
IsBytes b = (i : ℕ) → byte b i < 256

-- An XLEN value: eight bytes.
pub record IsWord (b : Bytes) : Type 0 where
  pub size : length b ≡ 8
  pub bytes : IsBytes b

-- The value of `n` digits of base 256, the lowest of them `f i`.
abbrev pub digits_value : ℕ → ℕ → (ℕ → ℕ) → ℕ
digits_value zero i f = 0
digits_value (suc n) i f = f i + 256 * digits_value n (suc i) f

pub value-tabulate : (n i : ℕ) (f : ℕ → ℕ) → value (tabulate n i f) ≡ digits_value n i f
unfolding tabulate
value-tabulate zero i f = refl
value-tabulate (suc n) i f = omega (arith, value-tabulate n (suc i) f)

digits_value-cons :
    (n i x : ℕ) (b : Bytes) → digits_value n (suc i) (byte (x ∷ b)) ≡ digits_value n i (byte b)
digits_value-cons zero i x b = refl
digits_value-cons (suc n) i x b =
    ap (λ (t : ℕ). byte b i + 256 * t) (digits_value-cons n (suc i) x b)

digits_value-byte : (b : Bytes) → digits_value (length b) 0 (byte b) ≡ value b
digits_value-byte [] = refl
digits_value-byte (x ∷ b) =
    ap (λ (t : ℕ). x + 256 * t) (digits_value-cons (length b) 0 x b ∙ digits_value-byte b)

pub digits_value-word : {b : Bytes} → IsWord b → digits_value 8 0 (byte b) ≡ value b
digits_value-word {b} w =
    ap (λ (n : ℕ). digits_value n 0 (byte b)) (sym w.size) ∙ digits_value-byte b

pub digits_value-lt : (n i : ℕ) (f : ℕ → ℕ) → ((j : ℕ) → f j < 256) → digits_value n i f < 256 ^ n
digits_value-lt zero i f h = omega arith
digits_value-lt (suc n) i f h = omega (arith, h i, pow-suc 256 n, digits_value-lt n (suc i) f h)

pub value-lt : {b : Bytes} → IsWord b → value b < 2 ^ 64
value-lt {b} w = omega (arith, digits_value-word w, digits_value-lt 8 0 (byte b) w.bytes)

shifted : (i n : ℕ) → suc i + n ≡ i + suc n
shifted i n = omega arith

-- The highest digit instead of the lowest.
pub digits_value-top :
    (n i : ℕ) (f : ℕ → ℕ) → digits_value (suc n) i f ≡ digits_value n i f + 256 ^ n * f (i + n)
digits_value-top zero i f = ground (arith, ap f (add-zero i))
digits_value-top (suc n) i f =
    rw (← shifted i n) (
      omega
        (arith, digits_value-top n (suc i) f, ap (λ (t : ℕ). t * f (suc i + n)) (pow-suc 256 n)))

pub length-tabulate : (n i : ℕ) (f : ℕ → ℕ) → length (tabulate n i f) ≡ n
unfolding tabulate
length-tabulate zero i f = refl
length-tabulate (suc n) i f = ap suc (length-tabulate n (suc i) f)

byte-tabulate-lt :
    (n i : ℕ) (f : ℕ → ℕ) → ((j : ℕ) → f j < 256) → (j : ℕ) → byte (tabulate n i f) j < 256
unfolding tabulate
byte-tabulate-lt zero i f h j = omega arith
byte-tabulate-lt (suc n) i f h zero = h i
byte-tabulate-lt (suc n) i f h (suc j) = byte-tabulate-lt n (suc i) f h j

pub tabulate-IsWord : (f : ℕ → ℕ) → ((j : ℕ) → f j < 256) → IsWord (tabulate 8 0 f)
tabulate-IsWord f h = record {
  size = length-tabulate 8 0 f;
  bytes = λ i. byte-tabulate-lt 8 0 f h i;
}

-- Two byte arrays of one length with the same value are the same.
pub value-injective :
    (a b : Bytes) → length a ≡ length b → IsBytes a → IsBytes b → value a ≡ value b → a ≡ b
value-injective [] [] l p q e = refl
value-injective [] (y ∷ b) l p q e = absurd (omega arith)
value-injective (x ∷ a) [] l p q e = absurd (omega arith)
value-injective (x ∷ a) (y ∷ b) l p q e =
    ap₂ ◌∷◌ (omega (arith, p 0, q 0)) (
      value-injective a b (omega arith) (λ i. p (suc i)) (λ i. q (suc i)) (omega (arith, p 0, q 0)))

pub word-ext : {a b : Bytes} → IsWord a → IsWord b → value a ≡ value b → a ≡ b
word-ext {a} {b} v w e = value-injective a b (v.size ∙ sym w.size) v.bytes w.bytes e

-- Copying a word gives the word.
pub copy_bytes-word : {b : Bytes} → IsWord b → copy_bytes b ≡ b
unfolding copy_bytes
copy_bytes-word {b} w =
    word-ext (tabulate-IsWord (byte b) w.bytes) w
      (value-tabulate 8 0 (byte b) ∙ digits_value-word w)
