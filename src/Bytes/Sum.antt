-- ===== src/Bytes/Sum.antt =====
-- Addition and subtraction of words are addition and subtraction modulo 2 ^ 64.
use ya_risc_v.Prelude.{ℕ, zero, suc, ◌+◌, ◌-◌, ◌*◌, ◌/◌, ◌%◌, ◌^◌, ◌≤◌, ◌<◌, ◌≡◌, refl, arith, ap}
use ya_risc_v.Prelude.{ltb, if◌then◌else◌, length}
use native.Mathlib.Nat.{pow-suc, one-le-pow, mod-lt, mod-eq_of_lt, div-add-mod}
use native.Mathlib.Nat.{add-mul-mod_self_left}
use ya_risc_v.Bytes.{Bytes, byte, add_loop, add_bytes, subtract_loop, subtract_bytes}
use ya_risc_v.Bytes.Value.{value, IsBytes, IsWord, digits_value, digits_value-lt, value-lt}
use ya_risc_v.Bytes.Value.{digits_value-word, word-ext}

-- A low digit stays outside a remainder.
pub mod_digit : (d x p : ℕ) → d < 256 → 0 < p → (d + 256 * x) % (p * 256) ≡ d + 256 * (x % p)
mod_digit d x p h pos = ground (
  arith,
  div-add-mod x p,
  ap (λ (t : ℕ). 256 * t) (div-add-mod x p),
  mod-lt x pos,
  add-mul-mod_self_left (d + 256 * (x % p)) (p * 256) (x / p),
  mod-eq_of_lt {n = d + 256 * (x % p)} {m = p * 256} (omega (arith, mod-lt x pos)),
)

add_loop-value :
    (n i carry : ℕ) (a b : Bytes)
    → value (add_loop n i carry a b)
      ≡ (digits_value n i (byte a) + digits_value n i (byte b) + carry) % 256 ^ n
unfolding add_loop
add_loop-value zero i carry a b = omega arith
add_loop-value (suc n) i carry a b =
    let sum = byte a i + byte b i + carry in
    let rest = digits_value n (suc i) (byte a) + digits_value n (suc i) (byte b) + sum / 256 in
    ground (
      arith,
      add_loop-value n (suc i) (sum / 256) a b,
      mod_digit (sum % 256) rest (256 ^ n) (omega arith) (one-le-pow n 256 (omega arith)),
      pow-suc 256 n,
    )

-- Over words, `addBytes` is addition modulo 2 ^ 64.
pub value-add_bytes :
    {a b : Bytes} → IsWord a → IsWord b → value (add_bytes a b) ≡ (value a + value b) % 2 ^ 64
unfolding add_bytes
value-add_bytes {a} {b} v w =
    omega (arith, add_loop-value 8 0 0 a b, digits_value-word v, digits_value-word w)

subtract_loop-value :
    (n i borrow : ℕ) (a b : Bytes)
    → IsBytes a
    → IsBytes b
    → borrow ≤ 1
    → value (subtract_loop n i borrow a b)
      ≡ (digits_value n i (byte a) + 256 ^ n - digits_value n i (byte b) - borrow) % 256 ^ n
unfolding subtract_loop
subtract_loop-value zero i borrow a b p q h = omega arith
subtract_loop-value (suc n) i borrow a b p q h =
    let next = if ltb (byte a i) (byte b i + borrow) then 1 else 0 in
    let digit = (byte a i + 256 - (byte b i + borrow)) % 256 in
    let rest = digits_value n (suc i) (byte a) + 256 ^ n - digits_value n (suc i) (byte b) - next in
    ground (
      arith,
      p i,
      q i,
      subtract_loop-value n (suc i) next a b p q,
      mod_digit digit rest (256 ^ n) (omega arith) (one-le-pow n 256 (omega arith)),
      digits_value-lt n (suc i) (byte b) q,
      pow-suc 256 n,
    )

-- Over words, `subtractBytes` is subtraction modulo 2 ^ 64.
pub value-subtract_bytes :
    {a b : Bytes}
    → IsWord a
    → IsWord b
    → value (subtract_bytes a b) ≡ (value a + 2 ^ 64 - value b) % 2 ^ 64
unfolding subtract_bytes
value-subtract_bytes {a} {b} v w = omega (
  arith,
  subtract_loop-value 8 0 0 a b v.bytes w.bytes (omega arith),
  digits_value-word v,
  digits_value-word w,
)

add_loop-length : (n i carry : ℕ) (a b : Bytes) → length (add_loop n i carry a b) ≡ n
unfolding add_loop
add_loop-length zero i carry a b = refl
add_loop-length (suc n) i carry a b =
    ap suc (add_loop-length n (suc i) ((byte a i + byte b i + carry) / 256) a b)

add_loop-IsBytes : (n i carry : ℕ) (a b : Bytes) → IsBytes (add_loop n i carry a b)
unfolding add_loop
add_loop-IsBytes zero i carry a b j = omega arith
add_loop-IsBytes (suc n) i carry a b zero = omega arith
add_loop-IsBytes (suc n) i carry a b (suc j) =
    add_loop-IsBytes n (suc i) ((byte a i + byte b i + carry) / 256) a b j

pub add_bytes-IsWord : (a b : Bytes) → IsWord (add_bytes a b)
unfolding add_bytes
add_bytes-IsWord a b = record {
  size = add_loop-length 8 0 0 a b;
  bytes = add_loop-IsBytes 8 0 0 a b;
}

subtract_loop-length : (n i borrow : ℕ) (a b : Bytes) → length (subtract_loop n i borrow a b) ≡ n
unfolding subtract_loop
subtract_loop-length zero i borrow a b = refl
subtract_loop-length (suc n) i borrow a b = ap suc (subtract_loop-length n (suc i) _ a b)

subtract_loop-IsBytes : (n i borrow : ℕ) (a b : Bytes) → IsBytes (subtract_loop n i borrow a b)
unfolding subtract_loop
subtract_loop-IsBytes zero i borrow a b j = omega arith
subtract_loop-IsBytes (suc n) i borrow a b zero = omega arith
subtract_loop-IsBytes (suc n) i borrow a b (suc j) =
    subtract_loop-IsBytes n (suc i) (if ltb (byte a i) (byte b i + borrow) then 1 else 0) a b j

pub subtract_bytes-IsWord : (a b : Bytes) → IsWord (subtract_bytes a b)
unfolding subtract_bytes
subtract_bytes-IsWord a b = record {
  size = subtract_loop-length 8 0 0 a b;
  bytes = subtract_loop-IsBytes 8 0 0 a b;
}

-- Subtracting what was added gives the word back, across the wrap.
pub subtract-add_bytes : {a b : Bytes} → IsWord a → IsWord b → subtract_bytes (add_bytes a b) b ≡ a
subtract-add_bytes {a} {b} v w = word-ext (subtract_bytes-IsWord (add_bytes a b) b) v (
    omega (
      arith,
      value-subtract_bytes (add_bytes-IsWord a b) w,
      value-add_bytes v w,
      value-lt v,
      value-lt w,
    ))
