-- ===== src/Bytes/Order.antt =====
-- The comparisons of words are those of the numbers, and of the signed numbers, that they stand for.
use ya_risc_v.Prelude.{ℕ, zero, suc, ◌+◌, ◌*◌, ◌^◌, ◌≤◌, ◌<◌, ◌≡◌, arith}
use ya_risc_v.Prelude.{ltb, if◌then◌else◌, ◌!=◌, compare, Ordering, compare_ℤ}
use Prim.Native.Nat.add
use ya_risc_v.Bytes.Convert.{test_bits-sign, signed_bytes_to_big_int-value}
use ya_risc_v.Bytes.{Bytes, byte, compare_loop, compare_unsigned_bytes, compare_signed_bytes}
use ya_risc_v.Bytes.{signed_bytes_to_big_int}
use ya_risc_v.Bytes.Value.{value, IsBytes, IsWord, digits_value, digits_value-lt, value-lt}
use ya_risc_v.Bytes.Value.{digits_value-word, digits_value-top}

mul-lt : (p x y : ℕ) → x < y → p * x + p ≤ p * y
mul-lt p x y h = grind arith

-- The top digits decide an order, unless they are equal.
compare_top :
    (p l r x y : ℕ)
    → l < p
    → r < p
    → compare (l + p * x) (r + p * y)
      ≡ (if x != y then (if ltb x y then Ordering.lt else Ordering.gt) else compare l r)
compare_top p l r x y hl hr = ground (arith, mul-lt p x y, mul-lt p y x)

compare_loop-compare :
    (n : ℕ) (a b : Bytes)
    → IsBytes a
    → IsBytes b
    → compare_loop n a b ≡ compare (digits_value n 0 (byte a)) (digits_value n 0 (byte b))
unfolding compare_loop
compare_loop-compare zero a b p q = ground arith
compare_loop-compare (suc n) a b p q =
    rw
      (
        digits_value-top n 0 (byte a),
        digits_value-top n 0 (byte b),
        add.zero n,
        compare_top (256 ^ n) _ _ (byte a n) (byte b n) (digits_value-lt n 0 (byte a) p)
            (digits_value-lt n 0 (byte b) q),
      )
      (ground (arith, compare_loop-compare n a b p q))

-- `compareUnsignedBytes` orders words as the numbers that they stand for.
pub compare_unsigned_bytes-compare :
    {a b : Bytes} → IsWord a → IsWord b → compare_unsigned_bytes a b ≡ compare (value a) (value b)
unfolding compare_unsigned_bytes
compare_unsigned_bytes-compare {a} {b} v w =
    rw (← digits_value-word v, ← digits_value-word w) (compare_loop-compare 8 a b v.bytes w.bytes)

-- `compareSignedBytes` orders words as the signed numbers that `signedBytesToBigInt` reads.
pub compare_signed_bytes-compare_ℤ :
    {a b : Bytes}
    → IsWord a
    → IsWord b
    → compare_signed_bytes a b ≡ compare_ℤ (signed_bytes_to_big_int a) (signed_bytes_to_big_int b)
unfolding compare_signed_bytes
compare_signed_bytes-compare_ℤ v w = ground (
  arith,
  test_bits-sign v,
  test_bits-sign w,
  compare_unsigned_bytes-compare v w,
  signed_bytes_to_big_int-value v,
  signed_bytes_to_big_int-value w,
  value-lt v,
  value-lt w,
)
