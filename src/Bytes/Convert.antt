-- ===== src/Bytes/Convert.antt =====
-- Conversions between words and numbers: round trips, sign and zero extension.
use ya_risc_v.Prelude.{
  ℕ, zero, suc, ◌+◌, ◌-◌, ◌*◌, ◌/◌, ◌%◌, ◌^◌, ◌<◌, ◌≡◌, refl, arith, ap, sym, ◌∙◌,
}
use ya_risc_v.Prelude.{bit_or_shifted, length, ltb, leb, if◌then◌else◌, bit_and-pow}
use ya_risc_v.Prelude.{pos, negsuc}
use native.Mathlib.Nat.{pow-suc, one-le-pow}
use ya_risc_v.Bytes.{Bytes, byte, big_int_loop, bytes_to_big_int, unsigned_loop}
use ya_risc_v.Bytes.{unsigned_big_int_to_bytes, signed_bytes_to_big_int}
use ya_risc_v.Bytes.{signed_loop, signed_number_to_bytes}
use ya_risc_v.Bytes.{arithmetic_shift32, test_bits}
use ya_risc_v.Bytes.Value.{value, IsBytes, IsWord, digits_value, digits_value-lt, value-lt}
use ya_risc_v.Bytes.Value.{digits_value-word, digits_value-top, word-ext}
use ya_risc_v.Bytes.Sum.{mod_digit}
use Prim.Native.Nat.add

big_int_loop-value :
    (n : ℕ) (b : Bytes) (acc : ℕ)
    → IsBytes b
    → big_int_loop n b acc ≡ acc * 256 ^ n + digits_value n 0 (byte b)
unfolding big_int_loop
big_int_loop-value zero b acc p = omega arith
big_int_loop-value (suc n) b acc p =
    rw
      (
        bit_or_shifted 8 acc (byte b n) (p n),
        big_int_loop-value n b (acc * 2 ^ 8 + byte b n) p,
        digits_value-top n 0 (byte b),
        add.zero n,
      )
      (omega (arith, pow-suc 256 n, ap (λ (t : ℕ). acc * t) (pow-suc 256 n)))

-- `bytesToBigInt` reads a word as the number that its bytes stand for.
pub bytes_to_big_int-value : {b : Bytes} → IsWord b → bytes_to_big_int b ≡ value b
unfolding bytes_to_big_int
bytes_to_big_int-value {b} w = omega (arith, big_int_loop-value 8 b 0 w.bytes, digits_value-word w)

digit : (v : ℕ) → v ≡ v % 256 + 256 * (v / 256)
digit v = omega arith

unsigned_loop-value : (n v : ℕ) → value (unsigned_loop n v) ≡ v % 256 ^ n
unfolding unsigned_loop
unsigned_loop-value zero v = omega arith
unsigned_loop-value (suc n) v =
    rw (pow-suc 256 n, unsigned_loop-value n (v / 2 ^ 8))
      (sym (mod_digit (v % 256) (v / 256) (256 ^ n) (omega arith) (one-le-pow n 256 (omega arith)))
        ∙ ap (λ (t : ℕ). t % (256 ^ n * 256)) (sym (digit v)))

-- `unsignedBigIntToBytes` packs a number modulo 2 ^ 64.
pub value-unsigned_big_int_to_bytes : (v : ℕ) → value (unsigned_big_int_to_bytes v) ≡ v % 2 ^ 64
unfolding unsigned_big_int_to_bytes
value-unsigned_big_int_to_bytes v = omega (arith, unsigned_loop-value 8 (v % 2 ^ 64))

unsigned_loop-length : (n v : ℕ) → length (unsigned_loop n v) ≡ n
unfolding unsigned_loop
unsigned_loop-length zero v = refl
unsigned_loop-length (suc n) v = ap suc (unsigned_loop-length n (v / 2 ^ 8))

unsigned_loop-IsBytes : (n v : ℕ) → IsBytes (unsigned_loop n v)
unfolding unsigned_loop
unsigned_loop-IsBytes zero v j = omega arith
unsigned_loop-IsBytes (suc n) v zero = omega arith
unsigned_loop-IsBytes (suc n) v (suc j) = unsigned_loop-IsBytes n (v / 2 ^ 8) j

pub unsigned_big_int_to_bytes-IsWord : (v : ℕ) → IsWord (unsigned_big_int_to_bytes v)
unfolding unsigned_big_int_to_bytes
unsigned_big_int_to_bytes-IsWord v = record {
  size = unsigned_loop-length 8 (v % 2 ^ 64);
  bytes = unsigned_loop-IsBytes 8 (v % 2 ^ 64);
}

-- Unpacking a packed number gives it back modulo 2 ^ 64, and packing an unpacked word gives the
-- word back.
pub big_int_round_trip :
    (v : ℕ) {b : Bytes}
    → IsWord b
    → (bytes_to_big_int (unsigned_big_int_to_bytes v) ≡ v % 2 ^ 64)
      × (unsigned_big_int_to_bytes (bytes_to_big_int b) ≡ b)
big_int_round_trip v {b} w = (
  bytes_to_big_int-value (unsigned_big_int_to_bytes-IsWord v) ∙ value-unsigned_big_int_to_bytes v,
  word-ext (unsigned_big_int_to_bytes-IsWord (bytes_to_big_int b)) w (
      omega (
        arith,
        value-unsigned_big_int_to_bytes (bytes_to_big_int b),
        bytes_to_big_int-value w,
        value-lt w,
      )),
)

-- The sign test of a word: `bytes[7] & 0x80`.
pub test_bits-sign : {b : Bytes} → IsWord b → test_bits (byte b 7) 0x80 ≡ leb (2 ^ 63) (value b)
test_bits-sign {b} w = ground (
  arith,
  bit_and-pow 7 (byte b 7),
  w.bytes 7,
  digits_value-word w,
  digits_value-top 7 0 (byte b),
  digits_value-lt 7 0 (byte b) w.bytes,
)

-- `signedBytesToBigInt` reads a word in two's complement.
pub signed_bytes_to_big_int-value :
    {b : Bytes}
    → IsWord b
    → signed_bytes_to_big_int b
      ≡ (if ltb (value b) (2 ^ 63) then pos (value b) else negsuc (2 ^ 64 - value b - 1))
unfolding signed_bytes_to_big_int
signed_bytes_to_big_int-value {b} w =
    rw (bytes_to_big_int-value w, bit_and-pow 63 (value b)) (ground (arith, value-lt w))

-- A JS number below 2 ^ 31, as an XLEN word.
signed_loop-value : (v : ℕ) → v < 2 ^ 31 → value (signed_loop 8 v) ≡ v
unfolding signed_loop
signed_loop-value v h = ground arith

signed_loop-length : (n v : ℕ) → length (signed_loop n v) ≡ n
unfolding signed_loop
signed_loop-length zero v = refl
signed_loop-length (suc n) v = ap suc (signed_loop-length n (arithmetic_shift32 v 8))

signed_loop-IsBytes : (n v : ℕ) → IsBytes (signed_loop n v)
unfolding signed_loop
signed_loop-IsBytes zero v j = omega arith
signed_loop-IsBytes (suc n) v zero = omega arith
signed_loop-IsBytes (suc n) v (suc j) = signed_loop-IsBytes n (arithmetic_shift32 v 8) j

pub signed_number_to_bytes-IsWord : (v width : ℕ) → IsWord (signed_number_to_bytes v width)
unfolding signed_number_to_bytes
signed_number_to_bytes-IsWord v width =
    let shift = 32 - width in
    let first = arithmetic_shift32 (v * 2 ^ shift % 2 ^ 32) shift in
    record { size = signed_loop-length 8 first; bytes = signed_loop-IsBytes 8 first }

shift_zero : (v : ℕ) → v < 2 ^ 31 → arithmetic_shift32 (v * 2 ^ 0 % 2 ^ 32) 0 ≡ v
shift_zero v h = ground arith

-- A non-negative int32 packs as itself.
pub value-signed_number_to_bytes : (v : ℕ) → v < 2 ^ 31 → value (signed_number_to_bytes v 32) ≡ v
unfolding signed_number_to_bytes
value-signed_number_to_bytes v h =
    ap (λ (t : ℕ). value (signed_loop 8 t)) (shift_zero v h) ∙ signed_loop-value v h
