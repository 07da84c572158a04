-- ===== src/Bytes.antt =====
-- src/utils/bytes.ts: byte arrays as little-endian words.
-- A `Uint8Array` is the list of its bytes and `byte b i` is `b[i] ?? 0`. An operation returns the
-- `destination` that the source fills; every caller passes a fresh one, or one that the loop reads
-- only at the index that it writes, so that no write is read back. `x & 0xff` is `x % 256`.
pub mod Value
pub mod Sum
pub mod Order
pub mod Convert
pub mod Logic
pub mod Shift
mod Tests
use ya_risc_v.Prelude.{ℕ, zero, suc, ◌+◌, ◌-◌, ◌*◌, ◌/◌, ◌%◌, ◌^◌, bit_and, bit_or, bit_xor}
use ya_risc_v.Prelude.{Bool, true, false, ◌&&◌, List, [], ◌∷◌, Ordering, ℤ, pos, sub_ℕ}
use ya_risc_v.Prelude.{ltb, leb, ◌==◌, ◌!=◌, if◌then◌else◌, get_or}

abbrev pub Bytes : Type 0
Bytes = List ℕ

abbrev pub byte : Bytes → ℕ → ℕ
byte b i = get_or b i 0

-- `(x & mask) !== 0`
abbrev pub test_bits : ℕ → ℕ → Bool
test_bits x mask = bit_and x mask != 0

-- `x & ~mask`, stored into a byte
abbrev pub clear_bits : ℕ → ℕ → ℕ
clear_bits x mask = bit_and x (255 - mask)

-- What `destination[index] = f(index)` fills, for `n` rounds from index `i`.
unfoldable pub tabulate : ℕ → ℕ → (ℕ → ℕ) → Bytes
tabulate zero i f = []
tabulate (suc n) i f = f i ∷ tabulate n (suc i) f

-- `new Uint8Array(8)`
unfoldable pub zero_bytes : Bytes
unfolding tabulate
zero_bytes = tabulate 8 0 (λ _. 0)

unfoldable pub copy_bytes : Bytes → Bytes
unfolding tabulate
copy_bytes source = tabulate 8 0 (λ i. byte source i)

unfoldable pub add_loop : ℕ → ℕ → ℕ → Bytes → Bytes → Bytes
add_loop zero i carry source addend = []
add_loop (suc n) i carry source addend =
    let sum = byte source i + byte addend i + carry in
    sum % 256 ∷ add_loop n (suc i) (sum / 256) source addend

unfoldable pub add_bytes : Bytes → Bytes → Bytes
unfolding add_loop
add_bytes source addend = add_loop 8 0 0 source addend

-- 256 is added before the subtraction, which stops at 0; `& 0xff` takes it away again.
unfoldable pub subtract_loop : ℕ → ℕ → ℕ → Bytes → Bytes → Bytes
subtract_loop zero i borrow minuend subtrahend = []
subtract_loop (suc n) i borrow minuend subtrahend =
    let taken = byte subtrahend i + borrow in
    (byte minuend i + 256 - taken) % 256
    ∷ subtract_loop n (suc i) (if ltb (byte minuend i) taken then 1 else 0) minuend subtrahend

unfoldable pub subtract_bytes : Bytes → Bytes → Bytes
unfolding subtract_loop
subtract_bytes minuend subtrahend = subtract_loop 8 0 0 minuend subtrahend

unfoldable pub and_bytes : Bytes → Bytes → Bytes
unfolding tabulate
and_bytes source mask = tabulate 8 0 (λ i. bit_and (byte source i) (byte mask i))

unfoldable pub or_bytes : Bytes → Bytes → Bytes
unfolding tabulate
or_bytes source mask = tabulate 8 0 (λ i. bit_or (byte source i) (byte mask i))

unfoldable pub xor_bytes : Bytes → Bytes → Bytes
unfolding tabulate
xor_bytes source mask = tabulate 8 0 (λ i. bit_xor (byte source i) (byte mask i))

unfoldable pub zero_loop : ℕ → ℕ → Bytes → Bool
zero_loop zero i bytes = true
zero_loop (suc n) i bytes = byte bytes i == 0 && zero_loop n (suc i) bytes

unfoldable pub is_zero_bytes : Bytes → Bool
unfolding zero_loop
is_zero_bytes bytes = zero_loop 8 0 bytes

-- From index `n - 1` down to 0. `lt`, `eq`, `gt` are -1, 0 and 1.
unfoldable pub compare_loop : ℕ → Bytes → Bytes → Ordering
compare_loop zero left right = Ordering.eq
compare_loop (suc n) left right =
    let lower = compare_loop n left right in
    if byte left n != byte right n
    then (if ltb (byte left n) (byte right n) then Ordering.lt else Ordering.gt)
    else lower

unfoldable pub compare_unsigned_bytes : Bytes → Bytes → Ordering
unfolding compare_loop
compare_unsigned_bytes left right = compare_loop 8 left right

unfoldable pub compare_signed_bytes : Bytes → Bytes → Ordering
unfolding compare_unsigned_bytes
compare_signed_bytes left right =
    let left_negative = test_bits (byte left 7) 0x80 in
    let right_negative = test_bits (byte right 7) 0x80 in
    elim left_negative [
      | true ↦ if right_negative then compare_unsigned_bytes left right else Ordering.lt
      | false ↦ if right_negative then Ordering.gt else compare_unsigned_bytes left right
    ]

abbrev pub shift_left_byte : Bytes → ℕ → ℕ → ℕ → ℕ
shift_left_byte source byte_shift bit_shift index =
    let source_index = index - byte_shift in
    let value = byte source source_index * 2 ^ bit_shift in
    (if bit_shift != 0 && ltb 0 source_index
      then bit_or value (byte source (source_index - 1) / 2 ^ (8 - bit_shift))
      else value)
    % 256

unfoldable pub shift_left_bytes : Bytes → ℕ → Bytes
unfolding tabulate
shift_left_bytes source shift_amount =
    let amount = shift_amount % 64 in
    let byte_shift = amount / 8 in
    let bit_shift = amount % 8 in
    tabulate 8 0
      (λ i. if leb byte_shift i then shift_left_byte source byte_shift bit_shift i else 0)

abbrev pub shift_right_byte : Bytes → ℕ → ℕ → ℕ → ℕ
shift_right_byte source byte_shift bit_shift index =
    let source_index = index + byte_shift in
    let value = byte source source_index / 2 ^ bit_shift in
    (if bit_shift != 0 && ltb source_index 7
      then bit_or value (byte source (source_index + 1) * 2 ^ (8 - bit_shift))
      else value)
    % 256

unfoldable pub shift_right_logical_bytes : Bytes → ℕ → Bytes
unfolding tabulate
shift_right_logical_bytes source shift_amount =
    let amount = shift_amount % 64 in
    let byte_shift = amount / 8 in
    let bit_shift = amount % 8 in
    tabulate 8 0
      (λ i. if ltb i (8 - byte_shift) then shift_right_byte source byte_shift bit_shift i else 0)

-- The two fills after the logical shift: whole bytes of ones, then the top bits of one byte.
unfoldable pub shift_right_arithmetic_bytes : Bytes → ℕ → Bytes
unfolding tabulate shift_right_logical_bytes
shift_right_arithmetic_bytes source shift_amount =
    let amount = shift_amount % 64 in
    let logical = shift_right_logical_bytes source amount in
    let byte_shift = amount / 8 in
    let bit_shift = amount % 8 in
    let mask = 255 * 2 ^ (8 - bit_shift) % 256 in
    if test_bits (byte source 7) 0x80
    then tabulate 8 0 (λ i.
      if leb (8 - byte_shift) i
      then 255
      else if bit_shift != 0 && i == 7 - byte_shift
      then bit_or (byte logical i) mask
      else byte logical i)
    else logical

unfoldable pub low32_bytes : Bytes → Bytes
low32_bytes source =
    byte source 0 ∷ byte source 1 ∷ byte source 2 ∷ byte source 3 ∷ 0 ∷ 0 ∷ 0 ∷ 0 ∷ []

unfoldable pub bytes_to_number : Bytes → ℕ
bytes_to_number bytes =
    bit_or (bit_or (bit_or (byte bytes 0) (byte bytes 1 * 2 ^ 8)) (byte bytes 2 * 2 ^ 16))
      (byte bytes 3 * 2 ^ 24)
    % 2 ^ 32

-- From index `n - 1` down to 0.
unfoldable pub big_int_loop : ℕ → Bytes → ℕ → ℕ
big_int_loop zero bytes value = value
big_int_loop (suc n) bytes value = big_int_loop n bytes (bit_or (value * 2 ^ 8) (byte bytes n))

unfoldable pub bytes_to_big_int : Bytes → ℕ
unfolding big_int_loop
bytes_to_big_int bytes = big_int_loop 8 bytes 0

unfoldable pub signed_bytes_to_big_int : Bytes → ℤ
unfolding bytes_to_big_int
signed_bytes_to_big_int bytes =
    let unsigned = bytes_to_big_int bytes in
    if bit_and unsigned (2 ^ 63) != 0 then sub_ℕ unsigned (2 ^ 64) else pos unsigned

unfoldable pub byte0_to_number : Bytes → ℕ → ℕ
byte0_to_number bytes mask = bit_and (byte bytes 0) mask

-- `x >> k` of the int32 whose bit pattern is `x`.
abbrev pub arithmetic_shift32 : ℕ → ℕ → ℕ
arithmetic_shift32 x k = x / 2 ^ k + (if ltb x (2 ^ 31) then 0 else 2 ^ 32 - 2 ^ (32 - k))

unfoldable pub signed_loop : ℕ → ℕ → Bytes
signed_loop zero remaining = []
signed_loop (suc n) remaining = remaining % 256 ∷ signed_loop n (arithmetic_shift32 remaining 8)

-- A JS number is given by its int32 bit pattern.
unfoldable pub signed_number_to_bytes : ℕ → ℕ → Bytes
unfolding signed_loop
signed_number_to_bytes value bit_width =
    let shift = 32 - bit_width in
    signed_loop 8 (arithmetic_shift32 (value * 2 ^ shift % 2 ^ 32) shift)

unfoldable pub unsigned_number_to_bytes : ℕ → Bytes
unsigned_number_to_bytes value =
    let word = value % 2 ^ 32 in
    word % 256 ∷ word / 2 ^ 8 % 256 ∷ word / 2 ^ 16 % 256 ∷ word / 2 ^ 24 % 256 ∷ 0 ∷ 0 ∷ 0 ∷ 0 ∷ []

unfoldable pub unsigned_loop : ℕ → ℕ → Bytes
unsigned_loop zero remaining = []
unsigned_loop (suc n) remaining = remaining % 256 ∷ unsigned_loop n (remaining / 2 ^ 8)

unfoldable pub unsigned_big_int_to_bytes : ℕ → Bytes
unfolding unsigned_loop
unsigned_big_int_to_bytes value = unsigned_loop 8 (value % 2 ^ 64)

unfoldable pub sign_extend_bytes : Bytes → ℕ → Bytes
unfolding tabulate
sign_extend_bytes destination byte_length =
    let sign_byte = if test_bits (byte destination (byte_length - 1)) 0x80 then 255 else 0 in
    tabulate 8 0 (λ i. if ltb i byte_length then byte destination i else sign_byte)

unfoldable pub zero_extend_bytes : Bytes → ℕ → Bytes
unfolding tabulate
zero_extend_bytes destination byte_length =
    tabulate 8 0 (λ i. if ltb i byte_length then byte destination i else 0)
