-- ===== src/Bytes/Tests.antt =====
-- The theorems on words at concrete words, and runs of the byte operations.
use ya_risc_v.Prelude.{◌+◌, ◌-◌, ◌*◌, ◌/◌, ◌%◌, ◌^◌, ◌≡◌, refl, compare, compare_ℤ}
use ya_risc_v.Prelude.{bit_and, bit_or, bit_xor}
use ya_risc_v.Bytes.{Bytes, add_bytes, subtract_bytes, and_bytes, or_bytes, xor_bytes}
use ya_risc_v.Bytes.{compare_unsigned_bytes, compare_signed_bytes, shift_left_bytes}
use ya_risc_v.Bytes.{shift_right_logical_bytes, shift_right_arithmetic_bytes, bytes_to_big_int}
use ya_risc_v.Bytes.{unsigned_big_int_to_bytes, signed_bytes_to_big_int, signed_number_to_bytes}
use ya_risc_v.Bytes.Value.{value, IsWord}
use ya_risc_v.Bytes.Sum.{value-add_bytes, value-subtract_bytes}
use ya_risc_v.Bytes.Order.{compare_unsigned_bytes-compare, compare_signed_bytes-compare_ℤ}
use ya_risc_v.Bytes.Convert.{big_int_round_trip, unsigned_big_int_to_bytes-IsWord}
use ya_risc_v.Bytes.Logic.{value-bitwise_bytes}
use ya_risc_v.Prelude.{leb, if◌then◌else◌}
use ya_risc_v.Bytes.Shift.Arithmetic.{value-shift_right_arithmetic_bytes}
use ya_risc_v.Bytes.Shift.Left.{value-shift_left_bytes}
use ya_risc_v.Bytes.Shift.Right.{value-shift_right_logical_bytes}

abbrev wide : Bytes
wide = unsigned_big_int_to_bytes 0xfedc_ba98_7654_3210

abbrev narrow : Bytes
narrow = unsigned_big_int_to_bytes 0x0123_4567_89ab_cdff

wide-IsWord : IsWord wide
wide-IsWord = unsigned_big_int_to_bytes-IsWord 0xfedc_ba98_7654_3210

narrow-IsWord : IsWord narrow
narrow-IsWord = unsigned_big_int_to_bytes-IsWord 0x0123_4567_89ab_cdff

value-add_bytes_example : value (add_bytes wide narrow) ≡ (value wide + value narrow) % 2 ^ 64
value-add_bytes_example = value-add_bytes wide-IsWord narrow-IsWord

value-subtract_bytes_example :
    value (subtract_bytes narrow wide) ≡ (value narrow + 2 ^ 64 - value wide) % 2 ^ 64
value-subtract_bytes_example = value-subtract_bytes narrow-IsWord wide-IsWord

compare_unsigned_bytes-compare_example :
    compare_unsigned_bytes wide narrow ≡ compare (value wide) (value narrow)
compare_unsigned_bytes-compare_example = compare_unsigned_bytes-compare wide-IsWord narrow-IsWord

compare_signed_bytes-compare_ℤ_example :
    compare_signed_bytes wide narrow
    ≡ compare_ℤ (signed_bytes_to_big_int wide) (signed_bytes_to_big_int narrow)
compare_signed_bytes-compare_ℤ_example = compare_signed_bytes-compare_ℤ wide-IsWord narrow-IsWord

value-shift_left_bytes_example :
    value (shift_left_bytes wide 13) ≡ value wide * 2 ^ (13 % 64) % 2 ^ 64
value-shift_left_bytes_example = value-shift_left_bytes 13 wide-IsWord

value-shift_right_logical_bytes_example :
    value (shift_right_logical_bytes wide 77) ≡ value wide / 2 ^ (77 % 64)
value-shift_right_logical_bytes_example = value-shift_right_logical_bytes 77 wide-IsWord

value-shift_right_arithmetic_bytes_example :
    value (shift_right_arithmetic_bytes wide 77)
    ≡ value wide / 2 ^ (77 % 64)
      + (if leb (2 ^ 63) (value wide) then 2 ^ 64 - 2 ^ (64 - 77 % 64) else 0)
value-shift_right_arithmetic_bytes_example = value-shift_right_arithmetic_bytes 77 wide-IsWord

value-bitwise_bytes_example :
    (value (and_bytes wide narrow) ≡ bit_and (value wide) (value narrow))
    × (value (or_bytes wide narrow) ≡ bit_or (value wide) (value narrow))
    × (value (xor_bytes wide narrow) ≡ bit_xor (value wide) (value narrow))
value-bitwise_bytes_example = value-bitwise_bytes wide-IsWord narrow-IsWord

big_int_round_trip_example :
    (bytes_to_big_int (unsigned_big_int_to_bytes 0x1_0000_0000_0000_0007)
      ≡ 0x1_0000_0000_0000_0007 % 2 ^ 64)
    × (unsigned_big_int_to_bytes (bytes_to_big_int wide) ≡ wide)
big_int_round_trip_example = big_int_round_trip 0x1_0000_0000_0000_0007 wide-IsWord

-- -8 >> 1 and -1 << 4, as words.
arithmetic_runs :
    shift_right_arithmetic_bytes (signed_number_to_bytes 0xffff_fff8 32) 1
    ≡ signed_number_to_bytes 0xffff_fffc 32
unfolding shift_right_arithmetic_bytes signed_number_to_bytes
arithmetic_runs = refl

sign_extension_runs :
    signed_number_to_bytes 0x800 12 ≡ unsigned_big_int_to_bytes 0xffff_ffff_ffff_f800
unfolding signed_number_to_bytes unsigned_big_int_to_bytes
sign_extension_runs = refl
