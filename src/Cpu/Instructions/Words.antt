-- ===== src/Cpu/Instructions/Words.antt =====
-- The byte operations that the instructions call, as 64-bit operations on the numbers.
use ya_risc_v.Prelude.{ℕ, ◌+◌, ◌-◌, ◌*◌, ◌/◌, ◌%◌, ◌^◌, ◌<◌, ◌≡◌, refl, ap, ap₂, ◌∙◌, arith}
use ya_risc_v.Prelude.{ltb, leb, if◌then◌else◌, is_lt, compare_ℤ, Bool, true, false}
use ya_risc_v.Prelude.{bit_and, byte_table, all_below}
use ya_risc_v.Bytes.{Bytes, byte, zero_bytes, compare_signed_bytes, compare_unsigned_bytes}
use ya_risc_v.Bytes.{byte0_to_number, add_bytes, subtract_bytes, and_bytes, or_bytes, xor_bytes}
use ya_risc_v.Bytes.{shift_left_bytes, shift_right_logical_bytes, shift_right_arithmetic_bytes}
use ya_risc_v.Bytes.Value.{value, IsWord, tabulate-IsWord, digits_value-word}
use ya_risc_v.Bytes.Sum.{value-add_bytes, add_bytes-IsWord}
use ya_risc_v.Bytes.Sum.{value-subtract_bytes, subtract_bytes-IsWord}
use ya_risc_v.Bytes.Order.{compare_unsigned_bytes-compare, compare_signed_bytes-compare_ℤ}
use ya_risc_v.Bytes.Convert.{signed_bytes_to_big_int-value, signed_number_to_bytes-IsWord}
use ya_risc_v.Bytes.Logic.{value-bitwise_bytes, and_bytes-IsWord, or_bytes-IsWord, xor_bytes-IsWord}
use ya_risc_v.Bytes.Shift.Left.{value-shift_left_bytes, shift_left_bytes-IsWord}
use ya_risc_v.Bytes.Shift.Right.{value-shift_right_logical_bytes}
use ya_risc_v.Bytes.Shift.Arithmetic.{shift_right_logical_bytes-IsWord}
use ya_risc_v.Bytes.Shift.Arithmetic.{value-shift_right_arithmetic_bytes}
use ya_risc_v.Bytes.Shift.Arithmetic.{shift_right_arithmetic_bytes-IsWord}
use ya_risc_v.Cpu.Registers.{register_one_bytes}
use ya_risc_v.Cpu.Instructions.Result.{flag, signed}
use ya_risc_v.Cpu.Instructions.Result.{op_result, AluOp, op_add, op_sub, op_sll}
use ya_risc_v.Cpu.Instructions.Result.{op_xor, op_srl, op_sra, op_or, op_and}

-- A word that stands for the result of an operation.
abbrev pub Computes : Bytes → AluOp → ℕ → ℕ → Type 0
Computes word op a b = IsWord word × (value word ≡ op_result op a b)

low_six_bits : (x : ℕ) → x < 256 → bit_and x 0x3f ≡ x % 64
unfolding all_below
low_six_bits = byte_table (λ x. bit_and x 0x3f) (λ x. x % 64) refl

-- A shift amount is the low six bits of a register.
pub shift_amount-value : {b : Bytes} → IsWord b → byte0_to_number b 0x3f % 64 ≡ value b % 64
unfolding byte0_to_number
shift_amount-value {b} w = omega (arith, low_six_bits (byte b 0) (w.bytes 0), digits_value-word w)

pub flag-IsWord : (c : Bool) → IsWord (if c then register_one_bytes else zero_bytes)
unfolding register_one_bytes zero_bytes
flag-IsWord true = signed_number_to_bytes-IsWord 1 32
flag-IsWord false = tabulate-IsWord (λ _. 0) (λ _. omega arith)

pub value-flag : (c : Bool) → value (if c then register_one_bytes else zero_bytes) ≡ flag c
unfolding register_one_bytes zero_bytes
value-flag true = refl
value-flag false = refl

pub less_signed :
    {a b : Bytes}
    → IsWord a
    → IsWord b
    → is_lt (compare_signed_bytes a b) ≡ is_lt (compare_ℤ (signed (value a)) (signed (value b)))
less_signed v w = ap is_lt (
    compare_signed_bytes-compare_ℤ v w
    ∙ ap₂ compare_ℤ (signed_bytes_to_big_int-value v) (signed_bytes_to_big_int-value w))

pub less_unsigned :
    {a b : Bytes}
    → IsWord a
    → IsWord b
    → is_lt (compare_unsigned_bytes a b) ≡ ltb (value a) (value b)
less_unsigned v w = ap is_lt (compare_unsigned_bytes-compare v w)

module _ {a b : Bytes} (v : IsWord a) (w : IsWord b) where
  pub add-Computes : Computes (add_bytes a b) op_add (value a) (value b)
  add-Computes = (add_bytes-IsWord a b, value-add_bytes v w)

  pub sub-Computes : Computes (subtract_bytes a b) op_sub (value a) (value b)
  sub-Computes = (subtract_bytes-IsWord a b, value-subtract_bytes v w)

  pub xor-Computes : Computes (xor_bytes a b) op_xor (value a) (value b)
  xor-Computes = (xor_bytes-IsWord v w, (value-bitwise_bytes v w).2)

  pub or-Computes : Computes (or_bytes a b) op_or (value a) (value b)
  or-Computes = (or_bytes-IsWord v w, (value-bitwise_bytes v w).1)

  pub and-Computes : Computes (and_bytes a b) op_and (value a) (value b)
  and-Computes = (and_bytes-IsWord v w, (value-bitwise_bytes v w).0)

-- Only the low six bits of an amount count.
module _ {a : Bytes} (v : IsWord a) (k n : ℕ) (e : k % 64 ≡ n % 64) where
  pub sll-Computes : Computes (shift_left_bytes a k) op_sll (value a) n
  sll-Computes = (
    shift_left_bytes-IsWord a k,
    value-shift_left_bytes k v ∙ ap (λ (t : ℕ). value a * 2 ^ t % 2 ^ 64) e,
  )

  pub srl-Computes : Computes (shift_right_logical_bytes a k) op_srl (value a) n
  srl-Computes = (
    shift_right_logical_bytes-IsWord a k,
    value-shift_right_logical_bytes k v ∙ ap (λ (t : ℕ). value a / 2 ^ t) e,
  )

  pub sra-Computes : Computes (shift_right_arithmetic_bytes a k) op_sra (value a) n
  sra-Computes = (
    shift_right_arithmetic_bytes-IsWord k v,
    value-shift_right_arithmetic_bytes k v
        ∙ ap
            (λ (t : ℕ).
              value a / 2 ^ t + (if leb (2 ^ 63) (value a) then 2 ^ 64 - 2 ^ (64 - t) else 0))
            e,
  )
