-- ===== src/Cpu/Instructions/Multiply.antt =====
-- The instructions of op-m.ts compute products, quotients and remainders of 64-bit numbers.
use native.Mathlib.Nat.{div-le_self, mod-le}
use ya_risc_v.Cpu.Types.{Registers}
use ya_risc_v.Cpu.Instructions.Op.{OpArgs}
use ya_risc_v.Bytes.Value.{IsWord, value, value-lt}
use ya_risc_v.Cpu.Instructions.Multiply.Numbers.{
  multiply_result, quotient_signed, high_mixed, remainder_signed, product-lt, high_signed,
}
use ya_risc_v.Bytes.{Bytes, unsigned_big_int_to_bytes}
use ya_risc_v.Cpu.Decode.Instruction.{
  MulOp, multiply_high, divide, divide_unsigned, multiply_high_unsigned, remainder_unsigned,
  multiply_high_signed_unsigned, remainder, multiply,
}
use ya_risc_v.Cpu.Instructions.Result.{HasResult, IsHart, offset, write-HasResult}
use ya_risc_v.Prelude.{length, arith, ◌^◌, ◌%◌, ◌≡◌, ◌∙◌, ℕ}
use ya_risc_v.Bytes.Convert.{
  unsigned_big_int_to_bytes-IsWord, signed_bytes_to_big_int-value, bytes_to_big_int-value,
  value-unsigned_big_int_to_bytes,
}
use ya_risc_v.Cpu.Instructions.OpM.{mul, remu, divu, mulhu, mulhsu, mulh, rem, div}
pub mod Numbers
pub mod Numbers32

abbrev pub execute_multiply : MulOp → Registers → OpArgs → Bytes → Registers
execute_multiply multiply = mul
execute_multiply multiply_high = mulh
execute_multiply multiply_high_signed_unsigned = mulhsu
execute_multiply multiply_high_unsigned = mulhu
execute_multiply divide = div
execute_multiply divide_unsigned = divu
execute_multiply remainder = rem
execute_multiply remainder_unsigned = remu

packed :
    (v : ℕ) {result : ℕ}
    → v % 2 ^ 64 ≡ result
    → IsWord (unsigned_big_int_to_bytes v) × (value (unsigned_big_int_to_bytes v) ≡ result)
packed v e = (unsigned_big_int_to_bytes-IsWord v, value-unsigned_big_int_to_bytes v ∙ e)

module _ {r : Registers} {length : Bytes} (hart : IsHart r) (l : IsWord length)
    (args : OpArgs) where
  first : IsWord (r.general_purpose args.source_register1)
  first = hart.words args.source_register1

  second : IsWord (r.general_purpose args.source_register2)
  second = hart.words args.source_register2

  -- In a hart whose registers are words and whose x0 is zero, at a length that is a word:
  -- each instruction of `op-m.ts` leaves its product, quotient or remainder of the two source
  -- registers in its destination register, unless that is x0, advances the program counter, and
  -- changes nothing else; a division by zero and the overflowing division have the results of the
  -- RISC-V manual.
  pub execute_multiply-HasResult :
      (op : MulOp)
      → HasResult r
          (execute_multiply op r args length)
          args.destination_register
          (multiply_result op
            (value (r.general_purpose args.source_register1))
            (value (r.general_purpose args.source_register2)))
          (offset r length)
  unfolding mul mulh mulhsu mulhu div divu rem remu
  execute_multiply-HasResult multiply =
      write-HasResult hart _ _ _
        (packed _ (rw (bytes_to_big_int-value first, bytes_to_big_int-value second) (omega arith)))
        l
  execute_multiply-HasResult multiply_high =
      write-HasResult hart _ _ _
        (packed _ (
          rw (signed_bytes_to_big_int-value first, signed_bytes_to_big_int-value second)
            (high_signed (value (r.general_purpose args.source_register1))
              (value (r.general_purpose args.source_register2)) (value-lt first)
              (value-lt second))))
        l
  execute_multiply-HasResult multiply_high_signed_unsigned =
      write-HasResult hart _ _ _
        (packed _ (
          rw (signed_bytes_to_big_int-value first, bytes_to_big_int-value second)
            (high_mixed (value (r.general_purpose args.source_register1))
              (value (r.general_purpose args.source_register2)) (value-lt first)
              (value-lt second))))
        l
  execute_multiply-HasResult multiply_high_unsigned =
      write-HasResult hart _ _ _
        (packed _ (
          rw (bytes_to_big_int-value first, bytes_to_big_int-value second)
            (omega (
              arith,
              product-lt (value (r.general_purpose args.source_register1))
                  (value (r.general_purpose args.source_register2)) (value-lt first)
                  (value-lt second),
            ))))
        l
  execute_multiply-HasResult divide =
      write-HasResult hart _ _ _
        (packed _ (
          rw (signed_bytes_to_big_int-value first, signed_bytes_to_big_int-value second)
            (quotient_signed (value (r.general_purpose args.source_register1))
              (value (r.general_purpose args.source_register2)) (value-lt first)
              (value-lt second))))
        l
  execute_multiply-HasResult divide_unsigned =
      write-HasResult hart _ _ _
        (packed _ (
          rw (bytes_to_big_int-value first, bytes_to_big_int-value second)
            (ground (
              arith,
              value-lt first,
              div-le_self (value (r.general_purpose args.source_register1))
                  (value (r.general_purpose args.source_register2)),
            ))))
        l
  execute_multiply-HasResult remainder =
      write-HasResult hart _ _ _
        (packed _ (
          rw (signed_bytes_to_big_int-value first, signed_bytes_to_big_int-value second)
            (remainder_signed (value (r.general_purpose args.source_register1))
              (value (r.general_purpose args.source_register2)) (value-lt first)
              (value-lt second))))
        l
  execute_multiply-HasResult remainder_unsigned =
      write-HasResult hart _ _ _
        (packed _ (
          rw (bytes_to_big_int-value first, bytes_to_big_int-value second)
            (ground (
              arith,
              value-lt first,
              mod-le (value (r.general_purpose args.source_register1))
                  (value (r.general_purpose args.source_register2)),
            ))))
        l
