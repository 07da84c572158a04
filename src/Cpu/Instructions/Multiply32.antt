-- ===== src/Cpu/Instructions/Multiply32.antt =====
-- The instructions of op-32-m.ts compute products, quotients and remainders of 32-bit numbers.
use native.Mathlib.Nat.{div-le_self, mod-le}
use ya_risc_v.Bytes.Convert.{
  bytes_to_big_int-value, value-unsigned_big_int_to_bytes, unsigned_big_int_to_bytes-IsWord,
}
use ya_risc_v.Cpu.Decode.Instruction.{
  MulOp32, remainder_word_unsigned, divide_word, remainder_word, multiply_word,
  divide_word_unsigned,
}
use ya_risc_v.Cpu.Types.{Registers}
use ya_risc_v.Cpu.Instructions.Words32.{
  low32_bytes-IsWord, Extends, extend32, value-low32_bytes, extended,
}
use ya_risc_v.Bytes.Value.{IsWord, value}
use ya_risc_v.Cpu.Instructions.Op32M.{
  divuw, low32_signed, remuw, low32_unsigned, mulw, remw, divw, write_sext32,
}
use ya_risc_v.Bytes.{Bytes, unsigned_big_int_to_bytes}
use ya_risc_v.Cpu.Instructions.Result.{HasResult, IsHart, offset, write-HasResult}
use ya_risc_v.Prelude.{
  low_bits_ℤ, ap, arith, ◌^◌, ◌%◌, ◌<◌, ◌≡◌, ◌∙◌, ℕ, ℤ, pos, negsuc, ◌/◌, ◌==◌, ◌-◌, if◌then◌else◌,
}
use ya_risc_v.Cpu.Instructions.Multiply.Numbers32.{
  product32, signed32, multiply_result32, remainder32, quotient32,
}
use ya_risc_v.Cpu.Instructions.Op32.{Op32Args}
use ya_risc_v.Cpu.Registers.{advance_program_counter}

abbrev pub execute_multiply32 : MulOp32 → Registers → Op32Args → Bytes → Registers
execute_multiply32 multiply_word = mulw
execute_multiply32 divide_word = divw
execute_multiply32 divide_word_unsigned = divuw
execute_multiply32 remainder_word = remw
execute_multiply32 remainder_word_unsigned = remuw

low32_unsigned-value :
    (r : Registers) (i : ℕ)
    → IsWord (r.general_purpose i)
    → low32_unsigned r i ≡ value (r.general_purpose i) % 2 ^ 32
unfolding low32_unsigned
low32_unsigned-value r i w =
    ap (λ (t : ℕ). t % 2 ^ 32) (bytes_to_big_int-value (low32_bytes-IsWord w) ∙ value-low32_bytes w)
    ∙ omega arith

low32_signed-value :
    (r : Registers) (i : ℕ)
    → IsWord (r.general_purpose i)
    → low32_signed r i ≡ signed32 (value (r.general_purpose i) % 2 ^ 32)
unfolding low32_signed
low32_signed-value r i w = ap signed32 (low32_unsigned-value r i w)

low_bits-lt : (v : ℤ) → low_bits_ℤ 32 v < 2 ^ 32
low_bits-lt (pos v) = omega arith
low_bits-lt (negsuc v) = omega arith

packed32 :
    (v : ℤ) (result : ℕ)
    → low_bits_ℤ 32 v ≡ result
    → Extends (unsigned_big_int_to_bytes (low_bits_ℤ 32 v)) (extend32 result)
packed32 v result e = extended result (unsigned_big_int_to_bytes-IsWord (low_bits_ℤ 32 v)) (
    ap (λ (t : ℕ). t % 2 ^ 32) (value-unsigned_big_int_to_bytes (low_bits_ℤ 32 v))
    ∙ omega (arith, low_bits-lt v, e))

module _ {r : Registers} {length : Bytes} (hart : IsHart r) (l : IsWord length)
    (args : Op32Args) where
  low : (i : ℕ) → value (r.general_purpose i) % 2 ^ 32 < 2 ^ 32
  low i = omega arith

  first_unsigned :
      low32_unsigned r args.source_register1
      ≡ value (r.general_purpose args.source_register1) % 2 ^ 32
  first_unsigned = low32_unsigned-value r args.source_register1 (hart.words args.source_register1)

  second_unsigned :
      low32_unsigned r args.source_register2
      ≡ value (r.general_purpose args.source_register2) % 2 ^ 32
  second_unsigned = low32_unsigned-value r args.source_register2 (hart.words args.source_register2)

  first_signed :
      low32_signed r args.source_register1
      ≡ signed32 (value (r.general_purpose args.source_register1) % 2 ^ 32)
  first_signed = low32_signed-value r args.source_register1 (hart.words args.source_register1)

  second_signed :
      low32_signed r args.source_register2
      ≡ signed32 (value (r.general_purpose args.source_register2) % 2 ^ 32)
  second_signed = low32_signed-value r args.source_register2 (hart.words args.source_register2)

  sext_result :
      (v : ℤ) (result : ℕ)
      → low_bits_ℤ 32 v ≡ result
      → HasResult r
          (advance_program_counter (write_sext32 r args.destination_register v) length)
          args.destination_register
          (extend32 result)
          (offset r length)
  unfolding write_sext32
  sext_result v result e = write-HasResult hart _ _ _ (packed32 v result e) l

  abbrev wanted : MulOp32 → ℕ
  wanted op =
      multiply_result32 op (value (r.general_purpose args.source_register1) % 2 ^ 32)
        (value (r.general_purpose args.source_register2) % 2 ^ 32)

  -- In a hart whose registers are words and whose x0 is zero, at a length that is a word:
  -- each instruction of `op-32-m.ts` leaves the sign extension of its product, quotient or remainder of
  -- the low halves of the two source registers in its destination register, unless that is x0,
  -- advances the program counter, and changes nothing else.
  pub execute_multiply32-HasResult :
      (op : MulOp32)
      → HasResult r
          (execute_multiply32 op r args length)
          args.destination_register
          (extend32 (
            multiply_result32 op
              (value (r.general_purpose args.source_register1) % 2 ^ 32)
              (value (r.general_purpose args.source_register2) % 2 ^ 32)))
          (offset r length)
  unfolding mulw divw divuw remw remuw
  execute_multiply32-HasResult multiply_word =
      sext_result _ (wanted multiply_word)
        (rw (first_signed, second_signed) (product32 _ _ (low _) (low _)))
  execute_multiply32-HasResult divide_word =
      sext_result _ (wanted divide_word)
        (rw (first_signed, second_signed) (quotient32 _ _ (low _) (low _)))
  execute_multiply32-HasResult divide_word_unsigned =
      sext_result
        (pos (
          if low32_unsigned r args.source_register2 == 0
          then 2 ^ 32 - 1
          else low32_unsigned r args.source_register1 / low32_unsigned r args.source_register2))
        (wanted divide_word_unsigned)
        (rw (first_unsigned, second_unsigned)
          (ground (
            arith,
            div-le_self (value (r.general_purpose args.source_register1) % 2 ^ 32)
                (value (r.general_purpose args.source_register2) % 2 ^ 32),
          )))
  execute_multiply32-HasResult remainder_word =
      sext_result _ (wanted remainder_word)
        (rw (first_signed, second_signed) (remainder32 _ _ (low _) (low _)))
  execute_multiply32-HasResult remainder_word_unsigned =
      sext_result
        (pos (
          if low32_unsigned r args.source_register2 == 0
          then low32_unsigned r args.source_register1
          else low32_unsigned r args.source_register1 % low32_unsigned r args.source_register2))
        (wanted remainder_word_unsigned)
        (rw (first_unsigned, second_unsigned)
          (ground (
            arith,
            mod-le (value (r.general_purpose args.source_register1) % 2 ^ 32)
                (value (r.general_purpose args.source_register2) % 2 ^ 32),
          )))
