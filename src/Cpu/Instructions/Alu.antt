-- ===== src/Cpu/Instructions/Alu.antt =====
-- The instructions of op.ts compute the 64-bit operations on the numbers in the registers.
use ya_risc_v.Prelude.{ℕ, ◌≡◌, ap, ◌∙◌}
use ya_risc_v.Prelude.{Bool}
use ya_risc_v.Bytes.{Bytes}
use ya_risc_v.Bytes.Value.{value, IsWord}
use ya_risc_v.Cpu.Types.{Registers}
use ya_risc_v.Cpu.Registers.{set_boolean_general_purpose_register}
use ya_risc_v.Cpu.Registers.{advance_program_counter}
use ya_risc_v.Cpu.Instructions.Result.{IsHart, HasResult, write-HasResult, offset, flag}
use ya_risc_v.Cpu.Instructions.Result.{op_result, AluOp, op_add, op_sub, op_sll, op_slt, op_sltu}
use ya_risc_v.Cpu.Instructions.Result.{op_xor, op_srl, op_sra, op_or, op_and}
use ya_risc_v.Cpu.Instructions.Op.{OpArgs, add, sub, sll, slt, sltu, xor, srl, sra, or, and}
use ya_risc_v.Cpu.Instructions.Words.{flag-IsWord, value-flag, less_signed, less_unsigned}
use ya_risc_v.Cpu.Instructions.Words.{shift_amount-value, add-Computes, sub-Computes, xor-Computes}
use ya_risc_v.Cpu.Instructions.Words.{
  or-Computes, and-Computes, sll-Computes, srl-Computes, sra-Computes,
}

-- The function of op.ts for an operation.
abbrev pub execute_op : AluOp → Registers → OpArgs → Bytes → Registers
execute_op op_add = add
execute_op op_sub = sub
execute_op op_sll = sll
execute_op op_slt = slt
execute_op op_sltu = sltu
execute_op op_xor = xor
execute_op op_srl = srl
execute_op op_sra = sra
execute_op op_or = or
execute_op op_and = and

module _ {r : Registers} {length : Bytes} (hart : IsHart r) (l : IsWord length) where
  pub result_of_flag :
      (destination result : ℕ) (c : Bool)
      → flag c ≡ result
      → HasResult r
          (advance_program_counter (set_boolean_general_purpose_register r destination c) length)
          destination
          result
          (offset r length)
  unfolding set_boolean_general_purpose_register
  result_of_flag destination result c e =
      write-HasResult hart destination result _ (flag-IsWord c, value-flag c ∙ e) l

  first : (args : OpArgs) → IsWord (r.general_purpose args.source_register1)
  first args = hart.words args.source_register1

  second : (args : OpArgs) → IsWord (r.general_purpose args.source_register2)
  second args = hart.words args.source_register2

  -- In a hart whose registers are words and whose x0 is zero, at a length that is a word:
  -- each instruction of `op.ts` leaves the 64-bit operation on its two source registers in its
  -- destination register, unless that is x0, advances the program counter modulo 2 ^ 64, and
  -- changes nothing else.
  pub execute_op-HasResult :
      (op : AluOp) (args : OpArgs)
      → HasResult r
          (execute_op op r args length)
          args.destination_register
          (op_result op
            (value (r.general_purpose args.source_register1))
            (value (r.general_purpose args.source_register2)))
          (offset r length)
  unfolding add sub sll slt sltu xor srl sra or and
  execute_op-HasResult op_add args =
      write-HasResult hart _ _ _ (add-Computes (first args) (second args)) l
  execute_op-HasResult op_sub args =
      write-HasResult hart _ _ _ (sub-Computes (first args) (second args)) l
  execute_op-HasResult op_xor args =
      write-HasResult hart _ _ _ (xor-Computes (first args) (second args)) l
  execute_op-HasResult op_or args =
      write-HasResult hart _ _ _ (or-Computes (first args) (second args)) l
  execute_op-HasResult op_and args =
      write-HasResult hart _ _ _ (and-Computes (first args) (second args)) l
  execute_op-HasResult op_sll args =
      write-HasResult hart _ _ _ (sll-Computes (first args) _ _ (shift_amount-value (second args)))
        l
  execute_op-HasResult op_srl args =
      write-HasResult hart _ _ _ (srl-Computes (first args) _ _ (shift_amount-value (second args)))
        l
  execute_op-HasResult op_sra args =
      write-HasResult hart _ _ _ (sra-Computes (first args) _ _ (shift_amount-value (second args)))
        l
  execute_op-HasResult op_slt args =
      result_of_flag _ _ _ (ap flag (less_signed (first args) (second args)))
  execute_op-HasResult op_sltu args =
      result_of_flag _ _ _ (ap flag (less_unsigned (first args) (second args)))
