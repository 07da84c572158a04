-- ===== src/Cpu/Instructions/AluImm.antt =====
-- The instructions of op-imm.ts compute the same operations with an immediate operand.
use ya_risc_v.Prelude.{refl, ap}
use ya_risc_v.Bytes.{Bytes}
use ya_risc_v.Bytes.Value.{value, IsWord}
use ya_risc_v.Cpu.Types.{Registers}
use ya_risc_v.Cpu.Instructions.Alu.{result_of_flag}
use ya_risc_v.Cpu.Instructions.Result.{IsHart, HasResult, write-HasResult, offset, flag}
use ya_risc_v.Cpu.Instructions.Result.{op_result, AluOp, op_add, op_sll, op_slt, op_sltu}
use ya_risc_v.Cpu.Instructions.Result.{op_xor, op_srl, op_sra, op_or, op_and}
use ya_risc_v.Cpu.Instructions.Words.{less_signed, less_unsigned}
use ya_risc_v.Cpu.Instructions.Words.{add-Computes, xor-Computes}
use ya_risc_v.Cpu.Instructions.Words.{
  or-Computes, and-Computes, sll-Computes, srl-Computes, sra-Computes,
}
use ya_risc_v.Cpu.Instructions.OpImm.{OpImmArgs, ShiftImmArgs, addi, slti, sltiu, xori, ori, andi}
use ya_risc_v.Cpu.Instructions.OpImm.{slli, srli, srai}

-- The operations of op-imm.ts on a word, and its shifts.
pub data ImmOp : Type 0 where
  imm_add : ImmOp
  imm_slt : ImmOp
  imm_sltu : ImmOp
  imm_xor : ImmOp
  imm_or : ImmOp
  imm_and : ImmOp

pub data ShiftOp : Type 0 where
  shift_left : ShiftOp
  shift_right_logical : ShiftOp
  shift_right_arithmetic : ShiftOp

abbrev pub alu_op : ImmOp → AluOp
alu_op imm_add = op_add
alu_op imm_slt = op_slt
alu_op imm_sltu = op_sltu
alu_op imm_xor = op_xor
alu_op imm_or = op_or
alu_op imm_and = op_and

abbrev pub alu_shift : ShiftOp → AluOp
alu_shift shift_left = op_sll
alu_shift shift_right_logical = op_srl
alu_shift shift_right_arithmetic = op_sra

abbrev pub execute_op_imm : ImmOp → Registers → OpImmArgs → Bytes → Registers
execute_op_imm imm_add = addi
execute_op_imm imm_slt = slti
execute_op_imm imm_sltu = sltiu
execute_op_imm imm_xor = xori
execute_op_imm imm_or = ori
execute_op_imm imm_and = andi

abbrev pub execute_shift_imm : ShiftOp → Registers → ShiftImmArgs → Bytes → Registers
execute_shift_imm shift_left = slli
execute_shift_imm shift_right_logical = srli
execute_shift_imm shift_right_arithmetic = srai

module _ {r : Registers} {length : Bytes} (hart : IsHart r) (l : IsWord length) where
  first : (args : OpImmArgs) → IsWord (r.general_purpose args.source_register1)
  first args = hart.words args.source_register1

  -- In a hart whose registers are words and whose x0 is zero, at a length that is a word:
  -- each operation of `op-imm.ts` on an immediate word leaves the 64-bit operation on its source
  -- register and that word in its destination register, unless that is x0, advances the program
  -- counter modulo 2 ^ 64, and changes nothing else.
  pub execute_op_imm-HasResult :
      (op : ImmOp) (args : OpImmArgs)
      → IsWord args.immediate
      → HasResult r
          (execute_op_imm op r args length)
          args.destination_register
          (op_result
            (alu_op op)
            (value (r.general_purpose args.source_register1))
            (value args.immediate))
          (offset r length)
  unfolding addi slti sltiu xori ori andi
  execute_op_imm-HasResult imm_add args w =
      write-HasResult hart _ _ _ (add-Computes (first args) w) l
  execute_op_imm-HasResult imm_xor args w =
      write-HasResult hart _ _ _ (xor-Computes (first args) w) l
  execute_op_imm-HasResult imm_or args w = write-HasResult hart _ _ _ (or-Computes (first args) w) l
  execute_op_imm-HasResult imm_and args w =
      write-HasResult hart _ _ _ (and-Computes (first args) w) l
  execute_op_imm-HasResult imm_slt args w =
      result_of_flag hart l _ _ _ (ap flag (less_signed (first args) w))
  execute_op_imm-HasResult imm_sltu args w =
      result_of_flag hart l _ _ _ (ap flag (less_unsigned (first args) w))

  -- In a hart whose registers are words and whose x0 is zero, at a length that is a word:
  -- each shift of `op-imm.ts` leaves the 64-bit shift of its source register, by the low six bits
  -- of the amount, in its destination register, unless that is x0, advances the program counter
  -- modulo 2 ^ 64, and changes nothing else.
  pub execute_shift_imm-HasResult :
      (op : ShiftOp) (args : ShiftImmArgs)
      → HasResult r
          (execute_shift_imm op r args length)
          args.destination_register
          (op_result
            (alu_shift op)
            (value (r.general_purpose args.source_register1))
            args.shift_amount)
          (offset r length)
  unfolding slli srli srai
  execute_shift_imm-HasResult shift_left args =
      write-HasResult hart _ _ _
        (sll-Computes (hart.words args.source_register1) args.shift_amount _ refl) l
  execute_shift_imm-HasResult shift_right_logical args =
      write-HasResult hart _ _ _
        (srl-Computes (hart.words args.source_register1) args.shift_amount _ refl) l
  execute_shift_imm-HasResult shift_right_arithmetic args =
      write-HasResult hart _ _ _
        (sra-Computes (hart.words args.source_register1) args.shift_amount _ refl) l
