-- ===== src/Cpu/Instructions/Alu32.antt =====
-- The instructions of op-32.ts and op-imm-32.ts compute on the low 32 bits and extend the sign.
use ya_risc_v.Prelude.{ℕ, ◌+◌, ◌-◌, ◌*◌, ◌/◌, ◌%◌, ◌^◌, ◌<◌, arith}
use ya_risc_v.Bytes.{Bytes}
use ya_risc_v.Bytes.Value.{value, IsWord}
use ya_risc_v.Cpu.Types.{Registers}
use ya_risc_v.Cpu.Instructions.Result.{
  IsHart, HasResult, write-HasResult, offset, op_result, op_sra,
}
use ya_risc_v.Cpu.Instructions.Words32.{
  extend32, shift_amount32-value, addw-Extends, subw-Extends, addiw-Extends, sllw-Extends,
  srlw-Extends, sraw-Extends,
}
use ya_risc_v.Cpu.Instructions.Op32.{Op32Args, addw, subw, sllw, srlw, sraw}
use ya_risc_v.Cpu.Instructions.OpImm32.{OpImm32Args, ShiftImm32Args, addiw, slliw, srliw, sraiw}

pub data Op32 : Type 0 where
  op32_add : Op32
  op32_sub : Op32
  op32_sll : Op32
  op32_srl : Op32
  op32_sra : Op32

pub data ShiftOp32 : Type 0 where
  shift32_left : ShiftOp32
  shift32_right_logical : ShiftOp32
  shift32_right_arithmetic : ShiftOp32

abbrev pub execute_op_32 : Op32 → Registers → Op32Args → Bytes → Registers
execute_op_32 op32_add = addw
execute_op_32 op32_sub = subw
execute_op_32 op32_sll = sllw
execute_op_32 op32_srl = srlw
execute_op_32 op32_sra = sraw

abbrev pub execute_shift_imm_32 : ShiftOp32 → Registers → ShiftImm32Args → Bytes → Registers
execute_shift_imm_32 shift32_left = slliw
execute_shift_imm_32 shift32_right_logical = srliw
execute_shift_imm_32 shift32_right_arithmetic = sraiw

abbrev pub shift32_result : ShiftOp32 → ℕ → ℕ → ℕ
shift32_result shift32_left a k = extend32 (a % 2 ^ 32 * 2 ^ k % 2 ^ 32)
shift32_result shift32_right_logical a k = extend32 (a % 2 ^ 32 / 2 ^ k)
shift32_result shift32_right_arithmetic a k = op_result op_sra (extend32 (a % 2 ^ 32)) k

abbrev pub op32_result : Op32 → ℕ → ℕ → ℕ
op32_result op32_add a b = extend32 ((a + b) % 2 ^ 32)
op32_result op32_sub a b = extend32 ((a + 2 ^ 32 - b % 2 ^ 32) % 2 ^ 32)
op32_result op32_sll a b = shift32_result shift32_left a (b % 32)
op32_result op32_srl a b = shift32_result shift32_right_logical a (b % 32)
op32_result op32_sra a b = shift32_result shift32_right_arithmetic a (b % 32)

below : (x : ℕ) → x % 32 < 32
below x = omega arith

module _ {r : Registers} {length : Bytes} (hart : IsHart r) (l : IsWord length) where
  first : (args : Op32Args) → IsWord (r.general_purpose args.source_register1)
  first args = hart.words args.source_register1

  second : (args : Op32Args) → IsWord (r.general_purpose args.source_register2)
  second args = hart.words args.source_register2

  -- In a hart whose registers are words and whose x0 is zero, at a length that is a word:
  -- each instruction of `op-32.ts` leaves the 32-bit operation on the low halves of its source
  -- registers, sign-extended to 64 bits, in its destination register, unless that is x0, advances
  -- the program counter modulo 2 ^ 64, and changes nothing else.
  pub execute_op_32-HasResult :
      (op : Op32) (args : Op32Args)
      → HasResult r
          (execute_op_32 op r args length)
          args.destination_register
          (op32_result op
            (value (r.general_purpose args.source_register1))
            (value (r.general_purpose args.source_register2)))
          (offset r length)
  unfolding addw subw sllw srlw sraw
  execute_op_32-HasResult op32_add args =
      write-HasResult hart _ _ _ (addw-Extends (first args) (second args)) l
  execute_op_32-HasResult op32_sub args =
      write-HasResult hart _ _ _ (subw-Extends (first args) (second args)) l
  execute_op_32-HasResult op32_sll args =
      rw (shift_amount32-value (second args))
        (write-HasResult hart _ _ _ (sllw-Extends (first args) _ (below _)) l)
  execute_op_32-HasResult op32_srl args =
      rw (shift_amount32-value (second args))
        (write-HasResult hart _ _ _ (srlw-Extends (first args) _ (below _)) l)
  execute_op_32-HasResult op32_sra args =
      rw (shift_amount32-value (second args))
        (write-HasResult hart _ _ _ (sraw-Extends (first args) _ (below _)) l)

  -- In a hart whose registers are words and whose x0 is zero, at a length that is a word:
  -- each shift of `op-imm-32.ts`, by fewer than 32 bits, leaves the 32-bit shift of the low half of
  -- its source register, sign-extended to 64 bits, in its destination register, unless that is x0,
  -- advances the program counter modulo 2 ^ 64, and changes nothing else.
  pub execute_shift_imm_32-HasResult :
      (op : ShiftOp32) (args : ShiftImm32Args)
      → args.shift_amount < 32
      → HasResult r
          (execute_shift_imm_32 op r args length)
          args.destination_register
          (shift32_result op (value (r.general_purpose args.source_register1)) args.shift_amount)
          (offset r length)
  unfolding slliw srliw sraiw
  execute_shift_imm_32-HasResult shift32_left args few =
      write-HasResult hart _ _ _
        (sllw-Extends (hart.words args.source_register1) args.shift_amount few) l
  execute_shift_imm_32-HasResult shift32_right_logical args few =
      write-HasResult hart _ _ _
        (srlw-Extends (hart.words args.source_register1) args.shift_amount few) l
  execute_shift_imm_32-HasResult shift32_right_arithmetic args few =
      write-HasResult hart _ _ _
        (sraw-Extends (hart.words args.source_register1) args.shift_amount few) l

  -- In a hart whose registers are words and whose x0 is zero, at a length that is a word:
  -- `addiw` leaves the 32-bit sum of its source register and its immediate word, sign-extended to
  -- 64 bits, in its destination register, unless that is x0, advances the program counter modulo
  -- 2 ^ 64, and changes nothing else.
  pub addiw-HasResult :
      (args : OpImm32Args)
      → IsWord args.immediate
      → HasResult r
          (addiw r args length)
          args.destination_register
          (extend32
            ((value (r.general_purpose args.source_register1) + value args.immediate) % 2 ^ 32))
          (offset r length)
  unfolding addiw
  addiw-HasResult args w =
      write-HasResult hart _ _ _ (addiw-Extends (hart.words args.source_register1) w) l
