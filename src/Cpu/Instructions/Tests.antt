-- ===== src/Cpu/Instructions/Tests.antt =====
-- The theorems on instructions at a concrete hart, and runs.
use ya_risc_v.Cpu.Instructions.Multiply.Numbers.{multiply_result}
use ya_risc_v.Cpu.Instructions.Multiply32.{execute_multiply32-HasResult, execute_multiply32}
use ya_risc_v.Cpu.Decode.Instruction.{multiply_high, divide_word}
use ya_risc_v.Cpu.Instructions.Multiply.Numbers32.{multiply_result32}
use ya_risc_v.Cpu.Instructions.Multiply.{execute_multiply-HasResult, execute_multiply}
use ya_risc_v.Prelude.{ℕ, ◌+◌, ◌*◌, ◌%◌, ◌^◌, refl, if◌then◌else◌, ◌==◌, if-ap}
use ya_risc_v.Bytes.{Bytes, zero_bytes, unsigned_big_int_to_bytes}
use ya_risc_v.Bytes.Value.{value, IsWord}
use ya_risc_v.Bytes.Convert.{unsigned_big_int_to_bytes-IsWord}
use ya_risc_v.Cpu.Types.{Registers}
use ya_risc_v.Cpu.Registers.{create_registers}
use ya_risc_v.Cpu.Instructions.Result.{IsHart, HasResult, op_result, op_sra, offset, op_xor}
use ya_risc_v.Cpu.Instructions.Op.{OpArgs}
use ya_risc_v.Cpu.Instructions.OpImm.{OpImmArgs, ShiftImmArgs}
use ya_risc_v.Cpu.Instructions.Jump.{JalArgs, JalrArgs, lui, auipc, jal, jalr}
use ya_risc_v.Cpu.Instructions.Branch.{BranchArgs}
use ya_risc_v.Cpu.Instructions.Alu.{execute_op, execute_op-HasResult}
use ya_risc_v.Cpu.Instructions.AluImm.{
  execute_op_imm, execute_op_imm-HasResult, execute_shift_imm, execute_shift_imm-HasResult, imm_xor,
  shift_right_arithmetic,
}
use ya_risc_v.Cpu.Instructions.Condition.{execute_branch, execute_branch-IsAt, is_taken, IsAt}
use ya_risc_v.Cpu.Instructions.Condition.{branch_lt}
use ya_risc_v.Cpu.Instructions.Target.{
  even, upper_immediate-HasResult, jal-HasResult, jalr-HasResult,
}
use ya_risc_v.Prelude.{arith}
use ya_risc_v.Cpu.Instructions.Op32.{Op32Args}
use ya_risc_v.Cpu.Instructions.OpImm32.{OpImm32Args, ShiftImm32Args, addiw}
use ya_risc_v.Cpu.Instructions.Words32.{extend32}
use ya_risc_v.Cpu.Instructions.Alu32.{
  execute_op_32, execute_op_32-HasResult, op32_sra, op32_result, execute_shift_imm_32,
  execute_shift_imm_32-HasResult, shift32_right_arithmetic, shift32_result, addiw-HasResult,
}

abbrev word : ℕ → Bytes
word = unsigned_big_int_to_bytes

abbrev hart : Registers
hart = record create_registers {
  general_purpose =
      λ i. if i == 0 then zero_bytes else word (0xf123_4567_89ab_cdef * (i % 2) + 0x1_0005);
  program_counter = word 0x8000_0104;
}

zero-IsWord : IsWord zero_bytes
unfolding zero_bytes unsigned_big_int_to_bytes
zero-IsWord = unsigned_big_int_to_bytes-IsWord 0

hart-IsHart : IsHart hart
hart-IsHart = record {
  words = λ i.
      if-ap IsWord (i == 0) _ _ zero-IsWord
        (unsigned_big_int_to_bytes-IsWord (0xf123_4567_89ab_cdef * (i % 2) + 0x1_0005));
  hardwired = refl;
  counter = unsigned_big_int_to_bytes-IsWord 0x8000_0104;
}

four-IsWord : IsWord (word 4)
four-IsWord = unsigned_big_int_to_bytes-IsWord 4

back-IsWord : IsWord (word 0xffff_ffff_ffff_fff0)
back-IsWord = unsigned_big_int_to_bytes-IsWord 0xffff_ffff_ffff_fff0

abbrev op_args : OpArgs
op_args = record { destination_register = 5; source_register1 = 7; source_register2 = 6 }

execute_op-HasResult_example :
    HasResult hart
      (execute_op op_sra hart op_args (word 4))
      5
      (op_result op_sra (value (hart.general_purpose 7)) (value (hart.general_purpose 6)))
      (offset hart (word 4))
execute_op-HasResult_example = execute_op-HasResult hart-IsHart four-IsWord op_sra op_args

abbrev imm_args : OpImmArgs
imm_args = record {
  destination_register = 5;
  source_register1 = 7;
  immediate = word 0xffff_ffff_ffff_fff0;
}

execute_op_imm-HasResult_example :
    HasResult hart
      (execute_op_imm imm_xor hart imm_args (word 4))
      5
      (op_result op_xor (value (hart.general_purpose 7)) (value imm_args.immediate))
      (offset hart (word 4))
execute_op_imm-HasResult_example =
    execute_op_imm-HasResult hart-IsHart four-IsWord imm_xor imm_args back-IsWord

abbrev shift_args : ShiftImmArgs
shift_args = record { destination_register = 0; source_register1 = 7; shift_amount = 13 }

execute_shift_imm-HasResult_example :
    HasResult hart
      (execute_shift_imm shift_right_arithmetic hart shift_args (word 4))
      0
      (op_result op_sra (value (hart.general_purpose 7)) 13)
      (offset hart (word 4))
execute_shift_imm-HasResult_example =
    execute_shift_imm-HasResult hart-IsHart four-IsWord shift_right_arithmetic shift_args

abbrev branch_args : BranchArgs
branch_args = record {
  source_register1 = 7;
  source_register2 = 6;
  immediate = word 0xffff_ffff_ffff_fff0;
}

execute_branch-IsAt_example : IsAt hart (execute_branch branch_lt hart branch_args (word 4)) (
    if is_taken branch_lt (value (hart.general_purpose 7)) (value (hart.general_purpose 6))
    then offset hart branch_args.immediate
    else offset hart (word 4))
execute_branch-IsAt_example =
    execute_branch-IsAt hart-IsHart four-IsWord branch_lt branch_args back-IsWord

upper_immediate-HasResult_example :
    HasResult hart
      (lui hart (record { destination_register = 9; immediate = word 0x7000 }) (word 4))
      9
      (value (word 0x7000))
      (offset hart (word 4))
    × HasResult hart
        (auipc hart (record { destination_register = 9; immediate = word 0x7000 }) (word 4))
        9
        (offset hart (word 0x7000))
        (offset hart (word 4))
upper_immediate-HasResult_example =
    upper_immediate-HasResult hart-IsHart four-IsWord 9 (word 0x7000)
      (unsigned_big_int_to_bytes-IsWord 0x7000)

abbrev jal_args : JalArgs
jal_args = record { destination_register = 1; immediate = word 0xffff_ffff_ffff_fff0 }

jal-HasResult_example :
    HasResult hart
      (jal hart jal_args (word 4))
      1
      (offset hart (word 4))
      (offset hart jal_args.immediate)
jal-HasResult_example = jal-HasResult hart-IsHart four-IsWord jal_args back-IsWord

-- The link is written to the register that the target is read from.
abbrev jalr_args : JalrArgs
jalr_args = record {
  destination_register = 7;
  source_register1 = 7;
  immediate = word 0xffff_ffff_ffff_fff0;
}

jalr-HasResult_example :
    HasResult hart
      (jalr hart jalr_args (word 4))
      7
      (offset hart (word 4))
      (even ((value (hart.general_purpose 7) + value jalr_args.immediate) % 2 ^ 64))
jalr-HasResult_example = jalr-HasResult hart-IsHart four-IsWord jalr_args back-IsWord

abbrev op32_args : Op32Args
op32_args = record { destination_register = 5; source_register1 = 7; source_register2 = 6 }

execute_op_32-HasResult_example :
    HasResult hart
      (execute_op_32 op32_sra hart op32_args (word 4))
      5
      (op32_result op32_sra (value (hart.general_purpose 7)) (value (hart.general_purpose 6)))
      (offset hart (word 4))
execute_op_32-HasResult_example = execute_op_32-HasResult hart-IsHart four-IsWord op32_sra op32_args

abbrev shift32_args : ShiftImm32Args
shift32_args = record { destination_register = 5; source_register1 = 7; shift_amount = 31 }

execute_shift_imm_32-HasResult_example :
    HasResult hart
      (execute_shift_imm_32 shift32_right_arithmetic hart shift32_args (word 4))
      5
      (shift32_result shift32_right_arithmetic (value (hart.general_purpose 7)) 31)
      (offset hart (word 4))
execute_shift_imm_32-HasResult_example =
    execute_shift_imm_32-HasResult hart-IsHart four-IsWord shift32_right_arithmetic shift32_args
      (omega arith)

abbrev imm32_args : OpImm32Args
imm32_args = record {
  destination_register = 5;
  source_register1 = 7;
  immediate = word 0xffff_ffff_ffff_fff0;
}

addiw-HasResult_example :
    HasResult hart
      (addiw hart imm32_args (word 4))
      5
      (extend32 ((value (hart.general_purpose 7) + value imm32_args.immediate) % 2 ^ 32))
      (offset hart (word 4))
addiw-HasResult_example = addiw-HasResult hart-IsHart four-IsWord imm32_args back-IsWord

abbrev product_args : OpArgs
product_args = record { destination_register = 5; source_register1 = 7; source_register2 = 3 }

execute_multiply-HasResult_example :
    HasResult hart
      (execute_multiply multiply_high hart product_args (word 4))
      5
      (multiply_result multiply_high
        (value (hart.general_purpose 7))
        (value (hart.general_purpose 3)))
      (offset hart (word 4))
execute_multiply-HasResult_example =
    execute_multiply-HasResult hart-IsHart four-IsWord product_args multiply_high

abbrev word_args : Op32Args
word_args = record { destination_register = 5; source_register1 = 7; source_register2 = 0 }

execute_multiply32-HasResult_example :
    HasResult hart
      (execute_multiply32 divide_word hart word_args (word 4))
      5
      (extend32 (
        multiply_result32 divide_word
          (value (hart.general_purpose 7) % 2 ^ 32)
          (value (hart.general_purpose 0) % 2 ^ 32)))
      (offset hart (word 4))
execute_multiply32-HasResult_example =
    execute_multiply32-HasResult hart-IsHart four-IsWord word_args divide_word
