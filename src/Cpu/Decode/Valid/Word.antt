-- ===== src/Cpu/Decode/Valid/Word.antt =====
-- Every instruction of decode-32.ts is one whose operands fit.
use ya_risc_v.Prelude.{◌^◌, ◌<◌, ℕ}
use ya_risc_v.Cpu.Decode.Word.Memory.{decode_amo_function5, decode_store, decode_load, decode_amo}
use ya_risc_v.Cpu.Decode.Instruction.{AmoArgs, AmoWidth, fence_virtual_memory, illegal}
use ya_risc_v.Cpu.Decode.Word.{decode32}
use ya_risc_v.Cpu.Decode.Valid.{IsValid, top_bits, if-IsValid, operand_rules}
use ya_risc_v.Cpu.Decode.Word.Arithmetic32.{decode_op_32, decode_op_32_m, decode_op_imm_32}
use ya_risc_v.Cpu.Decode.Word.Control.{
  decode_branch, decode_jal, decode_jalr, decode_misc_mem, decode_system_function12, decode_system,
}
use ya_risc_v.Cpu.Decode.Fields.{
  decode_u_type_immediate, decode_i_type_immediate, decode_j_type_immediate,
  decode_b_type_immediate, decode_s_type_immediate,
}
use ya_risc_v.Cpu.Decode.Word.Arithmetic.{
  decode_op_imm, decode_lui, decode_auipc, decode_op, decode_op_m,
}

module _ (word : ℕ) (small : word < 2 ^ 32) where
  illegal-IsValid : IsValid (illegal word)
  illegal-IsValid = record { operands = small }

  fence_virtual_memory-IsValid : IsValid (fence_virtual_memory word)
  fence_virtual_memory-IsValid = record { operands = small }

  decode_lui-IsValid : IsValid (decode_lui word)
  unfolding decode_lui decode_u_type_immediate
  decode_lui-IsValid = search operand_rules depth 40

  decode_auipc-IsValid : IsValid (decode_auipc word)
  unfolding decode_auipc decode_u_type_immediate
  decode_auipc-IsValid = search operand_rules depth 40

  decode_jal-IsValid : IsValid (decode_jal word)
  unfolding decode_jal decode_j_type_immediate
  decode_jal-IsValid = search operand_rules depth 40

  decode_jalr-IsValid : IsValid (decode_jalr word)
  unfolding decode_jalr decode_i_type_immediate
  decode_jalr-IsValid = search (operand_rules, illegal-IsValid) depth 40

  decode_branch-IsValid : IsValid (decode_branch word)
  unfolding decode_branch decode_b_type_immediate
  decode_branch-IsValid = search (operand_rules, illegal-IsValid) depth 40

  decode_load-IsValid : IsValid (decode_load word)
  unfolding decode_load decode_i_type_immediate
  decode_load-IsValid = search (operand_rules, illegal-IsValid) depth 40

  decode_store-IsValid : IsValid (decode_store word)
  unfolding decode_store decode_s_type_immediate
  decode_store-IsValid = search (operand_rules, illegal-IsValid) depth 40

  decode_op_imm-IsValid : IsValid (decode_op_imm word)
  unfolding decode_op_imm decode_i_type_immediate
  decode_op_imm-IsValid = search (operand_rules, illegal-IsValid) depth 40

  decode_op_m-IsValid : IsValid (decode_op_m word)
  unfolding decode_op_m
  decode_op_m-IsValid = search (operand_rules, illegal-IsValid) depth 40

  decode_op-IsValid : IsValid (decode_op word)
  unfolding decode_op
  decode_op-IsValid = search (operand_rules, illegal-IsValid, decode_op_m-IsValid) depth 40

  decode_op_imm_32-IsValid : IsValid (decode_op_imm_32 word)
  unfolding decode_op_imm_32 decode_i_type_immediate
  decode_op_imm_32-IsValid = search (operand_rules, illegal-IsValid) depth 40

  decode_op_32_m-IsValid : IsValid (decode_op_32_m word)
  unfolding decode_op_32_m
  decode_op_32_m-IsValid = search (operand_rules, illegal-IsValid) depth 40

  decode_op_32-IsValid : IsValid (decode_op_32 word)
  unfolding decode_op_32
  decode_op_32-IsValid = search (operand_rules, illegal-IsValid, decode_op_32_m-IsValid) depth 40

  decode_misc_mem-IsValid : IsValid (decode_misc_mem word)
  unfolding decode_misc_mem
  decode_misc_mem-IsValid = search (operand_rules, illegal-IsValid) depth 40

  decode_system_function12-IsValid : IsValid (decode_system_function12 word)
  unfolding decode_system_function12
  decode_system_function12-IsValid =
      search (operand_rules, illegal-IsValid, fence_virtual_memory-IsValid) depth 40

  decode_amo_function5-IsValid :
      (width : AmoWidth) (args : AmoArgs)
      → args.destination_register < 32
      → args.source_register1 < 32
      → args.source_register2 < 32
      → IsValid (decode_amo_function5 word width args)
  unfolding decode_amo_function5
  decode_amo_function5-IsValid width args d s1 s2 = search (operand_rules, illegal-IsValid) depth 40

  decode_amo-IsValid : IsValid (decode_amo word)
  unfolding decode_amo
  decode_amo-IsValid =
      search (operand_rules, illegal-IsValid, decode_amo_function5-IsValid) depth 40

  decode_system-IsValid : IsValid (decode_system word)
  unfolding decode_system
  decode_system-IsValid =
      search (operand_rules, illegal-IsValid, decode_system_function12-IsValid, top_bits word small)
        depth 40

  -- Every 32-bit encoding decodes to an instruction whose register numbers are below 32, whose shift
  -- amounts are below the width of the shift, and whose immediates are words.
  pub decode32-IsValid : IsValid (decode32 word)
  unfolding decode32
  decode32-IsValid =
      search
        (
          if-IsValid, illegal-IsValid, decode_lui-IsValid, decode_auipc-IsValid, decode_jal-IsValid,
          decode_jalr-IsValid, decode_branch-IsValid, decode_load-IsValid, decode_store-IsValid,
          decode_op_imm-IsValid, decode_op-IsValid, decode_op_imm_32-IsValid, decode_op_32-IsValid,
          decode_misc_mem-IsValid, decode_amo-IsValid, decode_system-IsValid,
        )
        depth 40
