-- ===== src/Cpu/Instructions/Branch.antt =====
-- src/emulator/cpu/instructions/branch.ts: conditional branches.
use ya_risc_v.Prelude.{ℕ, not, if◌then◌else◌, is_lt, is_eq}
use ya_risc_v.Bytes.{Bytes, add_bytes, compare_signed_bytes, compare_unsigned_bytes}
use ya_risc_v.Cpu.Types.{Registers}
use ya_risc_v.Cpu.Registers.{read_general_purpose_register, set_program_counter}
use ya_risc_v.Cpu.Registers.{advance_program_counter}

pub record BranchArgs : Type 0 where
  pub source_register1 : ℕ
  pub source_register2 : ℕ
  pub immediate : Bytes

unfoldable pub take_branch : Registers → Bytes → Registers
unfolding set_program_counter add_bytes
take_branch registers immediate =
    set_program_counter registers (add_bytes registers.program_counter immediate)

unfoldable pub beq : Registers → BranchArgs → Bytes → Registers
unfolding take_branch advance_program_counter compare_unsigned_bytes
beq registers args instruction_byte_length =
    if is_eq (
      compare_unsigned_bytes (read_general_purpose_register registers args.source_register1)
        (read_general_purpose_register registers args.source_register2))
    then take_branch registers args.immediate
    else advance_program_counter registers instruction_byte_length

unfoldable pub bne : Registers → BranchArgs → Bytes → Registers
unfolding take_branch advance_program_counter compare_unsigned_bytes
bne registers args instruction_byte_length =
    if not (
      is_eq (
        compare_unsigned_bytes (read_general_purpose_register registers args.source_register1)
          (read_general_purpose_register registers args.source_register2)))
    then take_branch registers args.immediate
    else advance_program_counter registers instruction_byte_length

unfoldable pub blt : Registers → BranchArgs → Bytes → Registers
unfolding take_branch advance_program_counter compare_signed_bytes
blt registers args instruction_byte_length =
    if is_lt (
      compare_signed_bytes (read_general_purpose_register registers args.source_register1)
        (read_general_purpose_register registers args.source_register2))
    then take_branch registers args.immediate
    else advance_program_counter registers instruction_byte_length

unfoldable pub bge : Registers → BranchArgs → Bytes → Registers
unfolding take_branch advance_program_counter compare_signed_bytes
bge registers args instruction_byte_length =
    if not (
      is_lt (
        compare_signed_bytes (read_general_purpose_register registers args.source_register1)
          (read_general_purpose_register registers args.source_register2)))
    then take_branch registers args.immediate
    else advance_program_counter registers instruction_byte_length

unfoldable pub bltu : Registers → BranchArgs → Bytes → Registers
unfolding take_branch advance_program_counter compare_unsigned_bytes
bltu registers args instruction_byte_length =
    if is_lt (
      compare_unsigned_bytes (read_general_purpose_register registers args.source_register1)
        (read_general_purpose_register registers args.source_register2))
    then take_branch registers args.immediate
    else advance_program_counter registers instruction_byte_length

unfoldable pub bgeu : Registers → BranchArgs → Bytes → Registers
unfolding take_branch advance_program_counter compare_unsigned_bytes
bgeu registers args instruction_byte_length =
    if not (
      is_lt (
        compare_unsigned_bytes (read_general_purpose_register registers args.source_register1)
          (read_general_purpose_register registers args.source_register2)))
    then take_branch registers args.immediate
    else advance_program_counter registers instruction_byte_length
