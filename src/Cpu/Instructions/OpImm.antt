-- ===== src/Cpu/Instructions/OpImm.antt =====
-- src/emulator/cpu/instructions/op-imm.ts: operations on a register and an immediate.
use ya_risc_v.Prelude.{ℕ, is_lt}
use ya_risc_v.Bytes.{Bytes, add_bytes, and_bytes, or_bytes, xor_bytes}
use ya_risc_v.Bytes.{compare_signed_bytes, compare_unsigned_bytes}
use ya_risc_v.Bytes.{shift_left_bytes, shift_right_logical_bytes, shift_right_arithmetic_bytes}
use ya_risc_v.Cpu.Types.{Registers}
use ya_risc_v.Cpu.Registers.{read_general_purpose_register, write_general_purpose_register}
use ya_risc_v.Cpu.Registers.{set_boolean_general_purpose_register, advance_program_counter}

pub record OpImmArgs : Type 0 where
  pub destination_register : ℕ
  pub source_register1 : ℕ
  pub immediate : Bytes

pub record ShiftImmArgs : Type 0 where
  pub destination_register : ℕ
  pub source_register1 : ℕ
  pub shift_amount : ℕ

unfoldable pub addi : Registers → OpImmArgs → Bytes → Registers
unfolding write_general_purpose_register advance_program_counter add_bytes
addi registers args instruction_byte_length =
    advance_program_counter
      (write_general_purpose_register registers args.destination_register
        (add_bytes (read_general_purpose_register registers args.source_register1) args.immediate))
      instruction_byte_length

unfoldable pub slti : Registers → OpImmArgs → Bytes → Registers
unfolding set_boolean_general_purpose_register advance_program_counter compare_signed_bytes
slti registers args instruction_byte_length =
    advance_program_counter
      (set_boolean_general_purpose_register registers args.destination_register (
        is_lt (
          compare_signed_bytes (read_general_purpose_register registers args.source_register1)
            args.immediate)))
      instruction_byte_length

unfoldable pub sltiu : Registers → OpImmArgs → Bytes → Registers
unfolding set_boolean_general_purpose_register advance_program_counter compare_unsigned_bytes
sltiu registers args instruction_byte_length =
    advance_program_counter
      (set_boolean_general_purpose_register registers args.destination_register (
        is_lt (
          compare_unsigned_bytes (read_general_purpose_register registers args.source_register1)
            args.immediate)))
      instruction_byte_length

unfoldable pub xori : Registers → OpImmArgs → Bytes → Registers
unfolding write_general_purpose_register advance_program_counter xor_bytes
xori registers args instruction_byte_length =
    advance_program_counter
      (write_general_purpose_register registers args.destination_register
        (xor_bytes (read_general_purpose_register registers args.source_register1) args.immediate))
      instruction_byte_length

unfoldable pub ori : Registers → OpImmArgs → Bytes → Registers
unfolding write_general_purpose_register advance_program_counter or_bytes
ori registers args instruction_byte_length =
    advance_program_counter
      (write_general_purpose_register registers args.destination_register
        (or_bytes (read_general_purpose_register registers args.source_register1) args.immediate))
      instruction_byte_length

unfoldable pub andi : Registers → OpImmArgs → Bytes → Registers
unfolding write_general_purpose_register advance_program_counter and_bytes
andi registers args instruction_byte_length =
    advance_program_counter
      (write_general_purpose_register registers args.destination_register
        (and_bytes (read_general_purpose_register registers args.source_register1) args.immediate))
      instruction_byte_length

unfoldable pub slli : Registers → ShiftImmArgs → Bytes → Registers
unfolding write_general_purpose_register advance_program_counter shift_left_bytes
slli registers args instruction_byte_length =
    advance_program_counter
      (write_general_purpose_register registers args.destination_register (
        shift_left_bytes (read_general_purpose_register registers args.source_register1)
          args.shift_amount))
      instruction_byte_length

unfoldable pub srli : Registers → ShiftImmArgs → Bytes → Registers
unfolding write_general_purpose_register advance_program_counter shift_right_logical_bytes
srli registers args instruction_byte_length =
    advance_program_counter
      (write_general_purpose_register registers args.destination_register (
        shift_right_logical_bytes (read_general_purpose_register registers args.source_register1)
          args.shift_amount))
      instruction_byte_length

unfoldable pub srai : Registers → ShiftImmArgs → Bytes → Registers
unfolding write_general_purpose_register advance_program_counter shift_right_arithmetic_bytes
srai registers args instruction_byte_length =
    advance_program_counter
      (write_general_purpose_register registers args.destination_register (
        shift_right_arithmetic_bytes (read_general_purpose_register registers args.source_register1)
          args.shift_amount))
      instruction_byte_length
