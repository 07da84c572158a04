-- ===== src/Cpu/Instructions/Op.antt =====
-- src/emulator/cpu/instructions/op.ts: operations on two registers.
-- The memory argument, which none of them reads, is left out.
use ya_risc_v.Prelude.{ℕ, is_lt}
use ya_risc_v.Bytes.{Bytes, add_bytes, subtract_bytes, and_bytes, or_bytes, xor_bytes}
use ya_risc_v.Bytes.{compare_signed_bytes, compare_unsigned_bytes, byte0_to_number}
use ya_risc_v.Bytes.{shift_left_bytes, shift_right_logical_bytes, shift_right_arithmetic_bytes}
use ya_risc_v.Cpu.Types.{Registers}
use ya_risc_v.Cpu.Registers.{read_general_purpose_register, write_general_purpose_register}
use ya_risc_v.Cpu.Registers.{set_boolean_general_purpose_register, advance_program_counter}

pub record OpArgs : Type 0 where
  pub destination_register : ℕ
  pub source_register1 : ℕ
  pub source_register2 : ℕ

unfoldable pub add : Registers → OpArgs → Bytes → Registers
unfolding write_general_purpose_register advance_program_counter add_bytes
add registers args instruction_byte_length =
    advance_program_counter
      (write_general_purpose_register registers args.destination_register (
        add_bytes (read_general_purpose_register registers args.source_register1)
          (read_general_purpose_register registers args.source_register2)))
      instruction_byte_length

unfoldable pub sub : Registers → OpArgs → Bytes → Registers
unfolding write_general_purpose_register advance_program_counter subtract_bytes
sub registers args instruction_byte_length =
    advance_program_counter
      (write_general_purpose_register registers args.destination_register (
        subtract_bytes (read_general_purpose_register registers args.source_register1)
          (read_general_purpose_register registers args.source_register2)))
      instruction_byte_length

unfoldable pub sll : Registers → OpArgs → Bytes → Registers
unfolding write_general_purpose_register advance_program_counter shift_left_bytes byte0_to_number
sll registers args instruction_byte_length =
    advance_program_counter
      (write_general_purpose_register registers args.destination_register (
        shift_left_bytes (read_general_purpose_register registers args.source_register1)
          (byte0_to_number (read_general_purpose_register registers args.source_register2) 0x3f)))
      instruction_byte_length

unfoldable pub slt : Registers → OpArgs → Bytes → Registers
unfolding set_boolean_general_purpose_register advance_program_counter compare_signed_bytes
slt registers args instruction_byte_length =
    advance_program_counter
      (set_boolean_general_purpose_register registers args.destination_register (
        is_lt (
          compare_signed_bytes (read_general_purpose_register registers args.source_register1)
            (read_general_purpose_register registers args.source_register2))))
      instruction_byte_length

unfoldable pub sltu : Registers → OpArgs → Bytes → Registers
unfolding set_boolean_general_purpose_register advance_program_counter compare_unsigned_bytes
sltu registers args instruction_byte_length =
    advance_program_counter
      (set_boolean_general_purpose_register registers args.destination_register (
        is_lt (
          compare_unsigned_bytes (read_general_purpose_register registers args.source_register1)
            (read_general_purpose_register registers args.source_register2))))
      instruction_byte_length

unfoldable pub xor : Registers → OpArgs → Bytes → Registers
unfolding write_general_purpose_register advance_program_counter xor_bytes
xor registers args instruction_byte_length =
    advance_program_counter
      (write_general_purpose_register registers args.destination_register (
        xor_bytes (read_general_purpose_register registers args.source_register1)
          (read_general_purpose_register registers args.source_register2)))
      instruction_byte_length

unfoldable pub srl : Registers → OpArgs → Bytes → Registers
unfolding write_general_purpose_register advance_program_counter shift_right_logical_bytes
    byte0_to_number
srl registers args instruction_byte_length =
    advance_program_counter
      (write_general_purpose_register registers args.destination_register (
        shift_right_logical_bytes (read_general_purpose_register registers args.source_register1)
          (byte0_to_number (read_general_purpose_register registers args.source_register2) 0x3f)))
      instruction_byte_length

unfoldable pub sra : Registers → OpArgs → Bytes → Registers
unfolding write_general_purpose_register advance_program_counter shift_right_arithmetic_bytes
    byte0_to_number
sra registers args instruction_byte_length =
    advance_program_counter
      (write_general_purpose_register registers args.destination_register (
        shift_right_arithmetic_bytes (read_general_purpose_register registers args.source_register1)
          (byte0_to_number (read_general_purpose_register registers args.source_register2) 0x3f)))
      instruction_byte_length

unfoldable pub or : Registers → OpArgs → Bytes → Registers
unfolding write_general_purpose_register advance_program_counter or_bytes
or registers args instruction_byte_length =
    advance_program_counter
      (write_general_purpose_register registers args.destination_register (
        or_bytes (read_general_purpose_register registers args.source_register1)
          (read_general_purpose_register registers args.source_register2)))
      instruction_byte_length

unfoldable pub and : Registers → OpArgs → Bytes → Registers
unfolding write_general_purpose_register advance_program_counter and_bytes
and registers args instruction_byte_length =
    advance_program_counter
      (write_general_purpose_register registers args.destination_register (
        and_bytes (read_general_purpose_register registers args.source_register1)
          (read_general_purpose_register registers args.source_register2)))
      instruction_byte_length
