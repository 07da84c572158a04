-- ===== src/Cpu/Instructions/Op32.antt =====
-- src/emulator/cpu/instructions/op-32.ts: operations on the low halves of two registers.
use ya_risc_v.Prelude.{ℕ}
use ya_risc_v.Bytes.{Bytes, add_bytes, subtract_bytes, low32_bytes, byte0_to_number}
use ya_risc_v.Bytes.{shift_left_bytes, shift_right_logical_bytes, shift_right_arithmetic_bytes}
use ya_risc_v.Bytes.{sign_extend_bytes}
use ya_risc_v.Cpu.Types.{Registers}
use ya_risc_v.Cpu.Registers.{read_general_purpose_register, write_general_purpose_register}
use ya_risc_v.Cpu.Registers.{advance_program_counter}

pub record Op32Args : Type 0 where
  pub destination_register : ℕ
  pub source_register1 : ℕ
  pub source_register2 : ℕ

unfoldable pub addw : Registers → Op32Args → Bytes → Registers
unfolding write_general_purpose_register advance_program_counter add_bytes low32_bytes
    sign_extend_bytes
addw registers args instruction_byte_length =
    advance_program_counter
      (write_general_purpose_register registers args.destination_register (
        sign_extend_bytes
          (add_bytes (low32_bytes (read_general_purpose_register registers args.source_register1))
            (low32_bytes (read_general_purpose_register registers args.source_register2)))
          4))
      instruction_byte_length

unfoldable pub subw : Registers → Op32Args → Bytes → Registers
unfolding write_general_purpose_register advance_program_counter subtract_bytes low32_bytes
    sign_extend_bytes
subw registers args instruction_byte_length =
    advance_program_counter
      (write_general_purpose_register registers args.destination_register (
        sign_extend_bytes
          (subtract_bytes
            (low32_bytes (read_general_purpose_register registers args.source_register1))
            (low32_bytes (read_general_purpose_register registers args.source_register2)))
          4))
      instruction_byte_length

unfoldable pub sllw : Registers → Op32Args → Bytes → Registers
unfolding write_general_purpose_register advance_program_counter shift_left_bytes low32_bytes
    sign_extend_bytes byte0_to_number
sllw registers args instruction_byte_length =
    advance_program_counter
      (write_general_purpose_register registers args.destination_register (
        sign_extend_bytes
          (shift_left_bytes
            (low32_bytes (read_general_purpose_register registers args.source_register1))
            (byte0_to_number (read_general_purpose_register registers args.source_register2) 0x1f))
          4))
      instruction_byte_length

unfoldable pub srlw : Registers → Op32Args → Bytes → Registers
unfolding write_general_purpose_register advance_program_counter shift_right_logical_bytes
    low32_bytes sign_extend_bytes byte0_to_number
srlw registers args instruction_byte_length =
    advance_program_counter
      (write_general_purpose_register registers args.destination_register (
        sign_extend_bytes
          (shift_right_logical_bytes
            (low32_bytes (read_general_purpose_register registers args.source_register1))
            (byte0_to_number (read_general_purpose_register registers args.source_register2) 0x1f))
          4))
      instruction_byte_length

unfoldable pub sraw : Registers → Op32Args → Bytes → Registers
unfolding write_general_purpose_register advance_program_counter shift_right_arithmetic_bytes
    low32_bytes sign_extend_bytes byte0_to_number
sraw registers args instruction_byte_length =
    advance_program_counter
      (write_general_purpose_register registers args.destination_register (
        sign_extend_bytes
          (shift_right_arithmetic_bytes
            (sign_extend_bytes
              (low32_bytes (read_general_purpose_register registers args.source_register1)) 4)
            (byte0_to_number (read_general_purpose_register registers args.source_register2) 0x1f))
          4))
      instruction_byte_length
