-- ===== src/Cpu/Instructions/OpImm32.antt =====
-- src/emulator/cpu/instructions/op-imm-32.ts: operations on the low half of a register and an
-- immediate.
use ya_risc_v.Prelude.{ℕ}
use ya_risc_v.Bytes.{Bytes, add_bytes, low32_bytes, sign_extend_bytes}
use ya_risc_v.Bytes.{shift_left_bytes, shift_right_logical_bytes, shift_right_arithmetic_bytes}
use ya_risc_v.Cpu.Types.{Registers}
use ya_risc_v.Cpu.Registers.{read_general_purpose_register, write_general_purpose_register}
use ya_risc_v.Cpu.Registers.{advance_program_counter}

pub record OpImm32Args : Type 0 where
  pub destination_register : ℕ
  pub source_register1 : ℕ
  pub immediate : Bytes

pub record ShiftImm32Args : Type 0 where
  pub destination_register : ℕ
  pub source_register1 : ℕ
  pub shift_amount : ℕ

unfoldable pub addiw : Registers → OpImm32Args → Bytes → Registers
unfolding write_general_purpose_register advance_program_counter add_bytes low32_bytes
    sign_extend_bytes
addiw registers args instruction_byte_length =
    advance_program_counter
      (write_general_purpose_register registers args.destination_register (
        sign_extend_bytes
          (add_bytes (low32_bytes (read_general_purpose_register registers args.source_register1))
            args.immediate)
          4))
      instruction_byte_length

unfoldable pub slliw : Registers → ShiftImm32Args → Bytes → Registers
unfolding write_general_purpose_register advance_program_counter shift_left_bytes low32_bytes
    sign_extend_bytes
slliw registers args instruction_byte_length =
    advance_program_counter
      (write_general_purpose_register registers args.destination_register (
        sign_extend_bytes
          (shift_left_bytes
            (low32_bytes (read_general_purpose_register registers args.source_register1))
            args.shift_amount)
          4))
      instruction_byte_length

unfoldable pub srliw : Registers → ShiftImm32Args → Bytes → Registers
unfolding write_general_purpose_register advance_program_counter shift_right_logical_bytes
    low32_bytes sign_extend_bytes
srliw registers args instruction_byte_length =
    advance_program_counter
      (write_general_purpose_register registers args.destination_register (
        sign_extend_bytes
          (shift_right_logical_bytes
            (low32_bytes (read_general_purpose_register registers args.source_register1))
            args.shift_amount)
          4))
      instruction_byte_length

unfoldable pub sraiw : Registers → ShiftImm32Args → Bytes → Registers
unfolding write_general_purpose_register advance_program_counter shift_right_arithmetic_bytes
    low32_bytes sign_extend_bytes
sraiw registers args instruction_byte_length =
    advance_program_counter
      (write_general_purpose_register registers args.destination_register (
        sign_extend_bytes
          (shift_right_arithmetic_bytes
            (sign_extend_bytes
              (low32_bytes (read_general_purpose_register registers args.source_register1)) 4)
            args.shift_amount)
          4))
      instruction_byte_length
