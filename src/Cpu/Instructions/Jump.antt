-- ===== src/Cpu/Instructions/Jump.antt =====
-- src/emulator/cpu/instructions: lui.ts, auipc.ts, jal.ts and jalr.ts.
use ya_risc_v.Prelude.{ℕ, bit_and, set}
use ya_risc_v.Bytes.{Bytes, byte, add_bytes}
use ya_risc_v.Cpu.Types.{Registers}
use ya_risc_v.Cpu.Registers.{read_general_purpose_register, write_general_purpose_register}
use ya_risc_v.Cpu.Registers.{set_program_counter, advance_program_counter}

pub record LuiArgs : Type 0 where
  pub destination_register : ℕ
  pub immediate : Bytes

unfoldable pub lui : Registers → LuiArgs → Bytes → Registers
unfolding write_general_purpose_register advance_program_counter
lui registers args instruction_byte_length =
    advance_program_counter
      (write_general_purpose_register registers args.destination_register args.immediate)
      instruction_byte_length

pub record AuipcArgs : Type 0 where
  pub destination_register : ℕ
  pub immediate : Bytes

unfoldable pub auipc : Registers → AuipcArgs → Bytes → Registers
unfolding write_general_purpose_register advance_program_counter add_bytes
auipc registers args instruction_byte_length =
    advance_program_counter
      (write_general_purpose_register registers args.destination_register
        (add_bytes registers.program_counter args.immediate))
      instruction_byte_length

pub record JalArgs : Type 0 where
  pub destination_register : ℕ
  pub immediate : Bytes

unfoldable pub jal : Registers → JalArgs → Bytes → Registers
unfolding write_general_purpose_register set_program_counter add_bytes
jal registers args instruction_byte_length =
    let linked =
      write_general_purpose_register registers args.destination_register
        (add_bytes registers.program_counter instruction_byte_length) in
    set_program_counter linked (add_bytes linked.program_counter args.immediate)

pub record JalrArgs : Type 0 where
  pub destination_register : ℕ
  pub source_register1 : ℕ
  pub immediate : Bytes

-- The target is read before the link is written, which may be to the same register.
unfoldable pub jalr : Registers → JalrArgs → Bytes → Registers
unfolding write_general_purpose_register set_program_counter add_bytes
jalr registers args instruction_byte_length =
    let sum =
      add_bytes (read_general_purpose_register registers args.source_register1) args.immediate in
    let target = set sum 0 (bit_and (byte sum 0) 0xfe) in
    set_program_counter
      (write_general_purpose_register registers args.destination_register
        (add_bytes registers.program_counter instruction_byte_length))
      target
