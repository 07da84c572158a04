-- ===== src/Cpu/Instructions/Op32M.antt =====
-- src/emulator/cpu/instructions/op-32-m.ts: the same operations on the low halves of two registers.
use ya_risc_v.Cpu.Instructions.Op32.{Op32Args}
use ya_risc_v.Bytes.Value.{value}
use ya_risc_v.Cpu.Registers.{
  read_general_purpose_register, advance_program_counter, write_general_purpose_register,
}
use ya_risc_v.Bytes.{
  Bytes, bytes_to_big_int, unsigned_big_int_to_bytes, sign_extend_bytes, low32_bytes,
}
use ya_risc_v.Cpu.Types.{Registers}
use ya_risc_v.Prelude.{
  leb, low_bits_ℤ, negsuc, is_same_ℤ, pos, ◌*ℤ◌, ◌/ℤ◌, ◌%ℤ◌, ◌/◌, ◌^◌, ◌%◌, ◌==◌, ◌&&◌, ◌-◌,
  if◌then◌else◌, ℤ, ℕ,
}

abbrev pub signed32_min : ℤ
signed32_min = negsuc (2 ^ 31 - 1)

unfoldable pub low32_unsigned : Registers → ℕ → ℕ
unfolding bytes_to_big_int low32_bytes
low32_unsigned registers register_index =
    bytes_to_big_int (low32_bytes (read_general_purpose_register registers register_index)) % 2 ^ 32

unfoldable pub low32_signed : Registers → ℕ → ℤ
unfolding low32_unsigned
low32_signed registers register_index =
    let unsigned = low32_unsigned registers register_index in
    if leb 0x80000000 unsigned then negsuc (2 ^ 32 - unsigned - 1) else pos unsigned

unfoldable pub write_sext32 : Registers → ℕ → ℤ → Registers
unfolding write_general_purpose_register sign_extend_bytes unsigned_big_int_to_bytes
write_sext32 registers destination_register value =
    write_general_purpose_register registers destination_register
      (sign_extend_bytes (unsigned_big_int_to_bytes (low_bits_ℤ 32 value)) 4)

unfoldable pub mulw : Registers → Op32Args → Bytes → Registers
unfolding write_sext32 advance_program_counter low32_signed
mulw registers args instruction_byte_length =
    advance_program_counter
      (write_sext32 registers args.destination_register (
        low32_signed registers args.source_register1
        *ℤ low32_signed registers args.source_register2))
      instruction_byte_length

unfoldable pub divw : Registers → Op32Args → Bytes → Registers
unfolding write_sext32 advance_program_counter low32_signed
divw registers args instruction_byte_length =
    let dividend = low32_signed registers args.source_register1 in
    let divisor = low32_signed registers args.source_register2 in
    let quotient =
      if is_same_ℤ divisor (pos 0)
      then negsuc 0
      else if is_same_ℤ dividend signed32_min && is_same_ℤ divisor (negsuc 0)
      then dividend
      else dividend /ℤ divisor in
    advance_program_counter (write_sext32 registers args.destination_register (quotient))
      instruction_byte_length

unfoldable pub divuw : Registers → Op32Args → Bytes → Registers
unfolding write_sext32 advance_program_counter low32_unsigned
divuw registers args instruction_byte_length =
    let dividend = low32_unsigned registers args.source_register1 in
    let divisor = low32_unsigned registers args.source_register2 in
    let quotient = if divisor == 0 then 2 ^ 32 - 1 else dividend / divisor in
    advance_program_counter (write_sext32 registers args.destination_register (pos quotient))
      instruction_byte_length

unfoldable pub remw : Registers → Op32Args → Bytes → Registers
unfolding write_sext32 advance_program_counter low32_signed
remw registers args instruction_byte_length =
    let dividend = low32_signed registers args.source_register1 in
    let divisor = low32_signed registers args.source_register2 in
    let remainder =
      if is_same_ℤ divisor (pos 0)
      then dividend
      else if is_same_ℤ dividend signed32_min && is_same_ℤ divisor (negsuc 0)
      then pos 0
      else dividend %ℤ divisor in
    advance_program_counter (write_sext32 registers args.destination_register (remainder))
      instruction_byte_length

unfoldable pub remuw : Registers → Op32Args → Bytes → Registers
unfolding write_sext32 advance_program_counter low32_unsigned
remuw registers args instruction_byte_length =
    let dividend = low32_unsigned registers args.source_register1 in
    let divisor = low32_unsigned registers args.source_register2 in
    let remainder = if divisor == 0 then dividend else dividend % divisor in
    advance_program_counter (write_sext32 registers args.destination_register (pos remainder))
      instruction_byte_length
