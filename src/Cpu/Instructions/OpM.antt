-- ===== src/Cpu/Instructions/OpM.antt =====
-- src/emulator/cpu/instructions/op-m.ts: multiplication, division and remainder of two registers.
use ya_risc_v.Cpu.Instructions.Op.{OpArgs}
use ya_risc_v.Cpu.Registers.{
  read_general_purpose_register, advance_program_counter, write_general_purpose_register,
}
use ya_risc_v.Bytes.{Bytes, bytes_to_big_int, signed_bytes_to_big_int, unsigned_big_int_to_bytes}
use ya_risc_v.Cpu.Types.{Registers}
use ya_risc_v.Prelude.{
  low_bits_ℤ, negsuc, is_same_ℤ, pos, shift_right_ℤ, ◌*ℤ◌, ◌/ℤ◌, ◌%ℤ◌, ◌*◌, ◌/◌, ◌^◌, ◌%◌, ◌==◌,
  ◌&&◌, ◌-◌, if◌then◌else◌, ℤ,
}

abbrev pub signed_min : ℤ
signed_min = negsuc (2 ^ 63 - 1)

unfoldable pub mul : Registers → OpArgs → Bytes → Registers
unfolding write_general_purpose_register advance_program_counter unsigned_big_int_to_bytes
    bytes_to_big_int
mul registers args instruction_byte_length =
    let product =
      bytes_to_big_int (read_general_purpose_register registers args.source_register1)
      * bytes_to_big_int (read_general_purpose_register registers args.source_register2) in
    advance_program_counter
      (write_general_purpose_register registers args.destination_register
        (unsigned_big_int_to_bytes (product % 2 ^ 64)))
      instruction_byte_length

unfoldable pub mulh : Registers → OpArgs → Bytes → Registers
unfolding write_general_purpose_register advance_program_counter unsigned_big_int_to_bytes
    signed_bytes_to_big_int
mulh registers args instruction_byte_length =
    let product =
      signed_bytes_to_big_int (read_general_purpose_register registers args.source_register1)
      *ℤ signed_bytes_to_big_int (read_general_purpose_register registers args.source_register2) in
    advance_program_counter
      (write_general_purpose_register registers args.destination_register
        (unsigned_big_int_to_bytes (low_bits_ℤ 64 (shift_right_ℤ product 64))))
      instruction_byte_length

unfoldable pub mulhsu : Registers → OpArgs → Bytes → Registers
unfolding write_general_purpose_register advance_program_counter unsigned_big_int_to_bytes
    signed_bytes_to_big_int bytes_to_big_int
mulhsu registers args instruction_byte_length =
    let product =
      signed_bytes_to_big_int (read_general_purpose_register registers args.source_register1)
      *ℤ pos (bytes_to_big_int (read_general_purpose_register registers args.source_register2)) in
    advance_program_counter
      (write_general_purpose_register registers args.destination_register
        (unsigned_big_int_to_bytes (low_bits_ℤ 64 (shift_right_ℤ product 64))))
      instruction_byte_length

unfoldable pub mulhu : Registers → OpArgs → Bytes → Registers
unfolding write_general_purpose_register advance_program_counter unsigned_big_int_to_bytes
    bytes_to_big_int
mulhu registers args instruction_byte_length =
    let product =
      bytes_to_big_int (read_general_purpose_register registers args.source_register1)
      * bytes_to_big_int (read_general_purpose_register registers args.source_register2) in
    advance_program_counter
      (write_general_purpose_register registers args.destination_register
        (unsigned_big_int_to_bytes (product / 2 ^ 64 % 2 ^ 64)))
      instruction_byte_length

unfoldable pub div : Registers → OpArgs → Bytes → Registers
unfolding write_general_purpose_register advance_program_counter unsigned_big_int_to_bytes
    signed_bytes_to_big_int
div registers args instruction_byte_length =
    let dividend =
      signed_bytes_to_big_int (read_general_purpose_register registers args.source_register1) in
    let divisor =
      signed_bytes_to_big_int (read_general_purpose_register registers args.source_register2) in
    let quotient =
      if is_same_ℤ divisor (pos 0)
      then negsuc 0
      else if is_same_ℤ dividend signed_min && is_same_ℤ divisor (negsuc 0)
      then dividend
      else dividend /ℤ divisor in
    advance_program_counter
      (write_general_purpose_register registers args.destination_register
        (unsigned_big_int_to_bytes (low_bits_ℤ 64 quotient)))
      instruction_byte_length

unfoldable pub divu : Registers → OpArgs → Bytes → Registers
unfolding write_general_purpose_register advance_program_counter unsigned_big_int_to_bytes
    bytes_to_big_int
divu registers args instruction_byte_length =
    let dividend =
      bytes_to_big_int (read_general_purpose_register registers args.source_register1) in
    let divisor =
      bytes_to_big_int (read_general_purpose_register registers args.source_register2) in
    let quotient = if divisor == 0 then 2 ^ 64 - 1 else dividend / divisor in
    advance_program_counter
      (write_general_purpose_register registers args.destination_register
        (unsigned_big_int_to_bytes (quotient % 2 ^ 64)))
      instruction_byte_length

unfoldable pub rem : Registers → OpArgs → Bytes → Registers
unfolding write_general_purpose_register advance_program_counter unsigned_big_int_to_bytes
    signed_bytes_to_big_int
rem registers args instruction_byte_length =
    let dividend =
      signed_bytes_to_big_int (read_general_purpose_register registers args.source_register1) in
    let divisor =
      signed_bytes_to_big_int (read_general_purpose_register registers args.source_register2) in
    let remainder =
      if is_same_ℤ divisor (pos 0)
      then dividend
      else if is_same_ℤ dividend signed_min && is_same_ℤ divisor (negsuc 0)
      then pos 0
      else dividend %ℤ divisor in
    advance_program_counter
      (write_general_purpose_register registers args.destination_register
        (unsigned_big_int_to_bytes (low_bits_ℤ 64 remainder)))
      instruction_byte_length

unfoldable pub remu : Registers → OpArgs → Bytes → Registers
unfolding write_general_purpose_register advance_program_counter unsigned_big_int_to_bytes
    bytes_to_big_int
remu registers args instruction_byte_length =
    let dividend =
      bytes_to_big_int (read_general_purpose_register registers args.source_register1) in
    let divisor =
      bytes_to_big_int (read_general_purpose_register registers args.source_register2) in
    let remainder = if divisor == 0 then dividend else dividend % divisor in
    advance_program_counter
      (write_general_purpose_register registers args.destination_register
        (unsigned_big_int_to_bytes (remainder % 2 ^ 64)))
      instruction_byte_length
