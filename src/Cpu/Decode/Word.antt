-- ===== src/Cpu/Decode/Word.antt =====
-- src/emulator/cpu/decode/decode-32.ts: the switch on the opcode, one function for each case.
use ya_risc_v.Prelude.{◌==◌, if◌then◌else◌, bit_and, ℕ}
use ya_risc_v.Cpu.Decode.Instruction.{Instruction, illegal}
use ya_risc_v.Cpu.Decode.Word.Memory.{decode_load, decode_store, decode_amo}
use ya_risc_v.Cpu.Decode.Word.Control.{
  decode_jal, decode_jalr, decode_branch, decode_misc_mem, decode_system,
}
use ya_risc_v.Cpu.Decode.Word.Arithmetic.{decode_lui, decode_auipc, decode_op_imm, decode_op}
use ya_risc_v.Cpu.Decode.Word.Arithmetic32.{decode_op_imm_32, decode_op_32}
pub mod Memory
pub mod Control
pub mod Arithmetic
pub mod Arithmetic32

unfoldable pub decode32 : ℕ → Instruction
unfolding decode_lui decode_auipc decode_jal decode_jalr decode_branch decode_load decode_store
    decode_amo decode_op_imm decode_op decode_op_imm_32 decode_op_32 decode_misc_mem decode_system
decode32 word =
    let opcode = bit_and word 0x7f in
    if opcode == 0x37
    then decode_lui word
    else if opcode == 0x17
    then decode_auipc word
    else if opcode == 0x6f
    then decode_jal word
    else if opcode == 0x67
    then decode_jalr word
    else if opcode == 0x63
    then decode_branch word
    else if opcode == 0x03
    then decode_load word
    else if opcode == 0x23
    then decode_store word
    else if opcode == 0x2f
    then decode_amo word
    else if opcode == 0x13
    then decode_op_imm word
    else if opcode == 0x33
    then decode_op word
    else if opcode == 0x1b
    then decode_op_imm_32 word
    else if opcode == 0x3b
    then decode_op_32 word
    else if opcode == 0x0f
    then decode_misc_mem word
    else if opcode == 0x73
    then decode_system word
    else illegal word
