-- ===== src/Cpu/Decode/Compressed.antt =====
-- src/emulator/cpu/decode/decode-c.ts: the choice of the quadrant.
use ya_risc_v.Cpu.Decode.Compressed.Quadrant1.{decode_quadrant1}
use ya_risc_v.Cpu.Decode.Compressed.Quadrant0.{illegal_halfword, decode_quadrant0}
use ya_risc_v.Prelude.{bit_and, ◌==◌, if◌then◌else◌, ℕ}
use ya_risc_v.Cpu.Decode.Compressed.Quadrant2.{decode_quadrant2}
use ya_risc_v.Cpu.Decode.Instruction.{Instruction}
pub mod Fields
pub mod Quadrant0
pub mod Quadrant1
pub mod Quadrant2

unfoldable pub decode_compressed : ℕ → Instruction
unfolding illegal_halfword decode_quadrant0 decode_quadrant1 decode_quadrant2
decode_compressed halfword =
    let encoding = bit_and halfword 0xffff in
    if encoding == 0
    then illegal_halfword encoding
    else if bit_and encoding 0x3 == 0
    then decode_quadrant0 encoding
    else if bit_and encoding 0x3 == 1
    then decode_quadrant1 encoding
    else if bit_and encoding 0x3 == 2
    then decode_quadrant2 encoding
    else illegal_halfword encoding
