-- ===== src/Cpu/Decode.antt =====
-- src/emulator/cpu/decode: instruction decoding.
pub mod Instruction
pub mod Fields
pub mod Word
pub mod Compressed
pub mod Cache
pub mod Memo
pub mod Valid
pub mod Encode
pub mod Tests
