-- ===== src/Cpu.antt =====
-- src/emulator/cpu: the hart. One module for each source file, and several for registers.ts.
pub mod Csr
pub mod Types
pub mod Masks
pub mod Pmp
pub mod Registers
pub mod Mode
pub mod CsrAccess
pub mod CsrFile
pub mod Trap
pub mod Instructions
pub mod Decode
mod Tests
