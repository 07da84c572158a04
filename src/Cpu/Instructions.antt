-- ===== src/Cpu/Instructions.antt =====
-- src/emulator/cpu/instructions: the instructions on registers.
pub mod Result
pub mod Words
pub mod Op
pub mod Alu
pub mod OpImm
pub mod AluImm
pub mod Op32
pub mod Words32
pub mod OpImm32
pub mod Alu32
pub mod Branch
pub mod Condition
pub mod Jump
pub mod Target
pub mod OpM
pub mod Op32M
pub mod Multiply
pub mod Multiply32
mod Tests
