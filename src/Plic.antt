-- ===== src/Plic.antt =====
-- src/emulator/plic: the platform-level interrupt controller.
pub mod Layout
pub mod Gateway
pub mod Mmio
pub mod Bits
pub mod Select
pub mod Gated
pub mod Steps
pub mod Invariant
pub mod Guest
pub mod Cycle
mod Tests
