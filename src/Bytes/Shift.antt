-- ===== src/Bytes/Shift.antt =====
-- The shifts of `src/utils/bytes.ts`, one module for each direction.
pub mod Base
pub mod Left
pub mod Right
pub mod Arithmetic
