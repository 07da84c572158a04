-- ===== src/Reservation.antt =====
-- src/emulator/reservation.ts: the monitor of load-reserved and store-conditional. A slot's words are
-- read by hart number; the lock word and the slots are shared by the workers, the depth of the lock
-- and the mark of a held store window belong to one worker.
pub mod Sweep
pub mod Monitor
pub mod Owner
pub mod Window
pub mod Lock
mod Tests
