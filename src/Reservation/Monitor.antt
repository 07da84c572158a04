-- ===== src/Reservation/Monitor.antt =====
-- src/emulator/reservation.ts: the slots, the lock and the operations on them.
use ya_risc_v.Utils.Ranges.{ranges_overlap}
use ya_risc_v.Prelude.{
  Bool, true, not, Option, some, false, ltb, none, ◌+◌, ◌*◌, ◌/◌, ◌==◌, ◌!=◌, ◌&&◌, ◌-◌,
  if◌then◌else◌, ℕ,
}
use ya_risc_v.Bytes.{bytes_to_big_int, Bytes}
use ya_risc_v.Reservation.Sweep.{sweep, set_slot, cleared, Slot}

abbrev pub reservation_line_size : ℕ
reservation_line_size = 64

abbrev pub reservation_hart_count : ℕ
reservation_hart_count = 8

-- What the workers share: the lock word (0 free, 1 held) and the slots.
pub record Monitor : Type 0 where
  pub lock : ℕ
  pub slots : ℕ → Slot

-- `monitorLockDepth` and `scMonitorHeld` of one worker.
pub record Worker : Type 0 where
  pub monitor_lock_depth : ℕ
  pub sc_monitor_held : Bool

-- `guestAddress & ~63n`
abbrev pub reservation_line_base : ℕ → ℕ
reservation_line_base guest_address = guest_address / 64 * 64

abbrev pub is_valid_hart_id : ℕ → Bool
is_valid_hart_id hart = ltb hart reservation_hart_count

-- `none` while another worker holds the lock: the code waits and tries again.
unfoldable pub acquire_monitor_lock : Worker → Monitor → Option (Worker × Monitor)
acquire_monitor_lock worker monitor =
    if ltb 0 worker.monitor_lock_depth
    then some (record worker { monitor_lock_depth = worker.monitor_lock_depth + 1 }, monitor)
    else if monitor.lock == 0
    then some (record worker { monitor_lock_depth = 1 }, record monitor { lock = 1 })
    else none

unfoldable pub release_monitor_lock : Worker → Monitor → Worker × Monitor
release_monitor_lock worker monitor =
    let depth = worker.monitor_lock_depth - 1 in
    let worker' = record worker { monitor_lock_depth = depth } in
    if worker.monitor_lock_depth == 0
    then (worker, monitor)
    else if ltb 0 depth
    then (worker', monitor)
    else (worker', record monitor { lock = 0 })

unfoldable pub release_sc_monitor_if_held : Worker → Monitor → Worker × Monitor
unfolding release_monitor_lock
release_sc_monitor_if_held worker monitor =
    if worker.sc_monitor_held
    then release_monitor_lock (record worker { sc_monitor_held = false }) monitor
    else (worker, monitor)

unfoldable pub clear_reservation_locked : Monitor → ℕ → Monitor
clear_reservation_locked monitor hart = record monitor {
  slots = set_slot monitor.slots hart (cleared (monitor.slots hart));
}

unfoldable pub reservation_holds_locked : Monitor → ℕ → Bytes → ℕ → Bool
reservation_holds_locked monitor hart address byte_length =
    let slot = monitor.slots hart in
    if slot.valid == 0
    then false
    else if slot.width != byte_length
    then false
    else slot.address == bytes_to_big_int address

-- The tests of the two loops over the slots.
abbrev pub same_line : ℕ → ℕ → ℕ → Slot → Bool
same_line hart line_base other slot =
    other != hart && slot.valid != 0 && reservation_line_base slot.address == line_base

abbrev pub store_hits : ℕ → ℕ → ℕ → Slot → Bool
store_hits store_base store_size hart slot =
    slot.valid != 0
    && ranges_overlap (reservation_line_base slot.address) reservation_line_size store_base
        store_size

unfoldable pub set_reservation_locked : Monitor → ℕ → Bytes → ℕ → Monitor
unfolding sweep
set_reservation_locked monitor hart address byte_length =
    let guest_address = bytes_to_big_int address in
    let line_base = reservation_line_base guest_address in
    let swept = sweep (same_line hart line_base) reservation_hart_count monitor.slots in
    let slot : Slot = record { valid = 1; width = byte_length; address = guest_address } in
    if not (is_valid_hart_id hart)
    then monitor
    else record monitor { slots = set_slot swept hart slot }

-- The check with the lock held: on success the lock stays held for the store that follows.
unfoldable pub take_locked : Worker → Monitor → ℕ → Bytes → ℕ → Bool × (Worker × Monitor)
unfolding reservation_holds_locked clear_reservation_locked release_monitor_lock
take_locked worker monitor hart address byte_length =
    if not (reservation_holds_locked monitor hart address byte_length)
    then (false, release_monitor_lock worker (clear_reservation_locked monitor hart))
    else (true, (record worker { sc_monitor_held = true }, monitor))

-- `none` while another worker holds the lock.
unfoldable pub try_take_reservation :
    Worker → Monitor → ℕ → Bytes → ℕ → Option (Bool × (Worker × Monitor))
unfolding acquire_monitor_lock take_locked
try_take_reservation worker monitor hart address byte_length =
    if not (is_valid_hart_id hart)
    then some (false, (worker, monitor))
    else elim (acquire_monitor_lock worker monitor) [
      | none ↦ none
      | some held ↦ some (take_locked held.0 held.1 hart address byte_length)
    ]

unfoldable pub invalidate_overlapping_reservations_locked : Monitor → Bytes → ℕ → Monitor
unfolding sweep ranges_overlap
invalidate_overlapping_reservations_locked monitor address byte_length =
    let swept =
      sweep (store_hits (bytes_to_big_int address) byte_length) reservation_hart_count
        monitor.slots in
    if byte_length == 0 then monitor else record monitor { slots = swept }
