-- ===== src/Reservation/Tests.antt =====
-- Concrete runs of the monitor.
use ya_risc_v.Utils.Ranges.{ranges_overlap}
use ya_risc_v.Reservation.Owner.{
  set_reservation_locked-HasOneOwner, HasOneOwner, invalidate_overlapping_reservations_locked-exact,
}
use ya_risc_v.Reservation.Sweep.{cleared}
use ya_risc_v.Prelude.{some, arith, true, false, refl, not, ◌!=◌, ◌&&◌, ◌≡◌, if◌then◌else◌, ℕ}
use ya_risc_v.Reservation.Window.{try_take_reservation-after_store, outcome}
use ya_risc_v.Reservation.Lock.Held.{OthersRun, try_take_reservation-window}
use ya_risc_v.Reservation.Lock.{
  Step, depth, after, here, Reaches-IsExclusive, IsExclusive, releases, acquires, next, Reaches,
  World, IsInitial,
}
use ya_risc_v.Reservation.Monitor.{
  invalidate_overlapping_reservations_locked, acquire_monitor_lock, Worker, reservation_line_size,
  reservation_line_base, try_take_reservation, set_reservation_locked, store_hits,
  reservation_holds_locked, release_monitor_lock, Monitor, release_sc_monitor_if_held,
}
use ya_risc_v.Bytes.{bytes_to_big_int, Bytes, signed_number_to_bytes}

abbrev empty : Monitor
empty = record { lock = 0; slots = λ i. record { valid = 0; width = 0; address = 0 } }

abbrev address_at : ℕ → Bytes
address_at a = signed_number_to_bytes a 32

empty-HasOneOwner : HasOneOwner empty
empty-HasOneOwner = record { unique = λ i j p q e. absurd (p.1 refl) }

set_reservation_locked-HasOneOwner_example :
    HasOneOwner (set_reservation_locked empty 3 (address_at 0x1048) 8)
    × (reservation_holds_locked
          (set_reservation_locked empty 3 (address_at 0x1048) 8)
          3
          (address_at 0x1048)
          8
        ≡ true)
set_reservation_locked-HasOneOwner_example =
    set_reservation_locked-HasOneOwner empty 3 (address_at 0x1048) 8 (omega arith) empty-HasOneOwner

abbrev armed_once : Monitor
armed_once = set_reservation_locked empty 3 (address_at 0x1048) 8

invalidate_overlapping_reservations_locked-exact_example :
    (invalidate_overlapping_reservations_locked armed_once (address_at 0x1040) 1).slots 3 ≡ (
      if 1 != 0 && store_hits (bytes_to_big_int (address_at 0x1040)) 1 3 (armed_once.slots 3)
      then cleared (armed_once.slots 3)
      else armed_once.slots 3)
invalidate_overlapping_reservations_locked-exact_example =
    invalidate_overlapping_reservations_locked-exact armed_once (address_at 0x1040) 1 3
      (omega arith)

abbrev idle : Worker
idle = record { monitor_lock_depth = 0; sc_monitor_held = false }

try_take_reservation-after_store_example :
    outcome (
      try_take_reservation idle
        (invalidate_overlapping_reservations_locked armed_once (address_at 0x1080) 4)
        3
        (address_at 0x1048)
        8)
    ≡ some (
        not (
          ranges_overlap
            (reservation_line_base (bytes_to_big_int (address_at 0x1048)))
            reservation_line_size
            (bytes_to_big_int (address_at 0x1080))
            4))
try_take_reservation-after_store_example =
    try_take_reservation-after_store empty 3 (address_at 0x1048) 8 (omega arith) idle
      (address_at 0x1080) 4 (omega arith) refl

abbrev start : World
start = record { workers = λ i. idle; monitor = empty }

abbrev one_inside : World
one_inside =
    after start 2 (record { monitor_lock_depth = 1; sc_monitor_held = false })
      (record { lock = 1; slots = empty.slots })

enter : Step 2 start one_inside
unfolding acquire_monitor_lock
enter =
    acquires start (record { monitor_lock_depth = 1; sc_monitor_held = false })
      (record { lock = 1; slots = empty.slots }) refl

start-IsInitial : IsInitial start
start-IsInitial = record { nobody = λ i. refl; unlocked = refl }

one_inside-reached : Reaches start one_inside
one_inside-reached = next 2 (here start) enter

Reaches-IsExclusive_example : IsExclusive one_inside
Reaches-IsExclusive_example =
    Reaches-IsExclusive start one_inside start-IsInitial one_inside-reached

-- Worker 3 has reserved a word, and nobody is inside the lock.
abbrev reserved : World
reserved = record { workers = λ i. idle; monitor = armed_once }

reserved-IsExclusive : IsExclusive reserved
reserved-IsExclusive = record { single = λ i j p q. absurd (omega arith); free = λ i e. refl }

abbrev holding : Worker
holding = record { monitor_lock_depth = 1; sc_monitor_held = true }

abbrev locked_once : Monitor
locked_once = record armed_once { lock = 1 }

checked :
    try_take_reservation idle armed_once 3 (address_at 0x1048) 8
    ≡ some (true, (holding, locked_once))
unfolding try_take_reservation set_reservation_locked bytes_to_big_int signed_number_to_bytes
checked = refl

-- Worker 5 tries to release a lock that it does not hold.
abbrev disturbed : World
disturbed =
    after (after reserved 3 holding locked_once) 5 (release_monitor_lock idle locked_once).0
      (release_monitor_lock idle locked_once).1

disturbance : OthersRun 3 (after reserved 3 holding locked_once) disturbed
disturbance =
    OthersRun.next 5 (OthersRun.idle (after reserved 3 holding locked_once)) (omega arith)
      (releases (after reserved 3 holding locked_once))

try_take_reservation-window_example :
    (disturbed.monitor ≡ locked_once)
    × (disturbed.workers 3 ≡ holding)
    × (reservation_holds_locked disturbed.monitor 3 (address_at 0x1048) 8 ≡ true)
    × ((disturbed.workers 3).sc_monitor_held ≡ true)
    × ((release_sc_monitor_if_held (disturbed.workers 3) disturbed.monitor).0.sc_monitor_held
        ≡ false)
    × ((release_sc_monitor_if_held (disturbed.workers 3) disturbed.monitor).0.monitor_lock_depth
        ≡ depth reserved 3)
    × ((release_sc_monitor_if_held (disturbed.workers 3) disturbed.monitor).1.lock
        ≡ reserved.monitor.lock)
try_take_reservation-window_example =
    try_take_reservation-window 3 3 (address_at 0x1048) 8 reserved disturbed holding locked_once
      reserved-IsExclusive checked disturbance
