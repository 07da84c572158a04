-- ===== src/Reservation/Window.antt =====
-- A load-reserved, a store by any hart, and the store-conditional of the first hart, in this order.
use ya_risc_v.Reservation.Owner.{
  set-slot, invalidate_overlapping_reservations_locked-exact, in_range,
}
use ya_risc_v.Utils.Ranges.{ranges_overlap}
use ya_risc_v.Bytes.{Bytes, bytes_to_big_int}
use ya_risc_v.Reservation.Monitor.{
  set_reservation_locked, take_locked, try_take_reservation,
  invalidate_overlapping_reservations_locked, acquire_monitor_lock, Monitor, reservation_line_size,
  Worker, reservation_hart_count, reservation_line_base, reservation_holds_locked,
}
use ya_risc_v.Prelude.{Bool, Option, none, some, not, ◌<◌, ◌≡◌, ℕ, arith}

-- The first result of the conditional store's check; `none` while it waits.
abbrev pub outcome : Option (Bool × (Worker × Monitor)) → Option Bool
outcome none = none
outcome (some result) = some result.0

pub set_reservation_locked-lock :
    (monitor : Monitor) (hart : ℕ) (address : Bytes) (byte_length : ℕ)
    → (set_reservation_locked monitor hart address byte_length).lock ≡ monitor.lock
unfolding set_reservation_locked
set_reservation_locked-lock monitor hart address byte_length = ground arith

pub invalidate-lock :
    (monitor : Monitor) (address : Bytes) (byte_length : ℕ)
    → (invalidate_overlapping_reservations_locked monitor address byte_length).lock ≡ monitor.lock
unfolding invalidate_overlapping_reservations_locked
invalidate-lock monitor address byte_length = ground arith

module _ (monitor : Monitor) (hart : ℕ) (address : Bytes) (byte_length : ℕ)
    (h : hart < reservation_hart_count) (worker : Worker) where
  abbrev reserved : Monitor
  reserved = set_reservation_locked monitor hart address byte_length

  -- With the lock free, after a store of `store_length > 0` bytes, the conditional store of the
  -- reserving hart succeeds exactly when the store missed the reserved line.
  pub try_take_reservation-after_store :
      (place : Bytes) (store_length : ℕ)
      → 0 < store_length
      → monitor.lock ≡ 0
      → outcome (
          try_take_reservation worker
            (invalidate_overlapping_reservations_locked reserved place store_length)
            hart
            address
            byte_length)
        ≡ some (
            not (
              ranges_overlap
                (reservation_line_base (bytes_to_big_int address))
                reservation_line_size
                (bytes_to_big_int place)
                store_length))
  unfolding try_take_reservation take_locked acquire_monitor_lock reservation_holds_locked
  try_take_reservation-after_store place store_length some_bytes free = ground (
    arith,
    invalidate_overlapping_reservations_locked-exact reserved place store_length hart h,
    set-slot monitor hart address byte_length h hart,
    set_reservation_locked-lock monitor hart address byte_length,
    invalidate-lock reserved place store_length,
    in_range hart h,
  )
