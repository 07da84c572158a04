-- ===== src/Reservation/Owner.antt =====
-- A line has one owner at most, and a store takes the line from its owner.
use ya_risc_v.Prelude.{
  refl, true, ◌<◌, ◌==◌, ◌≡◌, if◌then◌else◌, arith, Bool, ltb, ◌&&◌, ℕ, ◌≢◌, ◌!=◌, suc, false, zero,
  ◌∙◌,
}
use ya_risc_v.Reservation.Sweep.{Slot, sweep_lem, cleared, sweep}
use ya_risc_v.Reservation.Monitor.{
  is_valid_hart_id, Monitor, same_line, reservation_line_base, reservation_hart_count,
  set_reservation_locked, reservation_holds_locked, invalidate_overlapping_reservations_locked,
  store_hits, clear_reservation_locked,
}
use ya_risc_v.Bytes.{bytes_to_big_int, Bytes}

module _ (monitor : Monitor) where
  abbrev pub Holds : ℕ → Type 0
  Holds i = (i < reservation_hart_count) × ((monitor.slots i).valid ≢ 0)

  abbrev pub line_of : ℕ → ℕ
  line_of i = reservation_line_base (monitor.slots i).address

-- Two harts with valid slots reserve different lines.
pub record HasOneOwner (monitor : Monitor) : Type 0 where
  pub unique :
      (i j : ℕ) → Holds monitor i → Holds monitor j → line_of monitor i ≡ line_of monitor j → i ≡ j

pub in_range : (hart : ℕ) → hart < reservation_hart_count → is_valid_hart_id hart ≡ true
in_range hart h = ground arith

module _ (monitor : Monitor) (hart : ℕ) (address : Bytes) (byte_length : ℕ)
    (h : hart < reservation_hart_count) where
  abbrev armed : Slot
  armed = record { valid = 1; width = byte_length; address = bytes_to_big_int address }

  abbrev test : ℕ → Slot → Bool
  test = same_line hart (reservation_line_base (bytes_to_big_int address))

  pub set-slot :
      (i : ℕ)
      → (set_reservation_locked monitor hart address byte_length).slots i ≡ (
          if i == hart
          then armed
          else if ltb i reservation_hart_count && test i (monitor.slots i)
          then cleared (monitor.slots i)
          else monitor.slots i)
  unfolding set_reservation_locked
  set-slot i = rw (in_range hart h, sweep_lem test reservation_hart_count monitor.slots i) refl

  -- From a monitor whose lines have one owner at most, arming a hart's slot leaves such a monitor, in
  -- which the hart holds exactly the address and width it reserved.
  pub set_reservation_locked-HasOneOwner :
      HasOneOwner monitor
      → HasOneOwner (set_reservation_locked monitor hart address byte_length)
        × (reservation_holds_locked
              (set_reservation_locked monitor hart address byte_length)
              hart
              address
              byte_length
            ≡ true)
  unfolding reservation_holds_locked
  set_reservation_locked-HasOneOwner before = (
    record { unique = λ i j p q e. ground (arith, set-slot i, set-slot j, before.unique i j) },
    ground (arith, set-slot hart),
  )

if_slots :
    (c : Bool) (monitor : Monitor) (slots : ℕ → Slot) (i : ℕ)
    → (if c then monitor else record monitor { slots = slots }).slots i
      ≡ (if c then monitor.slots i else slots i)
if_slots true monitor slots i = refl
if_slots false monitor slots i = refl

some_bytes :
    (n : ℕ) (hit : Bool) (x y : Slot)
    → (if n == 0 then y else if hit then x else y) ≡ (if n != 0 && hit then x else y)
some_bytes zero hit x y = refl
some_bytes (suc n) true x y = ground arith
some_bytes (suc n) false x y = ground arith

module _ (monitor : Monitor) (address : Bytes) (byte_length : ℕ) where
  abbrev hits : ℕ → Slot → Bool
  hits = store_hits (bytes_to_big_int address) byte_length

  -- A store of at least one byte clears exactly the slots whose line it overlaps, and changes no other
  -- slot; a store of no bytes changes nothing.
  pub invalidate_overlapping_reservations_locked-exact :
      (i : ℕ)
      → i < reservation_hart_count
      → (invalidate_overlapping_reservations_locked monitor address byte_length).slots i ≡ (
          if byte_length != 0 && hits i (monitor.slots i)
          then cleared (monitor.slots i)
          else monitor.slots i)
  unfolding invalidate_overlapping_reservations_locked
  invalidate_overlapping_reservations_locked-exact i h =
      if_slots (byte_length == 0) monitor (sweep hits reservation_hart_count monitor.slots) i
      ∙ rw (sweep_lem hits reservation_hart_count monitor.slots i, in_range i h)
          (some_bytes byte_length (hits i (monitor.slots i)) (cleared (monitor.slots i))
            (monitor.slots i))

  -- A store keeps that a line has one owner at most.
  invalidate-HasOneOwner :
      HasOneOwner monitor
      → HasOneOwner (invalidate_overlapping_reservations_locked monitor address byte_length)
  invalidate-HasOneOwner before = record {
    unique = λ i j p q e. ground (
      arith,
      invalidate_overlapping_reservations_locked-exact i,
      invalidate_overlapping_reservations_locked-exact j,
      before.unique i j,
    );
  }

clear_reservation_locked-HasOneOwner :
    (monitor : Monitor) (hart : ℕ)
    → HasOneOwner monitor
    → HasOneOwner (clear_reservation_locked monitor hart)
unfolding clear_reservation_locked
clear_reservation_locked-HasOneOwner monitor hart before = record {
  unique = λ i j p q e. ground (arith, before.unique i j);
}
