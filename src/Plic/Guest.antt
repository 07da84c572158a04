-- ===== src/Plic/Guest.antt =====
-- Device signals and guest accesses, one after the other.
use ya_risc_v.Bytes.{add_bytes, Bytes, bytes_to_big_int}
use ya_risc_v.Bytes.Value.{value}
use ya_risc_v.Plic.Mmio.{
  store_at_location, one_byte, store_plic_byte, plic_address_to_location, store_bytes_to_plic,
  load_at_location, load_bytes_from_plic, load_plic_byte,
}
use ya_risc_v.Plic.Gated.{gated_as, IsGated, refresh_context_wire-IsGated}
use ya_risc_v.Plic.Layout.{
  PlicLocation, priority, pending, enable, threshold, claim, machine, supervisor,
  location_of_register, plic_offset_to_location, is_valid_source,
}
use ya_risc_v.Plic.Gateway.{store_byte_at, Plic, complete_plic_source, set_plic_source_pending}
use ya_risc_v.Prelude.{
  inr, zero, none, if-ap, true, Option, leb, ltb, pos, Bool-cases, inl, some, arith, suc, negsuc,
  not, ◌+◌, ◌*◌, ◌/◌, ◌%◌, ◌≤◌, ◌<◌, ◌==◌, ◌≡◌, ◌⊎◌, ℕ, ℤ, List, bit_and_ones, bit_and-lt, bit_and,
  Bool, ◌∷◌, [], if◌then◌else◌, sub_ℕ,
}
use ya_risc_v.Plic.Invariant.{
  complete_plic_source-IsGated, refreshed, set_plic_source_pending-IsGated,
  claim_plic_source-IsGated,
}

abbrev InWindow : PlicLocation → Type 0
InWindow (priority source byte_offset) = (source < 32) × (byte_offset < 4)
InWindow (pending byte_offset) = byte_offset < 4
InWindow (enable context byte_offset) = byte_offset < 4
InWindow (threshold context byte_offset) = byte_offset < 4
InWindow (claim context byte_offset) = byte_offset < 4

record Fits (location : PlicLocation) : Type 0 where
  window : InWindow location

abbrev FitsIfAny : Option PlicLocation → Type 0
FitsIfAny none = Unit
FitsIfAny (some location) = Fits location

location_of_register-Fits :
    (register_offset byte_offset : ℕ)
    → byte_offset < 4
    → FitsIfAny (location_of_register register_offset byte_offset)
unfolding location_of_register
location_of_register-Fits register_offset byte_offset h =
    if-ap FitsIfAny (register_offset == 0x1000) _ _ (record { window = h })
      (if-ap FitsIfAny (register_offset == 0x2000) _ _ (record { window = h })
        (if-ap FitsIfAny (register_offset == 0x2080) _ _ (record { window = h })
          (if-ap FitsIfAny (register_offset == 0x200000) _ _ (record { window = h })
            (if-ap FitsIfAny (register_offset == 0x200004) _ _ (record { window = h })
              (if-ap FitsIfAny (register_offset == 0x201000) _ _ (record { window = h })
                (if-ap FitsIfAny (register_offset == 0x201004) _ _ (record { window = h }) tt))))))

priority-Fits : (offset : ℕ) → ltb offset 128 ≡ true → Fits (priority (offset / 4) (offset % 4))
priority-Fits offset h = record { window = (ground arith, omega arith) }

plic_offset_to_location-Fits : (offset : ℤ) → FitsIfAny (plic_offset_to_location offset)
unfolding plic_offset_to_location
plic_offset_to_location-Fits (negsuc offset) = tt
plic_offset_to_location-Fits (pos offset) =
    if-ap FitsIfAny (leb 0x201008 offset) none _ tt (elim (Bool-cases (ltb offset 128)) [
      | inl h ↦ rw h (priority-Fits offset h)
      | inr h ↦ rw h (location_of_register-Fits (offset / 4 * 4) (offset % 4) (omega arith))
    ])

module _ (plic : Plic) (before : IsGated plic.slab) where
  -- A byte outside the gateway's fields.
  written :
      (index byte : ℕ)
      → byte < 256
      → (index < 128) ⊎ ((132 ≤ index) × (index < 148))
      → IsGated (store_byte_at plic.slab index byte)
  written index byte small place =
      gated_as plic.slab _ (λ i. ground (arith, before.bytes i)) (λ i a b. ground arith)
        (λ i a b. ground arith) before

  store_at_location-IsGated :
      (location : PlicLocation) (byte : ℕ)
      → InWindow location
      → byte < 256
      → IsGated (store_at_location plic (some location) byte).slab
  unfolding store_at_location
  store_at_location-IsGated (priority zero byte_offset) byte h small = before
  store_at_location-IsGated (priority (suc source) byte_offset) byte h small =
      refreshed plic _ (written (suc source * 4 + byte_offset) byte small (inl (omega arith)))
  store_at_location-IsGated (pending byte_offset) byte h small = before
  store_at_location-IsGated (enable machine byte_offset) byte h small =
      refresh_context_wire-IsGated
        (record plic {
          slab =
              store_byte_at plic.slab (132 + byte_offset)
                (if byte_offset == 0 then bit_and byte 0xfe else byte);
        })
        machine
        (written (132 + byte_offset) (if byte_offset == 0 then bit_and byte 0xfe else byte)
          (if-ap (λ b. b < 256) (byte_offset == 0) (bit_and byte 0xfe) byte
            (bit_and-lt 8 byte 0xfe small (omega arith)) small)
          (inr (omega arith)))
  store_at_location-IsGated (enable supervisor byte_offset) byte h small =
      refresh_context_wire-IsGated
        (record plic {
          slab =
              store_byte_at plic.slab (136 + byte_offset)
                (if byte_offset == 0 then bit_and byte 0xfe else byte);
        })
        supervisor
        (written (136 + byte_offset) (if byte_offset == 0 then bit_and byte 0xfe else byte)
          (if-ap (λ b. b < 256) (byte_offset == 0) (bit_and byte 0xfe) byte
            (bit_and-lt 8 byte 0xfe small (omega arith)) small)
          (inr (omega arith)))
  store_at_location-IsGated (threshold machine byte_offset) byte h small =
      refresh_context_wire-IsGated
        (record plic { slab = store_byte_at plic.slab (140 + byte_offset) byte }) machine
        (written (140 + byte_offset) byte small (inr (omega arith)))
  store_at_location-IsGated (threshold supervisor byte_offset) byte h small =
      refresh_context_wire-IsGated
        (record plic { slab = store_byte_at plic.slab (144 + byte_offset) byte }) supervisor
        (written (144 + byte_offset) byte small (inr (omega arith)))
  store_at_location-IsGated (claim context zero) byte h small =
      if-ap (λ p. IsGated p.slab) (not (is_valid_source byte)) plic
        (complete_plic_source plic context byte) before
        (complete_plic_source-IsGated plic before context byte)
  store_at_location-IsGated (claim context (suc byte_offset)) byte h small = before

  load_at_location-IsGated :
      (location : Option PlicLocation) → IsGated (load_at_location plic location).1.slab
  unfolding load_at_location
  load_at_location-IsGated none = before
  load_at_location-IsGated (some (claim context zero)) =
      claim_plic_source-IsGated plic before context
  load_at_location-IsGated (some (claim context (suc byte_offset))) = before
  load_at_location-IsGated (some (priority zero byte_offset)) = before
  load_at_location-IsGated (some (priority (suc source) byte_offset)) = before
  load_at_location-IsGated (some (pending byte_offset)) = before
  load_at_location-IsGated (some (enable context byte_offset)) = before
  load_at_location-IsGated (some (threshold context byte_offset)) = before

  store_if_any :
      (location : Option PlicLocation) (byte : ℕ)
      → FitsIfAny location
      → byte < 256
      → IsGated (store_at_location plic location byte).slab
  unfolding store_at_location
  store_if_any none byte h small = before
  store_if_any (some location) byte h small = store_at_location-IsGated location byte h.window small

  store_plic_byte-IsGated :
      (address : Bytes) (value : ℕ) → IsGated (store_plic_byte plic address value).slab
  unfolding store_plic_byte plic_address_to_location
  store_plic_byte-IsGated address value =
      store_if_any (plic_address_to_location plic address) (bit_and value 0xff)
        (plic_offset_to_location-Fits
          (sub_ℕ (bytes_to_big_int address) (bytes_to_big_int plic.guest_address)))
        (omega (arith, bit_and_ones 8 value))

  load_plic_byte-IsGated : (address : Bytes) → IsGated (load_plic_byte plic address).1.slab
  unfolding load_plic_byte
  load_plic_byte-IsGated address = load_at_location-IsGated (plic_address_to_location plic address)

load_bytes_from_plic-IsGated :
    (plic : Plic) (cursor : Bytes) (byte_length : ℕ)
    → IsGated plic.slab
    → IsGated (load_bytes_from_plic plic cursor byte_length).1.slab
unfolding load_bytes_from_plic
load_bytes_from_plic-IsGated plic cursor zero before = before
load_bytes_from_plic-IsGated plic cursor (suc byte_length) before =
    load_bytes_from_plic-IsGated (load_plic_byte plic cursor).1 (add_bytes cursor one_byte)
      byte_length (load_plic_byte-IsGated plic before cursor)

store_bytes_to_plic-IsGated :
    (plic : Plic) (cursor : Bytes) (source : List ℕ)
    → IsGated plic.slab
    → IsGated (store_bytes_to_plic plic cursor source).slab
unfolding store_bytes_to_plic
store_bytes_to_plic-IsGated plic cursor [] before = before
store_bytes_to_plic-IsGated plic cursor (byte ∷ later) before =
    store_bytes_to_plic-IsGated (store_plic_byte plic cursor byte) (add_bytes cursor one_byte) later
      (store_plic_byte-IsGated plic before cursor byte)

-- What can happen to the controller: a device drives its input, a guest loads or stores bytes.
pub data Access : Type 0 where
  drives : (source : ℕ) (level : Bool) → Access
  loads : (address : Bytes) (byte_length : ℕ) → Access
  stores : (address : Bytes) (bytes : List ℕ) → Access

abbrev pub perform : Plic → Access → Plic
perform plic (drives source level) = set_plic_source_pending plic source level
perform plic (loads address byte_length) = (load_bytes_from_plic plic address byte_length).1
perform plic (stores address bytes) = store_bytes_to_plic plic address bytes

abbrev pub perform_all : Plic → List Access → Plic
perform_all plic [] = plic
perform_all plic (access ∷ later) = perform_all (perform plic access) later

-- From a controller in step, after any sequence of device signals and of guest loads and stores at any
-- addresses: a source is pending exactly when its input is high and no context has claimed it, and at
-- most one context has claimed it.
pub perform_all-IsGated :
    (plic : Plic) (accesses : List Access)
    → IsGated plic.slab
    → IsGated (perform_all plic accesses).slab
perform_all-IsGated plic [] before = before
perform_all-IsGated plic (drives source level ∷ later) before =
    perform_all-IsGated (set_plic_source_pending plic source level) later
      (set_plic_source_pending-IsGated plic before source level)
perform_all-IsGated plic (loads address byte_length ∷ later) before =
    perform_all-IsGated (load_bytes_from_plic plic address byte_length).1 later
      (load_bytes_from_plic-IsGated plic address byte_length before)
perform_all-IsGated plic (stores address bytes ∷ later) before =
    perform_all-IsGated (store_bytes_to_plic plic address bytes) later
      (store_bytes_to_plic-IsGated plic address bytes before)
