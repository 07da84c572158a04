-- ===== src/Plic/Mmio.antt =====
-- src/emulator/plic/memory.ts: the loads and stores of a guest.
use ya_risc_v.Plic.Layout.{claim, priority, pending, enable, threshold}
use ya_risc_v.Bytes.{Bytes, signed_number_to_bytes, bytes_to_big_int, add_bytes}
use ya_risc_v.Prelude.{
  none, sub_ℕ, suc, zero, List, some, not, Option, bit_and, ◌==◌, ◌∷◌, [], if◌then◌else◌, ℕ,
}
use ya_risc_v.Bytes.Value.{value}
use ya_risc_v.Plic.Layout.{
  plic_offset_to_location, plic_host_index_for_location, PlicLocation, is_valid_source,
}
use ya_risc_v.Plic.Gateway.{
  complete_plic_source, refresh_context_wire, store_byte_at, Plic, claim_plic_source,
  refresh_all_context_wires,
}

unfoldable pub plic_address_to_location : Plic → Bytes → Option PlicLocation
unfolding plic_offset_to_location
plic_address_to_location plic address =
    plic_offset_to_location (sub_ℕ (bytes_to_big_int address) (bytes_to_big_int plic.guest_address))

unfoldable pub load_at_location : Plic → Option PlicLocation → ℕ × Plic
unfolding claim_plic_source
load_at_location plic none = (0, plic)
load_at_location plic (some (claim context zero)) =
    let claimed = claim_plic_source plic context in (bit_and claimed.0 0xff, claimed.1)
load_at_location plic (some (claim context (suc byte_offset))) = (0, plic)
load_at_location plic (some (priority zero byte_offset)) = (0, plic)
load_at_location plic (some location) = (plic.slab (plic_host_index_for_location location), plic)

unfoldable pub load_plic_byte : Plic → Bytes → ℕ × Plic
unfolding load_at_location plic_address_to_location
load_plic_byte plic address = load_at_location plic (plic_address_to_location plic address)

unfoldable pub store_at_location : Plic → Option PlicLocation → ℕ → Plic
unfolding complete_plic_source refresh_all_context_wires refresh_context_wire
store_at_location plic none byte = plic
store_at_location plic (some (priority zero byte_offset)) byte = plic
store_at_location plic (some (priority (suc source) byte_offset)) byte =
    refresh_all_context_wires (record plic {
      slab =
          store_byte_at plic.slab (plic_host_index_for_location (priority (suc source) byte_offset))
            byte;
    })
store_at_location plic (some (pending byte_offset)) byte = plic
store_at_location plic (some (enable context byte_offset)) byte =
    refresh_context_wire
      (record plic {
        slab =
            store_byte_at plic.slab (plic_host_index_for_location (enable context byte_offset))
              (if byte_offset == 0 then bit_and byte 0xfe else byte);
      })
      context
store_at_location plic (some (threshold context byte_offset)) byte =
    refresh_context_wire
      (record plic {
        slab =
            store_byte_at plic.slab (plic_host_index_for_location (threshold context byte_offset))
              byte;
      })
      context
store_at_location plic (some (claim context zero)) byte =
    if not (is_valid_source byte) then plic else complete_plic_source plic context byte
store_at_location plic (some (claim context (suc byte_offset))) byte = plic

unfoldable pub store_plic_byte : Plic → Bytes → ℕ → Plic
unfolding store_at_location plic_address_to_location
store_plic_byte plic address value =
    store_at_location plic (plic_address_to_location plic address) (bit_and value 0xff)

abbrev pub one_byte : Bytes
one_byte = signed_number_to_bytes 1 32

-- The bytes from the cursor on, lowest address first.
unfoldable pub load_bytes_from_plic : Plic → Bytes → ℕ → List ℕ × Plic
unfolding load_plic_byte add_bytes
load_bytes_from_plic plic cursor zero = ([], plic)
load_bytes_from_plic plic cursor (suc byte_length) =
    let (byte, plic') = load_plic_byte plic cursor in
    let (later, plic'') = load_bytes_from_plic plic' (add_bytes cursor one_byte) byte_length in
    (byte ∷ later, plic'')

unfoldable pub store_bytes_to_plic : Plic → Bytes → List ℕ → Plic
unfolding store_plic_byte add_bytes
store_bytes_to_plic plic cursor [] = plic
store_bytes_to_plic plic cursor (byte ∷ later) =
    store_bytes_to_plic (store_plic_byte plic cursor byte) (add_bytes cursor one_byte) later
