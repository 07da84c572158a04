-- ===== src/Plic/Layout.antt =====
-- src/emulator/plic/layout.ts: the offsets of the host slab and of the guest window.
use ya_risc_v.Cpu.Instructions.Result.{offset}
use ya_risc_v.Prelude.{
  none, Bool, leb, negsuc, some, Option, pos, ltb, ◌+◌, ◌*◌, ◌/◌, ◌%◌, ◌==◌, ◌&&◌, if◌then◌else◌, ℕ,
  ℤ,
}

abbrev pub plic_max_source : ℕ
plic_max_source = 31

abbrev pub plic_host_pending : ℕ
plic_host_pending = 128

abbrev pub plic_host_enable_m : ℕ
plic_host_enable_m = 132

abbrev pub plic_host_enable_s : ℕ
plic_host_enable_s = 136

abbrev pub plic_host_threshold_m : ℕ
plic_host_threshold_m = 140

abbrev pub plic_host_threshold_s : ℕ
plic_host_threshold_s = 144

abbrev pub plic_host_claimed_by_m : ℕ
plic_host_claimed_by_m = 148

abbrev pub plic_host_claimed_by_s : ℕ
plic_host_claimed_by_s = 152

abbrev pub plic_host_input_level : ℕ
plic_host_input_level = 156

abbrev pub plic_host_meip_wire_offset : ℕ
plic_host_meip_wire_offset = 160

abbrev pub plic_host_seip_wire_offset : ℕ
plic_host_seip_wire_offset = 161

pub data PlicContext : Type 0 where
  machine supervisor : PlicContext

pub data PlicLocation : Type 0 where
  priority : (source byte_offset : ℕ) → PlicLocation
  pending : (byte_offset : ℕ) → PlicLocation
  enable : (context : PlicContext) (byte_offset : ℕ) → PlicLocation
  threshold : (context : PlicContext) (byte_offset : ℕ) → PlicLocation
  claim : (context : PlicContext) (byte_offset : ℕ) → PlicLocation

abbrev pub is_valid_source : ℕ → Bool
is_valid_source source = leb 1 source && leb source plic_max_source

abbrev pub enable_host_offset : PlicContext → ℕ
enable_host_offset machine = plic_host_enable_m
enable_host_offset supervisor = plic_host_enable_s

abbrev pub threshold_host_offset : PlicContext → ℕ
threshold_host_offset machine = plic_host_threshold_m
threshold_host_offset supervisor = plic_host_threshold_s

abbrev pub claimed_by_host_offset : PlicContext → ℕ
claimed_by_host_offset machine = plic_host_claimed_by_m
claimed_by_host_offset supervisor = plic_host_claimed_by_s

abbrev pub context_wire_offset : PlicContext → ℕ
context_wire_offset machine = plic_host_meip_wire_offset
context_wire_offset supervisor = plic_host_seip_wire_offset

-- The offset within the slab; the code adds the region's `hostIndex`.
abbrev pub plic_host_index_for_location : PlicLocation → ℕ
plic_host_index_for_location (priority source byte_offset) = source * 4 + byte_offset
plic_host_index_for_location (pending byte_offset) = plic_host_pending + byte_offset
plic_host_index_for_location (enable context byte_offset) = enable_host_offset context + byte_offset
plic_host_index_for_location (threshold context byte_offset) =
    threshold_host_offset context + byte_offset
plic_host_index_for_location (claim context byte_offset) = byte_offset

unfoldable pub location_of_register : (register_offset byte_offset : ℕ) → Option PlicLocation
location_of_register register_offset byte_offset =
    if register_offset == 0x1000
    then some (pending byte_offset)
    else if register_offset == 0x2000
    then some (enable machine byte_offset)
    else if register_offset == 0x2080
    then some (enable supervisor byte_offset)
    else if register_offset == 0x200000
    then some (threshold machine byte_offset)
    else if register_offset == 0x200004
    then some (claim machine byte_offset)
    else if register_offset == 0x201000
    then some (threshold supervisor byte_offset)
    else if register_offset == 0x201004
    then some (claim supervisor byte_offset)
    else none

unfoldable pub plic_offset_to_location : ℤ → Option PlicLocation
unfolding location_of_register
plic_offset_to_location (negsuc offset) = none
plic_offset_to_location (pos offset) =
    if leb 0x201008 offset
    then none
    else if ltb offset 128
    then some (priority (offset / 4) (offset % 4))
    else location_of_register (offset / 4 * 4) (offset % 4)
