-- ===== src/Cpu/Pmp.antt =====
-- src/emulator/cpu/pmp.ts: physical memory protection, 16 entries.
pub mod Decision
pub mod Napot
use ya_risc_v.Prelude.{ℕ, zero, suc, ◌+◌, ◌-◌, ◌*◌, ◌/◌, ◌%◌, ◌^◌, bit_and, Bool, true, false}
use ya_risc_v.Prelude.{◌&&◌, ◌||◌, not, Option, none, some, ltb, leb, ◌==◌, ◌!=◌, if◌then◌else◌}
use ya_risc_v.Prelude.{is_eq}
use ya_risc_v.Bytes.{Bytes, byte, test_bits, clear_bits, tabulate, bytes_to_big_int}
use ya_risc_v.Bytes.{unsigned_big_int_to_bytes, compare_unsigned_bytes, signed_number_to_bytes}
use ya_risc_v.Cpu.Csr
use ya_risc_v.Cpu.Types.{Registers}

pub data PmpAccess : Type 0 where
  load store amo fetch : PmpAccess

abbrev pub pmp_entry_count : ℕ
pmp_entry_count = 16

-- R, W and X are bits 0, 1 and 2, A is bits 3 and 4, L is bit 7.
abbrev pub pmp_cfg_r : ℕ
pmp_cfg_r = 0x01

abbrev pub pmp_cfg_w : ℕ
pmp_cfg_w = 0x02

abbrev pub pmp_cfg_x : ℕ
pmp_cfg_x = 0x04

abbrev pub pmp_cfg_a_mask : ℕ
pmp_cfg_a_mask = 0x18

abbrev pub pmp_cfg_a_tor : ℕ
pmp_cfg_a_tor = 0x08

abbrev pub pmp_cfg_a_na4 : ℕ
pmp_cfg_a_na4 = 0x10

abbrev pub pmp_cfg_a_napot : ℕ
pmp_cfg_a_napot = 0x18

abbrev pub pmp_cfg_reserved : ℕ
pmp_cfg_reserved = 0x60

abbrev pub pmp_cfg_lock : ℕ
pmp_cfg_lock = 0x80

unfoldable pub privilege_machine : Bytes
unfolding signed_number_to_bytes
privilege_machine = signed_number_to_bytes 3 32

abbrev pub is_pmp_cfg_register : ℕ → Bool
is_pmp_cfg_register index = index == Csr.pmpcfg0 || index == Csr.pmpcfg2

abbrev pub is_pmp_addr_register : ℕ → Bool
is_pmp_addr_register index = leb Csr.pmpaddr0 index && ltb index (Csr.pmpaddr0 + pmp_entry_count)

abbrev pub is_pmp_control_and_status_register : ℕ → Bool
is_pmp_control_and_status_register index = is_pmp_cfg_register index || is_pmp_addr_register index

unfoldable pub legalize_pmp_cfg_byte : ℕ → ℕ
legalize_pmp_cfg_byte incoming =
    let next = clear_bits incoming pmp_cfg_reserved in
    if test_bits next pmp_cfg_w && not (test_bits next pmp_cfg_r)
    then clear_bits next pmp_cfg_w
    else next

unfoldable pub legalize_pmp_cfg : Bytes → Bytes → Bytes
unfolding tabulate legalize_pmp_cfg_byte
legalize_pmp_cfg previous incoming = tabulate 8 0 (λ i.
    if test_bits (byte previous i) pmp_cfg_lock
    then byte previous i
    else legalize_pmp_cfg_byte (byte incoming i))

unfoldable pub config_byte : Registers → ℕ → ℕ
config_byte registers entry =
    let slot = if ltb entry 8 then Csr.pmpcfg0 else Csr.pmpcfg2 in
    byte (registers.control_and_status slot) (entry % 8)

unfoldable pub pmp_address_write_ignored : Registers → ℕ → Bool
unfolding config_byte
pmp_address_write_ignored registers index =
    let entry = index - Csr.pmpaddr0 in
    let next = config_byte registers (entry + 1) in
    if test_bits (config_byte registers entry) pmp_cfg_lock
    then true
    else if leb pmp_entry_count (entry + 1)
    then false
    else test_bits next pmp_cfg_lock && bit_and next pmp_cfg_a_mask == pmp_cfg_a_tor

unfoldable pub legalize_pmp_addr : Bytes → Bytes
unfolding unsigned_big_int_to_bytes bytes_to_big_int
legalize_pmp_addr value = unsigned_big_int_to_bytes (bytes_to_big_int value % 2 ^ 54)

unfoldable pub read_pmp_address : Registers → ℕ → ℕ
unfolding bytes_to_big_int
read_pmp_address registers entry =
    bytes_to_big_int (registers.control_and_status (Csr.pmpaddr0 + entry))

-- `while ((bits & 1n) === 1n && count < 64)`: the rounds left are `64 - count`.
unfoldable pub trailing_ones_loop : ℕ → ℕ → ℕ → ℕ
trailing_ones_loop zero count bits = count
trailing_ones_loop (suc rounds) count bits =
    let rest = trailing_ones_loop rounds (suc count) (bits / 2) in
    if bits % 2 == 1 then rest else count

unfoldable pub trailing_ones : ℕ → ℕ
unfolding trailing_ones_loop
trailing_ones value = trailing_ones_loop 64 0 value

-- The bytes from `low` up to, not including, `high`.
pub record PmpRange : Type 0 where
  pub low : ℕ
  pub high : ℕ

-- `highBits & ~encoded` clears the `ones + 1` lowest bits.
unfoldable pub entry_range : Registers → ℕ → Option PmpRange
unfolding config_byte read_pmp_address trailing_ones
entry_range registers entry =
    let mode = bit_and (config_byte registers entry) pmp_cfg_a_mask in
    let high_bits = read_pmp_address registers entry in
    let tor_low = if entry == 0 then 0 else read_pmp_address registers (entry - 1) * 4 in
    let ones = trailing_ones high_bits in
    let napot_low = (high_bits - high_bits % 2 ^ (ones + 1)) * 4 in
    if mode == 0
    then none
    else if mode == pmp_cfg_a_tor
    then (if ltb tor_low (high_bits * 4)
        then some (record { low = tor_low; high = high_bits * 4 })
        else none)
    else if mode == pmp_cfg_a_na4
    then some (record { low = high_bits * 4; high = high_bits * 4 + 4 })
    else if mode != pmp_cfg_a_napot
    then none
    else if leb 64 ones
    then some (record { low = 0; high = 2 ^ 64 })
    else some (record { low = napot_low; high = napot_low + 2 ^ (ones + 3) })

unfoldable pub permission_granted : ℕ → PmpAccess → Bool
permission_granted config load = test_bits config pmp_cfg_r
permission_granted config store = test_bits config pmp_cfg_w
permission_granted config fetch = test_bits config pmp_cfg_x
permission_granted config amo = test_bits config pmp_cfg_r && test_bits config pmp_cfg_w

-- MPRV is bit 17 of mstatus, MPP bits 12:11.
unfoldable pub machine_by_mprv : Registers → Bool
unfolding compare_unsigned_bytes privilege_machine
machine_by_mprv registers =
    let mstatus = registers.control_and_status Csr.mstatus in
    if test_bits (byte mstatus 2) 0x02
    then bit_and (byte mstatus 1) 0x18 == 0x18
    else is_eq (compare_unsigned_bytes registers.privilege_mode privilege_machine)

unfoldable pub access_is_machine : Registers → PmpAccess → Bool
unfolding machine_by_mprv
access_is_machine registers fetch =
    is_eq (compare_unsigned_bytes registers.privilege_mode privilege_machine)
access_is_machine registers load = machine_by_mprv registers
access_is_machine registers store = machine_by_mprv registers
access_is_machine registers amo = machine_by_mprv registers

-- What the entry that overlaps an access decides.
unfoldable pub entry_denies : Registers → ℕ → PmpRange → ℕ → ℕ → PmpAccess → Bool
unfolding config_byte access_is_machine permission_granted
entry_denies registers entry range start end access =
    let config = config_byte registers entry in
    if ltb start range.low || ltb range.high end
    then true
    else if access_is_machine registers access && not (test_bits config pmp_cfg_lock)
    then false
    else not (permission_granted config access)

abbrev pub misses : PmpRange → ℕ → ℕ → Bool
misses range start end = leb end range.low || leb range.high start

-- The loop over the entries, with `n` of them left.
unfoldable pub denied_loop : Registers → ℕ → ℕ → ℕ → ℕ → PmpAccess → Bool
denied_loop registers zero entry start end access = not (access_is_machine registers access)
denied_loop registers (suc n) entry start end access =
    let rest = denied_loop registers n (suc entry) start end access in
    elim (entry_range registers entry) [
      | none ↦ rest
      | some range ↦
          if misses range start end
          then rest
          else entry_denies registers entry range start end access
    ]

unfoldable pub physical_memory_access_denied : Registers → Bytes → ℕ → PmpAccess → Bool
unfolding denied_loop bytes_to_big_int
physical_memory_access_denied registers address byte_length access =
    let start = bytes_to_big_int address in
    denied_loop registers pmp_entry_count 0 start (start + byte_length) access
