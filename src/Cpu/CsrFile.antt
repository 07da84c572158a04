-- ===== src/Cpu/CsrFile.antt =====
-- src/emulator/cpu/registers.ts: reads and writes of the CSR file, and the device-driven bits.
pub mod Locked
use ya_risc_v.Prelude.{ℕ, Bool, not, ◌&&◌, ◌||◌, ◌==◌, ◌!=◌, if◌then◌else◌, set}
use ya_risc_v.Prelude.{Option, none, some, bit_and, bit_or}
use ya_risc_v.Bytes.{Bytes, byte, clear_bits, copy_bytes, and_bytes, or_bytes}
use ya_risc_v.Bytes.{compare_unsigned_bytes}
use ya_risc_v.Cpu.Csr
use ya_risc_v.Cpu.Masks.{
  misa_hardwired_bytes, sstatus_mask_bytes, mstatus_keep_outside_sstatus, mie_mask_bytes,
  mip_writable_mask_bytes, mip_hardware_mask_bytes, sip_writable_mask_bytes,
  stimecmp_disabled_bytes, menvcfg_writable_mask_bytes, mip_writable_mask_bytes_without_stip,
  mip_hardware_mask_bytes_with_stip, sip_writable_mask_bytes_without_stip, counteren_mask_bytes,
  mcountinhibit_mask_bytes, mie_mip_keep_outside_sie_sip, sie_sip_mask_bytes, mideleg_mask_bytes,
}
use ya_risc_v.Cpu.Pmp.{
  is_pmp_cfg_register, is_pmp_addr_register, legalize_pmp_cfg, legalize_pmp_addr,
  pmp_address_write_ignored, privilege_machine,
}
use ya_risc_v.Prelude.{is_eq}
use ya_risc_v.Cpu.Registers.{privilege_user, privilege_supervisor}
use ya_risc_v.Cpu.CsrAccess.{
  is_identity_control_and_status_register, is_unprivileged_counter_control_and_status_register,
  is_supervisor_timer_compare_enabled,
}
use ya_risc_v.Cpu.Types.{Registers, set_csr}

-- Here and below a branch that leaves a byte alone writes the byte that was there.
-- MPP is `& 0x18` of byte 1; UXL and SXL are `& 0x0f` of byte 4.
unfoldable pub legalize_mstatus : Bytes → Bytes
legalize_mstatus mstatus =
    let mpp = set mstatus 1 (
      if bit_and (byte mstatus 1) 0x18 == 0x10
      then bit_or (clear_bits (byte mstatus 1) 0x18) 0
      else byte mstatus 1) in
    set mpp 4 (bit_or (clear_bits (byte mpp 4) 0x0f) 0x0a)

unfoldable pub legalize_xepc : Bytes → Bytes
legalize_xepc xepc = set xepc 0 (bit_and (byte xepc 0) 0xfe)

unfoldable pub legalize_xtvec : Bytes → Bytes
legalize_xtvec xtvec =
    let mode = bit_and (byte xtvec 0) 0x03 in
    set xtvec 0 (if mode != 0 && mode != 0x01 then clear_bits (byte xtvec 0) 0x03 else byte xtvec 0)

unfoldable pub read_mip_with_plic_seip : Registers → Bytes
unfolding copy_bytes
read_mip_with_plic_seip registers =
    let mip = copy_bytes (registers.control_and_status Csr.mip) in
    set mip 1
      (if registers.plic_supervisor_external_pending then bit_or (byte mip 1) 0x02 else byte mip 1)

-- The reads that need no memory: every index but `time`.
unfoldable pub read_stored_register : Registers → ℕ → Bytes
unfolding and_bytes read_mip_with_plic_seip
read_stored_register registers index =
    if index == Csr.cycle
    then registers.control_and_status Csr.mcycle
    else if index == Csr.instret
    then registers.control_and_status Csr.minstret
    else if index == Csr.sstatus
    then and_bytes (registers.control_and_status Csr.mstatus) sstatus_mask_bytes
    else if index == Csr.sie
    then and_bytes (registers.control_and_status Csr.mie) sie_sip_mask_bytes
    else if index == Csr.sip
    then and_bytes (read_mip_with_plic_seip registers) sie_sip_mask_bytes
    else if index == Csr.mip
    then read_mip_with_plic_seip registers
    else registers.control_and_status index

-- `mtime` is what the CLINT returns if memory is passed; without it a read of `time` throws.
unfoldable pub read_control_and_status_register : Registers → ℕ → Option Bytes → Option Bytes
unfolding read_stored_register
read_control_and_status_register registers index mtime =
    if index == Csr.time then mtime else some (read_stored_register registers index)

-- A snapshot with no memory at an index other than `time`, as traps take it.
unfoldable pub snapshot_control_and_status_register : Registers → ℕ → Bytes
unfolding copy_bytes read_stored_register
snapshot_control_and_status_register registers index =
    copy_bytes (read_stored_register registers index)

abbrev pub mip_writable_mask : Registers → Bytes
mip_writable_mask registers =
    if is_supervisor_timer_compare_enabled registers
    then mip_writable_mask_bytes_without_stip
    else mip_writable_mask_bytes

abbrev pub mip_hardware_mask : Registers → Bytes
mip_hardware_mask registers =
    if is_supervisor_timer_compare_enabled registers
    then mip_hardware_mask_bytes_with_stip
    else mip_hardware_mask_bytes

abbrev pub sip_writable_mask : Registers → Bytes
sip_writable_mask registers =
    if is_supervisor_timer_compare_enabled registers
    then sip_writable_mask_bytes_without_stip
    else sip_writable_mask_bytes

-- `copyBytes(registers.controlAndStatus[index], value)`
abbrev pub store_csr : Registers → ℕ → Bytes → Registers
store_csr registers index value = set_csr registers index (copy_bytes value)

-- `keep` the old bits under one mask, take the new ones under the other.
abbrev pub merge_bytes : Bytes → Bytes → Bytes → Bytes → Bytes
merge_bytes old keep value mask = or_bytes (and_bytes old keep) (and_bytes value mask)

unfoldable pub merge_sip : Registers → Bytes → Bytes
unfolding and_bytes or_bytes is_supervisor_timer_compare_enabled
merge_sip registers value =
    let mip = registers.control_and_status Csr.mip in
    let outside =
      or_bytes (and_bytes mip mie_mip_keep_outside_sie_sip)
        (and_bytes mip (mip_hardware_mask registers)) in
    let keep = set outside 1 (bit_or (byte outside 1) (bit_and (byte mip 1) 0x02)) in
    or_bytes keep (and_bytes value (sip_writable_mask registers))

unfoldable pub write_menvcfg : Registers → Bytes → Registers
unfolding and_bytes copy_bytes is_supervisor_timer_compare_enabled
write_menvcfg registers value =
    let next = store_csr registers Csr.menvcfg (and_bytes value menvcfg_writable_mask_bytes) in
    let mip = next.control_and_status Csr.mip in
    if is_supervisor_timer_compare_enabled registers
      && not (is_supervisor_timer_compare_enabled next)
    then set_csr next Csr.mip (set mip 0 (clear_bits (byte mip 0) 0x20))
    else next

unfoldable pub write_medeleg : Registers → Bytes → Registers
unfolding copy_bytes
write_medeleg registers value =
    let next = copy_bytes value in
    set_csr registers Csr.medeleg (set next 1 (clear_bits (byte next 1) 0x08))

-- The `default` case.
unfoldable pub write_plain : Registers → ℕ → Bytes → Registers
unfolding copy_bytes legalize_pmp_cfg legalize_pmp_addr pmp_address_write_ignored
write_plain registers index value =
    if is_pmp_cfg_register index
    then store_csr registers index (legalize_pmp_cfg (registers.control_and_status index) value)
    else if is_pmp_addr_register index
    then (if pmp_address_write_ignored registers index
        then registers
        else store_csr registers index (legalize_pmp_addr value))
    else store_csr registers index value

unfoldable pub write_control_and_status_register : Registers → ℕ → Bytes → Registers
unfolding is_identity_control_and_status_register
    is_unprivileged_counter_control_and_status_register snapshot_control_and_status_register
    and_bytes or_bytes copy_bytes legalize_mstatus merge_sip misa_hardwired_bytes write_menvcfg
    write_medeleg legalize_xtvec legalize_xepc write_plain is_supervisor_timer_compare_enabled
write_control_and_status_register registers index value =
    if is_identity_control_and_status_register index
      || is_unprivileged_counter_control_and_status_register index
    then registers
    else if index == Csr.sstatus
    then store_csr registers Csr.mstatus (
        legalize_mstatus (
          merge_bytes (snapshot_control_and_status_register registers Csr.mstatus)
            mstatus_keep_outside_sstatus value sstatus_mask_bytes))
    else if index == Csr.sie
    then store_csr registers Csr.mie (
        merge_bytes (snapshot_control_and_status_register registers Csr.mie)
          mie_mip_keep_outside_sie_sip value sie_sip_mask_bytes)
    else if index == Csr.sip
    then store_csr registers Csr.mip (merge_sip registers value)
    else if index == Csr.mstatus
    then store_csr registers Csr.mstatus (legalize_mstatus (copy_bytes value))
    else if index == Csr.misa
    then store_csr registers Csr.misa misa_hardwired_bytes
    else if index == Csr.mie
    then store_csr registers Csr.mie (and_bytes value mie_mask_bytes)
    else if index == Csr.mip
    then store_csr registers Csr.mip (
        or_bytes (and_bytes value (mip_writable_mask registers))
          (and_bytes (registers.control_and_status Csr.mip) (mip_hardware_mask registers)))
    else if index == Csr.menvcfg
    then write_menvcfg registers value
    else if index == Csr.mideleg
    then store_csr registers Csr.mideleg (and_bytes value mideleg_mask_bytes)
    else if index == Csr.medeleg
    then write_medeleg registers value
    else if index == Csr.mcounteren || index == Csr.scounteren
    then store_csr registers index (and_bytes value counteren_mask_bytes)
    else if index == Csr.mcountinhibit
    then store_csr registers index (and_bytes value mcountinhibit_mask_bytes)
    else if index == Csr.mtvec || index == Csr.stvec
    then store_csr registers index (legalize_xtvec (copy_bytes value))
    else if index == Csr.mepc || index == Csr.sepc
    then store_csr registers index (legalize_xepc (copy_bytes value))
    else write_plain registers index value

unfoldable pub privilege_mode_from_mpp_bits : ℕ → Bytes
unfolding privilege_machine privilege_supervisor privilege_user
privilege_mode_from_mpp_bits mpp_bits =
    if mpp_bits == 0x18
    then privilege_machine
    else if mpp_bits == 0x08
    then privilege_supervisor
    else privilege_user

unfoldable pub mpp_bits_from_privilege_mode : Bytes → ℕ
unfolding compare_unsigned_bytes privilege_machine privilege_supervisor
mpp_bits_from_privilege_mode mode =
    if is_eq (compare_unsigned_bytes mode privilege_machine)
    then 0x18
    else if is_eq (compare_unsigned_bytes mode privilege_supervisor)
    then 0x08
    else 0x00

-- `mip[index] |= bit` or `mip[index] &= ~bit`
abbrev pub drive_mip : Registers → ℕ → ℕ → Bool → Registers
drive_mip registers index bit pending =
    let mip = registers.control_and_status Csr.mip in
    set_csr registers Csr.mip (
      set mip index
        (if pending then bit_or (byte mip index) bit else clear_bits (byte mip index) bit))

unfoldable pub set_machine_timer_interrupt_pending : Registers → Bool → Registers
set_machine_timer_interrupt_pending registers pending = drive_mip registers 0 0x80 pending

unfoldable pub set_supervisor_timer_interrupt_pending : Registers → Bool → Registers
unfolding is_supervisor_timer_compare_enabled
set_supervisor_timer_interrupt_pending registers pending =
    if is_supervisor_timer_compare_enabled registers
    then drive_mip registers 0 0x20 pending
    else registers

unfoldable pub set_machine_software_interrupt_pending : Registers → Bool → Registers
set_machine_software_interrupt_pending registers pending = drive_mip registers 0 0x08 pending

unfoldable pub set_machine_external_interrupt_pending : Registers → Bool → Registers
set_machine_external_interrupt_pending registers pending = drive_mip registers 1 0x08 pending

unfoldable pub set_supervisor_external_interrupt_pending : Registers → Bool → Registers
set_supervisor_external_interrupt_pending registers pending = record registers {
  plic_supervisor_external_pending = pending;
}

-- The new registers, and what is handed to the CLINT mirror if anything is.
unfoldable pub publish_supervisor_timer_compare : Registers → Registers × Option Bytes
unfolding is_supervisor_timer_compare_enabled compare_unsigned_bytes copy_bytes
publish_supervisor_timer_compare registers =
    let desired =
      if is_supervisor_timer_compare_enabled registers
      then registers.control_and_status Csr.stimecmp
      else stimecmp_disabled_bytes in
    if is_eq (compare_unsigned_bytes registers.published_supervisor_timer_compare desired)
    then (registers, none)
    else (
      record registers { published_supervisor_timer_compare = copy_bytes desired },
      some desired,
    )
