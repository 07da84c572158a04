-- ===== src/Cpu/Trap.antt =====
-- src/emulator/cpu/trap.ts: trap entry, delegation, interrupt selection and return.
pub mod Return
pub mod Select
pub mod Taken
pub mod Delivery
pub mod SupervisorReturn
mod Tests
use ya_risc_v.Prelude.{ℕ, ◌+◌, ◌*◌, ◌%◌, ◌^◌, bit_and, bit_or, Bool, true, false, not, ◌&&◌, ◌||◌}
use ya_risc_v.Prelude.{◌==◌, ◌!=◌, if◌then◌else◌, List, [], ◌∷◌, Option, none, some, set}
use ya_risc_v.Bytes.{Bytes, byte, test_bits, clear_bits, copy_bytes, add_bytes, bytes_to_big_int}
use ya_risc_v.Bytes.{compare_unsigned_bytes, signed_number_to_bytes, unsigned_big_int_to_bytes}
use ya_risc_v.Cpu.Csr
use ya_risc_v.Cpu.Pmp.{privilege_machine}
use ya_risc_v.Prelude.{is_eq}
use ya_risc_v.Cpu.Registers.{privilege_user, privilege_supervisor, set_program_counter}
use ya_risc_v.Cpu.Registers.{set_privilege_mode, cancel_instruction_retire}
use ya_risc_v.Cpu.CsrAccess.{in_mode}
use ya_risc_v.Cpu.CsrFile.{snapshot_control_and_status_register, write_control_and_status_register}
use ya_risc_v.Cpu.CsrFile.{privilege_mode_from_mpp_bits, mpp_bits_from_privilege_mode}
use ya_risc_v.Cpu.Types.{Registers}

-- Highest priority first: MEI, MSI, MTI, SEI, SSI, STI.
abbrev pub interrupt_priority : List ℕ
interrupt_priority = 11 ∷ 3 ∷ 7 ∷ 9 ∷ 1 ∷ 5 ∷ []

unfoldable pub exception_cause_bytes : ℕ → Bytes
unfolding signed_number_to_bytes
exception_cause_bytes code = signed_number_to_bytes code 32

unfoldable pub interrupt_cause_bytes : ℕ → Bytes
unfolding unsigned_big_int_to_bytes
interrupt_cause_bytes code = unsigned_big_int_to_bytes (bit_or (2 ^ 63) code)

unfoldable pub csr_bit_is_set : Bytes → ℕ → Bool
unfolding bytes_to_big_int
csr_bit_is_set csr bit = test_bits (bytes_to_big_int csr) (2 ^ bit)

unfoldable pub ecall_cause_for_privilege : Registers → ℕ
unfolding compare_unsigned_bytes privilege_user privilege_supervisor
ecall_cause_for_privilege registers =
    if in_mode registers privilege_user
    then 8
    else if in_mode registers privilege_supervisor
    then 9
    else 11

unfoldable pub should_delegate_exception_to_supervisor : Registers → ℕ → Bool
unfolding compare_unsigned_bytes privilege_machine snapshot_control_and_status_register
    bytes_to_big_int
should_delegate_exception_to_supervisor registers cause =
    if in_mode registers privilege_machine
    then false
    else test_bits (bytes_to_big_int (snapshot_control_and_status_register registers Csr.medeleg))
        (2 ^ cause)

-- MPIE is bit 7 and MIE bit 3 of byte 0; MPP is `& 0x18` of byte 1.
unfoldable pub enter_mstatus : Bytes → Bytes → Bytes
unfolding mpp_bits_from_privilege_mode
enter_mstatus mstatus mode =
    let saved =
      if test_bits (byte mstatus 0) 0x08
      then bit_or (byte mstatus 0) 0x80
      else clear_bits (byte mstatus 0) 0x80 in
    let masked = set mstatus 0 (clear_bits saved 0x08) in
    set masked 1 (bit_or (clear_bits (byte masked 1) 0x18) (mpp_bits_from_privilege_mode mode))

unfoldable pub apply_trap_entry_to_mstatus : Registers → Registers
unfolding enter_mstatus snapshot_control_and_status_register write_control_and_status_register
apply_trap_entry_to_mstatus registers = write_control_and_status_register registers Csr.mstatus (
    enter_mstatus (snapshot_control_and_status_register registers Csr.mstatus)
      registers.privilege_mode)

-- SPIE is bit 5 and SIE bit 1 of byte 0; SPP is bit 0 of byte 1.
unfoldable pub enter_sstatus : Bytes → Bytes → Bytes
unfolding compare_unsigned_bytes privilege_supervisor
enter_sstatus mstatus mode =
    let saved =
      if test_bits (byte mstatus 0) 0x02
      then bit_or (byte mstatus 0) 0x20
      else clear_bits (byte mstatus 0) 0x20 in
    let masked = set mstatus 0 (clear_bits saved 0x02) in
    set masked 1 (
      if is_eq (compare_unsigned_bytes mode privilege_supervisor)
      then bit_or (byte masked 1) 0x01
      else clear_bits (byte masked 1) 0x01)

unfoldable pub apply_trap_entry_to_sstatus : Registers → Registers
unfolding enter_sstatus snapshot_control_and_status_register write_control_and_status_register
apply_trap_entry_to_sstatus registers = write_control_and_status_register registers Csr.mstatus (
    enter_sstatus (snapshot_control_and_status_register registers Csr.mstatus)
      registers.privilege_mode)

-- MPRV is bit 1 of byte 2.
unfoldable pub leave_mstatus : Bytes → Bytes → Bytes
unfolding compare_unsigned_bytes privilege_machine
leave_mstatus mstatus previous =
    let restored =
      if test_bits (byte mstatus 0) 0x80
      then bit_or (byte mstatus 0) 0x08
      else clear_bits (byte mstatus 0) 0x08 in
    let enabled = set mstatus 0 (bit_or restored 0x80) in
    let lowered = set enabled 1 (bit_or (clear_bits (byte enabled 1) 0x18) 0) in
    set lowered 2 (
      if not (is_eq (compare_unsigned_bytes previous privilege_machine))
      then clear_bits (byte lowered 2) 0x02
      else byte lowered 2)

unfoldable pub apply_machine_return_to_mstatus : Registers → Registers
unfolding leave_mstatus snapshot_control_and_status_register write_control_and_status_register
    privilege_mode_from_mpp_bits set_privilege_mode
apply_machine_return_to_mstatus registers =
    let mstatus = snapshot_control_and_status_register registers Csr.mstatus in
    let previous = privilege_mode_from_mpp_bits (bit_and (byte mstatus 1) 0x18) in
    set_privilege_mode
      (write_control_and_status_register registers Csr.mstatus (leave_mstatus mstatus previous))
      previous

unfoldable pub leave_sstatus : Bytes → Bytes
leave_sstatus mstatus =
    let restored =
      if test_bits (byte mstatus 0) 0x20
      then bit_or (byte mstatus 0) 0x02
      else clear_bits (byte mstatus 0) 0x02 in
    let enabled = set mstatus 0 (bit_or restored 0x20) in
    let lowered = set enabled 1 (clear_bits (byte enabled 1) 0x01) in
    set lowered 2 (clear_bits (byte lowered 2) 0x02)

unfoldable pub apply_supervisor_return_to_sstatus : Registers → Registers
unfolding leave_sstatus snapshot_control_and_status_register write_control_and_status_register
    privilege_supervisor privilege_user set_privilege_mode
apply_supervisor_return_to_sstatus registers =
    let mstatus = snapshot_control_and_status_register registers Csr.mstatus in
    set_privilege_mode
      (write_control_and_status_register registers Csr.mstatus (leave_sstatus mstatus))
      (if test_bits (byte mstatus 1) 0x01 then privilege_supervisor else privilege_user)

unfoldable pub trap_handler_program_counter : Bytes → Bytes → Bytes
unfolding copy_bytes bytes_to_big_int add_bytes signed_number_to_bytes
trap_handler_program_counter xtvec cause =
    let handler = copy_bytes xtvec in
    let mode = bit_and (byte handler 0) 0x03 in
    let base = set handler 0 (clear_bits (byte handler 0) 0x03) in
    let cause_value = bytes_to_big_int cause in
    if mode == 0x01 && test_bits cause_value (2 ^ 63)
    then add_bytes base (signed_number_to_bytes (cause_value % 256 * 4) 32)
    else base

unfoldable pub enter_machine_trap : Registers → Bytes → Bytes → Registers
unfolding write_control_and_status_register apply_trap_entry_to_mstatus set_privilege_mode
    set_program_counter trap_handler_program_counter snapshot_control_and_status_register
    privilege_machine
enter_machine_trap registers cause trap_value =
    let a = write_control_and_status_register registers Csr.mepc registers.program_counter in
    let b = write_control_and_status_register a Csr.mcause cause in
    let c = write_control_and_status_register b Csr.mtval trap_value in
    let d = set_privilege_mode (apply_trap_entry_to_mstatus c) privilege_machine in
    set_program_counter d
      (trap_handler_program_counter (snapshot_control_and_status_register d Csr.mtvec) cause)

unfoldable pub enter_supervisor_trap : Registers → Bytes → Bytes → Registers
unfolding write_control_and_status_register apply_trap_entry_to_sstatus set_privilege_mode
    set_program_counter trap_handler_program_counter snapshot_control_and_status_register
    privilege_supervisor
enter_supervisor_trap registers cause trap_value =
    let a = write_control_and_status_register registers Csr.sepc registers.program_counter in
    let b = write_control_and_status_register a Csr.scause cause in
    let c = write_control_and_status_register b Csr.stval trap_value in
    let d = set_privilege_mode (apply_trap_entry_to_sstatus c) privilege_supervisor in
    set_program_counter d
      (trap_handler_program_counter (snapshot_control_and_status_register d Csr.stvec) cause)

unfoldable pub enter_trap : Registers → ℕ → Bytes → Registers
unfolding cancel_instruction_retire exception_cause_bytes enter_supervisor_trap enter_machine_trap
    should_delegate_exception_to_supervisor
enter_trap registers cause trap_value =
    let aborted = cancel_instruction_retire registers in
    if should_delegate_exception_to_supervisor aborted cause
    then enter_supervisor_trap aborted (exception_cause_bytes cause) trap_value
    else enter_machine_trap aborted (exception_cause_bytes cause) trap_value

-- `none` is the `false` of the source: the instruction may be fetched.
unfoldable pub trap_if_instruction_address_misaligned : Registers → Option Registers
unfolding enter_trap copy_bytes
trap_if_instruction_address_misaligned registers =
    let pc = registers.program_counter in
    if bit_and (byte pc 0) 0x01 == 0 then none else some (enter_trap registers 0 (copy_bytes pc))

pub record TakeableInterrupt : Type 0 where
  pub code : ℕ
  pub to_supervisor : Bool

pub record InterruptGateContext : Type 0 where
  pub in_machine : Bool
  pub in_supervisor : Bool
  pub mie_global : Bool
  pub sie_global : Bool

unfoldable pub supervisor_interrupt_is_globally_enabled : InterruptGateContext → Bool
supervisor_interrupt_is_globally_enabled ctx =
    if ctx.in_machine then false else if ctx.in_supervisor then ctx.sie_global else true

unfoldable pub machine_interrupt_is_globally_enabled : InterruptGateContext → Bool
machine_interrupt_is_globally_enabled ctx = not ctx.in_machine || ctx.mie_global

-- The body of the loop over the priorities: what is pending and enabled, and what is delegated.
unfoldable pub select_loop :
    InterruptGateContext → (ℕ → Bool) → (ℕ → Bool) → List ℕ → Option TakeableInterrupt
unfolding supervisor_interrupt_is_globally_enabled machine_interrupt_is_globally_enabled
select_loop ctx ready delegated [] = none
select_loop ctx ready delegated (code ∷ codes) =
    let rest = select_loop ctx ready delegated codes in
    if not (ready code)
    then rest
    else if delegated code
    then (if supervisor_interrupt_is_globally_enabled ctx
        then some (record { code = code; to_supervisor = true })
        else rest)
    else if machine_interrupt_is_globally_enabled ctx
    then some (record { code = code; to_supervisor = false })
    else rest

abbrev pub pending_and_enabled : Registers → ℕ → Bool
pending_and_enabled registers code =
    csr_bit_is_set (snapshot_control_and_status_register registers Csr.mip) code
    && csr_bit_is_set (snapshot_control_and_status_register registers Csr.mie) code

abbrev pub is_delegated : Registers → ℕ → Bool
is_delegated registers code =
    csr_bit_is_set (snapshot_control_and_status_register registers Csr.mideleg) code

abbrev pub gate_context : Registers → InterruptGateContext
gate_context registers =
    let mstatus = snapshot_control_and_status_register registers Csr.mstatus in
    record {
      in_machine = in_mode registers privilege_machine;
      in_supervisor = in_mode registers privilege_supervisor;
      mie_global = test_bits (byte mstatus 0) 0x08;
      sie_global = test_bits (byte mstatus 0) 0x02;
    }

unfoldable pub select_takeable_interrupt : Registers → Option TakeableInterrupt
unfolding select_loop csr_bit_is_set snapshot_control_and_status_register compare_unsigned_bytes
    privilege_machine privilege_supervisor
select_takeable_interrupt registers =
    select_loop (gate_context registers) (pending_and_enabled registers) (is_delegated registers)
      interrupt_priority

unfoldable pub any_ready : (ℕ → Bool) → List ℕ → Bool
any_ready ready [] = false
any_ready ready (code ∷ codes) = ready code || any_ready ready codes

unfoldable pub is_pending_enabled_interrupt : Registers → Bool
unfolding any_ready csr_bit_is_set snapshot_control_and_status_register
is_pending_enabled_interrupt registers =
    any_ready (pending_and_enabled registers) interrupt_priority

abbrev zero_trap_value : Bytes
zero_trap_value = signed_number_to_bytes 0 32

-- `none` is the `false` of the source: nothing was taken.
unfoldable pub take_interrupt_if_any : Registers → Option Registers
unfolding select_takeable_interrupt enter_supervisor_trap enter_machine_trap interrupt_cause_bytes
    signed_number_to_bytes
take_interrupt_if_any registers = elim (select_takeable_interrupt registers) [
  | none ↦ none
  | some takeable ↦
      if takeable.to_supervisor
      then some
          (enter_supervisor_trap registers (interrupt_cause_bytes takeable.code) zero_trap_value)
      else some (enter_machine_trap registers (interrupt_cause_bytes takeable.code) zero_trap_value)
]

unfoldable pub return_from_machine_trap : Registers → Registers
unfolding apply_machine_return_to_mstatus set_program_counter snapshot_control_and_status_register
return_from_machine_trap registers =
    let restored = apply_machine_return_to_mstatus registers in
    set_program_counter restored (snapshot_control_and_status_register restored Csr.mepc)

unfoldable pub return_from_supervisor_trap : Registers → Registers
unfolding apply_supervisor_return_to_sstatus set_program_counter
    snapshot_control_and_status_register
return_from_supervisor_trap registers =
    let restored = apply_supervisor_return_to_sstatus registers in
    set_program_counter restored (snapshot_control_and_status_register restored Csr.sepc)
