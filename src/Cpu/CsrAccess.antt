-- ===== src/Cpu/CsrAccess.antt =====
-- src/emulator/cpu/registers.ts: which CSRs exist, and who may read and write them.
use ya_risc_v.Prelude.{is_lt}
use ya_risc_v.Prelude.{ℕ, ◌/◌, ◌%◌, ◌^◌, Bool, true, false, not, ◌&&◌, ◌||◌, ◌==◌}
use ya_risc_v.Prelude.{if◌then◌else◌, List, [], ◌∷◌}
use ya_risc_v.Bytes.{Bytes, byte, test_bits, compare_unsigned_bytes, signed_number_to_bytes}
use ya_risc_v.Cpu.Csr
use ya_risc_v.Cpu.Pmp.{privilege_machine, is_pmp_control_and_status_register}
use ya_risc_v.Prelude.{is_eq}
use ya_risc_v.Cpu.Registers.{privilege_user, privilege_supervisor}
use ya_risc_v.Cpu.Types.{Registers}

-- The chain of `index === …` tests.
abbrev one_of : ℕ → List ℕ → Bool
one_of index [] = false
one_of index (x ∷ xs) = index == x || one_of index xs

unfoldable pub is_identity_control_and_status_register : ℕ → Bool
is_identity_control_and_status_register index =
    one_of index (Csr.mvendorid ∷ Csr.marchid ∷ Csr.mimpid ∷ Csr.mhartid ∷ [])

unfoldable pub is_unprivileged_counter_control_and_status_register : ℕ → Bool
is_unprivileged_counter_control_and_status_register index =
    one_of index (Csr.cycle ∷ Csr.time ∷ Csr.instret ∷ [])

abbrev supervisor_registers : List ℕ
supervisor_registers =
    Csr.cycle ∷ Csr.time ∷ Csr.instret ∷ Csr.sstatus ∷ Csr.sie ∷ Csr.stvec ∷ Csr.scounteren
    ∷ Csr.sscratch ∷ Csr.sepc ∷ Csr.scause ∷ Csr.stval ∷ Csr.sip ∷ Csr.stimecmp ∷ Csr.satp ∷ []

abbrev machine_registers : List ℕ
machine_registers =
    Csr.mstatus ∷ Csr.misa ∷ Csr.medeleg ∷ Csr.mideleg ∷ Csr.mie ∷ Csr.mtvec ∷ Csr.mcounteren
    ∷ Csr.mcountinhibit ∷ Csr.mscratch ∷ Csr.mepc ∷ Csr.mcause ∷ Csr.mtval ∷ Csr.mip ∷ Csr.menvcfg
    ∷ Csr.mcycle ∷ Csr.minstret ∷ []

unfoldable pub is_implemented_control_and_status_register : ℕ → Bool
unfolding is_identity_control_and_status_register
is_implemented_control_and_status_register index =
    one_of index supervisor_registers
    || one_of index machine_registers
    || is_identity_control_and_status_register index
    || is_pmp_control_and_status_register index

unfoldable pub is_read_only_control_and_status_register : ℕ → Bool
unfolding is_identity_control_and_status_register
    is_unprivileged_counter_control_and_status_register
is_read_only_control_and_status_register index =
    is_identity_control_and_status_register index
    || is_unprivileged_counter_control_and_status_register index

-- `PRIVILEGE_BY_CSR_LEVEL[(index >>> 8) & 0x3]`
unfoldable pub control_and_status_register_required_privilege : ℕ → Bytes
unfolding signed_number_to_bytes
control_and_status_register_required_privilege index = signed_number_to_bytes (index / 2 ^ 8 % 4) 32

abbrev pub counter_enable_bit : ℕ → ℕ
counter_enable_bit index =
    if index == Csr.cycle then 0x01 else if index == Csr.time then 0x02 else 0x04

abbrev pub below_machine : Registers → Bool
below_machine registers = is_lt (compare_unsigned_bytes registers.privilege_mode privilege_machine)

abbrev pub in_mode : Registers → Bytes → Bool
in_mode registers mode = is_eq (compare_unsigned_bytes registers.privilege_mode mode)

unfoldable pub is_counter_access_enabled : Registers → ℕ → Bool
unfolding compare_unsigned_bytes privilege_machine privilege_user
is_counter_access_enabled registers index =
    let enable_bit = counter_enable_bit index in
    if below_machine registers
      && not (test_bits (byte (registers.control_and_status Csr.mcounteren) 0) enable_bit)
    then false
    else if in_mode registers privilege_user
        && not (test_bits (byte (registers.control_and_status Csr.scounteren) 0) enable_bit)
    then false
    else true

unfoldable pub is_supervisor_timer_compare_enabled : Registers → Bool
is_supervisor_timer_compare_enabled registers =
    test_bits (byte (registers.control_and_status Csr.menvcfg) 7) 0x80

unfoldable pub is_satp_blocked_by_tvm : Registers → ℕ → Bool
unfolding compare_unsigned_bytes privilege_supervisor
is_satp_blocked_by_tvm registers index =
    index == Csr.satp
    && in_mode registers privilege_supervisor
    && test_bits (byte (registers.control_and_status Csr.mstatus) 2) 0x10

unfoldable pub is_control_and_status_register_access_allowed : Registers → ℕ → Bool → Bool
unfolding is_implemented_control_and_status_register control_and_status_register_required_privilege
    is_counter_access_enabled is_supervisor_timer_compare_enabled
    is_read_only_control_and_status_register is_satp_blocked_by_tvm
    is_unprivileged_counter_control_and_status_register compare_unsigned_bytes
is_control_and_status_register_access_allowed registers index writes =
    if not (is_implemented_control_and_status_register index)
    then false
    else if is_lt (
        compare_unsigned_bytes registers.privilege_mode
          (control_and_status_register_required_privilege index))
    then false
    else if index == Csr.stimecmp
        && below_machine registers
        && (not (is_supervisor_timer_compare_enabled registers)
            || not (is_counter_access_enabled registers Csr.time))
    then false
    else if writes && is_read_only_control_and_status_register index
    then false
    else if is_satp_blocked_by_tvm registers index
    then false
    else if is_unprivileged_counter_control_and_status_register index
        && not (is_counter_access_enabled registers index)
    then false
    else true
