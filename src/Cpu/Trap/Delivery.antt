-- ===== src/Cpu/Trap/Delivery.antt =====
-- What a trap leaves in the registers, and for which mode.
use ya_risc_v.Prelude.{
  ℕ, ◌^◌, ◌≡◌, refl, arith, Bool, true, false, if◌then◌else◌, ◌==◌, suc, bit_and-pow, ap,
  bit_and_ones, set, zero, ◌*◌, ◌/◌, ◌%◌, ◌<◌, ◌!=◌, ◌∙◌,
}
use ya_risc_v.Prelude.{◌||◌, not, ◌&&◌}
use ya_risc_v.Bytes.{
  byte, Bytes, copy_bytes, bytes_to_big_int, test_bits, add_bytes, signed_number_to_bytes,
  clear_bits,
}
use native.Mathlib.Nat.{one-le-pow}
use ya_risc_v.Cpu.Csr
use ya_risc_v.Cpu.CsrAccess.{in_mode}
use ya_risc_v.Cpu.CsrFile.{write_control_and_status_register, legalize_xepc}
use ya_risc_v.Cpu.CsrFile.{snapshot_control_and_status_register}
use ya_risc_v.Cpu.Pmp.{privilege_machine}
use ya_risc_v.Cpu.Registers.{privilege_supervisor, cancel_instruction_retire, set_privilege_mode}
use ya_risc_v.Cpu.Registers.{set_program_counter}
use ya_risc_v.Cpu.Trap.{
  enter_trap, enter_machine_trap, enter_supervisor_trap, exception_cause_bytes,
  trap_handler_program_counter, should_delegate_exception_to_supervisor,
  apply_trap_entry_to_mstatus, apply_trap_entry_to_sstatus,
}
use ya_risc_v.Cpu.Types.{Registers}

-- The registers of the target mode, supervisor or machine, that a trap writes.
abbrev pub epc : Bool → ℕ
epc delegated = if delegated then Csr.sepc else Csr.mepc

abbrev pub cause_register : Bool → ℕ
cause_register delegated = if delegated then Csr.scause else Csr.mcause

abbrev pub value_register : Bool → ℕ
value_register delegated = if delegated then Csr.stval else Csr.mtval

abbrev pub vector : Bool → ℕ
vector delegated = if delegated then Csr.stvec else Csr.mtvec

-- Where the handler of a trap starts: at the base, or for an interrupt in vectored mode four bytes
-- further for each code. The top bit of a cause marks an interrupt.
abbrev pub handler_of : Bytes → Bytes → Bytes
handler_of xtvec cause =
    let base = set xtvec 0 (clear_bits (byte xtvec 0) 0x03) in
    let number = bytes_to_big_int cause in
    if byte xtvec 0 % 4 == 1 && number / 2 ^ 63 % 2 == 1
    then add_bytes base (signed_number_to_bytes (number % 256 * 4) 32)
    else base

bit_test_of : (parity power : ℕ) → parity < 2 → 0 < power → (parity * power != 0) ≡ (parity == 1)
bit_test_of zero power small positive = ground arith
bit_test_of (suc zero) power small positive = ground arith
bit_test_of (suc (suc parity)) power small positive = absurd (omega arith)

pub bit_test : (k x : ℕ) → test_bits x (2 ^ k) ≡ (x / 2 ^ k % 2 == 1)
bit_test k x =
    ap (λ (t : ℕ). t != 0) (bit_and-pow k x)
    ∙ bit_test_of (x / 2 ^ k % 2) (2 ^ k) (omega arith) (one-le-pow k 2 (omega arith))

trap_handler_program_counter-handler_of :
    (xtvec cause : Bytes)
    → trap_handler_program_counter (copy_bytes xtvec) cause ≡ handler_of (copy_bytes xtvec) cause
unfolding trap_handler_program_counter copy_bytes
trap_handler_program_counter-handler_of xtvec cause =
    rw (bit_and_ones 2 (byte xtvec 0), bit_test 63 (bytes_to_big_int cause)) refl

-- `retires` is what the trap leaves of the flag that the instruction retires.
pub record IsDelivered (before after : Registers) (delegated retires : Bool) (cause value : Bytes)
    : Type 0 where
  pub mode :
      after.privilege_mode
      ≡ copy_bytes (if delegated then privilege_supervisor else privilege_machine)
  pub address :
      after.control_and_status (epc delegated)
      ≡ copy_bytes (legalize_xepc (copy_bytes before.program_counter))
  pub reason : after.control_and_status (cause_register delegated) ≡ copy_bytes cause
  pub details : after.control_and_status (value_register delegated) ≡ copy_bytes value
  pub handler :
      after.program_counter
      ≡ copy_bytes (handler_of (copy_bytes (before.control_and_status (vector delegated))) cause)
  pub general : after.general_purpose ≡ before.general_purpose
  pub retired : after.retire_instruction ≡ retires
  pub others :
      (index : ℕ)
      → (index == epc delegated
          || index == cause_register delegated
          || index == value_register delegated
          || index == Csr.mstatus)
        ≡ false
      → after.control_and_status index ≡ before.control_and_status index

-- Four writes, none of them to the slot that is read.
elsewhere :
    (p q s t : Bool) (a b c d e : Bytes)
    → (p || q || s || t) ≡ false
    → (if t then d else if s then c else if q then b else if p then a else e) ≡ e
elsewhere p q s t a b c d e h = ground arith

module _ (r : Registers) (retires : Bool) (cause value : Bytes) where
  pub machine-IsDelivered :
      IsDelivered r
        (enter_machine_trap (record r { retire_instruction = retires }) cause value)
        false
        retires
        cause
        value
  unfolding enter_machine_trap write_control_and_status_register apply_trap_entry_to_mstatus
      set_privilege_mode set_program_counter snapshot_control_and_status_register
  machine-IsDelivered = record {
    mode = refl;
    address = refl;
    reason = refl;
    details = refl;
    handler =
        ap copy_bytes
          (trap_handler_program_counter-handler_of (r.control_and_status Csr.mtvec) cause);
    general = refl;
    retired = refl;
    others = λ index h.
        elsewhere (index == Csr.mepc) (index == Csr.mcause) (index == Csr.mtval)
          (index == Csr.mstatus) _ _ _ _ (r.control_and_status index) h;
  }

  pub supervisor-IsDelivered :
      IsDelivered r
        (enter_supervisor_trap (record r { retire_instruction = retires }) cause value)
        true
        retires
        cause
        value
  unfolding enter_supervisor_trap write_control_and_status_register apply_trap_entry_to_sstatus
      set_privilege_mode set_program_counter snapshot_control_and_status_register
  supervisor-IsDelivered = record {
    mode = refl;
    address = refl;
    reason = refl;
    details = refl;
    handler =
        ap copy_bytes
          (trap_handler_program_counter-handler_of (r.control_and_status Csr.stvec) cause);
    general = refl;
    retired = refl;
    others = λ index h.
        elsewhere (index == Csr.sepc) (index == Csr.scause) (index == Csr.stval)
          (index == Csr.mstatus) _ _ _ _ (r.control_and_status index) h;
  }

module _ (r : Registers) (cause value : Bytes) where
  either-IsDelivered :
      (in_machine bit : Bool)
      → IsDelivered r
          (if (if in_machine then false else bit)
            then enter_supervisor_trap (cancel_instruction_retire r) cause value
            else enter_machine_trap (cancel_instruction_retire r) cause value)
          (not in_machine && bit)
          false
          cause
          value
  unfolding cancel_instruction_retire
  either-IsDelivered true bit = machine-IsDelivered r false cause value
  either-IsDelivered false true = supervisor-IsDelivered r false cause value
  either-IsDelivered false false = machine-IsDelivered r false cause value

-- Whether an exception goes to supervisor mode: not from machine mode, and only by its bit of
-- `medeleg`.
abbrev pub is_delegated_exception : Registers → ℕ → Bool
is_delegated_exception r cause =
    not (in_mode r privilege_machine)
    && test_bits (bytes_to_big_int (copy_bytes (r.control_and_status Csr.medeleg))) (2 ^ cause)

-- An exception is delivered to supervisor mode if it comes from a lower mode than machine and its
-- bit of `medeleg` is set, and to machine mode otherwise: the mode and its `epc`, `cause` and `tval`
-- registers are set, the program counter is the handler that its `xtvec` gives for the cause, the
-- instruction does not retire, and no general register and no control and status register but these
-- and `mstatus` is changed.
pub enter_trap-IsDelivered :
    (r : Registers) (cause : ℕ) (value : Bytes)
    → IsDelivered r
        (enter_trap r cause value)
        (is_delegated_exception r cause)
        false
        (exception_cause_bytes cause)
        value
unfolding enter_trap should_delegate_exception_to_supervisor cancel_instruction_retire
enter_trap-IsDelivered r cause value =
    either-IsDelivered r (exception_cause_bytes cause) value (in_mode r privilege_machine)
      (test_bits (bytes_to_big_int (copy_bytes (r.control_and_status Csr.medeleg))) (2 ^ cause))
