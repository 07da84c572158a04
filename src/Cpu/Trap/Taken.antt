-- ===== src/Cpu/Trap/Taken.antt =====
-- What the step that takes an interrupt does to the registers.
use mathlib.Core.Path.{fun_ext, subst}
use ya_risc_v.Cpu.Csr
use ya_risc_v.Cpu.CsrAccess.{in_mode}
use ya_risc_v.Cpu.Registers.{privilege_supervisor}
use ya_risc_v.Cpu.Trap.Select.{
  AllFail, IsFirst, may_take, IsSelected, select_takeable_interrupt-IsSelected,
}
use ya_risc_v.Cpu.Trap.{
  gate_context, pending_and_enabled, interrupt_cause_bytes, is_delegated, csr_bit_is_set,
  enter_supervisor_trap, TakeableInterrupt, enter_machine_trap, select_takeable_interrupt,
  take_interrupt_if_any,
}
use ya_risc_v.Cpu.Types.{Registers}
use ya_risc_v.Bytes.Convert.{unsigned_big_int_to_bytes-IsWord, big_int_round_trip}
use ya_risc_v.Cpu.CsrFile.{snapshot_control_and_status_register, read_mip_with_plic_seip}
use ya_risc_v.Cpu.Pmp.{privilege_machine}
use ya_risc_v.Cpu.Trap.Delivery.{
  IsDelivered, vector, machine-IsDelivered, supervisor-IsDelivered, bit_test, handler_of,
}
use ya_risc_v.Bytes.{
  bytes_to_big_int, copy_bytes, unsigned_big_int_to_bytes, clear_bits, add_bytes,
  signed_number_to_bytes, Bytes, byte,
}
use ya_risc_v.Prelude.{
  List, Option, some, arith, bit_or_shifted, not, set, ap, Bool, none, ◌+◌, ◌*◌, ◌/◌, ◌^◌, ◌%◌, ◌<◌,
  ◌==◌, ◌&&◌, ◌||◌, ◌≡◌, ◌∙◌, ◌∷◌, [], if◌then◌else◌, ℕ, Bool-cases, inr, inl, true, ap₂, false,
}

-- The order of the privileged manual: machine external, software and timer, then the supervisor's.
abbrev pub standard_order : List ℕ
standard_order = 11 ∷ 3 ∷ 7 ∷ 9 ∷ 1 ∷ 5 ∷ []

-- A bit of a register, as a digit of its number.
abbrev pub digit : Bytes → ℕ → Bool
digit bytes bit = bytes_to_big_int (copy_bytes bytes) / 2 ^ bit % 2 == 1

abbrev pub is_set : Registers → ℕ → ℕ → Bool
is_set r csr bit = digit (r.control_and_status csr) bit

-- Pending in `mip`, with the external line of the PLIC, and enabled in `mie`; to S if delegated, from U, or from S with SIE; else to M, from below M, or
-- from M with MIE.
abbrev pub may_interrupt : Registers → ℕ → Bool
may_interrupt r code =
    let status = byte (copy_bytes (r.control_and_status Csr.mstatus)) 0 in
    digit (read_mip_with_plic_seip r) code
    && is_set r Csr.mie code
    && (if is_set r Csr.mideleg code
        then not (in_mode r privilege_machine)
          && (not (in_mode r privilege_supervisor) || status / 2 % 2 == 1)
        else not (in_mode r privilege_machine) || status / 2 ^ 3 % 2 == 1)

-- The handler of an interrupt: the base, or in vectored mode four bytes for each code after it.
abbrev pub vectored : Bytes → ℕ → Bytes
vectored xtvec code =
    let base = set xtvec 0 (clear_bits (byte xtvec 0) 0x03) in
    if byte xtvec 0 % 4 == 1 then add_bytes base (signed_number_to_bytes (code * 4) 32) else base

abbrev pub interrupt_cause : ℕ → Bytes
interrupt_cause code = unsigned_big_int_to_bytes (2 ^ 63 + code)

-- The outcome: none, when no interrupt may be taken, or the registers in which the first of the
-- order that may be taken is delivered.
pub data IsTaken (r : Registers) : Option Registers → Type 0 where
  refused : AllFail (may_interrupt r) standard_order → IsTaken r none
  delivered :
      (code : ℕ) (after : Registers)
      → IsFirst (may_interrupt r) standard_order code
      → IsDelivered r after
          (is_set r Csr.mideleg code)
          r.retire_instruction
          (interrupt_cause code)
          (signed_number_to_bytes 0 32)
      → after.program_counter
        ≡ copy_bytes
            (vectored (copy_bytes (r.control_and_status (vector (is_set r Csr.mideleg code)))) code)
      → IsTaken r (some after)

module _ (r : Registers) where
  delegated-is_set : (code : ℕ) → is_delegated r code ≡ is_set r Csr.mideleg code
  unfolding snapshot_control_and_status_register csr_bit_is_set
  delegated-is_set code =
      bit_test code (bytes_to_big_int (copy_bytes (r.control_and_status Csr.mideleg)))

  ready-digits :
      (code : ℕ)
      → pending_and_enabled r code
        ≡ (digit (read_mip_with_plic_seip r) code && is_set r Csr.mie code)
  unfolding snapshot_control_and_status_register csr_bit_is_set
  ready-digits code =
      ap₂ (λ a b. a && b)
        (bit_test code (bytes_to_big_int (copy_bytes (read_mip_with_plic_seip r))))
        (bit_test code (bytes_to_big_int (copy_bytes (r.control_and_status Csr.mie))))

  abbrev status : ℕ
  status = byte (copy_bytes (r.control_and_status Csr.mstatus)) 0

  mie_global-digit : (gate_context r).mie_global ≡ (status / 2 ^ 3 % 2 == 1)
  unfolding snapshot_control_and_status_register
  mie_global-digit = bit_test 3 status

  sie_global-digit : (gate_context r).sie_global ≡ (status / 2 % 2 == 1)
  unfolding snapshot_control_and_status_register
  sie_global-digit = bit_test 1 status

  may_take-may_interrupt :
      (code : ℕ)
      → may_take (gate_context r) (pending_and_enabled r) (is_delegated r) code
        ≡ may_interrupt r code
  may_take-may_interrupt code =
      ground (arith, ready-digits code, delegated-is_set code, mie_global-digit, sie_global-digit)

cause_is : (code : ℕ) → code < 64 → interrupt_cause_bytes code ≡ interrupt_cause code
unfolding interrupt_cause_bytes
cause_is code h = ap unsigned_big_int_to_bytes (bit_or_shifted 63 1 code (omega arith))

cause-value : (code : ℕ) → code < 64 → bytes_to_big_int (interrupt_cause code) ≡ 2 ^ 63 + code
cause-value code h =
    (big_int_round_trip (2 ^ 63 + code) (unsigned_big_int_to_bytes-IsWord 0)).0 ∙ omega arith

first_small : (p : ℕ → Bool) (code : ℕ) → IsFirst p standard_order code → code < 64
first_small p code first = ground (arith, first)

module _ (xtvec : Bytes) (code : ℕ) (h : code < 64) where
  handler-vectored :
      handler_of (copy_bytes xtvec) (interrupt_cause code) ≡ vectored (copy_bytes xtvec) code
  handler-vectored =
      let code_part : (2 ^ 63 + code) % 256 ≡ code = omega arith in
      let interrupt : (2 ^ 63 + code) / 2 ^ 63 % 2 ≡ 1 = omega arith in
      rw (cause-value code h, interrupt, code_part) (ground arith)

module _ (r : Registers) (code : ℕ) (small : code < 64)
    (first : IsFirst (may_interrupt r) standard_order code) where
  supervisor-IsTaken :
      is_set r Csr.mideleg code ≡ true
      → IsTaken r
          (some (enter_supervisor_trap r (interrupt_cause code) (signed_number_to_bytes 0 32)))
  unfolding enter_supervisor_trap copy_bytes
  supervisor-IsTaken to_s =
      let after = enter_supervisor_trap r (interrupt_cause code) (signed_number_to_bytes 0 32) in
      let entry =
        supervisor-IsDelivered r r.retire_instruction (interrupt_cause code)
          (signed_number_to_bytes 0 32) in
      delivered code after first (rw to_s entry) (
        rw to_s (
          entry.handler
          ∙ ap copy_bytes (handler-vectored (r.control_and_status Csr.stvec) code small)))

  machine-IsTaken :
      is_set r Csr.mideleg code ≡ false
      → IsTaken r (some (enter_machine_trap r (interrupt_cause code) (signed_number_to_bytes 0 32)))
  unfolding enter_machine_trap copy_bytes
  machine-IsTaken to_m =
      let after = enter_machine_trap r (interrupt_cause code) (signed_number_to_bytes 0 32) in
      let entry =
        machine-IsDelivered r r.retire_instruction (interrupt_cause code)
          (signed_number_to_bytes 0 32) in
      delivered code after first (rw to_m entry) (
        rw to_m (
          entry.handler
          ∙ ap copy_bytes (handler-vectored (r.control_and_status Csr.mtvec) code small)))

outcome-IsTaken :
    (r : Registers) (o : Option TakeableInterrupt)
    → IsSelected (may_interrupt r) (is_delegated r) standard_order o
    → IsTaken r (elim o [
      | none ↦ none
      | some takeable ↦
          if takeable.to_supervisor
          then some (
              enter_supervisor_trap r
                (interrupt_cause_bytes takeable.code)
                (signed_number_to_bytes 0 32))
          else some (
              enter_machine_trap r
                (interrupt_cause_bytes takeable.code)
                (signed_number_to_bytes 0 32))
    ])
outcome-IsTaken r none fails = refused fails
outcome-IsTaken r (some takeable) chosen =
    let code = takeable.code in
    let small = first_small (may_interrupt r) code chosen.0 in
    let target : takeable.to_supervisor ≡ is_set r Csr.mideleg code =
      chosen.1 ∙ delegated-is_set r code in
    elim (Bool-cases (is_set r Csr.mideleg code)) [
      | inl to_s ↦
          rw (target ∙ to_s, cause_is code small) (supervisor-IsTaken r code small chosen.0 to_s)
      | inr to_m ↦
          rw (target ∙ to_m, cause_is code small) (machine-IsTaken r code small chosen.0 to_m)
    ]

-- `takeInterruptIfAny` takes the first interrupt of the order MEI, MSI, MTI, SEI, SSI, STI that is
-- pending, enabled and globally enabled for the hart's mode and the interrupt's target, and nothing
-- exactly if there is none. The target is S if `mideleg` delegates the interrupt and M otherwise: its
-- mode, `epc`, `cause` and `tval` registers are set, the program counter is its handler, vectored by
-- the code where `xtvec` asks for it, and no general register, no control and status register but
-- these and `mstatus`, and not the flag that the instruction retires is changed.
pub take_interrupt_if_any-IsTaken : (r : Registers) → IsTaken r (take_interrupt_if_any r)
unfolding take_interrupt_if_any
take_interrupt_if_any-IsTaken r = outcome-IsTaken r (select_takeable_interrupt r) (
    subst
      (λ (p : ℕ → Bool). IsSelected p (is_delegated r) standard_order (select_takeable_interrupt r))
      (fun_ext (may_take-may_interrupt r)) (select_takeable_interrupt-IsSelected r))
