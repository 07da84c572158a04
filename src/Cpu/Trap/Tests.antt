-- ===== src/Cpu/Trap/Tests.antt =====
-- The theorems on traps at a concrete hart.
use ya_risc_v.Prelude.{◌≡◌, ◌≢◌, refl, arith, some, bit_and, false}
use ya_risc_v.Bytes.{Bytes, zero_bytes, byte, unsigned_big_int_to_bytes}
use ya_risc_v.Bytes.Convert.{unsigned_big_int_to_bytes-IsWord}
use ya_risc_v.Bytes.Value.{IsWord}
use ya_risc_v.Cpu.Csr
use ya_risc_v.Cpu.Types.{Registers, set_csr}
use ya_risc_v.Cpu.Mode.{supervisor, mode_bytes}
use ya_risc_v.Cpu.Registers.{create_registers}
use ya_risc_v.Cpu.Trap.{enter_machine_trap, return_from_machine_trap, enter_supervisor_trap}
use ya_risc_v.Cpu.Trap.{
  return_from_supervisor_trap, select_takeable_interrupt, exception_cause_bytes,
}
use ya_risc_v.Cpu.Trap.{take_interrupt_if_any}
use ya_risc_v.Cpu.Trap.Return.{IsResumed, return-enter_machine_trap}
use ya_risc_v.Cpu.Trap.SupervisorReturn.{IsResumedBelow, return-enter_supervisor_trap}
use ya_risc_v.Prelude.{true}
use ya_risc_v.Bytes.{copy_bytes, bytes_to_big_int, compare_unsigned_bytes}
use ya_risc_v.Cpu.Trap.{enter_trap}
use ya_risc_v.Cpu.Trap.Delivery.{IsDelivered, is_delegated_exception, enter_trap-IsDelivered}
use ya_risc_v.Cpu.Trap.Taken.{IsTaken, take_interrupt_if_any-IsTaken}

-- A hart in S at 0x80000004 with MIE and SIE set, MPP = S, SEI and MTI pending and enabled, and
-- SEI delegated.
abbrev status : Bytes
status = unsigned_big_int_to_bytes 0x0a_0000_080a

abbrev hart : Registers
hart =
    let base = record create_registers {
      program_counter = unsigned_big_int_to_bytes 0x8000_0004;
      privilege_mode = mode_bytes supervisor;
    } in
    let a = set_csr base Csr.mstatus status in
    let b = set_csr a Csr.mip (unsigned_big_int_to_bytes 0x280) in
    let c = set_csr b Csr.mie (unsigned_big_int_to_bytes 0xaaa) in
    set_csr c Csr.mideleg (unsigned_big_int_to_bytes 0x222)

pc-IsWord : IsWord hart.program_counter
pc-IsWord = unsigned_big_int_to_bytes-IsWord 0x8000_0004

status-IsWord : IsWord (hart.control_and_status Csr.mstatus)
status-IsWord = unsigned_big_int_to_bytes-IsWord 0x0a_0000_080a

return-enter_machine_trap_example :
    IsResumed hart
      (return_from_machine_trap (enter_machine_trap hart (exception_cause_bytes 2) zero_bytes))
unfolding unsigned_big_int_to_bytes
return-enter_machine_trap_example =
    return-enter_machine_trap hart supervisor (exception_cause_bytes 2) zero_bytes refl pc-IsWord
      refl status-IsWord

status_legal : bit_and (byte (hart.control_and_status Csr.mstatus) 1) 0x18 ≢ 0x10
unfolding unsigned_big_int_to_bytes
status_legal = omega arith

return-enter_supervisor_trap_example :
    IsResumedBelow hart (
      return_from_supervisor_trap (enter_supervisor_trap hart (exception_cause_bytes 2) zero_bytes))
unfolding unsigned_big_int_to_bytes
return-enter_supervisor_trap_example =
    return-enter_supervisor_trap hart supervisor (exception_cause_bytes 2) zero_bytes refl
      (λ e. cc e) pc-IsWord refl status-IsWord status_legal

take_interrupt_if_any-IsTaken_example : IsTaken hart (take_interrupt_if_any hart)
take_interrupt_if_any-IsTaken_example = take_interrupt_if_any-IsTaken hart

-- The machine timer outranks the supervisor external interrupt.
timer_first : select_takeable_interrupt hart ≡ some (record { code = 7; to_supervisor = false })
unfolding select_takeable_interrupt unsigned_big_int_to_bytes mode_bytes create_registers
timer_first = refl

-- A breakpoint, which `medeleg` hands to supervisor mode.
abbrev delegating : Registers
delegating = set_csr hart Csr.medeleg (unsigned_big_int_to_bytes 0x8)

enter_trap-IsDelivered_example :
    IsDelivered delegating
      (enter_trap delegating 3 zero_bytes)
      (is_delegated_exception delegating 3)
      false
      (exception_cause_bytes 3)
      zero_bytes
enter_trap-IsDelivered_example = enter_trap-IsDelivered delegating 3 zero_bytes

delegated_breakpoint : is_delegated_exception delegating 3 ≡ true
unfolding unsigned_big_int_to_bytes bytes_to_big_int compare_unsigned_bytes mode_bytes copy_bytes
delegated_breakpoint = refl
