-- ===== src/Cpu/Registers.antt =====
-- src/emulator/cpu/registers.ts: general-purpose registers, program counter, retire counts, reset.
use ya_risc_v.Prelude.{ℕ, Bool, true, false, ◌==◌, if◌then◌else◌, set}
use ya_risc_v.Bytes.{Bytes, byte, zero_bytes, copy_bytes, add_bytes, signed_number_to_bytes}
use ya_risc_v.Bytes.{test_bits}
use ya_risc_v.Cpu.Csr
use ya_risc_v.Cpu.Masks.{misa_hardwired_bytes, stimecmp_disabled_bytes}
use ya_risc_v.Cpu.Pmp.{privilege_machine}
use ya_risc_v.Cpu.Types.{Registers, update, set_csr}

unfoldable pub privilege_user : Bytes
unfolding signed_number_to_bytes
privilege_user = signed_number_to_bytes 0 32

unfoldable pub privilege_supervisor : Bytes
unfolding signed_number_to_bytes
privilege_supervisor = signed_number_to_bytes 1 32

unfoldable pub register_one_bytes : Bytes
unfolding signed_number_to_bytes
register_one_bytes = signed_number_to_bytes 1 32

unfoldable pub write_general_purpose_register : Registers → ℕ → Bytes → Registers
unfolding copy_bytes
write_general_purpose_register registers index value =
    if index == 0 then registers else record registers {
      general_purpose = update registers.general_purpose index (copy_bytes value);
    }

abbrev pub read_general_purpose_register : Registers → ℕ → Bytes
read_general_purpose_register registers index = registers.general_purpose index

unfoldable pub set_boolean_general_purpose_register : Registers → ℕ → Bool → Registers
unfolding write_general_purpose_register register_one_bytes zero_bytes
set_boolean_general_purpose_register registers index condition =
    write_general_purpose_register registers index
      (if condition then register_one_bytes else zero_bytes)

unfoldable pub set_program_counter : Registers → Bytes → Registers
unfolding copy_bytes
set_program_counter registers value = record registers { program_counter = copy_bytes value }

unfoldable pub advance_program_counter : Registers → Bytes → Registers
unfolding add_bytes
advance_program_counter registers byte_length = record registers {
  program_counter = add_bytes registers.program_counter byte_length;
}

unfoldable pub set_privilege_mode : Registers → Bytes → Registers
unfolding copy_bytes
set_privilege_mode registers mode = record registers { privilege_mode = copy_bytes mode }

unfoldable pub begin_instruction_retire : Registers → Registers
begin_instruction_retire registers = record registers { retire_instruction = true }

unfoldable pub cancel_instruction_retire : Registers → Registers
cancel_instruction_retire registers = record registers { retire_instruction = false }

-- One counter, unless its bit of `mcountinhibit` freezes it.
abbrev pub count_retire : Registers → ℕ → ℕ → ℕ → Registers
count_retire registers inhibit bit counter =
    if test_bits inhibit bit
    then registers
    else set_csr registers counter
        (add_bytes (registers.control_and_status counter) register_one_bytes)

unfoldable pub commit_instruction_retire : Registers → Registers
unfolding add_bytes register_one_bytes
commit_instruction_retire registers =
    let inhibit = byte (registers.control_and_status Csr.mcountinhibit) 0 in
    let retired = record registers { retire_instruction = false } in
    let cycled = count_retire retired inhibit 0x01 Csr.mcycle in
    if registers.retire_instruction
    then count_retire cycled inhibit 0x04 Csr.minstret
    else registers

unfoldable pub retire_instruction_now : Registers → Registers
unfolding commit_instruction_retire
retire_instruction_now registers =
    commit_instruction_retire (record registers { retire_instruction = true })

unfoldable pub create_registers : Registers
unfolding zero_bytes copy_bytes misa_hardwired_bytes privilege_machine
create_registers = record {
  general_purpose = λ _. zero_bytes;
  program_counter = zero_bytes;
  control_and_status =
      update
        (update (update (λ _. zero_bytes) Csr.mstatus (set zero_bytes 4 0x0a)) Csr.misa
          (copy_bytes misa_hardwired_bytes))
        Csr.stimecmp (copy_bytes stimecmp_disabled_bytes);
  privilege_mode = copy_bytes privilege_machine;
  plic_supervisor_external_pending = false;
  published_supervisor_timer_compare = copy_bytes stimecmp_disabled_bytes;
  retire_instruction = false;
}
