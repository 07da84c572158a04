-- ===== src/Cpu/Tests.antt =====
-- The theorems on the memory protection at a concrete hart, and runs.
use ya_risc_v.Prelude.{◌+◌, ◌≡◌, refl, true, false, arith}
use ya_risc_v.Bytes.{Bytes, bytes_to_big_int, unsigned_big_int_to_bytes}
use ya_risc_v.Cpu.Csr
use ya_risc_v.Cpu.CsrFile.{write_control_and_status_register}
use ya_risc_v.Cpu.CsrFile.Locked.{IsFrozen, write_control_and_status_register-IsFrozen}
use ya_risc_v.Cpu.Pmp.{
  load, store, config_byte, entry_range, entry_denies, physical_memory_access_denied,
}
use ya_risc_v.Prelude.{◌*◌, ◌^◌, some}
use ya_risc_v.Cpu.Pmp.{read_pmp_address}
use ya_risc_v.Cpu.Pmp.Napot.{entry_range-encoded}
use ya_risc_v.Cpu.Pmp.Decision.{IsDecided, physical_memory_access_denied-IsDecided}
use ya_risc_v.Cpu.Registers.{create_registers}
use ya_risc_v.Cpu.Types.{Registers, set_csr}

-- Entry 0 is locked, NAPOT and readable: 4 KiB at 0x8000_0000.
abbrev hart : Registers
hart =
    set_csr (set_csr create_registers Csr.pmpcfg0 (unsigned_big_int_to_bytes 0x99)) Csr.pmpaddr0
      (unsigned_big_int_to_bytes 0x2000_01ff)

abbrev inside : Bytes
inside = unsigned_big_int_to_bytes 0x8000_0ff8

physical_memory_access_denied-IsDecided_example :
    IsDecided hart
      (bytes_to_big_int inside)
      (bytes_to_big_int inside + 8)
      store
      0
      (physical_memory_access_denied hart inside 8 store)
physical_memory_access_denied-IsDecided_example =
    physical_memory_access_denied-IsDecided hart inside 8 store

load_inside : physical_memory_access_denied hart inside 8 load ≡ false
unfolding physical_memory_access_denied unsigned_big_int_to_bytes create_registers entry_range
    entry_denies
load_inside = refl

store_inside : physical_memory_access_denied hart inside 8 store ≡ true
unfolding physical_memory_access_denied unsigned_big_int_to_bytes create_registers entry_range
    entry_denies
store_inside = refl

load_across : physical_memory_access_denied hart inside 9 load ≡ true
unfolding physical_memory_access_denied unsigned_big_int_to_bytes create_registers entry_range
    entry_denies
load_across = refl

write_control_and_status_register-IsFrozen_example :
    IsFrozen hart 0 (write_control_and_status_register hart Csr.pmpcfg0 inside)
unfolding config_byte unsigned_big_int_to_bytes
write_control_and_status_register-IsFrozen_example =
    write_control_and_status_register-IsFrozen hart 0 (omega arith) refl Csr.pmpcfg0 inside

entry_range-encoded_example :
    entry_range hart 0
    ≡ some (record { low = 0x8_0000 * 2 ^ (9 + 3); high = 0x8_0000 * 2 ^ (9 + 3) + 2 ^ (9 + 3) })
unfolding config_byte read_pmp_address bytes_to_big_int unsigned_big_int_to_bytes
entry_range-encoded_example = entry_range-encoded hart 0 0x8_0000 9 refl refl (omega arith)
