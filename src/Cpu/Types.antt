-- ===== src/Cpu/Types.antt =====
-- src/emulator/cpu/types.ts: the architectural state of the hart.
-- `general_purpose` has indices 0 to 31 and `control_and_status` 0 to 4095.
use ya_risc_v.Prelude.{ℕ, Bool, ◌==◌, if◌then◌else◌}
use ya_risc_v.Bytes.{Bytes}

pub record Registers : Type 0 where
  pub general_purpose : ℕ → Bytes
  pub program_counter : Bytes
  pub control_and_status : ℕ → Bytes
  pub privilege_mode : Bytes
  pub plic_supervisor_external_pending : Bool
  pub published_supervisor_timer_compare : Bytes
  pub retire_instruction : Bool

-- A write to one slot of a register file.
abbrev pub update {ℓ} : {A : Type ℓ} → (ℕ → A) → ℕ → A → ℕ → A
update f k v i = if i == k then v else f i

abbrev pub set_csr : Registers → ℕ → Bytes → Registers
set_csr r index v = record r { control_and_status = update r.control_and_status index v }
