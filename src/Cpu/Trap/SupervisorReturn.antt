-- ===== src/Cpu/Trap/SupervisorReturn.antt =====
-- Trap entry to S followed by the return: what `sret` gives back.
use ya_risc_v.Prelude.{ℕ, ◌%◌, ◌<◌, ◌≡◌, ◌≢◌, refl, ap, bit_and, bit_or, Bool, true, ◌||◌}
use ya_risc_v.Prelude.{if◌then◌else◌, ◌==◌, ◌!=◌, all_below, byte_table, all_below_sound, arith}
use ya_risc_v.Bytes.{Bytes, byte, test_bits, clear_bits, copy_bytes}
use ya_risc_v.Bytes.Value.{IsWord}
use ya_risc_v.Cpu.Csr
use ya_risc_v.Cpu.Types.{Registers}
use ya_risc_v.Cpu.Mode.{Mode, user, supervisor, machine, mode_bytes, in_mode_of, by_mode}
use ya_risc_v.Cpu.Registers.{privilege_user, privilege_supervisor}
use ya_risc_v.Cpu.CsrFile.{legalize_xepc}
use ya_risc_v.Cpu.Trap.{enter_supervisor_trap, return_from_supervisor_trap}
use ya_risc_v.Cpu.Trap.Return.{status_byte, legalize_xepc-even, legal_mpp}

abbrev entered_sie : ℕ → ℕ
entered_sie x = clear_bits (if test_bits x 0x02 then bit_or x 0x20 else clear_bits x 0x20) 0x02

abbrev returned_sie : ℕ → ℕ
returned_sie x = bit_or (if test_bits x 0x20 then bit_or x 0x02 else clear_bits x 0x02) 0x20

sie_restored : (x : ℕ) → x < 256 → returned_sie (entered_sie x) ≡ bit_or x 0x20
unfolding all_below
sie_restored = byte_table (λ x. returned_sie (entered_sie x)) (λ x. bit_or x 0x20) refl

-- SPP at entry from U and from S.
abbrev entered_spp : Mode → ℕ → ℕ
entered_spp supervisor x = legal_mpp (bit_or x 0x01)
entered_spp m x = legal_mpp (clear_bits x 0x01)

-- What `sret` makes of byte 1.
abbrev returned_spp : ℕ → ℕ
returned_spp x = legal_mpp (clear_bits x 0x01)

user_spp : (x : ℕ) → x < 256 → bit_and (entered_spp user x) 0x01 ≡ 0
unfolding all_below
user_spp = byte_table (λ x. bit_and (entered_spp user x) 0x01) (λ x. 0) refl

supervisor_spp : (x : ℕ) → x < 256 → bit_and (entered_spp supervisor x) 0x01 ≡ 1
unfolding all_below
supervisor_spp = byte_table (λ x. bit_and (entered_spp supervisor x) 0x01) (λ x. 1) refl

-- SPP is cleared; the rest of a legal byte stays.
abbrev spp_test : Mode → ℕ → Bool
spp_test m x = bit_and x 0x18 == 0x10 || returned_spp (entered_spp m x) == clear_bits x 0x01

spp_table : (m : Mode) → m ≢ machine → all_below (spp_test m) 256 ≡ true
unfolding all_below
spp_table user h = refl
spp_table supervisor h = refl
spp_table machine h = absurd (h refl)

spp_cleared :
    (m : Mode)
    → m ≢ machine
    → (x : ℕ) → x < 256
    → bit_and x 0x18 ≢ 0x10
    → returned_spp (entered_spp m x) ≡ clear_bits x 0x01
spp_cleared m h x lt legal = ground (arith, all_below_sound (spp_test m) 256 (spp_table m h) x lt)

abbrev from_spp : ℕ → Bytes
from_spp spp = copy_bytes (if spp != 0 then privilege_supervisor else privilege_user)

-- What the hart has again after a supervisor trap and its return.
pub record IsResumedBelow (before after : Registers) : Type 0 where
  pub pc : after.program_counter ≡ before.program_counter
  pub mode : after.privilege_mode ≡ before.privilege_mode
  pub general : after.general_purpose ≡ before.general_purpose
  pub enables : status_byte after 0 ≡ bit_or (status_byte before 0) 0x20
  pub spp : status_byte after 1 ≡ clear_bits (status_byte before 1) 0x01
  pub mprv : status_byte after 2 ≡ clear_bits (status_byte before 2) 0x02

module _ (r : Registers) (cause trap_value : Bytes) (pc_word : IsWord r.program_counter)
    (even : byte r.program_counter 0 % 2 ≡ 0)
    (status_word : IsWord (r.control_and_status Csr.mstatus))
    (legal : bit_and (status_byte r 1) 0x18 ≢ 0x10) where
  abbrev trip : Mode → Registers
  trip m = return_from_supervisor_trap (enter_supervisor_trap (in_mode_of r m) cause trap_value)

  trip-mode : (m : Mode) → m ≢ machine → (trip m).privilege_mode ≡ mode_bytes m
  unfolding return_from_supervisor_trap enter_supervisor_trap mode_bytes
  trip-mode user h = ap from_spp (user_spp (status_byte r 1) (status_word.bytes 1))
  trip-mode supervisor h = ap from_spp (supervisor_spp (status_byte r 1) (status_word.bytes 1))
  trip-mode machine h = absurd (h refl)

  trip-spp : (m : Mode) → m ≢ machine → status_byte (trip m) 1 ≡ clear_bits (status_byte r 1) 0x01
  unfolding return_from_supervisor_trap enter_supervisor_trap mode_bytes
  trip-spp user h = spp_cleared user h (status_byte r 1) (status_word.bytes 1) legal
  trip-spp supervisor h = spp_cleared supervisor h (status_byte r 1) (status_word.bytes 1) legal
  trip-spp machine h = absurd (h refl)

  trip-IsResumedBelow : (m : Mode) → m ≢ machine → IsResumedBelow (in_mode_of r m) (trip m)
  unfolding return_from_supervisor_trap enter_supervisor_trap legalize_xepc
  trip-IsResumedBelow m h = record {
    pc = legalize_xepc-even pc_word even;
    mode = trip-mode m h;
    general = refl;
    enables = sie_restored (status_byte r 0) (status_word.bytes 0);
    spp = trip-spp m h;
    mprv = refl;
  }

-- A supervisor trap taken in S or U at an even program counter, with a legal MPP, followed at once
-- by `sret`, resumes there: program counter, privilege mode and general registers are as before,
-- SIE is restored with SPIE set, SPP is left at U and MPRV is cleared. The program
-- counter and `mstatus` are words.
pub return-enter_supervisor_trap :
    (r : Registers) (m : Mode) (cause trap_value : Bytes)
    → r.privilege_mode ≡ mode_bytes m
    → m ≢ machine
    → IsWord r.program_counter
    → byte r.program_counter 0 % 2 ≡ 0
    → IsWord (r.control_and_status Csr.mstatus)
    → bit_and (byte (r.control_and_status Csr.mstatus) 1) 0x18 ≢ 0x10
    → IsResumedBelow r (return_from_supervisor_trap (enter_supervisor_trap r cause trap_value))
return-enter_supervisor_trap r m cause trap_value h below p e w legal =
    by_mode
      (λ t.
        IsResumedBelow t (return_from_supervisor_trap (enter_supervisor_trap t cause trap_value)))
      r m h (trip-IsResumedBelow r cause trap_value p e w legal m below)
