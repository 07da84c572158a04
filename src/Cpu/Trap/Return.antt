-- ===== src/Cpu/Trap/Return.antt =====
-- Trap entry followed by the return: what `mret` gives back.
use ya_risc_v.Prelude.{ℕ, ◌%◌, ◌-◌, ◌<◌, ◌≡◌, refl, ap, ◌∙◌, arith, bit_and, bit_or}
use ya_risc_v.Prelude.{if◌then◌else◌, ◌==◌, all_below, byte_table, set}
use ya_risc_v.Bytes.{Bytes, byte, test_bits, clear_bits, copy_bytes}
use ya_risc_v.Bytes.Value.{IsWord, copy_bytes-word}
use ya_risc_v.Cpu.Csr
use ya_risc_v.Cpu.Types.{Registers}
use ya_risc_v.Cpu.Mode.{Mode, user, supervisor, machine, mode_bytes, in_mode_of, by_mode}
use ya_risc_v.Cpu.CsrFile.{legalize_xepc, privilege_mode_from_mpp_bits}
use ya_risc_v.Cpu.Trap.{enter_machine_trap, return_from_machine_trap}

abbrev pub status_byte : Registers → ℕ → ℕ
status_byte r i = byte (r.control_and_status Csr.mstatus) i

-- MPIE and MIE after entry, and after the return.
abbrev entered_mie : ℕ → ℕ
entered_mie x = clear_bits (if test_bits x 0x08 then bit_or x 0x80 else clear_bits x 0x80) 0x08

abbrev returned_mie : ℕ → ℕ
returned_mie x = bit_or (if test_bits x 0x80 then bit_or x 0x08 else clear_bits x 0x08) 0x80

mie_restored : (x : ℕ) → x < 256 → returned_mie (entered_mie x) ≡ bit_or x 0x80
unfolding all_below
mie_restored = byte_table (λ x. returned_mie (entered_mie x)) (λ x. bit_or x 0x80) refl

even_kept : (x : ℕ) → x < 256 → bit_and x 0xfe ≡ x - x % 2
unfolding all_below
even_kept = byte_table (λ x. bit_and x 0xfe) (λ x. x - x % 2) refl

-- An even program counter survives the legalisation of `mepc` and `sepc`.
pub legalize_xepc-even :
    {b : Bytes} → IsWord b → byte b 0 % 2 ≡ 0 → legalize_xepc (copy_bytes b) ≡ b
unfolding legalize_xepc copy_bytes
legalize_xepc-even {b} w even =
    ap (λ (t : ℕ). set (copy_bytes b) 0 t) (omega (arith, even_kept (byte b 0) (w.bytes 0)))
    ∙ copy_bytes-word w

-- The bits of MPP that hold a mode.
abbrev mode_mpp : Mode → ℕ
mode_mpp user = 0x00
mode_mpp supervisor = 0x08
mode_mpp machine = 0x18

abbrev pub legal_mpp : ℕ → ℕ
legal_mpp x = if bit_and x 0x18 == 0x10 then bit_or (clear_bits x 0x18) 0 else x

abbrev entered_mpp : Mode → ℕ → ℕ
entered_mpp m x = legal_mpp (bit_or (clear_bits x 0x18) (mode_mpp m))

mpp_restored : (m : Mode) (x : ℕ) → x < 256 → bit_and (entered_mpp m x) 0x18 ≡ mode_mpp m
unfolding all_below
mpp_restored user = byte_table (λ x. bit_and (entered_mpp user x) 0x18) (λ x. 0x00) refl
mpp_restored supervisor = byte_table (λ x. bit_and (entered_mpp supervisor x) 0x18) (λ x. 0x08) refl
mpp_restored machine = byte_table (λ x. bit_and (entered_mpp machine x) 0x18) (λ x. 0x18) refl

mpp_cleared :
    (m : Mode) (x : ℕ)
    → x < 256
    → legal_mpp (bit_or (clear_bits (entered_mpp m x) 0x18) 0) ≡ clear_bits x 0x18
unfolding all_below
mpp_cleared user =
    byte_table (λ x. legal_mpp (bit_or (clear_bits (entered_mpp user x) 0x18) 0))
      (λ x. clear_bits x 0x18) refl
mpp_cleared supervisor =
    byte_table (λ x. legal_mpp (bit_or (clear_bits (entered_mpp supervisor x) 0x18) 0))
      (λ x. clear_bits x 0x18) refl
mpp_cleared machine =
    byte_table (λ x. legal_mpp (bit_or (clear_bits (entered_mpp machine x) 0x18) 0))
      (λ x. clear_bits x 0x18) refl

mode_of_mpp : (m : Mode) → copy_bytes (privilege_mode_from_mpp_bits (mode_mpp m)) ≡ mode_bytes m
unfolding copy_bytes privilege_mode_from_mpp_bits mode_bytes
mode_of_mpp user = refl
mode_of_mpp supervisor = refl
mode_of_mpp machine = refl

-- What the hart has again after a machine trap and its return.
pub record IsResumed (before after : Registers) : Type 0 where
  pub pc : after.program_counter ≡ before.program_counter
  pub mode : after.privilege_mode ≡ before.privilege_mode
  pub general : after.general_purpose ≡ before.general_purpose
  pub enables : status_byte after 0 ≡ bit_or (status_byte before 0) 0x80
  pub mpp : status_byte after 1 ≡ clear_bits (status_byte before 1) 0x18

module _ (r : Registers) (cause trap_value : Bytes) (pc_word : IsWord r.program_counter)
    (even : byte r.program_counter 0 % 2 ≡ 0)
    (status_word : IsWord (r.control_and_status Csr.mstatus)) where
  abbrev trip : Mode → Registers
  trip m = return_from_machine_trap (enter_machine_trap (in_mode_of r m) cause trap_value)

  trip-pc : (m : Mode) → (trip m).program_counter ≡ r.program_counter
  unfolding return_from_machine_trap enter_machine_trap legalize_xepc
  trip-pc m = legalize_xepc-even pc_word even

  trip-mode : (m : Mode) → (trip m).privilege_mode ≡ mode_bytes m
  unfolding return_from_machine_trap enter_machine_trap mode_bytes
  trip-mode user =
      ap (λ (t : ℕ). copy_bytes (privilege_mode_from_mpp_bits t))
        (mpp_restored user (status_byte r 1) (status_word.bytes 1))
      ∙ mode_of_mpp user
  trip-mode supervisor =
      ap (λ (t : ℕ). copy_bytes (privilege_mode_from_mpp_bits t))
        (mpp_restored supervisor (status_byte r 1) (status_word.bytes 1))
      ∙ mode_of_mpp supervisor
  trip-mode machine =
      ap (λ (t : ℕ). copy_bytes (privilege_mode_from_mpp_bits t))
        (mpp_restored machine (status_byte r 1) (status_word.bytes 1))
      ∙ mode_of_mpp machine

  trip-enables : (m : Mode) → status_byte (trip m) 0 ≡ bit_or (status_byte r 0) 0x80
  unfolding return_from_machine_trap enter_machine_trap
  trip-enables m = mie_restored (status_byte r 0) (status_word.bytes 0)

  trip-mpp : (m : Mode) → status_byte (trip m) 1 ≡ clear_bits (status_byte r 1) 0x18
  unfolding return_from_machine_trap enter_machine_trap mode_bytes
  trip-mpp user = mpp_cleared user (status_byte r 1) (status_word.bytes 1)
  trip-mpp supervisor = mpp_cleared supervisor (status_byte r 1) (status_word.bytes 1)
  trip-mpp machine = mpp_cleared machine (status_byte r 1) (status_word.bytes 1)

  trip-general : (m : Mode) → (trip m).general_purpose ≡ r.general_purpose
  unfolding return_from_machine_trap enter_machine_trap
  trip-general m = refl

-- A machine trap taken at an even program counter in any of the three modes, followed at once by
-- `mret`, resumes there: program counter, privilege mode and general registers are as before, MIE
-- is restored with MPIE set, and MPP is left at U. The program counter and `mstatus` are words.
pub return-enter_machine_trap :
    (r : Registers) (m : Mode) (cause trap_value : Bytes)
    → r.privilege_mode ≡ mode_bytes m
    → IsWord r.program_counter
    → byte r.program_counter 0 % 2 ≡ 0
    → IsWord (r.control_and_status Csr.mstatus)
    → IsResumed r (return_from_machine_trap (enter_machine_trap r cause trap_value))
return-enter_machine_trap r m cause trap_value h p e w =
    by_mode (λ t. IsResumed t (return_from_machine_trap (enter_machine_trap t cause trap_value))) r
      m h
      record {
        pc = trip-pc r cause trap_value p e w m;
        mode = trip-mode r cause trap_value p e w m;
        general = trip-general r cause trap_value p e w m;
        enables = trip-enables r cause trap_value p e w m;
        mpp = trip-mpp r cause trap_value p e w m;
      }
