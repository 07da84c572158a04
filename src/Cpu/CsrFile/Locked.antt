-- ===== src/Cpu/CsrFile/Locked.antt =====
-- No write of a control and status register changes a locked entry of the memory protection.
use ya_risc_v.Prelude.{ℕ, ◌+◌, ◌-◌, ◌%◌, ◌<◌, ◌≡◌, refl, sym, ap, ◌∙◌, arith, Bool, true, false}
use mathlib.Core.Path.{subst}
use mathlib.Core.Bool.{true≢false}
use ya_risc_v.Prelude.{
  set, if-ap, ==_iff, ◌&&◌, ◌||◌, not, ◌==◌, if◌then◌else◌, ltb, Bool-cases, inl, inr,
}
use ya_risc_v.Cpu.Masks.{menvcfg_writable_mask_bytes}
use ya_risc_v.Bytes.{and_bytes, clear_bits, Bytes, byte, test_bits, tabulate, copy_bytes}
use ya_risc_v.Bytes.Shift.Base.{below_eight}
use ya_risc_v.Cpu.Csr
use ya_risc_v.Cpu.CsrAccess.{is_supervisor_timer_compare_enabled}
use ya_risc_v.Cpu.CsrAccess.{is_identity_control_and_status_register}
use ya_risc_v.Cpu.CsrAccess.{is_unprivileged_counter_control_and_status_register}
use ya_risc_v.Cpu.CsrFile.{write_control_and_status_register, write_plain, write_menvcfg}
use ya_risc_v.Cpu.CsrFile.{write_medeleg, store_csr}
use ya_risc_v.Cpu.Pmp.{config_byte, read_pmp_address, pmp_cfg_lock, legalize_pmp_cfg}
use ya_risc_v.Cpu.Pmp.{is_pmp_cfg_register, is_pmp_addr_register, pmp_address_write_ignored}
use ya_risc_v.Cpu.Pmp.{is_pmp_control_and_status_register, legalize_pmp_cfg_byte, legalize_pmp_addr}
use ya_risc_v.Cpu.Types.{Registers, set_csr}

pub byte-tabulate : (f : ℕ → ℕ) (i : ℕ) → i < 8 → byte (tabulate 8 0 f) i ≡ f i
unfolding tabulate
byte-tabulate f =
    below_eight (λ (i : ℕ). byte (tabulate 8 0 f) i ≡ f i) refl refl refl refl refl refl refl refl

-- A branch taken on a test, with what the test says.
if-by {ℓ k} :
    {A : Type ℓ} (P : A → Type k) (c : Bool) (x y : A)
    → (c ≡ true → P x)
    → (c ≡ false → P y)
    → P (if c then x else y)
if-by P true x y p q = p refl
if-by P false x y p q = q refl

legal_byte :
    (old v : Bytes) (i : ℕ)
    → i < 8
    → test_bits (byte old i) pmp_cfg_lock ≡ true
    → byte (copy_bytes (legalize_pmp_cfg old v)) i ≡ byte old i
unfolding copy_bytes legalize_pmp_cfg
legal_byte old v i h l =
    byte-tabulate (λ t. byte (legalize_pmp_cfg old v) t) i h
    ∙ byte-tabulate
        (λ t.
          if test_bits (byte old t) pmp_cfg_lock
          then byte old t
          else legalize_pmp_cfg_byte (byte v t))
        i h
    ∙ rw l refl

equal_self : (a : ℕ) → (a == a) ≡ true
equal_self a = ground arith

abbrev slot : ℕ → ℕ
slot entry = if ltb entry 8 then Csr.pmpcfg0 else Csr.pmpcfg2

module _ (r : Registers) (entry index : ℕ) (v : Bytes) where
  same_config :
      (slot entry == index) ≡ false → config_byte (set_csr r index v) entry ≡ config_byte r entry
  unfolding config_byte
  same_config e = rw e refl

  same_address :
      (Csr.pmpaddr0 + entry == index) ≡ false
      → read_pmp_address (set_csr r index v) entry ≡ read_pmp_address r entry
  unfolding read_pmp_address
  same_address e = rw e refl

-- The configuration and the address of an entry are the same in both.
pub record IsFrozen (r : Registers) (entry : ℕ) (next : Registers) : Type 0 where
  pub config : config_byte next entry ≡ config_byte r entry
  pub address : read_pmp_address next entry ≡ read_pmp_address r entry

module _ (r : Registers) (entry : ℕ) (few : entry < 16)
    (locked : test_bits (config_byte r entry) pmp_cfg_lock ≡ true) where
  untouched :
      (index : ℕ) (v : Bytes)
      → is_pmp_control_and_status_register index ≡ false
      → IsFrozen r entry (set_csr r index v)
  untouched index v h = record {
    config = same_config r entry index v (ground arith);
    address = same_address r entry index v (ground arith);
  }

  config_at_slot :
      (v : Bytes)
      → config_byte
          (store_csr r (slot entry) (legalize_pmp_cfg (r.control_and_status (slot entry)) v))
          entry
        ≡ config_byte r entry
  unfolding config_byte
  config_at_slot v =
      rw (equal_self (slot entry))
        (legal_byte (r.control_and_status (slot entry)) v (entry % 8) (omega arith) locked)

  locked_config :
      (index : ℕ) (v : Bytes)
      → is_pmp_cfg_register index ≡ true
      → IsFrozen r entry (store_csr r index (legalize_pmp_cfg (r.control_and_status index) v))
  locked_config index v h = record {
    config = elim (Bool-cases (slot entry == index)) [
      | inl e ↦
          subst
            (λ (t : ℕ).
              config_byte (store_csr r t (legalize_pmp_cfg (r.control_and_status t) v)) entry
              ≡ config_byte r entry)
            ((==_iff (slot entry) index).0 e) (config_at_slot v)
      | inr e ↦ same_config r entry index _ e
    ];
    address = same_address r entry index _ (ground arith);
  }

  back : Csr.pmpaddr0 + entry - Csr.pmpaddr0 ≡ entry
  back = omega arith

  ignored : pmp_address_write_ignored r (Csr.pmpaddr0 + entry) ≡ true
  unfolding pmp_address_write_ignored
  ignored = rw (back, locked) refl

  locked_address :
      (index : ℕ) (v : Bytes)
      → is_pmp_addr_register index ≡ true
      → pmp_address_write_ignored r index ≡ false
      → IsFrozen r entry (store_csr r index v)
  locked_address index v h free = record {
    config = same_config r entry index _ (ground arith);
    address = same_address r entry index _ (elim (Bool-cases (Csr.pmpaddr0 + entry == index)) [
      | inl e ↦ absurd (
          true≢false (sym ignored ∙ ap (pmp_address_write_ignored r) ((==_iff _ index).0 e) ∙ free))
      | inr e ↦ e
    ]);
  }

  unchanged : IsFrozen r entry r
  unchanged = record { config = refl; address = refl }

  write_plain-IsFrozen : (index : ℕ) (v : Bytes) → IsFrozen r entry (write_plain r index v)
  unfolding write_plain
  write_plain-IsFrozen index v =
      if-by (IsFrozen r entry) (is_pmp_cfg_register index) _ _ (locked_config index v) (λ a.
        if-by (IsFrozen r entry) (is_pmp_addr_register index) _ _
          (λ b.
            if-by (IsFrozen r entry) (pmp_address_write_ignored r index) _ _ (λ _. unchanged)
              (locked_address index (legalize_pmp_addr v) b))
          (λ b. untouched index (copy_bytes v) (ground arith)))

  write_menvcfg-IsFrozen : (v : Bytes) → IsFrozen r entry (write_menvcfg r v)
  unfolding write_menvcfg
  write_menvcfg-IsFrozen v =
      if-ap (IsFrozen r entry)
        (is_supervisor_timer_compare_enabled r && not (is_supervisor_timer_compare_enabled next))
        (set_csr next Csr.mip cleared) next
        (record {
          config = same_config next entry Csr.mip cleared (ground arith) ∙ next-IsFrozen.config;
          address = same_address next entry Csr.mip cleared (ground arith) ∙ next-IsFrozen.address;
        })
        next-IsFrozen
    where
      next : Registers
      next = store_csr r Csr.menvcfg (and_bytes v menvcfg_writable_mask_bytes)

      cleared : Bytes
      cleared =
          set (next.control_and_status Csr.mip) 0
            (clear_bits (byte (next.control_and_status Csr.mip) 0) 0x20)

      next-IsFrozen : IsFrozen r entry next
      next-IsFrozen = untouched Csr.menvcfg _ refl

  -- No write to any control and status register changes the configuration or the address of a
  -- locked one of the 16 entries.
  pub write_control_and_status_register-IsFrozen :
      (index : ℕ) (v : Bytes) → IsFrozen r entry (write_control_and_status_register r index v)
  unfolding write_control_and_status_register write_medeleg
  write_control_and_status_register-IsFrozen index v =
      elim (Bool-cases (
        is_identity_control_and_status_register index
        || is_unprivileged_counter_control_and_status_register index)) [
          | inl h0 ↦ rw h0 (unchanged)
          | inr h0 ↦ rw h0 (elim (Bool-cases (index == Csr.sstatus)) [
            | inl h1 ↦ rw h1 (untouched Csr.mstatus _ refl)
            | inr h1 ↦ rw h1 (elim (Bool-cases (index == Csr.sie)) [
              | inl h2 ↦ rw h2 (untouched Csr.mie _ refl)
              | inr h2 ↦ rw h2 (elim (Bool-cases (index == Csr.sip)) [
                | inl h3 ↦ rw h3 (untouched Csr.mip _ refl)
                | inr h3 ↦ rw h3 (elim (Bool-cases (index == Csr.mstatus)) [
                  | inl h4 ↦ rw h4 (untouched Csr.mstatus _ refl)
                  | inr h4 ↦ rw h4 (elim (Bool-cases (index == Csr.misa)) [
                    | inl h5 ↦ rw h5 (untouched Csr.misa _ refl)
                    | inr h5 ↦ rw h5 (elim (Bool-cases (index == Csr.mie)) [
                      | inl h6 ↦ rw h6 (untouched Csr.mie _ refl)
                      | inr h6 ↦ rw h6 (elim (Bool-cases (index == Csr.mip)) [
                        | inl h7 ↦ rw h7 (untouched Csr.mip _ refl)
                        | inr h7 ↦ rw h7 (elim (Bool-cases (index == Csr.menvcfg)) [
                          | inl h8 ↦ rw h8 (write_menvcfg-IsFrozen v)
                          | inr h8 ↦ rw h8 (elim (Bool-cases (index == Csr.mideleg)) [
                            | inl h9 ↦ rw h9 (untouched Csr.mideleg _ refl)
                            | inr h9 ↦ rw h9 (elim (Bool-cases (index == Csr.medeleg)) [
                              | inl h10 ↦ rw h10 (untouched Csr.medeleg _ refl)
                              | inr h10 ↦
                                  rw h10
                                    (elim (Bool-cases
                                      (index == Csr.mcounteren || index == Csr.scounteren)) [
                                        | inl h11 ↦ rw h11 (untouched index _ (ground arith))
                                        | inr h11 ↦
                                            rw h11 (elim (Bool-cases (index == Csr.mcountinhibit)) [
                                              | inl h12 ↦ rw h12 (untouched index _ (ground arith))
                                              | inr h12 ↦
                                                  rw h12
                                                    (elim (Bool-cases
                                                      (index == Csr.mtvec || index == Csr.stvec)) [
                                                        | inl h13 ↦
                                                            rw h13
                                                            (untouched index _ (ground arith))
                                                        | inr h13 ↦
                                                            rw h13
                                                            (elim (Bool-cases (
                                                            index == Csr.mepc
                                                            || index == Csr.sepc)) [
                                                              | inl h14 ↦
                                                                rw h14
                                                                (untouched index _ (ground arith))
                                                              | inr h14 ↦
                                                                rw h14
                                                                (write_plain-IsFrozen index v)
                                                            ])
                                                      ])
                                            ])
                                      ])
                            ])
                          ])
                        ])
                      ])
                    ])
                  ])
                ])
              ])
            ])
          ])
        ]
