-- ===== src/Cpu/Trap/Select.antt =====
-- Which interrupt `selectTakeableInterrupt` finds.
use mathlib.Core.Path.{subst}
use ya_risc_v.Prelude.{ℕ, ◌≡◌, ◌⊎◌, inl, inr, arith, refl, sym, Bool, true, false, not, ◌&&◌, ◌||◌}
use ya_risc_v.Prelude.{if◌then◌else◌, List, [], ◌∷◌, Option, none, some, Bool-cases}
use ya_risc_v.Cpu.Types.{Registers}
use ya_risc_v.Cpu.Trap.{TakeableInterrupt, InterruptGateContext, select_loop}
use ya_risc_v.Cpu.Trap.{supervisor_interrupt_is_globally_enabled}
use ya_risc_v.Cpu.Trap.{machine_interrupt_is_globally_enabled, select_takeable_interrupt}
use ya_risc_v.Cpu.Trap.{interrupt_priority, gate_context, pending_and_enabled, is_delegated}

-- An interrupt may be taken to S if it is delegated and the hart is in U, or in S with SIE; to M
-- if it is not delegated and the hart is below M, or in M with MIE.
abbrev pub may_take : InterruptGateContext → (ℕ → Bool) → (ℕ → Bool) → ℕ → Bool
may_take ctx ready delegated code =
    ready code
    && (if delegated code
        then not ctx.in_machine && (not ctx.in_supervisor || ctx.sie_global)
        else not ctx.in_machine || ctx.mie_global)

-- `c` is the first of the list that passes the test.
abbrev pub IsFirst : (ℕ → Bool) → List ℕ → ℕ → Type 0
IsFirst p [] c = ⊥
IsFirst p (x ∷ xs) c = ((p x ≡ true) × (x ≡ c)) ⊎ ((p x ≡ false) × IsFirst p xs c)

abbrev pub AllFail : (ℕ → Bool) → List ℕ → Type 0
AllFail p [] = Unit {0}
AllFail p (x ∷ xs) = (p x ≡ false) × AllFail p xs

abbrev pub IsSelected : (ℕ → Bool) → (ℕ → Bool) → List ℕ → Option TakeableInterrupt → Type 0
IsSelected p delegated codes none = AllFail p codes
IsSelected p delegated codes (some t) =
    IsFirst p codes t.code × (t.to_supervisor ≡ delegated t.code)

IsSelected-later :
    (p delegated : ℕ → Bool) (code : ℕ) (codes : List ℕ) (o : Option TakeableInterrupt)
    → p code ≡ false
    → IsSelected p delegated codes o
    → IsSelected p delegated (code ∷ codes) o
IsSelected-later p delegated code codes none h s = (h, s)
IsSelected-later p delegated code codes (some t) h s = (inr (h, s.0), s.1)

IsSelected-cons :
    (p delegated : ℕ → Bool) (code : ℕ) (codes : List ℕ) (o : Option TakeableInterrupt)
    → IsSelected p delegated codes o
    → IsSelected p delegated
        (code ∷ codes)
        (if p code then some (record { code = code; to_supervisor = delegated code }) else o)
IsSelected-cons p delegated code codes o s = elim (Bool-cases (p code)) [
  | inl h ↦ rw h (inl (h, refl), refl)
  | inr h ↦
      subst
        (λ (b : Bool).
          IsSelected p delegated (code ∷ codes)
            (if b then some (record { code = code; to_supervisor = delegated code }) else o))
        (sym h) (IsSelected-later p delegated code codes o h s)
]

module _ (ctx : InterruptGateContext) (ready delegated : ℕ → Bool) where
  select_loop-cons :
      (code : ℕ) (codes : List ℕ)
      → select_loop ctx ready delegated (code ∷ codes) ≡ (
          if may_take ctx ready delegated code
          then some (record { code = code; to_supervisor = delegated code })
          else select_loop ctx ready delegated codes)
  unfolding select_loop supervisor_interrupt_is_globally_enabled
      machine_interrupt_is_globally_enabled
  select_loop-cons code codes = ground arith

  select_loop-IsSelected :
      (codes : List ℕ)
      → IsSelected
          (may_take ctx ready delegated)
          delegated
          codes
          (select_loop ctx ready delegated codes)
  select_loop-IsSelected [] = unfold select_loop in tt
  select_loop-IsSelected (code ∷ codes) = rw (select_loop-cons code codes) (
      IsSelected-cons (may_take ctx ready delegated) delegated code codes _
        (select_loop-IsSelected codes))

-- The selection finds the first interrupt of its list that may be taken, and its target; it finds
-- none exactly if no interrupt of the list may be taken.
pub select_takeable_interrupt-IsSelected :
    (r : Registers)
    → IsSelected
        (may_take (gate_context r) (pending_and_enabled r) (is_delegated r))
        (is_delegated r)
        interrupt_priority
        (select_takeable_interrupt r)
unfolding select_takeable_interrupt
select_takeable_interrupt-IsSelected r =
    select_loop-IsSelected (gate_context r) (pending_and_enabled r) (is_delegated r)
      interrupt_priority
