-- ===== src/Plic/Invariant.antt =====
-- The gateway stays in step through every device signal and every guest access.
use ya_risc_v.Plic.Select.{select_claimable_source-IsBest, is_claimable, IsBest}
use ya_risc_v.Plic.Steps.Machine.{released_by_machine, repended_by_machine, claimed_by_machine}
use ya_risc_v.Plic.Steps.Supervisor.{
  claimed_by_supervisor, repended_by_supervisor, released_by_supervisor,
}
use ya_risc_v.Plic.Steps.{raised, lowered, raised_claimed}
use ya_risc_v.Prelude.{
  false, inl, Bool, arith, not, inr, true, Bool-cases, ◌<◌, ◌==◌, ◌||◌, ◌≡◌, if◌then◌else◌, ℕ, ◌≢◌,
}
use ya_risc_v.Plic.Gateway.{
  set_plic_source_pending, select_claimable_source, complete_plic_source, is_source_claimed,
  update_source_bit, is_source_bit_set, claim_plic_source, Plic, refresh_all_context_wires,
  claim_selected,
}
use ya_risc_v.Plic.Gated.{
  refresh_all_context_wires-IsGated, claimed_bit, IsGated, level_bit, machine_update, pending_bit,
  supervisor_update, level_update,
}
use ya_risc_v.Plic.Layout.{
  plic_host_pending, is_valid_source, claimed_by_host_offset, plic_host_input_level, PlicContext,
  machine, supervisor, plic_max_source,
}

pub refreshed :
    (plic : Plic) (slab : ℕ → ℕ)
    → IsGated slab
    → IsGated (refresh_all_context_wires (record plic { slab = slab })).slab
refreshed plic slab gated = refresh_all_context_wires-IsGated (record plic { slab = slab }) gated

pub claimable-pending :
    (slab : ℕ → ℕ) (context : PlicContext) (source : ℕ)
    → is_claimable slab context source ≡ true
    → pending_bit slab source ≡ true
claimable-pending slab context source h = ground arith

not_zero : (source : ℕ) → (source == 0) ≡ false → source ≢ 0
not_zero source h = ground arith

source_small : (source : ℕ) → is_valid_source source ≡ true → source < 32
source_small source h = ground arith

module _ (plic : Plic) (before : IsGated plic.slab) (source : ℕ)
    (valid : is_valid_source source ≡ true) where
  small : source < 32
  small = source_small source valid

  raise_input : IsGated (
      if not
        (is_source_claimed (update_source_bit plic.slab plic_host_input_level source true) source)
      then update_source_bit
          (update_source_bit plic.slab plic_host_input_level source true)
          plic_host_pending
          source
          true
      else update_source_bit plic.slab plic_host_input_level source true)
  unfolding is_source_claimed
  raise_input =
      let kept = level_update plic.slab before.bytes source true small source small in
      elim (Bool-cases
        (claimed_bit plic.slab machine source || claimed_bit plic.slab supervisor source)) [
          | inl claimed ↦
              rw (kept.2, kept.3, claimed) (raised_claimed plic.slab before source small claimed)
          | inr unclaimed ↦
              rw (kept.2, kept.3, unclaimed) (raised plic.slab before source small unclaimed)
        ]

  valid_signal : (level : Bool) → IsGated (set_plic_source_pending plic source level).slab
  unfolding set_plic_source_pending
  valid_signal true = rw valid (refreshed plic _ raise_input)
  valid_signal false = rw valid (refreshed plic _ (lowered plic.slab before source small))

  complete_gated :
      (context : PlicContext)
      → claimed_bit plic.slab context source ≡ true
      → IsGated (
          if is_source_bit_set
            (update_source_bit plic.slab (claimed_by_host_offset context) source false)
            plic_host_input_level
            source
          then update_source_bit
              (update_source_bit plic.slab (claimed_by_host_offset context) source false)
              plic_host_pending
              source
              true
          else update_source_bit plic.slab (claimed_by_host_offset context) source false)
  complete_gated machine held =
      let kept = machine_update plic.slab before.bytes source false small source small in
      elim (Bool-cases (level_bit plic.slab source)) [
        | inl high ↦ rw (kept.1, high) (repended_by_machine plic.slab before source small high held)
        | inr none_high ↦
            rw (kept.1, none_high)
              (released_by_machine plic.slab before source small none_high held)
      ]
  complete_gated supervisor held =
      let kept = supervisor_update plic.slab before.bytes source false small source small in
      elim (Bool-cases (level_bit plic.slab source)) [
        | inl high ↦
            rw (kept.1, high) (repended_by_supervisor plic.slab before source small high held)
        | inr none_high ↦
            rw (kept.1, none_high)
              (released_by_supervisor plic.slab before source small none_high held)
      ]

  valid_completion :
      (context : PlicContext) → IsGated (complete_plic_source plic context source).slab
  unfolding complete_plic_source
  valid_completion context = elim (Bool-cases (claimed_bit plic.slab context source)) [
    | inl held ↦ rw (valid, held) (refreshed plic _ (complete_gated context held))
    | inr idle ↦ rw (valid, idle) before
  ]

module _ (plic : Plic) (before : IsGated plic.slab) where
  pub set_plic_source_pending-IsGated :
      (source : ℕ) (level : Bool) → IsGated (set_plic_source_pending plic source level).slab
  unfolding set_plic_source_pending
  set_plic_source_pending-IsGated source level = elim (Bool-cases (is_valid_source source)) [
    | inl valid ↦ valid_signal plic before source valid level
    | inr invalid ↦ rw invalid before
  ]

  pub complete_plic_source-IsGated :
      (context : PlicContext) (source : ℕ) → IsGated (complete_plic_source plic context source).slab
  unfolding complete_plic_source
  complete_plic_source-IsGated context source = elim (Bool-cases (is_valid_source source)) [
    | inl valid ↦ valid_completion plic before source valid context
    | inr invalid ↦ rw invalid before
  ]

  claim_gated :
      (context : PlicContext) (source : ℕ)
      → source < 32
      → pending_bit plic.slab source ≡ true
      → IsGated (
          update_source_bit
            (update_source_bit plic.slab plic_host_pending source false)
            (claimed_by_host_offset context)
            source
            true)
  claim_gated machine source h ready = claimed_by_machine plic.slab before source h ready
  claim_gated supervisor source h ready = claimed_by_supervisor plic.slab before source h ready

  pub claim_selected-IsGated :
      (context : PlicContext) (source : ℕ)
      → IsBest plic.slab context plic_max_source source
      → IsGated (claim_selected plic context source).slab
  unfolding claim_selected
  claim_selected-IsGated context source selected = elim (Bool-cases (source == 0)) [
    | inl idle ↦ rw idle (refreshed plic _ before)
    | inr taken ↦ rw taken (
        refreshed plic _ (
          claim_gated context source (omega (arith, selected.inside)) (
            claimable-pending plic.slab context source
              (selected.claimable (not_zero source taken)))))
  ]

  pub claim_plic_source-IsGated :
      (context : PlicContext) → IsGated (claim_plic_source plic context).1.slab
  unfolding claim_plic_source
  claim_plic_source-IsGated context =
      claim_selected-IsGated context (select_claimable_source plic.slab context)
        (select_claimable_source-IsBest plic.slab context)
