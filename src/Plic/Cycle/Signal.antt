-- ===== src/Plic/Cycle/Signal.antt =====
-- A claim, the device's signals while the source is claimed, and the completion.
use ya_risc_v.Plic.Select.{select_claimable_source-IsBest}
use ya_risc_v.Plic.Cycle.{
  refresh-bit, self_equal, claimed_field, machine, supervisor, completed-Released, taken-idle,
  zero_test, valid_of_best, taken-claimed, taken-level, completed-pending,
}
use ya_risc_v.Plic.Gated.{
  IsGated, claimed_bit, pending_update, level_bit, level_update, pending_bit,
}
use ya_risc_v.Plic.Invariant.{
  set_plic_source_pending-IsGated, claimable-pending, claim_selected-IsGated,
}
use ya_risc_v.Plic.Gateway.{
  update_source_bit, set_plic_source_pending, Plic, refresh_all_context_wires, is_source_claimed,
  complete_plic_source, select_claimable_source, claim_selected, claim_plic_source,
}
use ya_risc_v.Plic.Layout.{
  PlicContext, claimed_by_host_offset, plic_host_input_level, is_valid_source, plic_host_pending,
}
use ya_risc_v.Plic.Bits.{update_source_bit-IsSlab, IsSlab}
use ya_risc_v.Prelude.{List, true, refl, Bool, false, arith, ◌<◌, ◌||◌, ◌≡◌, ◌∙◌, ◌∷◌, [], ℕ, ◌≢◌}

-- The device drives the input of `source` to each of the levels in turn.
abbrev pub signal_all : Plic → ℕ → List Bool → Plic
signal_all plic source [] = plic
signal_all plic source (level ∷ levels) =
    signal_all (set_plic_source_pending plic source level) source levels

-- The level that the signals leave, from level `now`.
abbrev pub last_level : Bool → List Bool → Bool
last_level now [] = now
last_level now (level ∷ levels) = last_level level levels

-- A source that `context` has claimed, with its input at `level`.
record IsTaken (plic : Plic) (context : PlicContext) (source : ℕ) (level : Bool) : Type 0 where
  gated : IsGated plic.slab
  held : claimed_bit plic.slab context source ≡ true
  driven : level_bit plic.slab source ≡ level

somebody :
    (slab : ℕ → ℕ) (context : PlicContext) (source : ℕ)
    → claimed_bit slab context source ≡ true
    → claimed_bit slab machine source || claimed_bit slab supervisor source ≡ true
somebody slab machine source held = ground (arith, held)
somebody slab supervisor source held = ground (arith, held)

module _ (slab : ℕ → ℕ) (bytes : IsSlab slab) (source : ℕ) (value : Bool) (h : source < 32) where
  claim_kept_level :
      (context : PlicContext)
      → claimed_bit (update_source_bit slab plic_host_input_level source value) context source
        ≡ claimed_bit slab context source
  claim_kept_level machine = (level_update slab bytes source value h source h).2
  claim_kept_level supervisor = (level_update slab bytes source value h source h).3

  claim_kept_pending :
      (context : PlicContext)
      → claimed_bit (update_source_bit slab plic_host_pending source value) context source
        ≡ claimed_bit slab context source
  claim_kept_pending machine = (pending_update slab bytes source value h source h).2
  claim_kept_pending supervisor = (pending_update slab bytes source value h source h).3

  level_after : level_bit (update_source_bit slab plic_host_input_level source value) source ≡ value
  level_after = (level_update slab bytes source value h source h).1 ∙ rw (self_equal source) refl

module _ (plic : Plic) (before : IsGated plic.slab) (context : PlicContext) (source : ℕ)
    (valid : is_valid_source source ≡ true) (h : source < 32)
    (held : claimed_bit plic.slab context source ≡ true) where
  abbrev levelled : Bool → ℕ → ℕ
  levelled level = update_source_bit plic.slab plic_host_input_level source level

  levelled-IsSlab : (level : Bool) → IsSlab (levelled level)
  levelled-IsSlab level =
      update_source_bit-IsSlab plic.slab before.bytes plic_host_input_level source level

  -- The slab that a signal of a claimed source leaves, before the wires.
  abbrev signalled : Bool → ℕ → ℕ
  signalled true = levelled true
  signalled false = update_source_bit (levelled false) plic_host_pending source false

  levelled-claimed : (level : Bool) → is_source_claimed (levelled level) source ≡ true
  unfolding is_source_claimed
  levelled-claimed level =
      somebody (levelled level) context source
        (claim_kept_level plic.slab before.bytes source level h context ∙ held)

  signal-slab :
      (level : Bool)
      → set_plic_source_pending plic source level
        ≡ refresh_all_context_wires (record plic { slab = signalled level })
  unfolding set_plic_source_pending
  signal-slab true = rw (valid, levelled-claimed true) refl
  signal-slab false = rw valid refl

  signalled-held : (level : Bool) → claimed_bit (signalled level) context source ≡ true
  signalled-held true = claim_kept_level plic.slab before.bytes source true h context ∙ held
  signalled-held false =
      claim_kept_pending (levelled false) (levelled-IsSlab false) source false h context
      ∙ claim_kept_level plic.slab before.bytes source false h context
      ∙ held

  signalled-level : (level : Bool) → level_bit (signalled level) source ≡ level
  signalled-level true = level_after plic.slab before.bytes source true h
  signalled-level false =
      (pending_update (levelled false) (levelled-IsSlab false) source false h source h).1
      ∙ level_after plic.slab before.bytes source false h

  signal-IsTaken :
      (level : Bool) → IsTaken (set_plic_source_pending plic source level) context source level
  signal-IsTaken level = record {
    gated = set_plic_source_pending-IsGated plic before source level;
    held = rw (signal-slab level) (
        refresh-bit (record plic { slab = signalled level }) (claimed_by_host_offset context) source
          (claimed_field context) h
        ∙ signalled-held level);
    driven = rw (signal-slab level) (
        refresh-bit (record plic { slab = signalled level }) plic_host_input_level source
          (omega arith) h
        ∙ signalled-level level);
  }

signal_all-IsTaken :
    (plic : Plic) (context : PlicContext) (source : ℕ) (now : Bool) (levels : List Bool)
    → is_valid_source source ≡ true
    → source < 32
    → IsTaken plic context source now
    → IsTaken (signal_all plic source levels) context source (last_level now levels)
signal_all-IsTaken plic context source now [] valid h taken = taken
signal_all-IsTaken plic context source now (level ∷ levels) valid h taken =
    signal_all-IsTaken (set_plic_source_pending plic source level) context source level levels valid
      h (signal-IsTaken plic taken.gated context source valid h taken.held level)

high_of_pending :
    (slab : ℕ → ℕ) (source : ℕ)
    → IsGated slab
    → source < 32
    → pending_bit slab source ≡ true
    → level_bit slab source ≡ true
high_of_pending slab source gated h ready = ground (arith, gated.gate source h, ready)

-- From a controller in step, a claim that returns a source leaves it claimed by that context, and it
-- stays claimed and not pending whatever levels the device drives its input to meanwhile. Its
-- completion by the same context then leaves it claimed by no context, and pending exactly when the
-- last of those levels, or the high level that the claim found when there were none, is high.
pub claim_then_complete :
    (plic : Plic) (context : PlicContext) (levels : List Bool)
    → IsGated plic.slab
    → (claim_plic_source plic context).0 ≢ 0
    → let source = (claim_plic_source plic context).0 in
      let meanwhile = signal_all (claim_plic_source plic context).1 source levels in
      let completed = complete_plic_source meanwhile context source in
      (claimed_bit meanwhile.slab context source ≡ true)
      × (pending_bit meanwhile.slab source ≡ false)
      × (claimed_bit completed.slab machine source || claimed_bit completed.slab supervisor source
          ≡ false)
      × (pending_bit completed.slab source ≡ last_level true levels)
unfolding claim_plic_source
claim_then_complete plic context levels before some_source =
    let source = select_claimable_source plic.slab context in
    let best = select_claimable_source-IsBest plic.slab context in
    let small : source < 32 = omega (arith, best.inside) in
    let valid = valid_of_best plic.slab context source best some_source in
    let ready = claimable-pending plic.slab context source (best.claimable some_source) in
    let claimed : IsTaken (claim_selected plic context source) context source true = record {
      gated = claim_selected-IsGated plic before context source best;
      held = taken-claimed plic before context source small (zero_test source some_source);
      driven =
          taken-level plic before context source small (zero_test source some_source)
          ∙ high_of_pending plic.slab source before small ready;
    } in
    let meanwhile = signal_all (claim_selected plic context source) source levels in
    let taken =
      signal_all-IsTaken (claim_selected plic context source) context source true levels valid small
        claimed in
    (
      taken.held,
      taken-idle meanwhile.slab context source taken.gated small taken.held,
      (completed-Released meanwhile taken.gated context source small valid taken.held).free,
      completed-pending meanwhile taken.gated context source small valid taken.held ∙ taken.driven,
    )
