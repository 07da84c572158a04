-- ===== src/Plic/Cycle.antt =====
-- The gateway bits of a source through a claim and a completion; Cycle/Signal puts them together.
pub mod Signal
use ya_risc_v.Bytes.Value.{value}
use ya_risc_v.Plic.Select.{IsBest, select_claimable_source-IsBest}
use ya_risc_v.Plic.Invariant.{complete_plic_source-IsGated, claim_selected-IsGated}
use ya_risc_v.Plic.Bits.{is_source_bit_set-same, update_source_bit-IsSlab, IsSlab}
use ya_risc_v.Plic.Layout.{
  is_valid_source, PlicContext, claimed_by_host_offset, machine, supervisor, plic_host_pending,
  plic_host_input_level, plic_host_claimed_by_m, plic_host_claimed_by_s, plic_max_source,
}
use ya_risc_v.Prelude.{
  Bool, ap, true, bit_and, arith, ◌≢◌, ◌+◌, ◌/◌, ◌^◌, ◌%◌, ◌≤◌, ◌<◌, ◌!=◌, ◌≡◌, ◌∙◌, ℕ, false, refl,
  if-ap, ◌==◌, if◌then◌else◌, not, ap₂, ◌&&◌, ◌||◌,
}
use ya_risc_v.Plic.Gated.{
  IsGated, claimed_bit, level_bit, pending_update, supervisor_update, machine_update, pending_bit,
}
use ya_risc_v.Plic.Gateway.{
  refresh_all_context_wires, claim_plic_source, refresh_context_wire, Plic, is_source_bit_set,
  set_plic_context_wire, complete_plic_source, claim_selected, update_source_bit,
  select_claimable_source,
}

wire-outside :
    (plic : Plic) (context : PlicContext) (level : Bool) (i : ℕ)
    → i < 160
    → (set_plic_context_wire plic context level).slab i ≡ plic.slab i
unfolding set_plic_context_wire
wire-outside plic machine level i h = ground arith
wire-outside plic supervisor level i h = ground arith

refresh-outside :
    (plic : Plic) (i : ℕ) → i < 160 → (refresh_all_context_wires plic).slab i ≡ plic.slab i
unfolding refresh_all_context_wires refresh_context_wire
refresh-outside plic i h =
    wire-outside (refresh_context_wire plic machine) supervisor _ i h
    ∙ wire-outside plic machine _ i h

pub refresh-bit :
    (plic : Plic) (field source : ℕ)
    → field + 4 ≤ 160
    → source < 32
    → is_source_bit_set (refresh_all_context_wires plic).slab field source
      ≡ is_source_bit_set plic.slab field source
unfolding is_source_bit_set
refresh-bit plic field source inside h =
    ap (λ (t : ℕ). bit_and t (2 ^ (source % 8)) != 0)
      (refresh-outside plic (field + source / 8) (omega arith))

pub claimed_field : (context : PlicContext) → claimed_by_host_offset context + 4 ≤ 160
claimed_field machine = omega arith
claimed_field supervisor = omega arith

and_true : (b : Bool) → (b && not false) ≡ b
and_true true = refl
and_true false = refl

pub zero_test : (source : ℕ) → source ≢ 0 → (source == 0) ≡ false
zero_test source h = ground arith

valid_of_bounds :
    (source : ℕ) → source ≤ plic_max_source → source ≢ 0 → is_valid_source source ≡ true
valid_of_bounds source p q = ground arith

pub self_equal : (source : ℕ) → (source == source) ≡ true
self_equal source = ground arith

module _ (slab : ℕ → ℕ) (bytes : IsSlab slab) (source : ℕ) (value : Bool) (h : source < 32) where
  claimed_after :
      (context : PlicContext)
      → claimed_bit
          (update_source_bit slab (claimed_by_host_offset context) source value)
          context
          source
        ≡ value
  claimed_after context =
      is_source_bit_set-same slab bytes (claimed_by_host_offset context) source value source
      ∙ rw (self_equal source) refl

  level_kept :
      level_bit (update_source_bit slab plic_host_pending source value) source
      ≡ level_bit slab source
  level_kept = (pending_update slab bytes source value h source h).1

  level_kept_claimed :
      (context : PlicContext)
      → level_bit (update_source_bit slab (claimed_by_host_offset context) source value) source
        ≡ level_bit slab source
  level_kept_claimed machine = (machine_update slab bytes source value h source h).1
  level_kept_claimed supervisor = (supervisor_update slab bytes source value h source h).1

  nobody_after :
      (context : PlicContext)
      → value ≡ false
      → claimed_bit slab machine source && claimed_bit slab supervisor source ≡ false
      → claimed_bit slab context source ≡ true
      → claimed_bit
            (update_source_bit slab (claimed_by_host_offset context) source value)
            machine
            source
          || claimed_bit
              (update_source_bit slab (claimed_by_host_offset context) source value)
              supervisor
              source
        ≡ false
  nobody_after machine e single held =
      ground (arith, machine_update slab bytes source value h source h, e, single, held)
  nobody_after supervisor e single held =
      ground (arith, supervisor_update slab bytes source value h source h, e, single, held)

  nobody_kept :
      claimed_bit slab machine source || claimed_bit slab supervisor source ≡ false
      → claimed_bit (update_source_bit slab plic_host_pending source value) machine source
          || claimed_bit (update_source_bit slab plic_host_pending source value) supervisor source
        ≡ false
  nobody_kept none_before =
      ground (arith, pending_update slab bytes source value h source h, none_before)

module _ (plic : Plic) (before : IsGated plic.slab) (context : PlicContext) (source : ℕ)
    (h : source < 32) where
  abbrev taken : ℕ → ℕ
  taken =
      update_source_bit (update_source_bit plic.slab plic_host_pending source false)
        (claimed_by_host_offset context) source true

  claim_selected-taken :
      (source == 0) ≡ false
      → claim_selected plic context source
        ≡ refresh_all_context_wires (record plic { slab = taken })
  unfolding claim_selected
  claim_selected-taken e = rw e refl

  pub taken-claimed :
      (source == 0) ≡ false
      → claimed_bit (claim_selected plic context source).slab context source ≡ true
  taken-claimed e =
      ap (λ (p : Plic). claimed_bit p.slab context source) (claim_selected-taken e)
      ∙ refresh-bit (record plic { slab = taken }) (claimed_by_host_offset context) source
          (claimed_field context) h
      ∙ claimed_after (update_source_bit plic.slab plic_host_pending source false)
          (update_source_bit-IsSlab plic.slab before.bytes plic_host_pending source false) source
          true h context

  pub taken-level :
      (source == 0) ≡ false
      → level_bit (claim_selected plic context source).slab source ≡ level_bit plic.slab source
  taken-level e =
      let idle = update_source_bit plic.slab plic_host_pending source false in
      let idle-IsSlab =
        update_source_bit-IsSlab plic.slab before.bytes plic_host_pending source false in
      ap (λ (p : Plic). level_bit p.slab source) (claim_selected-taken e)
      ∙ refresh-bit (record plic { slab = taken }) plic_host_input_level source (omega arith) h
      ∙ level_kept_claimed idle idle-IsSlab source true h context
      ∙ level_kept plic.slab before.bytes source false h

  abbrev released : ℕ → ℕ
  released = update_source_bit plic.slab (claimed_by_host_offset context) source false

  released-bytes : IsSlab released
  released-bytes =
      update_source_bit-IsSlab plic.slab before.bytes (claimed_by_host_offset context) source false

  abbrev gated : ℕ → ℕ
  gated =
      if is_source_bit_set released plic_host_input_level source
      then update_source_bit released plic_host_pending source true
      else released

  complete-gated :
      is_valid_source source ≡ true
      → claimed_bit plic.slab context source ≡ true
      → complete_plic_source plic context source
        ≡ refresh_all_context_wires (record plic { slab = gated })
  unfolding complete_plic_source
  complete-gated valid held = rw (valid, held) refl

  -- The bits of a completed source.
  pub record Released (slab : ℕ → ℕ) : Type 0 where
    pub free : claimed_bit slab machine source || claimed_bit slab supervisor source ≡ false
    pub same_level : level_bit slab source ≡ level_bit plic.slab source

  gated-Released : claimed_bit plic.slab context source ≡ true → Released gated
  gated-Released held =
      let unclaimed =
        nobody_after plic.slab before.bytes source false h context refl (before.single source h)
          held in
      if-ap Released (is_source_bit_set released plic_host_input_level source) _ _
        (record {
          free = nobody_kept released released-bytes source true h unclaimed;
          same_level =
              level_kept released released-bytes source true h
              ∙ level_kept_claimed plic.slab before.bytes source false h context;
        })
        (record {
          free = unclaimed;
          same_level = level_kept_claimed plic.slab before.bytes source false h context;
        })

  pub completed-Released :
      is_valid_source source ≡ true
      → claimed_bit plic.slab context source ≡ true
      → Released (complete_plic_source plic context source).slab
  completed-Released valid held = rw (complete-gated valid held) (record {
    free =
        ap₂ (λ a b. a || b)
          (refresh-bit (record plic { slab = gated }) plic_host_claimed_by_m source (omega arith) h)
          (refresh-bit (record plic { slab = gated }) plic_host_claimed_by_s source (omega arith) h)
        ∙ (gated-Released held).free;
    same_level =
        refresh-bit (record plic { slab = gated }) plic_host_input_level source (omega arith) h
        ∙ (gated-Released held).same_level;
  })

  pub completed-pending :
      is_valid_source source ≡ true
      → claimed_bit plic.slab context source ≡ true
      → pending_bit (complete_plic_source plic context source).slab source
        ≡ level_bit plic.slab source
  completed-pending valid held =
      let gate = (complete_plic_source-IsGated plic before context source).gate source h in
      gate
      ∙ ap (λ c. level_bit (complete_plic_source plic context source).slab source && not c)
          (completed-Released valid held).free
      ∙ and_true (level_bit (complete_plic_source plic context source).slab source)
      ∙ (completed-Released valid held).same_level

pub valid_of_best :
    (slab : ℕ → ℕ) (context : PlicContext) (source : ℕ)
    → IsBest slab context plic_max_source source
    → source ≢ 0
    → is_valid_source source ≡ true
valid_of_best slab context source best some_source = valid_of_bounds source best.inside some_source

pub taken-idle :
    (slab : ℕ → ℕ) (context : PlicContext) (source : ℕ)
    → IsGated slab
    → source < 32
    → claimed_bit slab context source ≡ true
    → pending_bit slab source ≡ false
taken-idle slab machine source gated h held = ground (arith, gated.gate source h, held)
taken-idle slab supervisor source gated h held = ground (arith, gated.gate source h, held)
