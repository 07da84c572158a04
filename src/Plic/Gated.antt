-- ===== src/Plic/Gated.antt =====
-- The claim gateway keeps pending, claimed and input level in step.
use ya_risc_v.Prelude.{
  Bool, arith, false, not, ◌+◌, ◌/◌, ◌≤◌, ◌<◌, ◌&&◌, ◌||◌, ◌≡◌, ℕ, ◌==◌, ◌⊎◌, if◌then◌else◌,
}
use ya_risc_v.Plic.Layout.{
  plic_host_pending, claimed_by_host_offset, PlicContext, plic_host_input_level,
  plic_host_claimed_by_s, plic_host_claimed_by_m, machine, supervisor,
}
use ya_risc_v.Plic.Bits.{IsSlab, is_source_bit_set-apart, is_source_bit_set-same}
use ya_risc_v.Plic.Gateway.{
  Plic, update_source_bit, is_source_bit_set, refresh_context_wire, set_plic_context_wire,
  refresh_all_context_wires,
}

abbrev pub pending_bit : (ℕ → ℕ) → ℕ → Bool
pending_bit slab source = is_source_bit_set slab plic_host_pending source

abbrev pub level_bit : (ℕ → ℕ) → ℕ → Bool
level_bit slab source = is_source_bit_set slab plic_host_input_level source

abbrev pub claimed_bit : (ℕ → ℕ) → PlicContext → ℕ → Bool
claimed_bit slab context source = is_source_bit_set slab (claimed_by_host_offset context) source

-- A source is pending exactly when its input is high and no context has claimed it, and at most one
-- context has.
pub record IsGated (slab : ℕ → ℕ) : Type 0 where
  pub bytes : IsSlab slab
  pub gate :
      (source : ℕ)
      → source < 32
      → pending_bit slab source ≡ (
          level_bit slab source
          && not (claimed_bit slab machine source || claimed_bit slab supervisor source))
  pub single :
      (source : ℕ)
      → source < 32
      → claimed_bit slab machine source && claimed_bit slab supervisor source ≡ false

-- A slab with the same gateway bits.
pub gated_as :
    (slab slab' : ℕ → ℕ)
    → IsSlab slab'
    → ((i : ℕ) → 128 ≤ i → i < 132 → slab' i ≡ slab i)
    → ((i : ℕ) → 148 ≤ i → i < 160 → slab' i ≡ slab i)
    → IsGated slab
    → IsGated slab'
unfolding is_source_bit_set
gated_as slab slab' bytes p q before = record {
  bytes = bytes;
  gate = λ source h. ground (
    arith,
    before.gate source h,
    p (128 + source / 8),
    q (148 + source / 8),
    q (152 + source / 8),
    q (156 + source / 8),
  );
  single = λ source h.
      ground (arith, before.single source h, q (148 + source / 8), q (152 + source / 8));
}

set_plic_context_wire-IsGated :
    (plic : Plic) (context : PlicContext) (level : Bool)
    → IsGated plic.slab
    → IsGated (set_plic_context_wire plic context level).slab
unfolding set_plic_context_wire
set_plic_context_wire-IsGated plic machine level before =
    gated_as plic.slab _ (λ i. ground (arith, before.bytes i)) (λ i a b. ground arith)
      (λ i a b. ground arith) before
set_plic_context_wire-IsGated plic supervisor level before =
    gated_as plic.slab _ (λ i. ground (arith, before.bytes i)) (λ i a b. ground arith)
      (λ i a b. ground arith) before

pub refresh_context_wire-IsGated :
    (plic : Plic) (context : PlicContext)
    → IsGated plic.slab
    → IsGated (refresh_context_wire plic context).slab
unfolding refresh_context_wire
refresh_context_wire-IsGated plic context before =
    set_plic_context_wire-IsGated plic context _ before

pub refresh_all_context_wires-IsGated :
    (plic : Plic) → IsGated plic.slab → IsGated (refresh_all_context_wires plic).slab
unfolding refresh_all_context_wires
refresh_all_context_wires-IsGated plic before =
    refresh_context_wire-IsGated (refresh_context_wire plic machine) supervisor
      (refresh_context_wire-IsGated plic machine before)

-- The four gateway bits of every source after an update of one field.
module _ (slab : ℕ → ℕ) (bytes : IsSlab slab) (source : ℕ) (value : Bool) (hs : source < 32)
    (other : ℕ) (ho : other < 32) where
  apart_from :
      (field field' : ℕ)
      → (field + 4 ≤ field') ⊎ (field' + 4 ≤ field)
      → is_source_bit_set (update_source_bit slab field source value) field' other
        ≡ is_source_bit_set slab field' other
  apart_from field field' apart =
      is_source_bit_set-apart slab bytes field source value field' other hs ho apart

  pub pending_update :
      (pending_bit (update_source_bit slab plic_host_pending source value) other
        ≡ (if other == source then value else pending_bit slab other))
      × (level_bit (update_source_bit slab plic_host_pending source value) other
          ≡ level_bit slab other)
      × (claimed_bit (update_source_bit slab plic_host_pending source value) machine other
          ≡ claimed_bit slab machine other)
      × (claimed_bit (update_source_bit slab plic_host_pending source value) supervisor other
          ≡ claimed_bit slab supervisor other)
  pending_update = (
    is_source_bit_set-same slab bytes 128 source value other,
    apart_from 128 156 (omega arith),
    apart_from 128 148 (omega arith),
    apart_from 128 152 (omega arith),
  )

  pub level_update :
      (pending_bit (update_source_bit slab plic_host_input_level source value) other
        ≡ pending_bit slab other)
      × (level_bit (update_source_bit slab plic_host_input_level source value) other
          ≡ (if other == source then value else level_bit slab other))
      × (claimed_bit (update_source_bit slab plic_host_input_level source value) machine other
          ≡ claimed_bit slab machine other)
      × (claimed_bit (update_source_bit slab plic_host_input_level source value) supervisor other
          ≡ claimed_bit slab supervisor other)
  level_update = (
    apart_from 156 128 (omega arith),
    is_source_bit_set-same slab bytes 156 source value other,
    apart_from 156 148 (omega arith),
    apart_from 156 152 (omega arith),
  )

  pub machine_update :
      (pending_bit (update_source_bit slab plic_host_claimed_by_m source value) other
        ≡ pending_bit slab other)
      × (level_bit (update_source_bit slab plic_host_claimed_by_m source value) other
          ≡ level_bit slab other)
      × (claimed_bit (update_source_bit slab plic_host_claimed_by_m source value) machine other
          ≡ (if other == source then value else claimed_bit slab machine other))
      × (claimed_bit (update_source_bit slab plic_host_claimed_by_m source value) supervisor other
          ≡ claimed_bit slab supervisor other)
  machine_update = (
    apart_from 148 128 (omega arith),
    apart_from 148 156 (omega arith),
    is_source_bit_set-same slab bytes 148 source value other,
    apart_from 148 152 (omega arith),
  )

  pub supervisor_update :
      (pending_bit (update_source_bit slab plic_host_claimed_by_s source value) other
        ≡ pending_bit slab other)
      × (level_bit (update_source_bit slab plic_host_claimed_by_s source value) other
          ≡ level_bit slab other)
      × (claimed_bit (update_source_bit slab plic_host_claimed_by_s source value) machine other
          ≡ claimed_bit slab machine other)
      × (claimed_bit (update_source_bit slab plic_host_claimed_by_s source value) supervisor other
          ≡ (if other == source then value else claimed_bit slab supervisor other))
  supervisor_update = (
    apart_from 152 128 (omega arith),
    apart_from 152 156 (omega arith),
    apart_from 152 148 (omega arith),
    is_source_bit_set-same slab bytes 152 source value other,
  )
