-- ===== src/Plic/Steps.antt =====
-- A changing input keeps the gateway in step; claims and completions are in Steps/.
pub mod Machine
pub mod Supervisor
use ya_risc_v.Plic.Gateway.{update_source_bit}
use ya_risc_v.Plic.Bits.{update_source_bit-IsSlab}
use ya_risc_v.Plic.Layout.{
  plic_host_claimed_by_m, plic_host_input_level, plic_host_claimed_by_s, plic_host_pending, machine,
  supervisor,
}
use ya_risc_v.Prelude.{false, true, arith, ◌<◌, ◌||◌, ◌≡◌, ℕ}
use ya_risc_v.Plic.Gated.{
  pending_bit, level_bit, machine_update, IsGated, pending_update, level_update, supervisor_update,
  claimed_bit,
}

module _ (slab : ℕ → ℕ) (before : IsGated slab) (source : ℕ) (hs : source < 32) where
  -- The input goes down.
  pub lowered : IsGated (
      update_source_bit
        (update_source_bit slab plic_host_input_level source false)
        plic_host_pending
        source
        false)
  lowered = record {
    bytes =
        update_source_bit-IsSlab (update_source_bit slab plic_host_input_level source false)
          (update_source_bit-IsSlab slab before.bytes plic_host_input_level source false)
          plic_host_pending source false;
    gate = λ other ho. ground (
      arith,
      before.gate other ho,
      before.single other ho,
      level_update slab before.bytes source false hs other ho,
      pending_update (update_source_bit slab plic_host_input_level source false)
          (update_source_bit-IsSlab slab before.bytes plic_host_input_level source false) source
          false hs other ho,
    );
    single = λ other ho. ground (
      arith,
      before.gate other ho,
      before.single other ho,
      level_update slab before.bytes source false hs other ho,
      pending_update (update_source_bit slab plic_host_input_level source false)
          (update_source_bit-IsSlab slab before.bytes plic_host_input_level source false) source
          false hs other ho,
    );
  }

  -- The input of an unclaimed source goes up.
  pub raised :
      (claimed_bit slab machine source || claimed_bit slab supervisor source ≡ false)
      → IsGated (
          update_source_bit
            (update_source_bit slab plic_host_input_level source true)
            plic_host_pending
            source
            true)
  raised unclaimed = record {
    bytes =
        update_source_bit-IsSlab (update_source_bit slab plic_host_input_level source true)
          (update_source_bit-IsSlab slab before.bytes plic_host_input_level source true)
          plic_host_pending source true;
    gate = λ other ho. ground (
      arith,
      before.gate other ho,
      before.single other ho,
      level_update slab before.bytes source true hs other ho,
      pending_update (update_source_bit slab plic_host_input_level source true)
          (update_source_bit-IsSlab slab before.bytes plic_host_input_level source true) source true
          hs other ho,
      unclaimed,
    );
    single = λ other ho. ground (
      arith,
      before.gate other ho,
      before.single other ho,
      level_update slab before.bytes source true hs other ho,
      pending_update (update_source_bit slab plic_host_input_level source true)
          (update_source_bit-IsSlab slab before.bytes plic_host_input_level source true) source true
          hs other ho,
      unclaimed,
    );
  }

  -- The input of a claimed source goes up.
  pub raised_claimed :
      (claimed_bit slab machine source || claimed_bit slab supervisor source ≡ true)
      → IsGated (update_source_bit slab plic_host_input_level source true)
  raised_claimed claimed = record {
    bytes = update_source_bit-IsSlab slab before.bytes plic_host_input_level source true;
    gate = λ other ho. ground (
      arith,
      before.gate other ho,
      before.single other ho,
      level_update slab before.bytes source true hs other ho,
      claimed,
    );
    single = λ other ho. ground (
      arith,
      before.gate other ho,
      before.single other ho,
      level_update slab before.bytes source true hs other ho,
      claimed,
    );
  }
