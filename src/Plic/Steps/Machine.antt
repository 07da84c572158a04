-- ===== src/Plic/Steps/Machine.antt =====
-- Claims and completions by the machine context keep the gateway in step.
use ya_risc_v.Plic.Gateway.{update_source_bit}
use ya_risc_v.Plic.Bits.{update_source_bit-IsSlab}
use ya_risc_v.Plic.Layout.{plic_host_claimed_by_m, plic_host_pending, machine}
use ya_risc_v.Prelude.{false, true, arith, ◌<◌, ◌≡◌, ℕ}
use ya_risc_v.Plic.Gated.{
  pending_bit, level_bit, machine_update, IsGated, pending_update, claimed_bit,
}

module _ (slab : ℕ → ℕ) (before : IsGated slab) (source : ℕ) (hs : source < 32) where
  -- A claim of a pending source.
  pub claimed_by_machine :
      (pending_bit slab source ≡ true)
      → IsGated (
          update_source_bit
            (update_source_bit slab plic_host_pending source false)
            plic_host_claimed_by_m
            source
            true)
  claimed_by_machine ready = record {
    bytes =
        update_source_bit-IsSlab (update_source_bit slab plic_host_pending source false)
          (update_source_bit-IsSlab slab before.bytes plic_host_pending source false)
          plic_host_claimed_by_m source true;
    gate = λ other ho. ground (
      arith,
      before.gate other ho,
      before.single other ho,
      pending_update slab before.bytes source false hs other ho,
      machine_update (update_source_bit slab plic_host_pending source false)
          (update_source_bit-IsSlab slab before.bytes plic_host_pending source false) source true hs
          other ho,
      ready,
      before.gate source hs,
    );
    single = λ other ho. ground (
      arith,
      before.gate other ho,
      before.single other ho,
      pending_update slab before.bytes source false hs other ho,
      machine_update (update_source_bit slab plic_host_pending source false)
          (update_source_bit-IsSlab slab before.bytes plic_host_pending source false) source true hs
          other ho,
      ready,
      before.gate source hs,
    );
  }

  -- A completion while the input is low.
  pub released_by_machine :
      (level_bit slab source ≡ false)
      → (claimed_bit slab machine source ≡ true)
      → IsGated (update_source_bit slab plic_host_claimed_by_m source false)
  released_by_machine low_input held = record {
    bytes = update_source_bit-IsSlab slab before.bytes plic_host_claimed_by_m source false;
    gate = λ other ho. ground (
      arith,
      before.gate other ho,
      before.single other ho,
      machine_update slab before.bytes source false hs other ho,
      low_input,
      held,
    );
    single = λ other ho. ground (
      arith,
      before.gate other ho,
      before.single other ho,
      machine_update slab before.bytes source false hs other ho,
      low_input,
      held,
    );
  }

  -- A completion while the input is high.
  pub repended_by_machine :
      (level_bit slab source ≡ true)
      → (claimed_bit slab machine source ≡ true)
      → IsGated (
          update_source_bit
            (update_source_bit slab plic_host_claimed_by_m source false)
            plic_host_pending
            source
            true)
  repended_by_machine high_input held = record {
    bytes =
        update_source_bit-IsSlab (update_source_bit slab plic_host_claimed_by_m source false)
          (update_source_bit-IsSlab slab before.bytes plic_host_claimed_by_m source false)
          plic_host_pending source true;
    gate = λ other ho. ground (
      arith,
      before.gate other ho,
      before.single other ho,
      machine_update slab before.bytes source false hs other ho,
      pending_update (update_source_bit slab plic_host_claimed_by_m source false)
          (update_source_bit-IsSlab slab before.bytes plic_host_claimed_by_m source false) source
          true hs other ho,
      high_input,
      held,
      before.single source hs,
    );
    single = λ other ho. ground (
      arith,
      before.gate other ho,
      before.single other ho,
      machine_update slab before.bytes source false hs other ho,
      pending_update (update_source_bit slab plic_host_claimed_by_m source false)
          (update_source_bit-IsSlab slab before.bytes plic_host_claimed_by_m source false) source
          true hs other ho,
      high_input,
      held,
      before.single source hs,
    );
  }
