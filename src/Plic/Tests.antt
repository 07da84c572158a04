-- ===== src/Plic/Tests.antt =====
-- Concrete runs of the controller: the UART's source 10 at priority 3, enabled for the machine.
use ya_risc_v.Plic.Select.{IsBest, select_claimable_source-IsBest}
use ya_risc_v.Plic.Layout.{plic_max_source, machine, supervisor}
use ya_risc_v.Plic.Cycle.Signal.{claim_then_complete, signal_all}
use ya_risc_v.Plic.Guest.{drives, perform_all, Access, loads, perform_all-IsGated}
use ya_risc_v.Prelude.{
  refl, arith, false, List, bit_and, inr, true, inl, ◌||◌, ◌+◌, ◌/◌, ◌^◌, ◌%◌, ◌≤◌, ◌<◌, ◌==◌, ◌≡◌,
  ◌∙◌, ◌∷◌, ◌⊎◌, [], if◌then◌else◌, ℕ,
}
use ya_risc_v.Plic.Invariant.{set_plic_source_pending-IsGated}
use ya_risc_v.Plic.Gateway.{
  complete_plic_source, claim_plic_source, select_claimable_source, set_plic_source_pending,
  is_source_bit_set, load_bit, Plic,
}
use ya_risc_v.Bytes.{unsigned_big_int_to_bytes}
use ya_risc_v.Plic.Gated.{claimed_bit, pending_bit, IsGated}
use Prim.Native.Nat.{bit_and-bitwise}

abbrev reset : Plic
reset = record {
  slab = λ i. if i == 40 then 3 else if i == 133 then 4 else 0;
  irq_level = 0;
  guest_address = unsigned_big_int_to_bytes 0x0c00_0000;
}

zero-bit_and : (x : ℕ) → bit_and 0 x ≡ 0
zero-bit_and x = omega (arith, bit_and-bitwise 0 x)

reset_bit : (i bit : ℕ) → reset.slab i ≡ 0 → load_bit reset.slab i bit ≡ false
reset_bit i bit e = ground (arith, zero-bit_and (2 ^ bit), e)

reset_field :
    (field source : ℕ)
    → source < 32
    → (field ≡ 128) ⊎ (148 ≤ field)
    → is_source_bit_set reset.slab field source ≡ false
unfolding is_source_bit_set
reset_field field source h place = reset_bit (field + source / 8) (source % 8) (ground arith)

reset-IsGated : IsGated reset.slab
reset-IsGated = record {
  bytes = λ i. ground arith;
  gate = λ source h.
      reset_field 128 source h (inl refl) ∙ rw (reset_field 156 source h (inr (omega arith))) refl;
  single = λ source h. rw (reset_field 148 source h (inr (omega arith))) refl;
}

select_claimable_source-IsBest_example :
    IsBest reset.slab machine plic_max_source (select_claimable_source reset.slab machine)
select_claimable_source-IsBest_example = select_claimable_source-IsBest reset.slab machine

abbrev uart_claimed : List Access
uart_claimed =
    drives 10 true ∷ loads (unsigned_big_int_to_bytes 0x0c20_0004) 4 ∷ drives 10 false ∷ []

perform_all-IsGated_example : IsGated (perform_all reset uart_claimed).slab
perform_all-IsGated_example = perform_all-IsGated reset uart_claimed reset-IsGated

abbrev uart_high : Plic
uart_high = set_plic_source_pending reset 10 true

uart_high-IsGated : IsGated uart_high.slab
uart_high-IsGated = set_plic_source_pending-IsGated reset reset-IsGated 10 true

uart_selected : (claim_plic_source uart_high machine).0 ≡ 10
unfolding claim_plic_source set_plic_source_pending
uart_selected = refl

-- The UART lowers its input and raises it again between the claim and the completion.
abbrev uart_meanwhile : Plic
uart_meanwhile =
    signal_all (claim_plic_source uart_high machine).1 (claim_plic_source uart_high machine).0
      (false ∷ true ∷ [])

abbrev uart_completed : Plic
uart_completed = complete_plic_source uart_meanwhile machine (claim_plic_source uart_high machine).0

claim_then_complete_example :
    (claimed_bit uart_meanwhile.slab machine (claim_plic_source uart_high machine).0 ≡ true)
    × (pending_bit uart_meanwhile.slab (claim_plic_source uart_high machine).0 ≡ false)
    × (claimed_bit uart_completed.slab machine (claim_plic_source uart_high machine).0
          || claimed_bit uart_completed.slab supervisor (claim_plic_source uart_high machine).0
        ≡ false)
    × (pending_bit uart_completed.slab (claim_plic_source uart_high machine).0 ≡ true)
claim_then_complete_example =
    claim_then_complete uart_high machine (false ∷ true ∷ []) uart_high-IsGated
      (omega (arith, uart_selected))
