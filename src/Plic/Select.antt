-- ===== src/Plic/Select.antt =====
-- The source that a claim returns: the best of those that are pending, enabled and above the threshold.
use ya_risc_v.Plic.Gateway.{load_32, is_source_bit_set, select_best, select_claimable_source}
use ya_risc_v.Prelude.{
  refl, true, false, suc, ltb, Bool, arith, not, ◌≢◌, ◌*◌, ◌≤◌, ◌<◌, ◌&&◌, ◌≡◌, ◌⊎◌, ℕ, leb, zero,
  ◌||◌, if◌then◌else◌, ◌==◌,
}
use ya_risc_v.Plic.Layout.{
  PlicContext, enable_host_offset, threshold_host_offset, plic_host_pending, plic_max_source,
}

abbrev pub source_priority_of : (ℕ → ℕ) → ℕ → ℕ
source_priority_of slab source = load_32 slab (source * 4)

abbrev pub is_claimable : (ℕ → ℕ) → PlicContext → ℕ → Bool
is_claimable slab context source =
    is_source_bit_set slab plic_host_pending source
    && is_source_bit_set slab (enable_host_offset context) source
    && not (leb (source_priority_of slab source) (load_32 slab (threshold_host_offset context)))

-- `source` is the best of the sources 1 to `count`, or 0 when none may be claimed.
pub record IsBest (slab : ℕ → ℕ) (context : PlicContext) (count source : ℕ) : Type 0 where
  pub inside : source ≤ count
  pub claimable : source ≢ 0 → is_claimable slab context source ≡ true
  pub best :
      (other : ℕ)
      → 0 < other
      → other ≤ count
      → is_claimable slab context other ≡ true
      → (source ≢ 0)
        × ((source_priority_of slab other < source_priority_of slab source)
            ⊎ ((source_priority_of slab other ≡ source_priority_of slab source) × (source ≤ other)))

-- The tests of the loop's body, in the code's order.
body_cases :
    (P : ℕ × ℕ → Type 0) (p e l b : Bool) (x y : ℕ × ℕ)
    → (p && e && not l ≡ false → P x)
    → (p && e && not l ≡ true → b ≡ true → P y)
    → (p && e && not l ≡ true → b ≡ false → P x)
    → P (if not p || not e then x else if l then x else if b then y else x)
body_cases P false e l b x y f g h = f refl
body_cases P true false l b x y f g h = f refl
body_cases P true true true b x y f g h = f refl
body_cases P true true false true x y f g h = g refl refl
body_cases P true true false false x y f g h = h refl refl

module _ (slab : ℕ → ℕ) (context : PlicContext) where
  record Loop (count : ℕ) (result : ℕ × ℕ) : Type 0 where
    is_best : IsBest slab context count result.0
    kept : result.0 ≢ 0 → result.1 ≡ source_priority_of slab result.0

  skipped :
      (count : ℕ) (result : ℕ × ℕ)
      → Loop count result
      → is_claimable slab context (suc count) ≡ false
      → Loop (suc count) result
  skipped count result loop never = record {
    is_best = record {
      inside = omega (arith, loop.is_best.inside);
      claimable = loop.is_best.claimable;
      best = λ other p q c. loop.is_best.best other p (ground (arith, never, c)) c;
    };
    kept = loop.kept;
  }

  raised :
      (count : ℕ) (result : ℕ × ℕ)
      → Loop count result
      → is_claimable slab context (suc count) ≡ true
      → (result.0 ≡ 0) ⊎ (result.1 < source_priority_of slab (suc count))
      → Loop (suc count) (suc count, source_priority_of slab (suc count))
  raised count result loop ready better = record {
    is_best = record {
      inside = omega arith;
      claimable = λ h. ready;
      best = λ other p q c.
          ground (arith, loop.is_best.best other p, loop.kept, c, loop.is_best.inside);
    };
    kept = λ h. refl;
  }

  stayed :
      (count : ℕ) (result : ℕ × ℕ)
      → Loop count result
      → result.0 ≢ 0
      → source_priority_of slab (suc count) ≤ result.1
      → Loop (suc count) result
  stayed count result loop some_source lower = record {
    is_best = record {
      inside = omega (arith, loop.is_best.inside);
      claimable = loop.is_best.claimable;
      best = λ other p q c.
          ground (arith, loop.is_best.best other p, loop.kept, c, loop.is_best.inside);
    };
    kept = loop.kept;
  }

  select_best-Loop : (count : ℕ) → Loop count (select_best slab context count)
  unfolding select_best
  select_best-Loop zero = record {
    is_best = record {
      inside = omega arith;
      claimable = λ h. absurd (h refl);
      best = λ other p q c. absurd (omega arith);
    };
    kept = λ h. absurd (h refl);
  }
  select_best-Loop (suc count) =
      let loop = select_best-Loop count in
      let result = select_best slab context count in
      let rank = source_priority_of slab (suc count) in
      body_cases (Loop (suc count)) (is_source_bit_set slab plic_host_pending (suc count))
        (is_source_bit_set slab (enable_host_offset context) (suc count))
        (leb rank (load_32 slab (threshold_host_offset context)))
        (result.0 == 0 || ltb result.1 rank || (rank == result.1 && ltb (suc count) result.0))
        result (suc count, rank) (skipped count result loop)
        (λ ready b. raised count result loop ready (ground (arith, b, loop.is_best.inside)))
        (λ ready b. stayed count result loop (ground (arith, b)) (ground (arith, b)))

-- The selected source is claimable and no claimable source has a higher priority or, at the same
-- priority, a lower number; it is 0 only when none of the 31 sources is claimable.
pub select_claimable_source-IsBest :
    (slab : ℕ → ℕ) (context : PlicContext)
    → IsBest slab context plic_max_source (select_claimable_source slab context)
unfolding select_claimable_source
select_claimable_source-IsBest slab context =
    (select_best-Loop slab context plic_max_source).is_best
