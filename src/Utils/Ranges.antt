-- ===== src/Utils/Ranges.antt =====
-- src/utils/ranges.ts and src/utils/alignment.ts: half-open ranges of addresses.
use Prim.Native.Nat.{max}
use ya_risc_v.Bytes.Value.{value}
use ya_risc_v.Prelude.{
  ltb, true, Bool, Bool-cases, Option, inr, none, arith, inl, List, some, ◌+◌, ◌*◌, ◌/◌, ◌≤◌, ◌<◌,
  ◌&&◌, ◌-◌, ◌≡◌, ◌∷◌, [], if◌then◌else◌, ℕ, false, refl, ◌↔◌,
}

pub record NamedRange (Label : Type 0) : Type 0 where
  pub name : Label
  pub base : ℕ
  pub size : ℕ

unfoldable pub ranges_overlap : ℕ → ℕ → ℕ → ℕ → Bool
ranges_overlap a_base a_size b_base b_size =
    ltb 0 a_size && ltb 0 b_size && ltb a_base (b_base + b_size) && ltb b_base (a_base + a_size)

-- `~(alignment - 1n)` clears the low bits of a power of two.
unfoldable pub align_up : ℕ → ℕ → ℕ
align_up value alignment = (value + alignment - 1) / alignment * alignment

some≢none : {A : Type 0} {a : A} → some a ≡ none → ⊥
some≢none e = absurd (ground arith)

not_both : {c : Bool} → c ≡ false → c ≡ true → ⊥
not_both e f = ground arith

module _ {Label : Type 0} where
  -- The inner loop: the first later range that overlaps `a`.
  unfoldable pub overlapping_with :
      NamedRange Label → List (NamedRange Label) → Option (NamedRange Label × NamedRange Label)
  unfolding ranges_overlap
  overlapping_with a [] = none
  overlapping_with a (b ∷ rest) =
      let later = overlapping_with a rest in
      if ranges_overlap a.base a.size b.base b.size then some (a, b) else later

  unfoldable pub find_overlapping_pair :
      List (NamedRange Label) → Option (NamedRange Label × NamedRange Label)
  unfolding overlapping_with
  find_overlapping_pair [] = none
  find_overlapping_pair (a ∷ rest) =
      let later = find_overlapping_pair rest in
      elim (overlapping_with a rest) [ some pair ↦ some pair | none ↦ later ]

  -- A common address of two ranges.
  abbrev pub Shares : NamedRange Label → NamedRange Label → ℕ → Type 0
  Shares a b x = (a.base ≤ x) × (x < a.base + a.size) × (b.base ≤ x) × (x < b.base + b.size)

  pub ranges_overlap_iff :
      (a b : NamedRange Label)
      → (ranges_overlap a.base a.size b.base b.size ≡ true) ↔ ((x : ℕ) × Shares a b x)
  unfolding ranges_overlap
  ranges_overlap_iff a b = (
    λ h. (max a.base b.base, (ground arith, ground arith, ground arith, ground arith)),
    λ s. ground (arith, s.1),
  )

  -- No two entries of the list, at different places, share an address.
  abbrev pub Apart : NamedRange Label → List (NamedRange Label) → Type 0
  Apart a [] = Unit
  Apart a (b ∷ rest) = ((x : ℕ) → ¬ Shares a b x) × Apart a rest

  abbrev pub AllApart : List (NamedRange Label) → Type 0
  AllApart [] = Unit
  AllApart (a ∷ rest) = Apart a rest × AllApart rest

  overlapping_with-Apart :
      (a : NamedRange Label) (rest : List (NamedRange Label))
      → overlapping_with a rest ≡ none
      → Apart a rest
  unfolding overlapping_with
  overlapping_with-Apart a [] h = tt
  overlapping_with-Apart a (b ∷ rest) h =
      elim (Bool-cases (ranges_overlap a.base a.size b.base b.size)) [
        | inl e ↦ absurd (some≢none (rw e at h))
        | inr e ↦ (
          λ x s. not_both e ((ranges_overlap_iff a b).1 (x, s)),
          overlapping_with-Apart a rest (rw e at h),
        )
      ]

  -- When the search finds nothing, no two of the ranges share an address.
  pub find_overlapping_pair-none :
      (ranges : List (NamedRange Label)) → find_overlapping_pair ranges ≡ none → AllApart ranges
  unfolding find_overlapping_pair
  find_overlapping_pair-none [] h = tt
  find_overlapping_pair-none (a ∷ rest) h =
      (elim (overlapping_with a rest)
          as (λ o.
            overlapping_with a rest ≡ o
            → (elim o [ some pair ↦ some pair | none ↦ find_overlapping_pair rest ]) ≡ none
            → AllApart (a ∷ rest)) [
              | some pair ↦ λ e found. absurd (some≢none found)
              | none ↦ λ e found.
                  (overlapping_with-Apart a rest e, find_overlapping_pair-none rest found)
            ])
        refl h
