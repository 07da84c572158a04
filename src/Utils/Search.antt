-- ===== src/Utils/Search.antt =====
-- src/utils/binary-search.ts: the last element of the leading part of an array that has a property.
-- `>>` works on 32 bits, so the definitions are those of the code for fewer than 2 ^ 30 items.
use ya_risc_v.Prelude.{
  sub_ℕ, ltb, false, length, true, Bool, zero, suc, List, ◌+◌, ◌/◌, ◌≤◌, ◌<◌, ◌≡◌, ◌∷◌, [],
  if◌then◌else◌, ℕ, ℤ, some, Option, none,
}

module _ {ℓ} {A : Type ℓ} (predicate : A → Bool) where
  -- `items[index]` is there and has the property.
  abbrev pub holds_at : List A → ℕ → Bool
  holds_at [] index = false
  holds_at (x ∷ rest) zero = predicate x
  holds_at (x ∷ rest) (suc index) = holds_at rest index

  -- The loop's test.
  abbrev pub goes_on : ℕ × ℕ → Bool
  goes_on (low, high) = ltb low high

  -- The loop's body.
  unfoldable pub narrow : List A → ℕ × ℕ → ℕ × ℕ
  narrow items (low, high) =
      let mid = (low + high) / 2 in if holds_at items mid then (mid + 1, high) else (low, mid)

  -- `none` when the fuel is spent and the loop's test still holds.
  unfoldable pub search_loop : ℕ → List A → ℕ × ℕ → Option ℕ
  unfolding narrow
  search_loop zero items range = if goes_on range then none else some range.0
  search_loop (suc fuel) items range =
      let rest = search_loop fuel items (narrow items range) in
      if goes_on range then rest else some range.0

  -- The index of the last element, as an integer: -1 when there is none.
  unfoldable pub find_last_index : List A → Option ℤ
  unfolding search_loop
  find_last_index items = elim (search_loop (length items) items (0, length items)) [
    | none ↦ none
    | some low ↦ some (sub_ℕ low 1)
  ]

  -- `[true…, false…]`: the first `count` elements have the property and no later one has.
  pub record IsPartitioned (items : List A) (count : ℕ) : Type 0 where
    pub leading : (i : ℕ) → i < count → holds_at items i ≡ true
    pub trailing : (i : ℕ) → count ≤ i → holds_at items i ≡ false
