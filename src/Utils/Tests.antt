-- ===== src/Utils/Tests.antt =====
-- Concrete runs of the helpers.
use ya_risc_v.Utils.Search.{find_last_index, search_loop}
use ya_risc_v.Prelude.{List, ltb, Bool, sub_ℕ, ◌≡◌, ◌∷◌, [], ℕ, refl, some}

abbrev below_five : ℕ → Bool
below_five x = ltb x 5

abbrev marks : List ℕ
marks = 1 ∷ 3 ∷ 4 ∷ 9 ∷ 12 ∷ []

-- An empty array: the loop is not entered.
nothing_found : find_last_index below_five [] ≡ some (sub_ℕ 0 1)
unfolding find_last_index search_loop
nothing_found = refl
