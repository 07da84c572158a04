-- ===== src/Reservation/Sweep.antt =====
-- A loop over the harts that clears the slots that pass a test.
use ya_risc_v.Prelude.{
  ltb, Bool, suc, zero, ◌==◌, ◌&&◌, ◌≡◌, if◌then◌else◌, ℕ, refl, false, arith, true, ◌∙◌,
}

pub record Slot : Type 0 where
  pub valid : ℕ
  pub width : ℕ
  pub address : ℕ

-- `clearReservationLocked`
abbrev pub cleared : Slot → Slot
cleared slot = record slot { valid = 0 }

abbrev pub set_slot : (ℕ → Slot) → ℕ → Slot → ℕ → Slot
set_slot slots hart slot i = if i == hart then slot else slots i

-- `for (let hart = 0; hart < count; hart += 1)`, with the clearing of a slot as its body.
unfoldable pub sweep : (ℕ → Slot → Bool) → ℕ → (ℕ → Slot) → ℕ → Slot
sweep test zero slots = slots
sweep test (suc count) slots =
    let before = sweep test count slots in
    if test count (before count) then set_slot before count (cleared (before count)) else before

if_apply : (c : Bool) (f g : ℕ → Slot) (i : ℕ) → (if c then f else g) i ≡ (if c then f i else g i)
if_apply true f g i = refl
if_apply false f g i = refl

pub sweep_lem :
    (test : ℕ → Slot → Bool) (count : ℕ) (slots : ℕ → Slot) (i : ℕ)
    → sweep test count slots i
      ≡ (if ltb i count && test i (slots i) then cleared (slots i) else slots i)
unfolding sweep
sweep_lem test zero slots i = ground arith
sweep_lem test (suc count) slots i =
    let here : sweep test count slots count ≡ slots count =
      ground (arith, sweep_lem test count slots count) in
    if_apply (test count (sweep test count slots count))
      (set_slot (sweep test count slots) count (cleared (sweep test count slots count)))
      (sweep test count slots) i
    ∙ rw (here, sweep_lem test count slots i) (ground arith)
