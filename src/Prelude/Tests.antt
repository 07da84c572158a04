-- ===== src/Prelude/Tests.antt =====
-- Boolean tests on numbers and the conditional expression.
use Prim.Native.Nat.{ℕ, zero, suc, ◌<◌, compare, Ordering}
use mathlib.Core.Path.{◌≡◌, refl}
use mathlib.Core.Logic.{◌↔◌, ◌⊎◌, inl, inr}
use mathlib.Core.Bool.{Bool, true, false, ◌&&◌}
use native.Mathlib.Omega.{arith}

abbrev pub ltb : ℕ → ℕ → Bool
ltb a b = elim (compare a b) [ Ordering.lt ↦ true | _ ↦ false ]

abbrev pub leb : ℕ → ℕ → Bool
leb a b = elim (compare a b) [ Ordering.gt ↦ false | _ ↦ true ]

infix 50 ◌==◌ ◌!=◌
abbrev pub ◌==◌ : ℕ → ℕ → Bool
a == b = elim (compare a b) [ Ordering.eq ↦ true | _ ↦ false ]

abbrev pub ◌!=◌ : ℕ → ℕ → Bool
a != b = elim (compare a b) [ Ordering.eq ↦ false | _ ↦ true ]

infix 1 if◌then◌else◌
abbrev pub if◌then◌else◌ {ℓ} : {A : Type ℓ} → Bool → A → A → A
if true then x else y = x
if false then x else y = y

pub Bool-cases : (b : Bool) → (b ≡ true) ⊎ (b ≡ false)
Bool-cases true = inl refl
Bool-cases false = inr refl

pub ==_iff : (a b : ℕ) → ((a == b) ≡ true) ↔ (a ≡ b)
==_iff a b = ground arith

-- Every number below a bound passes a test.
unfoldable pub all_below : (ℕ → Bool) → ℕ → Bool
all_below test zero = true
all_below test (suc bound) = all_below test bound && test bound

pub all_below_sound :
    (test : ℕ → Bool) (bound : ℕ)
    → all_below test bound ≡ true
    → (i : ℕ) → i < bound
    → test i ≡ true
unfolding all_below
all_below_sound test zero passed i below = absurd (omega arith)
all_below_sound test (suc bound) passed i below =
    ground (arith, all_below_sound test bound (ground arith) i)

-- Two functions that agree on every byte by evaluation.
pub byte_table :
    (f g : ℕ → ℕ) → all_below (λ x. f x == g x) 256 ≡ true → (x : ℕ) → x < 256 → f x ≡ g x
byte_table f g h x lt = (==_iff (f x) (g x)).0 (all_below_sound (λ t. f t == g t) 256 h x lt)

-- The tests `c < 0` and `c === 0` on a comparison.
abbrev pub is_lt : Ordering → Bool
is_lt c = elim c [ Ordering.lt ↦ true | _ ↦ false ]

abbrev pub is_eq : Ordering → Bool
is_eq c = elim c [ Ordering.eq ↦ true | _ ↦ false ]

-- What both results have, the conditional has.
pub if-ap {ℓ k} :
    {A : Type ℓ} (P : A → Type k) (c : Bool) (x y : A) → P x → P y → P (if c then x else y)
if-ap P true x y p q = p
if-ap P false x y p q = q
