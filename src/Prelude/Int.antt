-- ===== src/Prelude/Int.antt =====
-- Signed whole numbers over the native ones: `negsuc n` is -(n + 1).
use Prim.Native.Nat.{ℕ, zero, suc, ◌+◌, ◌-◌, ◌*◌, ◌/◌, ◌%◌, ◌^◌, compare, Ordering}
use mathlib.Core.Bool.{Bool}
use ya_risc_v.Prelude.Tests.{leb, if◌then◌else◌, is_eq}

pub data ℤ : Type 0 where
  pos : ℕ → ℤ
  negsuc : ℕ → ℤ

-- a - b, as an integer.
abbrev pub sub_ℕ : ℕ → ℕ → ℤ
sub_ℕ a b = if leb b a then pos (a - b) else negsuc (b - a - 1)

abbrev pub compare_ℤ : ℤ → ℤ → Ordering
compare_ℤ (pos a) (pos b) = compare a b
compare_ℤ (pos a) (negsuc b) = Ordering.gt
compare_ℤ (negsuc a) (pos b) = Ordering.lt
compare_ℤ (negsuc a) (negsuc b) = compare b a

-- `-a`
abbrev pub negated : ℕ → ℤ
negated zero = pos zero
negated (suc a) = negsuc a

infix 70 ◌*ℤ◌ ◌/ℤ◌ ◌%ℤ◌
abbrev pub ◌*ℤ◌ : ℤ → ℤ → ℤ
pos a *ℤ pos b = pos (a * b)
pos a *ℤ negsuc b = negated (a * (b + 1))
negsuc a *ℤ pos b = negated ((a + 1) * b)
negsuc a *ℤ negsuc b = pos ((a + 1) * (b + 1))

-- The `/` and `%` of a `bigint`: toward zero, with the sign of the dividend.
abbrev pub ◌/ℤ◌ : ℤ → ℤ → ℤ
pos a /ℤ pos b = pos (a / b)
pos a /ℤ negsuc b = negated (a / (b + 1))
negsuc a /ℤ pos b = negated ((a + 1) / b)
negsuc a /ℤ negsuc b = pos ((a + 1) / (b + 1))

abbrev pub ◌%ℤ◌ : ℤ → ℤ → ℤ
pos a %ℤ pos b = pos (a % b)
pos a %ℤ negsuc b = pos (a % (b + 1))
negsuc a %ℤ pos b = negated ((a + 1) % b)
negsuc a %ℤ negsuc b = negated ((a + 1) % (b + 1))

-- `z >> k` of a `bigint`, toward minus infinity.
abbrev pub shift_right_ℤ : ℤ → ℕ → ℤ
shift_right_ℤ (pos a) k = pos (a / 2 ^ k)
shift_right_ℤ (negsuc a) k = negsuc (a / 2 ^ k)

-- `z & mask` of a `bigint` with a mask of `k` ones: its two's complement in `k` bits.
abbrev pub low_bits_ℤ : ℕ → ℤ → ℕ
low_bits_ℤ k (pos a) = a % 2 ^ k
low_bits_ℤ k (negsuc a) = 2 ^ k - 1 - a % 2 ^ k

-- `a === b`
abbrev pub is_same_ℤ : ℤ → ℤ → Bool
is_same_ℤ a b = is_eq (compare_ℤ a b)
