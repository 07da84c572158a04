-- ===== src/Bytes/Shift/Base.antt =====
-- Sums of digits under a carry, and shift amounts as whole bytes and bits.
use ya_risc_v.Prelude.{ℕ, zero, suc, ◌+◌, ◌*◌, ◌/◌, ◌%◌, ◌^◌, ◌<◌, ◌≡◌, ap, ◌∙◌, arith}
use mathlib.Core.Path.{fun_ext}
use native.Mathlib.Nat.{pow-suc, add-suc}
use Prim.Native.Nat.add
use native.Mathlib.Numerals.{towards_suc}
use ya_risc_v.Bytes.Value.{digits_value}

-- A carry that passes from each digit to the next one leaves only its ends in the sum.
pub digits_value-carry :
    (x f h : ℕ → ℕ)
    → ((t : ℕ) → x t + h t ≡ f t + 256 * h (suc t))
    → (n i : ℕ) → digits_value n i f + 256 ^ n * h (n + i) ≡ digits_value n i x + h i
digits_value-carry x f h step zero i = rw (add.zero i) (omega arith)
digits_value-carry x f h step (suc n) i =
    rw (add.suc n i, ← add-suc n i)
      (omega (
        arith,
        step i,
        digits_value-carry x f h step n (suc i),
        ap (λ (t : ℕ). t * h (n + suc i)) (pow-suc 256 n),
      ))

pub digits_value-mul :
    (c n i : ℕ) (f : ℕ → ℕ) → digits_value n i (λ t. c * f t) ≡ c * digits_value n i f
digits_value-mul c zero i f = omega arith
digits_value-mul c (suc n) i f = omega (arith, digits_value-mul c n (suc i) f)

-- A fact about the shifts within a byte is checked at each of them.
pub below_eight {ℓ} :
    (P : ℕ → Type ℓ) → P 0 → P 1 → P 2 → P 3 → P 4 → P 5 → P 6 → P 7 → (j : ℕ) → j < 8 → P j
below_eight P a b c d e f g h zero lt = a
below_eight P a b c d e f g h (suc zero) lt = b
below_eight P a b c d e f g h (suc (suc zero)) lt = c
below_eight P a b c d e f g h (suc (suc (suc zero))) lt = d
below_eight P a b c d e f g h (suc (suc (suc (suc zero)))) lt = e
below_eight P a b c d e f g h (suc (suc (suc (suc (suc zero))))) lt = f
below_eight P a b c d e f g h (suc (suc (suc (suc (suc (suc zero)))))) lt = g
below_eight P a b c d e f g h (suc (suc (suc (suc (suc (suc (suc zero))))))) lt = h
below_eight P a b c d e f g h (suc (suc (suc (suc (suc (suc (suc (suc j)))))))) lt =
    absurd (omega arith)

pub digits_value-ext :
    (n i : ℕ) (f g : ℕ → ℕ) → ((t : ℕ) → f t ≡ g t) → digits_value n i f ≡ digits_value n i g
digits_value-ext n i f g h = ap (λ k. digits_value n i k) (fun_ext h)

pow_add_eight : (k : ℕ) → 2 ^ (k + 8) ≡ 256 * 2 ^ k
pow_add_eight k = simp towards_suc (omega arith)

times_zero_add : (j : ℕ) → 8 * 0 + j ≡ j
times_zero_add j = omega arith

times_suc_add : (b j : ℕ) → 8 * suc b + j ≡ (8 * b + j) + 8
times_suc_add b j = omega arith

pub pow_bytes : (b j : ℕ) → 256 ^ b * 2 ^ j ≡ 2 ^ (8 * b + j)
pow_bytes zero j = rw (times_zero_add j) (omega arith)
pow_bytes (suc b) j =
    rw (times_suc_add b j, pow_add_eight (8 * b + j), ← pow_bytes b j, pow-suc 256 b) (omega arith)

-- A shift amount as whole bytes and the bits over.
pub pow_amount : (k : ℕ) → 256 ^ (k / 8) * 2 ^ (k % 8) ≡ 2 ^ k
pow_amount k = pow_bytes (k / 8) (k % 8) ∙ ap (λ (t : ℕ). 2 ^ t) (whole k)
  where
    whole : (k : ℕ) → 8 * (k / 8) + k % 8 ≡ k
    whole k = omega arith
