-- ===== src/Cpu/Pmp/Napot.antt =====
-- The range of a naturally aligned entry of the memory protection.
use ya_risc_v.Prelude.{ℕ, zero, suc, ◌+◌, ◌-◌, ◌*◌, ◌/◌, ◌%◌, ◌^◌, ◌<◌, ◌≡◌, refl, ap}
use ya_risc_v.Prelude.{◌∙◌, arith, bit_and, leb, some, false}
use native.Mathlib.Nat.{pow-suc, one-le-pow, add-mul-mod_self_left, mod-eq_of_lt}
use ya_risc_v.Cpu.Types.{Registers}
use ya_risc_v.Cpu.Pmp.{trailing_ones_loop, trailing_ones, entry_range, config_byte}
use ya_risc_v.Cpu.Pmp.{pmp_cfg_a_mask, pmp_cfg_a_napot, read_pmp_address}

-- `k` ones below a zero, under the number `q`.
abbrev pub encoded : ℕ → ℕ → ℕ
encoded q k = q * 2 ^ suc k + (2 ^ k - 1)

encoded-half : (q k : ℕ) → (encoded q (suc k) / 2 ≡ encoded q k) × (encoded q (suc k) % 2 ≡ 1)
encoded-half q k = omega (
  arith,
  pow-suc 2 k,
  pow-suc 2 (suc k),
  ap (λ (t : ℕ). q * t) (pow-suc 2 (suc k)),
  one-le-pow k 2 (omega arith),
)

trailing_ones_loop-encoded :
    (rounds count q k : ℕ) → k < rounds → trailing_ones_loop rounds count (encoded q k) ≡ count + k
unfolding trailing_ones_loop
trailing_ones_loop-encoded zero count q k h = absurd (omega arith)
trailing_ones_loop-encoded (suc rounds) count q zero h = ground arith
trailing_ones_loop-encoded (suc rounds) count q (suc k) h =
    rw ((encoded-half q k).1, (encoded-half q k).0)
      (omega (arith, trailing_ones_loop-encoded rounds (suc count) q k (omega arith)))

add_one : (k : ℕ) → k + 1 ≡ suc k
add_one k = omega arith

zero_plus : (k : ℕ) → 0 + k ≡ k
zero_plus k = omega arith

below : (k : ℕ) → k < 64 → leb 64 k ≡ false
below k h = ground arith

add_three : (k : ℕ) → k + 3 ≡ suc (suc (suc k))
add_three k = omega arith

encoded-mod : (q k : ℕ) → encoded q k % 2 ^ suc k ≡ 2 ^ k - 1
encoded-mod q k =
    ap (λ (t : ℕ). t % 2 ^ suc k) (omega arith)
    ∙ add-mul-mod_self_left (2 ^ k - 1) (2 ^ suc k) q
    ∙ mod-eq_of_lt (omega (arith, pow-suc 2 k, one-le-pow k 2 (omega arith)))

encoded-low : (q k : ℕ) → (encoded q k - encoded q k % 2 ^ (k + 1)) * 4 ≡ q * 2 ^ (k + 3)
encoded-low q k =
    rw (add_one k, add_three k)
      (omega (
        arith,
        pow-suc 2 k,
        pow-suc 2 (suc k),
        pow-suc 2 (suc (suc k)),
        ap (λ (t : ℕ). q * t) (pow-suc 2 (suc k)),
        ap (λ (t : ℕ). q * t) (pow-suc 2 (suc (suc k))),
        encoded-mod q k,
        one-le-pow k 2 (omega arith),
      ))

-- An entry of NAPOT mode whose address register holds `k` ones, fewer than 64, below a zero, under
-- a number `q`, is the range of 2 ^ (k + 3) bytes at the multiple `q` of its size.
pub entry_range-encoded :
    (r : Registers) (entry q k : ℕ)
    → bit_and (config_byte r entry) pmp_cfg_a_mask ≡ pmp_cfg_a_napot
    → read_pmp_address r entry ≡ encoded q k
    → k < 64
    → entry_range r entry
      ≡ some (record { low = q * 2 ^ (k + 3); high = q * 2 ^ (k + 3) + 2 ^ (k + 3) })
unfolding entry_range trailing_ones
entry_range-encoded r entry q k mode address few =
    rw
      (
        mode,
        address,
        trailing_ones_loop-encoded 64 0 q k few,
        zero_plus k,
        encoded-low q k,
        below k few,
      )
      refl
