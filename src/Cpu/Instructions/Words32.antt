-- ===== src/Cpu/Instructions/Words32.antt =====
-- The byte operations on the low halves of words, as 32-bit operations on the numbers.
use ya_risc_v.Prelude.{ℕ, ◌+◌, ◌-◌, ◌*◌, ◌/◌, ◌%◌, ◌^◌, ◌≤◌, ◌<◌, ◌≡◌, refl, sym, ap, ◌∙◌, arith}
use ya_risc_v.Prelude.{ltb, if◌then◌else◌, bit_and, bit_and-pow, byte_table, all_below, zero, suc}
use native.Mathlib.Nat.{
  one-le-pow, div-le_self, div-lt_iff_lt-mul, le-div_iff_mul-le, add-zero, add-suc, mul-add-div,
  pow-suc,
}
use ya_risc_v.Bytes.{Bytes, byte, tabulate, test_bits, low32_bytes, sign_extend_bytes}
use ya_risc_v.Bytes.{byte0_to_number, add_bytes, subtract_bytes, shift_left_bytes}
use ya_risc_v.Bytes.{shift_right_logical_bytes, shift_right_arithmetic_bytes}
use ya_risc_v.Bytes.Value.{value, IsWord, tabulate-IsWord, digits_value-word}
use ya_risc_v.Bytes.Sum.{value-add_bytes, value-subtract_bytes, add_bytes-IsWord}
use ya_risc_v.Bytes.Sum.{subtract_bytes-IsWord}
use ya_risc_v.Bytes.Shift.Left.{value-shift_left_bytes, shift_left_bytes-IsWord}
use ya_risc_v.Bytes.Shift.Right.{value-shift_right_logical_bytes}
use ya_risc_v.Bytes.Shift.Arithmetic.{shift_right_logical_bytes-IsWord}
use ya_risc_v.Bytes.Shift.Arithmetic.{value-shift_right_arithmetic_bytes}
use ya_risc_v.Bytes.Shift.Arithmetic.{shift_right_arithmetic_bytes-IsWord}
use ya_risc_v.Cpu.Instructions.Result.{op_result, op_sra}

-- A 32-bit number in two's complement, as a 64-bit one.
abbrev pub extend32 : ℕ → ℕ
extend32 v = if ltb v (2 ^ 31) then v else v + (2 ^ 64 - 2 ^ 32)

pub low32_bytes-IsWord : {b : Bytes} → IsWord b → IsWord (low32_bytes b)
unfolding low32_bytes tabulate
low32_bytes-IsWord {b} w =
    tabulate-IsWord (λ i. if ltb i 4 then byte b i else 0) (λ i. ground (arith, w.bytes i))

pub value-low32_bytes : {b : Bytes} → IsWord b → value (low32_bytes b) ≡ value b % 2 ^ 32
unfolding low32_bytes
value-low32_bytes {b} w =
    omega (arith, digits_value-word w, w.bytes 0, w.bytes 1, w.bytes 2, w.bytes 3)

pub sign_extend_bytes-IsWord : {b : Bytes} → IsWord b → IsWord (sign_extend_bytes b 4)
unfolding sign_extend_bytes
sign_extend_bytes-IsWord {b} w =
    tabulate-IsWord
      (λ i. if ltb i 4 then byte b i else if test_bits (byte b 3) 0x80 then 255 else 0)
      (λ i. ground (arith, w.bytes i))

pub value-sign_extend_bytes :
    {b : Bytes} → IsWord b → value (sign_extend_bytes b 4) ≡ extend32 (value b % 2 ^ 32)
unfolding sign_extend_bytes tabulate
value-sign_extend_bytes {b} w = ground (
  arith,
  digits_value-word w,
  w.bytes 0,
  w.bytes 1,
  w.bytes 2,
  w.bytes 3,
  bit_and-pow 7 (byte b 3),
)

-- A sign-extended word that stands for the extension of `result`.
abbrev pub Extends : Bytes → ℕ → Type 0
Extends word result =
    IsWord (sign_extend_bytes word 4) × (value (sign_extend_bytes word 4) ≡ result)

pub extended :
    {word : Bytes} (low : ℕ) → IsWord word → value word % 2 ^ 32 ≡ low → Extends word (extend32 low)
extended low w e = (sign_extend_bytes-IsWord w, value-sign_extend_bytes w ∙ ap extend32 e)

low_five_bits : (x : ℕ) → x < 256 → bit_and x 0x1f ≡ x % 32
unfolding all_below
low_five_bits = byte_table (λ x. bit_and x 0x1f) (λ x. x % 32) refl

-- A shift amount is the low five bits of a register.
pub shift_amount32-value : {b : Bytes} → IsWord b → byte0_to_number b 0x1f ≡ value b % 32
unfolding byte0_to_number
shift_amount32-value {b} w =
    omega (arith, low_five_bits (byte b 0) (w.bytes 0), digits_value-word w)

module _ {a b : Bytes} (v : IsWord a) (w : IsWord b) where
  pub addw-Extends :
      Extends (add_bytes (low32_bytes a) (low32_bytes b)) (extend32 ((value a + value b) % 2 ^ 32))
  addw-Extends = extended ((value a + value b) % 2 ^ 32) (add_bytes-IsWord _ _) (
      ap (λ (t : ℕ). t % 2 ^ 32) (value-add_bytes (low32_bytes-IsWord v) (low32_bytes-IsWord w))
      ∙ rw (value-low32_bytes v, value-low32_bytes w) (omega arith))

  pub subw-Extends :
      Extends
        (subtract_bytes (low32_bytes a) (low32_bytes b))
        (extend32 ((value a + 2 ^ 32 - value b % 2 ^ 32) % 2 ^ 32))
  subw-Extends =
      extended ((value a + 2 ^ 32 - value b % 2 ^ 32) % 2 ^ 32) (subtract_bytes-IsWord _ _) (
        ap (λ (t : ℕ). t % 2 ^ 32)
          (value-subtract_bytes (low32_bytes-IsWord v) (low32_bytes-IsWord w))
        ∙ rw (value-low32_bytes v, value-low32_bytes w) (omega arith))

  pub addiw-Extends :
      Extends (add_bytes (low32_bytes a) b) (extend32 ((value a + value b) % 2 ^ 32))
  addiw-Extends = extended ((value a + value b) % 2 ^ 32) (add_bytes-IsWord _ _) (
      ap (λ (t : ℕ). t % 2 ^ 32) (value-add_bytes (low32_bytes-IsWord v) w)
      ∙ rw (value-low32_bytes v) (omega arith))

low_of_low : (x : ℕ) → x % 2 ^ 32 % 2 ^ 32 ≡ x % 2 ^ 32
low_of_low x = omega arith

few_amount : (k : ℕ) → k < 32 → k % 64 ≡ k
few_amount k few = omega arith

module _ {a : Bytes} (v : IsWord a) (k : ℕ) (few : k < 32) where
  whole : k % 64 ≡ k
  whole = few_amount k few

  pub sllw-Extends :
      Extends (shift_left_bytes (low32_bytes a) k) (extend32 (value a % 2 ^ 32 * 2 ^ k % 2 ^ 32))
  sllw-Extends = extended (value a % 2 ^ 32 * 2 ^ k % 2 ^ 32) (shift_left_bytes-IsWord _ k) (
      ap (λ (t : ℕ). t % 2 ^ 32) (value-shift_left_bytes k (low32_bytes-IsWord v))
      ∙ rw (value-low32_bytes v, whole) (omega arith))

  pub srlw-Extends :
      Extends (shift_right_logical_bytes (low32_bytes a) k) (extend32 (value a % 2 ^ 32 / 2 ^ k))
  srlw-Extends = extended (value a % 2 ^ 32 / 2 ^ k) (shift_right_logical_bytes-IsWord _ k) (
      ap (λ (t : ℕ). t % 2 ^ 32) (value-shift_right_logical_bytes k (low32_bytes-IsWord v))
      ∙ rw (value-low32_bytes v, whole) (omega (arith, div-le_self (value a % 2 ^ 32) (2 ^ k))))

pow_add : (a b : ℕ) → 2 ^ (b + a) ≡ 2 ^ b * 2 ^ a
pow_add zero b = rw (add-zero b) (omega arith)
pow_add (suc a) b = rw (add-suc b a) (
    omega
      (arith, pow-suc 2 (b + a), pow-suc 2 a, pow_add a b, ap (λ (t : ℕ). 2 ^ b * t) (pow-suc 2 a)))

-- A shift by `k` in units of `2 ^ (31 - k)`.
module _ (x k : ℕ) (few : k < 32) (small : x < 2 ^ 32) where
  half : ℕ
  half = 2 ^ (31 - k)

  half-pow : half * 2 ^ k ≡ 2 ^ 31
  unfolding half
  half-pow = sym (pow_add k (31 - k)) ∙ ap (λ (t : ℕ). 2 ^ t) {y = 31} (omega arith)

  whole-pow : 2 ^ (64 - k) ≡ 2 ^ 33 * half
  unfolding half
  whole-pow = ap (λ (t : ℕ). 2 ^ t) (omega arith) ∙ pow_add (31 - k) 33

  top : x / 2 ^ k < 2 * half
  top = (div-lt_iff_lt-mul (one-le-pow k 2 (omega arith))).1 (omega (arith, half-pow))

  bottom : 2 ^ 31 ≤ x → half ≤ x / 2 ^ k
  bottom h = (le-div_iff_mul-le (one-le-pow k 2 (omega arith))).1 (omega (arith, half-pow))

  shifted : (x + (2 ^ 64 - 2 ^ 32)) / 2 ^ k ≡ 8589934590 * half + x / 2 ^ k
  shifted =
      ap (λ (t : ℕ). t / 2 ^ k) (omega (arith, half-pow))
      ∙ mul-add-div {m = 2 ^ k} (one-le-pow k 2 (omega arith)) (8589934590 * half) x

  -- The shift of an extended number is again one.
  sra_fits : extend32 (op_result op_sra (extend32 x) k % 2 ^ 32) ≡ op_result op_sra (extend32 x) k
  sra_fits =
      rw (few_amount k few)
        (ground (arith, half-pow, whole-pow, top, bottom, shifted, div-le_self x (2 ^ k)))

module _ {a : Bytes} (v : IsWord a) (k : ℕ) (few : k < 32) where
  operand : Bytes
  operand = sign_extend_bytes (low32_bytes a) 4

  operand-IsWord : IsWord operand
  unfolding operand
  operand-IsWord = sign_extend_bytes-IsWord (low32_bytes-IsWord v)

  value-operand : value operand ≡ extend32 (value a % 2 ^ 32)
  unfolding operand
  value-operand =
      value-sign_extend_bytes (low32_bytes-IsWord v)
      ∙ ap (λ (t : ℕ). extend32 (t % 2 ^ 32)) (value-low32_bytes v)
      ∙ ap extend32 (low_of_low (value a))

  pub sraw-Extends :
      Extends
        (shift_right_arithmetic_bytes (sign_extend_bytes (low32_bytes a) 4) k)
        (op_result op_sra (extend32 (value a % 2 ^ 32)) k)
  unfolding operand
  sraw-Extends = (
    sign_extend_bytes-IsWord (shift_right_arithmetic_bytes-IsWord k operand-IsWord),
    value-sign_extend_bytes (shift_right_arithmetic_bytes-IsWord k operand-IsWord)
        ∙ ap (λ (t : ℕ). extend32 (t % 2 ^ 32))
            (value-shift_right_arithmetic_bytes k operand-IsWord
              ∙ ap (λ (t : ℕ). op_result op_sra t k) value-operand)
        ∙ sra_fits (value a % 2 ^ 32) k few (omega arith),
  )
