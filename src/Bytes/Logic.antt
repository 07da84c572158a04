-- ===== src/Bytes/Logic.antt =====
-- `andBytes`, `orBytes` and `xorBytes` are the operations on the numbers that the words stand for.
use ya_risc_v.Prelude.{ℕ, zero, suc, ◌+◌, ◌*◌, ◌^◌, ◌<◌, ◌≡◌, refl, sym, ◌∙◌, arith}
use ya_risc_v.Prelude.{bit_and, bit_or, bit_xor, bit_and_fields, bit_or_fields, bit_xor_fields}
use ya_risc_v.Prelude.{bit_and-lt, bit_or-lt, bit_xor-lt}
use ya_risc_v.Bytes.{Bytes, byte, and_bytes, or_bytes, xor_bytes}
use ya_risc_v.Bytes.Value.{value, IsWord, digits_value, value-tabulate, digits_value-word}
use ya_risc_v.Bytes.Value.{tabulate-IsWord}

module _ (op : ℕ → ℕ → ℕ) (base : op 0 0 ≡ 0)
    (fields : (k q p r s : ℕ)
      → r < 2 ^ k
      → s < 2 ^ k
      → op (q * 2 ^ k + r) (p * 2 ^ k + s) ≡ op q p * 2 ^ k + op r s) where
  digits_value-op :
      (n i : ℕ) (f g : ℕ → ℕ)
      → ((j : ℕ) → f j < 256)
      → ((j : ℕ) → g j < 256)
      → digits_value n i (λ j. op (f j) (g j)) ≡ op (digits_value n i f) (digits_value n i g)
  digits_value-op zero i f g p q = sym base
  digits_value-op (suc n) i f g p q = ground (
    arith,
    digits_value-op n (suc i) f g p q,
    fields 8 (digits_value n (suc i) f) (digits_value n (suc i) g) (f i) (g i) (p i) (q i),
  )

module _ {a b : Bytes} (v : IsWord a) (w : IsWord b) where
  -- Over words, the bitwise operations on bytes are those on the 64-bit numbers.
  pub value-bitwise_bytes :
      (value (and_bytes a b) ≡ bit_and (value a) (value b))
      × (value (or_bytes a b) ≡ bit_or (value a) (value b))
      × (value (xor_bytes a b) ≡ bit_xor (value a) (value b))
  unfolding and_bytes or_bytes xor_bytes
  value-bitwise_bytes =
      rw (← digits_value-word v, ← digits_value-word w)
        (
          value-tabulate 8 0 (λ i. bit_and (byte a i) (byte b i))
              ∙ digits_value-op bit_and refl bit_and_fields 8 0 (byte a) (byte b) v.bytes w.bytes,
          value-tabulate 8 0 (λ i. bit_or (byte a i) (byte b i))
              ∙ digits_value-op bit_or refl bit_or_fields 8 0 (byte a) (byte b) v.bytes w.bytes,
          value-tabulate 8 0 (λ i. bit_xor (byte a i) (byte b i))
              ∙ digits_value-op bit_xor refl bit_xor_fields 8 0 (byte a) (byte b) v.bytes w.bytes,
        )

  pub and_bytes-IsWord : IsWord (and_bytes a b)
  unfolding and_bytes
  and_bytes-IsWord =
      tabulate-IsWord _ (λ i. bit_and-lt 8 (byte a i) (byte b i) (v.bytes i) (w.bytes i))

  pub or_bytes-IsWord : IsWord (or_bytes a b)
  unfolding or_bytes
  or_bytes-IsWord =
      tabulate-IsWord _ (λ i. bit_or-lt 8 (byte a i) (byte b i) (v.bytes i) (w.bytes i))

  pub xor_bytes-IsWord : IsWord (xor_bytes a b)
  unfolding xor_bytes
  xor_bytes-IsWord =
      tabulate-IsWord _ (λ i. bit_xor-lt 8 (byte a i) (byte b i) (v.bytes i) (w.bytes i))
