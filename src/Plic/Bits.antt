-- ===== src/Plic/Bits.antt =====
-- One bit of a bitfield after the update of another.
use ya_risc_v.Plic.Gateway.{update_source_bit, is_source_bit_set, updated_byte}
use ya_risc_v.Prelude.{
  Bool, false, not, all_below, true, refl, all_below_sound, ltb, bit_and, arith, ◌+◌, ◌/◌, ◌^◌, ◌%◌,
  ◌≤◌, ◌<◌, ◌==◌, ◌!=◌, ◌&&◌, ◌||◌, ◌≡◌, ◌⊎◌, if◌then◌else◌, ℕ,
}

abbrev set_bit : ℕ → ℕ → Bool
set_bit x bit = bit_and x (2 ^ bit) != 0

abbrev same : Bool → Bool → Bool
same a b = if a then b else not b

abbrev update_right : ℕ → ℕ → ℕ → Bool
update_right x bit other =
    same (set_bit (updated_byte x bit true) other) (other == bit || set_bit x other)
    && same (set_bit (updated_byte x bit false) other) (not (other == bit) && set_bit x other)
    && ltb (updated_byte x bit true) 256
    && ltb (updated_byte x bit false) 256

updates_right : all_below (λ x. all_below (λ bit. all_below (update_right x bit) 8) 8) 256 ≡ true
unfolding all_below
updates_right = refl

update_right_at :
    (x bit other : ℕ) → x < 256 → bit < 8 → other < 8 → update_right x bit other ≡ true
update_right_at x bit other hx hb ho =
    all_below_sound (update_right x bit) 8
      (all_below_sound (λ k. all_below (update_right x k) 8) 8
        (all_below_sound (λ y. all_below (λ k. all_below (update_right y k) 8) 8) 256 updates_right
          x hx)
        bit hb)
      other ho

-- A slab of bytes.
abbrev pub IsSlab : (ℕ → ℕ) → Type 0
IsSlab slab = (i : ℕ) → slab i < 256

module _ (slab : ℕ → ℕ) (bytes : IsSlab slab) (field source : ℕ) (value : Bool) where
  pub update_source_bit-IsSlab : IsSlab (update_source_bit slab field source value)
  unfolding update_source_bit
  update_source_bit-IsSlab i = ground (
    arith,
    bytes i,
    bytes (field + source / 8),
    update_right_at (slab (field + source / 8)) (source % 8) 0,
  )

  -- In the same field: the bit of that source, and no other.
  pub is_source_bit_set-same :
      (other : ℕ)
      → is_source_bit_set (update_source_bit slab field source value) field other
        ≡ (if other == source then value else is_source_bit_set slab field other)
  unfolding update_source_bit is_source_bit_set
  is_source_bit_set-same other = ground (
    arith,
    bytes (field + source / 8),
    update_right_at (slab (field + source / 8)) (source % 8) (other % 8),
  )

  -- In another field of four bytes nothing changes.
  pub is_source_bit_set-apart :
      (field' other : ℕ)
      → source < 32
      → other < 32
      → (field + 4 ≤ field') ⊎ (field' + 4 ≤ field)
      → is_source_bit_set (update_source_bit slab field source value) field' other
        ≡ is_source_bit_set slab field' other
  unfolding update_source_bit is_source_bit_set
  is_source_bit_set-apart field' other hs ho apart = ground arith

  pub update_source_bit-outside :
      (i : ℕ)
      → source < 32
      → (i < field) ⊎ (field + 4 ≤ i)
      → update_source_bit slab field source value i ≡ slab i
  unfolding update_source_bit
  update_source_bit-outside i hs apart = ground arith
