-- ===== src/Cpu/Pmp/Decision.antt =====
-- The lowest entry that overlaps an access decides it.
use ya_risc_v.Prelude.{
  ℕ, zero, suc, ◌+◌, ◌≤◌, ◌<◌, ◌≡◌, ◌⊎◌, inl, inr, refl, sym, ap, ◌∙◌, arith, Bool, true, false,
}
use ya_risc_v.Prelude.{not, ◌&&◌, ◌||◌, leb, if◌then◌else◌, Option, none, some}
use mathlib.Core.Path.{subst}
use ya_risc_v.Bytes.{Bytes, bytes_to_big_int, test_bits}
use ya_risc_v.Cpu.Types.{Registers}
use ya_risc_v.Cpu.Pmp.{PmpAccess, PmpRange, entry_range, entry_denies, denied_loop, misses}
use ya_risc_v.Cpu.Pmp.{physical_memory_access_denied, access_is_machine, permission_granted}
use ya_risc_v.Cpu.Pmp.{config_byte, pmp_cfg_lock}

-- An entry with no range, or with one that the access from `start` to `end` stays out of.
abbrev pub Missed : Registers → ℕ → ℕ → ℕ → Type 0
Missed r entry start end =
    (range : PmpRange) → entry_range r entry ≡ some range → (end ≤ range.low) ⊎ (range.high ≤ start)

-- An access inside the range is free for machine mode unless the entry is locked, and otherwise
-- needs the entry's permission; any other access is denied.
abbrev pub is_denied : Registers → ℕ → PmpRange → ℕ → ℕ → PmpAccess → Bool
is_denied r entry range start end access = not (
    leb range.low start
    && leb end range.high
    && (access_is_machine r access && not (test_bits (config_byte r entry) pmp_cfg_lock)
        || permission_granted (config_byte r entry) access))

-- The answer for the access, among the entries from `first` up to 16.
pub data IsDecided (r : Registers) (start end : ℕ) (access : PmpAccess) (first : ℕ)
    : Bool → Type 0 where
  by_mode :
      ((entry : ℕ) → first ≤ entry → entry < 16 → Missed r entry start end)
      → IsDecided r start end access first (not (access_is_machine r access))
  by_entry :
      (entry : ℕ) (range : PmpRange)
      → first ≤ entry
      → entry < 16
      → entry_range r entry ≡ some range
      → range.low < end
      → start < range.high
      → ((lower : ℕ) → first ≤ lower → lower < entry → Missed r lower start end)
      → IsDecided r start end access first (is_denied r entry range start end access)

at_or_after : (a b : ℕ) → a ≤ b → (a ≡ b) ⊎ (suc a ≤ b)
at_or_after a b h = ground arith

module _ (r : Registers) (start end : ℕ) (access : PmpAccess) where
  -- One more entry that the access misses.
  extended_misses :
      (first : ℕ)
      → Missed r first start end
      → (entry : ℕ) → first ≤ entry
      → ((suc first ≤ entry) → Missed r entry start end)
      → Missed r entry start end
  extended_misses first m entry h later = elim (at_or_after first entry h) [
    | inl e ↦ subst (λ (t : ℕ). Missed r t start end) e m
    | inr l ↦ later l
  ]

  extend :
      (first : ℕ) {answer : Bool}
      → Missed r first start end
      → IsDecided r start end access (suc first) answer
      → IsDecided r start end access first answer
  extend first m (by_mode rest) =
      by_mode (λ entry h lt. extended_misses first m entry h (λ l. rest entry l lt))
  extend first m (by_entry entry range h lt e low high rest) =
      by_entry entry range (omega arith) lt e low high
        (λ lower p q. extended_misses first m lower p (λ l. rest lower l q))

  miss_of_test :
      (first : ℕ) (range : PmpRange)
      → entry_range r first ≡ some range
      → misses range start end ≡ true
      → Missed r first start end
  miss_of_test first range e m other f =
      subst (λ (o : PmpRange). (end ≤ o.low) ⊎ (o.high ≤ start))
        (ap (λ (o : Option PmpRange). elim o [ none ↦ range | some x ↦ x ]) (sym e ∙ f))
        (ground arith)

  entry_denies-is_denied :
      (entry : ℕ) (range : PmpRange)
      → entry_denies r entry range start end access ≡ is_denied r entry range start end access
  unfolding entry_denies
  entry_denies-is_denied entry range = ground arith

  overlap_step :
      (first : ℕ) (rest : Bool) (range : PmpRange) (c : Bool)
      → first < 16
      → entry_range r first ≡ some range
      → misses range start end ≡ c
      → IsDecided r start end access (suc first) rest
      → IsDecided r start end access first
          (if c then rest else entry_denies r first range start end access)
  overlap_step first rest range true few e m d = extend first (miss_of_test first range e m) d
  overlap_step first rest range false few e m d = rw (entry_denies-is_denied first range) (
      by_entry first range (omega arith) few e (ground (arith, m)) (ground (arith, m))
        (λ lower p q. absurd (omega arith)))

  denied_step :
      (first : ℕ) (rest : Bool) (o : Option PmpRange)
      → first < 16
      → entry_range r first ≡ o
      → IsDecided r start end access (suc first) rest
      → IsDecided r start end access first (elim o [
        | none ↦ rest
        | some range ↦
            if misses range start end then rest else entry_denies r first range start end access
      ])
  denied_step first rest none few e d = extend first (λ range f. cc) d
  denied_step first rest (some range) few e d =
      overlap_step first rest range (misses range start end) few e refl d

  denied_loop-IsDecided :
      (n first : ℕ)
      → first + n ≡ 16
      → IsDecided r start end access first (denied_loop r n first start end access)
  unfolding denied_loop
  denied_loop-IsDecided zero first h = by_mode (λ entry p q. absurd (omega arith))
  denied_loop-IsDecided (suc n) first h =
      denied_step first (denied_loop r n (suc first) start end access) (entry_range r first)
        (omega arith) refl (denied_loop-IsDecided n (suc first) (omega arith))

-- `physicalMemoryAccessDenied` answers for the lowest of the 16 entries that overlaps the access:
-- the access is denied unless it lies inside the entry's range, and is one of machine mode to an
-- unlocked entry or has the entry's permission. If none overlaps it, machine mode alone is let in.
pub physical_memory_access_denied-IsDecided :
    (r : Registers) (address : Bytes) (byte_length : ℕ) (access : PmpAccess)
    → IsDecided r
        (bytes_to_big_int address)
        (bytes_to_big_int address + byte_length)
        access
        0
        (physical_memory_access_denied r address byte_length access)
unfolding physical_memory_access_denied
physical_memory_access_denied-IsDecided r address byte_length access =
    denied_loop-IsDecided r (bytes_to_big_int address) (bytes_to_big_int address + byte_length)
      access 16 0 refl
