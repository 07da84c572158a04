-- ===== src/Cpu/Decode/Memo.antt =====
-- The table of decoded instructions changes no result and does not grow past its bound.
use mathlib.Core.List.{map}
use ya_risc_v.Cpu.Decode.Compressed.{decode_compressed}
use ya_risc_v.Cpu.Decode.Word.{decode32}
use ya_risc_v.Bytes.{Bytes, bytes_to_number}
use ya_risc_v.Cpu.Decode.Instruction.{Instruction}
use ya_risc_v.Cpu.Pmp.Napot.{encoded}
use ya_risc_v.Cpu.Decode.Cache.{
  cache_key, map_set, is_32_bit, Cache, map_get, evict_oldest, map_delete, decode, two_bytes,
  four_bytes, decode_with_cache, cache_max_entries, answer_lookup, decode_all,
}
use ya_risc_v.Prelude.{
  Bool-cases, bit_and, arith, inr, bit_and_ones, length, sym, suc, some, if-ap, ap, inl, refl, ◌^◌,
  ◌%◌, ◌≤◌, ◌==◌, ◌-◌, ◌≡◌, ◌∙◌, ◌∷◌, [], if◌then◌else◌, ℕ, none, ==_iff, leb, ap₂, Option, List,
}

-- The result of `decode` depends on the key alone.
decode_of_key : ℕ → Instruction
decode_of_key key = if is_32_bit key then decode32 key else decode_compressed key

short_key : (encoded : ℕ) → is_32_bit (bit_and encoded 0xffff) ≡ is_32_bit encoded
short_key encoded =
    ground
      (arith, bit_and_ones 2 encoded, bit_and_ones 16 encoded, bit_and_ones 2 (encoded % 2 ^ 16))

decode-key : (word : Bytes) → (decode word).0 ≡ decode_of_key (cache_key (bytes_to_number word))
unfolding decode decode_of_key cache_key
decode-key word = elim (Bool-cases (is_32_bit (bytes_to_number word))) [
  | inl h ↦ rw (h, h) refl
  | inr h ↦ rw (h, short_key (bytes_to_number word), h) refl
]

-- An entry is what `decode` gives for every word with its key.
pub record Agrees (key : ℕ) (thunk : Instruction) : Type 0 where
  pub meaning : (word : Bytes) → cache_key (bytes_to_number word) ≡ key → (decode word).0 ≡ thunk

abbrev pub IsSound : Cache → Type 0
IsSound [] = Unit
IsSound ((key, thunk) ∷ rest) = Agrees key thunk × IsSound rest

decode-Agrees : (word : Bytes) → Agrees (cache_key (bytes_to_number word)) (decode word).0
decode-Agrees word = record {
  meaning = λ other same. decode-key other ∙ ap decode_of_key same ∙ sym (decode-key word);
}

unwrap : {a b : Instruction} → some a ≡ some b → a ≡ b
unwrap {a = a} e = ap (λ o. elim o [ some thunk ↦ thunk | none ↦ a ]) e

map_get-Agrees :
    (key : ℕ) (thunk : Instruction) (cache : Cache)
    → IsSound cache
    → map_get key cache ≡ some thunk
    → Agrees key thunk
unfolding map_get
map_get-Agrees key thunk [] sound here = absurd (ground arith)
map_get-Agrees key thunk ((found, old) ∷ rest) sound here = elim (Bool-cases (found == key)) [
  | inl h ↦ rw (sym ((==_iff found key).0 h), sym (unwrap (rw h at here))) sound.0
  | inr h ↦ map_get-Agrees key thunk rest sound.1 (rw h at here)
]

map_delete-IsSound : (key : ℕ) (cache : Cache) → IsSound cache → IsSound (map_delete key cache)
unfolding map_delete
map_delete-IsSound key [] sound = sound
map_delete-IsSound key ((found, thunk) ∷ rest) sound =
    if-ap IsSound (found == key) rest ((found, thunk) ∷ map_delete key rest) sound.1
      (sound.0, map_delete-IsSound key rest sound.1)

evict_oldest-IsSound : (cache : Cache) → IsSound cache → IsSound (evict_oldest cache)
unfolding evict_oldest
evict_oldest-IsSound [] sound = sound
evict_oldest-IsSound ((oldest, thunk) ∷ rest) sound =
    map_delete-IsSound oldest ((oldest, thunk) ∷ rest) sound

map_set-IsSound :
    (key : ℕ) (thunk : Instruction) (cache : Cache)
    → Agrees key thunk
    → IsSound cache
    → IsSound (map_set key thunk cache)
unfolding map_set
map_set-IsSound key thunk [] fits sound = (fits, sound)
map_set-IsSound key thunk ((found, old) ∷ rest) fits sound = elim (Bool-cases (found == key)) [
  | inl h ↦ rw h (rw ((==_iff found key).0 h) fits, sound.1)
  | inr h ↦ rw h (sound.0, map_set-IsSound key thunk rest fits sound.1)
]

length-map_delete :
    (key : ℕ) (thunk : Instruction) (cache : Cache)
    → map_get key cache ≡ some thunk
    → suc (length (map_delete key cache)) ≡ length cache
unfolding map_get map_delete
length-map_delete key thunk [] here = absurd (ground arith)
length-map_delete key thunk ((found, old) ∷ rest) here =
    ground (arith, length-map_delete key thunk rest)

length-map_set-le :
    (key : ℕ) (thunk : Instruction) (cache : Cache)
    → length (map_set key thunk cache) ≤ suc (length cache)
unfolding map_set
length-map_set-le key thunk [] = omega arith
length-map_set-le key thunk ((found, old) ∷ rest) = ground (arith, length-map_set-le key thunk rest)

length-evict_oldest : (cache : Cache) → length (evict_oldest cache) ≡ length cache - 1
unfolding evict_oldest map_delete
length-evict_oldest [] = refl
length-evict_oldest ((oldest, thunk) ∷ rest) = ground arith

cached-Agrees :
    (word : Bytes) (thunk : Instruction)
    → Agrees (cache_key (bytes_to_number word)) thunk
    → (thunk, (decode word).1) ≡ decode word
cached-Agrees word thunk fits =
    ap (λ found. (found, (decode word).1)) (sym (fits.meaning word refl))

decode-length :
    (word : Bytes)
    → (decode word).1 ≡ (if is_32_bit (bytes_to_number word) then four_bytes else two_bytes)
unfolding decode
decode-length word = elim (Bool-cases (is_32_bit (bytes_to_number word))) [
  | inl h ↦ rw h refl
  | inr h ↦ rw h refl
]

-- What a lookup leaves: the answer of `decode`, and a table that is as good as before.
pub record IsCached (word : Bytes) (done : (Instruction × Bytes) × Cache) : Type 0 where
  pub answer : done.0 ≡ decode word
  pub sound : IsSound done.1
  pub bounded : length done.1 ≤ cache_max_entries

found_entry-IsCached :
    (word : Bytes) (thunk : Instruction) (cache : Cache)
    → IsSound cache
    → length cache ≤ cache_max_entries
    → map_get (cache_key (bytes_to_number word)) cache ≡ some thunk
    → IsCached word (answer_lookup word cache (some thunk))
unfolding answer_lookup
found_entry-IsCached word thunk cache sound bounded here =
    let fits = map_get-Agrees _ thunk cache sound here in
    record {
      answer =
          ap (λ size. (thunk, size)) (sym (decode-length word)) ∙ cached-Agrees word thunk fits;
      sound = map_set-IsSound _ thunk (map_delete _ cache) fits (map_delete-IsSound _ cache sound);
      bounded = omega (
        arith,
        bounded,
        length-map_set-le (cache_key (bytes_to_number word)) thunk
            (map_delete (cache_key (bytes_to_number word)) cache),
        length-map_delete (cache_key (bytes_to_number word)) thunk cache here,
      );
    }

new_entry-IsCached :
    (word : Bytes) (cache : Cache)
    → IsSound cache
    → length cache ≤ cache_max_entries
    → IsCached word (answer_lookup word cache none)
unfolding answer_lookup
new_entry-IsCached word cache sound bounded =
    let full = leb cache_max_entries (length cache) in
    let trimmed = if full then evict_oldest cache else cache in
    let key = cache_key (bytes_to_number word) in
    record {
      answer = ap (λ size. ((decode word).0, size)) (sym (decode-length word));
      sound =
          map_set-IsSound key _ trimmed (decode-Agrees word) (
            if-ap IsSound full (evict_oldest cache) cache (evict_oldest-IsSound cache sound) sound);
      bounded = ground (
        arith,
        bounded,
        length-map_set-le (cache_key (bytes_to_number word)) (decode word).0 (evict_oldest cache),
        length-map_set-le (cache_key (bytes_to_number word)) (decode word).0 cache,
        length-evict_oldest cache,
      );
    }

after_lookup-IsCached :
    (word : Bytes) (cache : Cache) (r : Option Instruction)
    → IsSound cache
    → length cache ≤ cache_max_entries
    → map_get (cache_key (bytes_to_number word)) cache ≡ r
    → IsCached word (answer_lookup word cache r)
after_lookup-IsCached word cache (some thunk) sound bounded here =
    found_entry-IsCached word thunk cache sound bounded here
after_lookup-IsCached word cache none sound bounded here =
    new_entry-IsCached word cache sound bounded

-- A lookup in a sound table within its bound answers as `decode` does, and leaves such a table.
pub decode_with_cache-IsCached :
    (word : Bytes) (cache : Cache)
    → IsSound cache
    → length cache ≤ cache_max_entries
    → IsCached word (decode_with_cache word cache)
unfolding decode_with_cache
decode_with_cache-IsCached word cache sound bounded =
    after_lookup-IsCached word cache (map_get (cache_key (bytes_to_number word)) cache) sound
      bounded refl

decode_all-decode_from :
    (words : List Bytes) (cache : Cache)
    → IsSound cache
    → length cache ≤ cache_max_entries
    → ((decode_all words cache).0 ≡ map decode words)
      × (length (decode_all words cache).1 ≤ cache_max_entries)
unfolding decode_all
decode_all-decode_from [] cache sound bounded = (refl, bounded)
decode_all-decode_from (word ∷ words) cache sound bounded =
    let first = decode_with_cache-IsCached word cache sound bounded in
    let rest =
      decode_all-decode_from words (decode_with_cache word cache).1 first.sound first.bounded in
    (ap₂ (λ x xs. x ∷ xs) first.answer rest.0, rest.1)

-- From the empty table, decoding any sequence of words through the table gives what `decode` gives
-- word by word, and the table never holds more than 8192 entries at the end.
pub decode_all-decode :
    (words : List Bytes)
    → ((decode_all words []).0 ≡ map decode words)
      × (length (decode_all words []).1 ≤ cache_max_entries)
decode_all-decode words = decode_all-decode_from words [] tt (omega arith)
