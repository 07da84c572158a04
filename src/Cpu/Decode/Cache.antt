-- ===== src/Cpu/Decode/Cache.antt =====
-- src/emulator/cpu/decode/index.ts: the choice between the two encodings, and the table of decoded
-- instructions. A `Map` iterates in the order of insertion, so it is a list of entries, oldest first.
use ya_risc_v.Cpu.Decode.Word.{decode32}
use ya_risc_v.Prelude.{
  bit_and, length, Option, some, Bool, none, leb, List, ◌==◌, ◌∷◌, if◌then◌else◌, ℕ, [],
}
use ya_risc_v.Cpu.Decode.Compressed.{decode_compressed}
use ya_risc_v.Bytes.{bytes_to_number, Bytes, signed_number_to_bytes}
use ya_risc_v.Cpu.Decode.Instruction.{Instruction}

abbrev pub is_32_bit : ℕ → Bool
is_32_bit encoded = bit_and encoded 0x03 == 0x03

abbrev pub two_bytes : Bytes
two_bytes = signed_number_to_bytes 2 32

abbrev pub four_bytes : Bytes
four_bytes = signed_number_to_bytes 4 32

unfoldable pub decode : Bytes → Instruction × Bytes
unfolding bytes_to_number signed_number_to_bytes
decode instruction_word =
    let encoded = bytes_to_number instruction_word in
    if is_32_bit encoded
    then (decode32 encoded, four_bytes)
    else (decode_compressed (bit_and encoded 0xffff), two_bytes)

abbrev pub Cache : Type 0
Cache = List (ℕ × Instruction)

abbrev pub cache_max_entries : ℕ
cache_max_entries = 8192

-- `Map.get`
unfoldable pub map_get : ℕ → Cache → Option Instruction
map_get key [] = none
map_get key ((found, thunk) ∷ rest) =
    let later = map_get key rest in if found == key then some thunk else later

-- `Map.delete`
unfoldable pub map_delete : ℕ → Cache → Cache
map_delete key [] = []
map_delete key ((found, thunk) ∷ rest) =
    let later = map_delete key rest in if found == key then rest else (found, thunk) ∷ later

-- `Map.set`: a key that is there keeps its place.
unfoldable pub map_set : ℕ → Instruction → Cache → Cache
map_set key thunk [] = (key, thunk) ∷ []
map_set key thunk ((found, old) ∷ rest) =
    let later = map_set key thunk rest in
    if found == key then (found, thunk) ∷ rest else (found, old) ∷ later

-- The entry that `keys().next()` names goes.
unfoldable pub evict_oldest : Cache → Cache
unfolding map_delete
evict_oldest [] = []
evict_oldest ((oldest, thunk) ∷ rest) = map_delete oldest ((oldest, thunk) ∷ rest)

unfoldable pub cache_key : ℕ → ℕ
cache_key encoded = if is_32_bit encoded then encoded else bit_and encoded 0xffff

-- What follows the lookup: the entry moves to the end, or a decoded one joins.
unfoldable pub answer_lookup : Bytes → Cache → Option Instruction → (Instruction × Bytes) × Cache
unfolding decode map_delete map_set evict_oldest cache_key bytes_to_number
answer_lookup instruction_word cache (some cached) =
    let encoded = bytes_to_number instruction_word in
    let instruction_byte_length = if is_32_bit encoded then four_bytes else two_bytes in
    let key = cache_key encoded in
    ((cached, instruction_byte_length), map_set key cached (map_delete key cache))
answer_lookup instruction_word cache none =
    let encoded = bytes_to_number instruction_word in
    let instruction_byte_length = if is_32_bit encoded then four_bytes else two_bytes in
    let key = cache_key encoded in
    let thunk = (decode instruction_word).0 in
    let trimmed = if leb cache_max_entries (length cache) then evict_oldest cache else cache in
    ((thunk, instruction_byte_length), map_set key thunk trimmed)

unfoldable pub decode_with_cache : Bytes → Cache → (Instruction × Bytes) × Cache
unfolding answer_lookup map_get cache_key bytes_to_number
decode_with_cache instruction_word cache =
    let key = cache_key (bytes_to_number instruction_word) in
    answer_lookup instruction_word cache (map_get key cache)

-- The hart decodes one fetched word after the other with the same table.
unfoldable pub decode_all : List Bytes → Cache → List (Instruction × Bytes) × Cache
unfolding decode_with_cache
decode_all [] cache = ([], cache)
decode_all (word ∷ words) cache =
    let (first, cache') = decode_with_cache word cache in
    let (rest, cache'') = decode_all words cache' in (first ∷ rest, cache'')
