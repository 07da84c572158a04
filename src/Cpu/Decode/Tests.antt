-- ===== src/Cpu/Decode/Tests.antt =====
-- Concrete words through the decoders.
use ya_risc_v.Cpu.Decode.Encode.Compressed.{around, gathered, ld_sd, scatter}
use ya_risc_v.Cpu.Decode.Encode.Around.{gathered-scatter}
use ya_risc_v.Cpu.Decode.Valid.Both.{decode-IsValid}
use ya_risc_v.Cpu.Decode.Valid.{IsValid}
use ya_risc_v.Cpu.Decode.Encode.RoundTrip.{decode32-encode}
use ya_risc_v.Bytes.{Bytes, signed_number_to_bytes}
use ya_risc_v.Prelude.{arith, List, refl, length, ◌≤◌, ◌≡◌, ◌∷◌, [], ◌+◌}
use ya_risc_v.Cpu.Decode.Memo.{decode_all-decode}
use ya_risc_v.Cpu.Decode.Word.{decode32}
use ya_risc_v.Cpu.Instructions.Condition.{branch_ne}
use ya_risc_v.Cpu.Decode.Cache.{decode, cache_max_entries, decode_all}
use ya_risc_v.Cpu.Decode.Encode.{branch_line, meaning_of, Assembly, encode}
use mathlib.Core.List.{map}

abbrev branch_back : Assembly
branch_back = branch_line branch_ne 10 11 0x1ff8

decode32-encode_example : decode32 (encode branch_back) ≡ meaning_of branch_back
decode32-encode_example = decode32-encode branch_back (omega arith)

decode-IsValid_example : IsValid (decode (signed_number_to_bytes 0x852e 32)).0
decode-IsValid_example = decode-IsValid (signed_number_to_bytes 0x852e 32)

-- `add x11, x11, x10` twice, and a compressed move between them.
abbrev fetched : List Bytes
fetched =
    signed_number_to_bytes 0x00a585b3 32
    ∷ signed_number_to_bytes 0x852e 32
    ∷ signed_number_to_bytes 0x00a585b3 32
    ∷ []

decode_all-decode_example :
    ((decode_all fetched []).0 ≡ map decode fetched)
    × (length (decode_all fetched []).1 ≤ cache_max_entries)
decode_all-decode_example = decode_all-decode fetched

two_entries : length (decode_all fetched []).1 ≡ 2
unfolding decode_all
two_entries = refl

-- `c.ld` of register 10, at offset 8 from register 11.
gathered-scatter_example :
    gathered ld_sd (scatter ld_sd 8 + around 0 2 3 3) ≡ signed_number_to_bytes 8 32
gathered-scatter_example =
    gathered-scatter ld_sd 1 0 2 3 3 (omega arith) (omega arith) (omega arith) (omega arith)
      (omega arith)
