-- ===== src/Cpu/Decode/Valid/Both.antt =====
-- Both decoders, as the hart calls them.
use ya_risc_v.Cpu.Decode.Valid.{IsValid}
use ya_risc_v.Cpu.Decode.Valid.Word.{decode32-IsValid}
use ya_risc_v.Prelude.{inr, inl, Bool-cases, arith, bit_and, ◌^◌, ◌<◌}
use ya_risc_v.Cpu.Decode.Valid.Compressed.{decode_compressed-IsValid}
use ya_risc_v.Cpu.Decode.Cache.{decode, is_32_bit}
use ya_risc_v.Bytes.{Bytes, bytes_to_number}

bytes_to_number-lt : (word : Bytes) → bytes_to_number word < 2 ^ 32
unfolding bytes_to_number
bytes_to_number-lt word = omega arith

-- Every fetched word decodes to an instruction whose register numbers are below 32, whose shift
-- amounts are below the width of the shift, whose immediates are words and whose CSR number has 12
-- bits, compressed or not.
pub decode-IsValid : (word : Bytes) → IsValid (decode word).0
unfolding decode
decode-IsValid word = elim (Bool-cases (is_32_bit (bytes_to_number word))) [
  | inl h ↦ rw h (decode32-IsValid (bytes_to_number word) (bytes_to_number-lt word))
  | inr h ↦ rw h (decode_compressed-IsValid (bit_and (bytes_to_number word) 0xffff))
]
