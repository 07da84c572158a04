-- ===== src/Cpu/Instructions/Target.antt =====
-- Where the jumps and the upper immediates of lui.ts, auipc.ts, jal.ts and jalr.ts lead.
use ya_risc_v.Prelude.{ℕ, ◌+◌, ◌-◌, ◌%◌, ◌^◌, ◌<◌, ◌≡◌, refl, arith}
use ya_risc_v.Prelude.{zero, suc, [], ◌∷◌, bit_and, byte_table, all_below, set}
use ya_risc_v.Bytes.{Bytes, byte, add_bytes}
use ya_risc_v.Bytes.Value.{value, IsWord, IsBytes}
use ya_risc_v.Bytes.Sum.{value-add_bytes, add_bytes-IsWord}
use ya_risc_v.Cpu.Types.{Registers}
use ya_risc_v.Cpu.Instructions.Result.{IsHart, HasResult, write-HasResult, jump-HasResult, offset}
use ya_risc_v.Cpu.Instructions.Jump.{lui, auipc, JalArgs, jal, JalrArgs, jalr}

abbrev pub even : ℕ → ℕ
even v = v - v % 2

without_low_bit : (x : ℕ) → x < 256 → bit_and x 0xfe ≡ even x
unfolding all_below
without_low_bit = byte_table (λ x. bit_and x 0xfe) (λ x. even x) refl

cleared_bytes : (x : ℕ) (b : Bytes) → x < 256 → IsBytes (x ∷ b) → IsBytes (bit_and x 0xfe ∷ b)
cleared_bytes x b h p zero = omega (arith, without_low_bit x h)
cleared_bytes x b h p (suc i) = p (suc i)

-- `target[0] & 0xfe`
cleared-even :
    (b : Bytes)
    → IsWord b
    → IsWord (set b 0 (bit_and (byte b 0) 0xfe))
      × (value (set b 0 (bit_and (byte b 0) 0xfe)) ≡ even (value b))
cleared-even [] w = absurd (omega (arith, w.size))
cleared-even (x ∷ b) w = (
  record { size = w.size; bytes = cleared_bytes x b (w.bytes 0) w.bytes },
  omega (arith, without_low_bit x (w.bytes 0)),
)

module _ {r : Registers} {length : Bytes} (hart : IsHart r) (l : IsWord length) where
  -- In a hart whose registers are words and whose x0 is zero, at a length that is a word:
  -- `lui` leaves its immediate word, and `auipc` the sum of the program counter and its immediate
  -- modulo 2 ^ 64, in the destination register, unless that is x0; both advance the program
  -- counter and change nothing else.
  pub upper_immediate-HasResult :
      (rd : ℕ) (imm : Bytes)
      → IsWord imm
      → HasResult r
          (lui r (record { destination_register = rd; immediate = imm }) length)
          rd
          (value imm)
          (offset r length)
        × HasResult r
            (auipc r (record { destination_register = rd; immediate = imm }) length)
            rd
            (offset r imm)
            (offset r length)
  unfolding lui auipc
  upper_immediate-HasResult rd imm w = (
    write-HasResult hart rd (value imm) imm (w, refl) l,
    write-HasResult hart rd (offset r imm) (add_bytes r.program_counter imm)
        (add_bytes-IsWord r.program_counter imm, value-add_bytes hart.counter w) l,
  )

  -- In a hart whose registers are words and whose x0 is zero, at a length that is a word:
  -- `jal` leaves the address after it in the destination register, unless that is x0, goes to the
  -- sum of its own address and the immediate word modulo 2 ^ 64, and changes nothing else.
  pub jal-HasResult :
      (args : JalArgs)
      → IsWord args.immediate
      → HasResult r
          (jal r args length)
          args.destination_register
          (offset r length)
          (offset r args.immediate)
  unfolding jal
  jal-HasResult args w = rw (← value-add_bytes hart.counter w) (
      jump-HasResult hart args.destination_register (offset r length)
        (add_bytes r.program_counter length)
        (add_bytes-IsWord r.program_counter length, value-add_bytes hart.counter l)
        (λ t. add_bytes t args.immediate) (add_bytes-IsWord r.program_counter args.immediate))

  -- In a hart whose registers are words and whose x0 is zero, at a length that is a word:
  -- `jalr` leaves the address after it in the destination register, unless that is x0, goes to
  -- the even address at or just below the sum of its source register, as it was before, and the
  -- immediate word modulo 2 ^ 64, and changes nothing else.
  pub jalr-HasResult :
      (args : JalrArgs)
      → IsWord args.immediate
      → HasResult r
          (jalr r args length)
          args.destination_register
          (offset r length)
          (even ((value (r.general_purpose args.source_register1) + value args.immediate) % 2 ^ 64))
  unfolding jalr
  jalr-HasResult args w =
      rw (← value-add_bytes (hart.words args.source_register1) w, ← (cleared-even sum s).1)
        (jump-HasResult hart args.destination_register (offset r length)
          (add_bytes r.program_counter length)
          (add_bytes-IsWord r.program_counter length, value-add_bytes hart.counter l)
          (λ _. set sum 0 (bit_and (byte sum 0) 0xfe)) (cleared-even sum s).0)
    where
      sum : Bytes
      sum = add_bytes (r.general_purpose args.source_register1) args.immediate

      s : IsWord sum
      s = add_bytes-IsWord (r.general_purpose args.source_register1) args.immediate
