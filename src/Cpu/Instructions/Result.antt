-- ===== src/Cpu/Instructions/Result.antt =====
-- What an instruction on registers promises, with words as 64-bit numbers.
use ya_risc_v.Prelude.{ℕ, ◌+◌, ◌-◌, ◌*◌, ◌/◌, ◌%◌, ◌^◌, ◌≡◌, refl, ap, ◌∙◌, arith}
use ya_risc_v.Prelude.{ltb, leb, ◌==◌, if◌then◌else◌, is_lt, compare_ℤ, ℤ, pos, negsuc}
use ya_risc_v.Prelude.{bit_and, bit_or, bit_xor, Bool, true, false}
use ya_risc_v.Bytes.{Bytes, copy_bytes, zero_bytes, add_bytes}
use ya_risc_v.Bytes.Value.{value, IsWord, copy_bytes-word, tabulate-IsWord}
use ya_risc_v.Bytes.Sum.{value-add_bytes, add_bytes-IsWord}
use ya_risc_v.Prelude.{if-ap, ==_iff, ◌↔◌}
use ya_risc_v.Cpu.Types.{Registers, update}
use ya_risc_v.Cpu.Registers.{write_general_purpose_register, advance_program_counter}
use ya_risc_v.Cpu.Registers.{set_program_counter}

-- The registers hold words, and x0 is zero.
pub record IsHart (r : Registers) : Type 0 where
  pub words : (i : ℕ) → IsWord (r.general_purpose i)
  pub hardwired : r.general_purpose 0 ≡ zero_bytes
  pub counter : IsWord r.program_counter

-- The operations of the base set on 64-bit numbers.
pub data AluOp : Type 0 where
  op_add : AluOp
  op_sub : AluOp
  op_sll : AluOp
  op_slt : AluOp
  op_sltu : AluOp
  op_xor : AluOp
  op_srl : AluOp
  op_sra : AluOp
  op_or : AluOp
  op_and : AluOp

-- A 64-bit number in two's complement.
abbrev pub signed : ℕ → ℤ
signed v = if ltb v (2 ^ 63) then pos v else negsuc (2 ^ 64 - v - 1)

abbrev pub flag : Bool → ℕ
flag c = if c then 1 else 0

abbrev pub op_result : AluOp → ℕ → ℕ → ℕ
op_result op_add a b = (a + b) % 2 ^ 64
op_result op_sub a b = (a + 2 ^ 64 - b) % 2 ^ 64
op_result op_sll a b = a * 2 ^ (b % 64) % 2 ^ 64
op_result op_slt a b = flag (is_lt (compare_ℤ (signed a) (signed b)))
op_result op_sltu a b = flag (ltb a b)
op_result op_xor a b = bit_xor a b
op_result op_srl a b = a / 2 ^ (b % 64)
op_result op_sra a b = a / 2 ^ (b % 64) + (if leb (2 ^ 63) a then 2 ^ 64 - 2 ^ (64 - b % 64) else 0)
op_result op_or a b = bit_or a b
op_result op_and a b = bit_and a b

-- The values of the registers after a write to `destination`; a write to x0 is dropped.
abbrev pub written : Registers → ℕ → ℕ → ℕ → ℕ
written r destination result i =
    if i == 0 then 0 else if i == destination then result else value (r.general_purpose i)

-- After an instruction: one register has the result, the program counter is at the target, and
-- nothing else is changed.
pub record HasResult (before after : Registers) (destination result target : ℕ) : Type 0 where
  pub registers : (i : ℕ) → value (after.general_purpose i) ≡ written before destination result i
  pub counter : value after.program_counter ≡ target
  pub frame :
      record before {
        general_purpose = after.general_purpose;
        program_counter = after.program_counter;
      }
      ≡ after
  pub valid : IsHart after

value-zero_bytes : value zero_bytes ≡ 0
unfolding zero_bytes
value-zero_bytes = refl

zero_bytes-IsWord : IsWord zero_bytes
unfolding zero_bytes
zero_bytes-IsWord = tabulate-IsWord (λ _. 0) (λ _. omega arith)

copy-IsWord : {b : Bytes} → IsWord b → IsWord (copy_bytes b)
copy-IsWord {b} w = rw (copy_bytes-word w) w

value-if : (c : Bool) (x y : Bytes) → value (if c then x else y) ≡ (if c then value x else value y)
value-if true x y = refl
value-if false x y = refl

module _ {r : Registers} (hart : IsHart r) (destination : ℕ) {word : Bytes} (w : IsWord word)
    (step : Bytes → Bytes) (p : IsWord (step r.program_counter)) where
  value-hardwired : (i : ℕ) → i ≡ 0 → value (r.general_purpose i) ≡ 0
  value-hardwired i e =
      ap (λ (t : ℕ). value (r.general_purpose t)) e ∙ ap value hart.hardwired ∙ value-zero_bytes

  abbrev unless : Bool → Registers
  unless c =
      if c
      then r
      else record r { general_purpose = update r.general_purpose destination (copy_bytes word) }

  unless-HasResult :
      (c : Bool)
      → ((c ≡ true) ↔ (destination ≡ 0))
      → HasResult r
          (record (unless c) { program_counter = step (unless c).program_counter })
          destination
          (value word)
          (value (step r.program_counter))
  unless-HasResult true e = record {
    registers = λ i. ground (arith, value-hardwired i, e.0 refl);
    counter = refl;
    frame = refl;
    valid = record { words = hart.words; hardwired = hart.hardwired; counter = p };
  }
  unless-HasResult false e = rw (copy_bytes-word w) (record {
    registers = λ i.
        value-if (i == destination) word (r.general_purpose i)
        ∙ ground (arith, value-hardwired i, e.1);
    counter = refl;
    frame = refl;
    valid = record {
      words = λ i. if-ap IsWord (i == destination) word (r.general_purpose i) w (hart.words i);
      hardwired = ground (arith, hart.hardwired, e.1);
      counter = p;
    };
  })

  pub write_then-HasResult :
      HasResult r
        (record (write_general_purpose_register r destination word) {
          program_counter =
              step (write_general_purpose_register r destination word).program_counter;
        })
        destination
        (value word)
        (value (step r.program_counter))
  unfolding write_general_purpose_register
  write_then-HasResult = unless-HasResult (destination == 0) (==_iff destination 0)

-- The program counter of the next instruction, and of a target at an offset.
abbrev pub offset : Registers → Bytes → ℕ
offset r distance = (value r.program_counter + value distance) % 2 ^ 64

module _ {r : Registers} (hart : IsHart r) (destination result : ℕ) (word : Bytes)
    (e : IsWord word × (value word ≡ result)) where
  -- A write of a word and the advance that follows it, as most instructions end.
  pub write-HasResult :
      {length : Bytes}
      → IsWord length
      → HasResult r
          (advance_program_counter (write_general_purpose_register r destination word) length)
          destination
          result
          (offset r length)
  unfolding advance_program_counter
  write-HasResult {length} l =
      rw (← e.1, ← value-add_bytes hart.counter l)
        (write_then-HasResult hart destination e.0 (λ t. add_bytes t length)
          (add_bytes-IsWord r.program_counter length))

  -- A write of a link and the jump that follows it.
  pub jump-HasResult :
      (step : Bytes → Bytes)
      → IsWord (step r.program_counter)
      → HasResult r
          (set_program_counter
            (write_general_purpose_register r destination word)
            (step (write_general_purpose_register r destination word).program_counter))
          destination
          result
          (value (step r.program_counter))
  unfolding set_program_counter
  jump-HasResult step p =
      rw (← e.1, ← ap value (copy_bytes-word p))
        (write_then-HasResult hart destination e.0 (λ t. copy_bytes (step t)) (copy-IsWord p))
