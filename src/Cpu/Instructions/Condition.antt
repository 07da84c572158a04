-- ===== src/Cpu/Instructions/Condition.antt =====
-- Where the branches of branch.ts lead.
use ya_risc_v.Prelude.{ℕ, ◌≡◌, refl, ap, Bool, true, false, not}
use ya_risc_v.Prelude.{ltb, ◌==◌, if◌then◌else◌, is_lt, is_eq, compare_ℤ}
use ya_risc_v.Bytes.{Bytes, compare_unsigned_bytes}
use ya_risc_v.Bytes.Value.{value, IsWord, copy_bytes-word}
use ya_risc_v.Bytes.Sum.{value-add_bytes, add_bytes-IsWord}
use ya_risc_v.Bytes.Order.{compare_unsigned_bytes-compare}
use ya_risc_v.Cpu.Types.{Registers}
use ya_risc_v.Cpu.Registers.{advance_program_counter, set_program_counter}
use ya_risc_v.Cpu.Instructions.Result.{IsHart, offset, signed}
use ya_risc_v.Cpu.Instructions.Words.{less_signed, less_unsigned}
use ya_risc_v.Cpu.Instructions.Branch.{BranchArgs, take_branch, beq, bne, blt, bge, bltu, bgeu}

pub data BranchOp : Type 0 where
  branch_eq : BranchOp
  branch_ne : BranchOp
  branch_lt : BranchOp
  branch_ge : BranchOp
  branch_ltu : BranchOp
  branch_geu : BranchOp

abbrev pub execute_branch : BranchOp → Registers → BranchArgs → Bytes → Registers
execute_branch branch_eq = beq
execute_branch branch_ne = bne
execute_branch branch_lt = blt
execute_branch branch_ge = bge
execute_branch branch_ltu = bltu
execute_branch branch_geu = bgeu

-- Whether a branch on two 64-bit numbers is taken.
abbrev pub is_taken : BranchOp → ℕ → ℕ → Bool
is_taken branch_eq a b = a == b
is_taken branch_ne a b = not (a == b)
is_taken branch_lt a b = is_lt (compare_ℤ (signed a) (signed b))
is_taken branch_ge a b = not (is_lt (compare_ℤ (signed a) (signed b)))
is_taken branch_ltu a b = ltb a b
is_taken branch_geu a b = not (ltb a b)

-- Only the program counter is changed, and it stands for `target`.
pub record IsAt (before after : Registers) (target : ℕ) : Type 0 where
  pub counter : value after.program_counter ≡ target
  pub frame : record before { program_counter = after.program_counter } ≡ after
  pub word : IsWord after.program_counter

equal_words :
    {a b : Bytes} → IsWord a → IsWord b → is_eq (compare_unsigned_bytes a b) ≡ (value a == value b)
equal_words v w = ap is_eq (compare_unsigned_bytes-compare v w)

module _ {r : Registers} {length : Bytes} (hart : IsHart r) (l : IsWord length) where
  taken_or_next :
      (immediate : Bytes) (c d : Bool)
      → IsWord immediate
      → c ≡ d
      → IsAt r
          (if c then take_branch r immediate else advance_program_counter r length)
          (if d then offset r immediate else offset r length)
  unfolding take_branch advance_program_counter set_program_counter
  taken_or_next immediate true d w e =
      rw (← e, copy_bytes-word (add_bytes-IsWord r.program_counter immediate))
        (record {
          counter = value-add_bytes hart.counter w;
          frame = refl;
          word = add_bytes-IsWord r.program_counter immediate;
        })
  taken_or_next immediate false d w e = rw (← e) (record {
    counter = value-add_bytes hart.counter l;
    frame = refl;
    word = add_bytes-IsWord r.program_counter length;
  })

  first : (args : BranchArgs) → IsWord (r.general_purpose args.source_register1)
  first args = hart.words args.source_register1

  second : (args : BranchArgs) → IsWord (r.general_purpose args.source_register2)
  second args = hart.words args.source_register2

  -- In a hart whose registers are words and whose x0 is zero, at a length that is a word:
  -- each branch goes to the sum of its address and its immediate word modulo 2 ^ 64 if its condition
  -- holds of the numbers in its two source registers, signed or unsigned as its name says, and
  -- else to the next instruction; it changes nothing else.
  pub execute_branch-IsAt :
      (op : BranchOp) (args : BranchArgs)
      → IsWord args.immediate
      → IsAt r (execute_branch op r args length) (
          if is_taken op
            (value (r.general_purpose args.source_register1))
            (value (r.general_purpose args.source_register2))
          then offset r args.immediate
          else offset r length)
  unfolding beq bne blt bge bltu bgeu
  execute_branch-IsAt branch_eq args w =
      taken_or_next args.immediate _ _ w (equal_words (first args) (second args))
  execute_branch-IsAt branch_ne args w =
      taken_or_next args.immediate _ _ w (ap not (equal_words (first args) (second args)))
  execute_branch-IsAt branch_lt args w =
      taken_or_next args.immediate _ _ w (less_signed (first args) (second args))
  execute_branch-IsAt branch_ge args w =
      taken_or_next args.immediate _ _ w (ap not (less_signed (first args) (second args)))
  execute_branch-IsAt branch_ltu args w =
      taken_or_next args.immediate _ _ w (less_unsigned (first args) (second args))
  execute_branch-IsAt branch_geu args w =
      taken_or_next args.immediate _ _ w (ap not (less_unsigned (first args) (second args)))
