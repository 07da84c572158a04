-- ===== src/Cpu/Decode/Valid.antt =====
-- What the register file and the arithmetic ask of a decoded instruction.
use ya_risc_v.Bytes.Convert.{signed_number_to_bytes-IsWord}
use ya_risc_v.Bytes.Value.{IsWord}
use ya_risc_v.Cpu.Decode.Fields.{bits}
use ya_risc_v.Prelude.{Bool, ℕ, if-ap, arith, bit_and_ones, ◌/◌, ◌^◌, ◌<◌, ◌-◌, if◌then◌else◌}
use ya_risc_v.Cpu.Decode.Instruction.{
  Instruction, load_upper, atomic, jump, multiply_divide, multiply_divide_32, load,
  add_immediate_32, fence_virtual_memory, csr_immediate, illegal, operate_immediate, add_upper,
  shift_immediate, csr_register, store, operate_32, jump_register, operate, branch,
  shift_immediate_32,
}
use native.Mathlib.Nat.{one-le-pow}
pub mod Word
pub mod Compressed
pub mod Both

-- Register numbers below 32, shift amounts below the width, immediates that are words, and CSR
-- numbers of 12 bits.
abbrev pub Operands : Instruction → Type 0
Operands (load_upper args) = (args.destination_register < 32) × IsWord args.immediate
Operands (add_upper args) = (args.destination_register < 32) × IsWord args.immediate
Operands (jump args) = (args.destination_register < 32) × IsWord args.immediate
Operands (jump_register args) =
    (args.destination_register < 32) × (args.source_register1 < 32) × IsWord args.immediate
Operands (branch op args) =
    (args.source_register1 < 32) × (args.source_register2 < 32) × IsWord args.immediate
Operands (load op args) =
    (args.destination_register < 32) × (args.source_register1 < 32) × IsWord args.immediate
Operands (store op args) =
    (args.source_register1 < 32) × (args.source_register2 < 32) × IsWord args.immediate
Operands (atomic op width args) =
    (args.destination_register < 32) × (args.source_register1 < 32) × (args.source_register2 < 32)
Operands (operate op args) =
    (args.destination_register < 32) × (args.source_register1 < 32) × (args.source_register2 < 32)
Operands (operate_immediate op args) =
    (args.destination_register < 32) × (args.source_register1 < 32) × IsWord args.immediate
Operands (shift_immediate op args) =
    (args.destination_register < 32) × (args.source_register1 < 32) × (args.shift_amount < 64)
Operands (multiply_divide op args) =
    (args.destination_register < 32) × (args.source_register1 < 32) × (args.source_register2 < 32)
Operands (operate_32 op args) =
    (args.destination_register < 32) × (args.source_register1 < 32) × (args.source_register2 < 32)
Operands (add_immediate_32 args) =
    (args.destination_register < 32) × (args.source_register1 < 32) × IsWord args.immediate
Operands (shift_immediate_32 op args) =
    (args.destination_register < 32) × (args.source_register1 < 32) × (args.shift_amount < 32)
Operands (multiply_divide_32 op args) =
    (args.destination_register < 32) × (args.source_register1 < 32) × (args.source_register2 < 32)
Operands (csr_register op args) =
    (args.destination_register < 32)
    × (args.source_register1 < 32)
    × (args.control_and_status_register < 4096)
Operands (csr_immediate op args) =
    (args.destination_register < 32)
    × IsWord args.immediate
    × (args.control_and_status_register < 4096)
Operands (illegal encoding) = encoding < 2 ^ 32
Operands (fence_virtual_memory encoding) = encoding < 2 ^ 32
Operands _ = Unit

pub record IsValid (i : Instruction) : Type 0 where
  pub operands : Operands i

pub if-IsValid :
    (c : Bool) {x y : Instruction} → IsValid x → IsValid y → IsValid (if c then x else y)
if-IsValid c {x = x} {y = y} p q = if-ap IsValid c x y p q

pub bits-lt : (word shift k : ℕ) → bits word shift (2 ^ k - 1) < 2 ^ k
bits-lt word shift k = omega (arith, bit_and_ones k (word / 2 ^ shift), one-le-pow k 2)

pub five_bits : (word shift : ℕ) → bits word shift 0x1f < 32
five_bits word shift = bits-lt word shift 5

pub six_bits : (word shift : ℕ) → bits word shift 0x3f < 64
six_bits word shift = bits-lt word shift 6

pub top_bits : (word : ℕ) → word < 2 ^ 32 → word / 2 ^ 20 < 4096
top_bits word h = omega arith

pub ruleset operand_rules = (if-IsValid, five_bits, six_bits, signed_number_to_bytes-IsWord)
