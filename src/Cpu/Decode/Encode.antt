-- ===== src/Cpu/Decode/Encode.antt =====
-- The 32-bit encodings of assembly instructions, written down from the formats of the RISC-V manual:
-- what src/emulator/cpu/decode/decode-32.ts has to undo.
use ya_risc_v.Prelude.{◌+◌, ◌*◌, ◌/◌, ◌^◌, ◌%◌, ◌<◌, ◌≡◌, ℕ}
use ya_risc_v.Bytes.{signed_number_to_bytes}
use ya_risc_v.Cpu.Instructions.Result.{
  op_slt, AluOp, offset, op_xor, op_srl, op_sra, op_sll, op_sub, op_and, op_or, op_sltu, op_add,
}
use ya_risc_v.Cpu.Instructions.AluImm.{ImmOp, imm_slt, imm_xor, imm_or, imm_add, imm_sltu, imm_and}
use ya_risc_v.Cpu.Decode.Instruction.{
  jump, jump_register, load_upper, LoadOp, add_upper, Instruction, MulOp, operate, store, branch,
  load, StoreOp, operate_immediate, multiply_divide, load_word_unsigned, load_byte_unsigned,
  load_byte, load_double, divide_unsigned, multiply_high, remainder, store_double,
  load_half_unsigned, store_word, divide, multiply, store_byte, remainder_unsigned, load_half,
  store_half, load_word, multiply_high_signed_unsigned, multiply_high_unsigned,
}
use ya_risc_v.Cpu.Instructions.Condition.{
  branch_ge, branch_lt, BranchOp, branch_geu, branch_eq, branch_ne, branch_ltu,
}
pub mod Immediate
pub mod RoundTrip
pub mod Compressed
pub mod Around

-- An instruction as an assembler reads it: operation codes, register numbers and numeric immediates.
pub data Assembly : Type 0 where
  lui_line auipc_line : (rd immediate : ℕ) → Assembly
  jal_line : (rd offset : ℕ) → Assembly
  jalr_line : (rd rs1 immediate : ℕ) → Assembly
  branch_line : (op : BranchOp) (rs1 rs2 offset : ℕ) → Assembly
  load_line : (op : LoadOp) (rd rs1 immediate : ℕ) → Assembly
  store_line : (op : StoreOp) (rs1 rs2 immediate : ℕ) → Assembly
  operate_line : (op : AluOp) (rd rs1 rs2 : ℕ) → Assembly
  immediate_line : (op : ImmOp) (rd rs1 immediate : ℕ) → Assembly
  multiply_line : (op : MulOp) (rd rs1 rs2 : ℕ) → Assembly

abbrev pub branch_code : BranchOp → ℕ
branch_code branch_eq = 0
branch_code branch_ne = 1
branch_code branch_lt = 4
branch_code branch_ge = 5
branch_code branch_ltu = 6
branch_code branch_geu = 7

abbrev pub load_code : LoadOp → ℕ
load_code load_byte = 0
load_code load_half = 1
load_code load_word = 2
load_code load_double = 3
load_code load_byte_unsigned = 4
load_code load_half_unsigned = 5
load_code load_word_unsigned = 6

abbrev pub store_code : StoreOp → ℕ
store_code store_byte = 0
store_code store_half = 1
store_code store_word = 2
store_code store_double = 3

abbrev pub immediate_code : ImmOp → ℕ
immediate_code imm_add = 0
immediate_code imm_slt = 2
immediate_code imm_sltu = 3
immediate_code imm_xor = 4
immediate_code imm_or = 6
immediate_code imm_and = 7

abbrev pub operate_code : AluOp → ℕ
operate_code op_add = 0
operate_code op_sub = 0
operate_code op_sll = 1
operate_code op_slt = 2
operate_code op_sltu = 3
operate_code op_xor = 4
operate_code op_srl = 5
operate_code op_sra = 5
operate_code op_or = 6
operate_code op_and = 7

abbrev pub operate_code7 : AluOp → ℕ
operate_code7 op_sub = 0x20
operate_code7 op_sra = 0x20
operate_code7 _ = 0

abbrev pub multiply_code : MulOp → ℕ
multiply_code multiply = 0
multiply_code multiply_high = 1
multiply_code multiply_high_signed_unsigned = 2
multiply_code multiply_high_unsigned = 3
multiply_code divide = 4
multiply_code divide_unsigned = 5
multiply_code remainder = 6
multiply_code remainder_unsigned = 7

-- The six fields of the R format; the other formats place their immediates in some of them.
abbrev pub pack : (opcode rd f3 rs1 rs2 f7 : ℕ) → ℕ
pack opcode rd f3 rs1 rs2 f7 =
    opcode + rd * 2 ^ 7 + f3 * 2 ^ 12 + rs1 * 2 ^ 15 + rs2 * 2 ^ 20 + f7 * 2 ^ 25

abbrev pub pack_i : (opcode rd f3 rs1 immediate : ℕ) → ℕ
pack_i opcode rd f3 rs1 immediate =
    opcode + rd * 2 ^ 7 + f3 * 2 ^ 12 + rs1 * 2 ^ 15 + immediate * 2 ^ 20

abbrev pub encode : Assembly → ℕ
encode (lui_line rd immediate) = 0x37 + rd * 2 ^ 7 + immediate * 2 ^ 12
encode (auipc_line rd immediate) = 0x17 + rd * 2 ^ 7 + immediate * 2 ^ 12
encode (jal_line rd offset) =
    0x6f
    + rd * 2 ^ 7
    + (offset / 2 ^ 12 % 256
        + offset / 2 ^ 11 % 2 * 2 ^ 8
        + offset / 2 % 1024 * 2 ^ 9
        + offset / 2 ^ 20 * 2 ^ 19)
      * 2 ^ 12
encode (jalr_line rd rs1 immediate) = pack_i 0x67 rd 0 rs1 immediate
encode (branch_line op rs1 rs2 offset) =
    pack 0x63 (offset / 2 % 16 * 2 + offset / 2 ^ 11 % 2) (branch_code op) rs1 rs2
      (offset / 2 ^ 12 * 64 + offset / 2 ^ 5 % 64)
encode (load_line op rd rs1 immediate) = pack_i 0x03 rd (load_code op) rs1 immediate
encode (store_line op rs1 rs2 immediate) =
    pack 0x23 (immediate % 32) (store_code op) rs1 rs2 (immediate / 32)
encode (operate_line op rd rs1 rs2) = pack 0x33 rd (operate_code op) rs1 rs2 (operate_code7 op)
encode (immediate_line op rd rs1 immediate) = pack_i 0x13 rd (immediate_code op) rs1 immediate
encode (multiply_line op rd rs1 rs2) = pack 0x33 rd (multiply_code op) rs1 rs2 1

-- Registers below 32, immediates within their width, offsets even.
abbrev pub IsEncodable : Assembly → Type 0
IsEncodable (lui_line rd immediate) = (rd < 32) × (immediate < 2 ^ 20)
IsEncodable (auipc_line rd immediate) = (rd < 32) × (immediate < 2 ^ 20)
IsEncodable (jal_line rd offset) = (rd < 32) × (offset < 2 ^ 21) × (offset % 2 ≡ 0)
IsEncodable (jalr_line rd rs1 immediate) = (rd < 32) × (rs1 < 32) × (immediate < 2 ^ 12)
IsEncodable (branch_line op rs1 rs2 offset) =
    (rs1 < 32) × (rs2 < 32) × (offset < 2 ^ 13) × (offset % 2 ≡ 0)
IsEncodable (load_line op rd rs1 immediate) = (rd < 32) × (rs1 < 32) × (immediate < 2 ^ 12)
IsEncodable (store_line op rs1 rs2 immediate) = (rs1 < 32) × (rs2 < 32) × (immediate < 2 ^ 12)
IsEncodable (operate_line op rd rs1 rs2) = (rd < 32) × (rs1 < 32) × (rs2 < 32)
IsEncodable (immediate_line op rd rs1 immediate) = (rd < 32) × (rs1 < 32) × (immediate < 2 ^ 12)
IsEncodable (multiply_line op rd rs1 rs2) = (rd < 32) × (rs1 < 32) × (rs2 < 32)

-- The instruction that a line stands for: its immediate sign-extended from its width.
abbrev pub meaning_of : Assembly → Instruction
meaning_of (lui_line rd immediate) = load_upper (record {
  destination_register = rd;
  immediate = signed_number_to_bytes (immediate * 2 ^ 12) 32;
})
meaning_of (auipc_line rd immediate) = add_upper (record {
  destination_register = rd;
  immediate = signed_number_to_bytes (immediate * 2 ^ 12) 32;
})
meaning_of (jal_line rd offset) =
    jump (record { destination_register = rd; immediate = signed_number_to_bytes offset 21 })
meaning_of (jalr_line rd rs1 immediate) = jump_register (record {
  destination_register = rd;
  source_register1 = rs1;
  immediate = signed_number_to_bytes immediate 12;
})
meaning_of (branch_line op rs1 rs2 offset) = branch op (record {
  source_register1 = rs1;
  source_register2 = rs2;
  immediate = signed_number_to_bytes offset 13;
})
meaning_of (load_line op rd rs1 immediate) = load op (record {
  destination_register = rd;
  source_register1 = rs1;
  immediate = signed_number_to_bytes immediate 12;
})
meaning_of (store_line op rs1 rs2 immediate) = store op (record {
  source_register1 = rs1;
  source_register2 = rs2;
  immediate = signed_number_to_bytes immediate 12;
})
meaning_of (operate_line op rd rs1 rs2) =
    operate op
      (record { destination_register = rd; source_register1 = rs1; source_register2 = rs2 })
meaning_of (immediate_line op rd rs1 immediate) = operate_immediate op (record {
  destination_register = rd;
  source_register1 = rs1;
  immediate = signed_number_to_bytes immediate 12;
})
meaning_of (multiply_line op rd rs1 rs2) =
    multiply_divide op
      (record { destination_register = rd; source_register1 = rs1; source_register2 = rs2 })
