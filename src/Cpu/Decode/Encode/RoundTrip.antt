-- ===== src/Cpu/Decode/Encode/RoundTrip.antt =====
-- Decoding undoes encoding.
use ya_risc_v.Cpu.Instructions.Target.{even}
use ya_risc_v.Cpu.Decode.Encode.Immediate.{
  decode_b_type_immediate-value, decode_s_type_immediate-value, b_offset,
  decode_u_type_immediate-value, decode_j_type_immediate-value, j_offset,
}
use ya_risc_v.Cpu.Instructions.AluImm.{ImmOp, imm_add}
use ya_risc_v.Cpu.Decode.Word.Control.{decode_branch, decode_jal, decode_jalr}
use ya_risc_v.Cpu.Instructions.Condition.{BranchOp, branch_eq}
use ya_risc_v.Cpu.Decode.Word.Memory.{decode_load, decode_store}
use ya_risc_v.Cpu.Decode.Instruction.{store_byte, load_byte, MulOp, LoadOp, StoreOp, multiply}
use ya_risc_v.Cpu.Decode.Word.{decode32}
use ya_risc_v.Prelude.{
  refl, bit_and, bit_and_ones, arith, ◌/◌, ◌^◌, ◌%◌, ◌<◌, ◌-◌, ◌≡◌, ◌∙◌, ℕ, ◌+◌, ◌*◌,
}
use ya_risc_v.Cpu.Decode.Word.Arithmetic.{
  decode_op, decode_op_imm, decode_op_m, decode_auipc, decode_lui,
}
use ya_risc_v.Cpu.Instructions.Result.{AluOp, op_add, offset, op_sub}
use ya_risc_v.Cpu.Decode.Encode.{
  pack, operate_line, meaning_of, operate_code, operate_code7, jal_line, lui_line, IsEncodable,
  store_code, load_code, immediate_code, branch_code, pack_i, store_line, multiply_code, encode,
  jalr_line, branch_line, multiply_line, auipc_line, load_line, immediate_line, Assembly,
}
use ya_risc_v.Cpu.Decode.Fields.{
  source_register1_of, function3_of, bits, function7_of, destination_register_of,
  source_register2_of, decode_i_type_immediate,
}

record HasFields (word opcode rd f3 rs1 rs2 f7 : ℕ) : Type 0 where
  opcode_is : bit_and word 0x7f ≡ opcode
  rd_is : destination_register_of word ≡ rd
  f3_is : function3_of word ≡ f3
  rs1_is : source_register1_of word ≡ rs1
  rs2_is : source_register2_of word ≡ rs2
  f7_is : function7_of word ≡ f7

module _ (word : ℕ) where
  field : (shift k part : ℕ) → word / 2 ^ shift % 2 ^ k ≡ part → bits word shift (2 ^ k - 1) ≡ part
  field shift k part e = bit_and_ones k (word / 2 ^ shift) ∙ e

has_fields :
    (opcode rd f3 rs1 rs2 f7 : ℕ)
    → opcode < 128
    → rd < 32
    → f3 < 8
    → rs1 < 32
    → rs2 < 32
    → f7 < 128
    → HasFields (pack opcode rd f3 rs1 rs2 f7) opcode rd f3 rs1 rs2 f7
has_fields opcode rd f3 rs1 rs2 f7 ho hd h3 h1 h2 h7 =
    let word = pack opcode rd f3 rs1 rs2 f7 in
    record {
      opcode_is = bit_and_ones 7 word ∙ omega arith;
      rd_is = field word 7 5 rd (omega arith);
      f3_is = field word 12 3 f3 (omega arith);
      rs1_is = field word 15 5 rs1 (omega arith);
      rs2_is = field word 20 5 rs2 (omega arith);
      f7_is = field word 25 7 f7 (omega arith);
    }

decode_operate :
    (word : ℕ) (op : AluOp) (rd rs1 rs2 : ℕ)
    → HasFields word 0x33 rd (operate_code op) rs1 rs2 (operate_code7 op)
    → decode32 word ≡ meaning_of (operate_line op rd rs1 rs2)
unfolding decode32 decode_op
decode_operate word op_sub rd rs1 rs2 h =
    rw (h.opcode_is, h.f7_is, h.f3_is, h.rd_is, h.rs1_is, h.rs2_is) refl
decode_operate word _ rd rs1 rs2 h =
    rw (h.opcode_is, h.f7_is, h.f3_is, h.rd_is, h.rs1_is, h.rs2_is) refl

decode_multiply :
    (word : ℕ) (op : MulOp) (rd rs1 rs2 : ℕ)
    → HasFields word 0x33 rd (multiply_code op) rs1 rs2 1
    → decode32 word ≡ meaning_of (multiply_line op rd rs1 rs2)
unfolding decode32 decode_op decode_op_m
decode_multiply word multiply rd rs1 rs2 h =
    rw (h.opcode_is, h.f7_is, h.f3_is, h.rd_is, h.rs1_is, h.rs2_is) refl
decode_multiply word _ rd rs1 rs2 h =
    rw (h.opcode_is, h.f7_is, h.f3_is, h.rd_is, h.rs1_is, h.rs2_is) refl

decode_branch_line :
    (word : ℕ) (op : BranchOp) (rd rs1 rs2 f7 offset : ℕ)
    → HasFields word 0x63 rd (branch_code op) rs1 rs2 f7
    → b_offset word ≡ offset
    → decode32 word ≡ meaning_of (branch_line op rs1 rs2 offset)
unfolding decode32 decode_branch
decode_branch_line word branch_eq rd rs1 rs2 f7 offset h e =
    rw (h.opcode_is, h.f3_is, h.rs1_is, h.rs2_is, decode_b_type_immediate-value word, e) refl
decode_branch_line word _ rd rs1 rs2 f7 offset h e =
    rw (h.opcode_is, h.f3_is, h.rs1_is, h.rs2_is, decode_b_type_immediate-value word, e) refl

decode_load_line :
    (word : ℕ) (op : LoadOp) (rd rs1 rs2 f7 immediate : ℕ)
    → HasFields word 0x03 rd (load_code op) rs1 rs2 f7
    → word / 2 ^ 20 ≡ immediate
    → decode32 word ≡ meaning_of (load_line op rd rs1 immediate)
unfolding decode32 decode_load decode_i_type_immediate
decode_load_line word load_byte rd rs1 rs2 f7 immediate h e =
    rw (h.opcode_is, h.f3_is, h.rd_is, h.rs1_is, e) refl
decode_load_line word _ rd rs1 rs2 f7 immediate h e =
    rw (h.opcode_is, h.f3_is, h.rd_is, h.rs1_is, e) refl

decode_immediate_line :
    (word : ℕ) (op : ImmOp) (rd rs1 rs2 f7 immediate : ℕ)
    → HasFields word 0x13 rd (immediate_code op) rs1 rs2 f7
    → word / 2 ^ 20 ≡ immediate
    → decode32 word ≡ meaning_of (immediate_line op rd rs1 immediate)
unfolding decode32 decode_op_imm decode_i_type_immediate
decode_immediate_line word imm_add rd rs1 rs2 f7 immediate h e =
    rw (h.opcode_is, h.f3_is, h.rd_is, h.rs1_is, e) refl
decode_immediate_line word _ rd rs1 rs2 f7 immediate h e =
    rw (h.opcode_is, h.f3_is, h.rd_is, h.rs1_is, e) refl

decode_store_line :
    (word : ℕ) (op : StoreOp) (rd rs1 rs2 f7 immediate : ℕ)
    → HasFields word 0x23 rd (store_code op) rs1 rs2 f7
    → word / 2 ^ 25 % 128 * 2 ^ 5 + word / 2 ^ 7 % 32 ≡ immediate
    → decode32 word ≡ meaning_of (store_line op rs1 rs2 immediate)
unfolding decode32 decode_store
decode_store_line word store_byte rd rs1 rs2 f7 immediate h e =
    rw (h.opcode_is, h.f3_is, h.rs1_is, h.rs2_is, decode_s_type_immediate-value word, e) refl
decode_store_line word _ rd rs1 rs2 f7 immediate h e =
    rw (h.opcode_is, h.f3_is, h.rs1_is, h.rs2_is, decode_s_type_immediate-value word, e) refl

module _ (word rd immediate : ℕ) where
  decode_lui_line :
      bit_and word 0x7f ≡ 0x37
      → destination_register_of word ≡ rd
      → word / 2 ^ 12 ≡ immediate
      → word < 2 ^ 32
      → decode32 word ≡ meaning_of (lui_line rd immediate)
  unfolding decode32 decode_lui
  decode_lui_line o d e small = rw (o, d, decode_u_type_immediate-value word small, e) refl

  decode_auipc_line :
      bit_and word 0x7f ≡ 0x17
      → destination_register_of word ≡ rd
      → word / 2 ^ 12 ≡ immediate
      → word < 2 ^ 32
      → decode32 word ≡ meaning_of (auipc_line rd immediate)
  unfolding decode32 decode_auipc
  decode_auipc_line o d e small = rw (o, d, decode_u_type_immediate-value word small, e) refl

  decode_jal_line :
      bit_and word 0x7f ≡ 0x6f
      → destination_register_of word ≡ rd
      → j_offset word ≡ immediate
      → decode32 word ≡ meaning_of (jal_line rd immediate)
  unfolding decode32 decode_jal
  decode_jal_line o d e = rw (o, d, decode_j_type_immediate-value word, e) refl

decode_jalr_line :
    (word rd rs1 rs2 f7 immediate : ℕ)
    → HasFields word 0x67 rd 0 rs1 rs2 f7
    → word / 2 ^ 20 ≡ immediate
    → decode32 word ≡ meaning_of (jalr_line rd rs1 immediate)
unfolding decode32 decode_jalr decode_i_type_immediate
decode_jalr_line word rd rs1 rs2 f7 immediate h e =
    rw (h.opcode_is, h.f3_is, h.rd_is, h.rs1_is, e) refl

i_fields :
    (opcode rd f3 rs1 immediate : ℕ)
    → opcode < 128
    → rd < 32
    → f3 < 8
    → rs1 < 32
    → immediate < 2 ^ 12
    → HasFields
        (pack_i opcode rd f3 rs1 immediate)
        opcode
        rd
        f3
        rs1
        (immediate % 32)
        (immediate / 32)
i_fields opcode rd f3 rs1 immediate ho hd h3 h1 hi =
    let word = pack_i opcode rd f3 rs1 immediate in
    record {
      opcode_is = bit_and_ones 7 word ∙ omega arith;
      rd_is = field word 7 5 rd (omega arith);
      f3_is = field word 12 3 f3 (omega arith);
      rs1_is = field word 15 5 rs1 (omega arith);
      rs2_is = field word 20 5 (immediate % 32) (omega arith);
      f7_is = field word 25 7 (immediate / 32) (omega arith);
    }

load_code-lt : (op : LoadOp) → load_code op < 8
load_code-lt load_byte = omega arith
load_code-lt _ = omega arith

immediate_code-lt : (op : ImmOp) → immediate_code op < 8
immediate_code-lt imm_add = omega arith
immediate_code-lt _ = omega arith

store_code-lt : (op : StoreOp) → store_code op < 8
store_code-lt store_byte = omega arith
store_code-lt _ = omega arith

branch_code-lt : (op : BranchOp) → branch_code op < 8
branch_code-lt branch_eq = omega arith
branch_code-lt _ = omega arith

operate_code-lt : (op : AluOp) → (operate_code op < 8) × (operate_code7 op < 128)
operate_code-lt op_add = omega arith
operate_code-lt _ = omega arith

multiply_code-lt : (op : MulOp) → multiply_code op < 8
multiply_code-lt multiply = omega arith
multiply_code-lt _ = omega arith

-- Every line with registers below 32 and an immediate within its width decodes, once encoded, to the
-- instruction that it stands for: its operation, its registers and its sign-extended immediate.
pub decode32-encode : (a : Assembly) → IsEncodable a → decode32 (encode a) ≡ meaning_of a
decode32-encode (operate_line op rd rs1 rs2) (hd, h1, h2) = decode_operate _ op rd rs1 rs2 (
    has_fields 0x33 rd (operate_code op) rs1 rs2 (operate_code7 op) (omega arith) hd
      (operate_code-lt op).0 h1 h2 (operate_code-lt op).1)
decode32-encode (multiply_line op rd rs1 rs2) (hd, h1, h2) = decode_multiply _ op rd rs1 rs2 (
    has_fields 0x33 rd (multiply_code op) rs1 rs2 1 (omega arith) hd (multiply_code-lt op) h1 h2
      (omega arith))
decode32-encode (branch_line op rs1 rs2 offset) (h1, h2, ho, even) =
    decode_branch_line _ op _ rs1 rs2 _ offset
      (has_fields 0x63 (offset / 2 % 16 * 2 + offset / 2 ^ 11 % 2) (branch_code op) rs1 rs2
        (offset / 2 ^ 12 * 64 + offset / 2 ^ 5 % 64) (omega arith) (omega arith) (branch_code-lt op)
        h1 h2 (omega arith))
      (omega (arith, branch_code-lt op))
decode32-encode (load_line op rd rs1 immediate) (hd, h1, hi) =
    decode_load_line _ op rd rs1 _ _ immediate
      (i_fields 0x03 rd (load_code op) rs1 immediate (omega arith) hd (load_code-lt op) h1 hi)
      (omega (arith, load_code-lt op))
decode32-encode (immediate_line op rd rs1 immediate) (hd, h1, hi) =
    decode_immediate_line _ op rd rs1 _ _ immediate
      (i_fields 0x13 rd (immediate_code op) rs1 immediate (omega arith) hd (immediate_code-lt op) h1
        hi)
      (omega (arith, immediate_code-lt op))
decode32-encode (store_line op rs1 rs2 immediate) (h1, h2, hi) =
    decode_store_line _ op _ rs1 rs2 _ immediate
      (has_fields 0x23 (immediate % 32) (store_code op) rs1 rs2 (immediate / 32) (omega arith)
        (omega arith) (store_code-lt op) h1 h2 (omega arith))
      (omega (arith, store_code-lt op))
decode32-encode (lui_line rd immediate) (hd, hi) =
    decode_lui_line _ rd immediate (bit_and_ones 7 (encode (lui_line rd immediate)) ∙ omega arith)
      (field (encode (lui_line rd immediate)) 7 5 rd (omega arith)) (omega arith) (omega arith)
decode32-encode (auipc_line rd immediate) (hd, hi) =
    decode_auipc_line _ rd immediate
      (bit_and_ones 7 (encode (auipc_line rd immediate)) ∙ omega arith)
      (field (encode (auipc_line rd immediate)) 7 5 rd (omega arith)) (omega arith) (omega arith)
decode32-encode (jal_line rd offset) (hd, ho, even) =
    decode_jal_line _ rd offset (bit_and_ones 7 (encode (jal_line rd offset)) ∙ omega arith)
      (field (encode (jal_line rd offset)) 7 5 rd (omega arith)) (omega arith)
decode32-encode (jalr_line rd rs1 immediate) (hd, h1, hi) =
    decode_jalr_line _ rd rs1 _ _ immediate
      (i_fields 0x67 rd 0 rs1 immediate (omega arith) hd (omega arith) h1 hi) (omega arith)
