-- ===== src/Cpu/Decode/Word/Arithmetic.antt =====
-- The cases of src/emulator/cpu/decode/decode-32.ts for arithmetic on 64 bits.
use ya_risc_v.Prelude.{◌==◌, ◌!=◌, ◌&&◌, if◌then◌else◌, ℕ}
use ya_risc_v.Cpu.Instructions.Result.{
  op_add, op_sub, op_sll, op_slt, op_sltu, op_xor, op_srl, op_sra, op_or, op_and,
}
use ya_risc_v.Cpu.Instructions.AluImm.{
  imm_add, imm_slt, imm_sltu, imm_xor, imm_or, imm_and, shift_left, shift_right_logical,
  shift_right_arithmetic,
}
use ya_risc_v.Cpu.Instructions.Op.{OpArgs}
use ya_risc_v.Cpu.Decode.Fields.{
  bits, decode_i_type_immediate, decode_u_type_immediate, destination_register_of,
  source_register1_of, source_register2_of, function3_of, function7_of,
}
use ya_risc_v.Cpu.Decode.Instruction.{
  Instruction, load_upper, add_upper, operate, operate_immediate, shift_immediate, multiply_divide,
  illegal, multiply, multiply_high, multiply_high_signed_unsigned, multiply_high_unsigned, divide,
  divide_unsigned, remainder, remainder_unsigned,
}
use ya_risc_v.Cpu.Instructions.OpImm.{OpImmArgs, ShiftImmArgs}

unfoldable pub decode_lui : ℕ → Instruction
unfolding decode_u_type_immediate
decode_lui word = load_upper (record {
  destination_register = destination_register_of word;
  immediate = decode_u_type_immediate word;
})

unfoldable pub decode_auipc : ℕ → Instruction
unfolding decode_u_type_immediate
decode_auipc word = add_upper (record {
  destination_register = destination_register_of word;
  immediate = decode_u_type_immediate word;
})

unfoldable pub decode_op_imm : ℕ → Instruction
unfolding decode_i_type_immediate
decode_op_imm word =
    let args : OpImmArgs = record {
      destination_register = destination_register_of word;
      source_register1 = source_register1_of word;
      immediate = decode_i_type_immediate word;
    } in
    let shift : ShiftImmArgs = record {
      destination_register = destination_register_of word;
      source_register1 = source_register1_of word;
      shift_amount = bits word 20 0x3f;
    } in
    let bits31_26 = bits word 26 0x3f in
    if function3_of word == 0x0
    then operate_immediate imm_add args
    else if function3_of word == 0x2
    then operate_immediate imm_slt args
    else if function3_of word == 0x3
    then operate_immediate imm_sltu args
    else if function3_of word == 0x4
    then operate_immediate imm_xor args
    else if function3_of word == 0x6
    then operate_immediate imm_or args
    else if function3_of word == 0x7
    then operate_immediate imm_and args
    else if function3_of word == 0x1
    then (if bits31_26 != 0 then illegal word else shift_immediate shift_left shift)
    else if function3_of word == 0x5
    then (if bits31_26 == 0x00
        then shift_immediate shift_right_logical shift
        else if bits31_26 == 0x10
        then shift_immediate shift_right_arithmetic shift
        else illegal word)
    else illegal word

-- The `MUL_DIV` half of the opcode.
unfoldable pub decode_op_m : ℕ → Instruction
decode_op_m word =
    let args : OpArgs = record {
      destination_register = destination_register_of word;
      source_register1 = source_register1_of word;
      source_register2 = source_register2_of word;
    } in
    if function3_of word == 0x0
    then multiply_divide multiply args
    else if function3_of word == 0x1
    then multiply_divide multiply_high args
    else if function3_of word == 0x2
    then multiply_divide multiply_high_signed_unsigned args
    else if function3_of word == 0x3
    then multiply_divide multiply_high_unsigned args
    else if function3_of word == 0x4
    then multiply_divide divide args
    else if function3_of word == 0x5
    then multiply_divide divide_unsigned args
    else if function3_of word == 0x6
    then multiply_divide remainder args
    else if function3_of word == 0x7
    then multiply_divide remainder_unsigned args
    else illegal word

unfoldable pub decode_op : ℕ → Instruction
unfolding decode_op_m
decode_op word =
    let args : OpArgs = record {
      destination_register = destination_register_of word;
      source_register1 = source_register1_of word;
      source_register2 = source_register2_of word;
    } in
    if function7_of word == 0x01
    then decode_op_m word
    else if function7_of word != 0x00 && function7_of word != 0x20
    then illegal word
    else if function3_of word == 0x0
    then (if function7_of word == 0x00 then operate op_add args else operate op_sub args)
    else if function3_of word == 0x1
    then (if function7_of word != 0x00 then illegal word else operate op_sll args)
    else if function3_of word == 0x2
    then (if function7_of word != 0x00 then illegal word else operate op_slt args)
    else if function3_of word == 0x3
    then (if function7_of word != 0x00 then illegal word else operate op_sltu args)
    else if function3_of word == 0x4
    then (if function7_of word != 0x00 then illegal word else operate op_xor args)
    else if function3_of word == 0x5
    then (if function7_of word == 0x00 then operate op_srl args else operate op_sra args)
    else if function3_of word == 0x6
    then (if function7_of word != 0x00 then illegal word else operate op_or args)
    else if function3_of word == 0x7
    then (if function7_of word != 0x00 then illegal word else operate op_and args)
    else illegal word
