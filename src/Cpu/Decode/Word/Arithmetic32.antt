-- ===== src/Cpu/Decode/Word/Arithmetic32.antt =====
-- The cases of src/emulator/cpu/decode/decode-32.ts for arithmetic on 32 bits.
use ya_risc_v.Prelude.{◌==◌, ◌!=◌, ◌&&◌, if◌then◌else◌, ℕ}
use ya_risc_v.Cpu.Instructions.Alu32.{
  op32_add, op32_sub, op32_sll, op32_srl, op32_sra, shift32_left, shift32_right_logical,
  shift32_right_arithmetic,
}
use ya_risc_v.Cpu.Instructions.Op32.{Op32Args}
use ya_risc_v.Cpu.Decode.Fields.{
  bits, decode_i_type_immediate, destination_register_of, source_register1_of, source_register2_of,
  function3_of, function7_of,
}
use ya_risc_v.Cpu.Decode.Instruction.{
  Instruction, operate_32, add_immediate_32, shift_immediate_32, multiply_divide_32, illegal,
  multiply_word, divide_word, divide_word_unsigned, remainder_word, remainder_word_unsigned,
}
use ya_risc_v.Cpu.Instructions.OpImm32.{OpImm32Args, ShiftImm32Args}

unfoldable pub decode_op_imm_32 : ℕ → Instruction
unfolding decode_i_type_immediate
decode_op_imm_32 word =
    let args : OpImm32Args = record {
      destination_register = destination_register_of word;
      source_register1 = source_register1_of word;
      immediate = decode_i_type_immediate word;
    } in
    let shift : ShiftImm32Args = record {
      destination_register = destination_register_of word;
      source_register1 = source_register1_of word;
      shift_amount = bits word 20 0x1f;
    } in
    if function3_of word == 0x0
    then add_immediate_32 args
    else if function3_of word == 0x1
    then (if function7_of word != 0x00 then illegal word else shift_immediate_32 shift32_left shift)
    else if function3_of word == 0x5
    then (if function7_of word == 0x00
        then shift_immediate_32 shift32_right_logical shift
        else if function7_of word == 0x20
        then shift_immediate_32 shift32_right_arithmetic shift
        else illegal word)
    else illegal word

-- The `MUL_DIV` half of the opcode.
unfoldable pub decode_op_32_m : ℕ → Instruction
decode_op_32_m word =
    let args : Op32Args = record {
      destination_register = destination_register_of word;
      source_register1 = source_register1_of word;
      source_register2 = source_register2_of word;
    } in
    if function3_of word == 0x0
    then multiply_divide_32 multiply_word args
    else if function3_of word == 0x4
    then multiply_divide_32 divide_word args
    else if function3_of word == 0x5
    then multiply_divide_32 divide_word_unsigned args
    else if function3_of word == 0x6
    then multiply_divide_32 remainder_word args
    else if function3_of word == 0x7
    then multiply_divide_32 remainder_word_unsigned args
    else illegal word

unfoldable pub decode_op_32 : ℕ → Instruction
unfolding decode_op_32_m
decode_op_32 word =
    let args : Op32Args = record {
      destination_register = destination_register_of word;
      source_register1 = source_register1_of word;
      source_register2 = source_register2_of word;
    } in
    if function7_of word == 0x01
    then decode_op_32_m word
    else if function7_of word != 0x00 && function7_of word != 0x20
    then illegal word
    else if function3_of word == 0x0
    then (if function7_of word == 0x00 then operate_32 op32_add args else operate_32 op32_sub args)
    else if function3_of word == 0x1
    then (if function7_of word != 0x00 then illegal word else operate_32 op32_sll args)
    else if function3_of word == 0x5
    then (if function7_of word == 0x00 then operate_32 op32_srl args else operate_32 op32_sra args)
    else illegal word
