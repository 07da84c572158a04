-- ===== src/Cpu/Decode/Word/Memory.antt =====
-- The cases of src/emulator/cpu/decode/decode-32.ts for loads, stores and atomics.
use ya_risc_v.Prelude.{◌/◌, ◌^◌, ◌==◌, ◌!=◌, if◌then◌else◌, ℕ}
use ya_risc_v.Cpu.Decode.Fields.{
  decode_i_type_immediate, decode_s_type_immediate, destination_register_of, source_register1_of,
  source_register2_of, function3_of,
}
use ya_risc_v.Cpu.Decode.Instruction.{
  Instruction, load, store, atomic, illegal, load_byte, load_half, load_word, load_double,
  load_byte_unsigned, load_half_unsigned, load_word_unsigned, store_byte, store_half, store_word,
  store_double, AmoWidth, amo_word, amo_double, load_reserved, store_conditional, amo_swap, amo_add,
  amo_xor, amo_or, amo_and, amo_min, amo_max, amo_min_unsigned, amo_max_unsigned, LoadArgs,
  StoreArgs, AmoArgs,
}

unfoldable pub decode_load : ℕ → Instruction
unfolding decode_i_type_immediate
decode_load word =
    let args : LoadArgs = record {
      destination_register = destination_register_of word;
      source_register1 = source_register1_of word;
      immediate = decode_i_type_immediate word;
    } in
    if function3_of word == 0x0
    then load load_byte args
    else if function3_of word == 0x1
    then load load_half args
    else if function3_of word == 0x2
    then load load_word args
    else if function3_of word == 0x3
    then load load_double args
    else if function3_of word == 0x4
    then load load_byte_unsigned args
    else if function3_of word == 0x5
    then load load_half_unsigned args
    else if function3_of word == 0x6
    then load load_word_unsigned args
    else illegal word

unfoldable pub decode_store : ℕ → Instruction
unfolding decode_s_type_immediate
decode_store word =
    let args : StoreArgs = record {
      source_register1 = source_register1_of word;
      source_register2 = source_register2_of word;
      immediate = decode_s_type_immediate word;
    } in
    if function3_of word == 0x0
    then store store_byte args
    else if function3_of word == 0x1
    then store store_half args
    else if function3_of word == 0x2
    then store store_word args
    else if function3_of word == 0x3
    then store store_double args
    else illegal word

-- The switch on `function5`, once for each width.
unfoldable pub decode_amo_function5 : ℕ → AmoWidth → AmoArgs → Instruction
decode_amo_function5 word width args =
    let function5 = word / 2 ^ 27 in
    if function5 == 0x02
    then (if args.source_register2 != 0 then illegal word else atomic load_reserved width args)
    else if function5 == 0x03
    then atomic store_conditional width args
    else if function5 == 0x01
    then atomic amo_swap width args
    else if function5 == 0x00
    then atomic amo_add width args
    else if function5 == 0x04
    then atomic amo_xor width args
    else if function5 == 0x08
    then atomic amo_or width args
    else if function5 == 0x0c
    then atomic amo_and width args
    else if function5 == 0x10
    then atomic amo_min width args
    else if function5 == 0x14
    then atomic amo_max width args
    else if function5 == 0x18
    then atomic amo_min_unsigned width args
    else if function5 == 0x1c
    then atomic amo_max_unsigned width args
    else illegal word

unfoldable pub decode_amo : ℕ → Instruction
unfolding decode_amo_function5
decode_amo word =
    let args : AmoArgs = record {
      destination_register = destination_register_of word;
      source_register1 = source_register1_of word;
      source_register2 = source_register2_of word;
    } in
    if function3_of word == 0x2
    then decode_amo_function5 word amo_word args
    else if function3_of word == 0x3
    then decode_amo_function5 word amo_double args
    else illegal word
