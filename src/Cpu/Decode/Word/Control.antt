-- ===== src/Cpu/Decode/Word/Control.antt =====
-- The cases of src/emulator/cpu/decode/decode-32.ts for jumps, branches, fences and system instructions.
use ya_risc_v.Prelude.{◌/◌, ◌^◌, ◌==◌, ◌!=◌, ◌||◌, if◌then◌else◌, ℕ}
use ya_risc_v.Bytes.{signed_number_to_bytes}
use ya_risc_v.Cpu.Instructions.Condition.{
  branch_eq, branch_ne, branch_lt, branch_ge, branch_ltu, branch_geu,
}
use ya_risc_v.Cpu.Decode.Fields.{
  decode_i_type_immediate, decode_b_type_immediate, decode_j_type_immediate,
  destination_register_of, source_register1_of, source_register2_of, function3_of, function7_of,
}
use ya_risc_v.Cpu.Decode.Instruction.{
  Instruction, jump, jump_register, branch, fence, fence_instruction, environment_call, breakpoint,
  supervisor_return, machine_return, wait_for_interrupt, fence_virtual_memory, csr_register,
  csr_immediate, illegal, csr_write, csr_set, csr_clear, CsrRegisterArgs, CsrImmediateArgs,
}
use ya_risc_v.Cpu.Instructions.Branch.{BranchArgs}

unfoldable pub decode_jal : ℕ → Instruction
unfolding decode_j_type_immediate
decode_jal word = jump (record {
  destination_register = destination_register_of word;
  immediate = decode_j_type_immediate word;
})

unfoldable pub decode_jalr : ℕ → Instruction
unfolding decode_i_type_immediate
decode_jalr word =
    if function3_of word != 0
    then illegal word
    else jump_register (record {
      destination_register = destination_register_of word;
      source_register1 = source_register1_of word;
      immediate = decode_i_type_immediate word;
    })

unfoldable pub decode_branch : ℕ → Instruction
unfolding decode_b_type_immediate
decode_branch word =
    let args : BranchArgs = record {
      source_register1 = source_register1_of word;
      source_register2 = source_register2_of word;
      immediate = decode_b_type_immediate word;
    } in
    if function3_of word == 0x0
    then branch branch_eq args
    else if function3_of word == 0x1
    then branch branch_ne args
    else if function3_of word == 0x4
    then branch branch_lt args
    else if function3_of word == 0x5
    then branch branch_ge args
    else if function3_of word == 0x6
    then branch branch_ltu args
    else if function3_of word == 0x7
    then branch branch_geu args
    else illegal word

unfoldable pub decode_misc_mem : ℕ → Instruction
decode_misc_mem word =
    if function3_of word == 0x0
    then fence
    else if function3_of word == 0x1
    then fence_instruction
    else illegal word

-- `funct3` 0 of the opcode, by `funct7` and `funct12`.
unfoldable pub decode_system_function12 : ℕ → Instruction
decode_system_function12 word =
    let function12 = word / 2 ^ 20 in
    if function7_of word == 0x09
    then (if destination_register_of word != 0 then illegal word else fence_virtual_memory word)
    else if function12 == 0x000
    then (if destination_register_of word != 0 || source_register1_of word != 0
        then illegal word
        else environment_call)
    else if function12 == 0x001
    then (if destination_register_of word != 0 || source_register1_of word != 0
        then illegal word
        else breakpoint)
    else if function12 == 0x102
    then (if destination_register_of word != 0 || source_register1_of word != 0
        then illegal word
        else supervisor_return)
    else if function12 == 0x105
    then (if destination_register_of word != 0 || source_register1_of word != 0
        then illegal word
        else wait_for_interrupt)
    else if function12 == 0x302
    then (if destination_register_of word != 0 || source_register1_of word != 0
        then illegal word
        else machine_return)
    else illegal word

unfoldable pub decode_system : ℕ → Instruction
unfolding decode_system_function12 signed_number_to_bytes
decode_system word =
    let args : CsrRegisterArgs = record {
      destination_register = destination_register_of word;
      source_register1 = source_register1_of word;
      control_and_status_register = word / 2 ^ 20;
      instruction_word = word;
    } in
    let immediate_args : CsrImmediateArgs = record {
      destination_register = destination_register_of word;
      immediate = signed_number_to_bytes (source_register1_of word) 32;
      control_and_status_register = word / 2 ^ 20;
      instruction_word = word;
    } in
    if function3_of word == 0x0
    then decode_system_function12 word
    else if function3_of word == 0x1
    then csr_register csr_write args
    else if function3_of word == 0x2
    then csr_register csr_set args
    else if function3_of word == 0x3
    then csr_register csr_clear args
    else if function3_of word == 0x5
    then csr_immediate csr_write immediate_args
    else if function3_of word == 0x6
    then csr_immediate csr_set immediate_args
    else if function3_of word == 0x7
    then csr_immediate csr_clear immediate_args
    else illegal word
