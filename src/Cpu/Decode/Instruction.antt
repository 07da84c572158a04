-- ===== src/Cpu/Decode/Instruction.antt =====
-- What a decoded instruction is: the function that the decoder's closure calls, and its arguments.
-- The argument types are those of src/emulator/cpu/instructions.
use ya_risc_v.Prelude.{ℕ}
use ya_risc_v.Bytes.{Bytes}
use ya_risc_v.Cpu.Instructions.Result.{AluOp}
use ya_risc_v.Cpu.Instructions.Op.{OpArgs}
use ya_risc_v.Cpu.Instructions.OpImm.{OpImmArgs, ShiftImmArgs}
use ya_risc_v.Cpu.Instructions.AluImm.{ImmOp, ShiftOp}
use ya_risc_v.Cpu.Instructions.Op32.{Op32Args}
use ya_risc_v.Cpu.Instructions.OpImm32.{OpImm32Args, ShiftImm32Args}
use ya_risc_v.Cpu.Instructions.Alu32.{Op32, ShiftOp32}
use ya_risc_v.Cpu.Instructions.Branch.{BranchArgs}
use ya_risc_v.Cpu.Instructions.Condition.{BranchOp}
use ya_risc_v.Cpu.Instructions.Jump.{LuiArgs, AuipcArgs, JalArgs, JalrArgs}

-- lb, lh, lw, ld, lbu, lhu and lwu of load.ts.
pub data LoadOp : Type 0 where
  load_byte load_half load_word load_double load_byte_unsigned load_half_unsigned
        load_word_unsigned :
      LoadOp

-- sb, sh, sw and sd of store.ts.
pub data StoreOp : Type 0 where
  store_byte store_half store_word store_double : StoreOp

-- mul, mulh, mulhsu, mulhu, div, divu, rem and remu of op-m.ts.
pub data MulOp : Type 0 where
  multiply multiply_high multiply_high_signed_unsigned multiply_high_unsigned divide divide_unsigned
        remainder remainder_unsigned :
      MulOp

-- mulw, divw, divuw, remw and remuw of op-32-m.ts.
pub data MulOp32 : Type 0 where
  multiply_word divide_word divide_word_unsigned remainder_word remainder_word_unsigned : MulOp32

-- The functions of amo.ts, each with a form for 32 and one for 64 bits.
pub data AmoOp : Type 0 where
  load_reserved store_conditional amo_swap amo_add amo_xor amo_or amo_and amo_min amo_max
        amo_min_unsigned amo_max_unsigned :
      AmoOp

pub data AmoWidth : Type 0 where
  amo_word amo_double : AmoWidth

-- csrrw, csrrs and csrrc of system.ts, and their immediate forms.
pub data CsrOp : Type 0 where
  csr_write csr_set csr_clear : CsrOp

pub record LoadArgs : Type 0 where
  pub destination_register : ℕ
  pub source_register1 : ℕ
  pub immediate : Bytes

pub record StoreArgs : Type 0 where
  pub source_register1 : ℕ
  pub source_register2 : ℕ
  pub immediate : Bytes

pub record AmoArgs : Type 0 where
  pub destination_register : ℕ
  pub source_register1 : ℕ
  pub source_register2 : ℕ

pub record CsrRegisterArgs : Type 0 where
  pub destination_register : ℕ
  pub source_register1 : ℕ
  pub control_and_status_register : ℕ
  pub instruction_word : ℕ

pub record CsrImmediateArgs : Type 0 where
  pub destination_register : ℕ
  pub immediate : Bytes
  pub control_and_status_register : ℕ
  pub instruction_word : ℕ

pub data Instruction : Type 0 where
  load_upper : LuiArgs → Instruction
  add_upper : AuipcArgs → Instruction
  jump : JalArgs → Instruction
  jump_register : JalrArgs → Instruction
  branch : BranchOp → BranchArgs → Instruction
  load : LoadOp → LoadArgs → Instruction
  store : StoreOp → StoreArgs → Instruction
  atomic : AmoOp → AmoWidth → AmoArgs → Instruction
  operate : AluOp → OpArgs → Instruction
  operate_immediate : ImmOp → OpImmArgs → Instruction
  shift_immediate : ShiftOp → ShiftImmArgs → Instruction
  multiply_divide : MulOp → OpArgs → Instruction
  operate_32 : Op32 → Op32Args → Instruction
  add_immediate_32 : OpImm32Args → Instruction
  shift_immediate_32 : ShiftOp32 → ShiftImm32Args → Instruction
  multiply_divide_32 : MulOp32 → Op32Args → Instruction
  fence : Instruction
  fence_instruction : Instruction
  environment_call : Instruction
  breakpoint : Instruction
  supervisor_return : Instruction
  machine_return : Instruction
  wait_for_interrupt : Instruction
  fence_virtual_memory : ℕ → Instruction
  csr_register : CsrOp → CsrRegisterArgs → Instruction
  csr_immediate : CsrOp → CsrImmediateArgs → Instruction
  -- `cNop` of decode-c.ts
  hint : Instruction
  -- `illegalInstruction` and `illegalC`, with the encoding that the trap reports
  illegal : ℕ → Instruction
