-- ===== src/Lib.antt =====
-- A RISC-V emulator in TypeScript: the hart's arithmetic, decoding, registers and traps, the LR/SC
-- monitor, and the interrupt controller.
--
-- The emulator (src/emulator) steps one RV64 hart over a memory of packed regions. A byte string of
-- eight bytes is the hart's only number type (src/utils/bytes.ts); the register file, the control
-- and status registers and the privilege mode are one mutable record (src/emulator/cpu/types.ts)
-- that the instructions, the trap unit and the devices' wires update. A step takes the first
-- interrupt that may be taken (src/emulator/cpu/trap.ts), or checks the fetch against the physical
-- memory protection (src/emulator/cpu/pmp.ts), decodes (src/emulator/cpu/decode) and runs one instruction
-- (src/emulator/cpu/instructions), and commits its retirement to the counters. Harts are workers that
-- share one memory: load-reserved and store-conditional go through a monitor with a lock
-- (src/emulator/reservation.ts), and devices reach the harts through the interrupt controller
-- (src/emulator/plic).
--
-- Files, and the code that each one models:
--   Prelude          Boolean tests, list access with a default, laws of the bitwise operations,
--                    integers; no code of the emulator
--   Bytes            src/utils/bytes.ts: every function on byte strings. Children: what the
--                    functions compute on the numbers that words stand for
--   Cpu/Types, Csr   src/emulator/cpu/types.ts, and the register numbers of registers.ts
--   Cpu/Registers    src/emulator/cpu/registers.ts: general registers, program counter, counters
--   Cpu/CsrAccess, CsrFile, Masks
--                    src/emulator/cpu/registers.ts: access checks, reads, legal values and writes of
--                    the control and status registers, and the interrupt-pending mirror
--   Cpu/Pmp          src/emulator/cpu/pmp.ts: matching of entries and the access check
--   Cpu/Trap, Mode   src/emulator/cpu/trap.ts: entry, delegation, return, interrupt selection.
--                    Delivery, Return, SupervisorReturn: entry and the way back; Select and Taken: the
--                    choice of the interrupt, and the step that takes it
--   Cpu/Instructions src/emulator/cpu/instructions: op.ts, op-imm.ts, op-32.ts, op-imm-32.ts,
--                    op-m.ts, op-32-m.ts, branch.ts, lui.ts, auipc.ts, jal.ts, jalr.ts. Op, OpImm,
--                    Op32, OpImm32, OpM, Op32M, Branch and Jump hold the functions; Result, Words,
--                    Words32, Alu, AluImm, Alu32, Multiply, Multiply32, Condition and Target what they
--                    promise
--   Cpu/Decode       src/emulator/cpu/decode. Instruction: what the decoder's closures call; Fields
--                    and Word: decode-32.ts; Compressed: decode-c.ts; Cache: index.ts. Valid, Memo
--                    and Encode: operands in range, the table of results, and the inverse of encoding
--   Reservation      src/emulator/reservation.ts. Monitor: the operations; Owner, Window and Lock:
--                    owners of a line, a store between LR and SC, and the workers' steps, with Lock/Held
--                    for the window of a conditional store
--   Plic             src/emulator/plic: Layout, Gateway (with the parts of wires.ts,
--                    src/emulator/irq-level.ts and src/utils/atomics.ts that it calls) and Mmio.
--                    Select, Gated, Steps, Invariant, Guest and Cycle, with Cycle/Signal: what they promise
--   Utils            src/utils: ranges.ts, alignment.ts and binary-search.ts
--   */Tests          concrete runs, and the theorems at concrete inputs
--
-- Correspondence. A function `camelCase` of the source is `camel_case` here. A function that mutates
-- `Registers` returns the new record. `Uint8Array` is a list of bytes, read with 0 out of range as
-- `b[i] ?? 0` does; a word (`IsWord`) has eight bytes below 256, and `value` is its number, lowest
-- byte first. `bigint` values that are never negative are ℕ, and a JS number under 32-bit operators
-- keeps its wrap `% 2 ^ 32`. An argument that a function does not read, such as the memory of a
-- register instruction, is left out. A decoder's closure is a value of `Instruction`, with the captured
-- arguments. The shared slots and slabs are functions of their index; a lock that another worker holds
-- gives no result, and a loop that retries a compare-and-exchange is one update.
--
-- Bounds. The loops over words run eight rounds, as in the source. `trailing_ones` counts at most 64
-- ones, since the address that it reads has 64 bits. Loops over lists recurse on the list. The binary
-- search has as much fuel as the list has elements, and each turn shortens the range by one at least;
-- where the fuel is spent and the loop's test still holds, it gives no result.
-- The loops over harts and interrupt sources run 8 and 31 rounds, as in the source.
--
-- Not modelled: the packing of memory into regions, the other devices (CLINT, UART, syscon), the
-- execution of loads, stores, atomics and system instructions, the hart's loop, the device tree, the
-- terminal and the command line, and the waits on `Atomics` and worker threads.
pub mod Prelude
pub mod Bytes
pub mod Cpu
pub mod Plic
pub mod Reservation
pub mod Utils
