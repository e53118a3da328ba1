-- ===== src/Lib.antt =====
-- A model of the interpreter of tsrkit_pvm, a virtual machine for PVM bytecode (README.md), and of its
-- port to Cython.
--
-- The program. `Interpreter.execute` (tsrkit_pvm/interpreter/pvm.py) runs a program from a program
-- counter on some gas, thirteen registers and a memory. Each round asks the instruction mapper
-- (tsrkit_pvm/interpreter/instructions/inst_map.py) for the block at the counter, which it
-- compiles once and keeps in the program, runs the block's instructions in order, and takes the
-- block's gas away. An instruction is a method of one of thirteen tables
-- (tsrkit_pvm/interpreter/instructions/tables/*.py), chosen by its opcode; it reads and writes
-- registers and the memory (tsrkit_pvm/interpreter/memory.py), and asks the program
-- (tsrkit_pvm/interpreter/program.py) where it may jump. PvmError ends a run with PANIC or
-- PAGE_FAULT. Blobs are decoded by tsrkit_pvm/core/program_base.py and tsrkit_pvm/core/code.py;
-- tsrkit_pvm/common/*.py holds the helpers.
--
-- The port, tsrkit_pvm/cpvm, has the same parts: `CyInterpreter.execute` (cy_pvm.pyx) asks the mapper
-- (mapper.pyx) for blocks (cy_block.pyx), whose instructions are C functions of thirteen tables
-- (instructions/tables/*.pyx) on a program (cy_program.pyx) and a memory with bitsets for its rights
-- (cy_memory.pyx); an instruction leaves a run by raising `PvmExit` (cy_status.pyx).
--
-- How code is modelled. Python integers that are not negative are ℕ, the others ℤ of Prelude/Ints,
-- with `//` and `%` rounding as in Python; a 64-bit wrap is written out where the source has it.
-- An operation that may raise is a function M S A from a state to an Outcome, which is a return or
-- a raise, each with the state that is left: what was changed before a raise stays changed. The
-- registers and the memory, which Python changes in place, are the state Machine of
-- Instructions/Machine. Lists, slices and item assignment are those of Prelude/Lists.
--
-- In the port, a C integer that is unsigned is a number below 2 ^ w, with `% 2 ^ w` where the source
-- converts or wraps around, and a signed one an integer; Cpvm/Words has the conversions. C says
-- nothing of a shift by the width or more; here the count is taken modulo the width, as x86-64 and
-- AArch64 do. Division in C rounds towards 0. A conversion of a Python integer that does not fit
-- raises an OverflowError. `crash` stands for a null pointer that is followed or an array that is
-- read past its end.
--
-- The files, with the code that each is about:
--   Prelude/*: Booleans, lists, integers, outcomes and postconditions; no code of the repository.
--   Common/Constants, Common/Status: tsrkit_pvm/common/constants.py, tsrkit_pvm/common/types.py,
--     tsrkit_pvm/common/status.py.
--   Common/Utils: tsrkit_pvm/common/utils.py, under its names; Common/Bits is about its bit
--     lists, Common/Signs about chi, z and z_inv.
--   Core/Code: tsrkit_pvm/core/code.py (Code, regs_from_pc); `encode` is encode_into.
--   Core/ProgramBase: Program.decode_from of tsrkit_pvm/core/program_base.py; ProgramBase/Bitmask
--     is about its bitmask.
--   Interpreter/Memory: tsrkit_pvm/interpreter/memory.py. `read` and `write` are split into
--     read_at, read_cold, read_single, read_multipage and the same for writes, one for each path
--     of the source; alter_accessibility into alter_pages and invalidate_hot. Memory/Init is the
--     constructor, from_pc, zero_memory_range and is_accessible. Memory/Coherent has the
--     invariant IsCoherent, Memory/Keeps and Memory/Access its preservation, Memory/Grants is about
--     alter_accessibility, Memory/Loading and Memory/Layout about what from_pc lays out, Memory/Flat the
--     specification as a flat array of bytes, and Flat/* the comparison with it.
--   Interpreter/Program: skip, branch and djump of tsrkit_pvm/interpreter/program.py;
--     Program/Init is __post_init__, Init/Skips is about the skip cache, Init/Blocks about the
--     basic blocks, Program/Targets about where jumps go.
--   Instructions/Machine: the registers, OpCode and InstructionTable; Machine/Branches is about
--     what the methods make of Program.branch.
--   Instructions/Tables/*: one file for each table, named as its Python file, with get_props, the
--     methods and the dictionary of opcodes; the files Values hold the numbers that the methods
--     of a table store. IiiReg/Logic is about the logical instructions.
--   Instructions/InstMap: InstMapper and BlockInfo. InstMap/Entries, Compile, Fuel and BlockCache
--     are about the dispatch table, compiled blocks, the rounds of the compilation, and
--     `_exec_blocks`.
--   Instructions/Safety/*: the invariant of the registers and the memory, method by method, entry
--     by entry and block by block; Safety/Start is about the machine that a run starts on.
--   Interpreter/Pvm: `execute`; Pvm/Loop and Pvm/Safe are about its loop.
--   Cpvm/Words: the integers of C; Words/Bits and Words/Combine are about their bits.
--   Cpvm/Utils, Cpvm/Status: tsrkit_pvm/cpvm/cy_utils.pyx, cy_status.pyx. Utils/Agree and
--     Utils/Remainder compare the helpers with Common/Utils.
--   Cpvm/Memory: tsrkit_pvm/cpvm/cy_memory.pyx; Memory/Init is the constructor and from_pc.
--     Memory/Rights reads the bitsets as one right for each page, Memory/Pages is about the check
--     of a range, Memory/Reachable about the memories that operations lead to; Memory/Flat and
--     Memory/Writes compare reads and writes with the flat memory of Interpreter/Memory/Flat.
--   Cpvm/Program: skip, branch and djump of tsrkit_pvm/cpvm/cy_program.pyx; Program/Init is the
--     constructor. Program/Jumps and Init/Agree compare them with Interpreter/Program.
--   Cpvm/Machine: the registers, tsrkit_pvm/cpvm/instructions/cy_table.pyx and operand decoding.
--   Cpvm/Tables/*: one file for each table, named as Instructions/Tables. IiiReg/Agree,
--     IiiReg/Operations, IiiReg/Bounds and IiiReg/Laws are about the values of iii_reg.pyx, IiRegIImm/Operations
--     about those of ii_reg_i_imm.pyx.
--   Cpvm/Mapper: tsrkit_pvm/cpvm/mapper.pyx and cy_block.pyx. Mapper/Entries is about the dispatch
--     table, Mapper/Blocks about compiled blocks, Mapper/Charge about the gas of a block.
--   Cpvm/Pvm: tsrkit_pvm/cpvm/cy_pvm.pyx; Pvm/Ends is about its loop.
--   Tests/*: runs, and the theorems at concrete inputs.
--
-- Bounds and fuel. `execute` has one round for each unit of gas and one more, since each block
-- takes gas away. `_compile_block` has one round more than `zeta` has positions, since each round
-- moves on and the index is out of range after the last; a loop that used its rounds up would raise
-- `out_of_rounds`, which no exception of the code is. A read or a write over several pages has
-- as many rounds as bytes, since each moves on by one or more. The same holds in the port. Its loops
-- over the bits of a word have 64 rounds, since each clears or passes a bit.
--
-- Parameters. Uint of tsrkit_types is an argument of Code.encode and of ProgramBase.decode_from;
-- its little-endian form is a named hypothesis, IsLittleEndian, where a statement needs it.
--
-- What is not modelled. The recompiler emits and runs machine code; loggers, prints, __repr__, __eq__
-- and from_json have no part in a run. Of the port: decoding and encoding blobs, b and b_inv for more
-- than eight bytes, rtz, failed allocations, and a program counter or gas that does not fit its C type.
-- `execute` starts with an empty `_exec_blocks`; the statement on get_block is about any cache
-- that earlier runs may have filled. The order in which sparse cells are loaded does not matter,
-- and is not modelled.
pub mod Prelude
pub mod Common
pub mod Interpreter
pub mod Instructions
pub mod Core
pub mod Cpvm
pub mod Tests
