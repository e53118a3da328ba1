-- ===== src/Cpvm/Machine.antt =====
-- tsrkit_pvm/cpvm/instructions/cy_table.pxd, and the registers and the memory that methods change.
use tsrkit_pvm.Prelude.{ℕ, ◌+◌, Bool, List, map, range, get_or, set, M, Outcome, pure, ◌>>=◌}
use tsrkit_pvm.Cpvm.Words.{uint64, as_unsigned}
use tsrkit_pvm.Cpvm.Utils.{or_loop, chi, z}
use tsrkit_pvm.Cpvm.Memory
use tsrkit_pvm.Cpvm.Memory.{CyMemory}
use tsrkit_pvm.Cpvm.Program.{CyProgram, no_branch}

-- `uint64_t reg_arr[13]`, and the memory object.
pub record CyMachine : Type 0 where
  pub registers : List ℕ
  pub memory : CyMemory

pub record InstructionProps : Type 0 where
  pub vx : ℕ
  pub vy : ℕ
  pub ra : ℕ
  pub rb : ℕ
  pub rd : ℕ

-- `instr_fn_t`: a method of a table at `counter`, which returns the next program counter.
abbrev pub InstrFn : Type 0
InstrFn = CyProgram → ℕ → InstructionProps → M CyMachine ℕ

pub record CyTableEntry : Type 0 where
  pub fn : InstrFn
  pub gas_cost : ℕ
  pub is_terminating : Bool

-- `get_props` of a table, at a program counter and its skip index.
abbrev pub GetProps : Type 0
GetProps = ℕ → CyProgram → ℕ → InstructionProps

-- `registers[i]`, for an index below 13, as `clamp_12` makes it.
abbrev pub at : CyMachine → ℕ → ℕ
at s i = get_or s.registers i 0

-- `registers[i] = v` of a `uint64_t`.
unfoldable pub put : ℕ → ℕ → CyMachine → CyMachine
put i v s = record s { registers = set s.registers i v }

-- An operation of the memory object.
abbrev pub on_memory_outcome : {A : Type 0} → CyMachine → Outcome CyMemory A → Outcome CyMachine A
on_memory_outcome s (Outcome.done a m) = Outcome.done a (record s { memory = m })
on_memory_outcome s (Outcome.raised e m) = Outcome.raised e (record s { memory = m })

abbrev pub on_memory : {A : Type 0} → M CyMemory A → M CyMachine A
on_memory op s = on_memory_outcome s (op s.memory)

-- `program.zeta[i]`. The array ends a thousand bytes after the instructions, and operands lie within
-- 25 bytes of an opcode.
abbrev pub zeta_at : CyProgram → ℕ → ℕ
zeta_at p i = get_or p.zeta i 0

-- `vx |= <uint64_t>zeta[start + i] << (8 * i)` for the bytes of an operand, in w bits.
unfoldable pub gather : ℕ → CyProgram → ℕ → ℕ → ℕ
unfolding or_loop
gather w p start count = or_loop w 0 0 (map (λ i. zeta_at p (start + i)) (range 0 count))

-- An immediate of `lx` bytes, sign-extended: `<uint64_t>chi(vx, lx)`.
unfoldable pub immediate : CyProgram → ℕ → ℕ → ℕ
unfolding gather chi as_unsigned
immediate p start lx = as_unsigned 64 (chi (gather 64 p start lx) lx)

-- The operands that a table does not decode.
abbrev pub no_props : InstructionProps
no_props = record { vx = 0; vy = 0; ra = 0; rb = 0; rd = 0 }

-- `<uint64_t>(program_counter) + <uint64_t>z(raw_offset, lx)`, for an offset of `lx` bytes.
unfoldable pub offset_of : CyProgram → ℕ → ℕ → ℕ → ℕ
unfolding gather z as_unsigned
offset_of p counter start lx = uint64 (counter + as_unsigned 64 (z (gather 32 p start lx) lx))

-- `memory.write(address, bytes)` as the last thing that a method does.
unfoldable pub writes : ℕ → List ℕ → M CyMachine ℕ
unfolding Memory.write
writes address bytes = on_memory (Memory.write address bytes) >>= λ _. pure no_branch
