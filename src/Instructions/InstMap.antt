-- ===== src/Instructions/InstMap.antt =====
-- tsrkit_pvm/interpreter/instructions/inst_map.py: the dispatch table, and compiled blocks.
pub mod Entries
pub mod Fuel
pub mod Compile
pub mod BlockCache
use tsrkit_pvm.Prelude.{
  ℕ, zero, suc, ◌+◌, Bool, true, false, not, List, [], ◌∷◌, ◌++◌, map, Option, none, some, ◌==◌,
  if◌then◌else◌, get_elem?, length, M, Outcome, pure, raise, ◌>>=◌, or_raise, index_error,
  value_error, panic, out_of_rounds,
}
use mathlib.Core.Option
use tsrkit_pvm.Common.Status.{ExecutionStatus}
use tsrkit_pvm.Interpreter.Program
use tsrkit_pvm.Interpreter.Program.{Program}
use tsrkit_pvm.Instructions.Machine.{Table, Machine, OpCode, Exec}
use tsrkit_pvm.Instructions.Tables

-- `InstructionHandler`: the opcode's data with its table class. `bind` makes the table object at a
-- program counter, reads the operands and applies the method to them; `none` is an IndexError.
pub record InstructionHandler : Type 0 where
  pub bind : Table → Option Exec
  pub gas : ℕ
  pub is_terminating : Bool

module _ {P : Type 0} (get_props : Table → Option P) where
  abbrev pub handler : ℕ × OpCode P → ℕ × InstructionHandler
  handler (opcode, op) = (
    opcode,
    record {
      bind = λ t. Option.map (op.fn t) (get_props t);
      gas = op.gas;
      is_terminating = op.is_terminating;
    },
  )

-- `all_tables`, entry by entry.
unfoldable pub all_tables : List (ℕ × InstructionHandler)
all_tables =
    map (handler Tables.WoArgs.get_props) Tables.WoArgs.table
    ++ map (handler Tables.IImm.get_props) Tables.IImm.table
    ++ map (handler Tables.IRegIEwimm.get_props) Tables.IRegIEwimm.table
    ++ map (handler Tables.IiImm.get_props) Tables.IiImm.table
    ++ map (handler Tables.IOffset.get_props) Tables.IOffset.table
    ++ map (handler Tables.IRegIImm.get_props) Tables.IRegIImm.table
    ++ map (handler Tables.IRegIiImm.get_props) Tables.IRegIiImm.table
    ++ map (handler Tables.IRegIImmIOffset.get_props) Tables.IRegIImmIOffset.table
    ++ map (handler Tables.IiReg.get_props) Tables.IiReg.table
    ++ map (handler Tables.IiRegIImm.get_props) Tables.IiRegIImm.table
    ++ map (handler Tables.IiRegIOffset.get_props) Tables.IiRegIOffset.table
    ++ map (handler Tables.IiRegIiImm.get_props) Tables.IiRegIiImm.table
    ++ map (handler Tables.IiiReg.get_props) Tables.IiiReg.table

-- A later entry, if there is one, or else this one, if its key fits.
abbrev pub override {ℓ} : {A : Type ℓ} → Option A → Bool → A → Option A
override (some later) fits h = some later
override none true h = some h
override none false h = none

-- `self._dispatch_table[opcode] = handler` for each entry: the last assignment counts.
unfoldable pub lookup : ℕ → List (ℕ × InstructionHandler) → Option InstructionHandler
lookup opcode [] = none
lookup opcode ((k, h) ∷ entries) = override (lookup opcode entries) (k == opcode) h

unfoldable pub dispatch : ℕ → Option InstructionHandler
dispatch opcode = lookup opcode all_tables

unfoldable pub is_terminating : ℕ → Bool
unfolding dispatch
is_terminating opcode = elim (dispatch opcode) [ none ↦ true | some h ↦ h.is_terminating ]

unfoldable pub get_gas_cost : {S : Type 0} → ℕ → M S ℕ
unfolding dispatch
get_gas_cost opcode s = elim (dispatch opcode) [
  | none ↦ Outcome.raised panic s
  | some h ↦ Outcome.done h.gas s
]

-- `CompiledInstruction`: the method applied to its table object and operands.
pub record CompiledInstruction : Type 0 where
  pub fn : Exec
  pub is_terminating : Bool

pub record BlockInfo : Type 0 where
  pub total_gas : ℕ
  pub instructions : List CompiledInstruction

abbrev pub empty_block : BlockInfo
empty_block = record { total_gas = 0; instructions = [] }

-- An instruction before the rest of a block.
abbrev pub cons_block : InstructionHandler → Exec → BlockInfo → BlockInfo
cons_block h fn rest = record {
  total_gas = h.gas + rest.total_gas;
  instructions = (record { fn = fn; is_terminating = h.is_terminating }) ∷ rest.instructions;
}

abbrev pub table_at : Program → ℕ → Table
table_at p pc = record { counter = pc; program = p; skip_index = Program.skip p pc }

-- The loop of `_compile_block` at `current_pc`, for a number of rounds. Past the end of `zeta` a
-- round raises the IndexError of `zeta[current_pc]`.
unfoldable pub compile_loop : ℕ → Program → ℕ → M (Unit {0}) BlockInfo
compile_loop zero p pc = raise out_of_rounds
compile_loop (suc left) p pc = do
  opcode ← or_raise index_error (get_elem? p.zeta pc)
  h ← or_raise value_error (dispatch opcode)
  fn ← or_raise index_error (h.bind (table_at p pc))
  elim h.is_terminating [
    | true ↦ pure (cons_block h fn empty_block)
    | false ↦
        compile_loop left p (pc + (1 + Program.skip p pc)) >>= λ rest. pure (cons_block h fn rest)
  ]

unfoldable pub compile_block : Program → ℕ → M (Unit {0}) BlockInfo
unfolding compile_loop
compile_block p start_pc = compile_loop (suc (length p.zeta)) p start_pc

-- `program._exec_blocks`.
abbrev pub Cache : Type 0
Cache = ℕ → Option BlockInfo

abbrev pub empty_cache : Cache
empty_cache pc = none

abbrev pub remember : Cache → ℕ → BlockInfo → Cache
remember cache pc info j = if pc == j then some info else cache j

abbrev pub compiled : Cache → ℕ → Outcome (Unit {0}) BlockInfo → Outcome Cache BlockInfo
compiled cache pc (Outcome.done info _) = Outcome.done info (remember cache pc info)
compiled cache pc (Outcome.raised e _) = Outcome.raised e cache

unfoldable pub get_block : Program → ℕ → M Cache BlockInfo
unfolding compile_block
get_block p start_pc cache =
    let fresh = compiled cache start_pc (compile_block p start_pc tt) in
    elim (cache start_pc) [ some info ↦ Outcome.done info cache | none ↦ fresh ]

-- A status, a program counter, and the gas that was used.
abbrev pub BlockReturn : Type 0
BlockReturn = ExecutionStatus × ℕ × ℕ

-- What follows an instruction in the loop: the block ends at a terminating instruction, and at any
-- other when the status is not CONTINUE, with the gas of the instructions up to this one.
abbrev pub after_instruction :
    ℕ
    → ℕ
    → (ExecutionStatus × ℕ → M Machine BlockReturn)
    → Bool
    → ExecutionStatus × ℕ
    → M Machine BlockReturn
after_instruction total_gas i again true (status, next_pc) = pure (status, next_pc, total_gas)
after_instruction total_gas i again false (ExecutionStatus.continue, next_pc) =
    again (ExecutionStatus.continue, next_pc)
after_instruction total_gas i again false (status, next_pc) = pure (status, next_pc, i + 1)

-- The loop of `BlockInfo.execute` from the instruction with index `i` on.
unfoldable pub run_instructions :
    ℕ → ℕ → List CompiledInstruction → ExecutionStatus × ℕ → M Machine BlockReturn
run_instructions total_gas i [] (status, current_pc) = pure (status, current_pc, total_gas)
run_instructions total_gas i (inst ∷ rest) _ =
    inst.fn
    >>= after_instruction total_gas i (run_instructions total_gas (i + 1) rest) inst.is_terminating

-- The status before the first instruction is None in the source; a compiled block is not empty.
unfoldable pub execute : BlockInfo → ℕ → M Machine BlockReturn
unfolding run_instructions
execute info start_pc =
    run_instructions info.total_gas 0 info.instructions (ExecutionStatus.continue, start_pc)
