-- ===== src/Cpvm/Mapper.antt =====
-- tsrkit_pvm/cpvm/mapper.pyx and cy_block.pyx: the dispatch table, and compiled blocks.
pub mod Entries
pub mod Blocks
pub mod Charge
use tsrkit_pvm.Prelude.{
  ℕ, zero, suc, ◌+◌, Bool, true, false, List, [], ◌∷◌, ◌++◌, map, Option, none, some, ◌==◌,
  if◌then◌else◌, get_elem?, length, M, Outcome, pure, raise, ◌>>=◌, or_raise, Exn, pvm_exit, crash,
  out_of_rounds,
}
use tsrkit_pvm.Instructions.InstMap.{override}
use tsrkit_pvm.Cpvm.Program
use tsrkit_pvm.Cpvm.Program.{CyProgram, no_branch}
use tsrkit_pvm.Cpvm.Machine.{CyMachine, CyTableEntry, GetProps, InstrFn, InstructionProps}
use tsrkit_pvm.Cpvm.Tables

-- `_dispatch_table[opcode]` and `_dispatch_opdata[opcode]`: a table's `get_props` and an entry.
pub record Dispatched : Type 0 where
  pub get_props : GetProps
  pub entry : CyTableEntry

abbrev dispatched : GetProps → ℕ × CyTableEntry → ℕ × Dispatched
dispatched get_props (opcode, ent) = (opcode, record { get_props = get_props; entry = ent })

-- `table_objs`, entry by entry.
unfoldable pub table_objs : List (ℕ × Dispatched)
table_objs =
    map (dispatched Tables.WoArgs.get_props) Tables.WoArgs.table
    ++ map (dispatched Tables.IImm.get_props) Tables.IImm.table
    ++ map (dispatched Tables.IOffset.get_props) Tables.IOffset.table
    ++ map (dispatched Tables.IRegIEwimm.get_props) Tables.IRegIEwimm.table
    ++ map (dispatched Tables.IRegIImm.get_props) Tables.IRegIImm.table
    ++ map (dispatched Tables.IRegIImmIOffset.get_props) Tables.IRegIImmIOffset.table
    ++ map (dispatched Tables.IRegIiImm.get_props) Tables.IRegIiImm.table
    ++ map (dispatched Tables.IiImm.get_props) Tables.IiImm.table
    ++ map (dispatched Tables.IiReg.get_props) Tables.IiReg.table
    ++ map (dispatched Tables.IiRegIImm.get_props) Tables.IiRegIImm.table
    ++ map (dispatched Tables.IiRegIOffset.get_props) Tables.IiRegIOffset.table
    ++ map (dispatched Tables.IiRegIiImm.get_props) Tables.IiRegIiImm.table
    ++ map (dispatched Tables.IiiReg.get_props) Tables.IiiReg.table

unfoldable pub lookup : ℕ → List (ℕ × Dispatched) → Option Dispatched
lookup opcode [] = none
lookup opcode ((k, d) ∷ entries) = override (lookup opcode entries) (k == opcode) d

-- `none` is a null pointer.
unfoldable pub dispatch : ℕ → Option Dispatched
unfolding lookup table_objs
dispatch opcode = lookup opcode table_objs

-- `entry_ptr is not None` holds of a null pointer, whose flag is then read.
unfoldable pub is_terminating : {S : Type 0} → ℕ → M S Bool
unfolding dispatch
is_terminating opcode s = elim (dispatch opcode) [
  | none ↦ Outcome.raised crash s
  | some d ↦ Outcome.done d.entry.is_terminating s
]

unfoldable pub get_gas_cost : {S : Type 0} → ℕ → M S ℕ
unfolding dispatch
get_gas_cost opcode s = elim (dispatch opcode) [
  | none ↦ Outcome.raised crash s
  | some d ↦ Outcome.done d.entry.gas_cost s
]

-- `CyCompiledInstruction`: an entry with its operands.
pub record CyCompiledInstruction : Type 0 where
  pub opcode : ℕ
  pub next_pc : ℕ
  pub handler : CyTableEntry
  pub props : InstructionProps

pub record CyBlockInfo : Type 0 where
  pub total_gas : ℕ
  pub instructions : List CyCompiledInstruction

abbrev pub cons_block : CyCompiledInstruction → CyBlockInfo → CyBlockInfo
cons_block inst rest = record {
  total_gas = inst.handler.gas_cost + rest.total_gas;
  instructions = inst ∷ rest.instructions;
}

abbrev pub empty_block : CyBlockInfo
empty_block = record { total_gas = 0; instructions = [] }

-- The instruction at `current_pc`, from what the dispatch table has for its opcode.
abbrev pub compiled_at : CyProgram → ℕ → ℕ → Dispatched → CyCompiledInstruction
compiled_at p current_pc opcode d = record {
  opcode = opcode;
  next_pc = current_pc + Program.skip p current_pc + 1;
  handler = d.entry;
  props = d.get_props current_pc p (Program.skip p current_pc);
}

-- The loop of `_compile_block` at `current_pc`. The first argument counts rounds. Past the
-- end of `zeta` a round reads the C array out of bounds.
unfoldable pub compile_loop : ℕ → CyProgram → ℕ → M (Unit {0}) CyBlockInfo
unfolding dispatch Program.skip
compile_loop zero p current_pc = raise out_of_rounds
compile_loop (suc left) p current_pc = do
  opcode ← or_raise crash (get_elem? p.zeta current_pc)
  d ← or_raise crash (dispatch opcode)
  elim d.entry.is_terminating [
    | true ↦ pure (cons_block (compiled_at p current_pc opcode d) empty_block)
    | false ↦ compile_loop left p (current_pc + Program.skip p current_pc + 1) >>= λ rest.
        pure (cons_block (compiled_at p current_pc opcode d) rest)
  ]

unfoldable pub compile_block : CyProgram → ℕ → M (Unit {0}) CyBlockInfo
unfolding compile_loop
compile_block p start_pc = compile_loop (suc (length p.zeta)) p start_pc

-- `program._exec_blocks`.
abbrev pub Cache : Type 0
Cache = ℕ → Option CyBlockInfo

abbrev pub remember : Cache → ℕ → CyBlockInfo → Cache
remember cache pc info j = if pc == j then some info else cache j

abbrev pub compiled : Cache → ℕ → Outcome (Unit {0}) CyBlockInfo → Outcome Cache CyBlockInfo
compiled cache pc (Outcome.done info _) = Outcome.done info (remember cache pc info)
compiled cache pc (Outcome.raised e _) = Outcome.raised e cache

unfoldable pub get_block : CyProgram → ℕ → M Cache CyBlockInfo
unfolding compile_block
get_block p start_pc cache =
    let fresh = compiled cache start_pc (compile_block p start_pc tt) in
    elim (cache start_pc) [ some info ↦ Outcome.done info cache | none ↦ fresh ]

-- What a block ends in: the next program counter with the block's gas, a `PvmExit` with its code,
-- register, next program counter and gas cost, or another exception.
pub data BlockEnd : Type 0 where
  finished : ℕ → ℕ → BlockEnd
  exited : ℕ → ℕ → ℕ → ℕ → BlockEnd
  threw : Exn → BlockEnd

-- What follows a method in the loop, for the instruction with index `i`; `again` runs the rest.
abbrev pub after_instruction :
    ℕ
    → ℕ
    → CyCompiledInstruction
    → (ℕ → CyMachine → BlockEnd × CyMachine)
    → Outcome CyMachine ℕ
    → BlockEnd × CyMachine
after_instruction total_gas i inst again (Outcome.raised (pvm_exit code register) s) =
    (BlockEnd.exited code register inst.next_pc (i + 1), s)
after_instruction total_gas i inst again (Outcome.raised e s) = (BlockEnd.threw e, s)
after_instruction total_gas i inst again (Outcome.done pc s) =
    let next_pc = if pc == no_branch then inst.next_pc else pc in
    let rest = again next_pc s in
    if inst.handler.is_terminating then (BlockEnd.finished next_pc total_gas, s) else rest

-- The loop of `CyBlockInfo.execute` from the instruction with index `i` on.
unfoldable pub run_instructions :
    ℕ → ℕ → CyProgram → List CyCompiledInstruction → ℕ → CyMachine → BlockEnd × CyMachine
run_instructions total_gas i p [] current_pc s = (BlockEnd.finished current_pc total_gas, s)
run_instructions total_gas i p (inst ∷ rest) current_pc s =
    after_instruction total_gas i inst (run_instructions total_gas (i + 1) p rest)
      (inst.handler.fn p current_pc inst.props s)

unfoldable pub execute : CyBlockInfo → CyProgram → ℕ → CyMachine → BlockEnd × CyMachine
unfolding run_instructions
execute info p start_pc s = run_instructions info.total_gas 0 p info.instructions start_pc s
