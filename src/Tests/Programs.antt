-- ===== src/Tests/Programs.antt =====
-- A small program, and what the statements on programs, blocks and runs say of it.
use tsrkit_pvm.Prelude.{
  ℕ, suc, ◌+◌, ◌≤◌, Bool, true, false, [], ◌∷◌, Option, none, some, replicate, length, get_or, min,
  pos, ◌≡◌, refl, arith, Outcome, Ensures, ◌⊎◌, ◌↔◌,
}
use tsrkit_pvm.Interpreter.Program
use tsrkit_pvm.Interpreter.Program.{Program, mem, branch, djump}
use tsrkit_pvm.Interpreter.Program.Init.{
  init, skip_cache, skip_value, extend_bitmask, extend_instructions, blocks_loop, ends_block,
  skip_loop, bare,
}
use tsrkit_pvm.Interpreter.Program.Init.Skips.{IsNext, skip_cache-IsNext}
use tsrkit_pvm.Interpreter.Program.Init.Blocks.{IsStart, init-IsStart}
use tsrkit_pvm.Interpreter.Program.Targets.{
  Stays, Goes, IsAstray, HasNoEntry, IsHalt, ToEntry, branch-ToBlock, djump-ToEntry,
}
use tsrkit_pvm.Interpreter.Memory.Init.{blank}
use tsrkit_pvm.Instructions.Machine.{Machine, Exec, bytes_at}
use tsrkit_pvm.Instructions.Machine.{take_branch}
use tsrkit_pvm.Instructions.Machine.Branches.{Lands, take_branch-Lands}
use tsrkit_pvm.Instructions.Tables
use tsrkit_pvm.Instructions.InstMap
use tsrkit_pvm.Instructions.InstMap.{
  InstructionHandler, BlockInfo, Cache, dispatch, lookup, all_tables, compile_loop, compile_block,
  get_block, empty_cache, table_at,
}
use tsrkit_pvm.Instructions.InstMap.Compile.{Costs, IsCompileError}
use tsrkit_pvm.Instructions.InstMap.BlockCache.{IsFresh, Agrees, get_block-Agrees}
use tsrkit_pvm.Instructions.InstMap.Fuel.{compile_loop-enough}
use tsrkit_pvm.Instructions.Safety.Rules.{IsMachine, Raises}
use tsrkit_pvm.Instructions.Safety.Blocks.{bound-Keeps, compile_block-gas, block-Costs}
use tsrkit_pvm.Interpreter.Pvm
use tsrkit_pvm.Interpreter.Pvm.Loop.{Final}
use tsrkit_pvm.Interpreter.Pvm.Safe.{execute-IsFinal}

-- `move_reg` from register 2 to register 1, and a trap.
abbrev small : Program
small = record {
  z = 1;
  jump_table = 3 ∷ [];
  instruction_set = 100 ∷ 33 ∷ 0 ∷ [];
  offset_bitmask = true ∷ false ∷ true ∷ [];
  zeta = 100 ∷ 33 ∷ replicate 1001 0;
  extended_bitmask = true ∷ false ∷ replicate 1001 true;
  skip_cache = 1 ∷ 0 ∷ 0 ∷ [];
  basic_blocks = 0 ∷ 3 ∷ [];
}

abbrev machine : Machine
machine = record { registers = replicate 13 1; memory = blank (λ _. false) (λ _. false) 0 }

machine-IsMachine : IsMachine machine
machine-IsMachine = record {
  thirteen = refl;
  coherent = record { paged = λ pg bytes e. cc; hot = tt };
}

abbrev is_some : {A : Type 0} → Option A → Bool
is_some none = false
is_some (some a) = true

impossible : false ≡ true → ⊥
impossible e = cc

abbrev the : {A : Type 0} (o : Option A) → is_some o ≡ true → (a : A) × (o ≡ some a)
the none e = absurd (impossible e)
the (some a) e = (a, refl)

abbrev is_done : Outcome (Unit {0}) BlockInfo → Bool
is_done (Outcome.done info _) = true
is_done (Outcome.raised e _) = false

the_block :
    (o : Outcome (Unit {0}) BlockInfo)
    → is_done o ≡ true
    → (info : BlockInfo) × (o ≡ Outcome.done info tt)
the_block (Outcome.done info tt) e = (info, refl)
the_block (Outcome.raised x tt) e = cc

move_reg_found : is_some (dispatch 100) ≡ true
unfolding dispatch lookup all_tables Tables.WoArgs.table Tables.IImm.table Tables.IRegIEwimm.table
    Tables.IiImm.table Tables.IOffset.table Tables.IRegIImm.table Tables.IRegIiImm.table
    Tables.IRegIImmIOffset.table Tables.IiReg.table Tables.IiRegIImm.table Tables.IiRegIOffset.table
    Tables.IiRegIiImm.table Tables.IiiReg.table
move_reg_found = refl

small_compiles : is_done (compile_block small 0 tt) ≡ true
unfolding compile_block compile_loop Program.skip Tables.WoArgs.get_props Tables.IiReg.get_props
    Tables.IiReg.decode bytes_at dispatch lookup all_tables Tables.WoArgs.table Tables.IImm.table
    Tables.IRegIEwimm.table Tables.IiImm.table Tables.IOffset.table Tables.IRegIImm.table
    Tables.IRegIiImm.table Tables.IRegIImmIOffset.table Tables.IiReg.table Tables.IiRegIImm.table
    Tables.IiRegIOffset.table Tables.IiRegIiImm.table Tables.IiiReg.table
small_compiles = refl

abbrev move_reg_handler : (h : InstructionHandler) × (dispatch 100 ≡ some h)
move_reg_handler = the (dispatch 100) move_reg_found

move_reg_bound : is_some (move_reg_handler.0.bind (table_at small 0)) ≡ true
unfolding Program.skip Tables.WoArgs.get_props Tables.IiReg.get_props Tables.IiReg.decode bytes_at
    dispatch lookup all_tables Tables.WoArgs.table Tables.IImm.table Tables.IRegIEwimm.table
    Tables.IiImm.table Tables.IOffset.table Tables.IRegIImm.table Tables.IRegIiImm.table
    Tables.IRegIImmIOffset.table Tables.IiReg.table Tables.IiRegIImm.table Tables.IiRegIOffset.table
    Tables.IiRegIiImm.table Tables.IiiReg.table
move_reg_bound = refl

abbrev move_reg : (fn : Exec) × (move_reg_handler.0.bind (table_at small 0) ≡ some fn)
move_reg = the (move_reg_handler.0.bind (table_at small 0)) move_reg_bound

bound-Keeps_example : Ensures (λ _ m'. IsMachine m') (Raises IsMachine) (move_reg.0 machine)
bound-Keeps_example =
    bound-Keeps 100 move_reg_handler.0 (table_at small 0) move_reg.0 machine move_reg_handler.1
      move_reg.1 machine-IsMachine

abbrev block : (info : BlockInfo) × (compile_block small 0 tt ≡ Outcome.done info tt)
block = the_block (compile_block small 0 tt) small_compiles

execute-IsFinal_example : Final IsMachine small (Pvm.execute small 0 (pos 100) machine)
execute-IsFinal_example = execute-IsFinal small 0 (pos 100) machine refl machine-IsMachine

compile_block-gas_example :
    (block.0.total_gas ≡ length block.0.instructions) × (1 ≤ block.0.total_gas)
compile_block-gas_example = compile_block-gas small 0 block.0 block.1

block-Costs_example :
    Ensures
      (Costs IsMachine block.0.total_gas)
      (Raises IsMachine)
      (InstMap.execute block.0 0 machine)
block-Costs_example = block-Costs small 0 block.0 machine block.1 machine-IsMachine

empty_cache-IsFresh : IsFresh small empty_cache
empty_cache-IsFresh pc info e = cc

get_block-Agrees_example : Agrees small 0 (get_block small 0 empty_cache)
get_block-Agrees_example = get_block-Agrees small 0 empty_cache empty_cache-IsFresh

compile_loop-enough_example :
    (compile_loop (5 + suc (length small.zeta)) small 0 ≡ compile_block small 0)
    × Ensures (λ info _. 1 ≤ info.total_gas) IsCompileError (compile_block small 0 tt)
compile_loop-enough_example = compile_loop-enough 5 small 0

skip_cache-IsNext_example :
    (k : ℕ) × IsNext (true ∷ false ∷ true ∷ []) 0 k
    × (get_or (skip_cache (true ∷ false ∷ true ∷ [])) 0 0 ≡ min 24 k)
skip_cache-IsNext_example = skip_cache-IsNext (true ∷ false ∷ true ∷ []) 0 (omega arith)

-- A branch to the block at 3, and a jump through the one entry of the jump table.
branch-ToBlock_example :
    Ensures
      (λ r s'. (s' ≡ machine) × (Stays 0 true r ⊎ Goes small (pos 3) true r))
      (IsAstray small (pos 3) true machine)
      (branch small 0 (pos 3) true machine)
branch-ToBlock_example = branch-ToBlock small 0 (pos 3) true machine

djump-ToEntry_example :
    Ensures
      (λ r s'. (s' ≡ machine) × (IsHalt 0 2 r ⊎ ToEntry small 2 r))
      (HasNoEntry small 2 machine)
      (djump small 0 2 machine)
djump-ToEntry_example = djump-ToEntry small 0 2 machine

take_branch-Lands_example :
    Ensures
      (Lands (table_at small 0) (pos 3) true machine)
      (IsAstray small (pos 3) true machine)
      (take_branch (table_at small 0) (pos 3) true machine)
take_branch-Lands_example = take_branch-Lands (table_at small 0) (pos 3) true machine

small_made : init 1 (3 ∷ []) (100 ∷ 33 ∷ 0 ∷ []) (true ∷ false ∷ true ∷ []) ≡ some small
unfolding init bare blocks_loop ends_block skip_cache skip_value extend_bitmask extend_instructions
    skip_loop Program.skip InstMap.is_terminating dispatch lookup all_tables Tables.WoArgs.table
    Tables.IImm.table Tables.IRegIEwimm.table Tables.IiImm.table Tables.IOffset.table
    Tables.IRegIImm.table Tables.IRegIiImm.table Tables.IRegIImmIOffset.table Tables.IiReg.table
    Tables.IiRegIImm.table Tables.IiRegIOffset.table Tables.IiRegIiImm.table Tables.IiiReg.table
small_made = refl

init-IsStart_example :
    (mem 3 small.basic_blocks ≡ true) ↔ (◌≡◌ {A = ℕ} 3 0 ⊎ IsStart small 0 (100 ∷ 33 ∷ 0 ∷ []) 3)
init-IsStart_example =
    init-IsStart 1 (3 ∷ []) (100 ∷ 33 ∷ 0 ∷ []) (true ∷ false ∷ true ∷ []) small 3 small_made
