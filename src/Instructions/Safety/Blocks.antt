-- ===== src/Instructions/Safety/Blocks.antt =====
-- inst_map.py: blocks of instructions.
use tsrkit_pvm.Prelude.{ℕ, ◌≤◌, length, Ensures, Ensures-done, Outcome, ◌≡◌, some}
use tsrkit_pvm.Interpreter.Program.{Program}
use tsrkit_pvm.Instructions.Machine.{Table, Machine, Exec}
use tsrkit_pvm.Instructions.InstMap
use tsrkit_pvm.Instructions.InstMap.{BlockInfo, InstructionHandler, compile_block, dispatch}
use tsrkit_pvm.Instructions.InstMap.Compile.{Costs, Keeps, compile_block-IsBlock, execute-Costs}
use tsrkit_pvm.Instructions.Safety.Rules.{IsMachine, Raises}
use tsrkit_pvm.Instructions.Safety.Entries.{dispatch-IsSafe}

-- A method that the dispatch table has for an opcode, applied to the operands of any instruction,
-- keeps thirteen registers and the coherence of the memory, also when it raises; what it raises is
-- a panic, a page fault or an OverflowError.
pub bound-Keeps :
    (opcode : ℕ) (h : InstructionHandler) (t : Table) (fn : Exec) (m : Machine)
    → dispatch opcode ≡ some h
    → h.bind t ≡ some fn
    → IsMachine m
    → Ensures (λ _ m'. IsMachine m') (Raises IsMachine) (fn m)
bound-Keeps opcode h t fn m found bound i = dispatch-IsSafe opcode h t fn found bound m i

-- A block that `_compile_block` gives has as much gas as instructions, and at least one.
pub compile_block-gas :
    (p : Program) (pc : ℕ) (info : BlockInfo)
    → compile_block p pc tt ≡ Outcome.done info tt
    → (info.total_gas ≡ length info.instructions) × (1 ≤ info.total_gas)
compile_block-gas p pc info e =
    let block =
      Ensures-done
        (compile_block-IsBlock (Keeps IsMachine (Raises IsMachine)) dispatch-IsSafe p pc tt) e in
    (block.0, block.1)

-- A block that `_compile_block` gives, executed on thirteen registers and a coherent memory, keeps
-- both, also when it raises a panic, a page fault or an OverflowError, and it raises nothing else;
-- if it returns, it costs at least one unit of gas and at most the block's total.
pub block-Costs :
    (p : Program) (pc : ℕ) (info : BlockInfo) (m : Machine)
    → compile_block p pc tt ≡ Outcome.done info tt
    → IsMachine m
    → Ensures (Costs IsMachine info.total_gas) (Raises IsMachine) (InstMap.execute info pc m)
block-Costs p pc info m e i =
    execute-Costs IsMachine (Raises IsMachine) info pc m
      (Ensures-done
        (compile_block-IsBlock (Keeps IsMachine (Raises IsMachine)) dispatch-IsSafe p pc tt) e)
      i
