-- ===== src/Interpreter/Pvm/Safe.antt =====
-- pvm.py: runs of `Interpreter.execute` with the instructions of the dispatch table.
use tsrkit_pvm.Prelude.{ℕ, false, ℤ, is_neg, ◌≡◌}
use tsrkit_pvm.Interpreter.Program.{Program}
use tsrkit_pvm.Instructions.Machine.{Machine}
use tsrkit_pvm.Instructions.Safety.Rules.{IsMachine}
use tsrkit_pvm.Instructions.Safety.Entries.{dispatch-IsSafe}
use tsrkit_pvm.Interpreter.Pvm.{execute}
use tsrkit_pvm.Interpreter.Pvm.Loop.{Final, execute-Final}

-- Started with a gas that is not negative, on thirteen registers and a coherent memory, `execute`
-- ends within its rounds. If it returns, the status is OUT_OF_GAS exactly when the remaining gas
-- is negative; if it lets an exception through, that is an OverflowError or one that compiling
-- some block raises. Either way thirteen registers and a coherent memory are left.
pub execute-IsFinal :
    (p : Program) (pc : ℕ) (gas : ℤ) (m : Machine)
    → is_neg gas ≡ false
    → IsMachine m
    → Final IsMachine p (execute p pc gas m)
execute-IsFinal = execute-Final IsMachine dispatch-IsSafe
