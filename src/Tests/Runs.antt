-- ===== src/Tests/Runs.antt =====
-- Runs of the model on concrete inputs.
use tsrkit_pvm.Prelude.{ℕ, List, [], ◌∷◌, some, none, Option, replicate, false, get_or, ℤ}
use mathlib.Core.Option
use tsrkit_pvm.Common.Status.{ExecutionStatus}
use tsrkit_pvm.Core.ProgramBase
use tsrkit_pvm.Core.ProgramBase.{Blob}
use tsrkit_pvm.Interpreter.Program.{Program}
use tsrkit_pvm.Interpreter.Program.Init
use tsrkit_pvm.Interpreter.Memory.Init.{blank}
use tsrkit_pvm.Instructions.Machine.{Machine}
use tsrkit_pvm.Interpreter.Pvm
use tsrkit_pvm.Interpreter.Pvm.{Run}

-- The bytecode of README.md. Its lengths are below 128, which `Uint` writes as one byte.
abbrev readme : List ℕ
readme =
    0 ∷ 0 ∷ 14 ∷ 40 ∷ 2 ∷ 200 ∷ 50 ∷ 1 ∷ 40 ∷ 2 ∷ 200 ∷ 67 ∷ 2 ∷ 51 ∷ 1 ∷ 40 ∷ 246 ∷ 165 ∷ 20 ∷ []

abbrev short_uint : List ℕ → ℕ → ℕ × ℕ
short_uint buffer offset = (get_or buffer offset 0, 1)

abbrev of_blob : Blob → Option Program
of_blob blob = Init.init blob.z blob.jump_table blob.instruction_set blob.offset_bitmask

abbrev start : Machine
start = record { registers = replicate 13 1; memory = blank (λ _. false) (λ _. false) 0 }

abbrev status_of : Run → Option (ExecutionStatus × ℕ × ℤ × List ℕ)
status_of (Run.returned r) =
    some (r.status, r.program_counter, r.remaining_gas, r.machine.registers)
status_of _ = none

abbrev run : List ℕ → ℤ → Option (ExecutionStatus × ℕ × ℤ × List ℕ)
run bytecode gas =
    Option.bind (of_blob (ProgramBase.decode_from short_uint bytecode 0))
      (λ p. status_of (Pvm.execute p 0 gas start))
