-- ===== src/Cpvm/Pvm/Ends.antt =====
-- cy_pvm.pyx: the loop of `_execute_internal` comes to an end.
use tsrkit_pvm.Prelude.{
  ℕ, zero, suc, ◌≤◌, ◌<◌, false, ltb, ℤ, pos, pos_part, ◌-ℤ◌, is_neg, none, Outcome, Exn, pvm_exit,
  Ensures, if-elim, ltb→lt, ltb→le, ◌≡◌, ◌≢◌, arith,
}
use tsrkit_pvm.Common.Status.{ExecutionStatus}
use tsrkit_pvm.Cpvm.Program.{CyProgram}
use tsrkit_pvm.Cpvm.Machine.{CyMachine}
use tsrkit_pvm.Cpvm.Mapper
use tsrkit_pvm.Cpvm.Mapper.{BlockEnd, CyBlockInfo, Cache}
use tsrkit_pvm.Cpvm.Mapper.Blocks.{HoldsBlocks, Gets, get_block-Gets}
use tsrkit_pvm.Cpvm.Mapper.Charge.{IsCharged, execute-IsCharged}
use tsrkit_pvm.Interpreter.Pvm.Loop.{falls}
use tsrkit_pvm.Cpvm.Pvm.{
  Run, load_registers, to_status, status_of, on_exit, after_block, round, run_loop, execute,
}

abbrev pub IsPlain : Exn → Type 0
IsPlain e = (code register : ℕ) → code < 5 → e ≢ pvm_exit code register

-- A run that comes to an end: it returns a status that is not CONTINUE, or lets through an exception
-- that is no `PvmExit` of a status.
abbrev pub Ends : Run → Type 0
Ends (Run.returned r) = r.status ≢ ExecutionStatus.continue
Ends (Run.threw e m) = IsPlain e
Ends Run.out_of_fuel = ⊥

to_status-ends :
    (code register : ℕ) → code < 5 → to_status (status_of code register) ≢ ExecutionStatus.continue
unfolding to_status
to_status-ends code register lt e = ground arith

on_exit-Ends :
    (code register pc cost : ℕ) (gas : ℤ) (m : CyMachine)
    → Ends (on_exit code register pc cost gas m)
unfolding on_exit
on_exit-Ends code register pc cost gas m =
    if-elim Ends (ltb code 5) (λ e. to_status-ends code register (ltb→lt code 5 e))
      (λ e c r lt q. ground (arith, ltb→le code 5 e))

after_block-Ends :
    (again : ℕ → ℤ → CyMachine → Run) (gas : ℤ) (total : ℕ) (r : BlockEnd × CyMachine)
    → is_neg gas ≡ false
    → 1 ≤ total
    → IsCharged total r.0
    → ((pc : ℕ) (gas' : ℤ) (m : CyMachine)
        → is_neg gas' ≡ false
        → pos_part gas' < pos_part gas
        → Ends (again pc gas' m))
    → Ends (after_block again gas r)
unfolding after_block
after_block-Ends again gas total (BlockEnd.finished pc cost, m) g one c next =
    if-elim Ends (is_neg (gas -ℤ pos cost)) (λ _. to_status-ends 4 0 (omega arith))
      (λ e. next pc (gas -ℤ pos cost) m e (falls gas cost g (omega arith) e))
after_block-Ends again gas total (BlockEnd.exited code register pc cost, m) g one c next =
    on_exit-Ends code register pc cost gas m
after_block-Ends again gas total (BlockEnd.threw e, m) g one c next = λ code r lt. c code r

round-Ends :
    (fuel : ℕ) (p : CyProgram) (pc : ℕ) (gas : ℤ) (m : CyMachine) (o : Outcome Cache CyBlockInfo)
    → is_neg gas ≡ false
    → Gets o
    → ((cache : Cache) (pc' : ℕ) (gas' : ℤ) (m' : CyMachine)
        → HoldsBlocks cache
        → is_neg gas' ≡ false
        → pos_part gas' < pos_part gas
        → Ends (run_loop fuel p cache pc' gas' m'))
    → Ends (round (run_loop fuel p) p pc gas m o)
unfolding round
round-Ends fuel p pc gas m (Outcome.raised e cache) g (Ensures.raises c) next = λ code r lt q. cc
round-Ends fuel p pc gas m (Outcome.done info cache) g (Ensures.returns c) next =
    after_block-Ends (run_loop fuel p cache) gas info.total_gas (Mapper.execute info p pc m) g c.0.1
      (execute-IsCharged info p pc m c.0)
      (λ pc' gas' m' g' less. next cache pc' gas' m' c.1 g' less)

run_loop-Ends :
    (fuel : ℕ) (p : CyProgram) (cache : Cache) (pc : ℕ) (gas : ℤ) (m : CyMachine)
    → pos_part gas < fuel
    → is_neg gas ≡ false
    → HoldsBlocks cache
    → Ends (run_loop fuel p cache pc gas m)
unfolding run_loop
run_loop-Ends zero p cache pc gas m lt g holds = absurd (omega arith)
run_loop-Ends (suc fuel) p cache pc gas m lt g holds =
    round-Ends fuel p pc gas m (Mapper.get_block p pc cache) g (get_block-Gets p pc cache holds)
      (λ cache' pc' gas' m' holds' g' less.
        run_loop-Ends fuel p cache' pc' gas' m' (omega arith) g' holds')

-- Started with a gas that is not negative, `CyInterpreter.execute` comes to an end: it returns a
-- status other than CONTINUE, or lets an exception through that is not a `PvmExit` with the code
-- of a status. The rounds of the model are enough.
pub execute-Ends :
    (p : CyProgram) (program_counter : ℕ) (gas : ℤ) (m : CyMachine)
    → is_neg gas ≡ false
    → Ends (execute p program_counter gas m)
unfolding execute
execute-Ends p program_counter gas m g =
    if-elim Ends (load_registers m.registers)
      (λ _.
        run_loop-Ends (suc (pos_part gas)) p (λ _. none) program_counter gas m (omega arith) g
          (λ pc info e. cc))
      (λ _ code r lt q. cc)
