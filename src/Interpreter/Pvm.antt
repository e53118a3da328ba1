-- ===== src/Interpreter/Pvm.antt =====
-- tsrkit_pvm/interpreter/pvm.py: `Interpreter.execute`.
pub mod Loop
pub mod Safe
use tsrkit_pvm.Prelude.{
  ℕ, zero, suc, Bool, true, false, ◌||◌, List, if◌then◌else◌, ℤ, pos, ◌-ℤ◌, pos_part, is_neg, M,
  Outcome, Exn,
}
use tsrkit_pvm.Common.Status.{ExecutionStatus}
use tsrkit_pvm.Interpreter.Program.{Program}
use tsrkit_pvm.Instructions.Machine.{Machine}
use tsrkit_pvm.Instructions.InstMap
use tsrkit_pvm.Instructions.InstMap.{BlockInfo, BlockReturn, Cache}

-- The tuple that `execute` returns.
pub record Result : Type 0 where
  pub status : ExecutionStatus
  pub program_counter : ℕ
  pub remaining_gas : ℤ
  pub machine : Machine

-- `threw` is an exception that `execute` does not catch, with what it had done to the machine;
-- `out_of_fuel` says that the rounds of the model were used up.
pub data Run : Type 0 where
  returned : Result → Run
  threw : Exn → Machine → Run
  out_of_fuel : Run

abbrev pub result : ExecutionStatus → ℕ → ℤ → Machine → Run
result status pc gas m =
    Run.returned
      (record { status = status; program_counter = pc; remaining_gas = gas; machine = m })

-- The `except` clauses: the program counter and the gas are those from before the block.
unfoldable pub on_exception : Exn → ℕ → ℤ → Machine → Run
on_exception Exn.panic pc gas m = result ExecutionStatus.panic pc gas m
on_exception (Exn.page_fault addr) pc gas m = result (ExecutionStatus.page_fault addr) pc gas m
on_exception e pc gas m = Run.threw e m

abbrev pub ends_run : ExecutionStatus → Bool
ends_run ExecutionStatus.halt = true
ends_run (ExecutionStatus.host _) = true
ends_run _ = false

-- The tests on the gas that remains and on the status; `again` is the next round.
unfoldable pub settle : (ℕ → ℤ → Machine → Run) → ExecutionStatus → ℕ → ℤ → Machine → Run
settle again status next_pc remaining m =
    let more = again next_pc remaining m in
    if is_neg remaining
    then result ExecutionStatus.out_of_gas next_pc remaining m
    else if ends_run status
    then result status next_pc remaining m
    else more

-- The body of the loop after `process_instruction`.
unfoldable pub after_block : (ℕ → ℤ → Machine → Run) → ℕ → ℤ → Outcome Machine BlockReturn → Run
unfolding on_exception settle
after_block again pc gas (Outcome.raised e m) = on_exception e pc gas m
after_block again pc gas (Outcome.done (status, next_pc, gas_cost) m) =
    settle again status next_pc (gas -ℤ pos gas_cost) m

-- A round, once the block is known or the exception that compiling it raised; `again` is the next
-- round.
unfoldable pub round :
    (Cache → ℕ → ℤ → Machine → Run) → ℕ → ℤ → Machine → Outcome Cache BlockInfo → Run
unfolding after_block on_exception InstMap.execute
round again pc gas m (Outcome.raised e _) = on_exception e pc gas m
round again pc gas m (Outcome.done info cache) =
    after_block (again cache) pc gas (InstMap.execute info pc m)

-- `while True`, one block to a round.
unfoldable pub run_loop : ℕ → Program → Cache → ℕ → ℤ → Machine → Run
unfolding round InstMap.get_block
run_loop zero p cache pc gas m = Run.out_of_fuel
run_loop (suc fuel) p cache pc gas m =
    round (run_loop fuel p) pc gas m (InstMap.get_block p pc cache)

-- Each block costs at least one unit of gas, so that `gas + 1` rounds are enough.
unfoldable pub execute : Program → ℕ → ℤ → Machine → Run
unfolding run_loop
execute p program_counter gas m =
    run_loop (suc (pos_part gas)) p InstMap.empty_cache program_counter gas m
