-- ===== src/Cpvm/Pvm.antt =====
-- tsrkit_pvm/cpvm/cy_pvm.pyx: `CyInterpreter.execute`.
pub mod Ends
use tsrkit_pvm.Prelude.{
  ℕ, zero, suc, ◌^◌, Bool, true, false, List, ltb, if◌then◌else◌, ℤ, pos, ◌-ℤ◌, pos_part, is_neg,
  Outcome, Exn, ◌==◌, [], ◌∷◌, ◌&&◌, none, overflow_error, pvm_exit,
}
use tsrkit_pvm.Common.Status.{ExecutionStatus}
use tsrkit_pvm.Cpvm.Status.{
  CyStatus, pvm_halt, pvm_panic, pvm_out_of_gas, pvm_continue, pvm_host, pvm_page_fault,
}
use tsrkit_pvm.Cpvm.Program.{CyProgram}
use tsrkit_pvm.Cpvm.Machine.{CyMachine}
use tsrkit_pvm.Cpvm.Mapper
use tsrkit_pvm.Cpvm.Mapper.{BlockEnd, CyBlockInfo, Cache}

pub record Result : Type 0 where
  pub status : ExecutionStatus
  pub program_counter : ℕ
  pub remaining_gas : ℤ
  pub machine : CyMachine

-- `threw` is an exception that the loop lets through; `out_of_fuel` says that the rounds of the model
-- were used up.
pub data Run : Type 0 where
  returned : Result → Run
  threw : Exn → CyMachine → Run
  out_of_fuel : Run

-- The conversion of a `CyStatus`; a code that is none of the six is HALT.
unfoldable pub to_status : CyStatus → ExecutionStatus
to_status status =
    let code = status.code in
    if code == pvm_halt
    then ExecutionStatus.halt
    else if code == pvm_panic
    then ExecutionStatus.panic
    else if code == pvm_out_of_gas
    then ExecutionStatus.out_of_gas
    else if code == pvm_continue
    then ExecutionStatus.continue
    else if code == pvm_host
    then ExecutionStatus.host status.register
    else if code == pvm_page_fault
    then ExecutionStatus.page_fault status.register
    else ExecutionStatus.halt

abbrev pub result : CyStatus → ℕ → ℤ → CyMachine → Run
result status pc gas m =
    Run.returned
      (record { status = to_status status; program_counter = pc; remaining_gas = gas; machine = m })

abbrev pub status_of : ℕ → ℕ → CyStatus
status_of code register = record { code = code; register = register }

-- The `except` clause: the gas of the instructions that ran is taken away, and not looked at.
unfoldable pub on_exit : ℕ → ℕ → ℕ → ℕ → ℤ → CyMachine → Run
unfolding to_status
on_exit code register next_pc gas_cost gas m =
    if ltb code 5
    then result (status_of code register) next_pc (gas -ℤ pos gas_cost) m
    else Run.threw (pvm_exit code register) m

-- The body of the loop after the block; `again` is the next round.
unfoldable pub after_block : (ℕ → ℤ → CyMachine → Run) → ℤ → BlockEnd × CyMachine → Run
unfolding on_exit to_status
after_block again gas (BlockEnd.finished next_pc gas_cost, m) =
    let remaining = gas -ℤ pos gas_cost in
    let more = again next_pc remaining m in
    if is_neg remaining then result (status_of pvm_out_of_gas 0) next_pc remaining m else more
after_block again gas (BlockEnd.exited code register next_pc gas_cost, m) =
    on_exit code register next_pc gas_cost gas m
after_block again gas (BlockEnd.threw e, m) = Run.threw e m

-- A round of `process_instruction`, once the block is known or the crash of compiling it.
unfoldable pub round :
    (Cache → ℕ → ℤ → CyMachine → Run)
    → CyProgram
    → ℕ
    → ℤ
    → CyMachine
    → Outcome Cache CyBlockInfo
    → Run
unfolding after_block Mapper.execute
round again p pc gas m (Outcome.raised e _) = Run.threw e m
round again p pc gas m (Outcome.done info cache) =
    after_block (again cache) gas (Mapper.execute info p pc m)

-- `while not should_break`, one block to a round.
unfoldable pub run_loop : ℕ → CyProgram → Cache → ℕ → ℤ → CyMachine → Run
unfolding round Mapper.get_block
run_loop zero p cache pc gas m = Run.out_of_fuel
run_loop (suc fuel) p cache pc gas m =
    round (run_loop fuel p) p pc gas m (Mapper.get_block p pc cache)

-- `registers[i]` for i below 13, as `uint64_t`.
unfoldable pub load_registers : List ℕ → Bool
load_registers registers = all_below (2 ^ 64) registers
  where
    all_below : ℕ → List ℕ → Bool
    all_below bound [] = true
    all_below bound (x ∷ xs) = ltb x bound && all_below bound xs

-- Each block costs at least one unit of gas, so that `gas + 1` rounds are enough. A register that is
-- not one of 64 bits raises an OverflowError before the run.
unfoldable pub execute : CyProgram → ℕ → ℤ → CyMachine → Run
unfolding run_loop load_registers
execute p program_counter gas m =
    let run = run_loop (suc (pos_part gas)) p (λ _. none) program_counter gas m in
    if load_registers m.registers then run else Run.threw overflow_error m
