-- ===== src/Cpvm/Mapper/Charge.antt =====
-- cy_block.pyx: what `CyBlockInfo.execute` charges for a block.
use tsrkit_pvm.Prelude.{
  ℕ, ◌+◌, ◌≤◌, ◌<◌, List, [], ◌∷◌, length, Outcome, pvm_exit, ◌≡◌, ◌≢◌, refl, arith, if-elim,
}
use tsrkit_pvm.Cpvm.Program.{CyProgram}
use tsrkit_pvm.Cpvm.Machine.{CyMachine}
use tsrkit_pvm.Cpvm.Mapper.{
  CyBlockInfo, CyCompiledInstruction, BlockEnd, after_instruction, run_instructions, execute,
}
use tsrkit_pvm.Cpvm.Mapper.Blocks.{IsBlock}

-- A block that ends costs its total; one that a `PvmExit` leaves costs the instructions that ran, the
-- last one included; another exception is not a `PvmExit`.
abbrev pub IsCharged : ℕ → BlockEnd → Type 0
IsCharged total_gas (BlockEnd.finished next_pc gas_cost) = gas_cost ≡ total_gas
IsCharged total_gas (BlockEnd.exited code register next_pc gas_cost) =
    (1 ≤ gas_cost) × (gas_cost ≤ total_gas)
IsCharged total_gas (BlockEnd.threw e) = (code register : ℕ) → e ≢ pvm_exit code register

module _ (total_gas : ℕ) where
  after_instruction-IsCharged :
      (i : ℕ) (inst : CyCompiledInstruction) (again : ℕ → CyMachine → BlockEnd × CyMachine)
      (o : Outcome CyMachine ℕ)
      → i < total_gas
      → ((pc : ℕ) (s : CyMachine) → IsCharged total_gas (again pc s).0)
      → IsCharged total_gas (after_instruction total_gas i inst again o).0
  after_instruction-IsCharged i inst again (Outcome.raised (pvm_exit code register) s) lt next =
      (omega arith, omega arith)
  after_instruction-IsCharged i inst again (Outcome.raised e s) lt next = λ code register eq. cc
  after_instruction-IsCharged i inst again (Outcome.done pc s) lt next =
      if-elim (λ (r : BlockEnd × CyMachine). IsCharged total_gas r.0) inst.handler.is_terminating
        (λ _. refl) (λ _. next _ s)

  run_instructions-IsCharged :
      (i : ℕ) (p : CyProgram) (insts : List CyCompiledInstruction) (pc : ℕ) (s : CyMachine)
      → i + length insts ≡ total_gas
      → IsCharged total_gas (run_instructions total_gas i p insts pc s).0
  unfolding run_instructions
  run_instructions-IsCharged i p [] pc s e = refl
  run_instructions-IsCharged i p (inst ∷ rest) pc s e =
      after_instruction-IsCharged i inst (run_instructions total_gas (i + 1) p rest)
        (inst.handler.fn p pc inst.props s) (omega arith)
        (λ pc' s'. run_instructions-IsCharged (i + 1) p rest pc' s' (omega arith))

pub execute-IsCharged :
    (info : CyBlockInfo) (p : CyProgram) (pc : ℕ) (s : CyMachine)
    → IsBlock info
    → IsCharged info.total_gas (execute info p pc s).0
unfolding execute
execute-IsCharged info p pc s c =
    run_instructions-IsCharged info.total_gas 0 p info.instructions pc s (omega arith)
