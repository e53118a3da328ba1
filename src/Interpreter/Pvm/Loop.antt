-- ===== src/Interpreter/Pvm/Loop.antt =====
-- pvm.py: the loop of `Interpreter.execute`, for an invariant of the instructions.
use tsrkit_pvm.Prelude.{
  ℕ, zero, suc, ◌≤◌, ◌<◌, true, false, ℤ, pos, negsuc, pos_part, ◌-ℤ◌, is_neg, Outcome, Exn,
  overflow_error, Ensures, Ensures-done, ◌≡◌, ◌⊎◌, inl, inr, refl, arith,
}
use tsrkit_pvm.Common.Status.{ExecutionStatus}
use tsrkit_pvm.Interpreter.Program.{Program}
use tsrkit_pvm.Instructions.Machine.{Machine}
use tsrkit_pvm.Instructions.InstMap
use tsrkit_pvm.Instructions.InstMap.{BlockInfo, BlockReturn, Cache, compile_block}
use tsrkit_pvm.Instructions.InstMap.Compile.{
  EveryInstruction, Keeps, Costs, compile_block-IsBlock, execute-Costs,
}
use tsrkit_pvm.Instructions.InstMap.BlockCache.{IsFresh, Agrees, get_block-Agrees}
use tsrkit_pvm.Instructions.Safety.Rules.{IsRaised, Raises}
use tsrkit_pvm.Interpreter.Pvm.{Run, on_exception, after_block, settle, round, run_loop, execute}

-- OUT_OF_GAS is the status exactly of those runs that end with less than no gas.
abbrev pub GasAgrees : ExecutionStatus → ℤ → Type 0
GasAgrees ExecutionStatus.out_of_gas gas = is_neg gas ≡ true
GasAgrees _ gas = is_neg gas ≡ false

-- The exceptions that `execute` lets through: an OverflowError, or that of a block that does not
-- compile.
abbrev pub IsThrown : Program → Exn → Type 0
IsThrown p e = (e ≡ overflow_error) ⊎ ((pc : ℕ) × (compile_block p pc tt ≡ Outcome.raised e tt))

abbrev pub Final : (Machine → Type 0) → Program → Run → Type 0
Final I p (Run.returned r) = I r.machine × GasAgrees r.status r.remaining_gas
Final I p (Run.threw e m) = I m × IsThrown p e
Final I p Run.out_of_fuel = ⊥

-- A block's cost takes the gas down.
pub falls :
    (gas : ℤ) (cost : ℕ)
    → is_neg gas ≡ false
    → 1 ≤ cost
    → is_neg (gas -ℤ pos cost) ≡ false
    → pos_part (gas -ℤ pos cost) < pos_part gas
falls (pos n) cost g c g' = ground arith
falls (negsuc n) cost g c g' = cc

module _ (I : Machine → Type 0) (every : EveryInstruction (Keeps I (Raises I))) (p : Program) where
  on_exception-Final :
      (e : Exn) (pc : ℕ) (gas : ℤ) (m : Machine)
      → is_neg gas ≡ false
      → I m
      → IsRaised e ⊎ IsThrown p e
      → Final I p (on_exception e pc gas m)
  unfolding on_exception
  on_exception-Final Exn.panic pc gas m g h t = (h, g)
  on_exception-Final (Exn.page_fault addr) pc gas m g h t = (h, g)
  on_exception-Final Exn.overflow_error pc gas m g h t = (h, inl refl)
  on_exception-Final e pc gas m g h (inl r) = absurd r
  on_exception-Final e pc gas m g h (inr t) = (h, t)

  settle-Final :
      (again : ℕ → ℤ → Machine → Run) (status : ExecutionStatus) (pc : ℕ) (gas : ℤ) (m : Machine)
      → I m
      → (is_neg gas ≡ false → Final I p (again pc gas m))
      → Final I p (settle again status pc gas m)
  unfolding settle
  settle-Final again status pc (negsuc k) m h next = (h, refl)
  settle-Final again ExecutionStatus.halt pc (pos k) m h next = (h, refl)
  settle-Final again (ExecutionStatus.host v) pc (pos k) m h next = (h, refl)
  settle-Final again status pc (pos k) m h next = next refl

  after_block-Final :
      (again : ℕ → ℤ → Machine → Run) (pc : ℕ) (gas : ℤ) (total : ℕ)
      {o : Outcome Machine BlockReturn}
      → is_neg gas ≡ false
      → Ensures (Costs I total) (Raises I) o
      → ((pc' : ℕ) (gas' : ℤ) (m : Machine)
          → is_neg gas' ≡ false
          → pos_part gas' < pos_part gas
          → I m
          → Final I p (again pc' gas' m))
      → Final I p (after_block again pc gas o)
  unfolding after_block
  after_block-Final again pc gas total g (Ensures.raises q) next =
      on_exception-Final _ pc gas _ g q.0 (inl q.1)
  after_block-Final again pc gas total g (Ensures.returns {a = (status, pc', cost)} {s = m} c)
        next =
      settle-Final again status pc' (gas -ℤ pos cost) m c.0
        (λ g'. next pc' (gas -ℤ pos cost) m g' (falls gas cost g c.1 g') c.0)

  -- One round, from what holds of the rounds after it.
  round-Final :
      (fuel : ℕ) (pc : ℕ) (gas : ℤ) (m : Machine) (o : Outcome Cache BlockInfo)
      → is_neg gas ≡ false
      → I m
      → Agrees p pc o
      → ((cache' : Cache) (pc' : ℕ) (gas' : ℤ) (m' : Machine)
          → pos_part gas' < pos_part gas
          → is_neg gas' ≡ false
          → IsFresh p cache'
          → I m'
          → Final I p (run_loop fuel p cache' pc' gas' m'))
      → Final I p (round (run_loop fuel p) pc gas m o)
  unfolding round
  round-Final fuel pc gas m (Outcome.raised e cache') g h a next =
      on_exception-Final e pc gas m g h (inr (inr (pc, a.0)))
  round-Final fuel pc gas m (Outcome.done info cache') g h a next =
      after_block-Final (run_loop fuel p cache') pc gas info.total_gas g
        (execute-Costs I (Raises I) info pc m
          (Ensures-done (compile_block-IsBlock _ every p pc tt) a.0) h)
        (λ pc' gas' m' g' less h'. next cache' pc' gas' m' less g' a.1 h')

  run_loop-Final :
      (fuel : ℕ) (cache : Cache) (pc : ℕ) (gas : ℤ) (m : Machine)
      → pos_part gas < fuel
      → is_neg gas ≡ false
      → IsFresh p cache
      → I m
      → Final I p (run_loop fuel p cache pc gas m)
  unfolding run_loop
  run_loop-Final zero cache pc gas m lt g fresh h = absurd (omega arith)
  run_loop-Final (suc fuel) cache pc gas m lt g fresh h =
      round-Final fuel pc gas m (InstMap.get_block p pc cache) g h
        (get_block-Agrees p pc cache fresh)
        (λ cache' pc' gas' m' less. run_loop-Final fuel cache' pc' gas' m' (omega arith))

  -- A run from enough gas ends, and its machine still has `I`.
  pub execute-Final :
      (pc : ℕ) (gas : ℤ) (m : Machine) → is_neg gas ≡ false → I m → Final I p (execute p pc gas m)
  unfolding execute
  execute-Final pc gas m g h =
      run_loop-Final (suc (pos_part gas)) InstMap.empty_cache pc gas m (omega arith) g
        (λ pc info e. cc) h
