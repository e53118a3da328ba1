-- ===== src/Instructions/InstMap/Compile.antt =====
-- inst_map.py: `_compile_block` and `BlockInfo.execute`: the gas of a block, and what its instructions keep.
use tsrkit_pvm.Prelude.{
  ℕ, zero, suc, ◌+◌, ◌≤◌, ◌<◌, Bool, true, false, List, [], ◌∷◌, some, get_elem?, length, M,
  Outcome, pure, ◌>>=◌, Exn, Ensures, All, Ensures-bind, Ensures-or_raise, ◌≡◌, refl, arith, ◌⊎◌,
  inl, inr, index_error, value_error, get_elem?-inside,
}
use tsrkit_pvm.Common.Status.{ExecutionStatus}
use tsrkit_pvm.Interpreter.Program
use tsrkit_pvm.Interpreter.Program.{Program}
use tsrkit_pvm.Instructions.Machine.{Machine, Exec, Table}
use tsrkit_pvm.Instructions.InstMap.{
  InstructionHandler, BlockInfo, CompiledInstruction, BlockReturn, dispatch, compile_loop,
  compile_block, cons_block, empty_block, table_at, run_instructions, execute, after_instruction,
}
use tsrkit_pvm.Instructions.InstMap.Entries.{dispatch-gas}

abbrev U : Type 0
U = Unit {0}

-- A block has as many units of gas as instructions, and its instructions have the property.
abbrev pub IsBlock : (Exec → Type 0) → BlockInfo → Type 0
IsBlock Good info =
    (info.total_gas ≡ length info.instructions)
    × (1 ≤ info.total_gas)
    × All (λ inst. Good inst.fn) info.instructions

-- What the instructions of the dispatch table have in common.
abbrev pub EveryInstruction : (Exec → Type 0) → Type 0
EveryInstruction Good =
    (opcode : ℕ) (h : InstructionHandler) (t : Table) (fn : Exec)
    → dispatch opcode ≡ some h
    → h.bind t ≡ some fn
    → Good fn

-- What compiling raises: the IndexError of a position past the end of `zeta` or of a register's
-- operand, or the ValueError of an opcode that has no handler.
abbrev pub IsCompileError : {S : Type 0} → Exn → S → Type 0
IsCompileError e s = (e ≡ index_error) ⊎ (e ≡ value_error)

module _ (Good : Exec → Type 0) (every : EveryInstruction Good) where
  abbrev Compiles : Outcome U BlockInfo → Type 0
  Compiles = Ensures (λ info _. IsBlock Good info) IsCompileError

  cons_block-IsBlock :
      (h : InstructionHandler) (fn : Exec) (rest : BlockInfo)
      → h.gas ≡ 1
      → Good fn
      → rest.total_gas ≡ length rest.instructions
      → All (λ inst. Good inst.fn) rest.instructions
      → IsBlock Good (cons_block h fn rest)
  cons_block-IsBlock h fn rest e g c all = (omega arith, omega arith, (g, all))

  pub compile_loop-IsBlock :
      (left : ℕ) (p : Program) (pc : ℕ) (s : U)
      → 1 ≤ left
      → length p.zeta < pc + left
      → Compiles (compile_loop left p pc s)
  unfolding compile_loop
  compile_loop-IsBlock zero p pc s one enough = absurd (omega arith)
  compile_loop-IsBlock (suc left) p pc s one_left enough =
      Ensures-or_raise _ (get_elem? p.zeta pc) _ s (inl refl) λ opcode at_pc.
        Ensures-or_raise _ (dispatch opcode) _ s (inr refl) λ h found.
          Ensures-or_raise _ (h.bind (table_at p pc)) _ s (inl refl) λ fn bound.
            let inside = get_elem?-inside p.zeta pc opcode at_pc in
            let one = dispatch-gas opcode h found in
            let good = every opcode h (table_at p pc) fn found bound in
            elim (h.is_terminating)
              as (λ t. Compiles (
                (elim t as (λ _. M U BlockInfo) [
                  | true ↦ pure (cons_block h fn empty_block)
                  | false ↦ compile_loop left p (pc + (1 + Program.skip p pc)) >>= λ rest.
                      pure (cons_block h fn rest)
                ])
                  s)) [
                    | true ↦ Ensures.returns (cons_block-IsBlock h fn empty_block one good refl tt)
                    | false ↦
                        Ensures-bind
                          (compile_loop-IsBlock left p (pc + (1 + Program.skip p pc)) s
                            (omega arith) (omega arith))
                          (λ rest _ c.
                            Ensures.returns (cons_block-IsBlock h fn rest one good c.0 c.2))
                  ]

  pub compile_block-IsBlock :
      (p : Program) (pc : ℕ) (s : U)
      → Ensures (λ info _. IsBlock Good info) IsCompileError (compile_block p pc s)
  unfolding compile_block
  compile_block-IsBlock p pc s =
      compile_loop-IsBlock (suc (length p.zeta)) p pc s (omega arith) (omega arith)

-- An instruction keeps `I`, and raises only with `Q`.
abbrev pub Keeps : (Machine → Type 0) → (Exn → Machine → Type 0) → Exec → Type 0
Keeps I Q fn = (m : Machine) → I m → Ensures (λ _ m'. I m') Q (fn m)

-- Of a block that is run: it keeps `I`, and costs at least one unit and at most its total.
abbrev pub Costs : (Machine → Type 0) → ℕ → BlockReturn → Machine → Type 0
Costs I total_gas r m = I m × (1 ≤ r.2) × (r.2 ≤ total_gas)

module _ (I : Machine → Type 0) (Q : Exn → Machine → Type 0) (total_gas : ℕ)
    (pos : 1 ≤ total_gas) where
  after_instruction-Costs :
      (i : ℕ) (again : ExecutionStatus × ℕ → M Machine BlockReturn) (ends : Bool)
      (r : ExecutionStatus × ℕ) (m : Machine)
      → i < total_gas
      → I m
      → ((r : ExecutionStatus × ℕ) → Ensures (Costs I total_gas) Q (again r m))
      → Ensures (Costs I total_gas) Q (after_instruction total_gas i again ends r m)
  after_instruction-Costs i again true (status, pc) m lt h next =
      Ensures.returns (h, omega arith, omega arith)
  after_instruction-Costs i again false (ExecutionStatus.continue, pc) m lt h next = next _
  after_instruction-Costs i again false (status, pc) m lt h next =
      Ensures.returns (h, omega arith, omega arith)

  pub run_instructions-Costs :
      (i : ℕ) (insts : List CompiledInstruction) (r : ExecutionStatus × ℕ) (m : Machine)
      → i + length insts ≡ total_gas
      → All (λ inst. Keeps I Q inst.fn) insts
      → I m
      → Ensures (Costs I total_gas) Q (run_instructions total_gas i insts r m)
  unfolding run_instructions
  run_instructions-Costs i [] (status, pc) m e all h = Ensures.returns (h, omega arith, omega arith)
  run_instructions-Costs i (inst ∷ rest) r m e all h = Ensures-bind (all.0 m h) λ r' m' h'.
      after_instruction-Costs i (run_instructions total_gas (i + 1) rest) inst.is_terminating r' m'
        (omega arith) h' (λ r''. run_instructions-Costs (i + 1) rest r'' m' (omega arith) all.1 h')

-- A compiled block keeps what its instructions keep.
pub execute-Costs :
    (I : Machine → Type 0) (Q : Exn → Machine → Type 0) (info : BlockInfo) (pc : ℕ) (m : Machine)
    → IsBlock (Keeps I Q) info
    → I m
    → Ensures (Costs I info.total_gas) Q (execute info pc m)
unfolding execute
execute-Costs I Q info pc m (e, pos, all) h =
    run_instructions-Costs I Q info.total_gas pos 0 info.instructions _ m (omega arith) all h
