-- ===== src/Instructions/InstMap/Fuel.antt =====
-- inst_map.py: the bound on the rounds of `_compile_block`.
use tsrkit_pvm.Prelude.{
  ℕ, zero, suc, ◌+◌, ◌≤◌, none, get_elem?, get_elem?-inside, Option, some, ◌<◌, Ensures,
  Ensures-map, length, M, or_raise, index_error, ◌>>=◌, pure, ◌≡◌, refl, sym, ap, ◌∙◌, arith,
  value_error, true, false,
}
use tsrkit_pvm.Instructions.InstMap.Compile.{IsCompileError, compile_block-IsBlock}
use tsrkit_pvm.Interpreter.Program
use tsrkit_pvm.Interpreter.Program.{Program}
use tsrkit_pvm.Instructions.InstMap.{
  BlockInfo, compile_loop, compile_block, dispatch, table_at, cons_block, empty_block,
}

-- A round, given the rounds after it.
abbrev one_round : M (Unit {0}) BlockInfo → Program → ℕ → M (Unit {0}) BlockInfo
one_round rest p pc = do
  opcode ← or_raise index_error (get_elem? p.zeta pc)
  h ← or_raise value_error (dispatch opcode)
  fn ← or_raise index_error (h.bind (table_at p pc))
  elim h.is_terminating [
    | true ↦ pure (cons_block h fn empty_block)
    | false ↦ rest >>= λ block. pure (cons_block h fn block)
  ]

compile_loop-round :
    (left : ℕ) (p : Program) (pc : ℕ)
    → compile_loop (suc left) p pc
      ≡ one_round (compile_loop left p (pc + (1 + Program.skip p pc))) p pc
unfolding compile_loop
compile_loop-round left p pc = refl

compile_block-rounds :
    (p : Program) (pc : ℕ) → compile_block p pc ≡ compile_loop (suc (length p.zeta)) p pc
unfolding compile_block
compile_block-rounds p pc = refl

-- The rounds after this one count only inside of `zeta`.
same_round :
    (a b : M (Unit {0}) BlockInfo) (p : Program) (pc : ℕ) (o : Option ℕ)
    → get_elem? p.zeta pc ≡ o
    → (pc < length p.zeta → a ≡ b)
    → one_round a p pc ≡ one_round b p pc
same_round a b p pc none e same = rw e refl
same_round a b p pc (some opcode) e same =
    ap (λ rest. one_round rest p pc) (same (get_elem?-inside p.zeta pc opcode e))

-- One more round than the positions that are left, and the one past the end, changes nothing.
compile_loop-suc :
    (left : ℕ) (p : Program) (pc : ℕ)
    → 1 ≤ left
    → length p.zeta < pc + left
    → compile_loop left p pc ≡ compile_loop (suc left) p pc
compile_loop-suc zero p pc one h = absurd (omega arith)
compile_loop-suc (suc left) p pc one h =
    compile_loop-round left p pc
    ∙ same_round _ _ p pc (get_elem? p.zeta pc) refl (λ inside.
      compile_loop-suc left p (pc + (1 + Program.skip p pc)) (omega arith) (omega arith))
    ∙ sym (compile_loop-round (suc left) p pc)

compile_loop-more :
    (more : ℕ) (p : Program) (pc : ℕ)
    → compile_loop (more + suc (length p.zeta)) p pc ≡ compile_block p pc
compile_loop-more zero p pc =
    ap (λ n. compile_loop n p pc) (omega arith) ∙ sym (compile_block-rounds p pc)
compile_loop-more (suc more) p pc =
    let next : suc more + suc (length p.zeta) ≡ suc (more + suc (length p.zeta)) = omega arith in
    ap (λ n. compile_loop n p pc) next
    ∙ sym (compile_loop-suc (more + suc (length p.zeta)) p pc (omega arith) (omega arith))
    ∙ compile_loop-more more p pc

-- The rounds of `_compile_block`, one more than the positions of `zeta`, are enough: with any
-- larger number the loop gives the same block or the same exception, and it never uses its rounds
-- up, but gives a block of at least one unit of gas or raises the IndexError or the ValueError of
-- the code.
pub compile_loop-enough :
    (more : ℕ) (p : Program) (pc : ℕ)
    → (compile_loop (more + suc (length p.zeta)) p pc ≡ compile_block p pc)
      × Ensures (λ info _. 1 ≤ info.total_gas) IsCompileError (compile_block p pc tt)
compile_loop-enough more p pc = (
  compile_loop-more more p pc,
  Ensures-map (λ info _ b. b.1) (λ _ _ e. e)
      (compile_block-IsBlock (λ _. Unit {0}) (λ _ _ _ _ _ _. tt) p pc tt),
)
