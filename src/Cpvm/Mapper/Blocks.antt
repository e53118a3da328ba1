-- ===== src/Cpvm/Mapper/Blocks.antt =====
-- mapper.pyx: `_compile_block` and `get_block`.
use tsrkit_pvm.Prelude.{
  ℕ, zero, suc, ◌+◌, ◌≤◌, true, false, Option, none, some, get_elem?, length, M, Outcome, pure,
  ◌>>=◌, Exn, crash, Ensures, Ensures-bind, Ensures-or_raise, ◌≡◌, refl, arith, ◌<◌,
  get_elem?-inside,
}
use tsrkit_pvm.Cpvm.Program
use tsrkit_pvm.Cpvm.Program.{CyProgram}
use tsrkit_pvm.Cpvm.Mapper.{
  CyBlockInfo, Cache, Dispatched, compile_loop, compile_block, cons_block, empty_block, dispatch,
  compiled_at, compiled, remember, get_block,
}
use tsrkit_pvm.Cpvm.Mapper.Entries.{dispatch-gas_cost}

abbrev U : Type 0
U = Unit {0}

-- A block has as many units of gas as instructions.
abbrev pub IsBlock : CyBlockInfo → Type 0
IsBlock info = (info.total_gas ≡ length info.instructions) × (1 ≤ info.total_gas)

abbrev pub IsCrash : {S : Type 0} → Exn → S → Type 0
IsCrash e _ = e ≡ crash

abbrev Compiles : Outcome U CyBlockInfo → Type 0
Compiles = Ensures (λ info _. IsBlock info) IsCrash

cons_block-IsBlock :
    (p : CyProgram) (pc opcode : ℕ) (d : Dispatched) (rest : CyBlockInfo)
    → d.entry.gas_cost ≡ 1
    → rest.total_gas ≡ length rest.instructions
    → IsBlock (cons_block (compiled_at p pc opcode d) rest)
cons_block-IsBlock p pc opcode d rest e c = (omega arith, omega arith)

compile_loop-IsBlock :
    (left : ℕ) (p : CyProgram) (pc : ℕ) (s : U)
    → 1 ≤ left
    → length p.zeta < pc + left
    → Compiles (compile_loop left p pc s)
unfolding compile_loop
compile_loop-IsBlock zero p pc s one enough = absurd (omega arith)
compile_loop-IsBlock (suc left) p pc s one_left enough =
    Ensures-or_raise _ (get_elem? p.zeta pc) _ s refl λ opcode at_pc.
      Ensures-or_raise _ (dispatch opcode) _ s refl λ d found.
        let inside = get_elem?-inside p.zeta pc opcode at_pc in
        let one = dispatch-gas_cost opcode d found in
        let next_pc = pc + Program.skip p pc + 1 in
        let inst = compiled_at p pc opcode d in
        elim (d.entry.is_terminating)
          as (λ t. Compiles (
            (elim t as (λ _. M U CyBlockInfo) [
              | true ↦ pure (cons_block inst empty_block)
              | false ↦ compile_loop left p next_pc >>= λ rest. pure (cons_block inst rest)
            ])
              s)) [
                | true ↦ Ensures.returns (cons_block-IsBlock p pc opcode d empty_block one refl)
                | false ↦
                    Ensures-bind (compile_loop-IsBlock left p next_pc s (omega arith) (omega arith))
                      (λ rest _ c. Ensures.returns (cons_block-IsBlock p pc opcode d rest one c.0))
              ]

pub compile_block-IsBlock : (p : CyProgram) (pc : ℕ) (s : U) → Compiles (compile_block p pc s)
unfolding compile_block
compile_block-IsBlock p pc s =
    compile_loop-IsBlock (suc (length p.zeta)) p pc s (omega arith) (omega arith)

-- The blocks of a cache.
abbrev pub HoldsBlocks : Cache → Type 0
HoldsBlocks cache = (pc : ℕ) (info : CyBlockInfo) → cache pc ≡ some info → IsBlock info

abbrev pub Gets : Outcome Cache CyBlockInfo → Type 0
Gets =
    Ensures (λ info cache. IsBlock info × HoldsBlocks cache)
      (λ e cache. (e ≡ crash) × HoldsBlocks cache)

remember-HoldsBlocks :
    (cache : Cache) (pc : ℕ) (info : CyBlockInfo)
    → HoldsBlocks cache
    → IsBlock info
    → HoldsBlocks (remember cache pc info)
remember-HoldsBlocks cache pc info holds is_block j found e = ground (arith, holds j found)

compiled-Gets :
    (cache : Cache) (pc : ℕ) (o : Outcome U CyBlockInfo)
    → HoldsBlocks cache
    → Compiles o
    → Gets (compiled cache pc o)
compiled-Gets cache pc (Outcome.done info _) holds (Ensures.returns c) =
    Ensures.returns (c, remember-HoldsBlocks cache pc info holds c)
compiled-Gets cache pc (Outcome.raised e _) holds (Ensures.raises c) = Ensures.raises (c, holds)

pub get_block-Gets :
    (p : CyProgram) (pc : ℕ) (cache : Cache) → HoldsBlocks cache → Gets (get_block p pc cache)
unfolding get_block
get_block-Gets p pc cache holds = go (cache pc) refl
  where
    go :
        (o : Option CyBlockInfo)
        → cache pc ≡ o
        → Gets (elim o [
          | some info ↦ Outcome.done info cache
          | none ↦ compiled cache pc (compile_block p pc tt)
        ])
    go (some info) e = Ensures.returns (holds pc info e, holds)
    go none e = compiled-Gets cache pc _ holds (compile_block-IsBlock p pc tt)
