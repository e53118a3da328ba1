-- ===== src/Cpvm/Program/Init/Agree.antt =====
-- cy_program.pyx against program.py: the program that the constructor makes.
use tsrkit_pvm.Prelude.{
  ℕ, zero, suc, ◌+◌, ◌-◌, ◌<◌, min, Bool, true, false, ◌&&◌, List, [], ◌∷◌, map, Option, none, some,
  ltb, length, get_elem?, drop, range, M, Outcome, pure, crash, ◌≡◌, refl, ap, ◌∙◌, arith,
  if◌then◌else◌, fun_ext, bind_outcome, or_raise, lt→ltb, ◌>>=◌,
}
use mathlib.Core.Option
use tsrkit_pvm.Interpreter.Program
use tsrkit_pvm.Interpreter.Program.{Program}
use tsrkit_pvm.Interpreter.Program.Init as Py
use tsrkit_pvm.Instructions.InstMap
use tsrkit_pvm.Cpvm.Mapper
use tsrkit_pvm.Cpvm.Mapper.Entries.{dispatch-dispatch, entry_props, handler_props, Props}
use tsrkit_pvm.Cpvm.Program.{CyProgram}
use tsrkit_pvm.Cpvm.Program.Init as Cy
use tsrkit_pvm.Cpvm.Mapper.{Dispatched}
use tsrkit_pvm.Instructions.InstMap.{InstructionHandler}

-- Every position that the bitmask marks has an opcode of the dispatch table.
abbrev pub HasOpcodes : List Bool → List ℕ → Type 0
HasOpcodes offset_bitmask instruction_set =
    (i opcode : ℕ)
    → get_elem? offset_bitmask i ≡ some true
    → get_elem? instruction_set i ≡ some opcode
    → (opcode < 256) × (Py.is_defined opcode ≡ true)

-- The fields of a program in the C object.
abbrev pub as_cy : Program → CyProgram
as_cy q = record {
  z = q.z;
  jump_table = q.jump_table;
  instruction_set = q.instruction_set;
  offset_bitmask = q.offset_bitmask;
  zeta = q.zeta;
  extended_bitmask = q.extended_bitmask;
  skip_cache = q.skip_cache;
  basic_blocks = q.basic_blocks;
}

-- Where Python raises an IndexError, C reads out of bounds.
abbrev pub or_crash : {A : Type 0} → Option A → Outcome (Unit {0}) A
or_crash none = Outcome.raised crash tt
or_crash (some a) = Outcome.done a tt

flag-flag :
    (o : Option Dispatched) (q : Option InstructionHandler)
    → Option.map entry_props o ≡ Option.map handler_props q
    → (elim q as (λ _. Bool) [ none ↦ false | some _ ↦ true ]) ≡ true
    → (elim o as (λ _. Outcome (Unit {0}) Bool) [
      | none ↦ Outcome.raised crash tt
      | some d ↦ Outcome.done d.entry.is_terminating tt
    ])
      ≡ Outcome.done (elim q as (λ _. Bool) [ none ↦ true | some h ↦ h.is_terminating ]) tt
flag-flag none none e found = cc
flag-flag none (some h) e found = cc
flag-flag (some d) none e found = cc
flag-flag (some d) (some h) e found =
    ap
      (λ (o : Option Props). Outcome.done (elim o as (λ _. Bool) [ none ↦ true | some p ↦ p.1 ]) tt)
      e

is_terminating-is_terminating :
    (opcode : ℕ)
    → opcode < 256
    → Py.is_defined opcode ≡ true
    → Mapper.is_terminating {S = Unit} opcode tt ≡ Outcome.done (InstMap.is_terminating opcode) tt
unfolding Mapper.is_terminating InstMap.is_terminating
is_terminating-is_terminating opcode lt defined =
    flag-flag (Mapper.dispatch opcode) (InstMap.dispatch opcode) (dispatch-dispatch opcode lt)
      defined

map-cong : {A B : Type 0} (f g : A → B) (xs : List A) → ((x : A) → f x ≡ g x) → map f xs ≡ map g xs
map-cong f g xs same = ap (λ h. map h xs) (fun_ext same)

skip_loop-skip_loop :
    (v k left : ℕ) (bits : List Bool) → Cy.skip_loop v k left bits ≡ Py.skip_loop v k left bits
unfolding Cy.skip_loop Py.skip_loop
skip_loop-skip_loop v k zero bits = refl
skip_loop-skip_loop v k (suc left) [] = refl
skip_loop-skip_loop v k (suc left) (true ∷ bits) = refl
skip_loop-skip_loop v k (suc left) (false ∷ bits) = skip_loop-skip_loop v (k + 1) left bits

skip_value-skip_value :
    (offset_bitmask : List Bool) (i : ℕ)
    → Cy.skip_value offset_bitmask i ≡ Py.skip_value offset_bitmask i
unfolding Cy.skip_value Py.skip_value Cy.extend_bitmask Py.extend_bitmask
skip_value-skip_value offset_bitmask i =
    skip_loop-skip_loop (length offset_bitmask) 0 (length offset_bitmask - i)
      (drop (i + 1) (Cy.extend_bitmask offset_bitmask))

clamp-min : (v : ℕ) → (if ltb v 24 then v else 24) ≡ min 24 v
clamp-min v = ground arith

skip_cache-skip_cache :
    (offset_bitmask : List Bool) → Cy.skip_cache offset_bitmask ≡ Py.skip_cache offset_bitmask
unfolding Cy.skip_cache Py.skip_cache
skip_cache-skip_cache offset_bitmask =
    map-cong _ _ (range 0 (length offset_bitmask))
      (λ i. clamp-min _ ∙ ap (min 24) (skip_value-skip_value offset_bitmask i))

finish-finish :
    (ends : Bool) (next : ℕ) (r : Option (List ℕ))
    → bind_outcome (or_crash r) (λ blocks. pure (if ends then next ∷ blocks else blocks))
      ≡ or_crash (Option.map (λ (blocks : List ℕ). if ends then next ∷ blocks else blocks) r)
finish-finish ends next none = refl
finish-finish ends next (some blocks) = refl

ends_block-defined :
    (opcode : ℕ)
    → opcode < 256
    → Py.is_defined opcode ≡ true
    → InstMap.is_terminating opcode ≡ Py.ends_block true opcode
unfolding Py.ends_block
ends_block-defined opcode lt defined =
    go (InstMap.is_terminating opcode) (ltb opcode 256) _ (lt→ltb opcode 256 lt) defined
  where
    go : (t l d : Bool) → l ≡ true → d ≡ true → t ≡ (true && t && l && d)
    go t true true e f = ground arith
    go t true false e f = cc
    go t false d e f = cc

-- The body of the loop at an opcode, given what the rest of the loop gives.
abbrev cy_step : ℕ → ℕ → M (Unit {0}) (List ℕ) → Option Bool → Outcome (Unit {0}) (List ℕ)
cy_step opcode next again o =
    (or_raise crash o >>= λ is_start.
    (elim is_start as (λ _. M (Unit {0}) Bool) [
      | true ↦ Mapper.is_terminating opcode
      | false ↦ pure false
    ])
    >>= λ ends. again >>= λ blocks. pure (if ends then next ∷ blocks else blocks))
      tt

abbrev py_step : ℕ → ℕ → Option (List ℕ) → Option Bool → Option (List ℕ)
py_step opcode next rest o = elim o as (λ _. Option (List ℕ)) [
  | none ↦ none
  | some is_start ↦
      Option.map
        (λ (blocks : List ℕ). if Py.ends_block is_start opcode then next ∷ blocks else blocks) rest
]

step-step :
    (opcode next : ℕ) (o : Option Bool) (rest : Option (List ℕ)) (again : M (Unit {0}) (List ℕ))
    → (o ≡ some true → (opcode < 256) × (Py.is_defined opcode ≡ true))
    → again tt ≡ or_crash rest
    → cy_step opcode next again o ≡ or_crash (py_step opcode next rest o)
unfolding Py.ends_block
step-step opcode next none rest again has e = refl
step-step opcode next (some false) rest again has e =
    ap (λ r. bind_outcome r (λ blocks. pure blocks)) e ∙ finish-finish false next rest
step-step opcode next (some true) rest again has e =
    let (lt, defined) = has refl in
    ap
      (λ r.
        bind_outcome r (λ ends. again >>= λ blocks. pure (if ends then next ∷ blocks else blocks)))
      (is_terminating-is_terminating opcode lt defined)
    ∙ ap
        (λ r.
          bind_outcome r
            (λ blocks. pure (if InstMap.is_terminating opcode then next ∷ blocks else blocks)))
        e
    ∙ finish-finish (InstMap.is_terminating opcode) next rest
    ∙ ap
        (λ ends.
          or_crash (Option.map (λ (blocks : List ℕ). if ends then next ∷ blocks else blocks) rest))
        (ends_block-defined opcode lt defined)

blocks_loop-blocks_loop :
    (p : Program) (n : ℕ) (rest : List ℕ)
    → ((i opcode : ℕ)
        → get_elem? p.offset_bitmask (n + i) ≡ some true
        → get_elem? rest i ≡ some opcode
        → (opcode < 256) × (Py.is_defined opcode ≡ true))
    → Cy.blocks_loop p.offset_bitmask p.skip_cache n rest tt ≡ or_crash (Py.blocks_loop p n rest)
unfolding Cy.blocks_loop Py.blocks_loop Program.skip
blocks_loop-blocks_loop p n [] has = refl
blocks_loop-blocks_loop p n (opcode ∷ rest) has =
    step-step opcode (n + 1 + Program.skip p n) (get_elem? p.offset_bitmask n)
      (Py.blocks_loop p (n + 1) rest) (Cy.blocks_loop p.offset_bitmask p.skip_cache (n + 1) rest)
      (λ e. has 0 opcode (ap (get_elem? p.offset_bitmask) (omega arith) ∙ e) refl)
      (blocks_loop-blocks_loop p (n + 1) rest
        (λ i code e f. has (suc i) code (ap (get_elem? p.offset_bitmask) (omega arith) ∙ e) f))

built-built :
    (q : Program) (r : Option (List ℕ))
    → bind_outcome (or_crash r) (λ blocks. pure (as_cy (record q { basic_blocks = 0 ∷ blocks })))
      ≡ or_crash (
          Option.map as_cy
            (Option.map (λ (blocks : List ℕ). record q { basic_blocks = 0 ∷ blocks }) r))
built-built q none = refl
built-built q (some blocks) = refl

-- If every position that the bitmask marks has an opcode of the dispatch table, the constructor of
-- `CyProgram` makes the program that the interpreter's makes, with the same skip cache and basic
-- blocks; where Python would raise an IndexError, C reads out of bounds.
pub init-init :
    (z : ℕ) (jump_table instruction_set : List ℕ) (offset_bitmask : List Bool)
    → HasOpcodes offset_bitmask instruction_set
    → Cy.init z jump_table instruction_set offset_bitmask tt
      ≡ or_crash (Option.map as_cy (Py.init z jump_table instruction_set offset_bitmask))
unfolding Cy.init Py.init Cy.extend_bitmask Py.extend_bitmask Cy.extend_instructions
    Py.extend_instructions
init-init z jump_table instruction_set offset_bitmask has =
    let q = Py.bare z jump_table instruction_set offset_bitmask in
    let finish : List ℕ → Outcome (Unit {0}) (List ℕ) → Outcome (Unit {0}) CyProgram = λ skips r.
      bind_outcome r
        (λ blocks. pure (as_cy (record q { skip_cache = skips; basic_blocks = 0 ∷ blocks }))) in
    ap (λ skips. finish skips (Cy.blocks_loop offset_bitmask skips 0 instruction_set tt))
      (skip_cache-skip_cache offset_bitmask)
    ∙ ap (finish q.skip_cache) (
        blocks_loop-blocks_loop q 0 instruction_set
          (λ i code e f. has i code (ap (get_elem? offset_bitmask) (omega arith) ∙ e) f))
    ∙ built-built q (Py.blocks_loop q 0 instruction_set)
