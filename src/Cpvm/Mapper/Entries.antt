-- ===== src/Cpvm/Mapper/Entries.antt =====
-- mapper.pyx against inst_map.py: the opcodes that the dispatch tables have.
use tsrkit_pvm.Prelude.{
  ℕ, Bool, List, [], ◌∷◌, map, Option, none, some, ◌==◌, ◌≡◌, refl, sym, ap, zero, suc, ◌+◌, ◌<◌,
  true, false, ◌&&◌, ==_iff, ◌∙◌, arith, ◌≤◌, Bool-cases, inl, inr,
}
use mathlib.Core.Option
use tsrkit_pvm.Instructions.InstMap
use tsrkit_pvm.Instructions.InstMap.{override, InstructionHandler}
use tsrkit_pvm.Instructions.InstMap.Entries.{override-elim}
use tsrkit_pvm.Cpvm.Mapper
use tsrkit_pvm.Cpvm.Mapper.{Dispatched}
use tsrkit_pvm.Cpvm.Tables as Cy
use tsrkit_pvm.Instructions.Tables as Py

-- The gas and the flag of an opcode.
abbrev pub Props : Type 0
Props = ℕ × Bool

abbrev pub handler_props : InstructionHandler → Props
handler_props h = (h.gas, h.is_terminating)

abbrev pub entry_props : Dispatched → Props
entry_props d = (d.entry.gas_cost, d.entry.is_terminating)

abbrev on_entry : {A : Type 0} → (A → Props) → ℕ × A → ℕ × Props
on_entry f (k, a) = (k, f a)

find : ℕ → List (ℕ × Props) → Option Props
find opcode [] = none
find opcode ((k, p) ∷ entries) = override (find opcode entries) (k == opcode) p

override-map :
    {A : Type 0} (f : A → Props) (later : Option A) (fits : Bool) (a : A)
    → override (Option.map f later) fits (f a) ≡ Option.map f (override later fits a)
override-map f none true a = refl
override-map f none false a = refl
override-map f (some x) fits a = refl

lookup-find :
    (opcode : ℕ) (entries : List (ℕ × InstructionHandler))
    → find opcode (map (on_entry handler_props) entries)
      ≡ Option.map handler_props (InstMap.lookup opcode entries)
unfolding find InstMap.lookup
lookup-find opcode [] = refl
lookup-find opcode ((k, h) ∷ entries) =
    ap (λ o. override o (k == opcode) (handler_props h)) (lookup-find opcode entries)
    ∙ override-map handler_props (InstMap.lookup opcode entries) (k == opcode) h

cy_lookup-find :
    (opcode : ℕ) (entries : List (ℕ × Dispatched))
    → find opcode (map (on_entry entry_props) entries)
      ≡ Option.map entry_props (Mapper.lookup opcode entries)
unfolding find Mapper.lookup
cy_lookup-find opcode [] = refl
cy_lookup-find opcode ((k, d) ∷ entries) =
    ap (λ o. override o (k == opcode) (entry_props d)) (cy_lookup-find opcode entries)
    ∙ override-map entry_props (Mapper.lookup opcode entries) (k == opcode) d

same_bool : Bool → Bool → Bool
same_bool true c = c
same_bool false true = false
same_bool false false = true

same_props : Option Props → Option Props → Bool
unfolding same_bool
same_props none none = true
same_props (some (g, t)) (some (h, u)) = (g == h) && same_bool t u
same_props _ _ = false

same_at : List (ℕ × Props) → List (ℕ × Props) → ℕ → Bool
unfolding find same_props
same_at xs ys opcode = same_props (find opcode xs) (find opcode ys)

-- A test at `count` opcodes from `k` on.
all_from : ℕ → ℕ → (ℕ → Bool) → Bool
all_from k zero p = true
all_from k (suc n) p = p k && all_from (k + 1) n p

checked :
    all_from 0 256 (
      same_at
        (map (on_entry entry_props) Mapper.table_objs)
        (map (on_entry handler_props) InstMap.all_tables))
    ≡ true
unfolding all_from same_at find same_props same_bool InstMap.all_tables Mapper.table_objs
    Cy.WoArgs.table Py.WoArgs.table Cy.IImm.table Py.IImm.table Cy.IOffset.table Py.IOffset.table
    Cy.IRegIEwimm.table Py.IRegIEwimm.table Cy.IRegIImm.table Py.IRegIImm.table
    Cy.IRegIImmIOffset.table Py.IRegIImmIOffset.table Cy.IRegIiImm.table Py.IRegIiImm.table
    Cy.IiImm.table Py.IiImm.table Cy.IiReg.table Py.IiReg.table Cy.IiRegIImm.table
    Py.IiRegIImm.table Cy.IiRegIOffset.table Py.IiRegIOffset.table Cy.IiRegIiImm.table
    Py.IiRegIiImm.table Cy.IiiReg.table Py.IiiReg.table
checked = refl

all_from_lem :
    (k n : ℕ) (p : ℕ → Bool) (x : ℕ) → all_from k n p ≡ true → k ≤ x → x < k + n → p x ≡ true
unfolding all_from
all_from_lem k zero p x h le lt = absurd (omega arith)
all_from_lem k (suc n) p x h le lt = elim (Bool-cases (k == x)) [
  | inl e ↦ ap p (sym ((==_iff k x).0 e)) ∙ ground arith
  | inr e ↦ all_from_lem (k + 1) n p x (ground arith) (ground arith) (omega arith)
]

same_bool-≡ : (s t : Bool) → same_bool s t ≡ true → s ≡ t
unfolding same_bool
same_bool-≡ true true h = refl
same_bool-≡ true false h = cc
same_bool-≡ false true h = cc
same_bool-≡ false false h = refl

same_props-≡ : (o q : Option Props) → same_props o q ≡ true → o ≡ q
unfolding same_props
same_props-≡ none none h = refl
same_props-≡ none (some q) h = cc
same_props-≡ (some o) none h = cc
same_props-≡ (some (g, t)) (some (h, u)) e =
    let same_gas : g ≡ h = ground arith in
    let same_flag : t ≡ u = same_bool-≡ t u (ground arith) in cc

-- The dispatch tables of the Cython code and of the interpreter have an entry for the same opcodes
-- below 256, with the same gas and the same mark of an instruction that ends a block.
pub dispatch-dispatch :
    (opcode : ℕ)
    → opcode < 256
    → Option.map entry_props (Mapper.dispatch opcode)
      ≡ Option.map handler_props (InstMap.dispatch opcode)
unfolding Mapper.dispatch InstMap.dispatch same_at
dispatch-dispatch opcode lt =
    sym (cy_lookup-find opcode Mapper.table_objs)
    ∙ same_props-≡ _ _ (all_from_lem 0 256 _ opcode checked (omega arith) (omega arith))
    ∙ lookup-find opcode InstMap.all_tables

all_gas_one : List (ℕ × Props) → Bool
all_gas_one [] = true
all_gas_one ((_, p) ∷ entries) = p.0 == 1 && all_gas_one entries

find-gas :
    (opcode : ℕ) (entries : List (ℕ × Props)) (p : Props)
    → all_gas_one entries ≡ true
    → find opcode entries ≡ some p
    → p.0 ≡ 1
unfolding all_gas_one find
find-gas opcode [] p h e = cc
find-gas opcode ((k, q) ∷ entries) p h e =
    override-elim (λ r. r.0 ≡ 1) (find opcode entries) (k == opcode)
      (find-gas opcode entries p (ground arith)) (ground arith) e

gas_checked : all_gas_one (map (on_entry entry_props) Mapper.table_objs) ≡ true
unfolding all_gas_one Mapper.table_objs Cy.WoArgs.table Cy.IImm.table Cy.IOffset.table
    Cy.IRegIEwimm.table Cy.IRegIImm.table Cy.IRegIImmIOffset.table Cy.IRegIiImm.table Cy.IiImm.table
    Cy.IiReg.table Cy.IiRegIImm.table Cy.IiRegIOffset.table Cy.IiRegIiImm.table Cy.IiiReg.table
gas_checked = refl

pub dispatch-gas_cost :
    (opcode : ℕ) (d : Dispatched) → Mapper.dispatch opcode ≡ some d → d.entry.gas_cost ≡ 1
unfolding Mapper.dispatch
dispatch-gas_cost opcode d e =
    find-gas opcode (map (on_entry entry_props) Mapper.table_objs) (entry_props d) gas_checked
      (cy_lookup-find opcode Mapper.table_objs ∙ ap (Option.map entry_props) e)
