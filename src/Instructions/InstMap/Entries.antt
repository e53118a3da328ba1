-- ===== src/Instructions/InstMap/Entries.antt =====
-- inst_map.py: what holds of every entry of the dispatch table.
use tsrkit_pvm.Prelude.{
  ℕ, Bool, true, false, ◌&&◌, List, [], ◌∷◌, Option, none, some, ◌==◌, ◌≡◌, refl, All, arith,
}
use mathlib.Core.Path.{subst}
use mathlib.Core.Option.{some-injective}
use tsrkit_pvm.Instructions.Tables
use tsrkit_pvm.Instructions.InstMap.{override, InstructionHandler, lookup, dispatch, all_tables}

pub override-elim {ℓ κ} :
    {A : Type ℓ} (P : A → Type κ) (o : Option A) (fits : Bool) {g h : A}
    → (o ≡ some h → P h)
    → P g
    → override o fits g ≡ some h
    → P h
override-elim P (some later) fits old new e = old e
override-elim P none true old new e = subst P (some-injective _ _ e) new
override-elim P none false old new e = cc

-- A property of the handlers of a list is one of what a lookup in it gives.
pub lookup-All {κ} :
    (P : InstructionHandler → Type κ) (opcode : ℕ) (entries : List (ℕ × InstructionHandler))
    {h : InstructionHandler}
    → All (λ e. P e.1) entries
    → lookup opcode entries ≡ some h
    → P h
unfolding lookup
lookup-All P opcode [] a e = cc
lookup-All P opcode ((k, g) ∷ entries) a e =
    override-elim P (lookup opcode entries) (k == opcode) (lookup-All P opcode entries a.1) a.0 e

all_gas_one : List (ℕ × InstructionHandler) → Bool
all_gas_one [] = true
all_gas_one ((_, h) ∷ entries) = h.gas == 1 && all_gas_one entries

all_gas_one-All :
    (entries : List (ℕ × InstructionHandler))
    → all_gas_one entries ≡ true
    → All (λ e. e.1.gas ≡ 1) entries
unfolding all_gas_one
all_gas_one-All [] h = tt
all_gas_one-All ((k, g) ∷ entries) h = (ground arith, all_gas_one-All entries (ground arith))

all_tables_gas : all_gas_one all_tables ≡ true
unfolding all_gas_one all_tables Tables.WoArgs.table Tables.IImm.table Tables.IRegIEwimm.table
    Tables.IiImm.table Tables.IOffset.table Tables.IRegIImm.table Tables.IRegIiImm.table
    Tables.IRegIImmIOffset.table Tables.IiReg.table Tables.IiRegIImm.table Tables.IiRegIOffset.table
    Tables.IiRegIiImm.table Tables.IiiReg.table
all_tables_gas = refl

-- Every opcode that the dispatch table has costs one unit of gas.
pub dispatch-gas : (opcode : ℕ) (h : InstructionHandler) → dispatch opcode ≡ some h → h.gas ≡ 1
unfolding dispatch
dispatch-gas opcode h e =
    lookup-All (λ g. g.gas ≡ 1) opcode all_tables (all_gas_one-All all_tables all_tables_gas) e
