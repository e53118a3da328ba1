-- ===== src/Instructions/Safety/Entries.antt =====
-- inst_map.py: the safety of the entries of the dispatch table.
use tsrkit_pvm.Prelude.{ℕ, List, [], ◌∷◌, ◌++◌, map, Option, none, some, All, ◌≡◌, refl}
use mathlib.Core.Path.{subst}
use mathlib.Core.Option
use mathlib.Core.Option.{some-injective}
use tsrkit_pvm.Instructions.Machine.{Table, OpCode, Exec}
use tsrkit_pvm.Instructions.InstMap.{InstructionHandler, handler, dispatch, all_tables}
use tsrkit_pvm.Instructions.InstMap.Entries.{lookup-All}
use tsrkit_pvm.Instructions.InstMap.Compile.{EveryInstruction, Keeps}
use tsrkit_pvm.Instructions.Safety.Rules.{IsSafe, IsSafeOp, IsMachine, Raises}
use tsrkit_pvm.Instructions.Safety.Methods

-- What a handler makes of a table object is safe.
abbrev IsSafeHandler : InstructionHandler → Type 0
IsSafeHandler h = (t : Table) (fn : Exec) → h.bind t ≡ some fn → IsSafe fn

abbrev AllHandlers : List (ℕ × InstructionHandler) → Type 0
AllHandlers = All (λ e. IsSafeHandler e.1)

AllHandlers-append :
    (xs ys : List (ℕ × InstructionHandler))
    → AllHandlers xs
    → AllHandlers ys
    → AllHandlers (xs ++ ys)
AllHandlers-append [] ys h k = k
AllHandlers-append (x ∷ xs) ys h k = (h.0, AllHandlers-append xs ys h.1 k)

module _ {P : Type 0} (get_props : Table → Option P) where
  bound-IsSafe :
      (fn : P → Exec) (o : Option P) (f : Exec)
      → ((props : P) → o ≡ some props → IsSafe (fn props))
      → Option.map fn o ≡ some f
      → IsSafe f
  bound-IsSafe fn none f h e = cc
  bound-IsSafe fn (some props) f h e =
      subst (λ (g : Exec). IsSafe g) (some-injective _ _ e) (h props refl)

  handlers :
      (table : List (ℕ × OpCode P))
      → All (λ e. IsSafeOp get_props e.1) table
      → AllHandlers (map (handler get_props) table)
  handlers [] h = tt
  handlers ((k, op) ∷ table) h =
      (λ t fn. bound-IsSafe (op.fn t) (get_props t) fn (h.0 t), handlers table h.1)

all_tables-IsSafe : AllHandlers all_tables
unfolding all_tables
all_tables-IsSafe =
    AllHandlers-append _ _
      (AllHandlers-append _ _
        (AllHandlers-append _ _
          (AllHandlers-append _ _
            (AllHandlers-append _ _
              (AllHandlers-append _ _
                (AllHandlers-append _ _
                  (AllHandlers-append _ _
                    (AllHandlers-append _ _
                      (AllHandlers-append _ _
                        (AllHandlers-append _ _
                          (AllHandlers-append _ _ (handlers _ _ Methods.OneReg.wo_args-IsSafe)
                            (handlers _ _ Methods.OneReg.i_imm-IsSafe))
                          (handlers _ _ Methods.OneReg.i_reg_i_ewimm-IsSafe))
                        (handlers _ _ Methods.OneReg.ii_imm-IsSafe))
                      (handlers _ _ Methods.OneReg.i_offset-IsSafe))
                    (handlers _ _ Methods.OneReg.i_reg_i_imm-IsSafe))
                  (handlers _ _ Methods.OneReg.i_reg_ii_imm-IsSafe))
                (handlers _ _ Methods.OneReg.i_reg_i_imm_i_offset-IsSafe))
              (handlers _ _ Methods.Moves.table-IsSafe))
            (handlers _ _ Methods.Immediates.table-IsSafe))
          (handlers _ _ Methods.Jumps.branches-IsSafe))
        (handlers _ _ Methods.Jumps.jumps-IsSafe))
      (handlers _ _ Methods.ThreeReg.table-IsSafe)

-- Whatever opcode is looked up and wherever it stands: its method keeps thirteen registers and the
-- invariant of the memory.
pub dispatch-IsSafe : EveryInstruction (Keeps IsMachine (Raises IsMachine))
unfolding dispatch
dispatch-IsSafe opcode h t fn found bound =
    lookup-All IsSafeHandler opcode all_tables all_tables-IsSafe found t fn bound
