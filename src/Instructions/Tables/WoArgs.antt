-- ===== src/Instructions/Tables/WoArgs.antt =====
-- tsrkit_pvm/interpreter/instructions/tables/wo_args.py: `InstructionsWoArgs`.
use tsrkit_pvm.Prelude.{ℕ, true, List, [], ◌∷◌, Option, some, raise, panic}
use tsrkit_pvm.Instructions.Machine.{Table, OpCode, Exec, next}

abbrev pub Props : Type 0
Props = Unit {0}

unfoldable pub get_props : Table → Option Props
get_props self = some tt

unfoldable pub trap : Table → Props → Exec
trap self _ = raise panic

unfoldable pub fallthrough : Table → Props → Exec
unfolding next
fallthrough self _ = next self

unfoldable pub table : List (ℕ × OpCode Props)
table =
    (0, record { fn = trap; gas = 1; is_terminating = true })
    ∷ (1, record { fn = fallthrough; gas = 1; is_terminating = true })
    ∷ []
