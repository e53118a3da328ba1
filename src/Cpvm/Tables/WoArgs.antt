-- ===== src/Cpvm/Tables/WoArgs.antt =====
-- tsrkit_pvm/cpvm/instructions/tables/wo_args.pyx: `InstructionsWoArgs`.
use tsrkit_pvm.Prelude.{ℕ, true, List, [], ◌∷◌, Outcome}
use tsrkit_pvm.Cpvm.Status.{pvm_panic, exit_with}
use tsrkit_pvm.Cpvm.Program.{no_branch}
use tsrkit_pvm.Cpvm.Machine.{CyTableEntry, GetProps, InstrFn, no_props}

unfoldable pub get_props : GetProps
get_props counter p skip_index = no_props

unfoldable pub trap : InstrFn
trap p counter props s = Outcome.raised (exit_with pvm_panic) s

unfoldable pub fallthrough : InstrFn
fallthrough p counter props s = Outcome.done no_branch s

unfoldable pub table : List (ℕ × CyTableEntry)
unfolding trap fallthrough
table =
    (0, record { fn = trap; gas_cost = 1; is_terminating = true })
    ∷ (1, record { fn = fallthrough; gas_cost = 1; is_terminating = true })
    ∷ []
