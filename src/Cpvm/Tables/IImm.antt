-- ===== src/Cpvm/Tables/IImm.antt =====
-- tsrkit_pvm/cpvm/instructions/tables/i_imm.pyx: `CyInstructionsWArgs1Imm`.
use tsrkit_pvm.Prelude.{
  ℕ, ◌+◌, ◌^◌, false, List, [], ◌∷◌, leb, if◌then◌else◌, Outcome, pvm_exit, overflow_error,
}
use tsrkit_pvm.Cpvm.Utils.{clamp_4}
use tsrkit_pvm.Cpvm.Status.{pvm_host}
use tsrkit_pvm.Cpvm.Machine.{CyTableEntry, GetProps, InstrFn, no_props, immediate}

unfoldable pub get_props : GetProps
unfolding clamp_4 immediate
get_props counter p skip_index = record no_props {
  vx = immediate p (counter + 1) (clamp_4 skip_index);
}

-- `PvmExit(PVM_HOST, vx)`: the register of a `PvmExit` is a `uint32_t`, and a number that is none
-- raises an OverflowError.
unfoldable pub ecalli : InstrFn
ecalli p counter props s =
    if leb (2 ^ 32) props.vx
    then Outcome.raised overflow_error s
    else Outcome.raised (pvm_exit pvm_host props.vx) s

unfoldable pub table : List (ℕ × CyTableEntry)
table = (10, record { fn = ecalli; gas_cost = 1; is_terminating = false }) ∷ []
