-- ===== src/Cpvm/Tables/IRegIEwimm.antt =====
-- tsrkit_pvm/cpvm/instructions/tables/i_reg_i_ewimm.pyx: `CyInstructionsWArgs1Reg1EwImm`.
use tsrkit_pvm.Prelude.{ℕ, ◌+◌, ◌%◌, false, List, [], ◌∷◌, Outcome}
use tsrkit_pvm.Cpvm.Utils.{clamp_12}
use tsrkit_pvm.Cpvm.Program.{no_branch}
use tsrkit_pvm.Cpvm.Machine.{CyTableEntry, GetProps, InstrFn, no_props, put, zeta_at, gather}

unfoldable pub get_props : GetProps
unfolding clamp_12 gather
get_props counter p skip_index = record no_props {
  vx = gather 64 p (counter + 2) 8;
  ra = clamp_12 (zeta_at p (counter + 1) % 16);
}

unfoldable pub load_imm_64 : InstrFn
unfolding put
load_imm_64 p counter props s = Outcome.done no_branch (put props.ra props.vx s)

unfoldable pub table : List (ℕ × CyTableEntry)
table = (20, record { fn = load_imm_64; gas_cost = 1; is_terminating = false }) ∷ []
