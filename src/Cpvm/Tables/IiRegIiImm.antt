-- ===== src/Cpvm/Tables/IiRegIiImm.antt =====
-- tsrkit_pvm/cpvm/instructions/tables/ii_reg_ii_imm.pyx: `CyInstructionsWArgs2Reg2Imm`.
use tsrkit_pvm.Prelude.{ℕ, ◌+◌, ◌/◌, ◌%◌, ◌^◌, true, List, [], ◌∷◌, ltb, if◌then◌else◌, sub_ℕ}
use tsrkit_pvm.Cpvm.Words.{uint64}
use tsrkit_pvm.Cpvm.Utils.{clamp_12, clamp_4, clamp_4_max0}
use tsrkit_pvm.Cpvm.Program
use tsrkit_pvm.Cpvm.Machine.{CyTableEntry, GetProps, InstrFn, no_props, at, put, zeta_at, immediate}

-- The length `ly` that the second byte gives is replaced at once.
unfoldable pub get_props : GetProps
unfolding clamp_12 clamp_4 clamp_4_max0 immediate
get_props counter p skip_index =
    let byte1_val = zeta_at p (counter + 1) in
    let lx = clamp_4 (zeta_at p (counter + 2) % 8) in
    let ly = clamp_4_max0 (sub_ℕ skip_index (lx + 2)) in
    record no_props {
      vx = (if ltb 0 lx then immediate p (counter + 3) lx else 0);
      vy = (if ltb 0 ly then immediate p (counter + 3 + lx) ly else 0);
      ra = clamp_12 (byte1_val % 16);
      rb = clamp_12 (byte1_val / 16 % 16);
    }

unfoldable pub load_imm_jump_ind : InstrFn
unfolding put Program.djump
load_imm_jump_ind p counter props s =
    Program.djump p counter (uint64 (at s props.rb + props.vy) % 2 ^ 32) (put props.ra props.vx s)

unfoldable pub table : List (ℕ × CyTableEntry)
table = (180, record { fn = load_imm_jump_ind; gas_cost = 1; is_terminating = true }) ∷ []
