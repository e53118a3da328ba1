-- ===== src/Cpvm/Tables/IRegIiImm.antt =====
-- tsrkit_pvm/cpvm/instructions/tables/i_reg_ii_imm.pyx: `CyInstructionsWArgs1Reg2Imm`.
use tsrkit_pvm.Prelude.{ℕ, ◌+◌, ◌/◌, ◌%◌, ◌^◌, false, List, [], ◌∷◌, ltb, if◌then◌else◌, sub_ℕ}
use tsrkit_pvm.Instructions.Machine.{to_bytes}
use tsrkit_pvm.Cpvm.Words.{uint64}
use tsrkit_pvm.Cpvm.Utils.{clamp_12, clamp_4, clamp_4_max0}
use tsrkit_pvm.Cpvm.Machine.{
  CyTableEntry, GetProps, InstrFn, no_props, at, writes, zeta_at, immediate,
}

unfoldable pub get_props : GetProps
unfolding clamp_12 clamp_4 clamp_4_max0 immediate
get_props counter p skip_index =
    let byte_val = zeta_at p (counter + 1) in
    let lx = clamp_4 (byte_val / 16 % 8) in
    let ly = clamp_4_max0 (sub_ℕ skip_index (lx + 1)) in
    record no_props {
      vx = (if ltb 0 lx then immediate p (counter + 2) lx else 0);
      vy = (if ltb 0 ly then immediate p (counter + 2 + lx) ly else 0);
      ra = clamp_12 (byte_val % 16);
    }

unfoldable pub store_imm_ind : ℕ → InstrFn
unfolding writes to_bytes
store_imm_ind bitsize p counter props s =
    writes (uint64 (at s props.ra + props.vx)) (to_bytes (props.vy % 2 ^ bitsize) (bitsize / 8)) s

abbrev entry : InstrFn → CyTableEntry
entry fn = record { fn = fn; gas_cost = 1; is_terminating = false }

unfoldable pub table : List (ℕ × CyTableEntry)
table =
    (70, entry (store_imm_ind 8))
    ∷ (71, entry (store_imm_ind 16))
    ∷ (72, entry (store_imm_ind 32))
    ∷ (73, entry (store_imm_ind 64))
    ∷ []
