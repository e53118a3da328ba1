-- ===== src/Cpvm/Tables/IiImm.antt =====
-- tsrkit_pvm/cpvm/instructions/tables/ii_imm.pyx: `CyInstructionsWArgs2Imm`.
use tsrkit_pvm.Prelude.{ℕ, ◌+◌, ◌/◌, ◌%◌, ◌^◌, false, List, [], ◌∷◌, sub_ℕ}
use tsrkit_pvm.Instructions.Machine.{to_bytes}
use tsrkit_pvm.Cpvm.Words.{uint32}
use tsrkit_pvm.Cpvm.Utils.{clamp_4, clamp_4_max0}
use tsrkit_pvm.Cpvm.Machine.{CyTableEntry, GetProps, InstrFn, no_props, writes, zeta_at, immediate}

unfoldable pub get_props : GetProps
unfolding clamp_4 clamp_4_max0 immediate
get_props counter p skip_index =
    let lx = clamp_4 (zeta_at p (counter + 1)) in
    let ly = clamp_4_max0 (sub_ℕ skip_index (lx + 1)) in
    record no_props { vx = immediate p (counter + 2) lx; vy = immediate p (counter + 2 + lx) ly }

unfoldable pub store_imm : ℕ → InstrFn
unfolding writes to_bytes
store_imm bitsize p counter props =
    writes (uint32 props.vx) (to_bytes (props.vy % 2 ^ bitsize) (bitsize / 8))

abbrev entry : InstrFn → CyTableEntry
entry fn = record { fn = fn; gas_cost = 1; is_terminating = false }

unfoldable pub table : List (ℕ × CyTableEntry)
table =
    (30, entry (store_imm 8))
    ∷ (31, entry (store_imm 16))
    ∷ (32, entry (store_imm 32))
    ∷ (33, entry (store_imm 64))
    ∷ []
