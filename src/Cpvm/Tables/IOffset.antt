-- ===== src/Cpvm/Tables/IOffset.antt =====
-- tsrkit_pvm/cpvm/instructions/tables/i_offset.pyx: `CyWArgsOneOffset`.
use tsrkit_pvm.Prelude.{ℕ, ◌+◌, true, List, [], ◌∷◌}
use tsrkit_pvm.Cpvm.Utils.{clamp_4}
use tsrkit_pvm.Cpvm.Program
use tsrkit_pvm.Cpvm.Machine.{CyTableEntry, GetProps, InstrFn, no_props, offset_of}

unfoldable pub get_props : GetProps
unfolding clamp_4 offset_of
get_props counter p skip_index = record no_props {
  vx = offset_of p counter (counter + 1) (clamp_4 skip_index);
}

unfoldable pub jump : InstrFn
unfolding Program.branch
jump p counter props = Program.branch p counter props.vx true

unfoldable pub table : List (ℕ × CyTableEntry)
table = (40, record { fn = jump; gas_cost = 1; is_terminating = true }) ∷ []
