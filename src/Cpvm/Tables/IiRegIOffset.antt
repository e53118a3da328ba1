-- ===== src/Cpvm/Tables/IiRegIOffset.antt =====
-- tsrkit_pvm/cpvm/instructions/tables/ii_reg_i_offset.pyx: `CyInstructionsWArgs2Reg1Offset`.
use tsrkit_pvm.Prelude.{
  ℕ, ◌+◌, ◌/◌, ◌%◌, Bool, true, not, List, [], ◌∷◌, ltb, leb, ◌==◌, if◌then◌else◌, ltb_ℤ, leb_ℤ,
  sub_ℕ,
}
use tsrkit_pvm.Cpvm.Words.{as_signed}
use tsrkit_pvm.Cpvm.Utils.{clamp_12, clamp_4_max0}
use tsrkit_pvm.Cpvm.Program
use tsrkit_pvm.Cpvm.Machine.{CyTableEntry, GetProps, InstrFn, no_props, at, zeta_at, offset_of}

-- The cast of `skip_index - 1` to `int8_t` gives -1 at 0.
unfoldable pub get_props : GetProps
unfolding clamp_12 clamp_4_max0 offset_of
get_props counter p skip_index =
    let byte_val = zeta_at p (counter + 1) in
    let lx = clamp_4_max0 (sub_ℕ skip_index 1) in
    record no_props {
      vx = (if ltb 0 lx then offset_of p counter (counter + 2) lx else counter);
      ra = clamp_12 (byte_val % 16);
      rb = clamp_12 (byte_val / 16);
    }

-- The body that the branches share, with the test on the two registers.
unfoldable pub branch_if : (ℕ → ℕ → Bool) → InstrFn
unfolding Program.branch
branch_if test p counter props s =
    Program.branch p counter props.vx (test (at s props.ra) (at s props.rb)) s

abbrev entry : (ℕ → ℕ → Bool) → CyTableEntry
entry test = record { fn = branch_if test; gas_cost = 1; is_terminating = true }

unfoldable pub table : List (ℕ × CyTableEntry)
unfolding as_signed
table =
    (170, entry (λ a c. a == c))
    ∷ (171, entry (λ a c. not (a == c)))
    ∷ (172, entry (λ a c. ltb a c))
    ∷ (173, entry (λ a c. ltb_ℤ (as_signed 64 a) (as_signed 64 c)))
    ∷ (174, entry (λ a c. leb c a))
    ∷ (175, entry (λ a c. leb_ℤ (as_signed 64 c) (as_signed 64 a)))
    ∷ []
