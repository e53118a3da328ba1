-- ===== src/Cpvm/Tables/IRegIImmIOffset.antt =====
-- tsrkit_pvm/cpvm/instructions/tables/i_reg_i_imm_i_offset.pyx: `InstructionsWArgs1Reg1Imm1Offset`.
use tsrkit_pvm.Prelude.{
  ℕ, ◌+◌, ◌/◌, ◌%◌, Bool, true, not, List, [], ◌∷◌, ltb, leb, ◌==◌, if◌then◌else◌, ltb_ℤ, leb_ℤ,
  sub_ℕ,
}
use tsrkit_pvm.Cpvm.Words.{as_unsigned, uint64}
use tsrkit_pvm.Cpvm.Utils.{clamp_12, clamp_4, clamp_4_max0, z}
use tsrkit_pvm.Cpvm.Program
use tsrkit_pvm.Cpvm.Machine.{
  CyTableEntry, GetProps, InstrFn, no_props, at, put, zeta_at, gather, immediate,
}

-- A length of 0 leaves `vx` at 0 and `vy` at the counter.
unfoldable pub get_props : GetProps
unfolding clamp_12 clamp_4 clamp_4_max0 immediate gather z as_unsigned
get_props counter p skip_index =
    let byte_val = zeta_at p (counter + 1) in
    let lx = clamp_4 (byte_val / 16 % 8) in
    let ly = clamp_4_max0 (sub_ℕ skip_index (lx + 1)) in
    let start_y = counter + 2 + lx in
    record no_props {
      vx = (if ltb 0 lx then immediate p (counter + 2) lx else 0);
      vy =
          if ltb 0 ly
          then uint64 (counter + as_unsigned 64 (z (gather 64 p start_y ly) ly))
          else counter;
      ra = clamp_12 (byte_val % 16);
    }

unfoldable pub load_imm_jump : InstrFn
unfolding put Program.branch
load_imm_jump p counter props s = Program.branch p counter props.vy true (put props.ra props.vx s)

-- The body that the branches share, with the test on registers[ra] and the immediate.
unfoldable pub branch_imm : (ℕ → ℕ → Bool) → InstrFn
unfolding Program.branch
branch_imm test p counter props s =
    Program.branch p counter props.vy (test (at s props.ra) props.vx) s

abbrev entry : (ℕ → ℕ → Bool) → CyTableEntry
entry test = record { fn = branch_imm test; gas_cost = 1; is_terminating = true }

unfoldable pub table : List (ℕ × CyTableEntry)
unfolding z
table =
    (80, record { fn = load_imm_jump; gas_cost = 1; is_terminating = true })
    ∷ (81, entry (λ a x. a == x))
    ∷ (82, entry (λ a x. not (a == x)))
    ∷ (83, entry (λ a x. ltb a x))
    ∷ (84, entry (λ a x. leb a x))
    ∷ (85, entry (λ a x. leb x a))
    ∷ (86, entry (λ a x. ltb x a))
    ∷ (87, entry (λ a x. ltb_ℤ (z a 8) (z x 8)))
    ∷ (88, entry (λ a x. leb_ℤ (z a 8) (z x 8)))
    ∷ (89, entry (λ a x. leb_ℤ (z x 8) (z a 8)))
    ∷ (90, entry (λ a x. ltb_ℤ (z x 8) (z a 8)))
    ∷ []
