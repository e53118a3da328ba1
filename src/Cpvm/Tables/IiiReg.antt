-- ===== src/Cpvm/Tables/IiiReg.antt =====
-- tsrkit_pvm/cpvm/instructions/tables/iii_reg.pyx: `CyInstructionsWArgs3Reg`.
pub mod Values
pub mod Agree
pub mod Operations
pub mod Bounds
pub mod Laws
use tsrkit_pvm.Prelude.{
  ℕ, ◌+◌, ◌/◌, ◌%◌, Bool, false, List, [], ◌∷◌, ◌==◌, not, if◌then◌else◌, Outcome,
}
use tsrkit_pvm.Cpvm.Utils.{clamp_12}
use tsrkit_pvm.Cpvm.Program.{CyProgram, no_branch}
use tsrkit_pvm.Cpvm.Machine.{CyTableEntry, GetProps, InstrFn, InstructionProps, at, put, zeta_at}
use Values

unfoldable pub get_props : GetProps
unfolding clamp_12
get_props counter p skip_index = record {
  vx = 0;
  vy = 0;
  ra = clamp_12 (zeta_at p (counter + 1) % 16);
  rb = clamp_12 (zeta_at p (counter + 1) / 16);
  rd = clamp_12 (zeta_at p (counter + 2));
}

-- The body that the methods share: registers[rd] = f(registers[ra], registers[rb]).
unfoldable pub stores : (ℕ → ℕ → ℕ) → InstrFn
unfolding put
stores f p counter props s =
    Outcome.done no_branch (put props.rd (f (at s props.ra) (at s props.rb)) s)

unfoldable pub cmov : (ℕ → Bool) → InstrFn
unfolding put
cmov test p counter props s =
    Outcome.done no_branch (if test (at s props.rb) then put props.rd (at s props.ra) s else s)

unfoldable pub cmov_iz : InstrFn
unfolding cmov
cmov_iz = cmov (λ c. c == 0)

unfoldable pub cmov_nz : InstrFn
unfolding cmov
cmov_nz = cmov (λ c. not (c == 0))

abbrev entry_of : InstrFn → CyTableEntry
entry_of fn = record { fn = fn; gas_cost = 1; is_terminating = false }

abbrev entry : (ℕ → ℕ → ℕ) → CyTableEntry
entry f = entry_of (stores f)

unfoldable pub table : List (ℕ × CyTableEntry)
table =
    (190, entry Values.add_32)
    ∷ (191, entry Values.sub_32)
    ∷ (192, entry Values.mul_32)
    ∷ (193, entry Values.div_u_32)
    ∷ (194, entry Values.div_s_32)
    ∷ (195, entry Values.rem_u_32)
    ∷ (196, entry Values.rem_s_32)
    ∷ (197, entry Values.shlo_l_32)
    ∷ (198, entry Values.shlo_r_32)
    ∷ (199, entry Values.shar_r_32)
    ∷ (200, entry Values.add_64)
    ∷ (201, entry Values.sub_64)
    ∷ (202, entry Values.mul_64)
    ∷ (203, entry Values.div_u_64)
    ∷ (204, entry Values.div_s_64)
    ∷ (205, entry Values.rem_u_64)
    ∷ (206, entry Values.rem_s_64)
    ∷ (207, entry Values.shlo_l_64)
    ∷ (208, entry Values.shlo_r_64)
    ∷ (209, entry Values.shar_r_64)
    ∷ (210, entry Values.and_op)
    ∷ (211, entry Values.xor_op)
    ∷ (212, entry Values.or_op)
    ∷ (213, entry Values.mul_upper_s_s)
    ∷ (214, entry Values.mul_upper_u_u)
    ∷ (215, entry Values.mul_upper_s_u)
    ∷ (216, entry Values.set_lt_u)
    ∷ (217, entry Values.set_lt_s)
    ∷ (218, entry_of cmov_iz)
    ∷ (219, entry_of cmov_nz)
    ∷ (220, entry Values.rot_l_64)
    ∷ (221, entry Values.rot_l_32)
    ∷ (222, entry Values.rot_r_64)
    ∷ (223, entry Values.rot_r_32)
    ∷ (224, entry Values.and_inv)
    ∷ (225, entry Values.or_inv)
    ∷ (226, entry Values.xnor)
    ∷ (227, entry Values.max_op)
    ∷ (228, entry Values.max_u)
    ∷ (229, entry Values.min_op)
    ∷ (230, entry Values.min_u)
    ∷ []
