-- ===== src/Cpvm/Tables/IiRegIImm.antt =====
-- tsrkit_pvm/cpvm/instructions/tables/ii_reg_i_imm.pyx: `CyInstructionsWArgs2Reg1Imm`. The file also
-- has a second copy of the logical operations of iii_reg.pyx, which its table does not name.
pub mod Values
pub mod Operations
use tsrkit_pvm.Prelude.{
  ℕ, ◌+◌, ◌/◌, ◌%◌, ◌^◌, Bool, false, not, List, [], ◌∷◌, ◌==◌, ltb, if◌then◌else◌, sub_ℕ, M,
  Outcome, ◌>>=◌, true,
}
use tsrkit_pvm.Cpvm.Words.{uint64, as_signed, as_unsigned}
use tsrkit_pvm.Cpvm.Utils.{clamp_12, clamp_4_max0, to_bytes_le, bytes_to_le}
use tsrkit_pvm.Cpvm.Memory
use tsrkit_pvm.Cpvm.Program.{no_branch}
use tsrkit_pvm.Cpvm.Machine.{
  CyMachine, CyTableEntry, GetProps, InstrFn, no_props, at, put, on_memory, writes, zeta_at,
  immediate,
}
use Values

-- The `int8_t` that `skip_index - 1` becomes is -1 at 0.
unfoldable pub get_props : GetProps
unfolding clamp_12 clamp_4_max0 immediate
get_props counter p skip_index =
    let byte_val = zeta_at p (counter + 1) in
    let lx = clamp_4_max0 (sub_ℕ skip_index 1) in
    record no_props {
      vx = (if ltb 0 lx then immediate p (counter + 2) lx else 0);
      ra = clamp_12 (byte_val % 16);
      rb = clamp_12 (byte_val / 16);
    }

unfoldable pub store_ind : ℕ → InstrFn
unfolding writes to_bytes_le
store_ind bitsize p counter props s =
    writes (uint64 (at s props.rb + props.vx))
      (to_bytes_le (bitsize / 8) (at s props.ra % 2 ^ bitsize) (bitsize / 8)) s

-- `<uint64_t>(<int8_t>value)` and its kin for the signed loads.
abbrev load_value : ℕ → Bool → ℕ → ℕ
load_value bitsize is_signed value =
    if is_signed then as_unsigned 64 (as_signed bitsize value) else value

unfoldable pub load_ind : ℕ → Bool → InstrFn
unfolding put Memory.read bytes_to_le as_unsigned as_signed
load_ind bitsize is_signed p counter props s =
    (on_memory (Memory.read (uint64 (at s props.rb + props.vx)) (bitsize / 8)) >>= λ bytes s'.
    Outcome.done no_branch
      (put props.ra (load_value bitsize is_signed (bytes_to_le (bitsize / 8) bytes)) s'))
      s

-- The body that the methods share: registers[ra] = f(registers[rb], vx).
unfoldable pub stores : (ℕ → ℕ → ℕ) → InstrFn
unfolding put
stores f p counter props s = Outcome.done no_branch (put props.ra (f (at s props.rb) props.vx) s)

-- Its form with the operands exchanged.
unfoldable pub stores_alt : (ℕ → ℕ → ℕ) → InstrFn
unfolding put
stores_alt f p counter props s =
    Outcome.done no_branch (put props.ra (f props.vx (at s props.rb)) s)

unfoldable pub cmov_imm : (ℕ → Bool) → InstrFn
unfolding put
cmov_imm test p counter props s =
    Outcome.done no_branch (if test (at s props.rb) then put props.ra props.vx s else s)

abbrev entry : InstrFn → CyTableEntry
entry fn = record { fn = fn; gas_cost = 1; is_terminating = false }

unfoldable pub table : List (ℕ × CyTableEntry)
table =
    (120, entry (store_ind 8))
    ∷ (121, entry (store_ind 16))
    ∷ (122, entry (store_ind 32))
    ∷ (123, entry (store_ind 64))
    ∷ (124, entry (load_ind 8 false))
    ∷ (125, entry (load_ind 8 true))
    ∷ (126, entry (load_ind 16 false))
    ∷ (127, entry (load_ind 16 true))
    ∷ (128, entry (load_ind 32 false))
    ∷ (129, entry (load_ind 32 true))
    ∷ (130, entry (load_ind 64 false))
    ∷ (131, entry (stores Values.add_imm_32))
    ∷ (132, entry (stores Values.and_imm))
    ∷ (133, entry (stores Values.xor_imm))
    ∷ (134, entry (stores Values.or_imm))
    ∷ (135, entry (stores Values.mul_imm_32))
    ∷ (136, entry (stores Values.set_lt_u_imm))
    ∷ (137, entry (stores Values.set_lt_s_imm))
    ∷ (138, entry (stores Values.shlo_l_32))
    ∷ (139, entry (stores Values.shlo_r_32))
    ∷ (140, entry (stores Values.shar_r_32))
    ∷ (141, entry (stores Values.neg_add_imm_32))
    ∷ (142, entry (stores Values.set_gt_u_imm))
    ∷ (143, entry (stores Values.set_gt_s_imm))
    ∷ (144, entry (stores_alt Values.shlo_l_32))
    ∷ (145, entry (stores_alt Values.shlo_r_32))
    ∷ (146, entry (stores_alt Values.shar_r_32))
    ∷ (147, entry (cmov_imm (λ w. w == 0)))
    ∷ (148, entry (cmov_imm (λ w. not (w == 0))))
    ∷ (149, entry (stores Values.add_imm_64))
    ∷ (150, entry (stores Values.mul_imm_64))
    ∷ (151, entry (stores Values.shlo_l_64))
    ∷ (152, entry (stores Values.shlo_r_64))
    ∷ (153, entry (stores Values.shar_r_64))
    ∷ (154, entry (stores Values.neg_add_imm_64))
    ∷ (155, entry (stores_alt Values.shlo_l_64))
    ∷ (156, entry (stores_alt Values.shlo_r_64))
    ∷ (157, entry (stores_alt Values.shar_r_64))
    ∷ (158, entry (stores Values.rot_r_64))
    ∷ (159, entry (stores_alt Values.rot_r_64))
    ∷ (160, entry (stores Values.rot_r_32))
    ∷ (161, entry (stores_alt Values.rot_r_32))
    ∷ []
