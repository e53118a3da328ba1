-- ===== src/Instructions/Tables/IiRegIImm.antt =====
-- tsrkit_pvm/interpreter/instructions/tables/ii_reg_i_imm.py: `InstructionsWArgs2Reg1Imm`.
pub mod Values
use tsrkit_pvm.Prelude.{
  ℕ, ◌+◌, ◌-◌, ◌*◌, ◌/◌, ◌%◌, ◌^◌, Bool, true, false, not, List, [], ◌∷◌, Option, none, some, ◌==◌,
  ltb, leb, if◌then◌else◌, bit, length, get_elem?, slice, take, drop, reverse, ℤ, pos, sub_ℕ, mod_ℤ,
  ◌+ℤ◌, ltb_ℤ, div_ℤ, M, Outcome, pure, raise, ◌>>=◌, ◌>>◌, panic, overflow_error, min, map, range,
  get_or,
}
use tsrkit_pvm.Common.Constants.{Accessibility}
use tsrkit_pvm.Common.Status.{ExecutionStatus}
use tsrkit_pvm.Common.Utils.{
  clamp_12, clamp_4, clamp_4_max0, chi, z, z_inv, b, b_inv, BitOp, CompareOp, compare,
  compare_bits_vectorized,
}
use tsrkit_pvm.Interpreter.Memory
use tsrkit_pvm.Interpreter.Memory.{Memory}
use tsrkit_pvm.Interpreter.Program
use tsrkit_pvm.Instructions.Machine.{
  Table, Machine, OpCode, Exec, reg, set_reg, next, byte_at, bytes_at, on_memory, from_bytes,
  to_bytes, take_branch,
}
use Values

-- `ra`, `rb`, `lx`, `vx`.
abbrev pub Props : Type 0
Props = ℕ × ℕ × ℕ × ℕ

-- On `zeta_slice`, the seven bytes after the opcode.
unfoldable pub decode : Table → List ℕ → Option Props
unfolding clamp_12 clamp_4_max0 from_bytes chi
decode self [] = none
decode self (byte_val ∷ rest) =
    let lx = clamp_4_max0 (sub_ℕ self.skip_index 1) in
    some (
      clamp_12 (byte_val % 16),
      clamp_12 (byte_val / 16),
      lx,
      (if ltb 0 lx then chi (from_bytes (take lx rest)) lx else 0),
    )

unfoldable pub get_props : Table → Option Props
unfolding bytes_at decode
get_props self = decode self (bytes_at self 1 7)

-- The body that the methods share: registers[ra] = f(registers[rb], vx).
unfoldable pub stores : (ℕ → ℕ → ℕ) → Table → Props → Exec
unfolding reg set_reg next
stores f self (ra, rb, lx, vx) = do w ← reg rb; set_reg ra (f w vx); next self

unfoldable pub cmov_imm : (ℕ → Bool) → Table → Props → Exec
unfolding reg set_reg next
cmov_imm test self (ra, rb, lx, vx) = do
  w ← reg rb
  (if test w then set_reg ra vx else pure tt)
  next self

unfoldable pub cmov_iz_imm : Table → Props → Exec
unfolding cmov_imm
cmov_iz_imm = cmov_imm (λ w. w == 0)

unfoldable pub cmov_nz_imm : Table → Props → Exec
unfolding cmov_imm
cmov_nz_imm = cmov_imm (λ w. not (w == 0))

-- `memory.write(registers[rb] + vx, …)`: registers[rb] is read first.
unfoldable pub store_ind : ℕ → Table → Props → Exec
unfolding reg next to_bytes Memory.write
store_ind bitsize self (ra, rb, lx, vx) = do
  w ← reg rb
  a ← reg ra
  on_memory (Memory.write (w + vx) (to_bytes (a % 2 ^ bitsize) (bitsize / 8)))
  next self

unfoldable pub load_ind : ℕ → Bool → Table → Props → Exec
unfolding reg set_reg next from_bytes Memory.read
load_ind bitsize is_signed self (ra, rb, lx, vx) = do
  w ← reg rb
  bytes ← on_memory (Memory.read (w + vx) (bitsize / 8))
  set_reg ra (Values.load_value is_signed bitsize (from_bytes bytes))
  next self

abbrev opcode : (Table → Props → Exec) → OpCode Props
opcode fn = record { fn = fn; gas = 1; is_terminating = false }

unfoldable pub table : List (ℕ × OpCode Props)
table =
    (120, opcode (store_ind 8))
    ∷ (121, opcode (store_ind 16))
    ∷ (122, opcode (store_ind 32))
    ∷ (123, opcode (store_ind 64))
    ∷ (124, opcode (load_ind 8 false))
    ∷ (125, opcode (load_ind 8 true))
    ∷ (126, opcode (load_ind 16 false))
    ∷ (127, opcode (load_ind 16 true))
    ∷ (128, opcode (load_ind 32 false))
    ∷ (129, opcode (load_ind 32 true))
    ∷ (130, opcode (load_ind 64 false))
    ∷ (131, opcode (stores (Values.add_imm 32)))
    ∷ (132, opcode (stores (Values.op_imm BitOp.and)))
    ∷ (133, opcode (stores (Values.op_imm BitOp.xor)))
    ∷ (134, opcode (stores (Values.op_imm BitOp.or)))
    ∷ (135, opcode (stores (Values.mul_imm 32)))
    ∷ (136, opcode (stores Values.set_lt_u_imm))
    ∷ (137, opcode (stores Values.set_lt_s_imm))
    ∷ (138, opcode (stores (Values.shlo_l_imm 32 false)))
    ∷ (139, opcode (stores (Values.shlo_r_imm 32 false)))
    ∷ (140, opcode (stores (Values.shar_r_imm 32 false)))
    ∷ (141, opcode (stores (Values.neg_add_imm 32)))
    ∷ (142, opcode (stores Values.set_gt_u_imm))
    ∷ (143, opcode (stores Values.set_gt_s_imm))
    ∷ (144, opcode (stores (Values.shlo_l_imm 32 true)))
    ∷ (145, opcode (stores (Values.shlo_r_imm 32 true)))
    ∷ (146, opcode (stores (Values.shar_r_imm 32 true)))
    ∷ (147, opcode cmov_iz_imm)
    ∷ (148, opcode cmov_nz_imm)
    ∷ (149, opcode (stores (Values.add_imm 64)))
    ∷ (150, opcode (stores (Values.mul_imm 64)))
    ∷ (151, opcode (stores (Values.shlo_l_imm 64 false)))
    ∷ (152, opcode (stores (Values.shlo_r_imm 64 false)))
    ∷ (153, opcode (stores (Values.shar_r_imm 64 false)))
    ∷ (154, opcode (stores (Values.neg_add_imm 64)))
    ∷ (155, opcode (stores (Values.shlo_l_imm 64 true)))
    ∷ (156, opcode (stores (Values.shlo_r_imm 64 true)))
    ∷ (157, opcode (stores (Values.shar_r_imm 64 true)))
    ∷ (158, opcode (stores (Values.rot_imm 64 false)))
    ∷ (159, opcode (stores (Values.rot_imm 64 true)))
    ∷ (160, opcode (stores (Values.rot_imm 32 false)))
    ∷ (161, opcode (stores (Values.rot_imm 32 true)))
    ∷ []
