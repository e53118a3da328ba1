-- ===== src/Instructions/Tables/IRegIImmIOffset.antt =====
-- tsrkit_pvm/interpreter/instructions/tables/i_reg_i_imm_i_offset.py:
-- `InstructionsWArgs1Reg1Imm1Offset`.
use tsrkit_pvm.Prelude.{
  ℕ, ◌+◌, ◌/◌, ◌%◌, Bool, true, false, List, [], ◌∷◌, Option, none, some, ltb, if◌then◌else◌, slice,
  take, ℤ, pos, sub_ℕ, ◌+ℤ◌, ◌>>=◌, ◌>>◌,
}
use tsrkit_pvm.Common.Utils.{clamp_12, clamp_4, clamp_4_max0, chi, z, CompareOp, compare}
use tsrkit_pvm.Instructions.Machine.{
  Table, OpCode, Exec, reg, set_reg, bytes_at, from_bytes, take_branch,
}

-- `ra`, `lx`, `ly`, `vx`, `vy`.
abbrev pub Props : Type 0
Props = ℕ × ℕ × ℕ × ℕ × ℤ

-- On `zeta_slice`, the seven bytes after the opcode.
unfoldable pub decode : Table → List ℕ → Option Props
unfolding clamp_12 clamp_4 clamp_4_max0 from_bytes chi z
decode self [] = none
decode self (byte_val ∷ rest) =
    let lx = clamp_4 (byte_val / 16 % 8) in
    let ly = clamp_4_max0 (sub_ℕ self.skip_index (lx + 1)) in
    some (
      clamp_12 (byte_val % 16),
      lx,
      ly,
      (if ltb 0 lx then chi (from_bytes (take lx rest)) lx else 0),
      (if ltb 0 ly
          then pos self.counter +ℤ z (from_bytes (slice rest lx ly)) ly
          else pos self.counter),
    )

unfoldable pub get_props : Table → Option Props
unfolding bytes_at decode
get_props self = decode self (bytes_at self 1 7)

unfoldable pub load_imm_jump : Table → Props → Exec
unfolding set_reg take_branch
load_imm_jump self (ra, lx, ly, vx, vy) = do set_reg ra vx; take_branch self vy true

unfoldable pub branch_imm : CompareOp → Bool → Table → Props → Exec
unfolding reg take_branch compare z
branch_imm op is_signed self (ra, lx, ly, vx, vy) = do
  a ← reg ra
  take_branch self vy
      (compare op (if is_signed then z a 8 else pos a) (if is_signed then z vx 8 else pos vx))

abbrev opcode : (Table → Props → Exec) → OpCode Props
opcode fn = record { fn = fn; gas = 1; is_terminating = true }

unfoldable pub table : List (ℕ × OpCode Props)
table =
    (80, opcode load_imm_jump)
    ∷ (81, opcode (branch_imm CompareOp.eq false))
    ∷ (82, opcode (branch_imm CompareOp.ne false))
    ∷ (83, opcode (branch_imm CompareOp.lt false))
    ∷ (84, opcode (branch_imm CompareOp.le false))
    ∷ (85, opcode (branch_imm CompareOp.ge false))
    ∷ (86, opcode (branch_imm CompareOp.gt false))
    ∷ (87, opcode (branch_imm CompareOp.lt true))
    ∷ (88, opcode (branch_imm CompareOp.le true))
    ∷ (89, opcode (branch_imm CompareOp.ge true))
    ∷ (90, opcode (branch_imm CompareOp.gt true))
    ∷ []
