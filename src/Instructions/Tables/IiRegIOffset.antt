-- ===== src/Instructions/Tables/IiRegIOffset.antt =====
-- tsrkit_pvm/interpreter/instructions/tables/ii_reg_i_offset.py: `InstructionsWArgs2Reg1Offset`.
use tsrkit_pvm.Prelude.{
  ℕ, ◌/◌, ◌%◌, Bool, true, false, List, [], ◌∷◌, Option, none, some, ltb, if◌then◌else◌, take, ℤ,
  pos, sub_ℕ, ◌+ℤ◌, ◌>>=◌,
}
use tsrkit_pvm.Common.Utils.{clamp_12, clamp_4_max0, z, CompareOp, compare}
use tsrkit_pvm.Instructions.Machine.{Table, OpCode, Exec, reg, bytes_at, from_bytes, take_branch}

-- `ra`, `rb`, `lx`, `vx`.
abbrev pub Props : Type 0
Props = ℕ × ℕ × ℕ × ℤ

-- On `zeta_slice`, the six bytes after the opcode.
unfoldable pub decode : Table → List ℕ → Option Props
unfolding clamp_12 clamp_4_max0 from_bytes z
decode self [] = none
decode self (byte_val ∷ rest) =
    let lx = clamp_4_max0 (sub_ℕ self.skip_index 1) in
    some (
      clamp_12 (byte_val % 16),
      clamp_12 (byte_val / 16),
      lx,
      (if ltb 0 lx then pos self.counter +ℤ z (from_bytes (take lx rest)) lx else pos self.counter),
    )

unfoldable pub get_props : Table → Option Props
unfolding bytes_at decode
get_props self = decode self (bytes_at self 1 6)

unfoldable pub branch : CompareOp → Bool → Table → Props → Exec
unfolding reg take_branch compare z
branch op is_signed self (ra, rb, lx, vx) = do
  a ← reg ra
  c ← reg rb
  take_branch self vx
      (compare op (if is_signed then z a 8 else pos a) (if is_signed then z c 8 else pos c))

abbrev opcode : (Table → Props → Exec) → OpCode Props
opcode fn = record { fn = fn; gas = 1; is_terminating = true }

unfoldable pub table : List (ℕ × OpCode Props)
table =
    (170, opcode (branch CompareOp.eq false))
    ∷ (171, opcode (branch CompareOp.ne false))
    ∷ (172, opcode (branch CompareOp.lt false))
    ∷ (173, opcode (branch CompareOp.lt true))
    ∷ (174, opcode (branch CompareOp.ge false))
    ∷ (175, opcode (branch CompareOp.ge true))
    ∷ []
