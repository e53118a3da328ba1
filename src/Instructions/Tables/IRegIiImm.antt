-- ===== src/Instructions/Tables/IRegIiImm.antt =====
-- tsrkit_pvm/interpreter/instructions/tables/i_reg_ii_imm.py: `InstructionsWArgs1Reg2Imm`.
use tsrkit_pvm.Prelude.{ℕ, ◌+◌, ◌/◌, ◌%◌, ◌^◌, false, List, [], ◌∷◌, Option, sub_ℕ, ◌>>=◌, ◌>>◌}
use tsrkit_pvm.Common.Utils.{clamp_12, clamp_4, clamp_4_max0, chi}
use tsrkit_pvm.Interpreter.Memory
use tsrkit_pvm.Interpreter.Memory.{Memory}
use tsrkit_pvm.Instructions.Machine.{
  Table, OpCode, Exec, reg, next, byte_at, bytes_at, on_memory, from_bytes, to_bytes,
}
use mathlib.Core.Option

-- `ra`, `lx`, `ly`, `vx`, `vy`.
abbrev pub Props : Type 0
Props = ℕ × ℕ × ℕ × ℕ × ℕ

unfoldable pub decode : Table → ℕ → Props
unfolding bytes_at clamp_12 clamp_4 clamp_4_max0 from_bytes chi
decode self byte_val =
    let lx = clamp_4 (byte_val / 16 % 8) in
    let ly = clamp_4_max0 (sub_ℕ self.skip_index (lx + 1)) in
    (
      clamp_12 (byte_val % 16),
      lx,
      ly,
      chi (from_bytes (bytes_at self 2 lx)) lx,
      chi (from_bytes (bytes_at self (2 + lx) ly)) ly,
    )

unfoldable pub get_props : Table → Option Props
unfolding byte_at decode
get_props self = Option.map (decode self) (byte_at self 1)

unfoldable pub store_imm_ind_u : ℕ → Table → Props → Exec
unfolding reg next to_bytes Memory.write
store_imm_ind_u bitsize self (ra, lx, ly, vx, vy) = do
  a ← reg ra
  on_memory (Memory.write (a + vx) (to_bytes (vy % 2 ^ bitsize) (bitsize / 8)))
  next self

abbrev opcode : ℕ → OpCode Props
opcode bitsize = record { fn = store_imm_ind_u bitsize; gas = 1; is_terminating = false }

unfoldable pub table : List (ℕ × OpCode Props)
table = (70, opcode 8) ∷ (71, opcode 16) ∷ (72, opcode 32) ∷ (73, opcode 64) ∷ []
