-- ===== src/Instructions/Tables/IiImm.antt =====
-- tsrkit_pvm/interpreter/instructions/tables/ii_imm.py: `InstructionsWArgs2Imm`.
use tsrkit_pvm.Prelude.{ℕ, ◌+◌, ◌/◌, ◌%◌, ◌^◌, false, List, [], ◌∷◌, Option, sub_ℕ, ◌>>◌}
use tsrkit_pvm.Common.Utils.{clamp_4, clamp_4_max0, chi}
use tsrkit_pvm.Interpreter.Memory
use tsrkit_pvm.Interpreter.Memory.{Memory}
use tsrkit_pvm.Instructions.Machine.{
  Table, OpCode, Exec, next, byte_at, bytes_at, on_memory, from_bytes, to_bytes,
}
use mathlib.Core.Option

-- `lx`, `ly`, `vx`, `vy`.
abbrev pub Props : Type 0
Props = ℕ × ℕ × ℕ × ℕ

unfoldable pub decode : Table → ℕ → Props
unfolding bytes_at clamp_4 clamp_4_max0 from_bytes chi
decode self first =
    let lx = clamp_4 first in
    let ly = clamp_4_max0 (sub_ℕ self.skip_index (lx + 1)) in
    (
      lx,
      ly,
      chi (from_bytes (bytes_at self 2 lx)) lx,
      chi (from_bytes (bytes_at self (2 + lx) ly)) ly,
    )

unfoldable pub get_props : Table → Option Props
unfolding byte_at decode
get_props self = Option.map (decode self) (byte_at self 1)

unfoldable pub store_imm : ℕ → Table → Props → Exec
unfolding next to_bytes Memory.write
store_imm bit_size self (lx, ly, vx, vy) = do
  on_memory (Memory.write vx (to_bytes (vy % 2 ^ bit_size) (bit_size / 8)))
  next self

abbrev opcode : ℕ → OpCode Props
opcode bit_size = record { fn = store_imm bit_size; gas = 1; is_terminating = false }

unfoldable pub table : List (ℕ × OpCode Props)
table = (30, opcode 8) ∷ (31, opcode 16) ∷ (32, opcode 32) ∷ (33, opcode 64) ∷ []
