-- ===== src/Instructions/Tables/IRegIImm.antt =====
-- tsrkit_pvm/interpreter/instructions/tables/i_reg_i_imm.py: `InstructionsWArgs1Reg1Imm`.
use tsrkit_pvm.Prelude.{
  ℕ, ◌+◌, ◌-◌, ◌/◌, ◌%◌, ◌^◌, true, false, List, [], ◌∷◌, Option, none, some, take, ◌>>=◌, ◌>>◌,
}
use tsrkit_pvm.Common.Utils.{clamp_12, clamp_4, chi}
use tsrkit_pvm.Interpreter.Memory
use tsrkit_pvm.Interpreter.Memory.{Memory}
use tsrkit_pvm.Interpreter.Program
use tsrkit_pvm.Instructions.Machine.{
  Table, OpCode, Exec, reg, set_reg, next, bytes_at, on_memory, from_bytes, to_bytes,
}

-- `ra`, `lx`, `vx`.
abbrev pub Props : Type 0
Props = ℕ × ℕ × ℕ

unfoldable pub decode : ℕ → List ℕ → Option Props
unfolding clamp_12 from_bytes chi
decode lx [] = none
decode lx (x ∷ xs) = some (clamp_12 (x % 16), lx, chi (from_bytes (take 8 xs)) lx)

-- `max(0, self.skip_index - 1)`.
unfoldable pub get_props : Table → Option Props
unfolding bytes_at clamp_4 decode
get_props self = let lx = clamp_4 (self.skip_index - 1) in decode lx (bytes_at self 1 (1 + lx))

unfoldable pub jump_ind : Table → Props → Exec
unfolding reg Program.djump
jump_ind self (ra, lx, vx) = do
  a ← reg ra
  Program.djump self.program self.counter ((a + vx) % 2 ^ 32)

unfoldable pub load_imm : Table → Props → Exec
unfolding set_reg next
load_imm self (ra, lx, vx) = do set_reg ra vx; next self

unfoldable pub load_u : ℕ → Table → Props → Exec
unfolding set_reg next from_bytes Memory.read
load_u bitsize self (ra, lx, vx) = do
  bytes ← on_memory (Memory.read vx (bitsize / 8))
  set_reg ra (from_bytes bytes)
  next self

unfoldable pub store_u : ℕ → Table → Props → Exec
unfolding reg next to_bytes Memory.write
store_u bitsize self (ra, lx, vx) = do
  a ← reg ra
  on_memory (Memory.write vx (to_bytes (a % 2 ^ bitsize) (bitsize / 8)))
  next self

unfoldable pub load_i : ℕ → Table → Props → Exec
unfolding set_reg next from_bytes chi Memory.read
load_i bitsize self (ra, lx, vx) = do
  bytes ← on_memory (Memory.read vx (bitsize / 8))
  set_reg ra (chi (from_bytes bytes) (bitsize / 8))
  next self

abbrev opcode : (Table → Props → Exec) → OpCode Props
opcode fn = record { fn = fn; gas = 1; is_terminating = false }

unfoldable pub table : List (ℕ × OpCode Props)
table =
    (50, record { fn = jump_ind; gas = 1; is_terminating = true })
    ∷ (51, opcode load_imm)
    ∷ (52, opcode (load_u 8))
    ∷ (53, opcode (load_i 8))
    ∷ (54, opcode (load_u 16))
    ∷ (55, opcode (load_i 16))
    ∷ (56, opcode (load_u 32))
    ∷ (57, opcode (load_i 32))
    ∷ (58, opcode (load_u 64))
    ∷ (59, opcode (store_u 8))
    ∷ (60, opcode (store_u 16))
    ∷ (61, opcode (store_u 32))
    ∷ (62, opcode (store_u 64))
    ∷ []
