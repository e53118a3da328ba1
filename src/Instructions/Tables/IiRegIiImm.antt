-- ===== src/Instructions/Tables/IiRegIiImm.antt =====
-- tsrkit_pvm/interpreter/instructions/tables/ii_reg_ii_imm.py: `InstructionsWArgs2Reg2Imm`.
use tsrkit_pvm.Prelude.{
  ℕ, ◌+◌, ◌/◌, ◌%◌, ◌^◌, true, List, [], ◌∷◌, Option, none, some, ltb, if◌then◌else◌, slice, take,
  sub_ℕ, ◌>>=◌, ◌>>◌,
}
use tsrkit_pvm.Common.Utils.{clamp_12, clamp_4, clamp_4_max0, chi}
use tsrkit_pvm.Interpreter.Program
use tsrkit_pvm.Instructions.Machine.{Table, OpCode, Exec, reg, set_reg, bytes_at, from_bytes}

-- `ra`, `rb`, `lx`, `ly`, `vx`, `vy`.
abbrev pub Props : Type 0
Props = ℕ × ℕ × ℕ × ℕ × ℕ × ℕ

-- On `zeta_slice`, the nine bytes after the opcode.
unfoldable pub decode : Table → List ℕ → Option Props
unfolding clamp_12 clamp_4 clamp_4_max0 from_bytes chi
decode self (byte_val1 ∷ byte_val2 ∷ rest) =
    let lx = clamp_4 (byte_val2 % 8) in
    let ly = clamp_4_max0 (sub_ℕ self.skip_index (lx + 2)) in
    some (
      clamp_12 (byte_val1 % 16),
      clamp_12 (byte_val1 / 16),
      lx,
      ly,
      (if ltb 0 lx then chi (from_bytes (take lx rest)) lx else 0),
      (if ltb 0 ly then chi (from_bytes (slice rest lx ly)) ly else 0),
    )
decode self _ = none

unfoldable pub get_props : Table → Option Props
unfolding bytes_at decode
get_props self = decode self (bytes_at self 1 9)

-- registers[rb] is read before registers[ra] is written: they may be one register.
unfoldable pub load_imm_jump_ind : Table → Props → Exec
unfolding reg set_reg Program.djump
load_imm_jump_ind self (ra, rb, lx, ly, vx, vy) = do
  wb ← reg rb
  set_reg ra vx
  Program.djump self.program self.counter ((wb + vy) % 2 ^ 32)

unfoldable pub table : List (ℕ × OpCode Props)
table = (180, record { fn = load_imm_jump_ind; gas = 1; is_terminating = true }) ∷ []
