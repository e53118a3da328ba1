-- ===== src/Instructions/Tables/IImm.antt =====
-- tsrkit_pvm/interpreter/instructions/tables/i_imm.py: `InstructionsWArgs1Imm`.
use tsrkit_pvm.Prelude.{ℕ, ◌+◌, false, List, [], ◌∷◌, Option, some, pure}
use tsrkit_pvm.Common.Status.{ExecutionStatus}
use tsrkit_pvm.Common.Utils.{clamp_4, chi}
use tsrkit_pvm.Instructions.Machine.{Table, OpCode, Exec, bytes_at, from_bytes}

-- `lx`, `vx`.
abbrev pub Props : Type 0
Props = ℕ × ℕ

unfoldable pub get_props : Table → Option Props
unfolding bytes_at clamp_4 from_bytes chi
get_props self =
    let lx = clamp_4 self.skip_index in some (lx, chi (from_bytes (bytes_at self 1 lx)) lx)

unfoldable pub ecalli : Table → Props → Exec
ecalli self (lx, vx) = pure (ExecutionStatus.host vx, self.counter + self.skip_index + 1)

unfoldable pub table : List (ℕ × OpCode Props)
table = (10, record { fn = ecalli; gas = 1; is_terminating = false }) ∷ []
