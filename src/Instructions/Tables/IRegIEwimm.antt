-- ===== src/Instructions/Tables/IRegIEwimm.antt =====
-- tsrkit_pvm/interpreter/instructions/tables/i_reg_i_ewimm.py: `InstructionsWArgs1Imm1EwImm`.
use tsrkit_pvm.Prelude.{ℕ, ◌%◌, false, List, [], ◌∷◌, Option, none, some, take, ◌>>◌}
use tsrkit_pvm.Common.Utils.{clamp_12}
use tsrkit_pvm.Instructions.Machine.{Table, OpCode, Exec, set_reg, next, bytes_at, from_bytes}

-- `ra`, `vx`.
abbrev pub Props : Type 0
Props = ℕ × ℕ

unfoldable pub decode : List ℕ → Option Props
unfolding clamp_12 from_bytes
decode [] = none
decode (x ∷ xs) = some (clamp_12 (x % 16), from_bytes (take 8 xs))

unfoldable pub get_props : Table → Option Props
unfolding bytes_at decode
get_props self = decode (bytes_at self 1 9)

unfoldable pub load_imm_64 : Table → Props → Exec
unfolding set_reg next
load_imm_64 self (ra, vx) = do set_reg ra vx; next self

unfoldable pub table : List (ℕ × OpCode Props)
table = (20, record { fn = load_imm_64; gas = 1; is_terminating = false }) ∷ []
