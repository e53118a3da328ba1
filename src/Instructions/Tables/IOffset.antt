-- ===== src/Instructions/Tables/IOffset.antt =====
-- tsrkit_pvm/interpreter/instructions/tables/i_offset.py: `WArgsOneOffset`.
use tsrkit_pvm.Prelude.{ℕ, true, List, [], ◌∷◌, Option, some, ℤ, pos, ◌+ℤ◌}
use tsrkit_pvm.Common.Utils.{clamp_4, z}
use tsrkit_pvm.Instructions.Machine.{Table, OpCode, Exec, bytes_at, from_bytes, take_branch}

-- `lx`, `vx`. A target may be negative.
abbrev pub Props : Type 0
Props = ℕ × ℤ

unfoldable pub get_props : Table → Option Props
unfolding bytes_at clamp_4 from_bytes z
get_props self =
    let lx = clamp_4 self.skip_index in
    some (lx, pos self.counter +ℤ z (from_bytes (bytes_at self 1 lx)) lx)

unfoldable pub jump : Table → Props → Exec
unfolding take_branch
jump self (lx, vx) = take_branch self vx true

unfoldable pub table : List (ℕ × OpCode Props)
table = (40, record { fn = jump; gas = 1; is_terminating = true }) ∷ []
