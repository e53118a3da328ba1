-- ===== src/Instructions/Tables/IiiReg.antt =====
-- tsrkit_pvm/interpreter/instructions/tables/iii_reg.py: `InstructionsWArgs3Reg`.
pub mod Values
pub mod Logic
use tsrkit_pvm.Prelude.{
  ℕ, ◌+◌, ◌/◌, ◌%◌, Bool, true, false, List, [], ◌∷◌, Option, none, some, ◌==◌, not, if◌then◌else◌,
  get_elem?, slice, M, Outcome, pure, ◌>>=◌, ◌>>◌,
}
use tsrkit_pvm.Common.Utils.{clamp_12, BitOp}
use tsrkit_pvm.Instructions.Machine.{Table, OpCode, Exec, reg, set_reg, next, bytes_at}
use Values

-- `ra`, `rb`, `rd`.
abbrev pub Props : Type 0
Props = ℕ × ℕ × ℕ

-- `none` is the IndexError of a slice that is too short.
unfoldable pub decode : List ℕ → Option Props
unfolding clamp_12
decode (byte_val ∷ second ∷ _) =
    some (clamp_12 (byte_val % 16), clamp_12 (byte_val / 16), clamp_12 second)
decode _ = none

unfoldable pub get_props : Table → Option Props
unfolding bytes_at decode
get_props self = decode (bytes_at self 1 2)

-- The body that the methods share: registers[rd] = f(registers[ra], registers[rb]).
unfoldable pub stores : (ℕ → ℕ → ℕ) → Table → Props → Exec
unfolding reg set_reg next
stores f self (ra, rb, rd) = do a ← reg ra; c ← reg rb; set_reg rd (f a c); next self

-- `cmov_iz` and `cmov_nz`: registers[ra] is read only if the test holds.
unfoldable pub cmov : (ℕ → Bool) → Table → Props → Exec
unfolding reg set_reg next
cmov test self (ra, rb, rd) = do
  c ← reg rb
  (if test c then reg ra >>= set_reg rd else pure tt)
  next self

unfoldable pub cmov_iz : Table → Props → Exec
unfolding cmov
cmov_iz = cmov (λ c. c == 0)

unfoldable pub cmov_nz : Table → Props → Exec
unfolding cmov
cmov_nz = cmov (λ c. not (c == 0))

abbrev opcode : (ℕ → ℕ → ℕ) → OpCode Props
opcode f = record { fn = stores f; gas = 1; is_terminating = false }

abbrev opcode_of : (Table → Props → Exec) → OpCode Props
opcode_of fn = record { fn = fn; gas = 1; is_terminating = false }

unfoldable pub table : List (ℕ × OpCode Props)
table =
    (190, opcode Values.add_32)
    ∷ (191, opcode Values.sub_32)
    ∷ (192, opcode Values.mul_32)
    ∷ (193, opcode Values.div_u_32)
    ∷ (194, opcode Values.div_s_32)
    ∷ (195, opcode Values.rem_u_32)
    ∷ (196, opcode Values.rem_s_32)
    ∷ (197, opcode Values.shlo_l_32)
    ∷ (198, opcode Values.shlo_r_32)
    ∷ (199, opcode Values.shar_r_32)
    ∷ (200, opcode Values.add_64)
    ∷ (201, opcode Values.sub_64)
    ∷ (202, opcode Values.mul_64)
    ∷ (203, opcode Values.div_u_64)
    ∷ (204, opcode Values.div_s_64)
    ∷ (205, opcode Values.rem_u_64)
    ∷ (206, opcode Values.rem_s_64)
    ∷ (207, opcode Values.shlo_l_64)
    ∷ (208, opcode Values.shlo_r_64)
    ∷ (209, opcode Values.shar_r_64)
    ∷ (210, opcode (Values.op BitOp.and false false false))
    ∷ (211, opcode (Values.op BitOp.xor false false false))
    ∷ (212, opcode (Values.op BitOp.or false false false))
    ∷ (213, opcode Values.mul_upper_s_s)
    ∷ (214, opcode Values.mul_upper_u_u)
    ∷ (215, opcode Values.mul_upper_s_u)
    ∷ (216, opcode Values.set_lt_u)
    ∷ (217, opcode Values.set_lt_s)
    ∷ (218, opcode_of cmov_iz)
    ∷ (219, opcode_of cmov_nz)
    ∷ (220, opcode Values.rot_l_64)
    ∷ (221, opcode Values.rot_l_32)
    ∷ (222, opcode (Values.rot_r 64))
    ∷ (223, opcode (Values.rot_r 32))
    ∷ (224, opcode (Values.op BitOp.and false true false))
    ∷ (225, opcode (Values.op BitOp.or false true false))
    ∷ (226, opcode (Values.op BitOp.xor false false true))
    ∷ (227, opcode Values.max_s)
    ∷ (228, opcode Values.max_u)
    ∷ (229, opcode Values.min_s)
    ∷ (230, opcode Values.min_u)
    ∷ []
