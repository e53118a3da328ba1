-- ===== src/Instructions/Tables/IiReg.antt =====
-- tsrkit_pvm/interpreter/instructions/tables/ii_reg.py: `InstructionsWArgs2Reg`.
pub mod Values
use tsrkit_pvm.Prelude.{
  ℕ, ◌+◌, ◌-◌, ◌*◌, ◌/◌, ◌%◌, ◌^◌, Bool, true, false, not, List, [], ◌∷◌, Option, none, some, ◌==◌,
  ltb, leb, if◌then◌else◌, bit, length, get_elem?, slice, take, drop, reverse, ℤ, pos, sub_ℕ, mod_ℤ,
  ◌+ℤ◌, ltb_ℤ, div_ℤ, M, Outcome, pure, raise, ◌>>=◌, ◌>>◌, panic, overflow_error, min, map, range,
  get_or,
}
use tsrkit_pvm.Common.Constants.{Accessibility}
use tsrkit_pvm.Common.Status.{ExecutionStatus}
use tsrkit_pvm.Common.Utils.{
  clamp_12, clamp_4, clamp_4_max0, chi, z, z_inv, b, b_inv, BitOp, CompareOp, compare,
  compare_bits_vectorized,
}
use tsrkit_pvm.Interpreter.Memory
use tsrkit_pvm.Interpreter.Memory.{Memory}
use tsrkit_pvm.Interpreter.Program
use tsrkit_pvm.Instructions.Machine.{
  Table, Machine, OpCode, Exec, reg, set_reg, next, byte_at, bytes_at, on_memory, from_bytes,
  to_bytes, take_branch,
}
use Values

-- `rd`, `ra`.
abbrev pub Props : Type 0
Props = ℕ × ℕ

unfoldable pub decode : List ℕ → Option Props
unfolding clamp_12
decode [] = none
decode (byte_val ∷ _) = some (clamp_12 (byte_val % 16), clamp_12 (byte_val / 16))

unfoldable pub get_props : Table → Option Props
unfolding bytes_at decode
get_props self = decode (bytes_at self 1 1)

-- The body that the methods share: registers[rd] = f(registers[ra]).
unfoldable pub stores : (ℕ → ℕ) → Table → Props → Exec
unfolding reg set_reg next
stores f self (rd, ra) = do a ← reg ra; set_reg rd (f a); next self

unfoldable pub move_reg : Table → Props → Exec
unfolding reg set_reg next
move_reg self (rd, ra) = do a ← reg ra; set_reg rd a; next self

-- The memory's part of `sbrk`: the pages from the old break on are made writable and the break is
-- moved, whatever the size of the request.
unfoldable pub grow_heap : ℕ → M Memory ℕ
unfolding Memory.alter_accessibility
grow_heap req m =
    let m' = Memory.alter_accessibility m.heap_break req Accessibility.write m in
    Outcome.done (m'.heap_break + req) (record m' { heap_break = m'.heap_break + req })

unfoldable pub sbrk : Table → Props → Exec
unfolding reg set_reg next grow_heap
sbrk self (rd, ra) = do
  req ← reg ra
  heap_break ← on_memory (grow_heap req)
  set_reg rd heap_break
  next self

-- `to_bytes(8, "little")` raises an OverflowError if the number does not fit.
unfoldable pub reverse_bytes : Table → Props → Exec
unfolding reg set_reg next from_bytes to_bytes
reverse_bytes self (rd, ra) = do
  a ← reg ra
  (if ltb a (2 ^ 64) then pure tt else raise overflow_error)
  set_reg rd (from_bytes (reverse (to_bytes a 8)))
  next self

abbrev opcode : (Table → Props → Exec) → OpCode Props
opcode fn = record { fn = fn; gas = 1; is_terminating = false }

unfoldable pub table : List (ℕ × OpCode Props)
table =
    (100, opcode move_reg)
    ∷ (101, opcode sbrk)
    ∷ (102, opcode (stores (Values.count_set_bits 64)))
    ∷ (103, opcode (stores (Values.count_set_bits 32)))
    ∷ (104, opcode (stores (Values.leading_zero_bits 64)))
    ∷ (105, opcode (stores (Values.leading_zero_bits 32)))
    ∷ (106, opcode (stores (Values.trailing_zero_bits 64)))
    ∷ (107, opcode (stores (Values.trailing_zero_bits 32)))
    ∷ (108, opcode (stores (Values.sign_extend 8)))
    ∷ (109, opcode (stores (Values.sign_extend 16)))
    ∷ (110, opcode (stores Values.zero_extend_16))
    ∷ (111, opcode reverse_bytes)
    ∷ []
