-- ===== src/Instructions/Machine.antt =====
-- What the methods of the instruction tables work on: core/instruction_table.py, core/opcode.py,
-- the registers, and the memory.
pub mod Branches
use tsrkit_pvm.Prelude.{
  ℕ, zero, suc, ◌+◌, ◌*◌, ◌/◌, ◌%◌, Bool, true, false, not, ◌&&◌, List, [], ◌∷◌, Option, ltb,
  if◌then◌else◌, length, get_elem?, set, slice, ◌==◌, ℤ, M, Outcome, pure, raise, ◌>>=◌,
  index_error, or_raise,
}
use tsrkit_pvm.Common.Status.{ExecutionStatus}
use tsrkit_pvm.Interpreter.Memory.{Memory}
use tsrkit_pvm.Interpreter.Program.{Program}
use tsrkit_pvm.Interpreter.Program

-- `InstructionTable`: the instruction at `counter` of a program.
pub record Table : Type 0 where
  pub counter : ℕ
  pub program : Program
  pub skip_index : ℕ

-- The registers and the memory are the two objects that an instruction changes in place.
pub record Machine : Type 0 where
  pub registers : List ℕ
  pub memory : Memory

-- `OpReturn` without the two objects: a status and the next program counter.
abbrev pub Exec : Type 0
Exec = M Machine (ExecutionStatus × ℕ)

-- `OpCode`, for a table whose operands have the type `P`. Its name serves error messages only.
pub record OpCode (P : Type 0) : Type 0 where
  pub fn : Table → P → Exec
  pub gas : ℕ
  pub is_terminating : Bool

-- `registers[i]`.
unfoldable pub reg : ℕ → M Machine ℕ
reg i s = or_raise index_error (get_elem? s.registers i) s

-- `registers[i] = v`.
unfoldable pub set_reg : ℕ → ℕ → M Machine (Unit {0})
set_reg i v s =
    if ltb i (length s.registers)
    then Outcome.done tt (record s { registers = set s.registers i v })
    else raise index_error s

-- An operation of the memory object.
abbrev pub on_memory_outcome : {A : Type 0} → Machine → Outcome Memory A → Outcome Machine A
on_memory_outcome s (Outcome.done a m) = Outcome.done a (record s { memory = m })
on_memory_outcome s (Outcome.raised e m) = Outcome.raised e (record s { memory = m })

abbrev pub on_memory : {A : Type 0} → M Memory A → M Machine A
on_memory op s = on_memory_outcome s (op s.memory)

-- `return CONTINUE, self.counter + self.skip_index + 1, registers, memory`.
unfoldable pub next : Table → Exec
next self s = Outcome.done (ExecutionStatus.continue, self.counter + self.skip_index + 1) s

-- `int.from_bytes(bs, "little")` and `n.to_bytes(len, "little")` of a number that fits.
unfoldable pub from_bytes : List ℕ → ℕ
from_bytes [] = 0
from_bytes (x ∷ xs) = x + 256 * from_bytes xs

unfoldable pub to_bytes : ℕ → ℕ → List ℕ
to_bytes n zero = []
to_bytes n (suc len) = n % 256 ∷ to_bytes (n / 256) len

-- `self.program.zeta[self.counter + i]`, and the slice of `n` bytes from there on.
unfoldable pub byte_at : Table → ℕ → Option ℕ
byte_at self i = get_elem? self.program.zeta (self.counter + i)

unfoldable pub bytes_at : Table → ℕ → ℕ → List ℕ
bytes_at self i n = slice self.program.zeta (self.counter + i) n

abbrev pub is_continue : ExecutionStatus → Bool
is_continue ExecutionStatus.continue = true
is_continue _ = false

-- `status == CONTINUE and counter != self.counter` decides whether a branch is taken: a counter
-- equal to the instruction's own is read as "not taken".
unfoldable pub after_branch : Table → ExecutionStatus × ℕ → Exec
unfolding next
after_branch self (status, counter) =
    if is_continue status && not (counter == self.counter)
    then pure (status, counter)
    else next self

unfoldable pub take_branch : Table → ℤ → Bool → Exec
unfolding after_branch Program.branch
take_branch self target condition =
    Program.branch self.program self.counter target condition >>= after_branch self
