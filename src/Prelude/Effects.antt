-- ===== src/Prelude/Effects.antt =====
-- State with exceptions: a raise keeps the changes that were made before it, as in Python.
use Prim.Native.Nat.{ℕ}
use mathlib.Core.Option.{Option, none, some}

-- `panic` and `page_fault` are the codes of a `PvmError`, `pvm_exit` is a `PvmExit` with its code and
-- register; `crash` is a process that dies on a null or a stray pointer in C; the others are
-- Python's own exceptions, but for `out_of_rounds`, with which a loop of the model says that the
-- rounds it was given are used up.
pub data Exn : Type 0 where
  panic : Exn
  page_fault : ℕ → Exn
  index_error value_error overflow_error : Exn
  pvm_exit : ℕ → ℕ → Exn
  crash : Exn
  out_of_rounds : Exn

pub data Outcome (S A : Type 0) : Type 0 where
  done : A → S → Outcome S A
  raised : Exn → S → Outcome S A

abbrev pub M : Type 0 → Type 0 → Type 0
M S A = S → Outcome S A

abbrev pub pure : {S A : Type 0} → A → M S A
pure a s = done a s

abbrev pub raise : {S A : Type 0} → Exn → M S A
raise e s = raised e s

abbrev pub bind_outcome : {S A B : Type 0} → Outcome S A → (A → M S B) → Outcome S B
bind_outcome (done a s) k = k a s
bind_outcome (raised e s) k = raised e s

infixl 5 ◌>>=◌ ◌>>◌
abbrev pub ◌>>=◌ : {S A B : Type 0} → M S A → (A → M S B) → M S B
◌>>=◌ m k s = bind_outcome (m s) k

abbrev pub ◌>>◌ : {S B : Type 0} → M S (Unit {0}) → M S B → M S B
m >> k = m >>= λ _. k

-- The state that an outcome leaves behind, whether it is a return or a raise.
abbrev pub state_of : {S A : Type 0} → Outcome S A → S
state_of (done a s) = s
state_of (raised e s) = s

-- `xs[i]`, which raises an IndexError out of range.
abbrev pub or_raise : {S A : Type 0} → Exn → Option A → M S A
or_raise e none s = raised e s
or_raise e (some a) s = done a s
