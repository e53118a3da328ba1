-- ===== src/Instructions/Safety/Rules.antt =====
-- Rules for what the instructions are made of.
use tsrkit_pvm.Prelude.{
  ℕ, zero, suc, ◌/◌, ◌%◌, ◌^◌, ◌<◌, Bool, not, ◌&&◌, ◌||◌, List, Option, none, some, ℤ, leb, ◌==◌,
  if-elim, length, length-set, get_elem?-in_range, M, Outcome, Exn, pure, raise, ◌-◌, ◌>>=◌, ◌>>◌,
  bind_outcome, Ensures, Ensures-bind, ◌≡◌, ◌∙◌, arith, lt→ltb,
}
use tsrkit_pvm.Common.Utils.{clamp_12}
use tsrkit_pvm.Interpreter.Memory
use tsrkit_pvm.Interpreter.Memory.{Memory}
use tsrkit_pvm.Interpreter.Memory.Coherent.{IsCoherent, AreBytes}
use tsrkit_pvm.Interpreter.Memory.Keeps.{read-Reads, write-Writes, IsFault}
use tsrkit_pvm.Interpreter.Program
use tsrkit_pvm.Interpreter.Program.{Program}
use tsrkit_pvm.Instructions.Machine.{
  Table, Machine, OpCode, Exec, reg, set_reg, next, on_memory, on_memory_outcome, to_bytes,
  take_branch, after_branch, is_continue,
}

pub record IsMachine (m : Machine) : Type 0 where
  pub thirteen : length m.registers ≡ 13
  pub coherent : IsCoherent m.memory

-- The exceptions that an instruction may raise.
abbrev pub IsRaised : Exn → Type 0
IsRaised Exn.panic = Unit
IsRaised (Exn.page_fault addr) = Unit
IsRaised Exn.overflow_error = Unit
IsRaised _ = ⊥

abbrev pub Raises : (Machine → Type 0) → Exn → Machine → Type 0
Raises I e m = I m × IsRaised e

-- An instruction that is safe.
abbrev pub IsSafe : {A : Type 0} → M Machine A → Type 0
IsSafe x = (m : Machine) → IsMachine m → Ensures (λ _ m'. IsMachine m') (Raises IsMachine) (x m)

-- One step after another.
pub then-IsSafe :
    {A B : Type 0} (x : M Machine A) (k : A → M Machine B)
    → IsSafe x
    → ((a : A) → IsSafe (k a))
    → IsSafe (x >>= k)
then-IsSafe x k h safe m i = Ensures-bind (h m i) (λ a m' i'. safe a m' i')

pub clamp_12-lt : (x : ℕ) → clamp_12 x < 13
unfolding clamp_12
clamp_12-lt x = ground arith

pub next-IsSafe : (self : Table) → IsSafe (next self)
unfolding next
next-IsSafe self m h = Ensures.returns h

pub raise-IsSafe : {A : Type 0} (e : Exn) → IsRaised e → IsSafe {A = A} (raise e)
raise-IsSafe e r m h = Ensures.raises (h, r)

pub pure-IsSafe : {A : Type 0} (r : A) → IsSafe (pure r)
pure-IsSafe r m h = Ensures.returns h

pub reg-IsSafe :
    (i : ℕ) {A : Type 0} {k : ℕ → M Machine A}
    → i < 13
    → ((a : ℕ) → IsSafe (k a))
    → IsSafe (reg i >>= k)
unfolding reg
reg-IsSafe i {k = k} lt safe m h =
    let (a, e) = get_elem?-in_range m.registers i (omega (arith, h.thirteen)) in rw e (safe a m h)

pub set_reg-only : (i v : ℕ) → i < 13 → IsSafe (set_reg i v)
unfolding set_reg
set_reg-only i v lt m h = rw (lt→ltb i (length m.registers) (omega (arith, h.thirteen))) (
    Ensures.returns
      (record { thirteen = length-set m.registers i v ∙ h.thirteen; coherent = h.coherent }))

pub set_reg-IsSafe :
    (i v : ℕ) {A : Type 0} {k : M Machine A} → i < 13 → IsSafe k → IsSafe (set_reg i v >> k)
set_reg-IsSafe i v {k = k} lt safe =
    then-IsSafe (set_reg i v) (λ _. k) (set_reg-only i v lt) (λ _. safe)

-- An operation of the memory that keeps its invariant.
on_memory-Ensures :
    {A B : Type 0} {P : A → Type 0} (m : Machine) {o : Outcome Memory A} {k : A → M Machine B}
    → IsMachine m
    → Ensures (λ a m'. IsCoherent m' × P a) (λ e m'. IsCoherent m' × IsFault e) o
    → ((a : A) → P a → IsSafe (k a))
    → Ensures (λ _ m'. IsMachine m') (Raises IsMachine) (bind_outcome (on_memory_outcome m o) k)
on_memory-Ensures m h (Ensures.returns c) safe =
    safe _ c.1 _ (record { thirteen = h.thirteen; coherent = c.0 })
on_memory-Ensures m h (Ensures.raises {e} c) safe =
    Ensures.raises (record { thirteen = h.thirteen; coherent = c.0 }, fault e c.1)
  where
    fault : (e : Exn) → IsFault e → IsRaised e
    fault (Exn.page_fault addr) f = tt
    fault _ f = absurd f

pub read-IsSafe :
    (address len : ℕ) {A : Type 0} {k : List ℕ → M Machine A}
    → ((bytes : List ℕ) → AreBytes bytes → IsSafe (k bytes))
    → IsSafe (on_memory (Memory.read address len) >>= k)
read-IsSafe address len safe m h =
    on_memory-Ensures m h (read-Reads address len m.memory h.coherent) safe

pub to_bytes-AreBytes : (n len : ℕ) → AreBytes (to_bytes n len)
unfolding to_bytes
to_bytes-AreBytes n zero = tt
to_bytes-AreBytes n (suc len) = (omega arith, to_bytes-AreBytes (n / 256) len)

with_unit :
    {S : Type 0} {P : S → Type 0} {Q : Exn → S → Type 0} {o : Outcome S (Unit {0})}
    → Ensures (λ _ s. P s) Q o
    → Ensures (λ _ s. P s × Unit {0}) Q o
with_unit (Ensures.returns p) = Ensures.returns (p, tt)
with_unit (Ensures.raises q) = Ensures.raises q

pub write-IsSafe :
    (address n len : ℕ) {A : Type 0} {k : M Machine A}
    → IsSafe k
    → IsSafe (on_memory (Memory.write address (to_bytes n len)) >> k)
write-IsSafe address n len safe m h =
    on_memory-Ensures {P = λ _. Unit {0}} m h
      (with_unit
        (write-Writes address (to_bytes n len) m.memory (to_bytes-AreBytes n len) h.coherent))
      (λ _ _. safe)

branch-Ensures :
    (p : Program) (counter : ℕ) (target : ℤ) (test : Bool) (m : Machine)
    → IsMachine m
    → Ensures (λ _ m'. IsMachine m') (Raises IsMachine) (Program.branch p counter target test m)
unfolding Program.branch
branch-Ensures p counter target test m h =
    if-elim (Ensures _ _) (not test) (λ _. Ensures.returns h)
      λ _.
        if-elim (Ensures _ _) (not (Program.in_blocks p target)) (λ _. Ensures.raises (h, tt))
          λ _. Ensures.returns h

pub take_branch-IsSafe :
    (self : Table) (target : ℤ) (test : Bool) → IsSafe (take_branch self target test)
unfolding take_branch after_branch
take_branch-IsSafe self target test m h =
    Ensures-bind (branch-Ensures self.program self.counter target test m h) λ r m' h'.
      if-elim (λ (e : Exec). Ensures (λ _ m''. IsMachine m'') (Raises IsMachine) (e m'))
        (is_continue r.0 && not (r.1 == self.counter)) (λ _. Ensures.returns h')
        (λ _. next-IsSafe self m' h')

djump_entry-IsSafe : (p : Program) (o : Option ℕ) → IsSafe (Program.djump_entry p o)
unfolding Program.djump_entry
djump_entry-IsSafe p none m h = Ensures.raises (h, tt)
djump_entry-IsSafe p (some target) m h =
    if-elim (Ensures _ _) (Program.mem target p.basic_blocks) (λ _. Ensures.returns h)
      (λ _. Ensures.raises (h, tt))

pub djump-IsSafe : (p : Program) (counter a : ℕ) → IsSafe (Program.djump p counter a)
unfolding Program.djump
djump-IsSafe p counter a m h =
    if-elim (Ensures _ _) (a == 2 ^ 32 - 2 ^ 16) (λ _. Ensures.returns h)
      λ _.
        if-elim (Ensures _ _) (a == 0 || leb (length p.jump_table) (a / 2 - 1) || not (a % 2 == 0))
          (λ _. Ensures.raises (h, tt)) λ _. djump_entry-IsSafe p _ m h

-- An opcode of a table whose method is safe at the operands that the table gives it.
abbrev pub IsSafeOp : {P : Type 0} → (Table → Option P) → OpCode P → Type 0
IsSafeOp {P} get_props op =
    (t : Table) (props : P) → get_props t ≡ some props → IsSafe (op.fn t props)

-- The methods of a table, at operands that fit.
module _ {P : Type 0} (Fits : P → Type 0) (get_props : Table → Option P)
    (fits : (t : Table) (props : P) → get_props t ≡ some props → Fits props) where
  abbrev pub IsSafeMethod : (Table → P → Exec) → Type 0
  IsSafeMethod fn = (t : Table) (props : P) → Fits props → IsSafe (fn t props)

  pub to_op :
      (fn : Table → P → Exec) (gas : ℕ) (ends : Bool)
      → IsSafeMethod fn
      → IsSafeOp get_props (record { fn = fn; gas = gas; is_terminating = ends })
  to_op fn gas ends h t props e = h t props (fits t props e)
