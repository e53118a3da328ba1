-- ===== src/Cpvm/Program/Jumps.antt =====
-- cy_program.pyx against program.py: branches and dynamic jumps.
use tsrkit_pvm.Prelude.{
  ℕ, ◌<◌, ◌^◌, Bool, true, false, List, [], ◌∷◌, Option, none, some, leb, length, get_elem?, pos,
  Outcome, panic, ◌≡◌, refl, ap, ◌∙◌, arith, if◌then◌else◌, ◌/◌, ◌-◌, zero, suc, not, ◌||◌,
}
use tsrkit_pvm.Common.Status.{ExecutionStatus}
use tsrkit_pvm.Interpreter.Program
use tsrkit_pvm.Interpreter.Program.{Program, mem, to_pc}
use tsrkit_pvm.Cpvm.Words.{as_signed}
use tsrkit_pvm.Cpvm.Status.{pvm_halt, pvm_panic, exit_with}
use tsrkit_pvm.Cpvm.Program as Cy
use tsrkit_pvm.Cpvm.Program.{CyProgram}

-- What the Cython code makes of an answer of the interpreter: HALT and a panic are raised as a
-- `PvmExit`.
abbrev pub as_exit : {S : Type 0} → Outcome S (ExecutionStatus × ℕ) → Outcome S ℕ
as_exit (Outcome.done (ExecutionStatus.halt, pc) s) = Outcome.raised (exit_with pvm_halt) s
as_exit (Outcome.done (_, pc) s) = Outcome.done pc s
as_exit (Outcome.raised panic s) = Outcome.raised (exit_with pvm_panic) s
as_exit (Outcome.raised e s) = Outcome.raised e s

djump_entry-djump_entry :
    {S : Type 0} (p : CyProgram) (q : Program) (o : Option ℕ) (s : S)
    → p.basic_blocks ≡ q.basic_blocks
    → ((t : ℕ) → o ≡ some t → t < 2 ^ 31)
    → Cy.djump_entry p o s ≡ as_exit (Program.djump_entry q o s)
unfolding Cy.djump_entry Program.djump_entry
djump_entry-djump_entry p q none s e fits = refl
djump_entry-djump_entry p q (some t) s e fits = ground (arith, fits t refl)

-- Out of range, the look-up panics as the interpreter's test does.
in_range-lookup :
    {S : Type 0} (q : Program) (index : ℕ) (s : S)
    → Program.djump_entry q (get_elem? q.jump_table index) s ≡ (
        if leb (length q.jump_table) index
        then Outcome.raised panic s
        else Program.djump_entry q (get_elem? q.jump_table index) s)
unfolding Program.djump_entry
in_range-lookup q index s = go q.jump_table index
  where
    go :
        (xs : List ℕ) (i : ℕ)
        → Program.djump_entry q (get_elem? xs i) s ≡ (
            if leb (length xs) i
            then Outcome.raised panic s
            else Program.djump_entry q (get_elem? xs i) s)
    go [] i = ground arith
    go (x ∷ xs) zero = ground arith
    go (x ∷ xs) (suc i) = ground (arith, go xs i)

-- The tests of both, for the halting address, for 0, for the range and for the alignment.
tests-tests :
    {S : Type 0} (halts is_zero outside aligned : Bool) (counter : ℕ) (s : S) (x : Outcome S ℕ)
    (y : Outcome S (ExecutionStatus × ℕ))
    → x ≡ as_exit y
    → y ≡ (if outside then Outcome.raised panic s else y)
    → (if halts
        then Outcome.raised (exit_with pvm_halt) s
        else if is_zero || not aligned
        then Outcome.raised (exit_with pvm_panic) s
        else x)
      ≡ as_exit (
          if halts
          then Outcome.done (ExecutionStatus.halt, counter) s
          else if is_zero || outside || not aligned
          then Outcome.raised panic s
          else y)
tests-tests true z r o counter s x y e f = refl
tests-tests false true r o counter s x y e f = refl
tests-tests false false true false counter s x y e f = refl
tests-tests false false true true counter s x y e f = e ∙ ap as_exit f
tests-tests false false false false counter s x y e f = refl
tests-tests false false false true counter s x y e f = e

-- For the same jump table, with entries below 2^31, and the same basic blocks, `CyProgram.djump`
-- does what the interpreter's does: it goes to the same position, and raises a `PvmExit` for HALT
-- and for a panic.
pub djump-djump :
    {S : Type 0} (p : CyProgram) (q : Program) (counter a : ℕ) (s : S)
    → p.jump_table ≡ q.jump_table
    → p.basic_blocks ≡ q.basic_blocks
    → ((i t : ℕ) → get_elem? q.jump_table i ≡ some t → t < 2 ^ 31)
    → Cy.djump p counter a s ≡ as_exit (Program.djump q counter a s)
unfolding Cy.djump Program.djump
djump-djump p q counter a s jumps blocks fits =
    let index = a / 2 - 1 in
    tests-tests _ _ _ _ counter s _ _
      (ap (λ jump_table. Cy.djump_entry p (get_elem? jump_table index) s) jumps
        ∙ djump_entry-djump_entry p q (get_elem? q.jump_table index) s blocks (fits index))
      (in_range-lookup q index s)

-- For the same basic blocks and a target below 2^31, `CyProgram.branch` does what the
-- interpreter's does when the condition holds, with a `PvmExit` for a panic; when it fails it
-- gives 0xFFFFFFFF.
pub branch-branch :
    {S : Type 0} (p : CyProgram) (q : Program) (counter target : ℕ) (cond : Bool) (s : S)
    → p.basic_blocks ≡ q.basic_blocks
    → target < 2 ^ 31
    → Cy.branch p counter target cond s ≡ (
        if cond
        then as_exit (Program.branch q counter (pos target) cond s)
        else Outcome.done Cy.no_branch s)
unfolding Cy.branch Program.branch as_signed
branch-branch p q counter target true s blocks lt = ground arith
branch-branch p q counter target false s blocks lt = refl
