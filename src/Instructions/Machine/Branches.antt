-- ===== src/Instructions/Machine/Branches.antt =====
-- What the tables do with the answer of `Program.branch`.
use tsrkit_pvm.Prelude.{
  ℕ, ◌+◌, Bool, true, false, not, ◌==◌, if-elim, ℤ, pos, negsuc, Ensures, ◌≡◌, ◌≢◌, refl, ◌⊎◌, inl,
  inr, ap, arith, ==_refl, Bool-cases,
}
use mathlib.Core.Path.{subst}
use tsrkit_pvm.Common.Status.{ExecutionStatus}
use tsrkit_pvm.Interpreter.Program
use tsrkit_pvm.Interpreter.Program.{Program, mem, in_blocks}
use tsrkit_pvm.Interpreter.Program.Targets.{IsListed, IsAstray, mem-IsListed, missing-IsListed}
use tsrkit_pvm.Instructions.Machine.{Table, Machine, Exec, take_branch, after_branch, next}

-- The branch is taken: to the start of a basic block, which is not the branch itself.
abbrev pub IsTaken : Table → ℤ → Bool → ExecutionStatus × ℕ → Type 0
IsTaken self target condition r =
    (condition ≡ true)
    × (target ≡ pos r.1)
    × (r.1 ≢ self.counter)
    × IsListed r.1 self.program.basic_blocks

-- Execution falls through: the condition fails, or the branch is its own target, which starts a basic
-- block.
abbrev pub FallsThrough : Table → ℤ → Bool → ExecutionStatus × ℕ → Type 0
FallsThrough self target condition r =
    (r.1 ≡ self.counter + self.skip_index + 1)
    × ((condition ≡ false)
        ⊎ ((condition ≡ true)
            × (target ≡ pos self.counter)
            × IsListed self.counter self.program.basic_blocks))

abbrev pub Lands : Table → ℤ → Bool → Machine → ExecutionStatus × ℕ → Machine → Type 0
Lands self target condition m r m' =
    (m' ≡ m)
    × (r.0 ≡ ExecutionStatus.continue)
    × (IsTaken self target condition r ⊎ FallsThrough self target condition r)

apart : (a b : ℕ) → not (a == b) ≡ true → a ≢ b
apart a b h e = ground arith

together : (a b : ℕ) → not (a == b) ≡ false → a ≡ b
together a b h = ground arith

-- A branch instruction changes no state, whether it returns or raises. If its condition holds and
-- its target is the start of a basic block other than the instruction itself, execution goes
-- there; if the condition fails or the target is the instruction itself and starts a block,
-- execution goes to the next instruction; it raises an exception, a panic, only if the condition
-- holds and no basic block starts at the target.
pub take_branch-Lands :
    (self : Table) (target : ℤ) (condition : Bool) (m : Machine)
    → Ensures
        (Lands self target condition m)
        (IsAstray self.program target condition m)
        (take_branch self target condition m)
unfolding take_branch after_branch next Program.branch
take_branch-Lands self target false m =
    rw (==_refl self.counter) (Ensures.returns (refl, refl, inr (refl, inl refl)))
take_branch-Lands self (negsuc n) true m = Ensures.raises (refl, refl, refl, λ k e l. cc)
take_branch-Lands self (pos n) true m = elim (Bool-cases (mem n self.program.basic_blocks)) [
  | inr out ↦ rw out (
      Ensures.raises (
        refl,
        refl,
        refl,
        λ k e l.
            let same : n ≡ k = cc in missing-IsListed n self.program.basic_blocks out (rw same l),
      ))
  | inl inside ↦ rw inside (
      if-elim
        (λ (e : Exec).
          Ensures (Lands self (pos n) true m) (IsAstray self.program (pos n) true m) (e m))
        (not (n == self.counter))
        (λ t. Ensures.returns (
          refl,
          refl,
          inl (refl, refl, apart n self.counter t, mem-IsListed n self.program.basic_blocks inside),
        ))
        (λ f.
          let same = together n self.counter f in
          Ensures.returns (
            refl,
            refl,
            inr (
              refl,
              inr (
                refl,
                ap pos same,
                subst (λ k. IsListed k self.program.basic_blocks) same
                    (mem-IsListed n self.program.basic_blocks inside),
              ),
            ),
          )))
]
