-- ===== src/Interpreter/Program/Targets.antt =====
-- program.py: where `branch` and `djump` go.
use tsrkit_pvm.Prelude.{
  ℕ, zero, suc, ◌-◌, ◌/◌, ◌%◌, ◌^◌, ◌≤◌, Bool, true, false, not, ◌||◌, List, [], ◌∷◌, Option, none,
  some, leb, ◌==◌, ==_iff, length, get_elem?, ℤ, pos, negsuc, Exn, panic, Ensures, ◌≡◌, ◌≢◌, refl,
  sym, ap, ◌∙◌, arith, ◌⊎◌, inl, inr, leb→le, get_elem?-past, Bool-cases,
}
use mathlib.Core.Option.{some-injective}
use tsrkit_pvm.Common.Status.{ExecutionStatus}
use tsrkit_pvm.Interpreter.Program.{Program, mem, branch, djump, djump_entry}

-- `n` stands somewhere in the list.
abbrev pub IsListed : ℕ → List ℕ → Type 0
IsListed n xs = (i : ℕ) × (get_elem? xs i ≡ some n)

pub mem-IsListed : (n : ℕ) (xs : List ℕ) → mem n xs ≡ true → IsListed n xs
mem-IsListed n [] h = cc
mem-IsListed n (x ∷ xs) h = elim (Bool-cases (n == x)) [
  | inl e ↦ (0, ap some (sym ((==_iff n x).0 e)))
  | inr e ↦ let (i, f) = mem-IsListed n xs (ground arith) in (suc i, f)
]

pub IsListed-mem : (n : ℕ) (xs : List ℕ) → IsListed n xs → mem n xs ≡ true
IsListed-mem n [] (i, e) = cc
IsListed-mem n (x ∷ xs) (zero, e) = let same : x ≡ n = some-injective _ _ e in ground arith
IsListed-mem n (x ∷ xs) (suc i, e) = let rest = IsListed-mem n xs (i, e) in ground arith

pub missing-IsListed : (n : ℕ) (xs : List ℕ) → mem n xs ≡ false → IsListed n xs → ⊥
missing-IsListed n xs h l = let found = IsListed-mem n xs l in cc

-- Execution goes on at the start of a basic block.
abbrev pub ToBlock : Program → ExecutionStatus × ℕ → Type 0
ToBlock p r = (r.0 ≡ ExecutionStatus.continue) × IsListed r.1 p.basic_blocks

-- A branch that is not taken, and one that is.
abbrev pub Stays : ℕ → Bool → ExecutionStatus × ℕ → Type 0
Stays counter condition r = (condition ≡ false) × (r.0 ≡ ExecutionStatus.continue) × (r.1 ≡ counter)

abbrev pub Goes : Program → ℤ → Bool → ExecutionStatus × ℕ → Type 0
Goes p target condition r = (condition ≡ true) × (target ≡ pos r.1) × ToBlock p r

-- A panic, with the state there was: the branch is taken, and its target starts no basic block.
abbrev pub IsAstray : {S : Type 0} → Program → ℤ → Bool → S → Exn → S → Type 0
IsAstray p target condition s e s' =
    (e ≡ panic)
    × (s' ≡ s)
    × (condition ≡ true)
    × ((n : ℕ) → target ≡ pos n → IsListed n p.basic_blocks → ⊥)

-- The halting address.
abbrev pub IsHalt : ℕ → ℕ → ExecutionStatus × ℕ → Type 0
IsHalt counter a r = (a ≡ 2 ^ 32 - 2 ^ 16) × (r.0 ≡ ExecutionStatus.halt) × (r.1 ≡ counter)

-- `a` is an even address that is not 0, and its entry in the jump table is `t`, the start of a basic
-- block.
abbrev pub IsEntry : Program → ℕ → ℕ → Type 0
IsEntry p a t =
    (a % 2 ≡ 0)
    × (1 ≤ a / 2)
    × (get_elem? p.jump_table (a / 2 - 1) ≡ some t)
    × IsListed t p.basic_blocks

abbrev pub ToEntry : Program → ℕ → ExecutionStatus × ℕ → Type 0
ToEntry p a r = (a ≢ 2 ^ 32 - 2 ^ 16) × (r.0 ≡ ExecutionStatus.continue) × IsEntry p a r.1

-- A panic, with the state there was: the address is not the halting one and has no entry.
abbrev pub HasNoEntry : {S : Type 0} → Program → ℕ → S → Exn → S → Type 0
HasNoEntry p a s e s' =
    (e ≡ panic) × (s' ≡ s) × (a ≢ 2 ^ 32 - 2 ^ 16) × ((t : ℕ) → IsEntry p a t → ⊥)

-- The guard of `djump` refuses no address with an entry.
bad_entry :
    (table : List ℕ) (a t : ℕ)
    → (a == 0 || leb (length table) (a / 2 - 1) || not (a % 2 == 0)) ≡ true
    → a % 2 ≡ 0
    → 1 ≤ a / 2
    → get_elem? table (a / 2 - 1) ≡ some t
    → ⊥
bad_entry table a t bad even low e = elim (Bool-cases (leb (length table) (a / 2 - 1))) [
  | inl past ↦ let gone = get_elem?-past table (a / 2 - 1) (leb→le _ _ past) in cc
  | inr inside ↦
      let not_zero : (a == 0) ≡ false = ground arith in
      let is_even : (a % 2 == 0) ≡ true = ground arith in ground arith
]

module _ {S : Type 0} where
  -- A branch changes no state. Not taken, it gives the counter; taken, it goes to its target if a
  -- basic block starts there, and raises a panic if none does. It raises nothing else, and nothing
  -- when it is not taken.
  pub branch-ToBlock :
      (p : Program) (counter : ℕ) (target : ℤ) (condition : Bool) (s : S)
      → Ensures
          (λ r s'. (s' ≡ s) × (Stays counter condition r ⊎ Goes p target condition r))
          (IsAstray p target condition s)
          (branch p counter target condition s)
  unfolding branch
  branch-ToBlock p counter target false s = Ensures.returns (refl, inl (refl, refl, refl))
  branch-ToBlock p counter (negsuc n) true s = Ensures.raises (refl, refl, refl, λ k e l. cc)
  branch-ToBlock p counter (pos n) true s = elim (Bool-cases (mem n p.basic_blocks)) [
    | inl found ↦
        rw found
          (Ensures.returns (refl, inr (refl, refl, (refl, mem-IsListed n p.basic_blocks found))))
    | inr lost ↦ rw lost (
        Ensures.raises (
          refl,
          refl,
          refl,
          λ k e l. let same : n ≡ k = cc in missing-IsListed n p.basic_blocks lost (rw same l),
        ))
  ]

  entry-Ensures :
      (p : Program) (counter a : ℕ) (s : S) (o : Option ℕ)
      → get_elem? p.jump_table (a / 2 - 1) ≡ o
      → a ≢ 2 ^ 32 - 2 ^ 16
      → a % 2 ≡ 0
      → 1 ≤ a / 2
      → Ensures
          (λ r s'. (s' ≡ s) × (IsHalt counter a r ⊎ ToEntry p a r))
          (HasNoEntry p a s)
          (djump_entry p o s)
  unfolding djump_entry
  entry-Ensures p counter a s none e other even low =
      Ensures.raises (refl, refl, other, λ t h. let there = h.2 in cc)
  entry-Ensures p counter a s (some t) e other even low = elim (Bool-cases (mem t p.basic_blocks)) [
    | inl found ↦ rw found (
        Ensures.returns
          (refl, inr (other, refl, (even, low, e, mem-IsListed t p.basic_blocks found))))
    | inr lost ↦ rw lost (
        Ensures.raises (
          refl,
          refl,
          other,
          λ k h.
              let same : t ≡ k = some-injective _ _ (sym e ∙ h.2) in
              missing-IsListed t p.basic_blocks lost (rw same h.3),
        ))
  ]

  -- A dynamic jump changes no state. It returns HALT at the counter only for the address 2^32 -
  -- 2^16; it goes on at a position only for another address, even and not 0, whose entry in the
  -- jump table is that position, the start of a basic block; it raises an exception, a panic, only
  -- for an address that is not 2^32 - 2^16 and has no such entry.
  pub djump-ToEntry :
      (p : Program) (counter a : ℕ) (s : S)
      → Ensures
          (λ r s'. (s' ≡ s) × (IsHalt counter a r ⊎ ToEntry p a r))
          (HasNoEntry p a s)
          (djump p counter a s)
  unfolding djump
  djump-ToEntry p counter a s = elim (Bool-cases (a == 2 ^ 32 - 2 ^ 16)) [
    | inl e ↦ rw e (Ensures.returns (refl, inl ((==_iff a (2 ^ 32 - 2 ^ 16)).0 e, refl, refl)))
    | inr other ↦
        rw other
          (elim (Bool-cases (a == 0 || leb (length p.jump_table) (a / 2 - 1) || not (a % 2 == 0))) [
            | inl bad ↦ rw bad (
                Ensures.raises
                  (refl, refl, ground arith, λ t h. bad_entry p.jump_table a t bad h.0 h.1 h.2))
            | inr ok ↦ rw ok (
                entry-Ensures p counter a s (get_elem? p.jump_table (a / 2 - 1)) refl (ground arith)
                  (ground arith) (ground arith))
          ])
  ]
