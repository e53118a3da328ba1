-- ===== src/Instructions/Safety/Methods/ThreeReg.antt =====
-- iii_reg.py: the safety of the methods.
use tsrkit_pvm.Prelude.{
  ℕ, ◌/◌, ◌%◌, ◌<◌, Bool, List, [], ◌∷◌, some, All, if-elim, pure, M, false, if◌then◌else◌, ◌>>=◌,
  ◌≡◌, arith,
}
use tsrkit_pvm.Instructions.Machine.{Table, Machine, OpCode, reg, set_reg, next, bytes_at}
use tsrkit_pvm.Instructions.Tables.IiiReg.{
  Props, stores, cmov, cmov_iz, cmov_nz, decode, get_props, table,
}
use tsrkit_pvm.Instructions.Safety.Rules.{
  IsSafe, IsSafeOp, then-IsSafe, pure-IsSafe, set_reg-only, clamp_12-lt, reg-IsSafe, set_reg-IsSafe,
  next-IsSafe,
}

abbrev Fits : Props → Type 0
Fits (ra, rb, rd) = (ra < 13) × (rb < 13) × (rd < 13)

decode-Fits : (xs : List ℕ) (props : Props) → decode xs ≡ some props → Fits props
unfolding decode
decode-Fits [] props e = cc
decode-Fits (x ∷ []) props e = cc
decode-Fits (x ∷ y ∷ xs) props e =
    ground (arith, clamp_12-lt (x % 16), clamp_12-lt (x / 16), clamp_12-lt y)

stores-IsSafe : (f : ℕ → ℕ → ℕ) (t : Table) (props : Props) → Fits props → IsSafe (stores f t props)
unfolding stores
stores-IsSafe f t (ra, rb, rd) h =
    reg-IsSafe ra h.0 λ a. reg-IsSafe rb h.1 λ c. set_reg-IsSafe rd (f a c) h.2 (next-IsSafe t)

cmov-IsSafe :
    (test : ℕ → Bool) (t : Table) (props : Props) → Fits props → IsSafe (cmov test t props)
unfolding cmov
cmov-IsSafe test t (ra, rb, rd) h = reg-IsSafe rb h.1 λ c.
    then-IsSafe (if test c then reg ra >>= set_reg rd else pure tt) (λ _. next t)
      (if-elim (λ (x : M Machine (Unit {0})). IsSafe x) (test c)
        (λ _. reg-IsSafe ra h.0 (λ a. set_reg-only rd a h.2)) (λ _. pure-IsSafe tt))
      (λ _. next-IsSafe t)

get_props-Fits : (t : Table) (props : Props) → get_props t ≡ some props → Fits props
unfolding get_props
get_props-Fits t props e = decode-Fits (bytes_at t 1 2) props e

abbrev IsGood : OpCode Props → Type 0
IsGood = IsSafeOp get_props

plain : (f : ℕ → ℕ → ℕ) → IsGood (record { fn = stores f; gas = 1; is_terminating = false })
plain f t props e = stores-IsSafe f t props (get_props-Fits t props e)

moves : (test : ℕ → Bool) → IsGood (record { fn = cmov test; gas = 1; is_terminating = false })
moves test t props e = cmov-IsSafe test t props (get_props-Fits t props e)

pub table-IsSafe : All (λ e. IsGood e.1) table
unfolding table cmov_iz cmov_nz
table-IsSafe = search (plain, moves)
