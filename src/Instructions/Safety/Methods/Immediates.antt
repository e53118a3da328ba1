-- ===== src/Instructions/Safety/Methods/Immediates.antt =====
-- ii_reg_i_imm.py: the safety of the methods.
use tsrkit_pvm.Prelude.{
  ℕ, ◌/◌, ◌%◌, ◌^◌, ◌<◌, ◌+◌, Bool, false, List, [], ◌∷◌, some, All, if-elim, if◌then◌else◌, M,
  pure, ◌≡◌, arith,
}
use tsrkit_pvm.Instructions.Machine.{Table, Machine, OpCode, Exec, set_reg, next, bytes_at}
use tsrkit_pvm.Instructions.Safety.Rules.{
  IsSafe, IsSafeOp, clamp_12-lt, then-IsSafe, pure-IsSafe, set_reg-only, reg-IsSafe, set_reg-IsSafe,
  next-IsSafe, read-IsSafe, write-IsSafe,
}
use tsrkit_pvm.Instructions.Tables.IiRegIImm.{
  Props, stores, cmov_imm, cmov_iz_imm, cmov_nz_imm, store_ind, load_ind, decode, get_props, table,
}

abbrev Fits : Props → Type 0
Fits (ra, rb, lx, vx) = (ra < 13) × (rb < 13)

decode-Fits : (t : Table) (xs : List ℕ) (props : Props) → decode t xs ≡ some props → Fits props
unfolding decode
decode-Fits t [] props e = cc
decode-Fits t (x ∷ xs) props e = ground (arith, clamp_12-lt (x % 16), clamp_12-lt (x / 16))

fits : (t : Table) (props : Props) → get_props t ≡ some props → Fits props
unfolding get_props
fits t props e = decode-Fits t (bytes_at t 1 7) props e

abbrev IsGood : OpCode Props → Type 0
IsGood = IsSafeOp get_props

abbrev op : (Table → Props → Exec) → OpCode Props
op fn = record { fn = fn; gas = 1; is_terminating = false }

at_fits :
    (fn : Table → Props → Exec)
    → ((t : Table) (props : Props) → Fits props → IsSafe (fn t props))
    → IsGood (op fn)
at_fits fn h t props e = h t props (fits t props e)

stores-IsSafe : (f : ℕ → ℕ → ℕ) → IsGood (op (stores f))
unfolding stores
stores-IsSafe f =
    at_fits (stores f)
      λ t (ra, rb, lx, vx) h. reg-IsSafe rb h.1 λ w. set_reg-IsSafe ra (f w vx) h.0 (next-IsSafe t)

cmov-IsSafe : (test : ℕ → Bool) → IsGood (op (cmov_imm test))
unfolding cmov_imm
cmov-IsSafe test = at_fits (cmov_imm test) λ t (ra, rb, lx, vx) h. reg-IsSafe rb h.1 λ w.
    then-IsSafe (if test w then set_reg ra vx else pure tt) (λ _. next t)
      (if-elim (λ (x : M Machine (Unit {0})). IsSafe x) (test w) (λ _. set_reg-only ra vx h.0)
        (λ _. pure-IsSafe tt))
      (λ _. next-IsSafe t)

store_ind-IsSafe : (bitsize : ℕ) → IsGood (op (store_ind bitsize))
unfolding store_ind
store_ind-IsSafe bitsize = at_fits (store_ind bitsize) λ t (ra, rb, lx, vx) h.
    reg-IsSafe rb h.1 λ w.
      reg-IsSafe ra h.0 λ a. write-IsSafe (w + vx) (a % 2 ^ bitsize) (bitsize / 8) (next-IsSafe t)

load_ind-IsSafe : (bitsize : ℕ) (is_signed : Bool) → IsGood (op (load_ind bitsize is_signed))
unfolding load_ind
load_ind-IsSafe bitsize is_signed = at_fits (load_ind bitsize is_signed) λ t (ra, rb, lx, vx) h.
    reg-IsSafe rb h.1
      λ w. read-IsSafe (w + vx) (bitsize / 8) λ bytes _. set_reg-IsSafe ra _ h.0 (next-IsSafe t)

pub table-IsSafe : All (λ e. IsGood e.1) table
unfolding table cmov_iz_imm cmov_nz_imm
table-IsSafe = search (stores-IsSafe, cmov-IsSafe, store_ind-IsSafe, load_ind-IsSafe)
