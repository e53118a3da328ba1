-- ===== src/Instructions/Safety/Methods/Jumps.antt =====
-- ii_reg_i_offset.py and ii_reg_ii_imm.py: the safety of the methods.
use tsrkit_pvm.Prelude.{
  ℕ, ◌/◌, ◌%◌, ◌^◌, ◌<◌, ◌+◌, Bool, true, List, [], ◌∷◌, some, All, ◌≡◌, arith, ℤ,
}
use tsrkit_pvm.Common.Utils.{CompareOp}
use tsrkit_pvm.Instructions.Machine.{Table, bytes_at}
use tsrkit_pvm.Instructions.Safety.Rules.{
  IsSafeOp, clamp_12-lt, reg-IsSafe, set_reg-IsSafe, take_branch-IsSafe, djump-IsSafe,
}
use tsrkit_pvm.Instructions.Tables.IiRegIOffset
use tsrkit_pvm.Instructions.Tables.IiRegIiImm

Branch-fits :
    (t : Table) (xs : List ℕ) (ra rb lx : ℕ) (vx : ℤ)
    → IiRegIOffset.decode t xs ≡ some (ra, rb, lx, vx)
    → (ra < 13) × (rb < 13)
unfolding IiRegIOffset.decode
Branch-fits t [] ra rb lx vx e = cc
Branch-fits t (x ∷ xs) ra rb lx vx e = ground (arith, clamp_12-lt (x % 16), clamp_12-lt (x / 16))

branch-IsSafe :
    (op : CompareOp) (is_signed : Bool)
    → IsSafeOp IiRegIOffset.get_props
        (record { fn = IiRegIOffset.branch op is_signed; gas = 1; is_terminating = true })
unfolding IiRegIOffset.branch IiRegIOffset.get_props
branch-IsSafe op is_signed t (ra, rb, lx, vx) e =
    let h = Branch-fits t (bytes_at t 1 6) ra rb lx vx e in
    reg-IsSafe ra h.0 λ a. reg-IsSafe rb h.1 λ c. take_branch-IsSafe t vx _

pub branches-IsSafe : All (λ e. IsSafeOp IiRegIOffset.get_props e.1) IiRegIOffset.table
unfolding IiRegIOffset.table
branches-IsSafe = search branch-IsSafe

Jump-fits :
    (t : Table) (xs : List ℕ) (ra rb lx ly vx vy : ℕ)
    → IiRegIiImm.decode t xs ≡ some (ra, rb, lx, ly, vx, vy)
    → (ra < 13) × (rb < 13)
unfolding IiRegIiImm.decode
Jump-fits t [] ra rb lx ly vx vy e = cc
Jump-fits t (x ∷ []) ra rb lx ly vx vy e = cc
Jump-fits t (x ∷ y ∷ xs) ra rb lx ly vx vy e =
    ground (arith, clamp_12-lt (x % 16), clamp_12-lt (x / 16))

jump-IsSafe :
    IsSafeOp IiRegIiImm.get_props
      (record { fn = IiRegIiImm.load_imm_jump_ind; gas = 1; is_terminating = true })
unfolding IiRegIiImm.load_imm_jump_ind IiRegIiImm.get_props
jump-IsSafe t (ra, rb, lx, ly, vx, vy) e =
    let h = Jump-fits t (bytes_at t 1 9) ra rb lx ly vx vy e in
    reg-IsSafe rb h.1
      λ wb. set_reg-IsSafe ra vx h.0 (djump-IsSafe t.program t.counter ((wb + vy) % 2 ^ 32))

pub jumps-IsSafe : All (λ e. IsSafeOp IiRegIiImm.get_props e.1) IiRegIiImm.table
unfolding IiRegIiImm.table
jumps-IsSafe = (jump-IsSafe, tt)
