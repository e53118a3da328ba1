-- ===== src/Instructions/Safety/Methods/OneReg.antt =====
-- The tables with one register or none: the safety of the methods.
use tsrkit_pvm.Prelude.{
  ℕ, ◌/◌, ◌%◌, ◌^◌, ◌<◌, ◌+◌, ◌-◌, Bool, true, false, List, [], ◌∷◌, Option, none, some, All, ◌≡◌,
  arith, panic, ℤ,
}
use mathlib.Core.Option
use tsrkit_pvm.Common.Utils.{CompareOp, clamp_4}
use tsrkit_pvm.Instructions.Machine.{Table, OpCode, Exec, byte_at, bytes_at}
use tsrkit_pvm.Instructions.Safety.Rules.{
  IsSafe, IsSafeOp, clamp_12-lt, pure-IsSafe, raise-IsSafe, reg-IsSafe, set_reg-IsSafe, next-IsSafe,
  read-IsSafe, write-IsSafe, take_branch-IsSafe, djump-IsSafe,
}
use tsrkit_pvm.Instructions.Tables.WoArgs
use tsrkit_pvm.Instructions.Tables.IImm
use tsrkit_pvm.Instructions.Tables.IRegIEwimm
use tsrkit_pvm.Instructions.Tables.IiImm
use tsrkit_pvm.Instructions.Tables.IOffset
use tsrkit_pvm.Instructions.Tables.IRegIImm
use tsrkit_pvm.Instructions.Tables.IRegIiImm
use tsrkit_pvm.Instructions.Tables.IRegIImmIOffset

abbrev pub AllSafe : {P : Type 0} → (Table → Option P) → List (ℕ × OpCode P) → Type 0
AllSafe get_props table = All (λ e. IsSafeOp get_props e.1) table

pub wo_args-IsSafe : AllSafe WoArgs.get_props WoArgs.table
unfolding WoArgs.table WoArgs.trap WoArgs.fallthrough
wo_args-IsSafe = (λ t _ _. raise-IsSafe panic tt, (λ t _ _. next-IsSafe t, tt))

pub i_imm-IsSafe : AllSafe IImm.get_props IImm.table
unfolding IImm.table IImm.ecalli
i_imm-IsSafe = (λ t _ _. pure-IsSafe _, tt)

ewimm-fits : (xs : List ℕ) (ra vx : ℕ) → IRegIEwimm.decode xs ≡ some (ra, vx) → ra < 13
unfolding IRegIEwimm.decode
ewimm-fits [] ra vx e = cc
ewimm-fits (x ∷ xs) ra vx e = ground (arith, clamp_12-lt (x % 16))

pub i_reg_i_ewimm-IsSafe : AllSafe IRegIEwimm.get_props IRegIEwimm.table
unfolding IRegIEwimm.table IRegIEwimm.load_imm_64 IRegIEwimm.get_props
i_reg_i_ewimm-IsSafe =
    (λ t (ra, vx) e. set_reg-IsSafe ra vx (ewimm-fits (bytes_at t 1 9) ra vx e) (next-IsSafe t), tt)

store_imm-IsSafe :
    (bit_size : ℕ)
    → IsSafeOp IiImm.get_props
        (record { fn = IiImm.store_imm bit_size; gas = 1; is_terminating = false })
unfolding IiImm.store_imm
store_imm-IsSafe bit_size t (lx, ly, vx, vy) e = write-IsSafe vx _ (bit_size / 8) (next-IsSafe t)

pub ii_imm-IsSafe : AllSafe IiImm.get_props IiImm.table
unfolding IiImm.table
ii_imm-IsSafe = search store_imm-IsSafe

pub i_offset-IsSafe : AllSafe IOffset.get_props IOffset.table
unfolding IOffset.table IOffset.jump
i_offset-IsSafe = (λ t (lx, vx) e. take_branch-IsSafe t vx true, tt)

i_reg_i_imm-fits :
    (n : ℕ) (xs : List ℕ) (ra lx vx : ℕ) → IRegIImm.decode n xs ≡ some (ra, lx, vx) → ra < 13
unfolding IRegIImm.decode
i_reg_i_imm-fits n [] ra lx vx e = cc
i_reg_i_imm-fits n (x ∷ xs) ra lx vx e = ground (arith, clamp_12-lt (x % 16))

abbrev IsGood : (Table → IRegIImm.Props → Exec) → Bool → Type 0
IsGood fn ends = IsSafeOp IRegIImm.get_props (record { fn = fn; gas = 1; is_terminating = ends })

at_fits :
    (fn : Table → IRegIImm.Props → Exec) (ends : Bool)
    → ((t : Table) (ra lx vx : ℕ) → ra < 13 → IsSafe (fn t (ra, lx, vx)))
    → IsGood fn ends
unfolding IRegIImm.get_props
at_fits fn ends h t (ra, lx, vx) e =
    h t ra lx vx (i_reg_i_imm-fits _ (bytes_at t 1 (1 + clamp_4 (t.skip_index - 1))) ra lx vx e)

jump_ind-IsSafe : IsGood IRegIImm.jump_ind true
unfolding IRegIImm.jump_ind
jump_ind-IsSafe =
    at_fits _ true
      λ t ra lx vx h. reg-IsSafe ra h λ a. djump-IsSafe t.program t.counter ((a + vx) % 2 ^ 32)

load_imm-IsSafe : IsGood IRegIImm.load_imm false
unfolding IRegIImm.load_imm
load_imm-IsSafe = at_fits _ false λ t ra lx vx h. set_reg-IsSafe ra vx h (next-IsSafe t)

load_u-IsSafe : (bitsize : ℕ) → IsGood (IRegIImm.load_u bitsize) false
unfolding IRegIImm.load_u
load_u-IsSafe bitsize =
    at_fits _ false
      λ t ra lx vx h. read-IsSafe vx (bitsize / 8) λ bytes _. set_reg-IsSafe ra _ h (next-IsSafe t)

load_i-IsSafe : (bitsize : ℕ) → IsGood (IRegIImm.load_i bitsize) false
unfolding IRegIImm.load_i
load_i-IsSafe bitsize =
    at_fits _ false
      λ t ra lx vx h. read-IsSafe vx (bitsize / 8) λ bytes _. set_reg-IsSafe ra _ h (next-IsSafe t)

store_u-IsSafe : (bitsize : ℕ) → IsGood (IRegIImm.store_u bitsize) false
unfolding IRegIImm.store_u
store_u-IsSafe bitsize =
    at_fits _ false
      λ t ra lx vx h. reg-IsSafe ra h λ a. write-IsSafe vx _ (bitsize / 8) (next-IsSafe t)

pub i_reg_i_imm-IsSafe : AllSafe IRegIImm.get_props IRegIImm.table
unfolding IRegIImm.table
i_reg_i_imm-IsSafe =
    search (jump_ind-IsSafe, load_imm-IsSafe, load_u-IsSafe, load_i-IsSafe, store_u-IsSafe)

i_reg_ii_imm-fits :
    (t : Table) (o : Option ℕ) (ra lx ly vx vy : ℕ)
    → Option.map (IRegIiImm.decode t) o ≡ some (ra, lx, ly, vx, vy)
    → ra < 13
unfolding IRegIiImm.decode
i_reg_ii_imm-fits t none ra lx ly vx vy e = cc
i_reg_ii_imm-fits t (some x) ra lx ly vx vy e = ground (arith, clamp_12-lt (x % 16))

store_imm_ind-IsSafe :
    (bitsize : ℕ)
    → IsSafeOp IRegIiImm.get_props
        (record { fn = IRegIiImm.store_imm_ind_u bitsize; gas = 1; is_terminating = false })
unfolding IRegIiImm.store_imm_ind_u IRegIiImm.get_props
store_imm_ind-IsSafe bitsize t (ra, lx, ly, vx, vy) e =
    reg-IsSafe ra (i_reg_ii_imm-fits t (byte_at t 1) ra lx ly vx vy e)
      λ a. write-IsSafe (a + vx) _ (bitsize / 8) (next-IsSafe t)

pub i_reg_ii_imm-IsSafe : AllSafe IRegIiImm.get_props IRegIiImm.table
unfolding IRegIiImm.table
i_reg_ii_imm-IsSafe = search store_imm_ind-IsSafe

i_reg_i_imm_i_offset-fits :
    (t : Table) (xs : List ℕ) (ra lx ly vx : ℕ) (vy : ℤ)
    → IRegIImmIOffset.decode t xs ≡ some (ra, lx, ly, vx, vy)
    → ra < 13
unfolding IRegIImmIOffset.decode
i_reg_i_imm_i_offset-fits t [] ra lx ly vx vy e = cc
i_reg_i_imm_i_offset-fits t (x ∷ xs) ra lx ly vx vy e = ground (arith, clamp_12-lt (x % 16))

load_imm_jump-IsSafe :
    IsSafeOp IRegIImmIOffset.get_props
      (record { fn = IRegIImmIOffset.load_imm_jump; gas = 1; is_terminating = true })
unfolding IRegIImmIOffset.load_imm_jump IRegIImmIOffset.get_props
load_imm_jump-IsSafe t (ra, lx, ly, vx, vy) e =
    set_reg-IsSafe ra vx (i_reg_i_imm_i_offset-fits t (bytes_at t 1 7) ra lx ly vx vy e)
      (take_branch-IsSafe t vy true)

branch_imm-IsSafe :
    (op : CompareOp) (is_signed : Bool)
    → IsSafeOp IRegIImmIOffset.get_props
        (record { fn = IRegIImmIOffset.branch_imm op is_signed; gas = 1; is_terminating = true })
unfolding IRegIImmIOffset.branch_imm IRegIImmIOffset.get_props
branch_imm-IsSafe op is_signed t (ra, lx, ly, vx, vy) e =
    reg-IsSafe ra (i_reg_i_imm_i_offset-fits t (bytes_at t 1 7) ra lx ly vx vy e)
      λ a. take_branch-IsSafe t vy _

pub i_reg_i_imm_i_offset-IsSafe : AllSafe IRegIImmIOffset.get_props IRegIImmIOffset.table
unfolding IRegIImmIOffset.table
i_reg_i_imm_i_offset-IsSafe = search (load_imm_jump-IsSafe, branch_imm-IsSafe)
