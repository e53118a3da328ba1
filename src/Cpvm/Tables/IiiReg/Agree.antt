-- ===== src/Cpvm/Tables/IiiReg/Agree.antt =====
-- iii_reg.pyx against iii_reg.py: the values that the methods store.
use tsrkit_pvm.Prelude.{
  ℕ, zero, suc, ◌+◌, ◌-◌, ◌*◌, ◌/◌, ◌%◌, ◌^◌, ◌<◌, min, max, true, false, ◌==◌, if◌then◌else◌, ℤ,
  pos, negsuc, ltb_ℤ, ◌≡◌, refl, sym, ap, ◌∙◌, arith, if-elim, le→leb,
}
use native.Mathlib.Nat.{
  mod-eq_of_lt, mod-mod, add-mul-mod_self_right, mod-add-div', mul_comm, div-le_self, mod-le,
}
use tsrkit_pvm.Common.Utils
use tsrkit_pvm.Common.Utils.{BitOp, bit_op}
use tsrkit_pvm.Instructions.Tables.IiiReg.Logic.{op-combine, combine_ext}
use tsrkit_pvm.Instructions.Tables.IiiReg.Values as Py
use tsrkit_pvm.Cpvm.Words.{
  uint32, as_signed, as_unsigned, wrap_sub, bit_not, shift_left, shift_right, c_div,
}
use tsrkit_pvm.Cpvm.Words.Combine.{
  combine_not, combine_not_right, combine-and, combine-or, combine-xor,
}
use tsrkit_pvm.Cpvm.Utils.Agree.{chi-chi, as_signed-z, z_inv-z_inv}
use tsrkit_pvm.Cpvm.Tables.IiiReg.Values as Cy
use tsrkit_pvm.Cpvm.Tables.IiiReg.Values.{chi_4}
use tsrkit_pvm.Cpvm.Utils.{z, z_inv}

-- Two operations that agree on words of 64 bits.
abbrev pub Agree : (ℕ → ℕ → ℕ) → (ℕ → ℕ → ℕ) → Type 0
Agree f g = (a c : ℕ) → a < 2 ^ 64 → c < 2 ^ 64 → f a c ≡ g a c

pub chi_4-chi : (x : ℕ) → x < 2 ^ 32 → chi_4 x ≡ Utils.chi x 4
chi_4-chi x h = chi-chi 4 (omega arith) (omega arith) x h

-- Words of 64 and of 32 bits read as signed, and the quotient and product modulo 2 ^ w.
signed_64 : (x : ℕ) → x < 2 ^ 64 → as_signed 64 x ≡ Utils.z x 8
signed_64 x h = as_signed-z x 8 (omega arith) h

signed_32 : (x : ℕ) → as_signed 32 (uint32 x) ≡ Utils.z (x % 2 ^ 32) 4
signed_32 x = as_signed-z (x % 2 ^ 32) 4 (omega arith) (omega arith)

unsigned_64 : (x : ℤ) → as_unsigned 64 x ≡ Utils.z_inv x 8
unfolding as_unsigned Utils.z_inv
unsigned_64 x = refl

mod-mul : (a c m : ℕ) → a % m * c % m ≡ a * c % m
mod-mul a c m =
    sym (add-mul-mod_self_right (a % m * c) (a / m * c) m)
    ∙ ap (λ n. n % m) (split ∙ ap (λ n. n * c) (mod-add-div' a m))
  where
    split : a % m * c + a / m * c * m ≡ (a % m + a / m * m) * c
    split = omega arith

pub add_32 : Agree Cy.add_32 Py.add_32
unfolding Cy.add_32 Py.add_32
add_32 a c h k =
    chi_4-chi (uint32 (uint32 a + uint32 c)) (omega arith) ∙ ap (λ x. Utils.chi x 4) (omega arith)

pub sub_32 : Agree Cy.sub_32 Py.sub_32
unfolding Cy.sub_32 Py.sub_32 wrap_sub
sub_32 a c h k =
    chi_4-chi (uint32 (uint32 a + (2 ^ 32 - uint32 c))) (omega arith)
    ∙ ap (λ x. Utils.chi x 4) (omega arith)

pub mul_32 : Agree Cy.mul_32 Py.mul_32
unfolding Cy.mul_32 Py.mul_32
mul_32 a c h k =
    chi_4-chi (uint32 (uint32 a * uint32 c)) (omega arith)
    ∙ ap (λ x. Utils.chi x 4)
        (mod-mul a (uint32 c) (2 ^ 32)
          ∙ ap (λ x. x % 2 ^ 32) (mul_comm a (uint32 c))
          ∙ mod-mul c a (2 ^ 32)
          ∙ ap (λ x. x % 2 ^ 32) (mul_comm c a))

pub div_u_32 : Agree Cy.div_u_32 Py.div_u_32
unfolding Cy.div_u_32 Py.div_u_32
div_u_32 a c h k =
    ap (λ x. if uint32 c == 0 then 2 ^ 64 - 1 else x)
      (chi_4-chi (uint32 a / uint32 c) (omega (arith, div-le_self (uint32 a) (uint32 c))))

pub div_s_32 : Agree Cy.div_s_32 Py.div_s_32
unfolding Cy.div_s_32 Py.div_s_32 Py.trunc_div c_div as_unsigned z_inv Utils.z_inv
div_s_32 a c h k = rw (signed_32 a, signed_32 c) refl

pub rem_u_32 : Agree Cy.rem_u_32 Py.rem_u_32
unfolding Cy.rem_u_32 Py.rem_u_32
rem_u_32 a c h k = chi_4-chi (if uint32 c == 0 then uint32 a else uint32 a % uint32 c) small
  where
    small : (if uint32 c == 0 then uint32 a else uint32 a % uint32 c) < 2 ^ 32
    small =
        if-elim (λ x. x < 2 ^ 32) (uint32 c == 0) (λ _. omega arith)
          (λ _. omega (arith, mod-le (uint32 a) (uint32 c)))

pub shlo_l_32 : Agree Cy.shlo_l_32 Py.shlo_l_32
unfolding Cy.shlo_l_32 Py.shlo_l_32 shift_left
shlo_l_32 a c h k =
    chi_4-chi (uint32 a * 2 ^ (c % 32 % 32) % 2 ^ 32) (omega arith)
    ∙ ap (λ x. Utils.chi x 4)
        (mod-mul a (2 ^ (c % 32 % 32)) (2 ^ 32) ∙ ap (λ n. a * 2 ^ n % 2 ^ 32) (mod-mod c 32))

pub shlo_r_32 : Agree Cy.shlo_r_32 Py.shlo_r_32
unfolding Cy.shlo_r_32 Py.shlo_r_32 shift_right
shlo_r_32 a c h k =
    chi_4-chi (uint32 a / 2 ^ (c % 32 % 32))
      (omega (arith, div-le_self (uint32 a) (2 ^ (c % 32 % 32))))
    ∙ ap (λ n. Utils.chi (uint32 a / 2 ^ n) 4) (mod-mod c 32)

pub shar_r_32 : Agree Cy.shar_r_32 Py.shar_r_32
unfolding Cy.shar_r_32 Py.shar_r_32
shar_r_32 a c h k = rw (signed_32 a) (unsigned_64 _)

pub add_64 : Agree Cy.add_64 Py.add_64
unfolding Cy.add_64 Py.add_64
add_64 a c h k = refl

pub sub_64 : Agree Cy.sub_64 Py.sub_64
unfolding Cy.sub_64 Py.sub_64 wrap_sub
sub_64 a c h k = rw (le→leb c (a + 2 ^ 64) (omega arith)) (omega arith)

pub mul_64 : Agree Cy.mul_64 Py.mul_64
unfolding Cy.mul_64 Py.mul_64
mul_64 a c h k = mod-mod (a * c) (2 ^ 64)

pub div_u_64 : Agree Cy.div_u_64 Py.div_u_64
unfolding Cy.div_u_64 Py.div_u_64
div_u_64 a c h k = refl

pub div_s_64 : Agree Cy.div_s_64 Py.div_s_64
unfolding Cy.div_s_64 Py.div_s_64 Py.trunc_div c_div as_unsigned Utils.z_inv
div_s_64 a c h k = rw (signed_64 a h, signed_64 c k) refl

pub rem_u_64 : Agree Cy.rem_u_64 Py.rem_u_64
unfolding Cy.rem_u_64 Py.rem_u_64
rem_u_64 a c h k = refl

pub shlo_l_64 : Agree Cy.shlo_l_64 Py.shlo_l_64
unfolding Cy.shlo_l_64 Py.shlo_l_64 shift_left
shlo_l_64 a c h k = ap (λ n. a * 2 ^ n % 2 ^ 64) (mod-mod c 64)

pub shlo_r_64 : Agree Cy.shlo_r_64 Py.shlo_r_64
unfolding Cy.shlo_r_64 Py.shlo_r_64 shift_right
shlo_r_64 a c h k =
    ap (λ n. a / 2 ^ n) (mod-mod c 64) ∙ ap (λ x. x / 2 ^ (c % 64)) (sym (mod-eq_of_lt h))

pub shar_r_64 : Agree Cy.shar_r_64 Py.shar_r_64
unfolding Cy.shar_r_64 Py.shar_r_64
shar_r_64 a c h k =
    let same : a % 2 ^ 64 ≡ a = mod-eq_of_lt h in rw (signed_64 a h, same) (z_inv-z_inv _)

-- The operation of `_op` on a pair of bits.
min-and : (x y : ℕ) → x < 2 → y < 2 → bit_op BitOp.and x y ≡ min x y
unfolding bit_op
min-and zero y h k = omega arith
min-and (suc zero) y h k = omega arith
min-and (suc (suc x)) y h k = absurd (omega arith)

pub and_op : Agree Cy.and_op (Py.op BitOp.and false false false)
unfolding Cy.and_op
and_op a c h k = sym (
    op-combine BitOp.and false false false a c
    ∙ combine_ext _ min min-and 64 a c
    ∙ combine-and 64 a c h k)

pub or_op : Agree Cy.or_op (Py.op BitOp.or false false false)
unfolding Cy.or_op bit_op
or_op a c h k = sym (op-combine BitOp.or false false false a c ∙ combine-or 64 a c h k)

pub xor_op : Agree Cy.xor_op (Py.op BitOp.xor false false false)
unfolding Cy.xor_op bit_op
xor_op a c h k = sym (op-combine BitOp.xor false false false a c ∙ combine-xor 64 a c h k)

pub and_inv : Agree Cy.and_inv (Py.op BitOp.and false true false)
unfolding Cy.and_inv bit_not
and_inv a c h k = sym (
    op-combine BitOp.and false true false a c
    ∙ combine_ext _ (λ x y. min x (1 - y)) (λ x y p q. min-and x (1 - y) p (omega arith)) 64 a c
    ∙ combine_not_right min 64 a c k
    ∙ combine-and 64 a (2 ^ 64 - 1 - c) h (omega arith))

pub or_inv : Agree Cy.or_inv (Py.op BitOp.or false true false)
unfolding Cy.or_inv bit_not bit_op
or_inv a c h k = sym (
    op-combine BitOp.or false true false a c
    ∙ combine_not_right max 64 a c k
    ∙ combine-or 64 a (2 ^ 64 - 1 - c) h (omega arith))

pub xnor : Agree Cy.xnor (Py.op BitOp.xor false false true)
unfolding Cy.xnor bit_not bit_op
xnor a c h k = sym (
    op-combine BitOp.xor false false true a c
    ∙ combine_not (λ x y. (x + y) % 2) (λ x y p q. omega arith) 64 a c
    ∙ ap (λ x. 2 ^ 64 - 1 - x) (combine-xor 64 a c h k))

pub mul_upper_u_u : Agree Cy.mul_upper_u_u Py.mul_upper_u_u
unfolding Cy.mul_upper_u_u Py.mul_upper_u_u
mul_upper_u_u a c h k = refl

pub mul_upper_s_u : Agree Cy.mul_upper_s_u Py.mul_upper_s_u
unfolding Cy.mul_upper_s_u Py.mul_upper_s_u z
mul_upper_s_u a c h k = rw (signed_64 a h) (z_inv-z_inv _)

pub set_lt_u : Agree Cy.set_lt_u Py.set_lt_u
unfolding Cy.set_lt_u Py.set_lt_u
set_lt_u a c h k = refl

pub set_lt_s : Agree Cy.set_lt_s Py.set_lt_s
unfolding Cy.set_lt_s Py.set_lt_s
set_lt_s a c h k = rw (signed_64 a h, signed_64 c k) refl

pub max_u : Agree Cy.max_u Py.max_u
unfolding Cy.max_u Py.max_u
max_u a c h k = ground arith

pub min_u : Agree Cy.min_u Py.min_u
unfolding Cy.min_u Py.min_u
min_u a c h k = ground arith

-- Of two integers neither of which is less than the other, it does not matter which one is taken.
ltb_ℤ-swap : (a c : ℤ) → (if ltb_ℤ c a then a else c) ≡ (if ltb_ℤ a c then c else a)
ltb_ℤ-swap (pos a) (pos c) = ground arith
ltb_ℤ-swap (pos a) (negsuc c) = ground arith
ltb_ℤ-swap (negsuc a) (pos c) = ground arith
ltb_ℤ-swap (negsuc a) (negsuc c) = ground arith

ltb_ℤ-swap_min : (a c : ℤ) → (if ltb_ℤ a c then a else c) ≡ (if ltb_ℤ c a then c else a)
ltb_ℤ-swap_min (pos a) (pos c) = ground arith
ltb_ℤ-swap_min (pos a) (negsuc c) = ground arith
ltb_ℤ-swap_min (negsuc a) (pos c) = ground arith
ltb_ℤ-swap_min (negsuc a) (negsuc c) = ground arith

pub max_op : Agree Cy.max_op Py.max_s
unfolding Cy.max_op Py.max_s
max_op a c h k =
    rw (signed_64 a h, signed_64 c k)
      (ap (as_unsigned 64) (ltb_ℤ-swap (Utils.z a 8) (Utils.z c 8)) ∙ unsigned_64 _)

pub min_op : Agree Cy.min_op Py.min_s
unfolding Cy.min_op Py.min_s
min_op a c h k =
    rw (signed_64 a h, signed_64 c k)
      (ap (as_unsigned 64) (ltb_ℤ-swap_min (Utils.z a 8) (Utils.z c 8)) ∙ unsigned_64 _)
