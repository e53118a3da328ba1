-- ===== src/Cpvm/Tables/IiiReg/Bounds.antt =====
-- iii_reg.pyx: what the operations give fits a register.
use tsrkit_pvm.Prelude.{
  ℕ, ◌+◌, ◌-◌, ◌*◌, ◌/◌, ◌%◌, ◌^◌, ◌<◌, ◌≤◌, Bool, true, false, All, ◌&◌, ℤ, pos, negsuc, bit_and,
  bit_or, bit_xor, min, max, if◌then◌else◌, arith, bit,
}
use native.Mathlib.Nat.{div-le_self, mod-le, mul-le-mul_right, div-lt_iff_lt-mul}
use mathlib.Core.Path.{subst}
use tsrkit_pvm.Cpvm.Words.{as_unsigned, wrap_sub, bit_not, shift_left, shift_right}
use tsrkit_pvm.Cpvm.Utils.{z_inv}
use tsrkit_pvm.Cpvm.Words.Combine.{combine-and, combine-or, combine-xor, combine-lt}
use tsrkit_pvm.Cpvm.Tables.IiiReg.Values as Cy
use tsrkit_pvm.Cpvm.Tables.IiiReg.Operations.{operations}

abbrev IsWord : ℕ → Type 0
IsWord x = x < 2 ^ 64

as_unsigned-lt : (x : ℤ) → as_unsigned 64 x < 2 ^ 64
unfolding as_unsigned
as_unsigned-lt (pos n) = omega arith
as_unsigned-lt (negsuc n) = omega arith

z_inv-lt : (x : ℤ) → z_inv x 8 < 2 ^ 64
unfolding z_inv
z_inv-lt x = as_unsigned-lt x

if-lt : (b : Bool) {x y : ℕ} → x < 2 ^ 64 → y < 2 ^ 64 → (if b then x else y) < 2 ^ 64
if-lt true h k = h
if-lt false h k = k

bit-lt : (b : Bool) → bit b < 2 ^ 64
bit-lt true = omega arith
bit-lt false = omega arith

all_ones : 2 ^ 64 - 1 < 2 ^ 64
all_ones = omega arith

module _ (a c : ℕ) (h : a < 2 ^ 64) (k : c < 2 ^ 64) where
  or-word : (c : ℕ) → c < 2 ^ 64 → bit_or a c < 2 ^ 64
  or-word c k =
      subst IsWord (combine-or 64 a c h k) (combine-lt max (λ x y p q. omega arith) 64 a c)

  and-word : (c : ℕ) → c < 2 ^ 64 → bit_and a c < 2 ^ 64
  and-word c k =
      subst IsWord (combine-and 64 a c h k) (combine-lt min (λ x y p q. omega arith) 64 a c)

  pub xor-word : bit_xor a c < 2 ^ 64
  xor-word =
      subst IsWord (combine-xor 64 a c h k)
        (combine-lt (λ x y. (x + y) % 2) (λ x y p q. omega arith) 64 a c)

  quotient-word : a / c < 2 ^ 64
  quotient-word = omega (arith, div-le_self a c)

  remainder-word : a % c < 2 ^ 64
  remainder-word = omega (arith, mod-le a c)

  div_u_32-word : Cy.div_u_32 a c < 2 ^ 64
  unfolding Cy.div_u_32
  div_u_32-word = if-lt _ all_ones (as_unsigned-lt _)

  div_s_32-word : Cy.div_s_32 a c < 2 ^ 64
  unfolding Cy.div_s_32
  div_s_32-word = if-lt _ all_ones (if-lt _ (z_inv-lt _) (z_inv-lt _))

  div_u_64-word : Cy.div_u_64 a c < 2 ^ 64
  unfolding Cy.div_u_64
  div_u_64-word = if-lt _ all_ones quotient-word

  div_s_64-word : Cy.div_s_64 a c < 2 ^ 64
  unfolding Cy.div_s_64
  div_s_64-word = if-lt _ all_ones (if-lt _ h (as_unsigned-lt _))

  rem_u_64-word : Cy.rem_u_64 a c < 2 ^ 64
  unfolding Cy.rem_u_64
  rem_u_64-word = if-lt _ h remainder-word

  product-word : a * c / 2 ^ 64 < 2 ^ 64
  product-word =
      (div-lt_iff_lt-mul {k = 2 ^ 64} (omega arith)).1 (omega (arith, mul-le-mul_right c top))
    where
      top : a ≤ 2 ^ 64 - 1
      top = omega arith

  pub operations-AreWords : All (λ p. p.0 a c < 2 ^ 64) operations
  unfolding Cy.add_32 Cy.sub_32 Cy.mul_32 Cy.div_u_32 Cy.div_s_32 Cy.rem_u_32 Cy.shlo_l_32
      Cy.shlo_r_32 Cy.shar_r_32 Cy.add_64 Cy.sub_64 Cy.mul_64 Cy.div_u_64 Cy.div_s_64 Cy.rem_u_64
      Cy.shlo_l_64 Cy.shlo_r_64 Cy.shar_r_64 Cy.and_op Cy.or_op Cy.xor_op Cy.and_inv Cy.or_inv
      Cy.xnor Cy.mul_upper_u_u Cy.mul_upper_s_u Cy.set_lt_u Cy.set_lt_s Cy.max_u Cy.min_u Cy.max_op
      Cy.min_op as_unsigned z_inv wrap_sub bit_not shift_left shift_right
  operations-AreWords =
      as_unsigned-lt _
      & as_unsigned-lt _
      & as_unsigned-lt _
      & div_u_32-word
      & div_s_32-word
      & as_unsigned-lt _
      & as_unsigned-lt _
      & as_unsigned-lt _
      & as_unsigned-lt _
      & omega arith
      & omega arith
      & omega arith
      & div_u_64-word
      & div_s_64-word
      & rem_u_64-word
      & omega arith
      & omega (arith, div-le_self a (2 ^ (c % 64 % 64)))
      & z_inv-lt _
      & and-word c k
      & or-word c k
      & xor-word
      & and-word _ (omega arith)
      & or-word _ (omega arith)
      & omega arith
      & product-word
      & z_inv-lt _
      & bit-lt _
      & bit-lt _
      & if-lt _ h k
      & if-lt _ h k
      & as_unsigned-lt _
      & as_unsigned-lt _
      & tt
