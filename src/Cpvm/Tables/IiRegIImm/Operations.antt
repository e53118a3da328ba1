-- ===== src/Cpvm/Tables/IiRegIImm/Operations.antt =====
-- ii_reg_i_imm.pyx against ii_reg_i_imm.py: operation by operation.
use tsrkit_pvm.Prelude.{
  ℕ, ◌+◌, ◌-◌, ◌*◌, ◌/◌, ◌%◌, ◌^◌, ◌<◌, true, false, List, [], ◌∷◌, All, ◌&◌, le→leb, ◌≡◌, refl,
  sym, ap, ◌∙◌, arith, div_ℤ, bit_xor, ℤ, bit, ltb_ℤ,
}
use native.Mathlib.Nat.{mod-mod, mod-eq_of_lt, div-le_self}
use tsrkit_pvm.Common.Utils
use tsrkit_pvm.Common.Utils.{BitOp}
use tsrkit_pvm.Instructions.Tables.IiiReg.Logic.{op_imm-op}
use tsrkit_pvm.Instructions.Tables.IiRegIImm.Values as Py
use tsrkit_pvm.Instructions.Tables.IiiReg.Values as PyRegs
use tsrkit_pvm.Cpvm.Words.{uint32, uint64, wrap_sub, shift_left, shift_right, as_signed}
use tsrkit_pvm.Cpvm.Utils as CyUtils
use tsrkit_pvm.Cpvm.Utils.Agree.{as_signed-z, z-z, z_inv-z_inv, as_unsigned-as_signed}
use tsrkit_pvm.Cpvm.Tables.IiRegIImm.Values as Cy
use tsrkit_pvm.Cpvm.Tables.IiiReg.Values as CyRegs
use tsrkit_pvm.Cpvm.Tables.IiiReg.Agree as Same
use tsrkit_pvm.Common.Signs.{chi-z, z_inv-z}

-- The operations of the Cython table and those of the interpreter's under the same opcode; those
-- called `alt` in the source shift the immediate by the register.
abbrev pub operations : List ((ℕ → ℕ → ℕ) × (ℕ → ℕ → ℕ))
operations =
    (Cy.add_imm_32, Py.add_imm 32)
    ∷ (Cy.and_imm, Py.op_imm BitOp.and)
    ∷ (Cy.xor_imm, Py.op_imm BitOp.xor)
    ∷ (Cy.or_imm, Py.op_imm BitOp.or)
    ∷ (Cy.mul_imm_32, Py.mul_imm 32)
    ∷ (Cy.set_lt_u_imm, Py.set_lt_u_imm)
    ∷ (Cy.set_lt_s_imm, Py.set_lt_s_imm)
    ∷ (Cy.shlo_l_32, Py.shlo_l_imm 32 false)
    ∷ (Cy.shlo_r_32, Py.shlo_r_imm 32 false)
    ∷ (Cy.shar_r_32, Py.shar_r_imm 32 false)
    ∷ (Cy.set_gt_u_imm, Py.set_gt_u_imm)
    ∷ (Cy.set_gt_s_imm, Py.set_gt_s_imm)
    ∷ ((λ w vx. Cy.shlo_l_32 vx w), Py.shlo_l_imm 32 true)
    ∷ ((λ w vx. Cy.shlo_r_32 vx w), Py.shlo_r_imm 32 true)
    ∷ ((λ w vx. Cy.shar_r_32 vx w), Py.shar_r_imm 32 true)
    ∷ (Cy.add_imm_64, Py.add_imm 64)
    ∷ (Cy.mul_imm_64, Py.mul_imm 64)
    ∷ (Cy.shlo_l_64, Py.shlo_l_imm 64 false)
    ∷ (Cy.shlo_r_64, Py.shlo_r_imm 64 false)
    ∷ (Cy.shar_r_64, Py.shar_r_imm 64 false)
    ∷ (Cy.neg_add_imm_64, Py.neg_add_imm 64)
    ∷ ((λ w vx. Cy.shlo_l_64 vx w), Py.shlo_l_imm 64 true)
    ∷ ((λ w vx. Cy.shlo_r_64 vx w), Py.shlo_r_imm 64 true)
    ∷ ((λ w vx. Cy.shar_r_64 vx w), Py.shar_r_imm 64 true)
    ∷ []

chi_8-chi : (x : ℕ) → x < 2 ^ 64 → Cy.chi_of 8 x ≡ Utils.chi x 8
unfolding CyUtils.chi
chi_8-chi x h =
    as_unsigned-as_signed 64 x h
    ∙ sym (chi-z x 8 (omega arith) (omega arith) h ∙ z_inv-z x 8 (omega arith) h)

z_4-z : (x : ℕ) → CyUtils.z x 4 ≡ Utils.z (x % 2 ^ 32) 4
unfolding CyUtils.z
z_4-z x =
    ap (λ y. as_signed 64 (uint64 (bit_xor y (2 ^ 31) + (2 ^ 64 - 2 ^ 31))))
      (sym (mod-mod x (2 ^ 32)))
    ∙ z-z 4 (omega arith) (omega arith) (x % 2 ^ 32) (omega arith)

z_8-z : (x : ℕ) → x < 2 ^ 64 → CyUtils.z x 8 ≡ Utils.z x 8
unfolding CyUtils.z
z_8-z x h = as_signed-z x 8 (omega arith) h

word_32 : (x : ℕ) → uint32 (uint64 x) ≡ x % 2 ^ 32
word_32 x = omega arith

module _ (w vx : ℕ) (h : w < 2 ^ 64) (k : vx < 2 ^ 64) where
  add_imm_32 : Cy.add_imm_32 w vx ≡ Py.add_imm 32 w vx
  unfolding Cy.add_imm_32 Py.add_imm
  add_imm_32 =
      Same.chi_4-chi (uint32 (uint64 (w + vx))) (omega arith)
      ∙ ap (λ x. Utils.chi x 4) (word_32 (w + vx))

  mul_imm_32 : Cy.mul_imm_32 w vx ≡ Py.mul_imm 32 w vx
  unfolding Cy.mul_imm_32 Py.mul_imm
  mul_imm_32 =
      Same.chi_4-chi (uint32 (uint64 (w * vx))) (omega arith)
      ∙ ap (λ x. Utils.chi x 4) (word_32 (w * vx))

  and_imm : Cy.and_imm w vx ≡ Py.op_imm BitOp.and w vx
  unfolding Cy.and_imm CyRegs.and_op
  and_imm = Same.and_op w vx h k ∙ sym (op_imm-op BitOp.and w vx)

  xor_imm : Cy.xor_imm w vx ≡ Py.op_imm BitOp.xor w vx
  unfolding Cy.xor_imm CyRegs.xor_op
  xor_imm = Same.xor_op w vx h k ∙ sym (op_imm-op BitOp.xor w vx)

  or_imm : Cy.or_imm w vx ≡ Py.op_imm BitOp.or w vx
  unfolding Cy.or_imm CyRegs.or_op
  or_imm = Same.or_op w vx h k ∙ sym (op_imm-op BitOp.or w vx)

  set_lt_s_imm : Cy.set_lt_s_imm w vx ≡ Py.set_lt_s_imm w vx
  unfolding Cy.set_lt_s_imm Py.set_lt_s_imm CyRegs.set_lt_s PyRegs.set_lt_s
  set_lt_s_imm = Same.set_lt_s w vx h k

  set_gt_s_imm : Cy.set_gt_s_imm w vx ≡ Py.set_gt_s_imm w vx
  unfolding Cy.set_gt_s_imm Py.set_gt_s_imm
  set_gt_s_imm = both_sides (z_8-z vx k) (z_8-z w h)
    where
      both_sides : {x y u v : ℤ} → x ≡ y → u ≡ v → bit (ltb_ℤ x u) ≡ bit (ltb_ℤ y v)
      both_sides e f i = bit (ltb_ℤ (e i) (f i))

  neg_add_imm_64 : Cy.neg_add_imm_64 w vx ≡ Py.neg_add_imm 64 w vx
  unfolding Cy.neg_add_imm_64 Py.neg_add_imm wrap_sub
  neg_add_imm_64 = rw (le→leb w (vx + 2 ^ 64) (omega arith)) (omega arith)

-- The shifts of `v` by `n`.
module _ (v n : ℕ) (h : v < 2 ^ 64) (k : n < 2 ^ 64) where
  shlo_l_32 : Cy.shlo_l_32 v n ≡ Utils.chi (v * 2 ^ (n % 32) % 2 ^ 32) 4
  unfolding Cy.shlo_l_32 CyRegs.shlo_l_32 PyRegs.shlo_l_32
  shlo_l_32 = Same.shlo_l_32 v n h k

  shlo_r_32 : Cy.shlo_r_32 v n ≡ Utils.chi (v % 2 ^ 32 / 2 ^ (n % 32) % 2 ^ 32) 4
  unfolding Cy.shlo_r_32 CyRegs.shlo_r_32 PyRegs.shlo_r_32
  shlo_r_32 =
      Same.shlo_r_32 v n h k
      ∙ ap (λ x. Utils.chi x 4) (omega (arith, div-le_self (v % 2 ^ 32) (2 ^ (n % 32))))

  shar_r_32 : Cy.shar_r_32 v n ≡ Utils.z_inv (div_ℤ (Utils.z (v % 2 ^ 32) 4) (2 ^ (n % 32))) 8
  unfolding Cy.shar_r_32
  shar_r_32 = z_inv-z_inv _ ∙ ap (λ x. Utils.z_inv (div_ℤ x (2 ^ (n % 32))) 8) (z_4-z v)

  shlo_l_64 : Cy.shlo_l_64 v n ≡ Utils.chi (v * 2 ^ (n % 64) % 2 ^ 64) 8
  unfolding Cy.shlo_l_64 shift_left
  shlo_l_64 =
      chi_8-chi (v * 2 ^ (n % 64 % 64) % 2 ^ 64) (omega arith)
      ∙ ap (λ m. Utils.chi (v * 2 ^ m % 2 ^ 64) 8) (mod-mod n 64)

  shlo_r_64 : Cy.shlo_r_64 v n ≡ Utils.chi (v % 2 ^ 64 / 2 ^ (n % 64) % 2 ^ 64) 8
  unfolding Cy.shlo_r_64 shift_right
  shlo_r_64 =
      chi_8-chi (v / 2 ^ (n % 64 % 64)) (omega (arith, div-le_self v (2 ^ (n % 64 % 64))))
      ∙ ap (λ m. Utils.chi (v / 2 ^ m) 8) (mod-mod n 64)
      ∙ ap (λ x. Utils.chi x 8)
          (ap (λ x. x / 2 ^ (n % 64)) (sym (mod-eq_of_lt h))
            ∙ sym (mod-eq_of_lt (omega (arith, div-le_self (v % 2 ^ 64) (2 ^ (n % 64))))))

  shar_r_64 : Cy.shar_r_64 v n ≡ Utils.z_inv (div_ℤ (Utils.z (v % 2 ^ 64) 8) (2 ^ (n % 64))) 8
  unfolding Cy.shar_r_64
  shar_r_64 =
      z_inv-z_inv _
      ∙ ap (λ x. Utils.z_inv (div_ℤ x (2 ^ (n % 64))) 8)
          (z_8-z v h ∙ ap (λ x. Utils.z x 8) (sym (mod-eq_of_lt h)))

-- On words of 64 bits, 24 operations of ii_reg_i_imm.pyx with an immediate store what the methods
-- of ii_reg_i_imm.py under the same opcodes do: sums, products, the difference of 64 bits, logical
-- operations, comparisons and shifts, those of the immediate by the register included.
pub operations_imm-Agree :
    (w vx : ℕ) → w < 2 ^ 64 → vx < 2 ^ 64 → All (λ p. p.0 w vx ≡ p.1 w vx) operations
unfolding Py.shlo_l_imm Py.shlo_r_imm Py.shar_r_imm Cy.set_lt_u_imm Py.set_lt_u_imm Cy.set_gt_u_imm
    Py.set_gt_u_imm Cy.add_imm_64 Py.add_imm Cy.mul_imm_64 Py.mul_imm
operations_imm-Agree w vx h k =
    add_imm_32 w vx h k
    & and_imm w vx h k
    & xor_imm w vx h k
    & or_imm w vx h k
    & mul_imm_32 w vx h k
    & refl
    & set_lt_s_imm w vx h k
    & shlo_l_32 w vx h k
    & shlo_r_32 w vx h k
    & shar_r_32 w vx h k
    & refl
    & set_gt_s_imm w vx h k
    & shlo_l_32 vx w k h
    & shlo_r_32 vx w k h
    & shar_r_32 vx w k h
    & refl
    & refl
    & shlo_l_64 w vx h k
    & shlo_r_64 w vx h k
    & shar_r_64 w vx h k
    & neg_add_imm_64 w vx h k
    & shlo_l_64 vx w k h
    & shlo_r_64 vx w k h
    & shar_r_64 vx w k h
    & tt
