-- ===== src/Cpvm/Tables/IiiReg/Operations.antt =====
-- iii_reg.pyx against iii_reg.py: operation by operation.
use tsrkit_pvm.Prelude.{ℕ, ◌^◌, ◌<◌, true, false, List, [], ◌∷◌, All, ◌&◌, ◌≡◌}
use tsrkit_pvm.Common.Utils.{BitOp}
use tsrkit_pvm.Instructions.Tables.IiiReg.Values as Py
use tsrkit_pvm.Cpvm.Tables.IiiReg.Values as Cy
use tsrkit_pvm.Cpvm.Tables.IiiReg.Agree as Same

-- The operations of the Cython table and those of the interpreter's under the same opcode.
abbrev pub operations : List ((ℕ → ℕ → ℕ) × (ℕ → ℕ → ℕ))
operations =
    (Cy.add_32, Py.add_32)
    ∷ (Cy.sub_32, Py.sub_32)
    ∷ (Cy.mul_32, Py.mul_32)
    ∷ (Cy.div_u_32, Py.div_u_32)
    ∷ (Cy.div_s_32, Py.div_s_32)
    ∷ (Cy.rem_u_32, Py.rem_u_32)
    ∷ (Cy.shlo_l_32, Py.shlo_l_32)
    ∷ (Cy.shlo_r_32, Py.shlo_r_32)
    ∷ (Cy.shar_r_32, Py.shar_r_32)
    ∷ (Cy.add_64, Py.add_64)
    ∷ (Cy.sub_64, Py.sub_64)
    ∷ (Cy.mul_64, Py.mul_64)
    ∷ (Cy.div_u_64, Py.div_u_64)
    ∷ (Cy.div_s_64, Py.div_s_64)
    ∷ (Cy.rem_u_64, Py.rem_u_64)
    ∷ (Cy.shlo_l_64, Py.shlo_l_64)
    ∷ (Cy.shlo_r_64, Py.shlo_r_64)
    ∷ (Cy.shar_r_64, Py.shar_r_64)
    ∷ (Cy.and_op, Py.op BitOp.and false false false)
    ∷ (Cy.or_op, Py.op BitOp.or false false false)
    ∷ (Cy.xor_op, Py.op BitOp.xor false false false)
    ∷ (Cy.and_inv, Py.op BitOp.and false true false)
    ∷ (Cy.or_inv, Py.op BitOp.or false true false)
    ∷ (Cy.xnor, Py.op BitOp.xor false false true)
    ∷ (Cy.mul_upper_u_u, Py.mul_upper_u_u)
    ∷ (Cy.mul_upper_s_u, Py.mul_upper_s_u)
    ∷ (Cy.set_lt_u, Py.set_lt_u)
    ∷ (Cy.set_lt_s, Py.set_lt_s)
    ∷ (Cy.max_u, Py.max_u)
    ∷ (Cy.min_u, Py.min_u)
    ∷ (Cy.max_op, Py.max_s)
    ∷ (Cy.min_op, Py.min_s)
    ∷ []

-- On words of 64 bits, 32 operations of iii_reg.pyx store what the methods of iii_reg.py under the
-- same opcodes do: sums, differences, products, quotients, unsigned remainders, shifts, logical
-- operations, comparisons, maxima and minima.
pub operations-Agree : (a c : ℕ) → a < 2 ^ 64 → c < 2 ^ 64 → All (λ p. p.0 a c ≡ p.1 a c) operations
operations-Agree a c h k =
    Same.add_32 a c h k
    & Same.sub_32 a c h k
    & Same.mul_32 a c h k
    & Same.div_u_32 a c h k
    & Same.div_s_32 a c h k
    & Same.rem_u_32 a c h k
    & Same.shlo_l_32 a c h k
    & Same.shlo_r_32 a c h k
    & Same.shar_r_32 a c h k
    & Same.add_64 a c h k
    & Same.sub_64 a c h k
    & Same.mul_64 a c h k
    & Same.div_u_64 a c h k
    & Same.div_s_64 a c h k
    & Same.rem_u_64 a c h k
    & Same.shlo_l_64 a c h k
    & Same.shlo_r_64 a c h k
    & Same.shar_r_64 a c h k
    & Same.and_op a c h k
    & Same.or_op a c h k
    & Same.xor_op a c h k
    & Same.and_inv a c h k
    & Same.or_inv a c h k
    & Same.xnor a c h k
    & Same.mul_upper_u_u a c h k
    & Same.mul_upper_s_u a c h k
    & Same.set_lt_u a c h k
    & Same.set_lt_s a c h k
    & Same.max_u a c h k
    & Same.min_u a c h k
    & Same.max_op a c h k
    & Same.min_op a c h k
    & tt
