-- ===== src/Cpvm/Tables/IiiReg/Laws.antt =====
-- iii_reg.pyx: how the operations of 64 bits belong together.
use tsrkit_pvm.Prelude.{
  ℕ, ◌+◌, ◌-◌, ◌*◌, ◌^◌, ◌<◌, ◌≤◌, false, All, ◌≡◌, ◌≢◌, ◌⊎◌, inl, inr, refl, arith, ltb, ltb→lt,
  ltb→le, Bool-cases, ◌==◌,
}
use native.Mathlib.Nat.{div-add-mod, mod-lt}
use tsrkit_pvm.Cpvm.Words.{wrap_sub, bit_not}
use tsrkit_pvm.Cpvm.Tables.IiiReg.Values as Cy
use tsrkit_pvm.Cpvm.Tables.IiiReg.Operations.{operations}
use tsrkit_pvm.Cpvm.Tables.IiiReg.Bounds.{operations-AreWords, xor-word}

pub record Laws (a c : ℕ) : Type 0 where
  words : All (λ p. p.0 a c < 2 ^ 64) operations
  difference : Cy.sub_64 (Cy.add_64 a c) c ≡ a
  product : Cy.mul_upper_u_u a c * 2 ^ 64 + Cy.mul_64 a c ≡ a * c
  quotient : c ≢ 0 → (c * Cy.div_u_64 a c + Cy.rem_u_64 a c ≡ a) × (Cy.rem_u_64 a c < c)
  extremes :
      (Cy.min_u a c ≤ Cy.max_u a c)
      × (((Cy.min_u a c ≡ a) × (Cy.max_u a c ≡ c)) ⊎ ((Cy.min_u a c ≡ c) × (Cy.max_u a c ≡ a)))
  less : ((Cy.set_lt_u a c ≡ 1) × (a < c)) ⊎ ((Cy.set_lt_u a c ≡ 0) × (c ≤ a))
  complement : Cy.xnor a c + Cy.xor_op a c ≡ 2 ^ 64 - 1

module _ (a c : ℕ) where
  difference_lem : a < 2 ^ 64 → c < 2 ^ 64 → Cy.sub_64 (Cy.add_64 a c) c ≡ a
  unfolding Cy.sub_64 Cy.add_64 wrap_sub
  difference_lem h k = omega arith

  product_lem : Cy.mul_upper_u_u a c * 2 ^ 64 + Cy.mul_64 a c ≡ a * c
  unfolding Cy.mul_upper_u_u Cy.mul_64
  product_lem = omega arith

  quotient_lem : c ≢ 0 → (c * Cy.div_u_64 a c + Cy.rem_u_64 a c ≡ a) × (Cy.rem_u_64 a c < c)
  unfolding Cy.div_u_64 Cy.rem_u_64
  quotient_lem h =
      let apart : (c == 0) ≡ false = ground arith in
      rw apart (div-add-mod a c, mod-lt a (omega arith))

  extremes_lem :
      (Cy.min_u a c ≤ Cy.max_u a c)
      × (((Cy.min_u a c ≡ a) × (Cy.max_u a c ≡ c)) ⊎ ((Cy.min_u a c ≡ c) × (Cy.max_u a c ≡ a)))
  unfolding Cy.min_u Cy.max_u
  extremes_lem = ground arith

  less_lem : ((Cy.set_lt_u a c ≡ 1) × (a < c)) ⊎ ((Cy.set_lt_u a c ≡ 0) × (c ≤ a))
  unfolding Cy.set_lt_u
  less_lem = elim (Bool-cases (ltb a c)) [
    | inl lt ↦ inl (rw lt refl, ltb→lt a c lt)
    | inr ge ↦ inr (rw ge refl, ltb→le a c ge)
  ]

  complement_lem : a < 2 ^ 64 → c < 2 ^ 64 → Cy.xnor a c + Cy.xor_op a c ≡ 2 ^ 64 - 1
  unfolding Cy.xnor Cy.xor_op bit_not
  complement_lem h k = omega (arith, xor-word a c h k)

-- On words of 64 bits, each of the 32 operations of iii_reg.pyx gives a word of 64 bits; `sub_64`
-- undoes `add_64`; `mul_upper_u_u` and `mul_64` are the upper and the lower half of the product;
-- for a divisor that is not 0, `div_u_64` and `rem_u_64` are the quotient and a remainder less
-- than the divisor; `min_u` is at most `max_u` and the two are the operands; `set_lt_u` is 1 if
-- the first operand is less and 0 if not; `xnor` and `xor_op` add up to 2^64 - 1, all bits set.
pub operations-Laws : (a c : ℕ) → a < 2 ^ 64 → c < 2 ^ 64 → Laws a c
operations-Laws a c h k = record {
  words = operations-AreWords a c h k;
  difference = difference_lem a c h k;
  product = product_lem a c;
  quotient = quotient_lem a c;
  extremes = extremes_lem a c;
  less = less_lem a c;
  complement = complement_lem a c h k;
}
