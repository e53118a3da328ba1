-- ===== src/Common/Signs.antt =====
-- common/utils.py: the signed view of a number of n bytes, and sign extension.
use tsrkit_pvm.Prelude.{
  ℕ, suc, ◌+◌, ◌-◌, ◌*◌, ◌/◌, ◌^◌, ◌≤◌, ◌<◌, false, ltb, ltb→lt, ltb→le, lt→ltb, lt→leb, ◌==◌, pos,
  negsuc, mod_ℤ, ◌≡◌, refl, sym, ap, ◌∙◌, arith, Bool-cases, inl, inr,
}
use native.Mathlib.Nat.{pow-succ', mod-eq_of_lt, div-eq_of_lt, div-eq_of_lt-le, pow-le-pow_right}
use tsrkit_pvm.Common.Utils.{z, z_inv, chi}

-- The signed number of n bytes, with half the modulus `h`.
pub z-low : (x n : ℕ) → 1 ≤ n → x < 2 ^ (8 * n - 1) → z x n ≡ pos x
unfolding z
z-low x n one low = rw (nonzero, lt→ltb x (2 ^ (8 * n - 1)) low) refl
  where
    nonzero : (n == 0) ≡ false
    nonzero = ground arith

pub z-high :
    (x n : ℕ) → 1 ≤ n → 2 ^ (8 * n - 1) ≤ x → x < 2 ^ (8 * n) → z x n ≡ negsuc (2 ^ (8 * n) - x - 1)
unfolding z
z-high x n one high top = rw (nonzero, low, lt→leb (2 ^ (8 * n)) x top) refl
  where
    nonzero : (n == 0) ≡ false
    nonzero = ground arith

    low : ltb x (2 ^ (8 * n - 1)) ≡ false
    low = ground arith

-- The complement of a number below the modulus.
pub mod_ℤ-negsuc : (m a : ℕ) → a < m → mod_ℤ (negsuc a) m ≡ m - 1 - a
mod_ℤ-negsuc m a h = rw (mod-eq_of_lt h) refl

pub half : (n : ℕ) → 1 ≤ n → 2 ^ (8 * n) ≡ 2 * 2 ^ (8 * n - 1)
half n one =
    let next : 8 * n ≡ suc (8 * n - 1) = omega arith in
    ap (λ k. 2 ^ k) next ∙ pow-succ' 2 (8 * n - 1)

-- Reading a number of n bytes, n at least 1, as signed and writing it in n bytes gives the number
-- back.
pub z_inv-z : (x n : ℕ) → 1 ≤ n → x < 2 ^ (8 * n) → z_inv (z x n) n ≡ x
unfolding z_inv
z_inv-z x n one top = elim (Bool-cases (ltb x (2 ^ (8 * n - 1)))) [
  | inl low ↦ rw (z-low x n one (ltb→lt x (2 ^ (8 * n - 1)) low)) (mod-eq_of_lt top)
  | inr high ↦
      rw (z-high x n one (ltb→le x (2 ^ (8 * n - 1)) high) top)
        (mod_ℤ-negsuc (2 ^ (8 * n)) (2 ^ (8 * n) - x - 1) (omega arith) ∙ omega arith)
]

pub chi-low : (x n : ℕ) → 1 ≤ n → x < 2 ^ (8 * n - 1) → chi x n ≡ x
unfolding chi
chi-low x n one low = rw (nonzero, div-eq_of_lt low) (omega arith)
  where
    nonzero : (n == 0) ≡ false
    nonzero = ground arith

pub chi-high :
    (x n : ℕ) → 1 ≤ n → 2 ^ (8 * n - 1) ≤ x → x < 2 ^ (8 * n) → chi x n ≡ x + (2 ^ 64 - 2 ^ (8 * n))
unfolding chi
chi-high x n one high top = rw (nonzero, quotient) (omega arith)
  where
    nonzero : (n == 0) ≡ false
    nonzero = ground arith

    quotient : x / 2 ^ (8 * n - 1) ≡ 1
    quotient = div-eq_of_lt-le (2 ^ (8 * n - 1)) (omega arith) (omega (arith, half n one))

-- For a number of n bytes, n from 1 to 8, `chi` and reading the number as signed and writing it in
-- eight bytes give the same sign extension.
pub chi-z : (x n : ℕ) → 1 ≤ n → n ≤ 8 → x < 2 ^ (8 * n) → chi x n ≡ z_inv (z x n) 8
unfolding z_inv
chi-z x n one small top =
    let fits : 2 ^ (8 * n) ≤ 2 ^ 64 =
      pow-le-pow_right {n = 2} (omega arith) {i = 8 * n} {j = 64} (omega arith) in
    elim (Bool-cases (ltb x (2 ^ (8 * n - 1)))) [
      | inl low ↦
          let l = ltb→lt x (2 ^ (8 * n - 1)) low in
          rw (z-low x n one l) (chi-low x n one l ∙ sym (mod-eq_of_lt (omega arith)))
      | inr high ↦
          let l = ltb→le x (2 ^ (8 * n - 1)) high in
          rw (z-high x n one l top) (
            chi-high x n one l top
            ∙ sym (mod_ℤ-negsuc (2 ^ 64) (2 ^ (8 * n) - x - 1) (omega arith) ∙ omega arith))
    ]
