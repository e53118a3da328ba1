-- ===== src/Cpvm/Words/Combine.antt =====
-- The bitwise operations of words, as operations on each pair of bits.
use tsrkit_pvm.Prelude.{
  ℕ, zero, suc, ◌+◌, ◌-◌, ◌/◌, ◌%◌, ◌^◌, ◌<◌, min, max, bit_and, bit_or, bit_xor, ◌≡◌, refl, arith,
}
use native.Mathlib.Nat.{pow-succ'}
use tsrkit_pvm.Instructions.Tables.IiiReg.Logic.{combine}
use tsrkit_pvm.Cpvm.Words.Bits.{bit_and_step, bit_or_step, bit_xor_step, differ-mod}

pub combine-lt :
    (f : ℕ → ℕ → ℕ)
    → ((x y : ℕ) → x < 2 → y < 2 → f x y < 2)
    → (n a c : ℕ) → combine f n a c < 2 ^ n
unfolding combine
combine-lt f h zero a c = omega arith
combine-lt f h (suc n) a c = omega (
  arith,
  h (a % 2) (c % 2) (omega arith) (omega arith),
  combine-lt f h n (a / 2) (c / 2),
  pow-succ' 2 n,
)

pub combine_not :
    (f : ℕ → ℕ → ℕ)
    → ((x y : ℕ) → x < 2 → y < 2 → f x y < 2)
    → (n a c : ℕ) → combine (λ x y. 1 - f x y) n a c ≡ 2 ^ n - 1 - combine f n a c
unfolding combine
combine_not f h zero a c = omega arith
combine_not f h (suc n) a c = omega (
  arith,
  h (a % 2) (c % 2) (omega arith) (omega arith),
  combine_not f h n (a / 2) (c / 2),
  combine-lt f h n (a / 2) (c / 2),
  pow-succ' 2 n,
)

pub combine_not_right :
    (f : ℕ → ℕ → ℕ) (n a c : ℕ)
    → c < 2 ^ n
    → combine (λ x y. f x (1 - y)) n a c ≡ combine f n a (2 ^ n - 1 - c)
unfolding combine
combine_not_right f zero a c h = refl
combine_not_right f (suc n) a c h =
    let low : (2 ^ suc n - 1 - c) % 2 ≡ 1 - c % 2 = omega (arith, pow-succ' 2 n) in
    let high : (2 ^ suc n - 1 - c) / 2 ≡ 2 ^ n - 1 - c / 2 = omega (arith, pow-succ' 2 n) in
    rw (low, high, combine_not_right f n (a / 2) (c / 2) (omega (arith, pow-succ' 2 n))) refl

pub combine-and : (n a c : ℕ) → a < 2 ^ n → c < 2 ^ n → combine min n a c ≡ bit_and a c
unfolding combine
combine-and zero zero zero h k = refl
combine-and zero (suc a) c h k = absurd (omega arith)
combine-and zero zero (suc c) h k = absurd (omega arith)
combine-and (suc n) a c h k =
    rw (combine-and n (a / 2) (c / 2) (omega (arith, pow-succ' 2 n)) (omega (arith, pow-succ' 2 n)))
      (omega (arith, bit_and_step a c))

pub combine-or : (n a c : ℕ) → a < 2 ^ n → c < 2 ^ n → combine max n a c ≡ bit_or a c
unfolding combine
combine-or zero zero zero h k = refl
combine-or zero (suc a) c h k = absurd (omega arith)
combine-or zero zero (suc c) h k = absurd (omega arith)
combine-or (suc n) a c h k =
    rw (combine-or n (a / 2) (c / 2) (omega (arith, pow-succ' 2 n)) (omega (arith, pow-succ' 2 n)))
      (omega (arith, bit_or_step a c))

pub combine-xor :
    (n a c : ℕ) → a < 2 ^ n → c < 2 ^ n → combine (λ x y. (x + y) % 2) n a c ≡ bit_xor a c
unfolding combine
combine-xor zero zero zero h k = refl
combine-xor zero (suc a) c h k = absurd (omega arith)
combine-xor zero zero (suc c) h k = absurd (omega arith)
combine-xor (suc n) a c h k =
    rw (combine-xor n (a / 2) (c / 2) (omega (arith, pow-succ' 2 n)) (omega (arith, pow-succ' 2 n)))
      (omega (arith, bit_xor_step a c, differ-mod (a % 2) (c % 2) (omega arith) (omega arith)))
