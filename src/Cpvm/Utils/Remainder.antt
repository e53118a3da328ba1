-- ===== src/Cpvm/Utils/Remainder.antt =====
-- cy_utils.pyx: the signed remainder against that of common/utils.py.
use tsrkit_pvm.Prelude.{
  lt→ltb, ℕ, zero, suc, true, false, ◌+◌, ◌-◌, ◌%◌, ◌^◌, ◌<◌, ltb, ◌==◌, ℤ, pos, negsuc, ◌-ℤ◌,
  eqb_ℤ, abs, is_neg, signed, ◌≡◌, refl, sym, ap, ◌∙◌, arith, if◌then◌else◌, if-elim, sub_ℕ,
}
use native.Mathlib.Nat.{mod-eq_of_lt, mod-le}
use tsrkit_pvm.Common.Utils
use tsrkit_pvm.Cpvm.Utils.{smod, int64, abs_int64}
use tsrkit_pvm.Cpvm.Words.{as_signed, as_unsigned, c_rem}

-- A number of 64 bits whose opposite is one.
abbrev pub IsSmall : ℤ → Type 0
IsSmall a = abs a < 2 ^ 63

int64-pos : (n : ℕ) → n < 2 ^ 63 → int64 (pos n) ≡ pos n
unfolding as_signed as_unsigned
int64-pos n h = rw (wide, lt→ltb n (2 ^ 63) h) refl
  where
    wide : n % 2 ^ 64 ≡ n
    wide = mod-eq_of_lt (omega arith)

int64-neg : (n : ℕ) → n < 2 ^ 63 → int64 (negsuc n) ≡ negsuc n
unfolding as_signed as_unsigned
int64-neg n h = rw (wide, high) (ap negsuc (omega arith))
  where
    wide : n % 2 ^ 64 ≡ n
    wide = mod-eq_of_lt (omega arith)

    high : ltb (2 ^ 64 - 1 - n) (2 ^ 63) ≡ false
    high = ground arith

minus : (n : ℕ) → n < 2 ^ 63 → int64 (pos 0 -ℤ pos n) ≡ signed true n
minus zero h = int64-pos 0 h
minus (suc n) h = ap int64 below ∙ int64-neg n (omega arith) ∙ sym signed_suc
  where
    below : pos 0 -ℤ pos (suc n) ≡ negsuc n
    below = ground arith

    signed_suc : sub_ℕ 0 (suc n) ≡ negsuc n
    signed_suc = ground arith

abs_int64-abs : (a : ℤ) → IsSmall a → abs_int64 a ≡ pos (abs a)
abs_int64-abs (pos n) h = ap pos (omega arith)
abs_int64-abs (negsuc n) h =
    ap int64 opposite ∙ int64-pos (suc n) (omega arith) ∙ ap pos (omega arith)
  where
    opposite : pos 0 -ℤ negsuc n ≡ pos (suc n)
    opposite = ground arith

c_rem-pos : (x y : ℕ) → c_rem (pos x) (pos y) ≡ pos (x % y)
unfolding c_rem
c_rem-pos x y =
    let left : x + 0 ≡ x = omega arith in
    let right : y + 0 ≡ y = omega arith in rw (left, right) refl

eqb_ℤ-zero : (b : ℤ) → eqb_ℤ b (pos 0) ≡ (abs b == 0)
eqb_ℤ-zero (pos n) = ground arith
eqb_ℤ-zero (negsuc n) = ground arith

-- On integers of absolute value below 2^63, `smod` of cy_utils.pyx gives what `smod` of utils.py
-- does: the remainder with the sign of the dividend, or the dividend if the divisor is 0.
pub smod-smod : (a b : ℤ) → IsSmall a → IsSmall b → smod a b ≡ Utils.smod a b
unfolding smod Utils.smod
smod-smod a b h k =
    rw (abs_int64-abs a h, abs_int64-abs b k, eqb_ℤ-zero b, c_rem-pos (abs a) (abs b))
      (if-elim (λ r. r ≡ (if abs b == 0 then a else signed (is_neg a) (abs a % abs b))) (abs b == 0)
        (λ e. rw e refl)
        (λ e. rw e (
          if-elim (λ r. r ≡ signed (is_neg a) (abs a % abs b)) (is_neg a)
            (λ n. rw n (minus (abs a % abs b) (omega (arith, mod-le (abs a) (abs b)))))
            (λ n. rw n refl))))
