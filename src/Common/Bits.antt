-- ===== src/Common/Bits.antt =====
-- common/utils.py: bit lists and numbers.
use tsrkit_pvm.Prelude.{
  ℕ, zero, suc, ◌+◌, ◌*◌, ◌/◌, ◌%◌, ◌^◌, ◌<◌, false, List, [], ◌∷◌, ◌++◌, All, ◌≡◌, refl, sym, ap,
  ◌∙◌, arith,
}
use native.Mathlib.Nat.{pow-suc, pow-succ', div-div-eq-div-mul, mul_assoc, mul-add, mul-zero}
use tsrkit_pvm.Common.Utils.{b, b_loop, b_inv, b_inv_loop, byte_to_bits}

-- The n lowest bits of a number, the lowest first, and the number that bits stand for.
unfoldable pub bits_of : ℕ → ℕ → List ℕ
bits_of w zero = []
bits_of w (suc n) = w % 2 ∷ bits_of (w / 2) n

unfoldable pub from_bits : List ℕ → ℕ
from_bits [] = 0
from_bits (x ∷ xs) = x + 2 * from_bits xs

abbrev pub AreBits : List ℕ → Type 0
AreBits = All (λ x. x < 2)

byte_to_bits-bits_of :
    (w m : ℕ)
    → byte_to_bits (w % 256) ++ bits_of (w / 256) m
      ≡ bits_of w (suc (suc (suc (suc (suc (suc (suc (suc m))))))))
unfolding byte_to_bits bits_of
byte_to_bits-bits_of w m =
    let e0 : w % 256 / 1 % 2 ≡ w % 2 = omega arith in
    let e1 : w % 256 / 2 % 2 ≡ w / 2 % 2 = omega arith in
    let e2 : w % 256 / 4 % 2 ≡ w / 2 / 2 % 2 = omega arith in
    let e3 : w % 256 / 8 % 2 ≡ w / 2 / 2 / 2 % 2 = omega arith in
    let e4 : w % 256 / 16 % 2 ≡ w / 2 / 2 / 2 / 2 % 2 = omega arith in
    let e5 : w % 256 / 32 % 2 ≡ w / 2 / 2 / 2 / 2 / 2 % 2 = omega arith in
    let e6 : w % 256 / 64 % 2 ≡ w / 2 / 2 / 2 / 2 / 2 / 2 % 2 = omega arith in
    let e7 : w % 256 / 128 % 2 ≡ w / 2 / 2 / 2 / 2 / 2 / 2 / 2 % 2 = omega arith in
    let last : w / 256 ≡ w / 2 / 2 / 2 / 2 / 2 / 2 / 2 / 2 = omega arith in
    rw (e0, e1, e2, e3, e4, e5, e6, e7, last) refl

pow-add-8 : (n : ℕ) → 2 ^ (suc (suc (suc (suc (suc (suc (suc (suc n)))))))) ≡ 2 ^ n * 256
pow-add-8 n = omega (
  arith,
  pow-succ' 2 n,
  pow-succ' 2 (suc n),
  pow-succ' 2 (suc (suc n)),
  pow-succ' 2 (suc (suc (suc n))),
  pow-succ' 2 (suc (suc (suc (suc n)))),
  pow-succ' 2 (suc (suc (suc (suc (suc n))))),
  pow-succ' 2 (suc (suc (suc (suc (suc (suc n)))))),
  pow-succ' 2 (suc (suc (suc (suc (suc (suc (suc n))))))),
)

shift_byte : (v k : ℕ) → v / 2 ^ (8 * k) / 256 ≡ v / 2 ^ (8 * (k + 1))
shift_byte v k =
    let more : 8 * (k + 1) ≡ suc (suc (suc (suc (suc (suc (suc (suc (8 * k)))))))) = omega arith in
    div-div-eq-div-mul v (2 ^ (8 * k)) 256
    ∙ ap (λ d. v / d) (sym (ap (λ n. 2 ^ n) more ∙ pow-add-8 (8 * k)))

pub b_loop-bits_of : (v k n w : ℕ) → w ≡ v / 2 ^ (8 * k) → b_loop v k n ≡ bits_of w (8 * n)
unfolding b_loop
b_loop-bits_of v k zero w e = unfold bits_of in refl
b_loop-bits_of v k (suc n) w e =
    let next : w / 256 ≡ v / 2 ^ (8 * (k + 1)) = ap (λ a. a / 256) e ∙ shift_byte v k in
    let len : suc (suc (suc (suc (suc (suc (suc (suc (8 * n)))))))) ≡ 8 * suc n = omega arith in
    rw (← e) (
      rw (b_loop-bits_of v (k + 1) n (w / 256) next)
        (byte_to_bits-bits_of w (8 * n) ∙ ap (bits_of w) len))

from_bits-bits_of : (n w : ℕ) → w < 2 ^ n → from_bits (bits_of w n) ≡ w
unfolding from_bits bits_of
from_bits-bits_of zero w h = omega arith
from_bits-bits_of (suc n) w h =
    let grows = pow-succ' 2 n in rw (from_bits-bits_of n (w / 2) (omega arith)) (omega arith)

pow-step : (i n : ℕ) → 2 ^ (i + 1) * n ≡ 2 ^ i * (2 * n)
pow-step i n =
    let next : i + 1 ≡ suc i = omega arith in
    ap (λ j. 2 ^ j * n) next ∙ ap (λ p. p * n) (pow-suc 2 i) ∙ mul_assoc (2 ^ i) 2 n

b_inv_loop-from_bits :
    (i result : ℕ) (xs : List ℕ)
    → AreBits xs
    → b_inv_loop i result xs ≡ result + 2 ^ i * from_bits xs
unfolding b_inv_loop from_bits
b_inv_loop-from_bits i result [] h = rw (mul-zero (2 ^ i)) (omega arith)
b_inv_loop-from_bits i result (zero ∷ xs) h =
    b_inv_loop-from_bits (i + 1) result xs h.1
    ∙ ap (λ n. result + n) (pow-step i (from_bits xs) ∙ ap (λ n. 2 ^ i * n) (omega arith))
b_inv_loop-from_bits i result (suc zero ∷ xs) h =
    b_inv_loop-from_bits (i + 1) (result + 2 ^ i) xs h.1
    ∙ ap (λ n. result + 2 ^ i + n) (pow-step i (from_bits xs))
    ∙ omega (arith, mul-add (2 ^ i) 1 (2 * from_bits xs))
b_inv_loop-from_bits i result (suc (suc x) ∷ xs) h = absurd (omega (arith, h.0))

pub bits_of-AreBits : (w n : ℕ) → AreBits (bits_of w n)
unfolding bits_of
bits_of-AreBits w zero = tt
bits_of-AreBits w (suc n) = (omega arith, bits_of-AreBits (w / 2) n)

pub b_inv-from_bits : (xs : List ℕ) → AreBits xs → b_inv xs false ≡ from_bits xs
unfolding b_inv
b_inv-from_bits xs h = b_inv_loop-from_bits 0 0 xs h ∙ omega arith

pub b-bits_of : (v n : ℕ) → b v n false ≡ bits_of v (8 * n)
unfolding b
b-bits_of v n = b_loop-bits_of v 0 n v (omega arith)

-- A number that n bytes hold is the number of its list of bits.
pub b_inv-b : (v n : ℕ) → v < 2 ^ (8 * n) → b_inv (b v n false) false ≡ v
b_inv-b v n h =
    ap (λ xs. b_inv xs false) (b-bits_of v n)
    ∙ b_inv-from_bits (bits_of v (8 * n)) (bits_of-AreBits v (8 * n))
    ∙ from_bits-bits_of (8 * n) v h
