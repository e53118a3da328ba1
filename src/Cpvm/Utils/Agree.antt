-- ===== src/Cpvm/Utils/Agree.antt =====
-- cy_utils.pyx against common/utils.py.
use tsrkit_pvm.Prelude.{
  take, ℕ, zero, suc, true, false, ◌+◌, ◌-◌, ◌*◌, ◌/◌, ◌%◌, ◌^◌, ◌≤◌, ◌<◌, List, [], ◌∷◌, ltb, leb,
  ◌==◌, ℤ, pos, negsuc, ◌≡◌, refl, sym, ap, ◌∙◌, arith, ltb→lt, ltb→le, Bool-cases, inl, inr,
  bit_or, length, lt→ltb,
}
use native.Mathlib.Nat.{
  pow-succ', mod-eq_of_lt, pow-le-pow_right, div-eq_of_lt, div-eq_of_lt-le, mul_assoc, mul-sub,
  mul_comm, mul-le-mul_right,
}
use tsrkit_pvm.Common.Utils
use tsrkit_pvm.Common.Signs.{z-low, z-high, chi-low, chi-high, half, mod_ℤ-negsuc}
use tsrkit_pvm.Cpvm.Utils.{chi, z, z_inv, or_loop, bytes_to_le}
use tsrkit_pvm.Instructions.Machine.{from_bytes}
use tsrkit_pvm.Interpreter.Memory.Coherent.{AreBytes}
use tsrkit_pvm.Cpvm.Words.{as_signed, as_unsigned}
use tsrkit_pvm.Cpvm.Words.Bits.{or-disjoint, xor-low, xor-high}

as_signed-low : (w x : ℕ) → x < 2 ^ (w - 1) → as_signed w x ≡ pos x
unfolding as_signed
as_signed-low w x h = rw (lt→ltb x (2 ^ (w - 1)) h) refl

as_signed-high : (w x : ℕ) → 2 ^ (w - 1) ≤ x → as_signed w x ≡ negsuc (2 ^ w - 1 - x)
unfolding as_signed
as_signed-high w x h = rw test refl
  where
    test : ltb x (2 ^ (w - 1)) ≡ false
    test = ground arith

-- Writing a word of w bits, w at least 1, read as signed, gives it back.
pub as_unsigned-as_signed : (w x : ℕ) → x < 2 ^ w → as_unsigned w (as_signed w x) ≡ x
unfolding as_unsigned
as_unsigned-as_signed w x h = elim (Bool-cases (ltb x (2 ^ (w - 1)))) [
  | inl low ↦ rw (as_signed-low w x (ltb→lt x (2 ^ (w - 1)) low)) (mod-eq_of_lt h)
  | inr high ↦
      rw (as_signed-high w x (ltb→le x (2 ^ (w - 1)) high))
        (mod_ℤ-negsuc (2 ^ w) (2 ^ w - 1 - x) (omega arith) ∙ omega arith)
]

-- A word of n bytes, n at least 1, read as signed.
pub as_signed-z : (x n : ℕ) → 1 ≤ n → x < 2 ^ (8 * n) → as_signed (8 * n) x ≡ Utils.z x n
as_signed-z x n one top = elim (Bool-cases (ltb x (2 ^ (8 * n - 1)))) [
  | inl l ↦
      let low = ltb→lt x (2 ^ (8 * n - 1)) l in
      as_signed-low (8 * n) x low ∙ sym (z-low x n one low)
  | inr h ↦
      let high = ltb→le x (2 ^ (8 * n - 1)) h in
      as_signed-high (8 * n) x high ∙ ap negsuc (omega arith) ∙ sym (z-high x n one high top)
]

-- Whether a word of n bytes has its highest bit set.
sign_bit-low : (x n : ℕ) → x < 2 ^ (8 * n - 1) → (x / 2 ^ (8 * n - 1) % 2 == 0) ≡ true
sign_bit-low x n h = rw (div-eq_of_lt h) refl

sign_bit-high :
    (x n : ℕ)
    → 1 ≤ n
    → 2 ^ (8 * n - 1) ≤ x
    → x < 2 ^ (8 * n)
    → (x / 2 ^ (8 * n - 1) % 2 == 0) ≡ false
sign_bit-high x n one high top = rw quotient refl
  where
    quotient : x / 2 ^ (8 * n - 1) ≡ 1
    quotient = div-eq_of_lt-le (2 ^ (8 * n - 1)) (omega arith) (omega (arith, half n one))

pow_add : (i j : ℕ) → 2 ^ (i + j) ≡ 2 ^ i * 2 ^ j
pow_add zero j = let start : 0 + j ≡ j = omega arith in ap (λ k. 2 ^ k) start ∙ omega arith
pow_add (suc i) j =
    let next : suc i + j ≡ suc (i + j) = omega arith in
    ap (λ k. 2 ^ k) next
    ∙ pow-succ' 2 (i + j)
    ∙ ap (λ p. 2 * p) (pow_add i j)
    ∙ sym (mul_assoc 2 (2 ^ i) (2 ^ j))
    ∙ ap (λ p. p * 2 ^ j) (sym (pow-succ' 2 i))

module _ (n : ℕ) (one : 1 ≤ n) (small : n < 8) where
  middle : (n == 0) ≡ false
  middle = ground arith

  below : leb 8 n ≡ false
  below = ground arith

  ones : 2 ^ 64 - 2 ^ (8 * n) ≡ (2 ^ (64 - 8 * n) - 1) * 2 ^ (8 * n)
  ones =
      let whole : 64 ≡ 64 - 8 * n + 8 * n = omega arith in
      let p = 2 ^ (64 - 8 * n) in
      let q = 2 ^ (8 * n) in
      ap (λ k. 2 ^ k - q) whole
      ∙ ap (λ r. r - q) (pow_add (64 - 8 * n) (8 * n))
      ∙ omega (arith, mul-sub q p 1, mul_comm q p, mul_comm q (p - 1))

  fits : 2 ^ (8 * n) ≤ 2 ^ 64
  fits = pow-le-pow_right {n = 2} (omega arith) {i = 8 * n} {j = 64} (omega arith)

  pub chi-chi : (x : ℕ) → x < 2 ^ (8 * n) → as_unsigned 64 (chi x n) ≡ Utils.chi x n
  unfolding chi
  chi-chi x top = elim (Bool-cases (ltb x (2 ^ (8 * n - 1)))) [
    | inl l ↦
        let low = ltb→lt x (2 ^ (8 * n - 1)) l in
        rw (middle, below, sign_bit-low x n low)
          (as_unsigned-as_signed 64 x (omega (arith, fits)) ∙ sym (chi-low x n one low))
    | inr h ↦
        let high = ltb→le x (2 ^ (8 * n - 1)) h in
        rw (middle, below, sign_bit-high x n one high top)
          (ap (λ y. as_unsigned 64 (as_signed 64 y))
              (ap (bit_or x) ones ∙ or-disjoint (8 * n) x _ top ∙ ap (λ y. x + y) (sym ones))
            ∙ as_unsigned-as_signed 64 _ (omega (arith, fits))
            ∙ sym (chi-high x n one high top))
  ]

  pub z-z : (x : ℕ) → x < 2 ^ (8 * n) → z x n ≡ Utils.z x n
  unfolding z
  z-z x top = elim (Bool-cases (ltb x (2 ^ (8 * n - 1)))) [
    | inl l ↦
        let low = ltb→lt x (2 ^ (8 * n - 1)) l in
        rw (middle, below, mod-eq_of_lt top, xor-low (8 * n - 1) x low)
          (ap (as_signed 64) (omega (arith, half n one, fits))
            ∙ as_signed-low 64 x (omega (arith, half n one, fits))
            ∙ sym (z-low x n one low))
    | inr h ↦
        let high = ltb→le x (2 ^ (8 * n - 1)) h in
        rw (middle, below, mod-eq_of_lt top, xor-high (8 * n - 1) x high upper)
          (ap (as_signed 64) (omega (arith, half n one, fits))
            ∙ as_signed-high 64 (2 ^ 64 - (2 ^ (8 * n) - x)) (omega (arith, half n one, fits))
            ∙ ap negsuc (omega (arith, fits))
            ∙ sym (z-high x n one high top))
  ]
    where
      upper : x < 2 ^ suc (8 * n - 1)
      upper = omega (arith, half n one, pow-succ' 2 (8 * n - 1))

-- `z_inv` of eight bytes.
pub z_inv-z_inv : (x : ℤ) → z_inv x 8 ≡ Utils.z_inv x 8
unfolding z_inv as_unsigned Utils.z_inv
z_inv-z_inv x = refl

-- The bytes of a little-endian number, gathered by or.
or_loop-from_bytes :
    (i result size : ℕ) (xs : List ℕ)
    → AreBytes xs
    → result < 2 ^ (8 * i)
    → i + length xs ≤ size
    → or_loop (8 * size) i result xs ≡ result + from_bytes xs * 2 ^ (8 * i)
unfolding or_loop from_bytes
or_loop-from_bytes i result size [] h r s = omega arith
or_loop-from_bytes i result size (x ∷ xs) h r s =
    rw (mod-eq_of_lt small, or-disjoint (8 * i) result x r)
      (or_loop-from_bytes (i + 1) (result + x * 2 ^ (8 * i)) size xs h.1 (omega (arith, more, room))
          (omega arith)
        ∙ (rw more (omega arith)))
  where
    more : 2 ^ (8 * (i + 1)) ≡ 256 * 2 ^ (8 * i)
    more =
        let next : 8 * (i + 1) ≡ 8 + 8 * i = omega arith in ap (λ k. 2 ^ k) next ∙ pow_add 8 (8 * i)

    room : suc x * 2 ^ (8 * i) ≤ 256 * 2 ^ (8 * i)
    room = mul-le-mul_right {m = suc x} {n = 256} (2 ^ (8 * i)) h.0

    top : 2 ^ (8 * (i + 1)) ≤ 2 ^ (8 * size)
    top = pow-le-pow_right {n = 2} (omega arith) {i = 8 * (i + 1)} {j = 8 * size} (omega arith)

    small : x * 2 ^ (8 * i) < 2 ^ (8 * size)
    small = omega (arith, more, room, top)

take-all : (n : ℕ) (xs : List ℕ) → length xs ≤ n → take n xs ≡ xs
take-all zero [] h = refl
take-all zero (x ∷ xs) h = absurd (omega arith)
take-all (suc n) [] h = refl
take-all (suc n) (x ∷ xs) h = ap (λ ys. x ∷ ys) (take-all n xs (omega arith))

-- At most `size` bytes, read by or and shift.
pub bytes_to_le-from_bytes :
    (size : ℕ) (xs : List ℕ) → AreBytes xs → length xs ≤ size → bytes_to_le size xs ≡ from_bytes xs
unfolding bytes_to_le
bytes_to_le-from_bytes size xs h s =
    ap (or_loop (8 * size) 0 0) (take-all size xs s)
    ∙ or_loop-from_bytes 0 0 size xs h (omega arith) (omega arith)
    ∙ omega arith
