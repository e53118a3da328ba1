-- ===== src/Cpvm/Words/Bits.antt =====
-- The bits of the native `bit_and`, `bit_or` and `bit_xor`.
use Prim.Native.Nat.{digits, differ, bit_and-bitwise, bit_or-bitwise, bit_xor-bitwise}
use tsrkit_pvm.Prelude.{
  ℕ, zero, suc, ◌+◌, ◌-◌, ◌*◌, ◌/◌, ◌%◌, ◌^◌, ◌≤◌, ◌<◌, min, max, bit_and, bit_or, bit_xor, ◌≡◌,
  refl, sym, ap, ◌∙◌, arith, ◌==◌, bit,
}
use native.Mathlib.Nat.{pow-succ', pow-le-pow_right, div-div-eq-div-mul, mul_left_comm}

-- An operation on digits, with `z b` for the rest of `b` once `a` has run out.
module _ (z : ℕ → ℕ) (f : ℕ → ℕ → ℕ) (rest : (b : ℕ) → z b ≡ z (b / 2) * 2 + f 0 (b % 2)) where
  zero_run : (n y : ℕ) → digits z f n zero y ≡ z y
  zero_run zero y = refl
  zero_run (suc n) y = refl

  -- Rounds beyond the first operand are not used.
  same_run :
      (x y left right : ℕ) → x ≤ right → x ≤ left → digits z f left x y ≡ digits z f right x y
  same_run zero y left right h k = zero_run left y ∙ sym (zero_run right y)
  same_run (suc x) y zero right h k = absurd (omega arith)
  same_run (suc x) y (suc left) zero h k = absurd (omega arith)
  same_run (suc x) y (suc left) (suc right) h k =
      ap (λ r. r * 2 + f (suc x % 2) (y % 2))
        (same_run (suc x / 2) (y / 2) left right (omega arith) (omega arith))

  digits_step :
      (x y : ℕ) → digits z f x x y ≡ digits z f (x / 2) (x / 2) (y / 2) * 2 + f (x % 2) (y % 2)
  digits_step zero y = rest y
  digits_step (suc x) y =
      ap (λ r. r * 2 + f (suc x % 2) (y % 2))
        (same_run (suc x / 2) (y / 2) x (suc x / 2) (omega arith) (omega arith))

pub bit_and_step : (x y : ℕ) → bit_and x y ≡ bit_and (x / 2) (y / 2) * 2 + min (x % 2) (y % 2)
bit_and_step a b =
    (λ i. bit_and-bitwise a b i)
    ∙ digits_step (λ _. 0) min (λ c. omega arith) a b
    ∙ ap (λ r. r * 2 + min (a % 2) (b % 2)) (sym (λ i. bit_and-bitwise (a / 2) (b / 2) i))

pub bit_or_step : (x y : ℕ) → bit_or x y ≡ bit_or (x / 2) (y / 2) * 2 + max (x % 2) (y % 2)
bit_or_step a b =
    (λ i. bit_or-bitwise a b i)
    ∙ digits_step (λ c. c) max (λ c. omega arith) a b
    ∙ ap (λ r. r * 2 + max (a % 2) (b % 2)) (sym (λ i. bit_or-bitwise (a / 2) (b / 2) i))

pub bit_xor_step : (a b : ℕ) → bit_xor a b ≡ bit_xor (a / 2) (b / 2) * 2 + differ (a % 2) (b % 2)
bit_xor_step a b =
    (λ i. bit_xor-bitwise a b i)
    ∙ digits_step (λ c. c) differ (λ c. omega arith) a b
    ∙ ap (λ r. r * 2 + differ (a % 2) (b % 2)) (sym (λ i. bit_xor-bitwise (a / 2) (b / 2) i))

pub differ-mod : (x y : ℕ) → x < 2 → y < 2 → differ x y ≡ (x + y) % 2
differ-mod zero y h k = omega arith
differ-mod (suc zero) zero h k = refl
differ-mod (suc zero) (suc zero) h k = refl
differ-mod (suc zero) (suc (suc y)) h k = absurd (omega arith)
differ-mod (suc (suc x)) y h k = absurd (omega arith)

-- Bit i of a number.
abbrev pub nth : ℕ → ℕ → ℕ
nth x i = x / 2 ^ i % 2

nth-suc : (x i : ℕ) → nth x (suc i) ≡ nth (x / 2) i
nth-suc x i =
    ap (λ d. d % 2) (ap (λ p. x / p) (pow-succ' 2 i) ∙ sym (div-div-eq-div-mul x 2 (2 ^ i)))

pub nth-and : (i a b : ℕ) → nth (bit_and a b) i ≡ min (nth a i) (nth b i)
nth-and zero a b = omega (arith, bit_and_step a b)
nth-and (suc i) a b =
    rw (nth-suc (bit_and a b) i, nth-suc a i, nth-suc b i)
      (ap (λ x. nth x i) (omega (arith, bit_and_step a b)) ∙ nth-and i (a / 2) (b / 2))

pub nth-or : (i a b : ℕ) → nth (bit_or a b) i ≡ max (nth a i) (nth b i)
nth-or zero a b = omega (arith, bit_or_step a b)
nth-or (suc i) a b =
    rw (nth-suc (bit_or a b) i, nth-suc a i, nth-suc b i)
      (ap (λ x. nth x i) (omega (arith, bit_or_step a b)) ∙ nth-or i (a / 2) (b / 2))

pub nth-pow : (j i : ℕ) → nth (2 ^ j) i ≡ bit (j == i)
nth-pow zero zero = refl
nth-pow zero (suc i) = nth-suc 1 i ∙ nth-zero i ∙ ground arith
  where
    nth-zero : (k : ℕ) → nth 0 k ≡ 0
    nth-zero zero = refl
    nth-zero (suc k) = nth-suc 0 k ∙ nth-zero k
nth-pow (suc j) zero = even ∙ ground arith
  where
    even : nth (2 ^ suc j) 0 ≡ 0
    even = omega (arith, pow-succ' 2 j)
nth-pow (suc j) (suc i) =
    nth-suc (2 ^ suc j) i
    ∙ ap (λ x. nth x i) (omega (arith, pow-succ' 2 j))
    ∙ nth-pow j i
    ∙ ap bit (ground arith)

pub nth-not : (w i x : ℕ) → i < w → x < 2 ^ w → nth (2 ^ w - 1 - x) i ≡ 1 - nth x i
nth-not zero i x h k = absurd (omega arith)
nth-not (suc w) zero x h k = omega (arith, pow-succ' 2 w)
nth-not (suc w) (suc i) x h k =
    nth-suc (2 ^ suc w - 1 - x) i
    ∙ ap (λ y. nth y i) (omega (arith, pow-succ' 2 w))
    ∙ nth-not w i (x / 2) (omega arith) (omega (arith, pow-succ' 2 w))
    ∙ ap (λ y. 1 - y) (sym (nth-suc x i))

-- Or of numbers without a common bit is their sum.
pub or-disjoint : (k a b : ℕ) → a < 2 ^ k → bit_or a (b * 2 ^ k) ≡ a + b * 2 ^ k
or-disjoint zero zero b h = bit_or-zero (b * 2 ^ 0) ∙ omega arith
  where
    bit_or-zero : (c : ℕ) → bit_or 0 c ≡ c
    bit_or-zero c = λ i. bit_or-bitwise 0 c i
or-disjoint zero (suc a) b h = absurd (omega arith)
or-disjoint (suc k) a b h =
    let twice : b * 2 ^ suc k ≡ 2 * (b * 2 ^ k) = double b k in
    rw twice (
      bit_or_step a (2 * (b * 2 ^ k))
      ∙ ap (λ r. r * 2 + max (a % 2) (2 * (b * 2 ^ k) % 2))
          (ap (bit_or (a / 2)) (omega arith) ∙ or-disjoint k (a / 2) b half)
      ∙ omega arith)
  where
    half : a / 2 < 2 ^ k
    half = omega (arith, pow-succ' 2 k)

    double : (c n : ℕ) → c * 2 ^ suc n ≡ 2 * (c * 2 ^ n)
    double c n = ap (λ p. c * p) (pow-succ' 2 n) ∙ mul_left_comm c 2 (2 ^ n)

-- Exclusive or with one bit.
pub xor-low : (k x : ℕ) → x < 2 ^ k → bit_xor x (2 ^ k) ≡ x + 2 ^ k
xor-low zero zero h = refl
xor-low zero (suc x) h = absurd (omega arith)
xor-low (suc k) x h =
    bit_xor_step x (2 ^ suc k)
    ∙ ap (λ r. r * 2 + differ (x % 2) (2 ^ suc k % 2))
        (ap (bit_xor (x / 2)) (omega (arith, pow-succ' 2 k))
          ∙ xor-low k (x / 2) (omega (arith, pow-succ' 2 k)))
    ∙ omega (arith, pow-succ' 2 k, differ-mod (x % 2) (2 ^ suc k % 2) (omega arith) (omega arith))

pub xor-high : (k x : ℕ) → 2 ^ k ≤ x → x < 2 ^ suc k → bit_xor x (2 ^ k) ≡ x - 2 ^ k
xor-high zero zero l h = absurd (omega arith)
xor-high zero (suc zero) l h = refl
xor-high zero (suc (suc x)) l h = absurd (omega arith)
xor-high (suc k) x l h =
    bit_xor_step x (2 ^ suc k)
    ∙ ap (λ r. r * 2 + differ (x % 2) (2 ^ suc k % 2))
        (ap (bit_xor (x / 2)) (omega (arith, pow-succ' 2 k))
          ∙ xor-high k (x / 2) (omega (arith, pow-succ' 2 k))
              (omega (arith, pow-succ' 2 (suc k), pow-succ' 2 k)))
    ∙ omega (arith, pow-succ' 2 k, differ-mod (x % 2) (2 ^ suc k % 2) (omega arith) (omega arith))

bit_and-zero : (n a : ℕ) → a ≤ n → bit_and a 0 ≡ 0
bit_and-zero n zero h = (λ i. bit_and-bitwise 0 0 i)
bit_and-zero zero (suc a) h = absurd (omega arith)
bit_and-zero (suc n) (suc a) h =
    omega (arith, bit_and_step (suc a) 0, bit_and-zero n (suc a / 2) (omega arith))

-- A mask of one bit.
pub bit_and-pow : (i a : ℕ) → bit_and a (2 ^ i) ≡ nth a i * 2 ^ i
bit_and-pow zero a = omega (arith, bit_and_step a 1, bit_and-zero (a / 2) (a / 2) (omega arith))
bit_and-pow (suc i) a = rw (nth-suc a i) (
    bit_and_step a (2 ^ suc i)
    ∙ ap (λ r. r * 2 + min (a % 2) (2 ^ suc i % 2))
        (ap (bit_and (a / 2)) (omega (arith, pow-succ' 2 i)) ∙ bit_and-pow i (a / 2))
    ∙ rw (pow-succ' 2 i) (omega arith))

pub pow-pos : (i : ℕ) → 0 < 2 ^ i
pow-pos i = pow-le-pow_right {n = 2} (omega arith) {i = 0} {j = i} (omega arith)

pub pow-lt : (j w : ℕ) → j < w → 2 ^ j < 2 ^ w
pow-lt j w h =
    omega (
      arith,
      pow-pos j,
      pow-succ' 2 j,
      pow-le-pow_right {n = 2} (omega arith) {i = suc j} {j = w} h,
    )
