-- ===== src/Instructions/Tables/IiiReg/Logic.antt =====
-- iii_reg.py, ii_reg_i_imm.py: the logical instructions, bit by bit.
use tsrkit_pvm.Prelude.{
  ℕ, zero, suc, ◌+◌, ◌-◌, ◌*◌, ◌/◌, ◌%◌, ◌<◌, Bool, true, false, List, [], ◌∷◌, if◌then◌else◌, ◌≡◌,
  refl, ap, ◌∙◌, arith, min, max, ◌==◌,
}
use tsrkit_pvm.Common.Utils.{BitOp, bit_op, compare_bits_vectorized}
use tsrkit_pvm.Common.Bits.{bits_of, from_bits, AreBits, b_inv-from_bits, b-bits_of}
use tsrkit_pvm.Instructions.Tables.IiiReg.Values.{op, not_bits}
use tsrkit_pvm.Instructions.Tables.IiRegIImm.Values.{op_imm}

-- The number whose bits, n of them, are `f` of the bits of `a` and `c`.
unfoldable pub combine : (ℕ → ℕ → ℕ) → ℕ → ℕ → ℕ → ℕ
combine f zero a c = 0
combine f (suc n) a c = f (a % 2) (c % 2) + 2 * combine f n (a / 2) (c / 2)

abbrev pub flip : Bool → ℕ → ℕ
flip inv x = if inv then 1 - x else x

-- A bit of the result of `_op`.
abbrev pub result_bit : BitOp → Bool → Bool → Bool → ℕ → ℕ → ℕ
result_bit name inv_a inv_b inv_res x y = flip inv_res (bit_op name (flip inv_a x) (flip inv_b y))

not_bits-cons :
    (inv : Bool) (x : ℕ) (xs : List ℕ) → not_bits inv (x ∷ xs) ≡ flip inv x ∷ not_bits inv xs
unfolding not_bits
not_bits-cons true x xs = refl
not_bits-cons false x xs = refl

not_bits-nil : (inv : Bool) → not_bits inv [] ≡ []
unfolding not_bits
not_bits-nil true = refl
not_bits-nil false = refl

flip-lt : (inv : Bool) (x : ℕ) → x < 2 → flip inv x < 2
flip-lt true x h = omega arith
flip-lt false x h = h

bit_op-lt : (name : BitOp) (x y : ℕ) → x < 2 → y < 2 → bit_op name x y < 2
unfolding bit_op
bit_op-lt BitOp.and zero y h k = omega arith
bit_op-lt BitOp.and (suc zero) y h k = omega arith
bit_op-lt BitOp.and (suc (suc x)) y h k = absurd (omega arith)
bit_op-lt BitOp.or x y h k = omega arith
bit_op-lt BitOp.xor x y h k = omega arith

module _ (name : BitOp) (inv_a inv_b inv_res : Bool) where
  -- The list that `_op` makes.
  abbrev result_bits : List ℕ → List ℕ → List ℕ
  result_bits xs ys =
      not_bits inv_res (compare_bits_vectorized name (not_bits inv_a xs) (not_bits inv_b ys))

  result_bits-cons :
      (x y : ℕ) (xs ys : List ℕ)
      → result_bits (x ∷ xs) (y ∷ ys) ≡ result_bit name inv_a inv_b inv_res x y ∷ result_bits xs ys
  unfolding compare_bits_vectorized
  result_bits-cons x y xs ys =
      rw (not_bits-cons inv_a x xs, not_bits-cons inv_b y ys, not_bits-cons inv_res _ _) refl

  result_bits-nil : result_bits [] [] ≡ []
  unfolding compare_bits_vectorized
  result_bits-nil = rw (not_bits-nil inv_a, not_bits-nil inv_res) refl

  result_bits-AreBits : (n a c : ℕ) → AreBits (result_bits (bits_of a n) (bits_of c n))
  unfolding bits_of
  result_bits-AreBits zero a c = rw result_bits-nil tt
  result_bits-AreBits (suc n) a c =
      rw (result_bits-cons (a % 2) (c % 2) (bits_of (a / 2) n) (bits_of (c / 2) n)) (
        flip-lt inv_res _ (
            bit_op-lt name _ _ (flip-lt inv_a (a % 2) (omega arith))
              (flip-lt inv_b (c % 2) (omega arith))),
        result_bits-AreBits n (a / 2) (c / 2),
      )

  result_bits-combine :
      (n a c : ℕ)
      → from_bits (result_bits (bits_of a n) (bits_of c n))
        ≡ combine (result_bit name inv_a inv_b inv_res) n a c
  unfolding from_bits combine bits_of
  result_bits-combine zero a c = rw result_bits-nil refl
  result_bits-combine (suc n) a c =
      rw
        (
          result_bits-cons (a % 2) (c % 2) (bits_of (a / 2) n) (bits_of (c / 2) n),
          result_bits-combine n (a / 2) (c / 2),
        )
        refl

  pub op-combine :
      (a c : ℕ)
      → op name inv_a inv_b inv_res a c ≡ combine (result_bit name inv_a inv_b inv_res) 64 a c
  unfolding op
  op-combine a c =
      rw (b-bits_of a 8, b-bits_of c 8)
        (b_inv-from_bits (result_bits (bits_of a 64) (bits_of c 64)) (result_bits-AreBits 64 a c)
          ∙ result_bits-combine 64 a c)

pub op_imm-op : (name : BitOp) (w vx : ℕ) → op_imm name w vx ≡ op name false false false w vx
unfolding op_imm op not_bits
op_imm-op name w vx = refl

pub combine_ext :
    (f g : ℕ → ℕ → ℕ)
    → ((x y : ℕ) → x < 2 → y < 2 → f x y ≡ g x y)
    → (n a c : ℕ) → combine f n a c ≡ combine g n a c
unfolding combine
combine_ext f g h zero a c = refl
combine_ext f g h (suc n) a c =
    rw (h (a % 2) (c % 2) (omega arith) (omega arith), combine_ext f g h n (a / 2) (c / 2)) refl

-- Conjunction, disjunction and exclusive disjunction of two bits.
abbrev pub truth : BitOp → ℕ → ℕ → ℕ
truth BitOp.and x y = min x y
truth BitOp.or x y = max x y
truth BitOp.xor x y = if x == y then 0 else 1

bit_op-truth : (name : BitOp) (x y : ℕ) → x < 2 → y < 2 → bit_op name x y ≡ truth name x y
unfolding bit_op
bit_op-truth BitOp.and zero y h k = omega arith
bit_op-truth BitOp.and (suc zero) y h k = omega arith
bit_op-truth BitOp.and (suc (suc x)) y h k = absurd (omega arith)
bit_op-truth BitOp.or x y h k = refl
bit_op-truth BitOp.xor x y h k = ground arith

-- `and`, `or`, `xor` and their forms with an inverted operand or result give the number whose 64
-- bits are the conjunction, the disjunction or the exclusive disjunction of each pair of the
-- operands' lowest 64 bits, inverted where the form says so.
pub op-truth :
    (name : BitOp) (inv_a inv_b inv_res : Bool) (a c : ℕ)
    → op name inv_a inv_b inv_res a c
      ≡ combine (λ x y. flip inv_res (truth name (flip inv_a x) (flip inv_b y))) 64 a c
op-truth name inv_a inv_b inv_res a c =
    op-combine name inv_a inv_b inv_res a c
    ∙ combine_ext _ _
        (λ x y h k.
          ap (flip inv_res) (bit_op-truth name _ _ (flip-lt inv_a x h) (flip-lt inv_b y k)))
        64 a c

-- The logical operations with an immediate give the number whose 64 bits are the conjunction, the
-- disjunction or the exclusive disjunction of each pair of the operands' lowest 64 bits.
pub op_imm-truth : (name : BitOp) (w vx : ℕ) → op_imm name w vx ≡ combine (truth name) 64 w vx
op_imm-truth name w vx = op_imm-op name w vx ∙ op-truth name false false false w vx
