-- ===== src/Common/Utils.antt =====
-- tsrkit_pvm/common/utils.py: page arithmetic, sign extension, and bit lists.
use tsrkit_pvm.Prelude.{
  ℕ, zero, suc, ◌+◌, ◌-◌, ◌*◌, ◌/◌, ◌%◌, ◌^◌, max, Bool, List, [], ◌∷◌, ◌++◌, map, reverse, ltb,
  leb, ◌==◌, if◌then◌else◌, range, ℤ, pos, sub_ℕ, pos_part, mod_ℤ, abs, signed, is_neg, ltb_ℤ,
  leb_ℤ, eqb_ℤ, not,
}

unfoldable pub clamp_12 : ℕ → ℕ
clamp_12 val = if leb val 12 then val else 12

unfoldable pub clamp_4 : ℕ → ℕ
clamp_4 val = if leb val 4 then val else 4

-- Its argument is a difference, which may be negative.
unfoldable pub clamp_4_max0 : ℤ → ℕ
clamp_4_max0 val = if leb_ℤ val (pos 0) then 0 else if leb_ℤ val (pos 4) then pos_part val else 4

-- `x >> k` is `x / 2 ^ k`, `x << k` is `x * 2 ^ k`.
unfoldable pub total_page_size : ℕ → ℕ
total_page_size blob_len = (blob_len + 4095) / 2 ^ 12 * 2 ^ 12

unfoldable pub total_zone_size : ℕ → ℕ
total_zone_size blob_len = (blob_len + 65535) / 2 ^ 16 * 2 ^ 16

unfoldable pub get_pages : ℕ → ℕ → List ℕ
get_pages start_index length =
    let start = start_index / 2 ^ 12 in
    let end_index = start_index + max length 1 - 1 in
    let last = end_index / 2 ^ 12 in range start (last + 1 - start)

unfoldable pub chi : ℕ → ℕ → ℕ
chi value n = if n == 0 then value else value + value / 2 ^ (8 * n - 1) * (2 ^ 64 - 2 ^ (8 * n))

unfoldable pub z : ℕ → ℕ → ℤ
z x n = if n == 0 then pos x else if ltb x (2 ^ (8 * n - 1)) then pos x else sub_ℕ x (2 ^ (8 * n))

-- `(modulus + x) & (modulus - 1)`; masking a Python integer by `2 ^ k - 1` is `%` by `2 ^ k`. With
-- `n` 0 the source gives `x` itself, negative or not; no instruction calls it so, and the model is
-- about an `n` of at least 1.
unfoldable pub z_inv : ℤ → ℕ → ℕ
z_inv x n = mod_ℤ x (2 ^ (8 * n))

unfoldable pub byte_to_bits : ℕ → List ℕ
byte_to_bits byte = map (λ i. byte / 2 ^ i % 2) (range 0 8)

-- The loops of `b`: from byte `k` on, with `n` bytes left. The blocks of eight are written one
-- after the other, or from the end backwards.
unfoldable pub b_loop : ℕ → ℕ → ℕ → List ℕ
unfolding byte_to_bits
b_loop value k zero = []
b_loop value k (suc n) = byte_to_bits (value / 2 ^ (8 * k) % 256) ++ b_loop value (k + 1) n

unfoldable pub b_loop_reversed : ℕ → ℕ → ℕ → List ℕ → List ℕ
unfolding byte_to_bits
b_loop_reversed value k zero out = out
b_loop_reversed value k (suc n) out =
    b_loop_reversed value (k + 1) n (reverse (byte_to_bits (value / 2 ^ (8 * k) % 256)) ++ out)

unfoldable pub b : ℕ → ℕ → Bool → List ℕ
unfolding b_loop b_loop_reversed
b value byte_size is_reversed =
    if is_reversed then b_loop_reversed value 0 byte_size [] else b_loop value 0 byte_size

-- The loop of `b_inv` at position `i`.
unfoldable pub b_inv_loop : ℕ → ℕ → List ℕ → ℕ
b_inv_loop i result [] = result
b_inv_loop i result (x ∷ xs) = b_inv_loop (i + 1) (if x == 0 then result else result + 2 ^ i) xs

unfoldable pub b_inv : List ℕ → Bool → ℕ
unfolding b_inv_loop
b_inv value is_reversed = b_inv_loop 0 0 (if is_reversed then reverse value else value)

-- The names of `_COMPARISON_OPS` that the tables use.
pub data CompareOp : Type 0 where
  eq ne lt le gt ge : CompareOp

unfoldable pub compare : CompareOp → ℤ → ℤ → Bool
compare CompareOp.eq a c = eqb_ℤ a c
compare CompareOp.ne a c = not (eqb_ℤ a c)
compare CompareOp.lt a c = ltb_ℤ a c
compare CompareOp.le a c = leb_ℤ a c
compare CompareOp.gt a c = ltb_ℤ c a
compare CompareOp.ge a c = leb_ℤ c a

pub data BitOp : Type 0 where
  and or xor : BitOp

-- One pair of bits, each 0 or 1.
unfoldable pub bit_op : BitOp → ℕ → ℕ → ℕ
bit_op BitOp.and x y = x * y
bit_op BitOp.or x y = max x y
bit_op BitOp.xor x y = (x + y) % 2

unfoldable pub compare_bits_vectorized : BitOp → List ℕ → List ℕ → List ℕ
compare_bits_vectorized op [] ys = []
compare_bits_vectorized op (x ∷ xs) [] = []
compare_bits_vectorized op (x ∷ xs) (y ∷ ys) = bit_op op x y ∷ compare_bits_vectorized op xs ys

-- `%` of a negative number is avoided: the sign of the result is that of `a`.
unfoldable pub smod : ℤ → ℤ → ℤ
smod a c = if abs c == 0 then a else signed (is_neg a) (abs a % abs c)
