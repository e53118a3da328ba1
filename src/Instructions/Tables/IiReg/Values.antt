-- ===== src/Instructions/Tables/IiReg/Values.antt =====
-- The values that the methods of ii_reg.py store: `a` is registers[ra].
use tsrkit_pvm.Prelude.{
  ℕ, ◌+◌, ◌/◌, ◌%◌, ◌^◌, false, List, [], ◌∷◌, Option, none, some, ◌==◌, if◌then◌else◌, take,
  reverse,
}
use tsrkit_pvm.Common.Utils.{z, z_inv, b}
use mathlib.Core.Option

unfoldable pub sum : List ℕ → ℕ
sum [] = 0
sum (x ∷ xs) = x + sum xs

-- `bits.index(True)`; `none` is the ValueError that the methods catch.
unfoldable pub index_of_one : List ℕ → Option ℕ
index_of_one [] = none
index_of_one (x ∷ xs) =
    let rest = Option.map (λ (i : ℕ). i + 1) (index_of_one xs) in if x == 1 then some 0 else rest

unfoldable pub count_set_bits : ℕ → ℕ → ℕ
unfolding sum
count_set_bits bitsize a = sum (take bitsize (b (a % 2 ^ bitsize) (bitsize / 8) false))

unfoldable pub leading_zero_bits : ℕ → ℕ → ℕ
unfolding index_of_one
leading_zero_bits bitsize a =
    Option.get_or (index_of_one (reverse (b (a % 2 ^ bitsize) (bitsize / 8) false))) bitsize

unfoldable pub trailing_zero_bits : ℕ → ℕ → ℕ
unfolding index_of_one
trailing_zero_bits bitsize a =
    Option.get_or (index_of_one (b (a % 2 ^ bitsize) (bitsize / 8) false)) bitsize

unfoldable pub sign_extend : ℕ → ℕ → ℕ
sign_extend bitsize a = z_inv (z (a % 2 ^ bitsize) (bitsize / 8)) 8

unfoldable pub zero_extend_16 : ℕ → ℕ
zero_extend_16 a = a % 2 ^ 16
