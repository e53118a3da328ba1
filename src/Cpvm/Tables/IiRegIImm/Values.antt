-- ===== src/Cpvm/Tables/IiRegIImm/Values.antt =====
-- The values that the methods of ii_reg_i_imm.pyx store: `w` is registers[rb], and `vx` the immediate,
-- both of type `uint64_t`.
use tsrkit_pvm.Prelude.{
  ℕ, ◌+◌, ◌-◌, ◌*◌, ◌%◌, ◌^◌, bit_and, bit_or, bit_xor, ltb, bit, ltb_ℤ, div_ℤ,
}
use tsrkit_pvm.Cpvm.Utils.{chi, z, z_inv}
use tsrkit_pvm.Cpvm.Words.{
  uint32, uint64, as_signed, as_unsigned, wrap_sub, shift_left, shift_right,
}

-- `registers[ra] = chi(value, n)`: an `int64_t` stored as a `uint64_t`.
abbrev pub chi_of : ℕ → ℕ → ℕ
chi_of n value = as_unsigned 64 (chi value n)

unfoldable pub add_imm_32 : ℕ → ℕ → ℕ
unfolding chi as_unsigned
add_imm_32 w vx = chi_of 4 (uint32 (uint64 (w + vx)))

unfoldable pub and_imm : ℕ → ℕ → ℕ
and_imm w vx = bit_and w vx

unfoldable pub xor_imm : ℕ → ℕ → ℕ
xor_imm w vx = bit_xor w vx

unfoldable pub or_imm : ℕ → ℕ → ℕ
or_imm w vx = bit_or w vx

unfoldable pub mul_imm_32 : ℕ → ℕ → ℕ
unfolding chi as_unsigned
mul_imm_32 w vx = chi_of 4 (uint32 (uint64 (w * vx)))

unfoldable pub set_lt_u_imm : ℕ → ℕ → ℕ
set_lt_u_imm w vx = bit (ltb w vx)

unfoldable pub set_lt_s_imm : ℕ → ℕ → ℕ
unfolding as_signed
set_lt_s_imm w vx = bit (ltb_ℤ (as_signed 64 w) (as_signed 64 vx))

unfoldable pub set_gt_u_imm : ℕ → ℕ → ℕ
set_gt_u_imm w vx = bit (ltb vx w)

unfoldable pub set_gt_s_imm : ℕ → ℕ → ℕ
unfolding z
set_gt_s_imm w vx = bit (ltb_ℤ (z vx 8) (z w 8))

-- The shifts of `value` by `amount`: the register by the immediate, or in the forms called `alt` the
-- immediate by the register.
unfoldable pub shlo_l_32 : ℕ → ℕ → ℕ
unfolding chi as_unsigned shift_left
shlo_l_32 value amount = chi_of 4 (shift_left 32 (uint32 value) (amount % 32))

unfoldable pub shlo_r_32 : ℕ → ℕ → ℕ
unfolding chi as_unsigned shift_right
shlo_r_32 value amount = chi_of 4 (shift_right 32 (uint32 value) (amount % 32))

unfoldable pub shar_r_32 : ℕ → ℕ → ℕ
unfolding z z_inv
shar_r_32 value amount = z_inv (div_ℤ (z value 4) (2 ^ (amount % 32))) 8

unfoldable pub shlo_l_64 : ℕ → ℕ → ℕ
unfolding chi as_unsigned shift_left
shlo_l_64 value amount = chi_of 8 (shift_left 64 value (amount % 64))

unfoldable pub shlo_r_64 : ℕ → ℕ → ℕ
unfolding chi as_unsigned shift_right
shlo_r_64 value amount = chi_of 8 (shift_right 64 value (amount % 64))

unfoldable pub shar_r_64 : ℕ → ℕ → ℕ
unfolding z z_inv
shar_r_64 value amount = z_inv (div_ℤ (z value 8) (2 ^ (amount % 64))) 8

unfoldable pub neg_add_imm_32 : ℕ → ℕ → ℕ
unfolding chi as_unsigned wrap_sub
neg_add_imm_32 w vx = chi_of 4 (uint32 (wrap_sub 64 vx w))

unfoldable pub neg_add_imm_64 : ℕ → ℕ → ℕ
unfolding wrap_sub
neg_add_imm_64 w vx = wrap_sub 64 vx w

unfoldable pub add_imm_64 : ℕ → ℕ → ℕ
add_imm_64 w vx = uint64 (w + vx)

unfoldable pub mul_imm_64 : ℕ → ℕ → ℕ
mul_imm_64 w vx = uint64 (w * vx)

unfoldable pub rot_r_64 : ℕ → ℕ → ℕ
unfolding shift_left shift_right
rot_r_64 value amount =
    let shift = amount % 64 in
    bit_or (shift_right 64 value shift) (shift_left 64 value (64 - shift))

unfoldable pub rot_r_32 : ℕ → ℕ → ℕ
unfolding chi as_unsigned shift_left shift_right
rot_r_32 value amount =
    let v = uint32 value in
    let shift = amount % 32 in
    chi_of 4 (bit_or (shift_right 32 v shift) (shift_left 32 v (32 - shift)))
