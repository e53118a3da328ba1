-- ===== src/Cpvm/Tables/IiiReg/Values.antt =====
-- The values that the methods of iii_reg.pyx store: `a` is registers[ra], `c` is registers[rb], both
-- of type `uint64_t`.
use tsrkit_pvm.Prelude.{
  ℕ, ◌+◌, ◌-◌, ◌*◌, ◌/◌, ◌%◌, ◌^◌, ◌&&◌, bit_and, bit_or, bit_xor, ◌==◌, ltb, if◌then◌else◌, bit,
  pos, negsuc, ◌*ℤ◌, div_ℤ, eqb_ℤ, ltb_ℤ,
}
use tsrkit_pvm.Cpvm.Utils.{chi, z, z_inv, smod}
use tsrkit_pvm.Cpvm.Words.{
  uint32, uint64, as_signed, as_unsigned, wrap_sub, bit_not, shift_left, shift_right, c_div,
}

-- `<uint64_t>chi(<uint64_t>result, <uint8_t>4)`.
abbrev pub chi_4 : ℕ → ℕ
chi_4 result = as_unsigned 64 (chi result 4)

unfoldable pub add_32 : ℕ → ℕ → ℕ
unfolding chi as_unsigned
add_32 a c = chi_4 (uint32 (uint32 a + uint32 c))

unfoldable pub sub_32 : ℕ → ℕ → ℕ
unfolding chi as_unsigned wrap_sub
sub_32 a c = chi_4 (wrap_sub 32 (uint32 a) (uint32 c))

unfoldable pub mul_32 : ℕ → ℕ → ℕ
unfolding chi as_unsigned
mul_32 a c = chi_4 (uint32 (uint32 a * uint32 c))

unfoldable pub div_u_32 : ℕ → ℕ → ℕ
unfolding chi as_unsigned
div_u_32 a c = if uint32 c == 0 then 0xFFFF_FFFF_FFFF_FFFF else chi_4 (uint32 a / uint32 c)

-- `trunc` of a quotient of C integers, which is truncated already.
unfoldable pub div_s_32 : ℕ → ℕ → ℕ
unfolding as_signed z_inv c_div
div_s_32 ra rb =
    let a = as_signed 32 (uint32 ra) in
    let c = as_signed 32 (uint32 rb) in
    if eqb_ℤ c (pos 0)
    then 2 ^ 64 - 1
    else if eqb_ℤ a (negsuc (2 ^ 31 - 1)) && eqb_ℤ c (negsuc 0)
    then z_inv a 8
    else z_inv (c_div a c) 8

unfoldable pub rem_u_32 : ℕ → ℕ → ℕ
unfolding chi as_unsigned
rem_u_32 ra rb = let a = uint32 ra in let c = uint32 rb in chi_4 (if c == 0 then a else a % c)

-- The operands are read as signed numbers of 64 bits.
unfoldable pub rem_s_32 : ℕ → ℕ → ℕ
unfolding as_signed smod z_inv
rem_s_32 ra rb =
    let a = as_signed 64 ra in
    let c = as_signed 64 rb in
    if eqb_ℤ a (negsuc (2 ^ 31 - 1)) && eqb_ℤ c (negsuc 0) then 0 else z_inv (smod a c) 8

unfoldable pub add_64 : ℕ → ℕ → ℕ
add_64 a c = uint64 (a + c)

unfoldable pub sub_64 : ℕ → ℕ → ℕ
unfolding wrap_sub
sub_64 a c = wrap_sub 64 a c

unfoldable pub mul_64 : ℕ → ℕ → ℕ
mul_64 a c = uint64 (uint64 (a * c))

unfoldable pub div_u_64 : ℕ → ℕ → ℕ
div_u_64 a c = if c == 0 then 0xFFFF_FFFF_FFFF_FFFF else a / c

unfoldable pub div_s_64 : ℕ → ℕ → ℕ
unfolding as_signed as_unsigned c_div
div_s_64 a c =
    if c == 0
    then 0xFFFF_FFFF_FFFF_FFFF
    else if eqb_ℤ (as_signed 64 a) (negsuc (2 ^ 63 - 1)) && eqb_ℤ (as_signed 64 c) (negsuc 0)
    then a
    else as_unsigned 64 (c_div (as_signed 64 a) (as_signed 64 c))

unfoldable pub rem_u_64 : ℕ → ℕ → ℕ
rem_u_64 a c = if c == 0 then a else a % c

-- The test names -(2 ** 31).
unfoldable pub rem_s_64 : ℕ → ℕ → ℕ
unfolding as_signed smod z_inv
rem_s_64 ra rb =
    let a = as_signed 64 ra in
    let c = as_signed 64 rb in
    if eqb_ℤ a (negsuc (2 ^ 31 - 1)) && eqb_ℤ c (negsuc 0) then 0 else z_inv (smod a c) 8

-- `registers[rb] & 31` is `% 32`.
unfoldable pub shlo_l_32 : ℕ → ℕ → ℕ
unfolding chi as_unsigned shift_left
shlo_l_32 a c = chi_4 (shift_left 32 (uint32 a) (c % 32))

unfoldable pub shlo_r_32 : ℕ → ℕ → ℕ
unfolding chi as_unsigned shift_right
shlo_r_32 a c = chi_4 (shift_right 32 (uint32 a) (c % 32))

-- `>>` of a signed number rounds towards minus infinity.
unfoldable pub shar_r_32 : ℕ → ℕ → ℕ
unfolding as_signed as_unsigned
shar_r_32 a c = as_unsigned 64 (div_ℤ (as_signed 32 (uint32 a)) (2 ^ (c % 32)))

unfoldable pub shlo_l_64 : ℕ → ℕ → ℕ
unfolding shift_left
shlo_l_64 a c = shift_left 64 a (c % 64)

unfoldable pub shlo_r_64 : ℕ → ℕ → ℕ
unfolding shift_right
shlo_r_64 a c = shift_right 64 a (c % 64)

unfoldable pub shar_r_64 : ℕ → ℕ → ℕ
unfolding as_signed z_inv
shar_r_64 a c = z_inv (div_ℤ (as_signed 64 a) (2 ^ (c % 64))) 8

unfoldable pub and_op : ℕ → ℕ → ℕ
and_op a c = bit_and a c

unfoldable pub xor_op : ℕ → ℕ → ℕ
xor_op a c = bit_xor a c

unfoldable pub or_op : ℕ → ℕ → ℕ
or_op a c = bit_or a c

-- The product of two `int64_t` is one: its lowest 64 bits.
unfoldable pub mul_upper_s_s : ℕ → ℕ → ℕ
unfolding as_signed as_unsigned
mul_upper_s_s a c = as_unsigned 64 (as_signed 64 a *ℤ as_signed 64 c)

-- On Python integers.
unfoldable pub mul_upper_u_u : ℕ → ℕ → ℕ
mul_upper_u_u a c = a * c / 2 ^ 64

unfoldable pub mul_upper_s_u : ℕ → ℕ → ℕ
unfolding z z_inv
mul_upper_s_u a c = z_inv (div_ℤ (z a 8 *ℤ pos c) (2 ^ 64)) 8

unfoldable pub set_lt_u : ℕ → ℕ → ℕ
set_lt_u a c = bit (ltb a c)

unfoldable pub set_lt_s : ℕ → ℕ → ℕ
unfolding as_signed
set_lt_s a c = bit (ltb_ℤ (as_signed 64 a) (as_signed 64 c))

unfoldable pub rot_l_64 : ℕ → ℕ → ℕ
unfolding shift_left shift_right
rot_l_64 a c = let shift = c % 64 in bit_or (shift_left 64 a shift) (shift_right 64 a (64 - shift))

unfoldable pub rot_l_32 : ℕ → ℕ → ℕ
unfolding chi as_unsigned shift_left shift_right
rot_l_32 a c =
    let value = uint32 a in
    let shift = c % 32 in
    chi_4 (bit_or (shift_left 32 value shift) (shift_right 32 value (32 - shift)))

unfoldable pub rot_r_64 : ℕ → ℕ → ℕ
unfolding shift_left shift_right
rot_r_64 a c = let shift = c % 64 in bit_or (shift_right 64 a shift) (shift_left 64 a (64 - shift))

unfoldable pub rot_r_32 : ℕ → ℕ → ℕ
unfolding chi as_unsigned shift_left shift_right
rot_r_32 a c =
    let value = uint32 a in
    let shift = c % 32 in
    chi_4 (bit_or (shift_right 32 value shift) (shift_left 32 value (32 - shift)))

unfoldable pub and_inv : ℕ → ℕ → ℕ
unfolding bit_not
and_inv a c = bit_and a (bit_not 64 c)

unfoldable pub or_inv : ℕ → ℕ → ℕ
unfolding bit_not
or_inv a c = bit_or a (bit_not 64 c)

unfoldable pub xnor : ℕ → ℕ → ℕ
unfolding bit_not
xnor a c = bit_not 64 (bit_xor a c)

unfoldable pub max_op : ℕ → ℕ → ℕ
unfolding as_signed as_unsigned
max_op a c =
    as_unsigned 64
      (if ltb_ℤ (as_signed 64 c) (as_signed 64 a) then as_signed 64 a else as_signed 64 c)

unfoldable pub max_u : ℕ → ℕ → ℕ
max_u a c = if ltb c a then a else c

unfoldable pub min_op : ℕ → ℕ → ℕ
unfolding as_signed as_unsigned
min_op a c =
    as_unsigned 64
      (if ltb_ℤ (as_signed 64 a) (as_signed 64 c) then as_signed 64 a else as_signed 64 c)

unfoldable pub min_u : ℕ → ℕ → ℕ
min_u a c = if ltb a c then a else c
