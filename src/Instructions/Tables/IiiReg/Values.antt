-- ===== src/Instructions/Tables/IiiReg/Values.antt =====
-- The values that the methods of iii_reg.py store: `a` is registers[ra], `c` is registers[rb].
use tsrkit_pvm.Prelude.{
  ℕ, ◌+◌, ◌-◌, ◌*◌, ◌/◌, ◌%◌, ◌^◌, max, min, Bool, false, ◌&&◌, List, [], ◌∷◌, map, ◌==◌, ltb,
  if◌then◌else◌, bit, get_or, set, replicate, range, ℤ, pos, negsuc, ◌*ℤ◌, div_ℤ, mod_ℤ, sub_ℕ,
  eqb_ℤ, ltb_ℤ, abs, is_neg, signed, xor,
}
use tsrkit_pvm.Common.Utils.{chi, z, z_inv, b, b_inv, smod, BitOp, compare_bits_vectorized}

unfoldable pub add_32 : ℕ → ℕ → ℕ
add_32 a c = chi ((a + c) % 2 ^ 32) 4

unfoldable pub add_64 : ℕ → ℕ → ℕ
add_64 a c = (a + c) % 2 ^ 64

unfoldable pub sub_32 : ℕ → ℕ → ℕ
sub_32 a c = chi ((a + 2 ^ 32 - c % 2 ^ 32) % 2 ^ 32) 4

unfoldable pub sub_64 : ℕ → ℕ → ℕ
sub_64 a c = mod_ℤ (sub_ℕ (a + 2 ^ 64) c) (2 ^ 64)

unfoldable pub mul_32 : ℕ → ℕ → ℕ
mul_32 a c = chi (a * c % 2 ^ 32) 4

unfoldable pub mul_64 : ℕ → ℕ → ℕ
mul_64 a c = a * c % 2 ^ 64

unfoldable pub div_u_32 : ℕ → ℕ → ℕ
div_u_32 a c = if c % 2 ^ 32 == 0 then 2 ^ 64 - 1 else chi (a % 2 ^ 32 / (c % 2 ^ 32)) 4

-- `trunc(Decimal(a) / c)`: 28 digits are enough for the quotient of two 64-bit numbers to be
-- truncated exactly.
unfoldable pub div_u_64 : ℕ → ℕ → ℕ
div_u_64 a c = if c == 0 then 2 ^ 64 - 1 else a / c

-- `trunc(a / c)` of two integers, `c` not 0. The source divides floats or Decimals, whose precision
-- is enough for operands of 32 and of 64 bits.
unfoldable pub trunc_div : ℤ → ℤ → ℤ
trunc_div a c = signed (xor (is_neg a) (is_neg c)) (abs a / abs c)

unfoldable pub div_s_32 : ℕ → ℕ → ℕ
unfolding trunc_div
div_s_32 ra rb =
    let a = z (ra % 2 ^ 32) 4 in
    let c = z (rb % 2 ^ 32) 4 in
    if eqb_ℤ c (pos 0)
    then 2 ^ 64 - 1
    else if eqb_ℤ a (negsuc (2 ^ 31 - 1)) && eqb_ℤ c (negsuc 0)
    then z_inv a 8
    else z_inv (trunc_div a c) 8

unfoldable pub div_s_64 : ℕ → ℕ → ℕ
unfolding trunc_div
div_s_64 ra rb =
    let a = z ra 8 in
    let c = z rb 8 in
    if rb == 0
    then 2 ^ 64 - 1
    else if eqb_ℤ a (negsuc (2 ^ 63 - 1)) && eqb_ℤ c (negsuc 0)
    then ra
    else z_inv (trunc_div a c) 8

unfoldable pub rem_u_32 : ℕ → ℕ → ℕ
rem_u_32 ra rb = let a = ra % 2 ^ 32 in let c = rb % 2 ^ 32 in chi (if c == 0 then a else a % c) 4

unfoldable pub rem_u_64 : ℕ → ℕ → ℕ
rem_u_64 a c = if c == 0 then a else a % c

unfoldable pub rem_s_32 : ℕ → ℕ → ℕ
rem_s_32 ra rb =
    let a = z (ra % 2 ^ 32) 4 in
    let c = z (rb % 2 ^ 32) 4 in
    if eqb_ℤ a (negsuc (2 ^ 31 - 1)) && eqb_ℤ c (negsuc 0) then 0 else z_inv (smod a c) 8

-- The test names -(2 ** 31), as that of `rem_s_32` does.
unfoldable pub rem_s_64 : ℕ → ℕ → ℕ
rem_s_64 ra rb =
    let a = z ra 8 in
    let c = z rb 8 in
    if eqb_ℤ a (negsuc (2 ^ 31 - 1)) && eqb_ℤ c (negsuc 0) then 0 else z_inv (smod a c) 8

unfoldable pub shlo_l_32 : ℕ → ℕ → ℕ
shlo_l_32 a c = chi (a * 2 ^ (c % 32) % 2 ^ 32) 4

unfoldable pub shlo_l_64 : ℕ → ℕ → ℕ
shlo_l_64 a c = a * 2 ^ (c % 64) % 2 ^ 64

unfoldable pub shlo_r_32 : ℕ → ℕ → ℕ
shlo_r_32 a c = chi (a % 2 ^ 32 / 2 ^ (c % 32)) 4

unfoldable pub shlo_r_64 : ℕ → ℕ → ℕ
shlo_r_64 a c = a % 2 ^ 64 / 2 ^ (c % 64)

unfoldable pub shar_r_32 : ℕ → ℕ → ℕ
shar_r_32 a c = z_inv (div_ℤ (z (a % 2 ^ 32) 4) (2 ^ (c % 32))) 8

unfoldable pub shar_r_64 : ℕ → ℕ → ℕ
shar_r_64 a c = z_inv (div_ℤ (z (a % 2 ^ 64) 8) (2 ^ (c % 64))) 8

unfoldable pub not_bits : Bool → List ℕ → List ℕ
not_bits inv bits = if inv then map (λ x. 1 - x) bits else bits

-- `_op`; the bits are 0 and 1.
unfoldable pub op : BitOp → Bool → Bool → Bool → ℕ → ℕ → ℕ
unfolding not_bits
op name inv_a inv_b inv_res a c =
    let ba = not_bits inv_a (b a 8 false) in
    let bb = not_bits inv_b (b c 8 false) in
    b_inv (not_bits inv_res (compare_bits_vectorized name ba bb)) false

unfoldable pub mul_upper_s_s : ℕ → ℕ → ℕ
mul_upper_s_s a c = z_inv (div_ℤ (z a 8 *ℤ z c 8) (2 ^ 64)) 8

unfoldable pub mul_upper_u_u : ℕ → ℕ → ℕ
mul_upper_u_u a c = a * c / 2 ^ 64

unfoldable pub mul_upper_s_u : ℕ → ℕ → ℕ
mul_upper_s_u a c = z_inv (div_ℤ (z a 8 *ℤ pos c) (2 ^ 64)) 8

unfoldable pub set_lt_u : ℕ → ℕ → ℕ
set_lt_u a c = bit (ltb a c)

unfoldable pub set_lt_s : ℕ → ℕ → ℕ
set_lt_s a c = bit (ltb_ℤ (z a 8) (z c 8))

unfoldable pub max_s : ℕ → ℕ → ℕ
max_s a c = z_inv (if ltb_ℤ (z a 8) (z c 8) then z c 8 else z a 8) 8

unfoldable pub max_u : ℕ → ℕ → ℕ
max_u a c = max a c

unfoldable pub min_s : ℕ → ℕ → ℕ
min_s a c = z_inv (if ltb_ℤ (z c 8) (z a 8) then z c 8 else z a 8) 8

unfoldable pub min_u : ℕ → ℕ → ℕ
min_u a c = min a c

-- `x[(i + c) % size] = bits[i]` for each `i`, from `i` on.
unfoldable pub rot_l_loop : ℕ → ℕ → ℕ → List ℕ → List ℕ → List ℕ
rot_l_loop size c i [] x = x
rot_l_loop size c i (y ∷ bits) x = rot_l_loop size c (i + 1) bits (set x ((i + c) % size) y)

unfoldable pub rot_l_64 : ℕ → ℕ → ℕ
unfolding rot_l_loop
rot_l_64 a c = b_inv (rot_l_loop 64 c 0 (b a 8 false) (replicate 64 0)) false

unfoldable pub rot_l_32 : ℕ → ℕ → ℕ
unfolding rot_l_loop
rot_l_32 a c = chi (b_inv (rot_l_loop 32 c 0 (b (a % 2 ^ 32) 4 false) (replicate 32 0)) false) 4

-- The bits `[a_bits[(i + c) % bitsize] for i in range(bitsize)]`.
unfoldable pub rotated : ℕ → ℕ → List ℕ → List ℕ
rotated bitsize c bits = map (λ i. get_or bits ((i + c) % bitsize) 0) (range 0 bitsize)

unfoldable pub rot_r : ℕ → ℕ → ℕ → ℕ
unfolding rotated
rot_r bitsize ra rb =
    let a_bits = b (ra % 2 ^ bitsize) (bitsize / 8) false in
    let b_val = rb % 2 ^ bitsize in
    let x = b_inv (rotated bitsize b_val a_bits) false in
    if ltb bitsize 64 then chi x (bitsize / 8) else x
