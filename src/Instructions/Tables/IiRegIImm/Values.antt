-- ===== src/Instructions/Tables/IiRegIImm/Values.antt =====
-- The values that the methods of ii_reg_i_imm.py store: `w` is registers[rb].
use tsrkit_pvm.Prelude.{
  ℕ, ◌+◌, ◌*◌, ◌/◌, ◌%◌, ◌^◌, Bool, false, ltb, if◌then◌else◌, bit, sub_ℕ, mod_ℤ, ltb_ℤ, div_ℤ, map,
  range, get_or,
}
use tsrkit_pvm.Common.Utils.{chi, z, z_inv, b, b_inv, BitOp, compare_bits_vectorized}

unfoldable pub op_imm : BitOp → ℕ → ℕ → ℕ
op_imm op w vx = b_inv (compare_bits_vectorized op (b w 8 false) (b vx 8 false)) false

unfoldable pub set_lt_u_imm : ℕ → ℕ → ℕ
set_lt_u_imm w vx = bit (ltb w vx)

unfoldable pub set_lt_s_imm : ℕ → ℕ → ℕ
set_lt_s_imm w vx = bit (ltb_ℤ (z w 8) (z vx 8))

unfoldable pub set_gt_u_imm : ℕ → ℕ → ℕ
set_gt_u_imm w vx = bit (ltb vx w)

unfoldable pub set_gt_s_imm : ℕ → ℕ → ℕ
set_gt_s_imm w vx = bit (ltb_ℤ (z vx 8) (z w 8))

-- `alt` exchanges the register and the immediate.
abbrev pub operand_a : Bool → ℕ → ℕ → ℕ
operand_a alt w vx = if alt then vx else w

abbrev pub operand_b : Bool → ℕ → ℕ → ℕ
operand_b alt w vx = if alt then w else vx

unfoldable pub shlo_l_imm : ℕ → Bool → ℕ → ℕ → ℕ
shlo_l_imm bitsize alt w vx =
    chi (operand_a alt w vx * 2 ^ (operand_b alt w vx % bitsize) % 2 ^ bitsize) (bitsize / 8)

unfoldable pub shlo_r_imm : ℕ → Bool → ℕ → ℕ → ℕ
shlo_r_imm bitsize alt w vx =
    chi (operand_a alt w vx % 2 ^ bitsize / 2 ^ (operand_b alt w vx % bitsize) % 2 ^ bitsize)
      (bitsize / 8)

unfoldable pub shar_r_imm : ℕ → Bool → ℕ → ℕ → ℕ
shar_r_imm bitsize alt w vx =
    z_inv
      (div_ℤ (z (operand_a alt w vx % 2 ^ bitsize) (bitsize / 8))
        (2 ^ (operand_b alt w vx % bitsize)))
      8

unfoldable pub neg_add_imm : ℕ → ℕ → ℕ → ℕ
neg_add_imm bitsize w vx =
    let value = mod_ℤ (sub_ℕ (vx + 2 ^ bitsize) w) (2 ^ bitsize) in
    if ltb bitsize 64 then chi value 4 else value

unfoldable pub add_imm : ℕ → ℕ → ℕ → ℕ
add_imm bitsize w vx =
    let value = (w + vx) % 2 ^ bitsize in if ltb bitsize 64 then chi value (bitsize / 8) else value

unfoldable pub mul_imm : ℕ → ℕ → ℕ → ℕ
mul_imm bitsize w vx =
    let value = w * vx % 2 ^ bitsize in if ltb bitsize 64 then chi value 4 else value

unfoldable pub rot_imm : ℕ → Bool → ℕ → ℕ → ℕ
rot_imm bitsize alt w vx =
    let a_val = operand_a alt w vx % 2 ^ bitsize in
    let b_val = operand_b alt w vx % 2 ^ bitsize in
    let a_bits = b a_val (bitsize / 8) false in
    let x = b_inv (map (λ i. get_or a_bits ((i + b_val) % bitsize) 0) (range 0 bitsize)) false in
    if ltb bitsize 64 then chi x (bitsize / 8) else x

unfoldable pub load_value : Bool → ℕ → ℕ → ℕ
load_value is_signed bitsize value = if is_signed then z_inv (z value (bitsize / 8)) 8 else value
