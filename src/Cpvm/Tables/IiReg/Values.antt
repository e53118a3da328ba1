-- ===== src/Cpvm/Tables/IiReg/Values.antt =====
-- The values that the methods of ii_reg.pyx store: `a` is registers[ra].
use tsrkit_pvm.Prelude.{
  ℕ, zero, suc, ◌+◌, ◌-◌, ◌*◌, ◌/◌, ◌%◌, ◌^◌, bit_and, bit_or, ◌==◌, if◌then◌else◌,
}

-- `while val: val &= val - 1; count += 1`. Each round clears a bit, so that 64 rounds are enough.
unfoldable pub count_set_bits_loop : ℕ → ℕ → ℕ → ℕ
count_set_bits_loop zero count val = count
count_set_bits_loop (suc fuel) count val =
    let rest = count_set_bits_loop fuel (count + 1) (bit_and val (val - 1)) in
    if val == 0 then count else rest

-- `while (val & mask) == 0: count += 1; mask >>= 1`, for a value that is not 0.
unfoldable pub leading_zeros_loop : ℕ → ℕ → ℕ → ℕ → ℕ
leading_zeros_loop zero count mask val = count
leading_zeros_loop (suc fuel) count mask val =
    let rest = leading_zeros_loop fuel (count + 1) (mask / 2) val in
    if bit_and val mask == 0 then rest else count

-- `while (val & 1) == 0: count += 1; val >>= 1`, for a value that is not 0.
unfoldable pub trailing_zeros_loop : ℕ → ℕ → ℕ → ℕ
trailing_zeros_loop zero count val = count
trailing_zeros_loop (suc fuel) count val =
    let rest = trailing_zeros_loop fuel (count + 1) (val / 2) in
    if val % 2 == 0 then rest else count

-- `registers[ra] & 0xFFFFFFFF` is `% 2 ^ 32`.
unfoldable pub count_set_bits : ℕ → ℕ → ℕ
unfolding count_set_bits_loop
count_set_bits bitsize a = count_set_bits_loop 64 0 (a % 2 ^ bitsize)

unfoldable pub leading_zero_bits : ℕ → ℕ → ℕ
unfolding leading_zeros_loop
leading_zero_bits bitsize a =
    let val = a % 2 ^ bitsize in
    if val == 0 then bitsize else leading_zeros_loop bitsize 0 (2 ^ (bitsize - 1)) val

unfoldable pub trailing_zero_bits : ℕ → ℕ → ℕ
unfolding trailing_zeros_loop
trailing_zero_bits bitsize a =
    let val = a % 2 ^ bitsize in if val == 0 then bitsize else trailing_zeros_loop bitsize 0 val

-- `val & 0x80` asks for the sign bit, and `val | 0xFFFFFFFFFFFFFF00` sets the bits above.
unfoldable pub sign_extend : ℕ → ℕ → ℕ
sign_extend bitsize a =
    let val = a % 2 ^ bitsize in
    if bit_and val (2 ^ (bitsize - 1)) == 0 then val else bit_or val (2 ^ 64 - 2 ^ bitsize)

unfoldable pub zero_extend_16 : ℕ → ℕ
zero_extend_16 a = a % 2 ^ 16

-- `(val & (0xFF << (8 * i)))`, moved to byte 7 - i.
abbrev swapped : ℕ → ℕ → ℕ
swapped val i = val / 2 ^ (8 * i) % 256 * 2 ^ (8 * (7 - i))

unfoldable pub reverse_bytes : ℕ → ℕ
reverse_bytes val =
    let r0 = swapped val 0 in
    let r1 = bit_or r0 (swapped val 1) in
    let r2 = bit_or r1 (swapped val 2) in
    let r3 = bit_or r2 (swapped val 3) in
    let r4 = bit_or r3 (swapped val 4) in
    let r5 = bit_or r4 (swapped val 5) in
    let r6 = bit_or r5 (swapped val 6) in bit_or r6 (swapped val 7)
