-- ===== src/Cpvm/Utils.antt =====
-- tsrkit_pvm/cpvm/cy_utils.pyx: page arithmetic, sign extension, bit lists and byte strings.
pub mod Agree
pub mod Remainder
use tsrkit_pvm.Prelude.{
  ℕ, zero, suc, ◌+◌, ◌-◌, ◌*◌, ◌/◌, ◌%◌, ◌^◌, min, Bool, true, false, not, ◌||◌, List, [], ◌∷◌,
  ◌++◌, map, bit_or, bit_xor, ltb, leb, ◌==◌, if◌then◌else◌, length, range, take, get_or, ℤ, pos,
  negsuc, leb_ℤ, eqb_ℤ, pos_part, is_neg, ◌-ℤ◌,
}
use tsrkit_pvm.Cpvm.Words.{uint32, uint64, as_signed, as_unsigned, c_rem}

-- Arithmetic of `uint32_t`.
unfoldable pub total_page_size : ℕ → ℕ
total_page_size blob_len = uint32 (uint32 (blob_len + 4095) / 2 ^ 12 * 2 ^ 12)

unfoldable pub total_zone_size : ℕ → ℕ
total_zone_size blob_len = uint32 (uint32 (blob_len + 65535) / 2 ^ 16 * 2 ^ 16)

-- `end - start + 1` of two numbers below 2 ^ 32.
unfoldable pub page_count : ℕ → ℕ → ℕ
page_count start end = uint32 (end + (2 ^ 32 - start) + 1)

unfoldable pub get_pages : ℕ → ℕ → List ℕ
unfolding page_count
get_pages start_index length =
    let start = start_index / 2 ^ 12 in
    let max_length = if ltb 0 length then length else 1 in
    let end_index = uint32 (start_index + max_length + 2 ^ 32 - 1) in
    let end = end_index / 2 ^ 12 in map (λ i. uint32 (start + i)) (range 0 (page_count start end))

-- `value` is a `uint64_t`; `1ULL << k` is `2 ^ k`, and `~((1ULL << bits) - 1)` is `2 ^ 64 - 2 ^ bits`.
unfoldable pub chi : ℕ → ℕ → ℤ
chi value n =
    let bits = 8 * n in
    if n == 0
    then as_signed 64 value
    else if leb 8 n
    then as_signed 64 value
    else if value / 2 ^ (bits - 1) % 2 == 0
    then as_signed 64 value
    else as_signed 64 (bit_or value (2 ^ 64 - 2 ^ bits))

-- The subtraction is one of `uint64_t`, since `sign_bit` is one.
unfoldable pub z : ℕ → ℕ → ℤ
z x n =
    let bits = 8 * n in
    let sign_bit = 2 ^ (bits - 1) in
    if n == 0 || leb 8 n
    then as_signed 64 x
    else as_signed 64 (uint64 (bit_xor (x % 2 ^ bits) sign_bit + (2 ^ 64 - sign_bit)))

unfoldable pub z_inv : ℤ → ℕ → ℕ
z_inv x n = if n == 0 || leb 8 n then as_unsigned 64 x else as_unsigned 64 x % 2 ^ (8 * n)

-- `(value >> i) & 1`.
abbrev pub bit_at : ℕ → ℕ → ℕ
bit_at value i = value / 2 ^ i % 2

-- `b` for at most eight bytes: the loops of its branches for one, four and at most eight bytes.
unfoldable pub b : ℕ → ℕ → Bool → List ℕ
b value byte_size is_reversed =
    let bit_count = 8 * byte_size in
    if byte_size == 0
    then []
    else if is_reversed
    then map (λ i. bit_at value (bit_count - 1 - i)) (range 0 bit_count)
    else map (bit_at value) (range 0 bit_count)

-- `b_inv` for at most 64 bits: the loop `for i in range(bit_count)` from `i` on, with `n` rounds left.
unfoldable pub b_inv_loop : (ℕ → ℕ) → ℕ → ℕ → ℕ → ℕ
b_inv_loop bits i result zero = result
b_inv_loop bits i result (suc n) =
    b_inv_loop bits (i + 1) (if bits i == 0 then result else bit_or result (2 ^ i)) n

unfoldable pub b_inv : List ℕ → Bool → ℕ
unfolding b_inv_loop
b_inv bits is_reversed =
    let bit_count = length bits in
    if is_reversed
    then b_inv_loop (λ i. get_or bits (bit_count - 1 - i) 0) 0 0 bit_count
    else b_inv_loop (λ i. get_or bits i 0) 0 0 bit_count

-- Arithmetic of `int64_t` that leaves its range wraps around.
abbrev pub int64 : ℤ → ℤ
int64 x = as_signed 64 (as_unsigned 64 x)

abbrev pub abs_int64 : ℤ → ℤ
abs_int64 a = if is_neg a then int64 (pos 0 -ℤ a) else a

-- The remainder is one of C, with the sign of its first operand.
unfoldable pub smod : ℤ → ℤ → ℤ
smod a b =
    let rest = c_rem (abs_int64 a) (abs_int64 b) in
    if eqb_ℤ b (pos 0) then a else if is_neg a then int64 (pos 0 -ℤ rest) else rest

unfoldable pub clamp_12 : ℕ → ℕ
clamp_12 val = if leb val 12 then val else 12

unfoldable pub clamp_4 : ℕ → ℕ
clamp_4 val = if leb val 4 then val else 4

-- `val` is an `int8_t`.
unfoldable pub clamp_4_max0 : ℤ → ℕ
clamp_4_max0 val = if leb_ℤ val (pos 0) then 0 else if leb_ℤ val (pos 4) then pos_part val else 4

-- `uint64_to_bytes_le` and its kin, for a buffer of `size` bytes; `buffer[:num_bytes]` is its start.
unfoldable pub to_bytes_le : ℕ → ℕ → ℕ → List ℕ
to_bytes_le size value num_bytes =
    take num_bytes (map (λ i. value / 2 ^ (8 * i) % 256) (range 0 size))

-- `result |= <uint64_t>bytes[i] << (8 * i)` for each of the bytes, from `i` on, in w bits.
unfoldable pub or_loop : ℕ → ℕ → ℕ → List ℕ → ℕ
or_loop w i result [] = result
or_loop w i result (x ∷ xs) = or_loop w (i + 1) (bit_or result (x * 2 ^ (8 * i) % 2 ^ w)) xs

-- `bytes_to_uint64_le` and its kin, for a number of `size` bytes.
unfoldable pub bytes_to_le : ℕ → List ℕ → ℕ
unfolding or_loop
bytes_to_le size bytes = or_loop (8 * size) 0 0 (take size bytes)
