-- ===== src/Cpvm/Words.antt =====
-- C integers: an unsigned one of w bits is a natural number below 2 ^ w, a signed one an integer.
-- Signed arithmetic that leaves its range wraps around.
pub mod Bits
pub mod Combine
use tsrkit_pvm.Prelude.{
  ℕ, zero, suc, ◌+◌, ◌-◌, ◌*◌, ◌/◌, ◌%◌, ◌^◌, ltb, if◌then◌else◌, ℤ, pos, negsuc, mod_ℤ, abs,
  is_neg, signed, xor,
}

-- `<uint8_t>x`, `<uint16_t>x`, `<uint32_t>x` and `<uint64_t>x` of a number that is not negative.
abbrev pub uint8 : ℕ → ℕ
uint8 x = x % 2 ^ 8

abbrev pub uint16 : ℕ → ℕ
uint16 x = x % 2 ^ 16

abbrev pub uint32 : ℕ → ℕ
uint32 x = x % 2 ^ 32

abbrev pub uint64 : ℕ → ℕ
uint64 x = x % 2 ^ 64

-- A word of w bits, w at least 1, read as a signed number, and a signed number as a word.
unfoldable pub as_signed : ℕ → ℕ → ℤ
as_signed w x = if ltb x (2 ^ (w - 1)) then pos x else negsuc (2 ^ w - 1 - x)

unfoldable pub as_unsigned : ℕ → ℤ → ℕ
as_unsigned w x = mod_ℤ x (2 ^ w)

-- `a - b` of unsigned numbers of w bits, `b` below 2 ^ w.
unfoldable pub wrap_sub : ℕ → ℕ → ℕ → ℕ
wrap_sub w a b = (a + (2 ^ w - b)) % 2 ^ w

-- `~x` of an unsigned number of w bits.
unfoldable pub bit_not : ℕ → ℕ → ℕ
bit_not w x = 2 ^ w - 1 - x

-- `x << n` and `x >> n` of an unsigned number of w bits. C says nothing of an `n` of w or more; here
-- the processor takes it modulo w, as x86-64 and AArch64 do.
unfoldable pub shift_left : ℕ → ℕ → ℕ → ℕ
shift_left w x n = x * 2 ^ (n % w) % 2 ^ w

unfoldable pub shift_right : ℕ → ℕ → ℕ → ℕ
shift_right w x n = x / 2 ^ (n % w)

-- `a / b` and `a % b` of signed numbers in C, `b` not 0: rounded towards 0.
unfoldable pub c_div : ℤ → ℤ → ℤ
c_div a b = signed (xor (is_neg a) (is_neg b)) (abs a / abs b)

unfoldable pub c_rem : ℤ → ℤ → ℤ
c_rem a b = signed (is_neg a) (abs a % abs b)
