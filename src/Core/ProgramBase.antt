-- ===== src/Core/ProgramBase.antt =====
-- tsrkit_pvm/core/program_base.py: `Program.decode_from`.
pub mod Bitmask
use tsrkit_pvm.Prelude.{
  ℕ, zero, suc, ◌+◌, ◌*◌, ◌/◌, ◌%◌, ◌^◌, Bool, false, List, [], ◌∷◌, ◌++◌, map, Option, none, some,
  ◌==◌, get_or, get_elem?, range, replicate, slice,
}
use tsrkit_pvm.Instructions.Machine.{from_bytes}

-- The fields of a decoded blob, and the number of bytes that were read.
pub record Blob : Type 0 where
  pub z : ℕ
  pub jump_table : List ℕ
  pub instruction_set : List ℕ
  pub offset_bitmask : List Bool
  pub bytes_read : ℕ

-- The loop over the jump table: `j_len` entries of `z` bytes from `offset` on.
unfoldable pub read_jumps : List ℕ → ℕ → ℕ → ℕ → List ℕ
unfolding from_bytes
read_jumps buffer z offset zero = []
read_jumps buffer z offset (suc j_len) =
    from_bytes (slice buffer offset z) ∷ read_jumps buffer z (offset + z) j_len

-- `bool(byte_val & (1 << bit_idx))`.
unfoldable pub test_bit : ℕ → ℕ → Bool
test_bit byte_val bit_idx = byte_val / 2 ^ bit_idx % 2 == 1

-- The eight assignments of one round of the loop over whole bytes.
unfoldable pub full_byte : ℕ → List Bool
unfolding test_bit
full_byte byte_val = map (test_bit byte_val) (range 0 8)

-- The rounds from byte `byte_idx` on; a byte that the data does not have counts as 0.
unfoldable pub full_bytes_loop : List ℕ → ℕ → ℕ → List Bool
unfolding full_byte
full_bytes_loop bit_data byte_idx zero = []
full_bytes_loop bit_data byte_idx (suc rounds) =
    full_byte (get_or bit_data byte_idx 0) ++ full_bytes_loop bit_data (byte_idx + 1) rounds

-- The bits after the last whole byte; they stay False if the data ends before them.
unfoldable pub remaining : Option ℕ → ℕ → List Bool
unfolding test_bit
remaining none n = replicate n false
remaining (some byte_val) n = map (test_bit byte_val) (range 0 n)

-- `offset_bitmask`, `c_len` bits from `bit_data`, the lowest bit of each byte first.
unfoldable pub decode_bits : List ℕ → ℕ → List Bool
unfolding full_bytes_loop remaining
decode_bits bit_data c_len =
    let full_bytes = c_len / 8 in
    full_bytes_loop bit_data 0 full_bytes ++ remaining (get_elem? bit_data full_bytes) (c_len % 8)

-- `decode_uint buffer offset` is `Uint.decode_from` of tsrkit_types: a number and its size.
module _ (decode_uint : List ℕ → ℕ → ℕ × ℕ) where
  unfoldable pub decode_from : List ℕ → ℕ → Blob
  unfolding read_jumps decode_bits from_bytes
  decode_from buffer offset =
      let (j_len, j_size) = decode_uint buffer offset in
      let z_offset = offset + j_size in
      let z = from_bytes (slice buffer z_offset 1) in
      let (c_len, c_size) = decode_uint buffer (z_offset + 1) in
      let j_offset = z_offset + 1 + c_size in
      let c_offset = j_offset + j_len * z in
      let bit_offset = c_offset + c_len in
      let bit_bytes_needed = (c_len + 7) / 8 in
      record {
        z = z;
        jump_table = read_jumps buffer z j_offset j_len;
        instruction_set = slice buffer c_offset c_len;
        offset_bitmask = decode_bits (slice buffer bit_offset bit_bytes_needed) c_len;
        bytes_read = j_size + 1 + c_size + j_len * z + bit_bytes_needed;
      }
