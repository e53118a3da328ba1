-- ===== src/Core/Code.antt =====
-- tsrkit_pvm/core/code.py: `Code` and `regs_from_pc`.
pub mod RoundTrip
use tsrkit_pvm.Prelude.{
  ℕ, zero, suc, ◌+◌, ◌-◌, ◌*◌, ◌^◌, List, [], ◌∷◌, ◌++◌, length, replicate, set, slice,
}
use tsrkit_pvm.Common.Constants.{pvm_init_data_size, pvm_init_zone_size, register_count}
use tsrkit_pvm.Instructions.Machine.{from_bytes}

pub record Code : Type 0 where
  pub read : List ℕ
  pub r_write : List ℕ
  pub code : List ℕ
  pub z : ℕ
  pub s : ℕ

-- `int.from_bytes(pc[offset : offset + n], "little")`.
unfoldable pub int_at : List ℕ → ℕ → ℕ → ℕ
unfolding from_bytes
int_at pc offset n = from_bytes (slice pc offset n)

unfoldable pub decode_from : List ℕ → Code
unfolding int_at
decode_from pc =
    let o_len = int_at pc 0 3 in
    let w_len = int_at pc 3 3 in
    let o_start : ℕ = 11 in
    let w_start = o_start + o_len in
    let c_start = w_start + w_len in
    let c_len = int_at pc c_start 4 in
    record {
      read = slice pc o_start o_len;
      r_write = slice pc w_start w_len;
      code = slice pc (c_start + 4) c_len;
      z = int_at pc 6 2;
      s = int_at pc 8 3;
    }

unfoldable pub encode_size : Code → ℕ
encode_size c = 3 + 3 + 2 + 3 + length c.read + length c.r_write + 4 + length c.code

-- `encode_into`: what is written into the buffer from `offset` on, in this order. `uint n v` is
-- `Uint[n](v).encode_into` of tsrkit_types.
module _ (uint : ℕ → ℕ → List ℕ) where
  unfoldable pub encode : Code → List ℕ
  encode c =
      uint 24 (length c.read)
      ++ (uint 24 (length c.r_write)
          ++ (uint 16 c.z
              ++ (uint 24 c.s ++ (c.read ++ (c.r_write ++ (uint 32 (length c.code) ++ c.code))))))

unfoldable pub regs_from_pc : List ℕ → List ℕ
regs_from_pc args =
    let result = replicate register_count 0 in
    let result = set result 0 (2 ^ 32 - 2 ^ 16) in
    let result = set result 1 (2 ^ 32 - 2 * pvm_init_zone_size - pvm_init_data_size) in
    let result = set result 7 (2 ^ 32 - pvm_init_zone_size - pvm_init_data_size) in
    set result 8 (length args)
