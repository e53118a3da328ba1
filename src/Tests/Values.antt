-- ===== src/Tests/Values.antt =====
-- What the statements on numbers, bit lists and `Code` say at concrete values.
use tsrkit_pvm.Prelude.{
  ◌<◌, ◌%◌, length, get_or, ℕ, ◌*◌, ◌/◌, ◌^◌, ◌==◌, false, true, List, [], ◌∷◌, ◌≡◌, refl, arith,
}
use tsrkit_pvm.Common.Utils.{b, b_inv, BitOp, chi, z, z_inv}
use tsrkit_pvm.Common.Bits.{b_inv-b}
use tsrkit_pvm.Common.Signs.{chi-z, z_inv-z}
use tsrkit_pvm.Instructions.Machine.{to_bytes}
use tsrkit_pvm.Instructions.Tables.IiiReg.Values.{op}
use tsrkit_pvm.Instructions.Tables.IiiReg.Logic.{combine, flip, truth, op-truth, op_imm-truth}
use tsrkit_pvm.Instructions.Tables.IiRegIImm.Values.{op_imm}
use tsrkit_pvm.Core.ProgramBase.{decode_bits}
use tsrkit_pvm.Core.ProgramBase.Bitmask.{decode_bits-bit}
use tsrkit_pvm.Core.Code.{Code, decode_from, encode}
use tsrkit_pvm.Core.Code.RoundTrip.{Fits, IsLittleEndian, decode_from-encode}

b_inv-b_example : b_inv (b 300 2 false) false ≡ 300
b_inv-b_example = b_inv-b 300 2 (omega arith)

chi-z_example : chi 200 1 ≡ z_inv (z 200 1) 8
chi-z_example = chi-z 200 1 (omega arith) (omega arith) (omega arith)

z_inv-z_example : z_inv (z 200 1) 1 ≡ 200
z_inv-z_example = z_inv-z 200 1 (omega arith) (omega arith)

-- `and_inv` of 12 and 10.
op-truth_example :
    op BitOp.and false true false 12 10
    ≡ combine (λ x y. flip false (truth BitOp.and (flip false x) (flip true y))) 64 12 10
op-truth_example = op-truth BitOp.and false true false 12 10

op_imm-truth_example : op_imm BitOp.xor 12 10 ≡ combine (truth BitOp.xor) 64 12 10
op_imm-truth_example = op_imm-truth BitOp.xor 12 10

-- `Uint[n]` as its documentation describes it.
abbrev uint : ℕ → ℕ → List ℕ
uint n v = to_bytes v (n / 8)

uint-IsLittleEndian : IsLittleEndian uint
uint-IsLittleEndian k v h = let e : 8 * k / 8 ≡ k = omega arith in rw e refl

abbrev small_code : Code
small_code = record {
  read = 1 ∷ 2 ∷ [];
  r_write = 3 ∷ [];
  code = 0 ∷ 0 ∷ 1 ∷ 1 ∷ [];
  z = 2;
  s = 4096;
}

small_code-Fits : Fits small_code
small_code-Fits = (omega arith, omega arith, omega arith, omega arith, omega arith)

decode_from-encode_example : decode_from (encode uint small_code) ≡ small_code
decode_from-encode_example = decode_from-encode uint uint-IsLittleEndian small_code small_code-Fits

decode_bits-bit_example :
    (length (decode_bits (165 ∷ 20 ∷ []) 14) ≡ 14)
    × ((i : ℕ)
        → i < 14
        → get_or (decode_bits (165 ∷ 20 ∷ []) 14) i false
          ≡ (get_or (165 ∷ 20 ∷ []) (i / 8) 0 / 2 ^ (i % 8) % 2 == 1))
decode_bits-bit_example = decode_bits-bit (165 ∷ 20 ∷ []) 14
