-- ===== src/Core/Code/RoundTrip.antt =====
-- core/code.py: `encode_into` and `decode_from`.
use tsrkit_pvm.Prelude.{
  ℕ, zero, suc, ◌+◌, ◌*◌, ◌/◌, ◌^◌, ◌<◌, List, [], ◌∷◌, ◌++◌, length, take, drop, ◌≡◌, refl, sym,
  ap, ◌∙◌, arith,
}
use native.Mathlib.Nat.{pow-succ'}
use tsrkit_pvm.Instructions.Machine.{from_bytes, to_bytes}
use tsrkit_pvm.Core.Code.{Code, int_at, decode_from, encode}

from_bytes-to_bytes : (v k : ℕ) → v < 256 ^ k → from_bytes (to_bytes v k) ≡ v
unfolding from_bytes to_bytes
from_bytes-to_bytes v zero h = omega arith
from_bytes-to_bytes v (suc k) h =
    let grows = pow-succ' 256 k in rw (from_bytes-to_bytes (v / 256) k (omega arith)) (omega arith)

drop-nil : (n : ℕ) → ◌≡◌ {A = List ℕ} (drop n []) []
drop-nil zero = refl
drop-nil (suc n) = refl

drop-add : (a b : ℕ) (xs : List ℕ) → drop (a + b) xs ≡ drop b (drop a xs)
drop-add zero b xs = ap (λ n. drop n xs) (omega arith)
drop-add (suc a) b [] = drop-nil (suc a + b) ∙ sym (drop-nil b)
drop-add (suc a) b (x ∷ xs) =
    let next : suc a + b ≡ suc (a + b) = omega arith in
    ap (λ n. drop n (x ∷ xs)) next ∙ drop-add a b xs

drop-length-append : (xs ys : List ℕ) → drop (length xs) (xs ++ ys) ≡ ys
drop-length-append [] ys = refl
drop-length-append (x ∷ xs) ys = drop-length-append xs ys

take-length-append : (xs ys : List ℕ) → take (length xs) (xs ++ ys) ≡ xs
take-length-append [] ys = refl
take-length-append (x ∷ xs) ys = ap (λ r. x ∷ r) (take-length-append xs ys)

-- What `Code` may hold for its numbers to fit their fields.
abbrev pub Fits : Code → Type 0
Fits c =
    (length c.read < 2 ^ 24)
    × (length c.r_write < 2 ^ 24)
    × (length c.code < 2 ^ 32)
    × (c.z < 2 ^ 16)
    × (c.s < 2 ^ 24)

-- `Uint[n](v).encode_into` writes a number of n bits as n / 8 bytes, the lowest first.
abbrev pub IsLittleEndian : (ℕ → ℕ → List ℕ) → Type 0
IsLittleEndian uint = (k v : ℕ) → v < 2 ^ (8 * k) → uint (8 * k) v ≡ to_bytes v k

-- The parts of an encoding, each as bytes.
abbrev tail : Code → List ℕ
tail c = c.read ++ (c.r_write ++ (to_bytes (length c.code) 4 ++ c.code))

abbrev parts : Code → List ℕ
parts c =
    to_bytes (length c.read) 3
    ++ (to_bytes (length c.r_write) 3 ++ (to_bytes c.z 2 ++ (to_bytes c.s 3 ++ tail c)))

drop-head : (c : Code) → drop 11 (parts c) ≡ tail c
unfolding to_bytes
drop-head c = refl

drop-parts : (c : Code) (k : ℕ) → drop (11 + k) (parts c) ≡ drop k (tail c)
unfolding to_bytes
drop-parts c k = drop-add 11 k (parts c)

drop-read :
    (c : Code)
    → drop (11 + length c.read) (parts c) ≡ c.r_write ++ (to_bytes (length c.code) 4 ++ c.code)
drop-read c = drop-parts c (length c.read) ∙ drop-length-append c.read _

drop-write :
    (c : Code)
    → drop (11 + length c.read + length c.r_write) (parts c) ≡ to_bytes (length c.code) 4 ++ c.code
drop-write c =
    drop-add (11 + length c.read) (length c.r_write) (parts c)
    ∙ ap (drop (length c.r_write)) (drop-read c)
    ∙ drop-length-append c.r_write _

drop-length : (c : Code) → drop (11 + length c.read + length c.r_write + 4) (parts c) ≡ c.code
unfolding to_bytes
drop-length c =
    drop-add (11 + length c.read + length c.r_write) 4 (parts c) ∙ ap (drop 4) (drop-write c)

take-all : (xs : List ℕ) → take (length xs) xs ≡ xs
take-all [] = refl
take-all (x ∷ xs) = ap (λ r. x ∷ r) (take-all xs)

module _ (c : Code) (f : Fits c) where
  read_length : int_at (parts c) 0 3 ≡ length c.read
  unfolding int_at to_bytes
  read_length = from_bytes-to_bytes (length c.read) 3 f.0

  write_length : int_at (parts c) 3 3 ≡ length c.r_write
  unfolding int_at to_bytes
  write_length = from_bytes-to_bytes (length c.r_write) 3 f.1

  code_length : int_at (parts c) (11 + length c.read + length c.r_write) 4 ≡ length c.code
  unfolding int_at to_bytes
  code_length =
      ap (λ bytes. from_bytes (take 4 bytes)) (drop-write c)
      ∙ from_bytes-to_bytes (length c.code) 4 f.2

  z_field : int_at (parts c) 6 2 ≡ c.z
  unfolding int_at to_bytes
  z_field = from_bytes-to_bytes c.z 2 f.3

  s_field : int_at (parts c) 8 3 ≡ c.s
  unfolding int_at to_bytes
  s_field = from_bytes-to_bytes c.s 3 f.4

  decode_from-parts : decode_from (parts c) ≡ c
  unfolding decode_from
  decode_from-parts =
      rw (read_length, write_length, code_length, z_field, s_field)
        (rw (drop-head c, drop-read c, drop-length c)
          (rw
            (
              take-length-append c.read (c.r_write ++ (to_bytes (length c.code) 4 ++ c.code)),
              take-length-append c.r_write (to_bytes (length c.code) 4 ++ c.code),
              take-all c.code,
            )
            refl))

module _ (uint : ℕ → ℕ → List ℕ) (little : IsLittleEndian uint) where
  encode-parts : (c : Code) → Fits c → encode uint c ≡ parts c
  unfolding encode
  encode-parts c (r, w, l, z, s) =
      rw
        (
          little 3 (length c.read) r,
          little 3 (length c.r_write) w,
          little 2 c.z z,
          little 3 c.s s,
          little 4 (length c.code) l,
        )
        refl

  -- If `Uint[n]` writes a number of n bits little-endian, and the numbers and lengths of a `Code`
  -- fit their fields, decoding what `encode_into` wrote for it gives the `Code` back.
  pub decode_from-encode : (c : Code) → Fits c → decode_from (encode uint c) ≡ c
  decode_from-encode c f = ap decode_from (encode-parts c f) ∙ decode_from-parts c f
