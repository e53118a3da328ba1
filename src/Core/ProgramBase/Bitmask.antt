-- ===== src/Core/ProgramBase/Bitmask.antt =====
-- core/program_base.py: the bitmask that `decode_from` reads.
use tsrkit_pvm.Prelude.{
  ℕ, zero, suc, ◌+◌, ◌-◌, ◌*◌, ◌/◌, ◌%◌, ◌^◌, ◌≤◌, ◌<◌, Bool, false, List, [], ◌∷◌, ◌++◌, map,
  Option, none, some, length, get_or, get_elem?, range, replicate, ◌≡◌, refl, sym, ap, ◌∙◌, ◌==◌,
  arith, length-map, ltb, ltb→lt, ltb→le, Bool-cases, inl, inr, length-append, length-replicate,
}
use native.Mathlib.Nat.{zero-div}
use tsrkit_pvm.Core.ProgramBase.{test_bit, full_byte, full_bytes_loop, remaining, decode_bits}

length-range : (k n : ℕ) → length (range k n) ≡ n
length-range k zero = refl
length-range k (suc n) = ap suc (length-range (k + 1) n)

length-remaining : (o : Option ℕ) (n : ℕ) → length (remaining o n) ≡ n
unfolding remaining
length-remaining none n = length-replicate n false
length-remaining (some x) n = length-map (test_bit x) (range 0 n) ∙ length-range 0 n

get_or-map-bits :
    (f : ℕ → Bool) (k n i : ℕ) → i < n → get_or (map f (range k n)) i false ≡ f (k + i)
get_or-map-bits f k zero i h = absurd (omega arith)
get_or-map-bits f k (suc n) zero h = ap f (omega arith)
get_or-map-bits f k (suc n) (suc i) h =
    get_or-map-bits f (k + 1) n i (omega arith) ∙ ap f (omega arith)

get_or-replicate : (n i : ℕ) → get_or (replicate n false) i false ≡ false
get_or-replicate zero i = refl
get_or-replicate (suc n) zero = refl
get_or-replicate (suc n) (suc i) = get_or-replicate n i

get_or-append-right :
    (xs ys : List Bool) (i : ℕ)
    → length xs ≤ i
    → get_or (xs ++ ys) i false ≡ get_or ys (i - length xs) false
get_or-append-right [] ys i h = ap (λ n. get_or ys n false) (omega arith)
get_or-append-right (x ∷ xs) ys zero h = absurd (omega arith)
get_or-append-right (x ∷ xs) ys (suc i) h =
    get_or-append-right xs ys i (omega arith) ∙ ap (λ n. get_or ys n false) (omega arith)

get_or-append-left :
    (xs ys : List Bool) (i : ℕ) → i < length xs → get_or (xs ++ ys) i false ≡ get_or xs i false
get_or-append-left [] ys i h = absurd (omega arith)
get_or-append-left (x ∷ xs) ys zero h = refl
get_or-append-left (x ∷ xs) ys (suc i) h = get_or-append-left xs ys i (omega arith)

length-full_byte : (x : ℕ) → length (full_byte x) ≡ 8
unfolding full_byte
length-full_byte x = refl

length-full_bytes_loop : (xs : List ℕ) (k n : ℕ) → length (full_bytes_loop xs k n) ≡ n * 8
unfolding full_bytes_loop
length-full_bytes_loop xs k zero = refl
length-full_bytes_loop xs k (suc n) =
    length-append (full_byte (get_or xs k 0)) (full_bytes_loop xs (k + 1) n)
    ∙ omega (arith, length-full_byte (get_or xs k 0), length-full_bytes_loop xs (k + 1) n)

full_bytes_loop-cons :
    (xs : List ℕ) (k n : ℕ)
    → full_bytes_loop xs k (suc n) ≡ full_byte (get_or xs k 0) ++ full_bytes_loop xs (k + 1) n
unfolding full_bytes_loop
full_bytes_loop-cons xs k n = refl

full_byte-bit : (x i : ℕ) → i < 8 → get_or (full_byte x) i false ≡ test_bit x i
unfolding full_byte
full_byte-bit x i h = get_or-map-bits (test_bit x) 0 8 i h ∙ ap (test_bit x) (omega arith)

full_bytes_loop-bit :
    (xs : List ℕ) (k n i : ℕ)
    → i < n * 8
    → get_or (full_bytes_loop xs k n) i false ≡ test_bit (get_or xs (k + i / 8) 0) (i % 8)
full_bytes_loop-bit xs k zero i h = absurd (omega arith)
full_bytes_loop-bit xs k (suc n) i h =
    let x = get_or xs k 0 in
    ap (λ l. get_or l i false) (full_bytes_loop-cons xs k n) ∙ elim (Bool-cases (ltb i 8)) [
      | inl low ↦
          let lt = ltb→lt i 8 low in
          let here : k + i / 8 ≡ k = omega arith in
          let rem : i % 8 ≡ i = omega arith in
          get_or-append-left (full_byte x) (full_bytes_loop xs (k + 1) n) i
            (omega (arith, length-full_byte x))
          ∙ full_byte-bit x i lt
          ∙ rw (here, rem) refl
      | inr high ↦
          let ge = ltb→le i 8 high in
          let len = length-full_byte x in
          let less : i - length (full_byte x) ≡ i - 8 = omega arith in
          let there : k + i / 8 ≡ k + 1 + (i - 8) / 8 = omega arith in
          let rem : i % 8 ≡ (i - 8) % 8 = omega arith in
          get_or-append-right (full_byte x) (full_bytes_loop xs (k + 1) n) i (omega arith)
          ∙ ap (λ j. get_or (full_bytes_loop xs (k + 1) n) j false) less
          ∙ full_bytes_loop-bit xs (k + 1) n (i - 8) (omega arith)
          ∙ rw (there, rem) refl
    ]

abbrev byte_or : Option ℕ → ℕ
byte_or none = 0
byte_or (some x) = x

byte_or-get_elem? : (xs : List ℕ) (i : ℕ) → byte_or (get_elem? xs i) ≡ get_or xs i 0
byte_or-get_elem? [] i = refl
byte_or-get_elem? (x ∷ xs) zero = refl
byte_or-get_elem? (x ∷ xs) (suc i) = byte_or-get_elem? xs i

test_bit-zero : (i : ℕ) → test_bit 0 i ≡ false
unfolding test_bit
test_bit-zero i = rw (zero-div (2 ^ i)) refl

remaining-bit :
    (o : Option ℕ) (n i : ℕ) → i < n → get_or (remaining o n) i false ≡ test_bit (byte_or o) i
unfolding remaining
remaining-bit none n i h = get_or-replicate n i ∙ sym (test_bit-zero i)
remaining-bit (some x) n i h = get_or-map-bits (test_bit x) 0 n i h ∙ ap (test_bit x) (omega arith)

decode_bits-test_bit :
    (bit_data : List ℕ) (c_len : ℕ)
    → (length (decode_bits bit_data c_len) ≡ c_len)
      × ((i : ℕ)
          → i < c_len
          → get_or (decode_bits bit_data c_len) i false
            ≡ test_bit (get_or bit_data (i / 8) 0) (i % 8))
unfolding decode_bits
decode_bits-test_bit bit_data c_len = (
  length-append (full_bytes_loop bit_data 0 full) rest ∙ omega (arith, len, len_rest),
  λ i h. elim (Bool-cases (ltb i (full * 8))) [
    | inl low ↦
        let lt = ltb→lt i (full * 8) low in
        get_or-append-left (full_bytes_loop bit_data 0 full) rest i (omega (arith, len))
        ∙ full_bytes_loop-bit bit_data 0 full i lt
        ∙ ap (λ j. test_bit (get_or bit_data j 0) (i % 8)) (omega arith)
    | inr high ↦
        let ge = ltb→le i (full * 8) high in
        let rem : i - length (full_bytes_loop bit_data 0 full) ≡ i % 8 = omega (arith, len) in
        let quot : c_len / 8 ≡ i / 8 = omega arith in
        get_or-append-right (full_bytes_loop bit_data 0 full) rest i (omega (arith, len))
        ∙ ap (λ j. get_or rest j false) rem
        ∙ remaining-bit (get_elem? bit_data full) (c_len % 8) (i % 8) (omega arith)
        ∙ ap (λ x. test_bit x (i % 8)) (byte_or-get_elem? bit_data full)
        ∙ ap (λ j. test_bit (get_or bit_data j 0) (i % 8)) quot
  ],
)
  where
    full : ℕ
    full = c_len / 8

    rest : List Bool
    rest = remaining (get_elem? bit_data full) (c_len % 8)

    len : length (full_bytes_loop bit_data 0 full) ≡ full * 8
    len = length-full_bytes_loop bit_data 0 full

    len_rest : length rest ≡ c_len % 8
    len_rest = length-remaining (get_elem? bit_data full) (c_len % 8)

-- The decoded bitmask has as many bits as there are instruction bytes, and each is the bit of the
-- data with that number, the lowest bit of each byte first; a byte that the data lacks counts as
-- 0.
pub decode_bits-bit :
    (bit_data : List ℕ) (c_len : ℕ)
    → (length (decode_bits bit_data c_len) ≡ c_len)
      × ((i : ℕ)
          → i < c_len
          → get_or (decode_bits bit_data c_len) i false
            ≡ (get_or bit_data (i / 8) 0 / 2 ^ (i % 8) % 2 == 1))
decode_bits-bit bit_data c_len =
    let (len, bits) = decode_bits-test_bit bit_data c_len in
    (len, λ i h. bits i h ∙ (unfold test_bit in refl))
