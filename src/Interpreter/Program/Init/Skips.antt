-- ===== src/Interpreter/Program/Init/Skips.antt =====
-- program.py: the skip cache.
use tsrkit_pvm.Prelude.{
  ℕ, zero, suc, ◌+◌, ◌-◌, ◌≤◌, ◌<◌, min, Bool, true, false, List, [], ◌∷◌, ◌++◌, map, some, length,
  get_elem?, get_or, drop, replicate, range, ◌≡◌, refl, sym, ap, ◌∙◌, arith,
}
use tsrkit_pvm.Interpreter.Program.Init.{skip_loop, skip_value, skip_cache, extend_bitmask}

-- The first bit that is set has the index `n`.
abbrev pub IsFirst : List Bool → ℕ → Type 0
IsFirst bits n = (get_elem? bits n ≡ some true) × ((j : ℕ) → j < n → get_elem? bits j ≡ some false)

before :
    (bits : List Bool) (n j : ℕ)
    → j < suc n
    → IsFirst bits n
    → get_elem? (false ∷ bits) j ≡ some false
before bits n zero h f = refl
before bits n (suc j) h f = f.1 j (omega arith)

skip_loop-IsFirst :
    (default k left t : ℕ) (bits : List Bool)
    → t < left
    → get_elem? bits t ≡ some true
    → (n : ℕ) × (skip_loop default k left bits ≡ k + n) × (n ≤ t) × IsFirst bits n
unfolding skip_loop
skip_loop-IsFirst default k zero t bits h e = absurd (omega arith)
skip_loop-IsFirst default k (suc left) t [] h e = cc
skip_loop-IsFirst default k (suc left) t (true ∷ bits) h e =
    (0, omega arith, omega arith, (refl, λ j lt. absurd (omega arith)))
skip_loop-IsFirst default k (suc left) zero (false ∷ bits) h e = cc
skip_loop-IsFirst default k (suc left) (suc t) (false ∷ bits) h e =
    let (n, same, le, first) = skip_loop-IsFirst default (k + 1) left t bits (omega arith) e in
    (suc n, omega arith, omega arith, (first.0, λ j lt. before bits n j lt first))

get_elem?-drop : (xs : List Bool) (a i : ℕ) → get_elem? (drop a xs) i ≡ get_elem? xs (a + i)
get_elem?-drop xs zero i = ap (get_elem? xs) (omega arith)
get_elem?-drop [] (suc a) i = refl
get_elem?-drop (x ∷ xs) (suc a) i =
    let next : suc a + i ≡ suc (a + i) = omega arith in
    get_elem?-drop xs a i ∙ sym (ap (get_elem? (x ∷ xs)) next)

get_elem?-end : (xs ys : List Bool) (y : Bool) → get_elem? (xs ++ y ∷ ys) (length xs) ≡ some y
get_elem?-end [] ys y = refl
get_elem?-end (x ∷ xs) ys y = get_elem?-end xs ys y

ends :
    (bitmask : List Bool) (i : ℕ)
    → i < length bitmask
    → get_elem? (drop (i + 1) (extend_bitmask bitmask)) (length bitmask - i - 1) ≡ some true
unfolding extend_bitmask
ends bitmask i h =
    let last : i + 1 + (length bitmask - i - 1) ≡ length bitmask = omega arith in
    get_elem?-drop (bitmask ++ replicate 1000 true) (i + 1) (length bitmask - i - 1)
    ∙ ap (get_elem? (bitmask ++ replicate 1000 true)) last
    ∙ get_elem?-end bitmask (replicate 999 true) true

-- The next opcode after `i` stands at `i + 1 + k`, at most one past the end of the bitmask.
abbrev pub IsNext : List Bool → ℕ → ℕ → Type 0
IsNext bitmask i k =
    (i + 1 + k ≤ length bitmask)
    × (get_elem? (extend_bitmask bitmask) (i + 1 + k) ≡ some true)
    × ((j : ℕ) → j < k → get_elem? (extend_bitmask bitmask) (i + 1 + j) ≡ some false)

-- The bitmask is followed by set bits, so that there is always a next opcode, and it is found.
pub skip_value-IsNext :
    (bitmask : List Bool) (i : ℕ) → i < length bitmask → IsNext bitmask i (skip_value bitmask i)
unfolding skip_value
skip_value-IsNext bitmask i h =
    let rest = drop (i + 1) (extend_bitmask bitmask) in
    let (n, same, le, first) =
      skip_loop-IsFirst (length bitmask) 0 (length bitmask - i) (length bitmask - i - 1) rest
        (omega arith) (ends bitmask i h) in
    let found : skip_loop (length bitmask) 0 (length bitmask - i) rest ≡ n = omega arith in
    rw found (
      omega arith,
      sym (get_elem?-drop (extend_bitmask bitmask) (i + 1) n) ∙ first.0,
      λ j lt. sym (get_elem?-drop (extend_bitmask bitmask) (i + 1) j) ∙ first.1 j lt,
    )

get_or-map-range : (f : ℕ → ℕ) (k n i : ℕ) → i < n → get_or (map f (range k n)) i 0 ≡ f (k + i)
get_or-map-range f k zero i h = absurd (omega arith)
get_or-map-range f k (suc n) zero h = ap f (omega arith)
get_or-map-range f k (suc n) (suc i) h =
    get_or-map-range f (k + 1) n i (omega arith) ∙ ap f (omega arith)

-- The skip cache has, for each position of the bitmask, the number of positions up to the next
-- opcode or 24 if that is more; the next opcode is the first set bit after the position, and the
-- first position after the bitmask counts as one.
pub skip_cache-IsNext :
    (bitmask : List Bool) (i : ℕ)
    → i < length bitmask
    → (k : ℕ) × IsNext bitmask i k × (get_or (skip_cache bitmask) i 0 ≡ min 24 k)
unfolding skip_cache
skip_cache-IsNext bitmask i h = (
  skip_value bitmask i,
  skip_value-IsNext bitmask i h,
  get_or-map-range (λ j. min 24 (skip_value bitmask j)) 0 (length bitmask) i h
      ∙ ap (λ j. min 24 (skip_value bitmask j)) (omega arith),
)
