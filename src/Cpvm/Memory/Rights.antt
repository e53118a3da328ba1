-- ===== src/Cpvm/Memory/Rights.antt =====
-- cy_memory.pyx: the bitsets as one right for each page.
use tsrkit_pvm.Prelude.{
  ℕ, zero, suc, ◌+◌, ◌-◌, ◌*◌, ◌/◌, ◌%◌, ◌^◌, ◌≤◌, ◌<◌, Bool, true, false, not, ◌&&◌, ◌||◌, ◌==◌,
  ltb, leb, if◌then◌else◌, ◌≡◌, refl, ap, ◌∙◌, arith, bit_or, bit_and, if-elim, lt→leb, ==_iff,
}
use native.Mathlib.Nat.{mod-eq_of_lt}
use tsrkit_pvm.Common.Constants.{Accessibility}
use tsrkit_pvm.Interpreter.Memory.{update, max_pages, same}
use tsrkit_pvm.Cpvm.Words.{uint32, bit_not}
use tsrkit_pvm.Cpvm.Words.Bits.{
  nth, nth-and, nth-or, nth-pow, nth-not, bit_and-pow, pow-lt, pow-pos,
}
use tsrkit_pvm.Cpvm.Memory.{
  CyMemory, test_bit, put_bit, has_access, set_access, set_access_range, alter_accessibility,
  num_pages,
}
use tsrkit_pvm.Cpvm.Utils.{page_count}

mask_bit : (n p : ℕ) → n < 2 → 0 < p → not (n * p == 0) ≡ (n == 1)
mask_bit zero p h k = ground arith
mask_bit (suc zero) p h k = ground arith
mask_bit (suc (suc n)) p h k = absurd (omega arith)

test_bit-nth : (w i : ℕ) → test_bit w i ≡ (nth w i == 1)
unfolding test_bit
test_bit-nth w i = rw (bit_and-pow i w) (mask_bit (nth w i) (2 ^ i) (omega arith) (pow-pos i))

test_bit-or : (v w i : ℕ) → test_bit (bit_or v w) i ≡ (test_bit v i || test_bit w i)
test_bit-or v w i =
    rw (test_bit-nth (bit_or v w) i, test_bit-nth v i, test_bit-nth w i, nth-or i v w)
      (ground arith)

test_bit-put_bit :
    (w j i : ℕ) (v : Bool)
    → j < 64
    → i < 64
    → test_bit (put_bit w j v) i ≡ (if j == i then v else test_bit w i)
unfolding put_bit bit_not
test_bit-put_bit w j i true h k =
    rw (test_bit-nth (bit_or w (2 ^ j)) i, test_bit-nth w i, nth-or i w (2 ^ j), nth-pow j i)
      (ground arith)
test_bit-put_bit w j i false h k =
    rw
      (
        test_bit-nth (bit_and w (2 ^ 64 - 1 - 2 ^ j)) i,
        test_bit-nth w i,
        nth-and i w (2 ^ 64 - 1 - 2 ^ j),
        nth-not 64 i (2 ^ j) k (pow-lt j 64 h),
        nth-pow j i,
      )
      (ground arith)

-- The right to write a page, or the one to read it that is not implied by it.
abbrev pub mode_of : Bool → Accessibility
mode_of true = Accessibility.write
mode_of false = Accessibility.read

abbrev pub right : Bool → CyMemory → ℕ → Bool
right true m j = test_bit (m.w_bitset (j / 64)) (j % 64)
right false m j = test_bit (m.r_bitset (j / 64)) (j % 64)

put_word :
    (words : ℕ → ℕ) (pg j : ℕ) (v : Bool)
    → test_bit (update words (pg / 64) (put_bit (words (pg / 64)) (pg % 64) v) (j / 64)) (j % 64)
      ≡ (if pg == j then v else test_bit (words (j / 64)) (j % 64))
put_word words pg j v =
    if-elim (λ w. test_bit w (j % 64) ≡ (if pg == j then v else test_bit (words (j / 64)) (j % 64)))
      (pg / 64 == j / 64)
      (λ e.
        let word : pg / 64 ≡ j / 64 = (==_iff (pg / 64) (j / 64)).0 e in
        let place : (pg % 64 == j % 64) ≡ (pg == j) = ground arith in
        test_bit-put_bit (words (pg / 64)) (pg % 64) (j % 64) v (omega arith) (omega arith)
        ∙ rw (word, place) refl)
      (λ e. let apart : (pg == j) ≡ false = ground arith in rw apart refl)

set_access-right :
    (u w v : Bool) (pg j : ℕ) (m : CyMemory)
    → pg < max_pages
    → right u (set_access pg (mode_of w) v m) j ≡ (if same u w && pg == j then v else right u m j)
unfolding set_access
set_access-right true true v pg j m h = rw (lt→leb max_pages pg h) (put_word m.w_bitset pg j v)
set_access-right true false v pg j m h = rw (lt→leb max_pages pg h) refl
set_access-right false true v pg j m h = rw (lt→leb max_pages pg h) refl
set_access-right false false v pg j m h = rw (lt→leb max_pages pg h) (put_word m.r_bitset pg j v)

abbrev pub in_range : ℕ → ℕ → ℕ → Bool
in_range start count j = leb start j && ltb j (start + count)

pub set_access_range-right :
    (u w v : Bool) (start count j : ℕ) (m : CyMemory)
    → start + count ≤ max_pages
    → right u (set_access_range start count (mode_of w) v m) j
      ≡ (if same u w && in_range start count j then v else right u m j)
unfolding set_access_range
set_access_range-right u w v start zero j m h = ground arith
set_access_range-right u w v start (suc count) j m h =
    let here : uint32 start ≡ start = mod-eq_of_lt (omega arith) in
    let next : uint32 (start + 1) ≡ start + 1 = mod-eq_of_lt (omega arith) in
    rw (here, next)
      (set_access_range-right u w v (start + 1) count j (set_access start (mode_of w) v m)
          (omega arith)
        ∙ rw (set_access-right u w v start j m (omega arith)) (ground arith))

-- What `has_access` answers, below the last page.
pub has_access-right :
    (w : Bool) (m : CyMemory) (j : ℕ)
    → j < max_pages
    → has_access m j (mode_of w) ≡ (right true m j || (not w && right false m j))
unfolding has_access
has_access-right true m j h = rw (lt→leb max_pages j h) (ground arith)
has_access-right false m j h =
    rw (lt→leb max_pages j h, test_bit-or (m.r_bitset (j / 64)) (m.w_bitset (j / 64)) (j % 64))
      (ground arith)

-- Whether `len` bytes from `start` on touch page j, and whether an accessibility grants a right.
abbrev pub touches : ℕ → ℕ → ℕ → Bool
touches start len j = leb (start / 4096) j && leb j ((start + len - 1) / 4096)

abbrev pub grants : Accessibility → Bool → Bool
grants Accessibility.write w = true
grants Accessibility.read w = not w
grants Accessibility.null w = false

pub num_pages-eq :
    (start len : ℕ)
    → 1 ≤ len
    → start + len ≤ 2 ^ 32
    → num_pages start len ≡ (start + len - 1) / 4096 + 1 - start / 4096
unfolding num_pages page_count
num_pages-eq start len one top =
    let last : (start + len + 2 ^ 32 - 1) % 2 ^ 32 ≡ start + len - 1 = omega arith in
    rw last (omega arith)

two_ranges :
    (u w v v' : Bool) (start count j : ℕ) (m : CyMemory)
    → start + count ≤ max_pages
    → right u
        (set_access_range start count
          (mode_of (not w))
          v'
          (set_access_range start count (mode_of w) v m))
        j
      ≡ (if in_range start count j then (if same u w then v else v') else right u m j)
two_ranges u w v v' start count j m h =
    set_access_range-right u (not w) v' start count j _ h
    ∙ ap (λ r. if same u (not w) && in_range start count j then v' else r)
        (set_access_range-right u w v start count j m h)
    ∙ either u w (in_range start count j)
  where
    either :
        (u w inside : Bool)
        → (if same u (not w) && inside then v' else if same u w && inside then v else right u m j)
          ≡ (if inside then (if same u w then v else v') else right u m j)
    either true true true = refl
    either true true false = refl
    either true false true = refl
    either true false false = refl
    either false true true = refl
    either false true false = refl
    either false false true = refl
    either false false false = refl

-- The two bits of a page after `alter_accessibility`.
abbrev set_by : Accessibility → Bool → Bool
set_by Accessibility.write u = u
set_by Accessibility.read u = not u
set_by Accessibility.null u = false

module _ (start len j : ℕ) (m : CyMemory) (one : 1 ≤ len) (top : start + len ≤ 2 ^ 32) where
  inside : in_range (start / 4096) (num_pages start len) j ≡ touches start len j
  inside = rw (num_pages-eq start len one top) (ground arith)

  fits : start / 4096 + num_pages start len ≤ max_pages
  fits = rw (num_pages-eq start len one top) (omega arith)

  both :
      (u w v v' : Bool)
      → right u
          (set_access_range
            (start / 4096)
            (num_pages start len)
            (mode_of (not w))
            v'
            (set_access_range (start / 4096) (num_pages start len) (mode_of w) v m))
          j
        ≡ (if touches start len j then (if same u w then v else v') else right u m j)
  both u w v v' =
      two_ranges u w v v' (start / 4096) (num_pages start len) j m fits
      ∙ ap (λ r. if r then (if same u w then v else v') else right u m j) inside

  alter_accessibility-right :
      (access : Accessibility) (u : Bool)
      → right u (alter_accessibility start len access m) j
        ≡ (if touches start len j then set_by access u else right u m j)
  unfolding alter_accessibility
  alter_accessibility-right Accessibility.write true = both true true true false
  alter_accessibility-right Accessibility.write false = both false true true false
  alter_accessibility-right Accessibility.read true = both true false true false
  alter_accessibility-right Accessibility.read false = both false false true false
  alter_accessibility-right Accessibility.null true = both true false false false
  alter_accessibility-right Accessibility.null false = both false false false false

  -- After `alter_accessibility` of at least one byte that ends at or below 2^32, the right to
  -- write, or to read, a page of the address space is that which the mode grants if the range
  -- touches the page, and as it was if not.
  pub alter_accessibility-has_access :
      (access : Accessibility) (w : Bool)
      → j < max_pages
      → has_access (alter_accessibility start len access m) j (mode_of w)
        ≡ (if touches start len j then grants access w else has_access m j (mode_of w))
  alter_accessibility-has_access access w low =
      rw
        (
          has_access-right w (alter_accessibility start len access m) j low,
          has_access-right w m j low,
          alter_accessibility-right access true,
          alter_accessibility-right access false,
        )
        (granted access w (touches start len j))
    where
      granted :
          (access : Accessibility) (w t : Bool)
          → ((if t then set_by access true else right true m j)
              || (not w && (if t then set_by access false else right false m j)))
            ≡ (if t then grants access w else right true m j || (not w && right false m j))
      granted access w false = refl
      granted Accessibility.write w true = refl
      granted Accessibility.read true true = refl
      granted Accessibility.read false true = refl
      granted Accessibility.null true true = refl
      granted Accessibility.null false true = refl
