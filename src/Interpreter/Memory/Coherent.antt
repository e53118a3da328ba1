-- ===== src/Interpreter/Memory/Coherent.antt =====
-- memory.py: the invariant of the pages and of the hot page cache.
use tsrkit_pvm.Prelude.{
  ◌∙◌, ℕ, zero, suc, ◌<◌, Bool, true, false, List, [], ◌∷◌, ◌++◌, Option, none, some, ◌≡◌, refl,
  arith, ◌==◌, if◌then◌else◌, length, All, take, drop, splice, slice, replicate, length-splice,
  length-replicate,
}
use mathlib.Core.Path.{subst}
use mathlib.Core.Option.{some-injective}
use tsrkit_pvm.Interpreter.Memory.{
  Memory, page_size, page_or_zero, readable, can_read, can_write, store_page,
}

abbrev pub AreBytes : List ℕ → Type 0
AreBytes = All (λ x. x < 256)

-- A page's bytearray.
abbrev pub IsPage : List ℕ → Type 0
IsPage xs = (length xs ≡ page_size) × AreBytes xs

-- The cached page is there, may be read, and may be written if the cache says so.
abbrev pub HotIsValid : Memory → Option ℕ → Type 0
HotIsValid m none = Unit
HotIsValid m (some n) =
    (m.hot_page_data ≡ some n)
    × (can_read m n ≡ true)
    × (m.hot_page_writable ≡ true → m.w_pages n ≡ true)

pub record IsCoherent (m : Memory) : Type 0 where
  pub paged : (pg : ℕ) (bytes : List ℕ) → m.pages pg ≡ some bytes → IsPage bytes
  pub hot : HotIsValid m m.hot_page_num

pub AreBytes-replicate : (n : ℕ) → AreBytes (replicate n 0)
AreBytes-replicate zero = tt
AreBytes-replicate (suc n) = (omega arith, AreBytes-replicate n)

pub AreBytes-append : (xs ys : List ℕ) → AreBytes xs → AreBytes ys → AreBytes (xs ++ ys)
AreBytes-append [] ys h k = k
AreBytes-append (x ∷ xs) ys h k = (h.0, AreBytes-append xs ys h.1 k)

pub AreBytes-take : (n : ℕ) (xs : List ℕ) → AreBytes xs → AreBytes (take n xs)
AreBytes-take zero xs h = tt
AreBytes-take (suc n) [] h = tt
AreBytes-take (suc n) (x ∷ xs) h = (h.0, AreBytes-take n xs h.1)

pub AreBytes-drop : (n : ℕ) (xs : List ℕ) → AreBytes xs → AreBytes (drop n xs)
AreBytes-drop zero xs h = h
AreBytes-drop (suc n) [] h = tt
AreBytes-drop (suc n) (x ∷ xs) h = AreBytes-drop n xs h.1

pub AreBytes-splice :
    (xs : List ℕ) (i : ℕ) (ys : List ℕ) → AreBytes xs → AreBytes ys → AreBytes (splice xs i ys)
AreBytes-splice xs i [] h k = h
AreBytes-splice [] i (y ∷ ys) h k = tt
AreBytes-splice (x ∷ xs) zero (y ∷ ys) h k = (k.0, AreBytes-splice xs zero ys h.1 k.1)
AreBytes-splice (x ∷ xs) (suc i) (y ∷ ys) h k = (h.0, AreBytes-splice xs i (y ∷ ys) h.1 k)

pub page_or_zero-IsPage :
    (o : Option (List ℕ))
    → ((bytes : List ℕ) → o ≡ some bytes → IsPage bytes)
    → IsPage (page_or_zero o)
page_or_zero-IsPage none h = (length-replicate {A = ℕ} page_size 0, AreBytes-replicate page_size)
page_or_zero-IsPage (some bytes) h = h bytes refl

pub slice-AreBytes : (xs : List ℕ) (i n : ℕ) → AreBytes xs → AreBytes (slice xs i n)
slice-AreBytes xs i n h = AreBytes-take n (drop i xs) (AreBytes-drop i xs h)

IsPage-update :
    (pages : ℕ → Option (List ℕ)) (pg : ℕ) (new : List ℕ) (j : ℕ) (fits : Bool) {xs : List ℕ}
    → IsPage new
    → ((bytes : List ℕ) → pages j ≡ some bytes → IsPage bytes)
    → (if fits then some new else pages j) ≡ some xs
    → IsPage xs
IsPage-update pages pg new j true h old e = subst IsPage (some-injective _ _ e) h
IsPage-update pages pg new j false h old e = old _ e

HotIsValid-store :
    (pg off : ℕ) (bytes : List ℕ) (m : Memory) (h : Option ℕ)
    → HotIsValid m h
    → HotIsValid (store_page pg off bytes m) h
unfolding store_page can_read
HotIsValid-store pg off bytes m none v = tt
HotIsValid-store pg off bytes m (some n) v = v

pub store_page-IsCoherent :
    (pg off : ℕ) (bytes : List ℕ) (m : Memory)
    → AreBytes bytes
    → IsCoherent m
    → IsCoherent (store_page pg off bytes m)
store_page-IsCoherent pg off bytes m b c = record {
  paged = λ j xs e.
      unfold store_page in
      IsPage-update m.pages pg _ j (pg == j)
        (stored _ (page_or_zero-IsPage (m.pages pg) (c.paged pg))) (c.paged j) e;
  hot = unfold store_page in HotIsValid-store pg off bytes m m.hot_page_num c.hot;
}
  where
    stored : (old : List ℕ) → IsPage old → IsPage (splice old off bytes)
    stored old h = (length-splice old off bytes ∙ h.0, AreBytes-splice old off bytes h.1 b)

-- The cache after a page was read or written.
pub warm-IsCoherent :
    (pg : ℕ) (w : Bool) (m : Memory)
    → can_read m pg ≡ true
    → (w ≡ true → m.w_pages pg ≡ true)
    → IsCoherent m
    → IsCoherent
        (record m { hot_page_num = some pg; hot_page_data = some pg; hot_page_writable = w })
unfolding can_read
warm-IsCoherent pg w m r h c = record { paged = c.paged; hot = (refl, r, h) }

pub can_write→can_read : (m : Memory) (pg : ℕ) → can_write m pg ≡ true → can_read m pg ≡ true
unfolding can_read can_write readable
can_write→can_read m pg h = ground arith

pub can_write→w_pages : (m : Memory) (pg : ℕ) → can_write m pg ≡ true → m.w_pages pg ≡ true
unfolding can_write
can_write→w_pages m pg h = ground arith
