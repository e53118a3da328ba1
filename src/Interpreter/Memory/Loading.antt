-- ===== src/Interpreter/Memory/Loading.antt =====
-- memory.py: what `_bulk_load_sparse` stores, cell by cell, for the cells of `from_pc`.
use tsrkit_pvm.Prelude.{
  ℕ, zero, suc, ◌+◌, ◌/◌, ◌%◌, ◌<◌, Bool, List, [], ◌∷◌, ◌++◌, replicate, ◌≡◌, refl, sym, ap, ◌∙◌,
  arith, ◌==◌, leb, leb→gt, length-replicate, get_or, All, Exn, Ensures, Ensures-map, if-elim,
  if◌then◌else◌,
}
use tsrkit_pvm.Interpreter.Memory.{Memory, store_page, page_size}
use tsrkit_pvm.Interpreter.Memory.Coherent.{IsCoherent, AreBytes, store_page-IsCoherent}
use tsrkit_pvm.Interpreter.Memory.Flat.{byte}
use tsrkit_pvm.Interpreter.Memory.Flat.Writes.{store}
use tsrkit_pvm.Interpreter.Memory.Flat.Stored.{
  IsPaged, written, store-byte, store-IsPaged, written-store, written-nil,
}
use tsrkit_pvm.Interpreter.Memory.Init.{bulk_load_sparse, blank, place}

abbrev pub AreCells : List (ℕ × ℕ) → Type 0
AreCells = All (λ c. c.1 < 256)

-- No exception.
abbrev pub Never : Exn → Memory → Type 0
Never e m = ⊥

pub place-AreCells : (start : ℕ) (bytes : List ℕ) → AreBytes bytes → AreCells (place start bytes)
unfolding place
place-AreCells start [] h = tt
place-AreCells start (x ∷ xs) h = (h.0, place-AreCells (start + 1) xs h.1)

pub AreCells-append : (xs ys : List (ℕ × ℕ)) → AreCells xs → AreCells ys → AreCells (xs ++ ys)
AreCells-append [] ys h k = k
AreCells-append (x ∷ xs) ys h k = (h.0, AreCells-append xs ys h.1 k)

-- The byte at `j` once the cells are stored.
abbrev pub stored : List (ℕ × ℕ) → ℕ → ℕ → ℕ
stored [] j old = old
stored ((addr, val) ∷ cells) j old = stored cells j (if addr == j then val else old)

stored-append :
    (xs ys : List (ℕ × ℕ)) (j old : ℕ) → stored (xs ++ ys) j old ≡ stored ys j (stored xs j old)
stored-append [] ys j old = refl
stored-append ((a, v) ∷ xs) ys j old = stored-append xs ys j _

stored-place :
    (start : ℕ) (bytes : List ℕ) (j old : ℕ)
    → stored (place start bytes) j old ≡ written start bytes j old
unfolding place
stored-place start [] j old = sym (written-nil start j old)
stored-place start (x ∷ xs) j old =
    stored-place (start + 1) xs j (if start == j then x else old) ∙ written-store start x xs j old

pub stored-places :
    (a b c : ℕ) (rd wr args : List ℕ) (j : ℕ)
    → stored (place a rd ++ place b wr ++ place c args) j 0
      ≡ written c args j (written b wr j (written a rd j 0))
stored-places a b c rd wr args j =
    stored-append (place a rd ++ place b wr) (place c args) j 0
    ∙ stored-place c args j _
    ∙ ap (written c args j) (
        stored-append (place a rd) (place b wr) j 0
        ∙ stored-place b wr j _
        ∙ ap (written b wr j) (stored-place a rd j 0))

pub record IsLoaded (cells : List (ℕ × ℕ)) (m m' : Memory) : Type 0 where
  pub coherent : IsCoherent m'
  pub bytes : (j : ℕ) → byte m' j ≡ stored cells j (byte m j)
  pub reads : m'.r_pages ≡ m.r_pages
  pub writes : m'.w_pages ≡ m.w_pages
  pub heap : m'.heap_break ≡ m.heap_break

-- What `store-byte` and `store-IsPaged` say of the store that the loop makes.
stored_byte :
    (addr val j : ℕ) (m : Memory)
    → IsPaged m
    → byte (store_page (addr / page_size) (addr % page_size) (val ∷ []) m) j
      ≡ (if addr == j then val else byte m j)
stored_byte addr val j m p = unfold store in store-byte addr val j m p

stored-IsPaged :
    (addr val : ℕ) (m : Memory)
    → IsPaged m
    → IsPaged (store_page (addr / page_size) (addr % page_size) (val ∷ []) m)
stored-IsPaged addr val m p = unfold store in store-IsPaged addr val m p

pub bulk_load_sparse-IsLoaded :
    (cells : List (ℕ × ℕ)) (m : Memory)
    → AreCells cells
    → IsCoherent m
    → IsPaged m
    → Ensures (λ _ m'. IsLoaded cells m m') Never (bulk_load_sparse cells m)
unfolding bulk_load_sparse
bulk_load_sparse-IsLoaded [] m h c p =
    Ensures.returns
      (record { coherent = c; bytes = λ j. refl; reads = refl; writes = refl; heap = refl })
bulk_load_sparse-IsLoaded ((addr, val) ∷ cells) m h c p =
    if-elim (Ensures (λ _ m'. IsLoaded ((addr, val) ∷ cells) m m') Never) (leb val 255)
      (λ _.
        Ensures-map
          (λ _ m' l. record {
            coherent = l.coherent;
            bytes = λ j. l.bytes j ∙ ap (stored cells j) (stored_byte addr val j m p);
            reads = l.reads;
            writes = l.writes;
            heap = l.heap;
          })
          (λ _ _ e. e)
          (bulk_load_sparse-IsLoaded cells _ h.1
            (store_page-IsCoherent _ _ (val ∷ []) m (h.0, tt) c) (stored-IsPaged addr val m p)))
      (λ big. absurd (omega (arith, leb→gt val 255 big, h.0)))

get_or-replicate : (n i : ℕ) → get_or (replicate n zero) i zero ≡ zero
get_or-replicate zero i = refl
get_or-replicate (suc n) zero = refl
get_or-replicate (suc n) (suc i) = get_or-replicate n i

pub zero_byte : (r w : ℕ → Bool) (heap j : ℕ) → byte (blank r w heap) j ≡ 0
unfolding byte
zero_byte r w heap j = get_or-replicate page_size (j % page_size)

pub blank-IsCoherent : (r w : ℕ → Bool) (heap : ℕ) → IsCoherent (blank r w heap)
blank-IsCoherent r w heap = record { paged = λ pg bytes e. cc; hot = tt }

pub blank-IsPaged : (r w : ℕ → Bool) (heap : ℕ) → IsPaged (blank r w heap)
blank-IsPaged r w heap pg = length-replicate {A = ℕ} page_size 0
