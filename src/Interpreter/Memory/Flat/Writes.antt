-- ===== src/Interpreter/Memory/Flat/Writes.antt =====
-- memory.py: `write` against the flat array.
use tsrkit_pvm.Prelude.{
  fun_ext, ℕ, zero, suc, ◌+◌, ◌-◌, ◌*◌, ◌/◌, ◌%◌, ◌≤◌, min, Bool, true, false, List, [], ◌∷◌, ◌++◌,
  Option, some, ◌≡◌, refl, sym, ap, ◌∙◌, arith, if◌then◌else◌, if-elim, length, take, drop, splice,
  length-drop, length-take, Outcome, page_fault, ltb, ◌==◌, ==_refl, M, ltb→le,
}
use mathlib.Core.List.{append-nil}
use tsrkit_pvm.Interpreter.Memory.{
  Memory, page_size, page_or_zero, can_write, update, store_page, write_multipage,
}

-- A byte stored at an address.
unfoldable pub store : ℕ → ℕ → Memory → Memory
unfolding store_page
store address x m = store_page (address / page_size) (address % page_size) (x ∷ []) m

-- Bytes stored from an address on, one by one, up to a page fault at the first that may not be
-- written.
unfoldable pub write_flat : ℕ → List ℕ → M Memory (Unit {0})
unfolding can_write store
write_flat address [] m = Outcome.done tt m
write_flat address (x ∷ xs) m =
    let rest = write_flat (address + 1) xs (store address x m) in
    if can_write m (address / page_size) then rest else Outcome.raised (page_fault address) m

if-same :
    {A : Type 0} (test : Bool) (x y z : A)
    → (if test then x else if test then y else z) ≡ (if test then x else z)
if-same true x y z = refl
if-same false x y z = refl

update-update :
    (f : ℕ → Option (List ℕ)) (i : ℕ) (a b : Option (List ℕ))
    → update (update f i a) i b ≡ update f i b
update-update f i a b = fun_ext λ j. if-same (i == j) b a (f j)

update-at : (f : ℕ → Option (List ℕ)) (i : ℕ) (a : Option (List ℕ)) → update f i a i ≡ a
update-at f i a = rw (==_refl i) refl

splice-cons :
    (xs : List ℕ) (i y : ℕ) (ys : List ℕ)
    → splice xs i (y ∷ ys) ≡ splice (splice xs i (y ∷ [])) (suc i) ys
splice-cons [] i y [] = refl
splice-cons [] i y (z ∷ ys) = refl
splice-cons (x ∷ xs) zero y [] = refl
splice-cons (x ∷ xs) zero y (z ∷ ys) = refl
splice-cons (x ∷ xs) (suc i) y [] = refl
splice-cons (x ∷ xs) (suc i) y (z ∷ ys) = ap (λ r. x ∷ r) (splice-cons xs i y (z ∷ ys))

store_page-cons :
    (pg off x : ℕ) (xs : List ℕ) (m : Memory)
    → store_page pg off (x ∷ xs) m ≡ store_page pg (suc off) xs (store_page pg off (x ∷ []) m)
unfolding store_page
store_page-cons pg off x xs m =
    let first = splice (page_or_zero (m.pages pg)) off (x ∷ []) in
    ap (λ (f : ℕ → Option (List ℕ)). record m { pages = f })
      (ap (λ r. update m.pages pg (some r)) (splice-cons (page_or_zero (m.pages pg)) off x xs)
        ∙ sym (update-update m.pages pg (some first) (some (splice first (suc off) xs)))
        ∙ ap
            (λ r.
              update (update m.pages pg (some first)) pg
                (some (splice (page_or_zero r) (suc off) xs)))
            (sym (update-at m.pages pg (some first))))

store_page-can_write :
    (pg off : ℕ) (bytes : List ℕ) (m : Memory) (j : ℕ)
    → can_write (store_page pg off bytes m) j ≡ can_write m j
unfolding store_page can_write
store_page-can_write pg off bytes m j = refl

-- The part of a write that lies in one page.
write_flat_page :
    (pg off address x : ℕ) (xs ys : List ℕ) (m : Memory)
    → can_write m pg ≡ true
    → off + length (x ∷ xs) ≤ page_size
    → address ≡ pg * page_size + off
    → write_flat address (x ∷ xs ++ ys) m
      ≡ write_flat (address + length (x ∷ xs)) ys (store_page pg off (x ∷ xs) m)
unfolding write_flat store
write_flat_page pg off address x [] ys m w fits e =
    let quot : address / page_size ≡ pg = omega arith in
    let rem : address % page_size ≡ off = omega arith in rw (quot, rem, w) refl
write_flat_page pg off address x (x' ∷ xs) ys m w fits e =
    let quot : address / page_size ≡ pg = omega arith in
    let rem : address % page_size ≡ off = omega arith in
    let first = store_page pg off (x ∷ []) m in
    let after : address + 1 + length (x' ∷ xs) ≡ address + length (x ∷ x' ∷ xs) = omega arith in
    rw (quot, rem, w)
      (write_flat_page pg (suc off) (address + 1) x' xs ys first
          (store_page-can_write pg off (x ∷ []) m pg ∙ w) (omega arith) (omega arith)
        ∙ ap (λ a. write_flat a ys (store_page pg (suc off) (x' ∷ xs) first)) after
        ∙ ap (write_flat (address + length (x ∷ x' ∷ xs)) ys)
            (sym (store_page-cons pg off x (x' ∷ xs) m)))

pub write_flat_fault :
    (address x : ℕ) (xs : List ℕ) (m : Memory)
    → can_write m (address / page_size) ≡ false
    → write_flat address (x ∷ xs) m ≡ Outcome.raised (page_fault address) m
unfolding write_flat
write_flat_fault address x xs m w = rw w refl

take-append-drop : (k : ℕ) (xs : List ℕ) → take k xs ++ drop k xs ≡ xs
take-append-drop zero xs = refl
take-append-drop (suc k) [] = refl
take-append-drop (suc k) (x ∷ xs) = ap (λ r. x ∷ r) (take-append-drop k xs)

-- A write of a first part that is not empty.
pub write_flat_chunk :
    (address k : ℕ) (bytes : List ℕ) (m : Memory)
    → can_write m (address / page_size) ≡ true
    → 1 ≤ k
    → k ≤ length bytes
    → address % page_size + k ≤ page_size
    → write_flat address bytes m
      ≡ write_flat
          (address + k)
          (drop k bytes)
          (store_page (address / page_size) (address % page_size) (take k bytes) m)
write_flat_chunk address zero bytes m w one h fits = absurd (omega arith)
write_flat_chunk address (suc k) [] m w one h fits = absurd (omega arith)
write_flat_chunk address (suc k) (x ∷ xs) m w one h fits =
    let all : length (take k xs) ≡ k = omega (arith, length-take k xs) in
    ap (λ r. write_flat address (x ∷ r) m) (sym (take-append-drop k xs))
    ∙ write_flat_page (address / page_size) (address % page_size) address x (take k xs) (drop k xs)
        m w (omega arith) (omega arith)
    ∙ ap
        (λ n.
          write_flat (address + suc n) (drop k xs)
            (store_page (address / page_size) (address % page_size) (x ∷ take k xs) m))
        all

pub write_multipage-Flat :
    (fuel address : ℕ) (bytes : List ℕ) (m : Memory)
    → length bytes ≤ fuel
    → write_multipage fuel address bytes m ≡ write_flat address bytes m
unfolding write_multipage
write_multipage-Flat zero address [] m enough = unfold write_flat in refl
write_multipage-Flat zero address (x ∷ xs) m enough = absurd (omega arith)
write_multipage-Flat (suc fuel) address [] m enough = unfold write_flat in refl
write_multipage-Flat (suc fuel) address (x ∷ xs) m enough =
    let bytes = x ∷ xs in
    let off = address % page_size in
    let chunk = min (page_size - off) (length bytes) in
    if-elim (λ o. o ≡ write_flat address bytes m) (ltb 0 (length bytes))
      (λ _.
        if-elim (λ o. o ≡ write_flat address bytes m) (can_write m (address / page_size))
          (λ w.
            write_multipage-Flat fuel (address + chunk) (drop chunk bytes) _
              (omega (arith, length-drop chunk bytes))
            ∙ sym (
                write_flat_chunk address chunk bytes m w (omega arith) (omega arith) (omega arith)))
          (λ w. sym (write_flat_fault address x xs m w)))
      (λ stop. absurd (omega (arith, ltb→le 0 (length bytes) stop)))

-- A write that lies in one page.
pub write_flat_within :
    (address : ℕ) (bytes : List ℕ) (m : Memory)
    → can_write m (address / page_size) ≡ true
    → 1 ≤ length bytes
    → address % page_size + length bytes ≤ page_size
    → write_flat address bytes m
      ≡ Outcome.done tt (store_page (address / page_size) (address % page_size) bytes m)
write_flat_within address [] m w one fits = absurd (omega arith)
write_flat_within address (x ∷ xs) m w one fits =
    ap (λ r. write_flat address (x ∷ r) m) (sym (append-nil xs))
    ∙ write_flat_page (address / page_size) (address % page_size) address x xs [] m w fits
        (omega arith)
    ∙ (unfold write_flat in refl)
