-- ===== src/Interpreter/Memory/Flat.antt =====
-- memory.py: the memory as a flat array of bytes with rights, and reads from it byte by byte.
pub mod Reads
pub mod Rest
pub mod Writes
pub mod WriteThrough
pub mod Stored
pub mod ReadBack
use tsrkit_pvm.Prelude.{
  state_of, ℕ, zero, suc, ◌+◌, ◌-◌, ◌*◌, ◌/◌, ◌%◌, ◌≤◌, ◌<◌, min, Bool, true, false, List, [], ◌∷◌,
  ◌++◌, Option, none, some, ◌≡◌, refl, sym, ap, ◌∙◌, arith, if◌then◌else◌, length, get_or, take,
  drop, slice, Outcome, Exn, page_fault, replicate,
}
use mathlib.Core.List.{append_assoc, append-nil}
use tsrkit_pvm.Interpreter.Memory.{Memory, page_size, page_or_zero, can_read, cool}

-- What a caller sees of an operation, its effect on the memory left aside.
pub data Answer (A : Type 0) : Type 0 where
  ok : A → Answer A
  fault : Exn → Answer A

abbrev pub answer : {A : Type 0} → Outcome Memory A → Answer A
answer (Outcome.done a m) = Answer.ok a
answer (Outcome.raised e m) = Answer.fault e

-- What an operation leaves behind, the cache left aside.
abbrev pub left : {A : Type 0} → Outcome Memory A → Memory
left o = cool (state_of o)

abbrev pub settled : {A : Type 0} → Outcome Memory A → Outcome Memory A
settled (Outcome.done a m) = Outcome.done a (cool m)
settled (Outcome.raised e m) = Outcome.raised e (cool m)

abbrev pub extend : List ℕ → Answer (List ℕ) → Answer (List ℕ)
extend xs (Answer.ok ys) = Answer.ok (xs ++ ys)
extend xs (Answer.fault e) = Answer.fault e

-- The byte at an address; a page that was never written is all zeros.
unfoldable pub byte : Memory → ℕ → ℕ
byte m address = get_or (page_or_zero (m.pages (address / page_size))) (address % page_size) 0

-- `n` bytes from an address on, or a page fault at the first of them that may not be read.
unfoldable pub read_flat : Memory → ℕ → ℕ → Answer (List ℕ)
read_flat m zero address = Answer.ok []
read_flat m (suc n) address =
    if can_read m (address / page_size)
    then extend (byte m address ∷ []) (read_flat m n (address + 1))
    else Answer.fault (page_fault address)

extend-extend :
    (xs ys : List ℕ) (a : Answer (List ℕ)) → extend xs (extend ys a) ≡ extend (xs ++ ys) a
extend-extend xs ys (Answer.ok zs) = ap Answer.ok (sym (append_assoc xs ys zs))
extend-extend xs ys (Answer.fault e) = refl

extend-nil : (a : Answer (List ℕ)) → extend [] a ≡ a
extend-nil (Answer.ok zs) = refl
extend-nil (Answer.fault e) = refl

drop-eq-cons : (xs : List ℕ) (i : ℕ) → i < length xs → drop i xs ≡ get_or xs i 0 ∷ drop (suc i) xs
drop-eq-cons [] i h = absurd (omega arith)
drop-eq-cons (x ∷ xs) zero h = refl
drop-eq-cons (x ∷ xs) (suc i) h = drop-eq-cons xs i (omega arith)

slice-eq-cons :
    (xs : List ℕ) (i k : ℕ)
    → i < length xs
    → slice xs i (suc k) ≡ get_or xs i 0 ∷ slice xs (suc i) k
slice-eq-cons xs i k h = ap (take (suc k)) (drop-eq-cons xs i h)

-- The part of a read that lies in one page.
pub read_flat_page :
    (m : Memory) (k n t pg off address next : ℕ)
    → length (page_or_zero (m.pages pg)) ≡ page_size
    → can_read m pg ≡ true
    → off + k ≤ page_size
    → t ≡ k + n
    → address ≡ pg * page_size + off
    → next ≡ address + k
    → read_flat m t address ≡ extend (slice (page_or_zero (m.pages pg)) off k) (read_flat m n next)
unfolding read_flat byte
read_flat_page m zero n t pg off address next len r fits et ea en =
    let same : t ≡ n = omega arith in
    let stay : next ≡ address = omega arith in rw (same, stay, extend-nil) refl
read_flat_page m (suc k) n zero pg off address next len r fits et ea en = absurd (omega arith)
read_flat_page m (suc k) n (suc t) pg off address next len r fits et ea en =
    let quot : address / page_size ≡ pg = omega arith in
    let rem : address % page_size ≡ off = omega arith in
    let inside : off < length (page_or_zero (m.pages pg)) = omega arith in
    rw (quot, rem, r)
      (ap (extend (get_or (page_or_zero (m.pages pg)) off 0 ∷ [])) (
          read_flat_page m k n t pg (suc off) (address + 1) next len r (omega arith) (omega arith)
            (omega arith) (omega arith))
        ∙ extend-extend (get_or (page_or_zero (m.pages pg)) off 0 ∷ []) _ (read_flat m n next)
        ∙ sym (ap (λ bytes. extend bytes (read_flat m n next)) (slice-eq-cons _ off k inside)))

pub read_flat_fault :
    (m : Memory) (t address : ℕ)
    → can_read m (address / page_size) ≡ false
    → 1 ≤ t
    → read_flat m t address ≡ Answer.fault (page_fault address)
unfolding read_flat
read_flat_fault m zero address r h = absurd (omega arith)
read_flat_fault m (suc t) address r h = rw r refl

-- A read that lies in one page.
pub read_flat_within :
    (m : Memory) (len address : ℕ)
    → length (page_or_zero (m.pages (address / page_size))) ≡ page_size
    → can_read m (address / page_size) ≡ true
    → address % page_size + len ≤ page_size
    → read_flat m len address
      ≡ Answer.ok (slice (page_or_zero (m.pages (address / page_size))) (address % page_size) len)
read_flat_within m len address h r fits =
    read_flat_page m len 0 len (address / page_size) (address % page_size) address (address + len) h
      r fits (omega arith) (omega arith) refl
    ∙ (unfold read_flat in ap Answer.ok (append-nil _))
