-- ===== src/Interpreter/Memory/Flat/Stored.antt =====
-- memory.py: the bytes that a write leaves behind.
use tsrkit_pvm.Prelude.{
  Bool-cases, inl, inr, ℕ, zero, suc, ◌+◌, ◌/◌, ◌%◌, ◌<◌, false, List, [], ◌∷◌, Option, ◌≡◌, refl,
  sym, ap, ◌∙◌, arith, if◌then◌else◌, if-elim, length, get_or, splice, length-splice, Outcome, Exn,
  ◌==◌, ==_iff, Ensures, Ensures-map, Ensures-done,
}
use mathlib.Core.Path.{subst}
use tsrkit_pvm.Interpreter.Memory.{
  Memory, addr_mod, page_size, page_or_zero, can_read, readable, can_write, store_page, write, cool,
}
use tsrkit_pvm.Interpreter.Memory.Coherent.{IsCoherent, page_or_zero-IsPage}
use tsrkit_pvm.Interpreter.Memory.Flat.{byte, settled}
use tsrkit_pvm.Interpreter.Memory.Flat.Writes.{write_flat, store}
use tsrkit_pvm.Interpreter.Memory.Flat.WriteThrough.{write-Flat}

-- The byte at `j` once `bytes` are stored from `address` on, if it was `old` before.
unfoldable pub written : ℕ → List ℕ → ℕ → ℕ → ℕ
written address [] j old = old
written address (x ∷ xs) j old =
    let rest = written (address + 1) xs j old in if address == j then x else rest

abbrev pub IsPaged : Memory → Type 0
IsPaged m = (pg : ℕ) → length (page_or_zero (m.pages pg)) ≡ page_size

ne→false : (a b : ℕ) → a < b → (a == b) ≡ false
ne→false a b h = ground arith

get_or-splice :
    (xs : List ℕ) (i y k : ℕ)
    → i < length xs
    → get_or (splice xs i (y ∷ [])) k 0 ≡ (if i == k then y else get_or xs k 0)
get_or-splice [] i y k h = absurd (omega arith)
get_or-splice (x ∷ xs) zero y zero h = refl
get_or-splice (x ∷ xs) zero y (suc k) h = rw (ne→false 0 (suc k) (omega arith)) refl
get_or-splice (x ∷ xs) (suc i) y zero h =
    let other : (suc i == 0) ≡ false = ground arith in rw other refl
get_or-splice (x ∷ xs) (suc i) y (suc k) h =
    let step : (suc i == suc k) ≡ (i == k) = ground arith in
    rw step (get_or-splice xs i y k (omega arith))

-- The offset decides on the addresses of one page.
same_page : (a j : ℕ) → a / page_size ≡ j / page_size → (a % page_size == j % page_size) ≡ (a == j)
same_page a j e = ground arith

other_page : (a j : ℕ) → (a / page_size == j / page_size) ≡ false → (a == j) ≡ false
other_page a j e = ground arith

pub store-byte :
    (address x j : ℕ) (m : Memory)
    → IsPaged m
    → byte (store address x m) j ≡ (if address == j then x else byte m j)
unfolding byte store store_page
store-byte address x j m paged = elim (Bool-cases (address / page_size == j / page_size)) [
  | inr other ↦ rw (other, other_page address j other) refl
  | inl same ↦
      let e : address / page_size ≡ j / page_size = (==_iff _ _).0 same in
      let inside : address % page_size < length (page_or_zero (m.pages (address / page_size))) =
        omega (arith, paged (address / page_size)) in
      rw same (
        get_or-splice (page_or_zero (m.pages (address / page_size))) (address % page_size) x
          (j % page_size) inside
        ∙ rw (same_page address j e, e) refl)
]

pub store-IsPaged : (address x : ℕ) (m : Memory) → IsPaged m → IsPaged (store address x m)
unfolding store store_page
store-IsPaged address x m paged pg =
    if-elim (λ (o : Option (List ℕ)). length (page_or_zero o) ≡ page_size)
      (address / page_size == pg)
      (λ _.
        length-splice (page_or_zero (m.pages (address / page_size))) (address % page_size) (x ∷ [])
        ∙ paged (address / page_size))
      (λ _. paged pg)

written-before :
    (address : ℕ) (xs : List ℕ) (j old : ℕ) → j < address → written address xs j old ≡ old
unfolding written
written-before address [] j old h = refl
written-before address (x ∷ xs) j old h =
    let other : (address == j) ≡ false = ground arith in
    rw other (written-before (address + 1) xs j old (omega arith))

pub written-nil : (address j old : ℕ) → written address [] j old ≡ old
unfolding written
written-nil address j old = refl

-- Storing the first byte, and then the others.
pub written-store :
    (address x : ℕ) (xs : List ℕ) (j old : ℕ)
    → written (address + 1) xs j (if address == j then x else old) ≡ written address (x ∷ xs) j old
unfolding written
written-store address x xs j old = elim (Bool-cases (address == j)) [
  | inr other ↦ rw other refl
  | inl here ↦
      rw here (written-before (address + 1) xs j x (omega (arith, (==_iff address j).0 here)))
]

-- The bytes of `m'` are those of `m` with `bytes` stored from `address` on, and its rights are
-- those of `m`.
abbrev pub IsWritten : ℕ → List ℕ → Memory → Memory → Type 0
IsWritten address bytes m m' =
    ((j : ℕ) → byte m' j ≡ written address bytes j (byte m j))
    × ((pg : ℕ) → can_read m' pg ≡ can_read m pg)

abbrev pub Anything : Exn → Memory → Type 0
Anything e m = Unit

store-can_read :
    (address x : ℕ) (m : Memory) (pg : ℕ) → can_read (store address x m) pg ≡ can_read m pg
unfolding store store_page can_read readable
store-can_read address x m pg = refl

pub write_flat-IsWritten :
    (address : ℕ) (bytes : List ℕ) (m : Memory)
    → IsPaged m
    → Ensures (λ _ m'. IsWritten address bytes m m') Anything (write_flat address bytes m)
unfolding write_flat
write_flat-IsWritten address [] m paged =
    Ensures.returns (λ j. sym (written-nil address j (byte m j)), λ pg. refl)
write_flat-IsWritten address (x ∷ xs) m paged =
    if-elim (Ensures (λ _ m'. IsWritten address (x ∷ xs) m m') Anything)
      (can_write m (address / page_size))
      (λ _.
        Ensures-map
          (λ _ m' h. (
            λ j.
                h.0 j
                ∙ ap (written (address + 1) xs j) (store-byte address x j m paged)
                ∙ written-store address x xs j (byte m j),
            λ pg. h.1 pg ∙ store-can_read address x m pg,
          ))
          (λ _ _ h. h)
          (write_flat-IsWritten (address + 1) xs (store address x m)
            (store-IsPaged address x m paged)))
      (λ _. Ensures.raises tt)

-- What holds of the bytes and of the rights holds with any cache.
module _ (address : ℕ) (bytes : List ℕ) (m : Memory) where
  abbrev Writes : Outcome Memory (Unit {0}) → Type 0
  Writes = Ensures (λ _ m'. IsWritten address bytes m m') Anything

  IsWritten-cool :
      (m' : Memory) → IsWritten address bytes m m' → IsWritten address bytes m (cool m')
  unfolding byte can_read readable
  IsWritten-cool m' h = h

  IsWritten-warm :
      (m' : Memory) → IsWritten address bytes m (cool m') → IsWritten address bytes m m'
  unfolding byte can_read readable
  IsWritten-warm m' h = h

  to_settled : (o : Outcome Memory (Unit {0})) → Writes o → Writes (settled o)
  to_settled (Outcome.done tt m') h = Ensures.returns (IsWritten-cool m' (Ensures-done h refl))
  to_settled (Outcome.raised e m') h = Ensures.raises tt

  from_settled : (o : Outcome Memory (Unit {0})) → Writes (settled o) → Writes o
  from_settled (Outcome.done tt m') h = Ensures.returns (IsWritten-warm m' (Ensures-done h refl))
  from_settled (Outcome.raised e m') h = Ensures.raises tt

-- If a write to a coherent memory returns, the bytes from the address modulo 2^32 on are those
-- written, every other byte is as it was, and so is the right to read each page.
pub write-IsWritten :
    (address : ℕ) (bytes : List ℕ) (m : Memory)
    → IsCoherent m
    → Ensures (λ _ m'. IsWritten (address % addr_mod) bytes m m') Anything (write address bytes m)
write-IsWritten address bytes m c =
    let at = address % addr_mod in
    from_settled at bytes m (write address bytes m) (
      subst (Writes at bytes m) (sym (write-Flat address bytes m c)) (
        to_settled at bytes m (write_flat at bytes m) (
          write_flat-IsWritten at bytes m
            (λ pg. (page_or_zero-IsPage (m.pages pg) (c.paged pg)).0))))
