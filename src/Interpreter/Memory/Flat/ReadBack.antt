-- ===== src/Interpreter/Memory/Flat/ReadBack.antt =====
-- memory.py: reads after writes.
use tsrkit_pvm.Prelude.{
  ℕ, zero, suc, ◌+◌, ◌/◌, ◌%◌, true, List, [], ◌∷◌, ◌≡◌, refl, sym, ap, ◌∙◌, length, Outcome, Exn,
  ==_refl, Ensures-done, Bool-cases, inl, inr,
}
use tsrkit_pvm.Interpreter.Memory.{
  Memory, addr_mod, page_size, can_read, readable, can_write, write, read, cool,
}
use tsrkit_pvm.Interpreter.Memory.Coherent.{
  IsCoherent, AreBytes, page_or_zero-IsPage, can_write→can_read,
}
use tsrkit_pvm.Interpreter.Memory.Keeps.{write-Writes}
use tsrkit_pvm.Interpreter.Memory.Flat.{Answer, answer, byte, read_flat, settled}
use tsrkit_pvm.Interpreter.Memory.Flat.Reads.{read-Flat}
use tsrkit_pvm.Interpreter.Memory.Flat.Writes.{write_flat, write_flat_fault, store}
use tsrkit_pvm.Interpreter.Memory.Flat.WriteThrough.{write-Flat}
use tsrkit_pvm.Interpreter.Memory.Flat.Stored.{
  written, IsPaged, store-IsPaged, write_flat-IsWritten,
}

written-here : (address x : ℕ) (xs : List ℕ) (old : ℕ) → written address (x ∷ xs) address old ≡ x
unfolding written
written-here address x xs old = rw (==_refl address) refl

never :
    (e : Exn) (m m' : Memory) (o : Outcome Memory (Unit {0}))
    → o ≡ Outcome.raised e m
    → o ≡ Outcome.done tt m'
    → ⊥
never e m m' o raised done = cc

write_flat-done :
    (address x : ℕ) (xs : List ℕ) (m m' : Memory)
    → can_write m (address / page_size) ≡ true
    → write_flat address (x ∷ xs) m ≡ Outcome.done tt m'
    → write_flat (address + 1) xs (store address x m) ≡ Outcome.done tt m'
unfolding write_flat
write_flat-done address x xs m m' w e = rw w at e

read_flat-cons :
    (m : Memory) (n address x : ℕ) (xs : List ℕ)
    → can_read m (address / page_size) ≡ true
    → byte m address ≡ x
    → read_flat m n (address + 1) ≡ Answer.ok xs
    → read_flat m (suc n) address ≡ Answer.ok (x ∷ xs)
unfolding read_flat
read_flat-cons m n address x xs r b e = rw (r, b, e) refl

write_flat-read_flat :
    (address : ℕ) (bytes : List ℕ) (m m' : Memory)
    → IsPaged m
    → write_flat address bytes m ≡ Outcome.done tt m'
    → read_flat m' (length bytes) address ≡ Answer.ok bytes
write_flat-read_flat address [] m m' paged e = unfold read_flat in refl
write_flat-read_flat address (x ∷ xs) m m' paged e =
    let w = Ensures-done (write_flat-IsWritten address (x ∷ xs) m paged) e in
    elim (Bool-cases (can_write m (address / page_size))) [
      | inr f ↦
          absurd
            (never _ m m' (write_flat address (x ∷ xs) m) (write_flat_fault address x xs m f) e)
      | inl t ↦
          read_flat-cons m' (length xs) address x xs
            (w.1 (address / page_size) ∙ can_write→can_read m (address / page_size) t)
            (w.0 address ∙ written-here address x xs (byte m address))
            (write_flat-read_flat (address + 1) xs (store address x m) m'
              (store-IsPaged address x m paged) (write_flat-done address x xs m m' t e))
    ]

read_flat-cool : (m : Memory) (n address : ℕ) → read_flat (cool m) n address ≡ read_flat m n address
unfolding read_flat byte can_read readable
read_flat-cool m zero address = refl
read_flat-cool m (suc n) address = rw (read_flat-cool m n (address + 1)) refl

settled-done :
    (m' : Memory) (o : Outcome Memory (Unit {0}))
    → Outcome.done tt (cool m') ≡ settled o
    → (m'' : Memory) × (o ≡ Outcome.done tt m'') × (cool m' ≡ cool m'')
settled-done m' (Outcome.done tt m'') e = (m'', refl, cc)
settled-done m' (Outcome.raised x m'') e = cc

-- If a write of bytes to a coherent memory returns, a read of as many bytes at the same address
-- gives these bytes.
pub write-read :
    (address : ℕ) (bytes : List ℕ) (m m' : Memory)
    → IsCoherent m
    → AreBytes bytes
    → write address bytes m ≡ Outcome.done tt m'
    → answer (read address (length bytes) m') ≡ Answer.ok bytes
write-read address bytes m m' c b e =
    let at = address % addr_mod in
    let n = length bytes in
    let c' : IsCoherent m' = Ensures-done (write-Writes address bytes m b c) e in
    let (m'', done, same) =
      settled-done m' (write_flat at bytes m) (ap settled (sym e) ∙ write-Flat address bytes m c) in
    read-Flat address n m' c'
    ∙ sym (read_flat-cool m' n at)
    ∙ ap (λ s. read_flat s n at) same
    ∙ read_flat-cool m'' n at
    ∙ write_flat-read_flat at bytes m m'' (λ pg. (page_or_zero-IsPage (m.pages pg) (c.paged pg)).0)
        done
