-- ===== src/Cpvm/Memory/Writes.antt =====
-- cy_memory.pyx: writes against the flat array of bytes; a write is checked before it begins.
use tsrkit_pvm.Prelude.{
  ℕ, zero, suc, ◌+◌, ◌-◌, ◌/◌, ◌%◌, ◌^◌, ◌≤◌, ◌<◌, min, Bool, true, false, List, [], ◌∷◌, ◌&&◌, ltb,
  ◌==◌, length, take, drop, Outcome, pvm_exit, ◌≡◌, refl, sym, ap, ◌∙◌, arith, Bool-cases, inl, inr,
  Ensures, Ensures-done, ltb→lt, ltb→le, length-drop, if-elim, length-take, length-splice, splice,
  overwrite, overwrite-splice,
}
use native.Mathlib.Nat.{mod-eq_of_lt}
use tsrkit_pvm.Common.Constants.{Accessibility}
use tsrkit_pvm.Interpreter.Memory
use tsrkit_pvm.Interpreter.Memory.{Memory, page_size, max_pages, page_or_zero, can_write}
use tsrkit_pvm.Interpreter.Memory.Flat.Writes.{write_flat, write_flat_chunk}
use tsrkit_pvm.Interpreter.Memory.Flat.Stored.{IsWritten, write_flat-IsWritten}
use tsrkit_pvm.Cpvm.Words.{uint32}
use tsrkit_pvm.Cpvm.Memory.{CyMemory, has_access, store_page, write_loop, write_at, write}
use tsrkit_pvm.Cpvm.Memory.Rights.{mode_of, has_access-right}
use tsrkit_pvm.Cpvm.Memory.Pages.{
  past_the_end, all_bytes, all_bytes-drop, check_access-bytes, inside,
}
use tsrkit_pvm.Cpvm.Memory.Flat.{as_memory, IsPaged}

as_memory-can_write :
    (m : CyMemory) (pg : ℕ) → can_write (as_memory m) pg ≡ has_access m pg Accessibility.write
unfolding as_memory can_write
as_memory-can_write m pg = elim (Bool-cases (ltb pg max_pages)) [
  | inl l ↦ rw (l, has_access-right true m pg (ltb→lt pg max_pages l)) (ground arith)
  | inr h ↦ rw (h, past_the_end m pg true (ltb→le pg max_pages h)) refl
]

-- Bytes that fit into the page.
fit_page :
    (pg off : ℕ) (bytes : List ℕ) (m : CyMemory)
    → IsPaged m
    → off + length bytes ≤ page_size
    → overwrite (page_or_zero (m.pages pg)) off bytes ≡ splice (page_or_zero (m.pages pg)) off bytes
fit_page pg off bytes m p h =
    overwrite-splice (page_or_zero (m.pages pg)) off bytes (omega (arith, p pg))

as_memory-store_page :
    (pg off : ℕ) (bytes : List ℕ) (m : CyMemory)
    → IsPaged m
    → off + length bytes ≤ page_size
    → as_memory (store_page pg off bytes m) ≡ Memory.store_page pg off bytes (as_memory m)
unfolding as_memory store_page Memory.store_page
as_memory-store_page pg off bytes m p h = rw (fit_page pg off bytes m p h) refl

store_page-IsPaged :
    (pg off : ℕ) (bytes : List ℕ) (m : CyMemory)
    → IsPaged m
    → off + length bytes ≤ page_size
    → IsPaged (store_page pg off bytes m)
unfolding store_page
store_page-IsPaged pg off bytes m p h j =
    if-elim (λ o. length (page_or_zero o) ≡ page_size) (pg == j)
      (λ _.
        ap length (fit_page pg off bytes m p h)
        ∙ length-splice (page_or_zero (m.pages pg)) off bytes
        ∙ p pg)
      (λ _. p j)

all_bytes-store_page :
    (n address pg off : ℕ) (bytes : List ℕ) (w : Bool) (m : CyMemory)
    → all_bytes (store_page pg off bytes m) w n address ≡ all_bytes m w n address
unfolding all_bytes store_page has_access
all_bytes-store_page zero address pg off bytes w m = refl
all_bytes-store_page (suc n) address pg off bytes w m =
    ap (λ r. has_access m (address / 4096) (mode_of w) && r)
      (all_bytes-store_page n (address + 1) pg off bytes w m)

all_bytes-first :
    (w : Bool) (n address : ℕ) (m : CyMemory)
    → all_bytes m w (suc n) address ≡ true
    → has_access m (address / 4096) (mode_of w) ≡ true
unfolding all_bytes
all_bytes-first w n address m h = ground (arith, h)

-- The address wraps around only when no byte is left.
write_loop-nil : (fuel cur : ℕ) (m : CyMemory) → write_loop fuel cur [] m ≡ m
unfolding write_loop
write_loop-nil zero cur m = refl
write_loop-nil (suc fuel) cur m = refl

wrap_step :
    (fuel next : ℕ) (bytes : List ℕ) (m : CyMemory)
    → next + length bytes ≤ 2 ^ 32
    → write_loop fuel (uint32 next) bytes m ≡ write_loop fuel next bytes m
wrap_step fuel next [] m h = write_loop-nil fuel (uint32 next) m ∙ sym (write_loop-nil fuel next m)
wrap_step fuel next (x ∷ xs) m h =
    let same : uint32 next ≡ next = mod-eq_of_lt (omega arith) in
    ap (λ a. write_loop fuel a (x ∷ xs) m) same

write_loop-flat :
    (fuel cur : ℕ) (bytes : List ℕ) (m : CyMemory)
    → IsPaged m
    → length bytes ≤ fuel
    → cur + length bytes ≤ 2 ^ 32
    → all_bytes m true (length bytes) cur ≡ true
    → write_flat cur bytes (as_memory m) ≡ Outcome.done tt (as_memory (write_loop fuel cur bytes m))
unfolding write_loop
write_loop-flat zero cur [] m p h top e = unfold write_flat in refl
write_loop-flat zero cur (x ∷ xs) m p h top e = absurd (omega arith)
write_loop-flat (suc fuel) cur [] m p h top e = unfold write_flat in refl
write_loop-flat (suc fuel) cur (x ∷ xs) m p h top e =
    let bytes = x ∷ xs in
    let chunk = min (page_size - cur % 4096) (length bytes) in
    let m' = store_page (cur / 4096) (cur % 4096) (take chunk bytes) m in
    let taken = length-take chunk bytes in
    let left : length (drop chunk bytes) ≡ length bytes - chunk = length-drop chunk bytes in
    write_flat_chunk cur chunk bytes (as_memory m)
      (as_memory-can_write m (cur / 4096) ∙ all_bytes-first true (length xs) cur m e) (omega arith)
      (omega arith) (omega arith)
    ∙ ap (write_flat (cur + chunk) (drop chunk bytes))
        (sym (as_memory-store_page (cur / 4096) (cur % 4096) (take chunk bytes) m p (omega arith)))
    ∙ write_loop-flat fuel (cur + chunk) (drop chunk bytes) m'
        (store_page-IsPaged (cur / 4096) (cur % 4096) (take chunk bytes) m p (omega arith))
        (omega (arith, left)) (omega (arith, left))
        (all_bytes-store_page _ _ (cur / 4096) (cur % 4096) (take chunk bytes) true m
          ∙ all_bytes-drop m true chunk (length (drop chunk bytes)) (length bytes) cur (cur + chunk)
              (omega (arith, left)) refl e)
    ∙ ap (λ r. Outcome.done tt (as_memory r))
        (sym (wrap_step fuel (cur + chunk) (drop chunk bytes) m' (omega (arith, left))))
    ∙ (let some_left : (length bytes == 0) ≡ false = ground arith in rw some_left refl)

-- What a write leaves behind: the bytes written and the rights there were, or the memory as it was.
abbrev pub WritesAll : ℕ → List ℕ → CyMemory → Outcome CyMemory (Unit {0}) → Type 0
WritesAll address bytes m =
    Ensures
      (λ _ m'.
        (all_bytes m true (length bytes) address ≡ true)
        × IsWritten address bytes (as_memory m) (as_memory m'))
      (λ e m'.
        (all_bytes m true (length bytes) address ≡ false) × (e ≡ pvm_exit 2 address) × (m' ≡ m))

write_at-WritesAll :
    (address : ℕ) (bytes : List ℕ) (m : CyMemory)
    → IsPaged m
    → 1 ≤ length bytes
    → length bytes < 2 ^ 31
    → address < 2 ^ 32
    → WritesAll address bytes m (write_at address bytes m)
unfolding write_at
write_at-WritesAll address bytes m p one small low =
    rw (check_access-bytes m true address (length bytes) address one small low)
      (elim (Bool-cases (all_bytes m true (length bytes) address)) [
        | inl ok ↦ rw ok (
            Ensures.returns (
              refl,
              Ensures-done
                  (write_flat-IsWritten address bytes (as_memory m) (unfold as_memory in p))
                  (write_loop-flat (length bytes) address bytes m p (omega arith)
                    (inside m true (length bytes) address low ok) ok),
            ))
        | inr bad ↦ rw bad (Ensures.raises (refl, refl, refl))
      ])

-- On a `CyMemory` whose pages hold 4096 bytes each, a write of less than 2^31 bytes either
-- returns, where all the bytes may be written: then these bytes stand from the address modulo 2^32
-- on, every other byte is as it was, and so is the right to read each page; or it raises a page
-- fault at its address, where some byte may not be written, and changes nothing.
pub write-WritesAll :
    (address : ℕ) (bytes : List ℕ) (m : CyMemory)
    → IsPaged m
    → length bytes < 2 ^ 31
    → WritesAll (uint32 address) bytes m (write address bytes m)
unfolding write
write-WritesAll address [] m p small =
    let none_asked : all_bytes m true 0 (uint32 address) ≡ true = unfold all_bytes in refl in
    let stays : write_flat (uint32 address) [] (as_memory m) ≡ Outcome.done tt (as_memory m) =
      unfold write_flat in refl in
    Ensures.returns {s = m} (
      none_asked,
      Ensures-done (write_flat-IsWritten (uint32 address) [] (as_memory m) (unfold as_memory in p))
          stays,
    )
write-WritesAll address (x ∷ xs) m p small =
    if-elim (WritesAll (uint32 address) (x ∷ xs) m) (length (x ∷ xs) == 0)
      (λ e. absurd (ground (arith, e)))
      (λ _. write_at-WritesAll (uint32 address) (x ∷ xs) m p (omega arith) small (omega arith))
