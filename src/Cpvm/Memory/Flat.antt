-- ===== src/Cpvm/Memory/Flat.antt =====
-- cy_memory.pyx: reads against the flat array of bytes that the interpreter's memory stands for.
use tsrkit_pvm.Prelude.{
  ℕ, zero, suc, ◌+◌, ◌-◌, ◌/◌, ◌%◌, ◌^◌, ◌≤◌, ◌<◌, min, Bool, true, false, ◌&&◌, List, [], ◌∷◌,
  none, ltb, length, slice, Outcome, pvm_exit, ◌≡◌, refl, sym, ap, ◌∙◌, arith, if-elim, Bool-cases,
  inl, inr, lt→leb, lt→ltb, ltb→lt, ltb→le,
}
use native.Mathlib.Nat.{mod-eq_of_lt}
use tsrkit_pvm.Common.Constants.{Accessibility}
use tsrkit_pvm.Interpreter.Memory.{Memory, page_size, max_pages, page_or_zero, can_read, readable}
use tsrkit_pvm.Interpreter.Memory.Flat.{Answer, read_flat, read_flat_page, extend, byte}
use tsrkit_pvm.Cpvm.Words.{uint32}
use tsrkit_pvm.Cpvm.Memory.{CyMemory, has_access, read_loop, read_at, read}
use tsrkit_pvm.Cpvm.Memory.Rights.{right, has_access-right}
use tsrkit_pvm.Cpvm.Memory.Pages.{
  past_the_end, all_bytes, check_access-bytes, all_bytes-drop, inside,
}

-- The interpreter's memory with the same pages and rights, and nothing in its cache.
unfoldable pub as_memory : CyMemory → Memory
as_memory m = record {
  pages = m.pages;
  r_pages = right false m;
  w_pages = right true m;
  heap_break = 0;
  hot_page_num = none;
  hot_page_data = none;
  hot_page_writable = false;
}

as_memory-can_read :
    (m : CyMemory) (pg : ℕ) → can_read (as_memory m) pg ≡ has_access m pg Accessibility.read
unfolding as_memory can_read readable
as_memory-can_read m pg = elim (Bool-cases (ltb pg max_pages)) [
  | inl l ↦ rw (l, has_access-right false m pg (ltb→lt pg max_pages l)) (ground arith)
  | inr h ↦ rw (h, past_the_end m pg false (ltb→le pg max_pages h)) refl
]

abbrev is_ok : Answer (List ℕ) → Bool
is_ok (Answer.ok xs) = true
is_ok (Answer.fault e) = false

is_ok-extend : (xs : List ℕ) (a : Answer (List ℕ)) → is_ok (extend xs a) ≡ is_ok a
is_ok-extend xs (Answer.ok ys) = refl
is_ok-extend xs (Answer.fault e) = refl

-- Each buffer is a page.
abbrev pub IsPaged : CyMemory → Type 0
IsPaged m = (pg : ℕ) → length (page_or_zero (m.pages pg)) ≡ page_size

module _ (m : CyMemory) where
  is_ok-read_flat :
      (n address : ℕ) → is_ok (read_flat (as_memory m) n address) ≡ all_bytes m false n address
  unfolding read_flat all_bytes
  is_ok-read_flat zero address = refl
  is_ok-read_flat (suc n) address = rw (as_memory-can_read m (address / 4096)) (
      if-elim
        (λ a.
          is_ok a
          ≡ (has_access m (address / 4096) Accessibility.read && all_bytes m false n (address + 1)))
        (has_access m (address / 4096) Accessibility.read)
        (λ e.
          is_ok-extend (byte (as_memory m) address ∷ []) (read_flat (as_memory m) n (address + 1))
          ∙ is_ok-read_flat n (address + 1)
          ∙ rw e refl)
        (λ e. rw e refl))

  read_loop-nil : (fuel cur : ℕ) → read_loop fuel cur 0 m ≡ []
  unfolding read_loop as_memory
  read_loop-nil zero cur = refl
  read_loop-nil (suc fuel) cur = refl

  -- The address wraps around only when no byte is left.
  wrap_step :
      (fuel next left : ℕ)
      → next + left ≤ 2 ^ 32
      → read_flat (as_memory m) left next ≡ Answer.ok (read_loop fuel next left m)
      → read_flat (as_memory m) left next ≡ Answer.ok (read_loop fuel (uint32 next) left m)
  wrap_step fuel next zero h e = unfold read_flat in rw (read_loop-nil fuel (uint32 next)) refl
  wrap_step fuel next (suc left) h e =
      let same : uint32 next ≡ next = mod-eq_of_lt (omega arith) in rw same e

  -- The copying loop, once every byte may be read.
  read_loop-flat :
      (fuel cur remaining : ℕ)
      → IsPaged m
      → remaining ≤ fuel
      → cur + remaining ≤ 2 ^ 32
      → all_bytes m false remaining cur ≡ true
      → read_flat (as_memory m) remaining cur ≡ Answer.ok (read_loop fuel cur remaining m)
  unfolding read_loop as_memory
  read_loop-flat zero cur zero p h top e = unfold read_flat in refl
  read_loop-flat zero cur (suc n) p h top e = absurd (omega arith)
  read_loop-flat (suc fuel) cur zero p h top e = unfold read_flat in refl
  read_loop-flat (suc fuel) cur (suc n) p h top e =
      let chunk = min (page_size - cur % 4096) (suc n) in
      let left = suc n - chunk in
      rw (lt→ltb 0 (suc n) (omega arith)) (
        read_flat_page (as_memory m) chunk left (suc n) (cur / 4096) (cur % 4096) cur (cur + chunk)
          (unfold as_memory in p (cur / 4096))
          (as_memory-can_read m (cur / 4096) ∙ (unfold all_bytes in ground (arith, e)))
          (omega arith) (omega arith) (omega arith) refl
        ∙ ap (extend (slice (page_or_zero (m.pages (cur / 4096))) (cur % 4096) chunk)) (
            wrap_step fuel (cur + chunk) left (omega arith) (
              read_loop-flat fuel (cur + chunk) left p (omega arith) (omega arith) (
                all_bytes-drop m false chunk left (suc n) cur (cur + chunk) (omega arith) refl e))))

-- The outcome of a read, from what the flat array of bytes answers: its bytes, or a page fault at the
-- address that was asked for.
abbrev pub outcome_of : ℕ → CyMemory → Answer (List ℕ) → Outcome CyMemory (List ℕ)
outcome_of address m (Answer.ok bytes) = Outcome.done bytes m
outcome_of address m (Answer.fault e) = Outcome.raised (pvm_exit 2 address) m

fault_of :
    (address : ℕ) (m : CyMemory) (a : Answer (List ℕ))
    → is_ok a ≡ false
    → outcome_of address m a ≡ Outcome.raised (pvm_exit 2 address) m
fault_of address m (Answer.ok bytes) e = cc
fault_of address m (Answer.fault x) e = refl

read_at-Flat :
    (address n : ℕ) (m : CyMemory)
    → IsPaged m
    → 1 ≤ n
    → n < 2 ^ 31
    → address < 2 ^ 32
    → read_at address n m ≡ outcome_of address m (read_flat (as_memory m) n address)
unfolding read_at
read_at-Flat address n m p one small low =
    rw (check_access-bytes m false address n address one small low)
      (elim (Bool-cases (all_bytes m false n address)) [
        | inl ok ↦
            rw
              (
                ok,
                read_loop-flat m n address n p (omega arith) (inside m false n address low ok) ok,
              )
              refl
        | inr bad ↦ rw bad (
            sym (
              fault_of address m (read_flat (as_memory m) n address)
                (is_ok-read_flat m n address ∙ bad)))
      ])

-- On a `CyMemory` whose pages hold 4096 bytes each, a read of less than 2^31 bytes changes nothing
-- and answers as the interpreter's memory, seen as a flat array of bytes with the same pages and
-- rights, does from the address modulo 2^32 on: with its bytes, or, where that faults at some
-- address, with a page fault at the address read from.
pub read-FlatBytes :
    (address len : ℕ) (m : CyMemory)
    → IsPaged m
    → len < 2 ^ 31
    → read address len m
      ≡ outcome_of (uint32 address) m (read_flat (as_memory m) len (uint32 address))
unfolding read
read-FlatBytes address zero m p small = unfold read_flat in refl
read-FlatBytes address (suc n) m p small =
    rw (lt→leb (suc n) 0 (omega arith))
      (read_at-Flat (uint32 address) (suc n) m p (omega arith) small (omega arith))
