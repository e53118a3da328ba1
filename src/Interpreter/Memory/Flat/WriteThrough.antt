-- ===== src/Interpreter/Memory/Flat/WriteThrough.antt =====
-- memory.py: `write` with its cache against the flat array.
use tsrkit_pvm.Prelude.{
  ℕ, ◌+◌, ◌-◌, ◌/◌, ◌%◌, ◌≤◌, true, ◌&&◌, List, [], ◌∷◌, Option, none, some, ◌≡◌, refl, sym, ap,
  ◌∙◌, arith, if-elim, length, Outcome, leb, ◌==◌, ==_iff,
}
use mathlib.Core.Option.{some-injective, none-ne-some}
use tsrkit_pvm.Interpreter.Memory.{
  Memory, addr_mod, page_size, can_read, can_write, matches, store_page, write_single, write_cold,
  hot_write, write_at, write,
}
use tsrkit_pvm.Interpreter.Memory.Coherent.{IsCoherent, HotIsValid}
use tsrkit_pvm.Interpreter.Memory.Flat.{settled}
use tsrkit_pvm.Interpreter.Memory.Flat.Writes.{
  write_flat, write_flat_within, write_flat_fault, write_multipage-Flat,
}

-- Two outcomes that differ at most in the cache.
abbrev Same : Outcome Memory (Unit {0}) → Outcome Memory (Unit {0}) → Type 0
Same o p = settled o ≡ settled p

write_single-Flat :
    (address : ℕ) (bytes : List ℕ) (m : Memory)
    → 1 ≤ length bytes
    → address % page_size + length bytes ≤ page_size
    → Same (write_single (address / page_size) address bytes m) (write_flat address bytes m)
unfolding write_single
write_single-Flat address [] m one fits = absurd (omega arith)
write_single-Flat address (x ∷ xs) m one fits =
    if-elim (λ o. Same o (write_flat address (x ∷ xs) m)) (can_write m (address / page_size))
      (λ w. sym (
        ap settled (write_flat_within address (x ∷ xs) m w one fits) ∙ (unfold store_page in refl)))
      (λ w. sym (ap settled (write_flat_fault address x xs m w)))

write_cold-Flat :
    (address : ℕ) (bytes : List ℕ) (m : Memory)
    → 1 ≤ length bytes
    → Same (write_cold address bytes m) (write_flat address bytes m)
unfolding write_cold
write_cold-Flat address bytes m one =
    if-elim (λ o. Same o (write_flat address bytes m))
      (address / page_size == (address + length bytes - 1) / page_size)
      (λ e. write_single-Flat address bytes m one (
        omega
          (arith, (==_iff (address / page_size) ((address + length bytes - 1) / page_size)).0 e)))
      (λ e. ap settled (write_multipage-Flat (length bytes) address bytes m (omega arith)))

may_write : (m : Memory) (n : ℕ) → can_read m n ≡ true → m.w_pages n ≡ true → can_write m n ≡ true
unfolding can_read can_write
may_write m n r w = ground arith

hot_write-Flat :
    (hot hot_data : Option ℕ) (address : ℕ) (bytes : List ℕ) (m : Memory)
    (cold : Outcome Memory (Unit {0}))
    → matches hot (address / page_size) ≡ true
    → m.hot_page_writable ≡ true
    → hot_data ≡ m.hot_page_data
    → HotIsValid m hot
    → 1 ≤ length bytes
    → address % page_size + length bytes ≤ page_size
    → Same (hot_write hot_data address bytes cold m) (write_flat address bytes m)
hot_write-Flat none hot_data address bytes m cold hit hw e v one fits = cc
hot_write-Flat (some n) none address bytes m cold hit hw e v one fits =
    absurd (none-ne-some n (e ∙ v.0))
hot_write-Flat (some n) (some k) address bytes m cold hit hw e v one fits =
    let kn : k ≡ n = some-injective k n (e ∙ v.0) in
    let here : n ≡ address / page_size = (==_iff n (address / page_size)).0 hit in
    let w : can_write m (address / page_size) ≡ true = rw (← here) (may_write m n v.1 (v.2 hw)) in
    rw (kn, here) (sym (ap settled (write_flat_within address bytes m w one fits)))

write_at-Flat :
    (address : ℕ) (bytes : List ℕ) (m : Memory)
    → IsCoherent m
    → 1 ≤ length bytes
    → Same (write_at address bytes m) (write_flat address bytes m)
unfolding write_at
write_at-Flat address bytes m c one =
    if-elim (λ o. Same o (write_flat address bytes m))
      (matches m.hot_page_num (address / page_size)
        && m.hot_page_writable
        && leb (address % page_size + length bytes) page_size)
      (λ e.
        hot_write-Flat m.hot_page_num m.hot_page_data address bytes m (write_cold address bytes m)
          (ground arith) (ground arith) refl c.hot one (ground arith))
      (λ _. write_cold-Flat address bytes m one)

-- On a coherent memory, a write ends as storing its bytes one by one does from the address modulo
-- 2^32 on, with the same return or page fault, and leaves the same pages, rights and heap break
-- behind, also when it faults half way. Only the cache may differ.
pub write-Flat :
    (address : ℕ) (bytes : List ℕ) (m : Memory)
    → IsCoherent m
    → settled (write address bytes m) ≡ settled (write_flat (address % addr_mod) bytes m)
unfolding write
write-Flat address [] m c = unfold write_flat in refl
write-Flat address (x ∷ xs) m c =
    if-elim (λ o. Same o (write_flat (address % addr_mod) (x ∷ xs) m)) (length (x ∷ xs) == 0)
      (λ e. absurd (omega (arith, (==_iff (length (x ∷ xs)) 0).0 e)))
      (λ _. write_at-Flat (address % addr_mod) (x ∷ xs) m c (omega arith))
