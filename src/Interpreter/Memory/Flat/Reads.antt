-- ===== src/Interpreter/Memory/Flat/Reads.antt =====
-- memory.py: `read` against the flat array.
use tsrkit_pvm.Prelude.{
  ℕ, zero, suc, ◌+◌, ◌-◌, ◌/◌, ◌%◌, ◌≤◌, min, true, ◌&&◌, List, ◌∷◌, ◌++◌, Option, none, some, ◌≡◌,
  refl, sym, ap, ◌∙◌, arith, if-elim, length, slice, Outcome, replicate, leb, ltb, ◌==◌, ==_iff, M,
  pure, ◌>>=◌, bind_outcome, ltb→lt, ltb→le,
}
use mathlib.Core.Option.{some-injective, none-ne-some}
use tsrkit_pvm.Interpreter.Memory.{
  Memory, addr_mod, page_size, page_or_zero, can_read, matches, read_multipage, page_read,
  read_single, read_cold, hot_read, read_at, read,
}
use tsrkit_pvm.Interpreter.Memory.Coherent.{IsCoherent, HotIsValid, page_or_zero-IsPage}
use tsrkit_pvm.Interpreter.Memory.Flat.{
  Answer, answer, extend, read_flat, read_flat_page, read_flat_fault, read_flat_within,
}

answer-prefix :
    (xs : List ℕ) (x : M Memory (List ℕ)) (m : Memory)
    → answer ((x >>= λ ys. pure (xs ++ ys)) m) ≡ extend xs (answer (x m))
answer-prefix xs x m = go (x m)
  where
    go :
        (o : Outcome Memory (List ℕ))
        → answer (bind_outcome o (λ ys. pure (xs ++ ys))) ≡ extend xs (answer o)
    go (Outcome.done ys m') = refl
    go (Outcome.raised e m') = refl

length-page : (m : Memory) (pg : ℕ) → IsCoherent m → length (page_or_zero (m.pages pg)) ≡ page_size
length-page m pg c = (page_or_zero-IsPage (m.pages pg) (c.paged pg)).0

read_multipage-Flat :
    (fuel address end : ℕ) (m : Memory)
    → IsCoherent m
    → end ≤ address + fuel
    → answer (read_multipage fuel address end m) ≡ read_flat m (end - address) address
unfolding read_multipage
read_multipage-Flat zero address end m c enough =
    let nothing : end - address ≡ 0 = omega arith in rw nothing (unfold read_flat in refl)
read_multipage-Flat (suc fuel) address end m c enough =
    let pg = address / page_size in
    let off = address % page_size in
    let chunk = min (page_size - off) (end - address) in
    if-elim (λ o. answer o ≡ read_flat m (end - address) address) (ltb address end)
      (λ more.
        let lt = ltb→lt address end more in
        if-elim (λ o. answer o ≡ read_flat m (end - address) address) (can_read m pg)
          (λ r.
            answer-prefix (slice (page_or_zero (m.pages pg)) off chunk)
              (read_multipage fuel (address + chunk) end) m
            ∙ ap (extend (slice (page_or_zero (m.pages pg)) off chunk))
                (read_multipage-Flat fuel (address + chunk) end m c (omega arith))
            ∙ sym (
                read_flat_page m chunk (end - (address + chunk)) (end - address) pg off address
                  (address + chunk) (length-page m pg c) r (omega arith) (omega arith) (omega arith)
                  refl))
          (λ r. sym (read_flat_fault m (end - address) address r (omega arith))))
      (λ stop.
        let nothing : end - address ≡ 0 = omega (arith, ltb→le address end stop) in
        rw nothing (unfold read_flat in refl))

slice-replicate : (k i n : ℕ) → i + n ≤ k → slice (replicate k 0) i n ≡ replicate {A = ℕ} n 0
slice-replicate zero zero zero h = refl
slice-replicate zero i (suc n) h = absurd (omega arith)
slice-replicate zero (suc i) zero h = absurd (omega arith)
slice-replicate (suc k) zero zero h = refl
slice-replicate (suc k) zero (suc n) h = ap (λ xs. 0 ∷ xs) (slice-replicate k zero n (omega arith))
slice-replicate (suc k) (suc i) n h = slice-replicate k i n (omega arith)

page_read-Flat :
    (o : Option (List ℕ)) (pg address len : ℕ) (m : Memory)
    → address % page_size + len ≤ page_size
    → answer (page_read o pg address len m)
      ≡ Answer.ok (slice (page_or_zero o) (address % page_size) len)
page_read-Flat none pg address len m h =
    ap Answer.ok (sym (slice-replicate page_size (address % page_size) len h))
page_read-Flat (some bytes) pg address len m h = refl

read_single-Flat :
    (address len : ℕ) (m : Memory)
    → IsCoherent m
    → 1 ≤ len
    → address % page_size + len ≤ page_size
    → answer (read_single (address / page_size) address len m) ≡ read_flat m len address
unfolding read_single
read_single-Flat address len m c one h =
    let pg = address / page_size in
    if-elim (λ o. answer o ≡ read_flat m len address) (can_read m pg)
      (λ r.
        page_read-Flat (m.pages pg) pg address len m h
        ∙ sym (read_flat_within m len address (length-page m pg c) r h))
      (λ r. sym (read_flat_fault m len address r one))

read_cold-Flat :
    (address len : ℕ) (m : Memory)
    → IsCoherent m
    → 1 ≤ len
    → answer (read_cold address len m) ≡ read_flat m len address
unfolding read_cold
read_cold-Flat address len m c one =
    if-elim (λ o. answer o ≡ read_flat m len address)
      (address / page_size == (address + len - 1) / page_size)
      (λ e.
        read_single-Flat address len m c one
          (omega (arith, (==_iff (address / page_size) ((address + len - 1) / page_size)).0 e)))
      (λ e.
        let all : address + len - address ≡ len = omega arith in
        read_multipage-Flat len address (address + len) m c (omega arith) ∙ rw all refl)

hot_read-Flat :
    (hot hot_data : Option ℕ) (address len : ℕ) (m : Memory) (cold : Outcome Memory (List ℕ))
    → IsCoherent m
    → matches hot (address / page_size) ≡ true
    → hot_data ≡ m.hot_page_data
    → HotIsValid m hot
    → address % page_size + len ≤ page_size
    → answer (hot_read hot_data address len cold m) ≡ read_flat m len address
hot_read-Flat none hot_data address len m cold c hit e v fits = cc
hot_read-Flat (some n) none address len m cold c hit e v fits = absurd (none-ne-some n (e ∙ v.0))
hot_read-Flat (some n) (some k) address len m cold c hit e v fits =
    let kn : k ≡ n = some-injective k n (e ∙ v.0) in
    let here : n ≡ address / page_size = (==_iff n (address / page_size)).0 hit in
    let found : k ≡ address / page_size = kn ∙ here in
    let r : can_read m (address / page_size) ≡ true = rw (← here) v.1 in
    rw found (sym (read_flat_within m len address (length-page m _ c) r fits))

read_at-Flat :
    (address len : ℕ) (m : Memory)
    → IsCoherent m
    → 1 ≤ len
    → answer (read_at address len m) ≡ read_flat m len address
unfolding read_at
read_at-Flat address len m c one =
    if-elim (λ o. answer o ≡ read_flat m len address)
      (matches m.hot_page_num (address / page_size) && leb (address % page_size + len) page_size)
      (λ e.
        hot_read-Flat m.hot_page_num m.hot_page_data address len m (read_cold address len m) c
          (ground arith) refl c.hot (ground arith))
      (λ _. read_cold-Flat address len m c one)

-- On a coherent memory, a read answers as the flat array of bytes does from the address modulo
-- 2^32 on: with the bytes one by one, or with a page fault at the first address whose page may not
-- be read. The page cache, and the paths for one page and for several, do not show.
pub read-Flat :
    (address len : ℕ) (m : Memory)
    → IsCoherent m
    → answer (read address len m) ≡ read_flat m len (address % addr_mod)
unfolding read
read-Flat address len m c =
    if-elim (λ o. answer o ≡ read_flat m len (address % addr_mod)) (len == 0)
      (λ e. let nothing : len ≡ 0 = (==_iff len 0).0 e in rw nothing (unfold read_flat in refl))
      (λ e. read_at-Flat (address % addr_mod) len m c (ground arith))
