-- ===== src/Interpreter/Memory/Flat/Rest.antt =====
-- memory.py: what `read` leaves behind.
use tsrkit_pvm.Prelude.{
  ℕ, zero, suc, ◌+◌, ◌-◌, ◌/◌, ◌%◌, min, ◌&&◌, List, ◌++◌, Option, none, some, ◌≡◌, refl, if-elim,
  slice, Outcome, leb, ltb, ◌==◌, pure, bind_outcome,
}
use tsrkit_pvm.Interpreter.Memory.{
  Memory, addr_mod, page_size, page_or_zero, can_read, matches, read_multipage, page_read,
  read_single, read_cold, hot_read, read_at, read, cool,
}
use tsrkit_pvm.Interpreter.Memory.Flat.{left}

-- All is as before, but for the cache.
abbrev Rests : Memory → Outcome Memory (List ℕ) → Type 0
Rests m o = left o ≡ cool m

read_multipage-left :
    (fuel address end : ℕ) (m : Memory) → left (read_multipage fuel address end m) ≡ cool m
unfolding read_multipage
read_multipage-left zero address end m = refl
read_multipage-left (suc fuel) address end m =
    let pg = address / page_size in
    let off = address % page_size in
    let chunk = min (page_size - off) (end - address) in
    if-elim (Rests m) (ltb address end)
      (λ _.
        if-elim (Rests m) (can_read m pg)
          (λ _.
            unchanged (slice (page_or_zero (m.pages pg)) off chunk)
              (read_multipage fuel (address + chunk) end m)
              (read_multipage-left fuel (address + chunk) end m))
          (λ _. refl))
      (λ _. refl)
  where
    unchanged :
        (xs : List ℕ) (o : Outcome Memory (List ℕ))
        → left o ≡ cool m
        → left (bind_outcome o (λ ys. pure (xs ++ ys))) ≡ cool m
    unchanged xs (Outcome.done ys m') e = e
    unchanged xs (Outcome.raised x m') e = e

page_read-left :
    (o : Option (List ℕ)) (pg address len : ℕ) (m : Memory)
    → left (page_read o pg address len m) ≡ cool m
page_read-left none pg address len m = refl
page_read-left (some bytes) pg address len m = refl

read_cold-left : (address len : ℕ) (m : Memory) → left (read_cold address len m) ≡ cool m
unfolding read_cold read_single
read_cold-left address len m =
    let pg = address / page_size in
    if-elim (Rests m) (pg == (address + len - 1) / page_size)
      (λ _.
        if-elim (Rests m) (can_read m pg) (λ _. page_read-left (m.pages pg) pg address len m)
          (λ _. refl))
      (λ _. read_multipage-left len address (address + len) m)

hot_read-left :
    (hot_data : Option ℕ) (address len : ℕ) (m : Memory) (cold : Outcome Memory (List ℕ))
    → left cold ≡ cool m
    → left (hot_read hot_data address len cold m) ≡ cool m
hot_read-left none address len m cold e = e
hot_read-left (some n) address len m cold e = refl

-- A read of any memory, whether it returns or raises, changes nothing but the cache.
pub read-left : (address len : ℕ) (m : Memory) → left (read address len m) ≡ cool m
unfolding read read_at
read-left address len m =
    let at = address % addr_mod in
    if-elim (Rests m) (len == 0) (λ _. refl)
      (λ _.
        if-elim (Rests m)
          (matches m.hot_page_num (at / page_size) && leb (at % page_size + len) page_size)
          (λ _. hot_read-left m.hot_page_data at len m _ (read_cold-left at len m))
          (λ _. read_cold-left at len m))
