-- ===== src/Interpreter/Memory/Keeps.antt =====
-- memory.py: reads and writes, and the invariant of the memory.
use tsrkit_pvm.Prelude.{
  ℕ, zero, suc, ◌+◌, ◌-◌, ◌/◌, ◌%◌, Bool, true, false, ◌&&◌, List, Option, none, some, ◌≡◌, refl,
  ◌==◌, ltb, leb, if◌then◌else◌, length, slice, Outcome, Exn, Ensures, Ensures-bind,
}
use tsrkit_pvm.Interpreter.Memory.{
  Memory, addr_mod, page_size, page_or_zero, matches, can_read, can_write, read_multipage,
  read_single, read_cold, page_read, hot_read, hot_write, read_at, read, write_multipage,
  write_single, write_cold, write_at, write,
}
use tsrkit_pvm.Interpreter.Memory.Coherent.{
  AreBytes, IsPage, IsCoherent, AreBytes-replicate, AreBytes-append, AreBytes-take, AreBytes-drop,
  slice-AreBytes, page_or_zero-IsPage, store_page-IsCoherent, warm-IsCoherent, can_write→can_read,
  can_write→w_pages,
}

-- What a read keeps and gives, and what a write keeps: a raise is a page fault.
abbrev pub IsFault : Exn → Type 0
IsFault (Exn.page_fault addr) = Unit
IsFault _ = ⊥

abbrev pub Faults : Exn → Memory → Type 0
Faults e m = IsCoherent m × IsFault e

abbrev pub Reads : Outcome Memory (List ℕ) → Type 0
Reads = Ensures (λ bytes m. IsCoherent m × AreBytes bytes) Faults

abbrev pub Writes : Outcome Memory (Unit {0}) → Type 0
Writes = Ensures (λ _ m. IsCoherent m) Faults

Ensures-if :
    {S A : Type 0} {P : A → S → Type 0} {Q : Exn → S → Type 0} (test : Bool) {x y : Outcome S A}
    → (test ≡ true → Ensures P Q x)
    → (test ≡ false → Ensures P Q y)
    → Ensures P Q (if test then x else y)
Ensures-if true h k = h refl
Ensures-if false h k = k refl

pub page-AreBytes :
    (m : Memory) (pg i n : ℕ) → IsCoherent m → AreBytes (slice (page_or_zero (m.pages pg)) i n)
page-AreBytes m pg i n c = slice-AreBytes _ i n (page_or_zero-IsPage (m.pages pg) (c.paged pg)).1

read_multipage-Reads :
    (fuel address end : ℕ) (m : Memory) → IsCoherent m → Reads (read_multipage fuel address end m)
unfolding read_multipage
read_multipage-Reads zero address end m c = Ensures.returns (c, tt)
read_multipage-Reads (suc fuel) address end m c =
    Ensures-if (ltb address end)
      (λ _.
        Ensures-if (can_read m (address / page_size))
          (λ _. Ensures-bind (read_multipage-Reads fuel _ end m c) (λ tail m' h.
            Ensures.returns (h.0, AreBytes-append _ tail (page-AreBytes m _ _ _ c) h.1)))
          (λ _. Ensures.raises (c, tt)))
      (λ _. Ensures.returns (c, tt))

page_read-Reads :
    (o : Option (List ℕ)) (pg address len : ℕ) (m : Memory)
    → ((bytes : List ℕ) → o ≡ some bytes → IsPage bytes)
    → can_read m pg ≡ true
    → IsCoherent m
    → Reads (page_read o pg address len m)
page_read-Reads none pg address len m h r c = Ensures.returns (c, AreBytes-replicate len)
page_read-Reads (some bytes) pg address len m h r c =
    Ensures.returns
      (warm-IsCoherent pg _ m r (λ w. w) c, slice-AreBytes bytes _ len (h bytes refl).1)

read_single-Reads :
    (pg address len : ℕ) (m : Memory) → IsCoherent m → Reads (read_single pg address len m)
unfolding read_single
read_single-Reads pg address len m c =
    Ensures-if (can_read m pg) (λ r. page_read-Reads (m.pages pg) pg address len m (c.paged pg) r c)
      (λ _. Ensures.raises (c, tt))

read_cold-Reads : (address len : ℕ) (m : Memory) → IsCoherent m → Reads (read_cold address len m)
unfolding read_cold
read_cold-Reads address len m c =
    Ensures-if (address / page_size == (address + len - 1) / page_size)
      (λ _. read_single-Reads _ address len m c) (λ _. read_multipage-Reads len address _ m c)

hot_read-Reads :
    (o : Option ℕ) (address len : ℕ) (m : Memory) {cold : Outcome Memory (List ℕ)}
    → IsCoherent m
    → Reads cold
    → Reads (hot_read o address len cold m)
hot_read-Reads none address len m c k = k
hot_read-Reads (some n) address len m c k = Ensures.returns (c, page-AreBytes m n _ len c)

read_at-Reads : (address len : ℕ) (m : Memory) → IsCoherent m → Reads (read_at address len m)
unfolding read_at
read_at-Reads address len m c =
    Ensures-if
      (matches m.hot_page_num (address / page_size) && leb (address % page_size + len) page_size)
      (λ _. hot_read-Reads m.hot_page_data address len m c (read_cold-Reads address len m c))
      (λ _. read_cold-Reads address len m c)

-- A read keeps a memory coherent, whether it returns or raises, gives bytes, and raises nothing
-- but a page fault.
pub read-Reads : (address len : ℕ) (m : Memory) → IsCoherent m → Reads (read address len m)
unfolding read
read-Reads address len m c =
    Ensures-if (len == 0) (λ _. Ensures.returns (c, tt))
      (λ _. read_at-Reads (address % addr_mod) len m c)

write_multipage-Writes :
    (fuel address : ℕ) (bytes : List ℕ) (m : Memory)
    → AreBytes bytes
    → IsCoherent m
    → Writes (write_multipage fuel address bytes m)
unfolding write_multipage
write_multipage-Writes zero address bytes m b c = Ensures.returns c
write_multipage-Writes (suc fuel) address bytes m b c =
    Ensures-if (ltb 0 (length bytes))
      (λ _.
        Ensures-if (can_write m (address / page_size))
          (λ _.
            write_multipage-Writes fuel _ _ _ (AreBytes-drop _ bytes b)
              (store_page-IsCoherent _ _ _ m (AreBytes-take _ bytes b) c))
          (λ _. Ensures.raises (c, tt)))
      (λ _. Ensures.returns c)

write_single-Writes :
    (pg address : ℕ) (bytes : List ℕ) (m : Memory)
    → AreBytes bytes
    → IsCoherent m
    → Writes (write_single pg address bytes m)
unfolding write_single
write_single-Writes pg address bytes m b c =
    Ensures-if (can_write m pg)
      (λ w. Ensures.returns (
        store_page-IsCoherent pg _ bytes _ b (
          warm-IsCoherent pg true m (can_write→can_read m pg w) (λ _. can_write→w_pages m pg w) c)))
      (λ _. Ensures.raises (c, tt))

write_cold-Writes :
    (address : ℕ) (bytes : List ℕ) (m : Memory)
    → AreBytes bytes
    → IsCoherent m
    → Writes (write_cold address bytes m)
unfolding write_cold
write_cold-Writes address bytes m b c =
    Ensures-if (address / page_size == (address + length bytes - 1) / page_size)
      (λ _. write_single-Writes _ address bytes m b c)
      (λ _. write_multipage-Writes _ address bytes m b c)

hot_write-Writes :
    (o : Option ℕ) (address : ℕ) (bytes : List ℕ) (m : Memory) {cold : Outcome Memory (Unit {0})}
    → AreBytes bytes
    → IsCoherent m
    → Writes cold
    → Writes (hot_write o address bytes cold m)
hot_write-Writes none address bytes m b c k = k
hot_write-Writes (some n) address bytes m b c k =
    Ensures.returns (store_page-IsCoherent n _ bytes m b c)

write_at-Writes :
    (address : ℕ) (bytes : List ℕ) (m : Memory)
    → AreBytes bytes
    → IsCoherent m
    → Writes (write_at address bytes m)
unfolding write_at
write_at-Writes address bytes m b c =
    Ensures-if
      (matches m.hot_page_num (address / page_size)
        && m.hot_page_writable
        && leb (address % page_size + length bytes) page_size)
      (λ _.
        hot_write-Writes m.hot_page_data address bytes m b c
          (write_cold-Writes address bytes m b c))
      (λ _. write_cold-Writes address bytes m b c)

-- A write of bytes keeps a memory coherent, whether it returns or raises, and raises nothing but a
-- page fault.
pub write-Writes :
    (address : ℕ) (bytes : List ℕ) (m : Memory)
    → AreBytes bytes
    → IsCoherent m
    → Writes (write address bytes m)
unfolding write
write-Writes address bytes m b c =
    Ensures-if (length bytes == 0) (λ _. Ensures.returns c)
      (λ _. write_at-Writes (address % addr_mod) bytes m b c)
