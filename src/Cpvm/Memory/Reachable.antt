-- ===== src/Cpvm/Memory/Reachable.antt =====
-- cy_memory.pyx: the memories that its operations make, one after the other.
use tsrkit_pvm.Prelude.{
  ℕ, zero, suc, ◌^◌, Bool, List, [], ◌∷◌, Option, some, ℤ, length, length-splice, length-replicate,
  replicate, ltb, leb, ◌||◌, ◌==◌, if-elim, Outcome, Ensures, Ensures-done, ◌≡◌, ◌∙◌, arith, ◌+◌,
  ◌/◌, Ensures-bind, true, range, overwrite, overwrite-splice, length-take, sym, ap, ◌≤◌, ◌-◌, ◌%◌,
  min, M,
}
use mathlib.Core.Path.{subst}
use tsrkit_pvm.Common.Constants.{Accessibility}
use tsrkit_pvm.Interpreter.Memory.{page_size, page_or_zero, update, max_pages, is_write, is_read}
use tsrkit_pvm.Interpreter.Memory.Coherent.{
  AreBytes, IsPage, AreBytes-take, AreBytes-drop, AreBytes-splice, AreBytes-replicate,
}
use tsrkit_pvm.Cpvm.Memory.{
  CyMemory, set_access, set_access_range, alter_accessibility, store_page, set_byte, write_loop,
  write_at, write, check_access, num_pages, has_access,
}
use tsrkit_pvm.Cpvm.Memory.Init.{
  allow, sync_bitsets_from_sets, load, init, place, from_pc, zero_pages, zero_memory_range, blank,
  heap_start,
}
use tsrkit_pvm.Cpvm.Words.{uint32}

-- Each page is a buffer of 4096 bytes.
pub record HasPages (m : CyMemory) : Type 0 where
  pub page : (pg : ℕ) → IsPage (page_or_zero (m.pages pg))

-- A memory after any sequence of operations that return.
pub data Reachable : CyMemory → Type 0 where
  made :
      (cells : List (ℕ × ℕ)) (read_pages write_pages : List ℕ) (heap : ℤ) (m : CyMemory)
      → init cells read_pages write_pages heap ≡ Outcome.done tt m
      → Reachable m
  laid_out :
      (rd wr args : List ℕ) (z s : ℕ) (m : CyMemory)
      → AreBytes rd
      → AreBytes wr
      → AreBytes args
      → from_pc rd wr args z s ≡ Outcome.done tt m
      → Reachable m
  written :
      (address : ℕ) (bytes : List ℕ) (m m' : CyMemory)
      → Reachable m
      → AreBytes bytes
      → write address bytes m ≡ Outcome.done tt m'
      → Reachable m'
  altered :
      (start len : ℕ) (access : Accessibility) (m : CyMemory)
      → Reachable m
      → Reachable (alter_accessibility start len access m)
  zeroed :
      (start_page count : ℕ) (m : CyMemory)
      → Reachable m
      → Reachable (zero_memory_range start_page count m)

update-HasPages :
    (pages : ℕ → Option (List ℕ)) (pg : ℕ) (bytes : List ℕ)
    → ((j : ℕ) → IsPage (page_or_zero (pages j)))
    → IsPage bytes
    → (j : ℕ) → IsPage (page_or_zero (update pages pg (some bytes) j))
update-HasPages pages pg bytes h k j =
    if-elim (λ o. IsPage (page_or_zero o)) (pg == j) (λ _. k) (λ _. h j)

store_page-HasPages :
    (pg off : ℕ) (bytes : List ℕ) (m : CyMemory)
    → AreBytes bytes
    → off + length bytes ≤ page_size
    → HasPages m
    → HasPages (store_page pg off bytes m)
unfolding store_page
store_page-HasPages pg off bytes m b fits h =
    let old = page_or_zero (m.pages pg) in
    let fit = overwrite-splice old off bytes (omega (arith, (h.page pg).0)) in
    record {
      page = update-HasPages m.pages pg (overwrite old off bytes) h.page (
        ap length fit ∙ length-splice old off bytes ∙ (h.page pg).0,
        subst AreBytes (sym fit) (AreBytes-splice old off bytes (h.page pg).1 b),
      );
    }

write_loop-HasPages :
    (fuel cur : ℕ) (bytes : List ℕ) (m : CyMemory)
    → AreBytes bytes
    → HasPages m
    → HasPages (write_loop fuel cur bytes m)
unfolding write_loop
write_loop-HasPages zero cur bytes m b h = h
write_loop-HasPages (suc fuel) cur bytes m b h =
    if-elim HasPages (length bytes == 0) (λ _. h)
      (λ _. write_loop-HasPages fuel _ _ _ (AreBytes-drop _ bytes b) (
        store_page-HasPages _ _ _ m (AreBytes-take _ bytes b)
          (omega (arith, length-take (min (page_size - cur % 4096) (length bytes)) bytes)) h))

set_access-HasPages :
    (pg : ℕ) (mode : Accessibility) (value : Bool) (m : CyMemory)
    → HasPages m
    → HasPages (set_access pg mode value m)
unfolding set_access
set_access-HasPages pg mode value m h =
    if-elim HasPages (leb max_pages pg) (λ _. h)
      (λ _.
        if-elim HasPages (is_write mode) (λ _. record { page = h.page })
          (λ _. if-elim HasPages (is_read mode) (λ _. record { page = h.page }) (λ _. h)))

set_access_range-HasPages :
    (count start : ℕ) (mode : Accessibility) (value : Bool) (m : CyMemory)
    → HasPages m
    → HasPages (set_access_range start count mode value m)
unfolding set_access_range
set_access_range-HasPages zero start mode value m h = h
set_access_range-HasPages (suc count) start mode value m h =
    set_access_range-HasPages count _ mode value _ (set_access-HasPages _ mode value m h)

alter_accessibility-HasPages :
    (start len : ℕ) (access : Accessibility) (m : CyMemory)
    → HasPages m
    → HasPages (alter_accessibility start len access m)
unfolding alter_accessibility
alter_accessibility-HasPages start len access m h =
    let twice : (u v : Accessibility) (c d : Bool)
        → HasPages (
            set_access_range (start / 4096) (num_pages start len) u c
              (set_access_range (start / 4096) (num_pages start len) v d m)) =
      λ u v c d.
        set_access_range-HasPages (num_pages start len) (start / 4096) u c _
          (set_access_range-HasPages (num_pages start len) (start / 4096) v d m h) in
    if-elim HasPages (is_write access) (λ _. twice _ _ _ _)
      (λ _. if-elim HasPages (is_read access) (λ _. twice _ _ _ _) (λ _. twice _ _ _ _))

allow-HasPages :
    (mode : Accessibility) (pgs : List ℕ) (m : CyMemory) → HasPages m → HasPages (allow mode pgs m)
unfolding allow
allow-HasPages mode [] m h = h
allow-HasPages mode (pg ∷ pgs) m h =
    allow-HasPages mode pgs _ (set_access-HasPages pg mode true m h)

sync-HasPages : (m : CyMemory) → HasPages m → HasPages (sync_bitsets_from_sets m)
unfolding sync_bitsets_from_sets
sync-HasPages m h =
    let cleared = record m { r_bitset = λ _. 0; w_bitset = λ _. 0 } in
    allow-HasPages Accessibility.write m.w_pages (allow Accessibility.read m.r_pages cleared)
      (allow-HasPages Accessibility.read m.r_pages cleared (record { page = h.page }))

-- The pages are kept whether an operation returns or raises.
abbrev Keeps : {A : Type 0} → Outcome CyMemory A → Type 0
Keeps = Ensures (λ _. HasPages) (λ _. HasPages)

place-HasPages :
    (start : ℕ) (xs : List ℕ) (m : CyMemory) → AreBytes xs → HasPages m → Keeps (place start xs m)
unfolding place set_byte
place-HasPages start [] m b h = Ensures.returns h
place-HasPages start (x ∷ xs) m b h =
    if-elim Keeps (leb (2 ^ 32) start) (λ _. Ensures.raises h)
      (λ _.
        place-HasPages (start + 1) xs _ b.1
          (store_page-HasPages _ _ (x ∷ []) m (b.0, tt) (omega arith) h))

zero-IsPage : IsPage (replicate page_size 0)
zero-IsPage = (length-replicate {A = ℕ} page_size 0, AreBytes-replicate page_size)

zero_pages-HasPages : (pgs : List ℕ) (m : CyMemory) → HasPages m → HasPages (zero_pages pgs m)
unfolding zero_pages
zero_pages-HasPages [] m h = h
zero_pages-HasPages (pg ∷ pgs) m h =
    zero_pages-HasPages pgs _ (record { page = update-HasPages m.pages pg _ h.page zero-IsPage })

blank-HasPages : (r w : List ℕ) (heap : ℤ) → HasPages (blank r w heap)
blank-HasPages r w heap = record { page = λ pg. zero-IsPage }

load-HasPages : (cells : List (ℕ × ℕ)) (m : CyMemory) → HasPages m → Keeps (load cells m)
unfolding load set_byte
load-HasPages [] m h = Ensures.returns h
load-HasPages ((addr, val) ∷ cells) m h =
    if-elim Keeps (leb (2 ^ 32) addr || leb 256 val) (λ _. Ensures.raises h)
      (λ e.
        load-HasPages cells _
          (store_page-HasPages _ _ (val ∷ []) m (ground arith, tt) (omega arith) h))

init-HasPages : (cells : List (ℕ × ℕ)) (r w : List ℕ) (heap : ℤ) → Keeps (init cells r w heap)
unfolding init
init-HasPages cells r w heap = load-HasPages cells _ (sync-HasPages _ (blank-HasPages r w heap))

from_pc-HasPages :
    (rd wr args : List ℕ) (z s : ℕ)
    → AreBytes rd
    → AreBytes wr
    → AreBytes args
    → Keeps (from_pc rd wr args z s)
unfolding from_pc
from_pc-HasPages rd wr args z s b c d =
    Ensures-bind (place-HasPages _ rd _ b (blank-HasPages _ _ _)) λ _ m h.
      Ensures-bind (place-HasPages _ wr m c h) λ _ m' h'.
        Ensures-bind
          (if-elim (λ (o : M CyMemory (Unit {0})). Keeps (o m')) (ltb (heap_start rd wr z) (2 ^ 31))
            (λ _. Ensures.returns h') (λ _. Ensures.raises h'))
          λ _ m'' h''.
            Ensures-bind (place-HasPages _ args m'' d h'')
              λ _ m''' h'''. Ensures.returns (sync-HasPages m''' h''')

check_access-HasPages :
    (count start : ℕ) (mode : Accessibility) (addr : ℕ) (m : CyMemory)
    → HasPages m
    → Keeps (check_access start count mode addr m)
unfolding check_access
check_access-HasPages zero start mode addr m h = Ensures.returns h
check_access-HasPages (suc count) start mode addr m h =
    if-elim Keeps (has_access m (uint32 start) mode)
      (λ _. check_access-HasPages count (uint32 (start + 1)) mode addr m h) (λ _. Ensures.raises h)

write_at-HasPages :
    (address : ℕ) (bytes : List ℕ) (m : CyMemory)
    → AreBytes bytes
    → HasPages m
    → Keeps (write_at address bytes m)
unfolding write_at
write_at-HasPages address bytes m b h =
    Ensures-bind
      (check_access-HasPages (num_pages address (length bytes)) (address / 4096) Accessibility.write
        address m h)
      (λ _ m' h'. Ensures.returns (write_loop-HasPages (length bytes) address bytes m' b h'))

write-HasPages :
    (address : ℕ) (bytes : List ℕ) (m : CyMemory)
    → AreBytes bytes
    → HasPages m
    → Keeps (write address bytes m)
unfolding write
write-HasPages address bytes m b h =
    if-elim Keeps (length bytes == 0) (λ _. Ensures.returns h)
      (λ _. write_at-HasPages _ bytes m b h)

-- In every memory that the constructor or `from_pc` makes, from blobs that are bytes, and that
-- writes of bytes which return, changes of rights and clearings of pages lead to, each page is a
-- buffer of 4096 numbers below 256.
pub Reachable-HasPages : (m : CyMemory) → Reachable m → HasPages m
unfolding zero_memory_range
Reachable-HasPages _ (Reachable.made cells r w heap m e) =
    Ensures-done (init-HasPages cells r w heap) e
Reachable-HasPages _ (Reachable.laid_out rd wr args z s m b c d e) =
    Ensures-done (from_pc-HasPages rd wr args z s b c d) e
Reachable-HasPages _ (Reachable.written address bytes m m' r b e) =
    Ensures-done (write-HasPages address bytes m b (Reachable-HasPages m r)) e
Reachable-HasPages _ (Reachable.altered start len access m r) =
    alter_accessibility-HasPages start len access m (Reachable-HasPages m r)
Reachable-HasPages _ (Reachable.zeroed start_page count m r) =
    zero_pages-HasPages (range start_page count) m (Reachable-HasPages m r)
