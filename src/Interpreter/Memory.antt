-- ===== src/Interpreter/Memory.antt =====
-- tsrkit_pvm/interpreter/memory.py: the sparse paged memory with its hot page cache.
pub mod Init
pub mod Coherent
pub mod Keeps
pub mod Access
pub mod Grants
pub mod Loading
pub mod Layout
pub mod Flat
use tsrkit_pvm.Prelude.{
  ℕ, zero, suc, ◌+◌, ◌-◌, ◌*◌, ◌/◌, ◌%◌, ◌^◌, min, Bool, true, false, not, ◌&&◌, ◌||◌, List, [],
  ◌∷◌, ◌++◌, Option, none, some, ltb, leb, ◌==◌, if◌then◌else◌, length, take, drop, replicate,
  slice, splice, range, M, Outcome, pure, raise, ◌>>=◌, ◌>>◌, page_fault,
}
use tsrkit_pvm.Common.Constants.{Accessibility}
use tsrkit_pvm.Common.Utils.{get_pages, total_page_size, total_zone_size}

-- Reads and writes go through these: `ADDR_MOD`, `PAGE_SIZE`, `MAX_PAGES`.
abbrev pub addr_mod : ℕ
addr_mod = 2 ^ 32

abbrev pub page_size : ℕ
page_size = 4096

abbrev pub max_pages : ℕ
max_pages = 2 ^ 20

-- `INT_Memory`. A page's bytearray is made once and never replaced, so that the page's number
-- stands for the object: `hot_page_data` is the number of the page whose bytearray it is. `none`
-- is -1 in `_hot_page_num` and None in `_hot_page_data`.
pub record Memory : Type 0 where
  pub pages : ℕ → Option (List ℕ)
  pub r_pages : ℕ → Bool
  pub w_pages : ℕ → Bool
  pub heap_break : ℕ
  pub hot_page_num : Option ℕ
  pub hot_page_data : Option ℕ
  pub hot_page_writable : Bool

abbrev pub update {ℓ} : {A : Type ℓ} → (ℕ → A) → ℕ → A → ℕ → A
update f i a j = if i == j then a else f j

-- `self._pages.get(pg)`, with the shared zero page or a fresh one where there is none.
abbrev pub page_or_zero : Option (List ℕ) → List ℕ
page_or_zero none = replicate page_size 0
page_or_zero (some bytes) = bytes

abbrev pub matches : Option ℕ → ℕ → Bool
matches none pg = false
matches (some n) pg = n == pg

unfoldable pub readable : Memory → ℕ → Bool
readable m pg = m.r_pages pg || m.w_pages pg

-- `pg >= MAX_PAGES or not (self._r_pages[pg] or self._w_pages[pg])` is the negation of this.
unfoldable pub can_read : Memory → ℕ → Bool
unfolding readable
can_read m pg = ltb pg max_pages && readable m pg

unfoldable pub can_write : Memory → ℕ → Bool
can_write m pg = ltb pg max_pages && m.w_pages pg

-- One round of `_read_multipage` reads the part of a page that the range covers. The rounds end
-- when the address reaches `end`; each moves it on by at least one byte.
unfoldable pub read_multipage : ℕ → ℕ → ℕ → M Memory (List ℕ)
unfolding can_read readable
read_multipage zero address end m = Outcome.done [] m
read_multipage (suc fuel) address end m =
    let pg = address / page_size in
    let page_off = address % page_size in
    let chunk = min (page_size - page_off) (end - address) in
    let rest = (do
      tail ← read_multipage fuel (address + chunk) end
      pure (slice (page_or_zero (m.pages pg)) page_off chunk ++ tail)) in
    if ltb address end
    then if can_read m pg then rest m else raise (page_fault address) m
    else Outcome.done [] m

-- A read within a page, given `self._pages.get(pg)`. A page that is there becomes the hot page.
abbrev pub page_read : Option (List ℕ) → ℕ → ℕ → ℕ → M Memory (List ℕ)
page_read none pg address length m = Outcome.done (replicate length 0) m
page_read (some page_data) pg address length m =
    Outcome.done (slice page_data (address % page_size) length) (record m {
      hot_page_num = some pg;
      hot_page_data = some pg;
      hot_page_writable = m.w_pages pg;
    })

unfoldable pub read_single : ℕ → ℕ → ℕ → M Memory (List ℕ)
unfolding can_read readable
read_single pg address length m =
    if can_read m pg
    then page_read (m.pages pg) pg address length m
    else raise (page_fault address) m

-- The path behind the cache: a range within one page, or over several.
unfoldable pub read_cold : ℕ → ℕ → M Memory (List ℕ)
unfolding read_single read_multipage
read_cold address length m =
    if address / page_size == (address + length - 1) / page_size
    then read_single (address / page_size) address length m
    else read_multipage length address (address + length) m

-- A read in the page whose bytearray `_hot_page_data` is, or the cold path where that is None.
abbrev pub hot_read : Option ℕ → ℕ → ℕ → Outcome Memory (List ℕ) → M Memory (List ℕ)
hot_read none address length cold m = cold
hot_read (some n) address length cold m =
    Outcome.done (slice (page_or_zero (m.pages n)) (address % page_size) length) m

unfoldable pub read_at : ℕ → ℕ → M Memory (List ℕ)
unfolding read_cold
read_at address length m =
    let cold = read_cold address length m in
    if matches m.hot_page_num (address / page_size) && leb (address % page_size + length) page_size
    then hot_read m.hot_page_data address length cold m
    else cold

unfoldable pub read : ℕ → ℕ → M Memory (List ℕ)
unfolding read_at
read address length m =
    if length == 0 then Outcome.done [] m else read_at (address % addr_mod) length m

-- `page_data[page_off:page_off + len] = bytes` on the bytearray of a page.
unfoldable pub store_page : ℕ → ℕ → List ℕ → Memory → Memory
store_page pg page_off bytes m = record m {
  pages = update m.pages pg (some (splice (page_or_zero (m.pages pg)) page_off bytes));
}

unfoldable pub write_multipage : ℕ → ℕ → List ℕ → M Memory (Unit {0})
unfolding can_write store_page
write_multipage zero address bytes m = Outcome.done tt m
write_multipage (suc fuel) address bytes m =
    let pg = address / page_size in
    let page_off = address % page_size in
    let chunk = min (page_size - page_off) (length bytes) in
    let rest =
      write_multipage fuel (address + chunk) (drop chunk bytes)
        (store_page pg page_off (take chunk bytes) m) in
    if ltb 0 (length bytes)
    then if can_write m pg then rest else raise (page_fault address) m
    else Outcome.done tt m

unfoldable pub write_single : ℕ → ℕ → List ℕ → M Memory (Unit {0})
unfolding can_write store_page
write_single pg address bytes m =
    if can_write m pg
    then Outcome.done tt (
        store_page pg (address % page_size) bytes
          (record m { hot_page_num = some pg; hot_page_data = some pg; hot_page_writable = true }))
    else raise (page_fault address) m

unfoldable pub write_cold : ℕ → List ℕ → M Memory (Unit {0})
unfolding write_single write_multipage
write_cold address bytes m =
    if address / page_size == (address + length bytes - 1) / page_size
    then write_single (address / page_size) address bytes m
    else write_multipage (length bytes) address bytes m

abbrev pub hot_write : Option ℕ → ℕ → List ℕ → Outcome Memory (Unit {0}) → M Memory (Unit {0})
hot_write none address bytes cold m = cold
hot_write (some n) address bytes cold m =
    Outcome.done tt (store_page n (address % page_size) bytes m)

unfoldable pub write_at : ℕ → List ℕ → M Memory (Unit {0})
unfolding write_cold store_page
write_at address bytes m =
    let cold = write_cold address bytes m in
    if matches m.hot_page_num (address / page_size)
      && m.hot_page_writable
      && leb (address % page_size + length bytes) page_size
    then hot_write m.hot_page_data address bytes cold m
    else cold

unfoldable pub write : ℕ → List ℕ → M Memory (Unit {0})
unfolding write_at
write address bytes m =
    if length bytes == 0 then Outcome.done tt m else write_at (address % addr_mod) bytes m

abbrev pub same : Bool → Bool → Bool
same true c = c
same false c = not c

abbrev pub is_write : Accessibility → Bool
is_write Accessibility.write = true
is_write _ = false

abbrev pub is_read : Accessibility → Bool
is_read Accessibility.read = true
is_read _ = false

-- `self._r_pages[pg] = r` and `self._w_pages[pg] = w`.
abbrev pub set_rights : ℕ → Bool → Bool → Memory → Memory
set_rights pg r w m = record m { r_pages = update m.r_pages pg r; w_pages = update m.w_pages pg w }

-- One page of the loop in `alter_accessibility`.
unfoldable pub alter_page : Accessibility → ℕ → Memory → Memory
alter_page access pg m =
    let target_write = is_write access in
    let target_read = is_read access in
    if leb max_pages pg
    then m
    else if same (m.w_pages pg) target_write && same (m.r_pages pg) target_read
    then m
    else if target_write
    then set_rights pg false true m
    else if target_read
    then set_rights pg true false m
    else set_rights pg false false m

unfoldable pub alter_pages : Accessibility → List ℕ → Memory → Memory
unfolding alter_page
alter_pages access [] m = m
alter_pages access (pg ∷ pgs) m = alter_pages access pgs (alter_page access pg m)

abbrev pub cool : Memory → Memory
cool m = record m { hot_page_num = none; hot_page_data = none; hot_page_writable = false }

-- The second loop: the cache is dropped if its page is among those altered.
unfoldable pub invalidate_hot : List ℕ → Memory → Memory
invalidate_hot [] m = m
invalidate_hot (pg ∷ pgs) m =
    let rest = invalidate_hot pgs m in
    if ltb pg max_pages && matches m.hot_page_num pg then cool m else rest

unfoldable pub alter_accessibility : ℕ → ℕ → Accessibility → Memory → Memory
unfolding alter_pages invalidate_hot get_pages
alter_accessibility start len access m =
    let pages = get_pages start len in invalidate_hot pages (alter_pages access pages m)
