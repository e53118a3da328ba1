-- ===== src/Interpreter/Memory/Init.antt =====
-- tsrkit_pvm/interpreter/memory.py: the constructor, `from_pc`, `zero_memory_range` and
-- `is_accessible`.
use tsrkit_pvm.Prelude.{
  ℕ, ◌+◌, ◌-◌, ◌*◌, ◌/◌, ◌%◌, ◌^◌, Bool, true, false, ◌&&◌, ◌||◌, List, [], ◌∷◌, ◌++◌, Option, none,
  some, ℤ, pos, negsuc, sub_ℕ, index_error, ltb, leb, if◌then◌else◌, length, replicate, range, M,
  Outcome, raise, value_error,
}
use tsrkit_pvm.Common.Constants.{Accessibility, pvm_init_zone_size, pvm_init_data_size}
use tsrkit_pvm.Common.Utils.{get_pages, total_page_size, total_zone_size}
use tsrkit_pvm.Interpreter.Memory.{Memory, update, page_size, max_pages, readable, store_page}

unfoldable pub allow : List ℕ → (ℕ → Bool) → ℕ → Bool
allow [] f = f
allow (pg ∷ pgs) f = allow pgs (if ltb pg max_pages then update f pg true else f)

-- `_bulk_load_sparse`, cell by cell. A Python dictionary holds each address once, so that the
-- order in which the cells are stored, which `sorted` fixes, does not show in the result.
unfoldable pub bulk_load_sparse : List (ℕ × ℕ) → M Memory (Unit {0})
unfolding store_page
bulk_load_sparse [] m = Outcome.done tt m
bulk_load_sparse ((addr, val) ∷ cells) m =
    let rest =
      bulk_load_sparse cells (store_page (addr / page_size) (addr % page_size) (val ∷ []) m) in
    if leb val 255 then rest else raise value_error m

abbrev pub blank : (ℕ → Bool) → (ℕ → Bool) → ℕ → Memory
blank r w heap = record {
  pages = λ _. none;
  r_pages = r;
  w_pages = w;
  heap_break = heap;
  hot_page_num = none;
  hot_page_data = none;
  hot_page_writable = false;
}

-- `INT_Memory(data, allowed_read_pages, allowed_write_pages, heap)`.
unfoldable pub init : List (ℕ × ℕ) → List ℕ → List ℕ → ℕ → Outcome Memory (Unit {0})
unfolding allow bulk_load_sparse
init cells allowed_read_pages allowed_write_pages heap =
    bulk_load_sparse cells
      (blank (allow allowed_read_pages (λ _. false)) (allow allowed_write_pages (λ _. false)) heap)

-- `memory[start + i] = int(byt)` for each byte of a blob.
unfoldable pub place : ℕ → List ℕ → List (ℕ × ℕ)
place start [] = []
place start (x ∷ xs) = (start, x) ∷ place (start + 1) xs

abbrev pub last_or : ℕ → List ℕ → ℕ
last_or d [] = d
last_or d (x ∷ xs) = last_or x xs

-- `page_data[:] = b"\x00" * PAGE_SIZE` for each page of the range.
unfoldable pub zero_pages : List ℕ → Memory → Memory
zero_pages [] m = m
zero_pages (pg ∷ pgs) m =
    zero_pages pgs (record m { pages = update m.pages pg (some (replicate page_size 0)) })

unfoldable pub zero_memory_range : ℕ → ℕ → Memory → Memory
unfolding zero_pages
zero_memory_range start_page num_pages m = zero_pages (range start_page num_pages) m

unfoldable pub write_start : List ℕ → ℕ
unfolding total_zone_size
write_start rd = 2 * pvm_init_zone_size + total_zone_size (length rd)

unfoldable pub write_pages : List ℕ → List ℕ → ℕ → List ℕ
unfolding write_start get_pages total_page_size
write_pages rd wr z = get_pages (write_start rd) (total_page_size (length wr) + z * page_size)

-- `write_pages[-1]`; `get_pages` never returns an empty list.
unfoldable pub heap_start : List ℕ → List ℕ → ℕ → ℕ
unfolding write_pages
heap_start rd wr z = (last_or 0 (write_pages rd wr z) + 1) * page_size

unfoldable pub arg_start : ℕ
arg_start = 2 ^ 32 - pvm_init_zone_size - pvm_init_data_size

-- `2**32 - 2 * PVM_INIT_ZONE_SIZE - PVM_INIT_DATA_SIZE - total_page_size(s)`, an int that can be
-- negative.
unfoldable pub stack_start : ℕ → ℤ
unfolding total_page_size
stack_start s = sub_ℕ (2 ^ 32 - 2 * pvm_init_zone_size - pvm_init_data_size) (total_page_size s)

-- `get_pages` of a stack that starts at the int `start`, as positions of the bitarray of rights. A
-- page below 0 counts from the array's end, and one below -MAX_PAGES is an IndexError, which is
-- `none`. `>>` rounds down. After the pages below 0 come those from 0 to
-- the end of the range.
unfoldable pub index_pages : ℤ → ℕ → Option (List ℕ)
unfolding get_pages
index_pages (pos start) len = some (get_pages start len)
index_pages (negsuc k) len =
    let below = k / 2 ^ 12 + 1 in
    let above = (len - (k + 1) + 2 ^ 12 - 1) / 2 ^ 12 in
    if leb below max_pages then some (range (max_pages - below) below ++ range 0 above) else none

-- What is left of `from_pc` once the pages of the stack are known.
unfoldable pub start_memory :
    List ℕ → List ℕ → List ℕ → ℕ → Option (List ℕ) → Outcome Memory (Unit {0})
unfolding init place write_start write_pages heap_start arg_start get_pages
start_memory rd wr args z none = Outcome.raised index_error (blank (λ _. false) (λ _. false) 0)
start_memory rd wr args z (some stack_pages) =
    init (place pvm_init_zone_size rd ++ place (write_start rd) wr ++ place arg_start args)
      (get_pages pvm_init_zone_size (total_page_size (length rd))
        ++ get_pages arg_start (total_page_size (length args)))
      (write_pages rd wr z ++ stack_pages) (heap_start rd wr z)

-- `from_pc(read, write, args, z, s)`.
unfoldable pub from_pc : List ℕ → List ℕ → List ℕ → ℕ → ℕ → Outcome Memory (Unit {0})
unfolding start_memory stack_start index_pages
from_pc rd wr args z s = start_memory rd wr args z (index_pages (stack_start s) (total_page_size s))

unfoldable pub all_pages : (ℕ → Bool) → List ℕ → Bool
all_pages ok [] = true
all_pages ok (pg ∷ pgs) = (leb max_pages pg || ok pg) && all_pages ok pgs

unfoldable pub is_accessible : ℕ → ℕ → Accessibility → Memory → Bool
unfolding all_pages get_pages readable
is_accessible address len access m = if leb len 0 then true else (elim access [
  | Accessibility.write ↦ all_pages m.w_pages (get_pages address len)
  | Accessibility.read ↦ all_pages (readable m) (get_pages address len)
  | Accessibility.null ↦ true
])
