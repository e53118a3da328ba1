-- ===== src/Cpvm/Memory/Init.antt =====
-- cy_memory.pyx: the constructor, `from_pc` and `zero_memory_range`.
use tsrkit_pvm.Prelude.{
  ℕ, ◌+◌, ◌-◌, ◌*◌, ◌^◌, true, List, [], ◌∷◌, ◌++◌, none, some, ltb, leb, ◌||◌, if◌then◌else◌,
  length, replicate, range, M, Outcome, pure, raise, ◌>>=◌, overflow_error, ℤ, pos,
}
use tsrkit_pvm.Common.Constants.{Accessibility, pvm_init_zone_size, pvm_init_data_size}
use tsrkit_pvm.Interpreter.Memory.{update, page_size}
use tsrkit_pvm.Interpreter.Memory.Init.{last_or}
use tsrkit_pvm.Cpvm.Words.{uint32}
use tsrkit_pvm.Cpvm.Utils.{get_pages, total_page_size, total_zone_size}
use tsrkit_pvm.Cpvm.Memory.{CyMemory, set_access, set_byte}

-- `_set_access_c(pg, mode, True)` for each page of a set.
unfoldable pub allow : Accessibility → List ℕ → CyMemory → CyMemory
unfolding set_access
allow mode [] m = m
allow mode (pg ∷ pgs) m = allow mode pgs (set_access pg mode true m)

-- `_sync_bitsets_from_sets`, which clears the bitsets first (`_clear_bitsets`).
unfoldable pub sync_bitsets_from_sets : CyMemory → CyMemory
unfolding allow
sync_bitsets_from_sets m =
    allow Accessibility.write m.w_pages
      (allow Accessibility.read m.r_pages (record m { r_bitset = λ _. 0; w_bitset = λ _. 0 }))

-- `for addr, val in data.items()`; the conversions to C raise an OverflowError.
unfoldable pub load : List (ℕ × ℕ) → M CyMemory (Unit {0})
unfolding set_byte
load [] m = Outcome.done tt m
load ((addr, val) ∷ cells) m =
    let rest = load cells (set_byte addr val m) in
    if leb (2 ^ 32) addr || leb 256 val then Outcome.raised overflow_error m else rest

abbrev pub blank : List ℕ → List ℕ → ℤ → CyMemory
blank r w heap = record {
  pages = λ _. none;
  r_pages = r;
  w_pages = w;
  r_bitset = λ _. 0;
  w_bitset = λ _. 0;
  heap_break = heap;
}

-- `CyMemory(data, allowed_read_pages, allowed_write_pages, heap)`.
unfoldable pub init : List (ℕ × ℕ) → List ℕ → List ℕ → ℤ → Outcome CyMemory (Unit {0})
unfolding sync_bitsets_from_sets load
init cells allowed_read_pages allowed_write_pages heap =
    load cells (sync_bitsets_from_sets (blank allowed_read_pages allowed_write_pages heap))

-- `mem._set_byte(start + i, b)` for each byte of a blob; the address is converted to a C `uint32_t`.
unfoldable pub place : ℕ → List ℕ → M CyMemory (Unit {0})
unfolding set_byte
place start [] m = Outcome.done tt m
place start (x ∷ xs) m =
    let rest = place (start + 1) xs (set_byte start x m) in
    if leb (2 ^ 32) start then Outcome.raised overflow_error m else rest

unfoldable pub write_start : List ℕ → ℕ
unfolding total_zone_size
write_start rd = 2 * pvm_init_zone_size + total_zone_size (length rd)

unfoldable pub write_pages : List ℕ → List ℕ → ℕ → List ℕ
unfolding write_start get_pages total_page_size
write_pages rd wr z =
    get_pages (write_start rd) (uint32 (total_page_size (length wr) + z * page_size))

-- `w_pages[len(w_pages) - 1]`; `get_pages` never returns an empty list.
unfoldable pub heap_start : List ℕ → List ℕ → ℕ → ℕ
unfolding write_pages
heap_start rd wr z = (last_or 0 (write_pages rd wr z) + 1) * page_size

unfoldable pub stack_start : ℕ → ℕ
unfolding total_page_size
stack_start s = 2 ^ 32 - 2 * pvm_init_zone_size - pvm_init_data_size - total_page_size s

unfoldable pub arg_start : ℕ
arg_start = 2 ^ 32 - pvm_init_zone_size - pvm_init_data_size

-- `from_pc(read, write, args, z, s)`. The heap break is converted to a C `int`. The memory has the
-- sets of pages from the start, which `_set_byte` does not look at.
unfoldable pub from_pc : List ℕ → List ℕ → List ℕ → ℕ → ℕ → Outcome CyMemory (Unit {0})
unfolding sync_bitsets_from_sets place write_start write_pages heap_start stack_start arg_start
    get_pages total_page_size
from_pc rd wr args z s =
    (place pvm_init_zone_size rd >>= λ _. place (write_start rd) wr >>= λ _.
    (if ltb (heap_start rd wr z) (2 ^ 31) then pure tt else raise overflow_error) >>= λ _.
    place arg_start args >>= λ _ m. Outcome.done tt (sync_bitsets_from_sets m))
      (blank
        (get_pages pvm_init_zone_size (total_page_size (length rd))
          ++ get_pages arg_start (total_page_size (length args)))
        (write_pages rd wr z ++ get_pages (stack_start s) (total_page_size s))
        (pos (heap_start rd wr z)))

-- `memset(buf, 0, PAGE_SIZE)` for each page of the range.
unfoldable pub zero_pages : List ℕ → CyMemory → CyMemory
zero_pages [] m = m
zero_pages (pg ∷ pgs) m =
    zero_pages pgs (record m { pages = update m.pages pg (some (replicate page_size 0)) })

unfoldable pub zero_memory_range : ℕ → ℕ → CyMemory → CyMemory
unfolding zero_pages
zero_memory_range start_page count m = zero_pages (range start_page count) m
