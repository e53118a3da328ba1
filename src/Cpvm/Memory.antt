-- ===== src/Cpvm/Memory.antt =====
-- tsrkit_pvm/cpvm/cy_memory.pyx: pages in C buffers, with their rights in bitsets.
pub mod Init
pub mod Rights
pub mod Pages
pub mod Flat
pub mod Writes
pub mod Reachable
use tsrkit_pvm.Prelude.{
  ℕ, zero, suc, ◌+◌, ◌-◌, ◌*◌, ◌/◌, ◌%◌, ◌^◌, min, Bool, true, false, not, ◌&&◌, List, [], ◌∷◌,
  ◌++◌, Option, none, some, bit_and, bit_or, ltb, leb, ◌==◌, if◌then◌else◌, length, take, drop,
  replicate, slice, overwrite, M, Outcome, ◌>>=◌, pvm_exit, ℤ, get_or,
}
use tsrkit_pvm.Common.Constants.{Accessibility}
use tsrkit_pvm.Interpreter.Memory.{update, page_size, max_pages, page_or_zero, is_write, is_read}
use tsrkit_pvm.Cpvm.Words.{uint32, bit_not}
use tsrkit_pvm.Cpvm.Utils.{page_count}
use tsrkit_pvm.Cpvm.Status.{pvm_page_fault}

-- `CyMemory`. A page's buffer is made once and never replaced, so that `pages` maps its number to
-- the buffer's bytes. `r_pages` and `w_pages` are the Python sets, in which only the constructor and
-- `from_pc` look; the bitsets are arrays of 16384 words of 64 bits. `heap_break` is a C `int`.
pub record CyMemory : Type 0 where
  pub pages : ℕ → Option (List ℕ)
  pub r_pages : List ℕ
  pub w_pages : List ℕ
  pub r_bitset : ℕ → ℕ
  pub w_bitset : ℕ → ℕ
  pub heap_break : ℤ

-- `(_r_bitset[word_idx] | _w_bitset[word_idx]) & mask` and its kin: the bit `bit_idx` of a word.
unfoldable pub test_bit : ℕ → ℕ → Bool
test_bit word bit_idx = not (bit_and word (2 ^ bit_idx) == 0)

-- A right is asked for by ACC_WRITE, or else by ACC_READ.
unfoldable pub has_access : CyMemory → ℕ → Accessibility → Bool
unfolding test_bit
has_access m page_idx mode =
    let word_idx = page_idx / 64 in
    let bit_idx = page_idx % 64 in
    if leb max_pages page_idx
    then false
    else if is_write mode
    then test_bit (m.w_bitset word_idx) bit_idx
    else test_bit (bit_or (m.r_bitset word_idx) (m.w_bitset word_idx)) bit_idx

-- `word |= mask` or `word &= ~mask`.
unfoldable pub put_bit : ℕ → ℕ → Bool → ℕ
unfolding bit_not
put_bit word bit_idx value =
    if value then bit_or word (2 ^ bit_idx) else bit_and word (bit_not 64 (2 ^ bit_idx))

unfoldable pub set_access : ℕ → Accessibility → Bool → CyMemory → CyMemory
unfolding put_bit
set_access page_idx mode value m =
    let word_idx = page_idx / 64 in
    let bit_idx = page_idx % 64 in
    if leb max_pages page_idx
    then m
    else if is_write mode
    then record m {
      w_bitset = update m.w_bitset word_idx (put_bit (m.w_bitset word_idx) bit_idx value);
    }
    else if is_read mode
    then record m {
      r_bitset = update m.r_bitset word_idx (put_bit (m.r_bitset word_idx) bit_idx value);
    }
    else m

-- The loop from page `start_page` on; a page number is a `uint32_t`.
unfoldable pub set_access_range : ℕ → ℕ → Accessibility → Bool → CyMemory → CyMemory
unfolding set_access
set_access_range start_page zero mode value m = m
set_access_range start_page (suc num_pages) mode value m =
    set_access_range (uint32 (start_page + 1)) num_pages mode value
      (set_access (uint32 start_page) mode value m)

-- The loop from page `start_page` on; the address reported is the one that was asked for.
unfoldable pub check_access : ℕ → ℕ → Accessibility → ℕ → M CyMemory (Unit {0})
unfolding has_access
check_access start_page zero mode fault_addr m = Outcome.done tt m
check_access start_page (suc num_pages) mode fault_addr m =
    let rest = check_access (uint32 (start_page + 1)) num_pages mode fault_addr m in
    if has_access m (uint32 start_page) mode
    then rest
    else Outcome.raised (pvm_exit pvm_page_fault fault_addr) m

-- `_get_page_range`: the number of pages that `length` bytes from `start_addr` on touch. The end
-- wraps around at 2 ^ 32.
unfoldable pub num_pages : ℕ → ℕ → ℕ
unfolding page_count
num_pages start_addr length =
    page_count (start_addr / 2 ^ 12) (uint32 (start_addr + length + 2 ^ 32 - 1) / 2 ^ 12)

unfoldable pub alter_accessibility : ℕ → ℕ → Accessibility → CyMemory → CyMemory
unfolding num_pages set_access_range
alter_accessibility start_addr length access m =
    let start_page = start_addr / 2 ^ 12 in
    let count = num_pages start_addr length in
    if is_write access
    then set_access_range start_page count Accessibility.read false
        (set_access_range start_page count Accessibility.write true m)
    else if is_read access
    then set_access_range start_page count Accessibility.write false
        (set_access_range start_page count Accessibility.read true m)
    else set_access_range start_page count Accessibility.write false
        (set_access_range start_page count Accessibility.read false m)

-- Bytes copied into the buffer of a page, which is made if it is absent (`_get_cpage(pg, True)`). C
-- does not look at the buffer's end: bytes behind it make the list of the page longer than a page.
unfoldable pub store_page : ℕ → ℕ → List ℕ → CyMemory → CyMemory
store_page pg off bytes m = record m {
  pages = update m.pages pg (some (overwrite (page_or_zero (m.pages pg)) off bytes));
}

unfoldable pub set_byte : ℕ → ℕ → CyMemory → CyMemory
unfolding store_page
set_byte addr value m = store_page (addr / 2 ^ 12) (addr % 2 ^ 12) (value ∷ []) m

-- The loop of `read` at address `cur` with `remaining` bytes to go, at least one of which each round
-- takes.
unfoldable pub read_loop : ℕ → ℕ → ℕ → CyMemory → List ℕ
read_loop zero cur remaining m = []
read_loop (suc fuel) cur remaining m =
    let chunk_size = min (page_size - cur % 2 ^ 12) remaining in
    let rest = read_loop fuel (uint32 (cur + chunk_size)) (remaining - chunk_size) m in
    if ltb 0 remaining
    then slice (page_or_zero (m.pages (cur / 2 ^ 12))) (cur % 2 ^ 12) chunk_size ++ rest
    else []

-- Behind the test on the length; the address is a `uint32_t`.
unfoldable pub read_at : ℕ → ℕ → M CyMemory (List ℕ)
unfolding num_pages check_access read_loop
read_at address len m =
    (check_access (address / 2 ^ 12) (num_pages address len) Accessibility.read address >>= λ _ m'.
    Outcome.done (read_loop len address len m') m')
      m

-- `length` is a C `int`; a negative one reads as 0 does.
unfoldable pub read : ℕ → ℕ → M CyMemory (List ℕ)
unfolding read_at
read address len m = if leb len 0 then Outcome.done [] m else read_at (uint32 address) len m

-- The loop of `write` at address `cur` with the bytes to go.
unfoldable pub write_loop : ℕ → ℕ → List ℕ → CyMemory → CyMemory
unfolding store_page
write_loop zero cur bytes m = m
write_loop (suc fuel) cur bytes m =
    let chunk = min (page_size - cur % 2 ^ 12) (length bytes) in
    let rest =
      write_loop fuel (uint32 (cur + chunk)) (drop chunk bytes)
        (store_page (cur / 2 ^ 12) (cur % 2 ^ 12) (take chunk bytes) m) in
    if length bytes == 0 then m else rest

unfoldable pub write_at : ℕ → List ℕ → M CyMemory (Unit {0})
unfolding num_pages check_access write_loop
write_at address bytes m =
    (check_access (address / 2 ^ 12) (num_pages address (length bytes)) Accessibility.write address
        >>= λ _ m'. Outcome.done tt (write_loop (length bytes) address bytes m'))
      m

unfoldable pub write : ℕ → List ℕ → M CyMemory (Unit {0})
unfolding write_at
write address bytes m =
    if length bytes == 0 then Outcome.done tt m else write_at (uint32 address) bytes m

unfoldable pub get_byte : ℕ → CyMemory → ℕ
get_byte addr m = get_or (page_or_zero (m.pages (addr / 2 ^ 12))) (addr % 2 ^ 12) 0

-- The loop of `_is_accessible_c`.
unfoldable pub accessible_loop : ℕ → ℕ → Accessibility → CyMemory → Bool
unfolding has_access
accessible_loop start_page zero access m = true
accessible_loop start_page (suc count) access m =
    let rest = accessible_loop (uint32 (start_page + 1)) count access m in
    if has_access m (uint32 start_page) access then rest else false

unfoldable pub is_accessible : ℕ → ℕ → Accessibility → CyMemory → Bool
unfolding accessible_loop num_pages
is_accessible address len access m =
    if leb len 0 then true else accessible_loop (address / 2 ^ 12) (num_pages address len) access m
