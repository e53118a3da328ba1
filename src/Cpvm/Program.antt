-- ===== src/Cpvm/Program.antt =====
-- tsrkit_pvm/cpvm/cy_program.pyx: jumps over a program. The constructor is in `Program.Init`, since
-- it asks the mapper which opcodes end a block.
pub mod Init
pub mod Jumps
use tsrkit_pvm.Prelude.{
  ℕ, ◌+◌, ◌-◌, ◌/◌, ◌%◌, ◌^◌, Bool, true, false, not, ◌||◌, List, Option, none, some, leb, ltb,
  ◌==◌, if◌then◌else◌, length, get_elem?, get_or, ℤ, pos, negsuc, M, Outcome, overflow_error,
}
use tsrkit_pvm.Common.Constants.{pvm_addr_alignment}
use tsrkit_pvm.Interpreter.Program.{mem}
use tsrkit_pvm.Cpvm.Words.{uint32, as_signed}
use tsrkit_pvm.Cpvm.Status.{pvm_panic, pvm_halt, exit_with}

-- `CyProgram`, without the blocks that the mapper caches; `_basic_blocks_set` is the set of the
-- members of `basic_blocks`. `zeta` and `skip_cache` are C arrays with their lengths.
pub record CyProgram : Type 0 where
  pub z : ℕ
  pub jump_table : List ℕ
  pub instruction_set : List ℕ
  pub offset_bitmask : List Bool
  pub zeta : List ℕ
  pub extended_bitmask : List Bool
  pub skip_cache : List ℕ
  pub basic_blocks : List ℕ

-- `pc < 0 or pc >= self._skip_cache_len` gives 0.
unfoldable pub skip : CyProgram → ℕ → ℕ
skip p pc = if leb (length p.skip_cache) pc then 0 else get_or p.skip_cache pc 0

-- The value by which a method says that execution goes on after the instruction.
abbrev pub no_branch : ℕ
no_branch = 0xFFFF_FFFF

abbrev pub in_blocks : CyProgram → ℤ → Bool
in_blocks p (pos n) = mem n p.basic_blocks
in_blocks p (negsuc n) = false

-- The target is converted to an `int32_t`, and back to a `uint32_t`.
unfoldable pub branch : {S : Type 0} → CyProgram → ℕ → ℕ → Bool → M S ℕ
branch p counter target cond s =
    if not cond
    then Outcome.done no_branch s
    else if not (in_blocks p (as_signed 32 (uint32 target)))
    then Outcome.raised (exit_with pvm_panic) s
    else Outcome.done (uint32 target) s

-- The entry of the jump table, which is converted to an `int32_t`.
unfoldable pub djump_entry : {S : Type 0} → CyProgram → Option ℕ → M S ℕ
djump_entry p none s = Outcome.raised (exit_with pvm_panic) s
djump_entry p (some target) s =
    if leb (2 ^ 31) target
    then Outcome.raised overflow_error s
    else if mem target p.basic_blocks
    then Outcome.done target s
    else Outcome.raised (exit_with pvm_panic) s

-- `a` is a `uint32_t`. `idx` is -1 at 0 and 1 only, where the second test panics; the test on its
-- upper bound is that of the look-up.
unfoldable pub djump : {S : Type 0} → CyProgram → ℕ → ℕ → M S ℕ
unfolding djump_entry
djump p counter a s =
    if a == 0xFFFF_FFFF - 0xFFFF
    then Outcome.raised (exit_with pvm_halt) s
    else if a == 0 || not (a % pvm_addr_alignment == 0)
    then Outcome.raised (exit_with pvm_panic) s
    else djump_entry p (get_elem? p.jump_table (a / pvm_addr_alignment - 1)) s
