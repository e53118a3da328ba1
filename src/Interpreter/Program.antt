-- ===== src/Interpreter/Program.antt =====
-- tsrkit_pvm/interpreter/program.py: jumps over a program. The constructor's caches are computed in
-- `Program.Init`, since they ask the dispatch table which opcodes end a block.
pub mod Init
pub mod Targets
use tsrkit_pvm.Prelude.{
  ℕ, ◌-◌, ◌/◌, ◌%◌, ◌^◌, Bool, false, not, ◌||◌, List, [], ◌∷◌, Option, none, some, leb, ◌==◌,
  if◌then◌else◌, length, get_elem?, get_or, ℤ, pos, negsuc, M, Outcome, panic,
}
use tsrkit_pvm.Common.Constants.{pvm_addr_alignment}
use tsrkit_pvm.Common.Status.{ExecutionStatus}

-- The fields of `Program` and of `INT_Program`, the caches included; `_basic_blocks_set` is the
-- set of the members of `basic_blocks`.
pub record Program : Type 0 where
  pub z : ℕ
  pub jump_table : List ℕ
  pub instruction_set : List ℕ
  pub offset_bitmask : List Bool
  pub zeta : List ℕ
  pub extended_bitmask : List Bool
  pub skip_cache : List ℕ
  pub basic_blocks : List ℕ

abbrev pub mem : ℕ → List ℕ → Bool
mem n [] = false
mem n (x ∷ xs) = n == x || mem n xs

-- `x in self._basic_blocks_set`, for an integer.
abbrev pub in_blocks : Program → ℤ → Bool
in_blocks p (pos n) = mem n p.basic_blocks
in_blocks p (negsuc n) = false

unfoldable pub skip : Program → ℕ → ℕ
skip p pc = get_or p.skip_cache pc 0

abbrev pub to_pc : ℤ → ℕ
to_pc (pos n) = n
to_pc (negsuc n) = 0

-- `branch` and `djump` give a status with a program counter, or raise PvmError(PANIC).
unfoldable pub branch : {S : Type 0} → Program → ℕ → ℤ → Bool → M S (ExecutionStatus × ℕ)
branch p counter target condition s =
    if not condition
    then Outcome.done (ExecutionStatus.continue, counter) s
    else if not (in_blocks p target)
    then Outcome.raised panic s
    else Outcome.done (ExecutionStatus.continue, to_pc target) s

-- The entry of the jump table, once the index is known to be in range.
unfoldable pub djump_entry : {S : Type 0} → Program → Option ℕ → M S (ExecutionStatus × ℕ)
djump_entry p none s = Outcome.raised panic s
djump_entry p (some target) s =
    if mem target p.basic_blocks
    then Outcome.done (ExecutionStatus.continue, target) s
    else Outcome.raised panic s

-- `index` is `a // 2 - 1`. It is -1 at 0 and 1 only, where the source panics by the first and the
-- third test; here the index then stops at 0, and the same tests panic.
unfoldable pub djump : {S : Type 0} → Program → ℕ → ℕ → M S (ExecutionStatus × ℕ)
unfolding djump_entry
djump p counter a s =
    let index = a / pvm_addr_alignment - 1 in
    if a == 2 ^ 32 - 2 ^ 16
    then Outcome.done (ExecutionStatus.halt, counter) s
    else if a == 0 || leb (length p.jump_table) index || not (a % pvm_addr_alignment == 0)
    then Outcome.raised panic s
    else djump_entry p (get_elem? p.jump_table index) s
