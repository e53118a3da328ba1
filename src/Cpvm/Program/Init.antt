-- ===== src/Cpvm/Program/Init.antt =====
-- cy_program.pyx: the constructor, which computes the skip cache and the basic blocks.
pub mod Agree
use tsrkit_pvm.Prelude.{
  ℕ, zero, suc, ◌+◌, ◌-◌, ◌*◌, ◌/◌, ◌%◌, ◌^◌, min, Bool, true, false, not, List, [], ◌∷◌, ◌++◌, map,
  Option, none, some, ltb, leb, ◌==◌, if◌then◌else◌, length, get_elem?, get_or, drop, replicate,
  range, slice, M, Outcome, pure, raise, ◌>>=◌, or_raise, crash, overflow_error,
}
use tsrkit_pvm.Core.ProgramBase
use tsrkit_pvm.Instructions.Machine.{from_bytes}
use tsrkit_pvm.Cpvm.Mapper
use tsrkit_pvm.Cpvm.Program
use tsrkit_pvm.Cpvm.Program.{CyProgram}

unfoldable pub extend_bitmask : List Bool → List Bool
extend_bitmask offset_bitmask = offset_bitmask ++ replicate 1000 true

-- The copy of the instructions into the C array, and the zeros behind them.
unfoldable pub extend_instructions : List ℕ → List ℕ
extend_instructions instruction_set = instruction_set ++ replicate 1000 0

-- The inner loop over `j`: `k` is `j - i - 1`, `left` is the number of values of `j` to come, and the
-- list is `_extended_bitmask[j:]`.
unfoldable pub skip_loop : ℕ → ℕ → ℕ → List Bool → ℕ
skip_loop skip_value k zero bits = skip_value
skip_loop skip_value k (suc left) [] = skip_value
skip_loop skip_value k (suc left) (x ∷ bits) =
    if x then k else skip_loop skip_value (k + 1) left bits

-- `j` ranges up to `min(bitmask_len + 1, extended_len)`, which is `bitmask_len + 1`.
unfoldable pub skip_value : List Bool → ℕ → ℕ
unfolding skip_loop extend_bitmask
skip_value offset_bitmask i =
    skip_loop (length offset_bitmask) 0 (length offset_bitmask - i)
      (drop (i + 1) (extend_bitmask offset_bitmask))

unfoldable pub skip_cache : List Bool → List ℕ
unfolding skip_value
skip_cache offset_bitmask =
    map (λ i. let v = skip_value offset_bitmask i in if ltb v 24 then v else 24)
      (range 0 (length offset_bitmask))

-- The loop over `i` that collects the basic blocks. Past the end of the list, `offset_bitmask[i]` is
-- read out of bounds. An opcode is a byte, and where the flag can be read the table is there.
unfoldable pub blocks_loop : List Bool → List ℕ → ℕ → List ℕ → M (Unit {0}) (List ℕ)
unfolding Mapper.is_terminating
blocks_loop offset_bitmask skips i [] = pure []
blocks_loop offset_bitmask skips i (opcode ∷ rest) = do
  is_start ← or_raise crash (get_elem? offset_bitmask i)
  ends ← elim is_start [ true ↦ Mapper.is_terminating opcode | false ↦ pure false ]
  blocks ← blocks_loop offset_bitmask skips (i + 1) rest
  pure (if ends then (i + 1 + get_or skips i 0) ∷ blocks else blocks)

-- `CyProgram(z, jump_table, instruction_set, offset_bitmask)`.
unfoldable pub init : ℕ → List ℕ → List ℕ → List Bool → M (Unit {0}) CyProgram
unfolding skip_cache extend_instructions extend_bitmask blocks_loop
init z jump_table instruction_set offset_bitmask = do
  blocks ← blocks_loop offset_bitmask (skip_cache offset_bitmask) 0 instruction_set
  pure (record {
    z = z;
    jump_table = jump_table;
    instruction_set = instruction_set;
    offset_bitmask = offset_bitmask;
    zeta = extend_instructions instruction_set;
    extended_bitmask = extend_bitmask offset_bitmask;
    skip_cache = skip_cache offset_bitmask;
    basic_blocks = 0 ∷ blocks;
  })
