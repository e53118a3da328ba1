-- ===== src/Interpreter/Program/Init.antt =====
-- tsrkit_pvm/interpreter/program.py and core/program_base.py: `__post_init__`, which computes the
-- skip cache and the basic blocks of a program.
pub mod Skips
pub mod Blocks
use tsrkit_pvm.Prelude.{
  ℕ, zero, suc, ◌+◌, ◌-◌, min, Bool, true, false, ◌&&◌, List, [], ◌∷◌, ◌++◌, map, Option, none,
  some, ltb, if◌then◌else◌, length, get_elem?, drop, replicate, range,
}
use mathlib.Core.Option
use tsrkit_pvm.Interpreter.Program
use tsrkit_pvm.Interpreter.Program.{Program}
use tsrkit_pvm.Instructions.InstMap

-- `self._extended_bitmask` and `self.zeta`.
unfoldable pub extend_bitmask : List Bool → List Bool
extend_bitmask offset_bitmask = offset_bitmask ++ replicate 1000 true

unfoldable pub extend_instructions : List ℕ → List ℕ
extend_instructions instruction_set = instruction_set ++ replicate 1000 0

-- The inner loop over `j`: `k` is `j - i - 1`, `left` is the number of values of `j` to come, and
-- the list is `_extended_bitmask[j:]`.
unfoldable pub skip_loop : ℕ → ℕ → ℕ → List Bool → ℕ
skip_loop default k zero bits = default
skip_loop default k (suc left) [] = default
skip_loop default k (suc left) (x ∷ bits) = if x then k else skip_loop default (k + 1) left bits

unfoldable pub skip_value : List Bool → ℕ → ℕ
unfolding skip_loop extend_bitmask
skip_value offset_bitmask i =
    skip_loop (length offset_bitmask) 0 (length offset_bitmask - i)
      (drop (i + 1) (extend_bitmask offset_bitmask))

unfoldable pub skip_cache : List Bool → List ℕ
unfolding skip_value
skip_cache offset_bitmask =
    map (λ i. min 24 (skip_value offset_bitmask i)) (range 0 (length offset_bitmask))

abbrev pub is_defined : ℕ → Bool
is_defined opcode = elim (InstMap.dispatch opcode) [ none ↦ false | some _ ↦ true ]

-- Whether the instruction `opcode` ends a block, by the tests of `__post_init__`.
unfoldable pub ends_block : Bool → ℕ → Bool
unfolding InstMap.is_terminating
ends_block is_start opcode =
    is_start && InstMap.is_terminating opcode && ltb opcode 256 && is_defined opcode

-- The loop over `n` that collects the basic blocks; `none` is an IndexError of `offset_bitmask[n]`.
unfoldable pub blocks_loop : Program → ℕ → List ℕ → Option (List ℕ)
unfolding ends_block Program.skip
blocks_loop p n [] = some []
blocks_loop p n (opcode ∷ rest) = elim (get_elem? p.offset_bitmask n) [
  | none ↦ none
  | some is_start ↦
      Option.map
        (λ (blocks : List ℕ).
          if ends_block is_start opcode then (n + 1 + Program.skip p n) ∷ blocks else blocks)
        (blocks_loop p (n + 1) rest)
]

-- The program before its basic blocks are known.
unfoldable pub bare : ℕ → List ℕ → List ℕ → List Bool → Program
unfolding skip_cache extend_instructions extend_bitmask
bare z jump_table instruction_set offset_bitmask = record {
  z = z;
  jump_table = jump_table;
  instruction_set = instruction_set;
  offset_bitmask = offset_bitmask;
  zeta = extend_instructions instruction_set;
  extended_bitmask = extend_bitmask offset_bitmask;
  skip_cache = skip_cache offset_bitmask;
  basic_blocks = [];
}

unfoldable pub init : ℕ → List ℕ → List ℕ → List Bool → Option Program
unfolding bare blocks_loop
init z jump_table instruction_set offset_bitmask =
    let p = bare z jump_table instruction_set offset_bitmask in
    Option.map (λ (blocks : List ℕ). record p { basic_blocks = 0 ∷ blocks })
      (blocks_loop p 0 instruction_set)
