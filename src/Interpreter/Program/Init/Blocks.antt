-- ===== src/Interpreter/Program/Init/Blocks.antt =====
-- program.py: the basic blocks of a program.
use tsrkit_pvm.Prelude.{
  ℕ, zero, suc, ◌+◌, Bool, true, false, List, [], ◌∷◌, Option, none, some, ◌==◌, ==_iff, ==_refl,
  if◌then◌else◌, if-elim, get_elem?, ◌≡◌, refl, sym, ap, ◌∙◌, arith, ◌⊎◌, ◌↔◌, inl, inr, Bool-cases,
}
use mathlib.Core.Option
use mathlib.Core.Option.{some-injective, none-ne-some}
use mathlib.Core.Path.{subst}
use tsrkit_pvm.Interpreter.Program
use tsrkit_pvm.Interpreter.Program.{Program, mem}
use tsrkit_pvm.Interpreter.Program.Init.{blocks_loop, ends_block, init, bare}

-- A position after the instruction at `i` that ends a block: `ops` are the opcodes from `n` on.
abbrev pub IsStart : Program → ℕ → List ℕ → ℕ → Type 0
IsStart p n ops x =
    (i opcode : ℕ) × (get_elem? ops i ≡ some opcode)
    × (get_elem? p.offset_bitmask (n + i) ≡ some true)
    × (ends_block true opcode ≡ true)
    × (x ≡ n + i + 1 + Program.skip p (n + i))

ends_block→is_start :
    (is_start : Bool) (opcode : ℕ) → ends_block is_start opcode ≡ true → is_start ≡ true
unfolding ends_block
ends_block→is_start true opcode e = refl
ends_block→is_start false opcode e = e

IsStart-later :
    (p : Program) (n opcode : ℕ) (ops : List ℕ) (x : ℕ)
    → IsStart p (n + 1) ops x
    → IsStart p n (opcode ∷ ops) x
IsStart-later p n opcode ops x (i, op, e, b, t, v) =
    let same : n + suc i ≡ n + 1 + i = omega arith in (suc i, op, e, rw same b, t, rw same v)

-- One round.
abbrev add_block : Program → ℕ → ℕ → Bool → List ℕ → List ℕ
add_block p n opcode is_start blocks =
    if ends_block is_start opcode then (n + 1 + Program.skip p n) ∷ blocks else blocks

blocks_loop-cons :
    (p : Program) (n opcode : ℕ) (ops blocks : List ℕ)
    → blocks_loop p n (opcode ∷ ops) ≡ some blocks
    → (is_start : Bool) × (rest : List ℕ) × (get_elem? p.offset_bitmask n ≡ some is_start)
      × (blocks_loop p (n + 1) ops ≡ some rest)
      × (blocks ≡ add_block p n opcode is_start rest)
unfolding blocks_loop
blocks_loop-cons p n opcode ops blocks e =
    go (get_elem? p.offset_bitmask n) (blocks_loop p (n + 1) ops) refl refl e
  where
    go :
        (o : Option Bool) (r : Option (List ℕ))
        → get_elem? p.offset_bitmask n ≡ o
        → blocks_loop p (n + 1) ops ≡ r
        → ◌≡◌ {A = Option (List ℕ)}
            (elim o [ none ↦ none | some is_start ↦ Option.map (add_block p n opcode is_start) r ])
            (some blocks)
        → (is_start : Bool) × (rest : List ℕ) × (get_elem? p.offset_bitmask n ≡ some is_start)
          × (blocks_loop p (n + 1) ops ≡ some rest)
          × (blocks ≡ add_block p n opcode is_start rest)
    go none r eo er e = absurd (none-ne-some blocks e)
    go (some is_start) none eo er e = absurd (none-ne-some blocks e)
    go (some is_start) (some rest) eo er e = (is_start, rest, eo, er, sym (some-injective _ _ e))

mem-add_block :
    (p : Program) (n opcode : ℕ) (is_start : Bool) (rest : List ℕ) (x : ℕ)
    → mem x (add_block p n opcode is_start rest) ≡ true
    → ((ends_block is_start opcode ≡ true) × (x ≡ n + 1 + Program.skip p n)) ⊎ (mem x rest ≡ true)
mem-add_block p n opcode is_start rest x h = elim (Bool-cases (ends_block is_start opcode)) [
  | inr skips ↦ inr (rw skips at h)
  | inl ends ↦ elim (Bool-cases (x == (n + 1 + Program.skip p n))) [
    | inl here ↦ inl (ends, (==_iff x (n + 1 + Program.skip p n)).0 here)
    | inr there ↦ inr (rw (ends, there) at h)
  ]
]

add_block-mem :
    (p : Program) (n opcode : ℕ) (is_start : Bool) (rest : List ℕ) (x : ℕ)
    → mem x rest ≡ true
    → mem x (add_block p n opcode is_start rest) ≡ true
add_block-mem p n opcode is_start rest x h =
    if-elim (λ bs. mem x bs ≡ true) (ends_block is_start opcode) (λ _. ground arith) (λ _. h)

blocks_loop-nil :
    (p : Program) (n : ℕ) (blocks : List ℕ) (x : ℕ)
    → blocks_loop p n [] ≡ some blocks
    → mem x blocks ≡ true
    → ⊥
unfolding blocks_loop
blocks_loop-nil p n blocks x e h = never (rw (← some-injective [] blocks e) at h)
  where
    never : false ≡ true → ⊥
    never e = cc

add_block-here :
    (p : Program) (n opcode : ℕ) (is_start : Bool) (rest : List ℕ) (x : ℕ)
    → ends_block is_start opcode ≡ true
    → x ≡ n + 1 + Program.skip p n
    → mem x (add_block p n opcode is_start rest) ≡ true
add_block-here p n opcode is_start rest x ends v =
    rw (ends, v, ==_refl (n + 1 + Program.skip p n)) refl

-- Every block that the loop collects starts after an instruction that ends one.
blocks_loop-IsStart :
    (p : Program) (n : ℕ) (ops blocks : List ℕ) (x : ℕ)
    → blocks_loop p n ops ≡ some blocks
    → mem x blocks ≡ true
    → IsStart p n ops x
blocks_loop-IsStart p n [] blocks x e h = absurd (blocks_loop-nil p n blocks x e h)
blocks_loop-IsStart p n (opcode ∷ ops) blocks x e h =
    let (is_start, rest, bit, er, eb) = blocks_loop-cons p n opcode ops blocks e in
    elim (mem-add_block p n opcode is_start rest x (subst (λ bs. mem x bs ≡ true) eb h)) [
      | inr later ↦
          IsStart-later p n opcode ops x (blocks_loop-IsStart p (n + 1) ops rest x er later)
      | inl (ends, v) ↦
          let start : is_start ≡ true = ends_block→is_start is_start opcode ends in
          let same : n + 0 ≡ n = omega arith in
          let bit' : get_elem? p.offset_bitmask (n + 0) ≡ some true =
            rw same (bit ∙ ap some start) in
          (0, opcode, refl, bit', subst (λ b. ends_block b opcode ≡ true) start ends, rw same v)
    ]

-- It collects them all.
IsStart-blocks_loop :
    (p : Program) (n : ℕ) (ops blocks : List ℕ) (x i opcode : ℕ)
    → blocks_loop p n ops ≡ some blocks
    → get_elem? ops i ≡ some opcode
    → get_elem? p.offset_bitmask (n + i) ≡ some true
    → ends_block true opcode ≡ true
    → x ≡ n + i + 1 + Program.skip p (n + i)
    → mem x blocks ≡ true
IsStart-blocks_loop p n [] blocks x i opcode e eo eb et ev = absurd (none-ne-some opcode eo)
IsStart-blocks_loop p n (op ∷ ops) blocks x zero opcode e eo eb et ev =
    let (is_start, rest, bit, er, el) = blocks_loop-cons p n op ops blocks e in
    let same : n + 0 ≡ n = omega arith in
    let start : is_start ≡ true =
      some-injective is_start true (sym bit ∙ ap (get_elem? p.offset_bitmask) (sym same) ∙ eb) in
    let op_same : op ≡ opcode = some-injective op opcode eo in
    rw (el, start)
      (add_block-here p n op true rest x (rw op_same et)
        (ev ∙ ap (λ k. k + 1 + Program.skip p k) same))
IsStart-blocks_loop p n (op ∷ ops) blocks x (suc i) opcode e eo eb et ev =
    let (is_start, rest, bit, er, el) = blocks_loop-cons p n op ops blocks e in
    let same : n + 1 + i ≡ n + suc i = omega arith in
    rw el (
      add_block-mem p n op is_start rest x
        (IsStart-blocks_loop p (n + 1) ops rest x i opcode er eo (rw same eb) et (rw same ev)))

-- The loop does not look at the blocks of the program.
blocks_loop-bare :
    (b : Program) (blocks : List ℕ) (n : ℕ) (ops : List ℕ)
    → blocks_loop (record b { basic_blocks = blocks }) n ops ≡ blocks_loop b n ops
unfolding blocks_loop Program.skip
blocks_loop-bare b blocks n [] = refl
blocks_loop-bare b blocks n (opcode ∷ ops) =
    ap
      (λ r. elim (get_elem? b.offset_bitmask n) as (λ _. Option (List ℕ)) [
        | none ↦ none
        | some is_start ↦ Option.map (add_block b n opcode is_start) r
      ])
      (blocks_loop-bare b blocks (n + 1) ops)

-- The blocks of a program, and those that the loop collects.
init-blocks_loop :
    (z : ℕ) (jump_table ops : List ℕ) (bitmask : List Bool) (p : Program)
    → init z jump_table ops bitmask ≡ some p
    → (blocks : List ℕ) × (blocks_loop p 0 ops ≡ some blocks) × (p.basic_blocks ≡ 0 ∷ blocks)
unfolding init
init-blocks_loop z jump_table ops bitmask p e = go (blocks_loop b 0 ops) refl e
  where
    b : Program
    b = bare z jump_table ops bitmask

    go :
        (r : Option (List ℕ))
        → blocks_loop b 0 ops ≡ r
        → Option.map (λ (blocks : List ℕ). record b { basic_blocks = 0 ∷ blocks }) r ≡ some p
        → (blocks : List ℕ) × (blocks_loop p 0 ops ≡ some blocks) × (p.basic_blocks ≡ 0 ∷ blocks)
    go none er ep = absurd (none-ne-some p ep)
    go (some blocks) er ep =
        let same : record b { basic_blocks = 0 ∷ blocks } ≡ p = some-injective _ _ ep in
        (
          blocks,
          ap (λ q. blocks_loop q 0 ops) (sym same) ∙ blocks_loop-bare b blocks 0 ops ∙ er,
          ap (λ (q : Program). q.basic_blocks) (sym same),
        )

-- If a program is made, its basic blocks start at 0 and at the positions after the instructions
-- that the bitmask marks and whose opcode ends a block, and nowhere else.
pub init-IsStart :
    (z : ℕ) (jump_table ops : List ℕ) (bitmask : List Bool) (p : Program) (x : ℕ)
    → init z jump_table ops bitmask ≡ some p
    → (mem x p.basic_blocks ≡ true) ↔ ((x ≡ 0) ⊎ IsStart p 0 ops x)
init-IsStart z jump_table ops bitmask p x e =
    let (blocks, el, eb) = init-blocks_loop z jump_table ops bitmask p e in
    (
      λ h. to blocks el (subst (λ bs. mem x bs ≡ true) eb h),
      λ t. subst (λ bs. mem x bs ≡ true) (sym eb) (from blocks el t),
    )
  where
    to :
        (blocks : List ℕ)
        → blocks_loop p 0 ops ≡ some blocks
        → mem x (0 ∷ blocks) ≡ true
        → (x ≡ 0) ⊎ IsStart p 0 ops x
    to blocks el h = elim (Bool-cases (x == 0)) [
      | inl zero_here ↦ inl ((==_iff x 0).0 zero_here)
      | inr other ↦ inr (blocks_loop-IsStart p 0 ops blocks x el (rw other at h))
    ]

    from :
        (blocks : List ℕ)
        → blocks_loop p 0 ops ≡ some blocks
        → (x ≡ 0) ⊎ IsStart p 0 ops x
        → mem x (0 ∷ blocks) ≡ true
    from blocks el (inl v) = rw (v, ==_refl 0) refl
    from blocks el (inr (i, opcode, eo, eb, et, ev)) =
        let found : mem x blocks ≡ true =
          IsStart-blocks_loop p 0 ops blocks x i opcode el eo eb et ev in
        ground arith
