-- ===== src/Instructions/InstMap/BlockCache.antt =====
-- inst_map.py: `get_block`, the cache of compiled blocks.
use tsrkit_pvm.Prelude.{ℕ, Option, none, some, Outcome, ◌≡◌, refl, arith}
use tsrkit_pvm.Interpreter.Program.{Program}
use tsrkit_pvm.Instructions.InstMap.{BlockInfo, Cache, compile_block, get_block, remember, compiled}

abbrev U : Type 0
U = Unit {0}

-- The cache holds what `_compile_block` gives.
abbrev pub IsFresh : Program → Cache → Type 0
IsFresh p cache =
    (pc : ℕ) (info : BlockInfo)
    → cache pc ≡ some info
    → compile_block p pc tt ≡ Outcome.done info tt

pub remember-IsFresh :
    (p : Program) (cache : Cache) (pc : ℕ) (info : BlockInfo)
    → IsFresh p cache
    → compile_block p pc tt ≡ Outcome.done info tt
    → IsFresh p (remember cache pc info)
remember-IsFresh p cache pc info fresh e j found g = ground (arith, fresh j found)

-- `get_block` answers what `_compile_block` would, the exception it raises included, and leaves a
-- cache behind for which the same holds.
abbrev pub Agrees : Program → ℕ → Outcome Cache BlockInfo → Type 0
Agrees p pc (Outcome.done info cache) =
    (compile_block p pc tt ≡ Outcome.done info tt) × IsFresh p cache
Agrees p pc (Outcome.raised e cache) =
    (compile_block p pc tt ≡ Outcome.raised e tt) × IsFresh p cache

compiled-Agrees :
    (p : Program) (cache : Cache) (pc : ℕ) (o : Outcome U BlockInfo)
    → IsFresh p cache
    → compile_block p pc tt ≡ o
    → Agrees p pc (compiled cache pc o)
compiled-Agrees p cache pc (Outcome.done info tt) fresh e =
    (e, remember-IsFresh p cache pc info fresh e)
compiled-Agrees p cache pc (Outcome.raised x tt) fresh e = (e, fresh)

-- With a cache that holds only what `_compile_block` gives, `get_block` answers what
-- `_compile_block` would, its exception included, and leaves such a cache behind.
pub get_block-Agrees :
    (p : Program) (pc : ℕ) (cache : Cache) → IsFresh p cache → Agrees p pc (get_block p pc cache)
unfolding get_block
get_block-Agrees p pc cache fresh = go (cache pc) refl
  where
    go :
        (o : Option BlockInfo)
        → cache pc ≡ o
        → Agrees p pc (elim o [
          | some info ↦ Outcome.done info cache
          | none ↦ compiled cache pc (compile_block p pc tt)
        ])
    go (some info) e = (fresh pc info e, fresh)
    go none e = compiled-Agrees p cache pc _ fresh refl
