-- ===== src/Interpreter/Memory/Grants.antt =====
-- memory.py: what `alter_accessibility` does to the rights and to the cache.
use tsrkit_pvm.Prelude.{
  ℕ, zero, suc, ◌+◌, ◌-◌, ◌/◌, ◌^◌, ◌≤◌, ◌<◌, max, Bool, true, false, ◌&&◌, List, [], ◌∷◌, some,
  range, ◌≡◌, ◌≢◌, refl, sym, ap, ◌∙◌, inl, inr, arith, ◌==◌, leb, lt→ltb, Bool-cases, ==_iff,
  ==_refl, if-elim,
}
use tsrkit_pvm.Common.Constants.{Accessibility}
use tsrkit_pvm.Common.Utils.{get_pages}
use tsrkit_pvm.Interpreter.Memory.{
  Memory, max_pages, alter_page, alter_pages, alter_accessibility, is_write, is_read, same,
  set_rights,
}
use tsrkit_pvm.Interpreter.Memory.Coherent.{IsCoherent}
use tsrkit_pvm.Interpreter.Memory.Access.{
  mem, Frame, alter_pages-Frame, invalidate_hot-elim, alter_accessibility-IsCoherent,
}

-- The rights to read and to write that a mode stands for; the right to write includes that to read.
abbrev pub granted : Accessibility → Bool × Bool
granted Accessibility.null = (false, false)
granted Accessibility.read = (true, false)
granted Accessibility.write = (false, true)

abbrev pub rights : Memory → ℕ → Bool × Bool
rights m n = (m.r_pages n, m.w_pages n)

-- The range of `len` bytes from `start` on, of one byte if `len` is 0, touches page `n`.
abbrev pub Touches : ℕ → ℕ → ℕ → Type 0
Touches start len n = (start / 4096 ≤ n) × (n ≤ (start + max len 1 - 1) / 4096)

pub record IsAltered (start len : ℕ) (access : Accessibility) (m m' : Memory) : Type 0 where
  coherent : IsCoherent m'
  bytes : m'.pages ≡ m.pages
  inside : (n : ℕ) → n < 2 ^ 20 → Touches start len n → rights m' n ≡ granted access
  outside : (n : ℕ) → (Touches start len n → ⊥) → rights m' n ≡ rights m n
  dropped : (n : ℕ) → n < 2 ^ 20 → Touches start len n → m'.hot_page_num ≢ some n

same_eq : (x y : Bool) → same x y ≡ true → x ≡ y
same_eq true y h = sym h
same_eq false y h = ground arith

pair_eq : {a b c d : Bool} → a ≡ c → b ≡ d → ◌≡◌ {A = Bool × Bool} (a, b) (c, d)
pair_eq e f = rw (e, f) refl

set_rights-rights : (n : ℕ) (r w : Bool) (m : Memory) → rights (set_rights n r w m) n ≡ (r, w)
set_rights-rights n r w m = rw (==_refl n) refl

both : (b c : Bool) → (b && c) ≡ true → (b ≡ true) × (c ≡ true)
both b c h = ground arith

-- A page that has the rights already is left alone.
kept :
    (access : Accessibility) (m : Memory) (n : ℕ)
    → (same (m.w_pages n) (is_write access) && same (m.r_pages n) (is_read access)) ≡ true
    → rights m n ≡ (is_read access, is_write access)
kept access m n h =
    let (w, r) = both _ _ h in
    pair_eq (same_eq _ (is_read access) r) (same_eq _ (is_write access) w)

altered_page :
    (access : Accessibility) (m : Memory) (n : ℕ)
    → n < 2 ^ 20
    → rights (alter_page access n m) n ≡ granted access
unfolding alter_page
altered_page Accessibility.read m n h =
    if-elim (λ m'. rights m' n ≡ (true, false)) (leb max_pages n) (λ e. absurd (ground arith))
      λ _.
        if-elim (λ m'. rights m' n ≡ (true, false))
          (same (m.w_pages n) false && same (m.r_pages n) true) (kept Accessibility.read m n)
          (λ _. set_rights-rights n true false m)
altered_page Accessibility.write m n h =
    if-elim (λ m'. rights m' n ≡ (false, true)) (leb max_pages n) (λ e. absurd (ground arith))
      λ _.
        if-elim (λ m'. rights m' n ≡ (false, true))
          (same (m.w_pages n) true && same (m.r_pages n) false) (kept Accessibility.write m n)
          (λ _. set_rights-rights n false true m)
altered_page Accessibility.null m n h =
    if-elim (λ m'. rights m' n ≡ (false, false)) (leb max_pages n) (λ e. absurd (ground arith))
      λ _.
        if-elim (λ m'. rights m' n ≡ (false, false))
          (same (m.w_pages n) false && same (m.r_pages n) false) (kept Accessibility.null m n)
          (λ _. set_rights-rights n false false m)

altered_pages :
    (access : Accessibility) (pgs : List ℕ) (m : Memory) (n : ℕ)
    → n < 2 ^ 20
    → mem n pgs ≡ true
    → rights (alter_pages access pgs m) n ≡ granted access
unfolding alter_pages
altered_pages access [] m n h i = absurd (ground arith)
altered_pages access (pg ∷ pgs) m n h i =
    let m' = alter_page access pg m in
    elim (Bool-cases (mem n pgs)) [
      | inl later ↦ altered_pages access pgs m' n h later
      | inr last ↦
          let here : pg ≡ n = (==_iff pg n).0 (ground arith) in
          let f = alter_pages-Frame access pgs m' in
          pair_eq (f.r_pages n last) (f.w_pages n last)
          ∙ ap (λ j. rights (alter_page access j m) n) here
          ∙ altered_page access m n h
    ]

pub mem-range : (n k len : ℕ) → k ≤ n → n < k + len → mem n (range k len) ≡ true
mem-range n k zero h l = absurd (omega arith)
mem-range n k (suc len) h l = elim (Bool-cases (k == n)) [
  | inl e ↦ ground arith
  | inr ne ↦ let rest = mem-range n (k + 1) len (ground arith) (omega arith) in ground arith
]

pub range-mem : (n k len : ℕ) → mem n (range k len) ≡ true → (k ≤ n) × (n < k + len)
range-mem n k zero h = absurd (ground arith)
range-mem n k (suc len) h = elim (Bool-cases (k == n)) [
  | inl e ↦ let same : k ≡ n = (==_iff k n).0 e in (omega arith, omega arith)
  | inr ne ↦
      let rest = range-mem n (k + 1) len (ground arith) in
      (omega (arith, rest.0), omega (arith, rest.1))
]

pub touched : (start len n : ℕ) → Touches start len n → mem n (get_pages start len) ≡ true
unfolding get_pages
touched start len n (low, high) = mem-range n _ _ low (omega arith)

pub untouched : (start len n : ℕ) → (Touches start len n → ⊥) → mem n (get_pages start len) ≡ false
unfolding get_pages
untouched start len n h = elim (Bool-cases (mem n (get_pages start len))) [
  | inl there ↦ let r = range-mem n _ _ there in absurd (h (r.0, omega (arith, r.0, r.1)))
  | inr e ↦ e
]

-- On a coherent memory, `alter_accessibility` gives each page below 2^20 that the range touches
-- exactly the rights of the mode, whatever they were, drops the cache if it holds such a page,
-- keeps the rights of every other page and all bytes, and leaves a coherent memory; a range of no
-- bytes counts as one byte.
pub alter_accessibility-IsAltered :
    (start len : ℕ) (access : Accessibility) (m : Memory)
    → IsCoherent m
    → IsAltered start len access m (alter_accessibility start len access m)
unfolding alter_accessibility
alter_accessibility-IsAltered start len access m c = record {
  coherent = alter_accessibility-IsCoherent start len access m c;
  bytes = invalidate_hot-elim (λ m'. m'.pages ≡ m.pages) pgs altered f.pages (λ _. f.pages);
  inside = λ n h t.
      let e = altered_pages access pgs m n h (touched start len n t) in
      invalidate_hot-elim (λ m'. rights m' n ≡ granted access) pgs altered e (λ _. e);
  outside = λ n o.
      let out = untouched start len n o in
      let e : rights altered n ≡ rights m n = pair_eq (f.r_pages n out) (f.w_pages n out) in
      invalidate_hot-elim (λ m'. rights m' n ≡ rights m n) pgs altered e (λ _. e);
  dropped = λ n h t.
      invalidate_hot-elim (λ m'. m'.hot_page_num ≢ some n) pgs altered (λ e. cc)
        λ out e. let there = touched start len n t in let lost = out n e (lt→ltb _ _ h) in cc;
}
  where
    pgs : List ℕ
    pgs = get_pages start len

    altered : Memory
    altered = alter_pages access pgs m

    f : Frame (λ j. mem j pgs) m altered
    f = alter_pages-Frame access pgs m
