-- ===== src/Interpreter/Memory/Access.antt =====
-- memory.py: `alter_accessibility`, its frame and the invariant of the memory.
use tsrkit_pvm.Prelude.{
  ℕ, Bool, true, false, ◌&&◌, ◌||◌, List, [], ◌∷◌, Option, none, some, ◌≡◌, refl, arith, ◌==◌, ltb,
  leb, if-elim, ◌∙◌, sym,
}
use tsrkit_pvm.Common.Constants.{Accessibility}
use tsrkit_pvm.Common.Utils.{get_pages}
use tsrkit_pvm.Interpreter.Memory.{
  Memory, max_pages, matches, readable, can_read, alter_page, alter_pages, invalidate_hot,
  alter_accessibility, is_write, is_read, same, set_rights, cool,
}
use tsrkit_pvm.Interpreter.Memory.Coherent.{IsCoherent, HotIsValid}

abbrev pub mem : ℕ → List ℕ → Bool
mem n [] = false
mem n (x ∷ xs) = x == n || mem n xs

-- `m'` is `m` but for the rights of pages for which `out` is false.
pub record Frame (out : ℕ → Bool) (m m' : Memory) : Type 0 where
  pub pages : m'.pages ≡ m.pages
  num : m'.hot_page_num ≡ m.hot_page_num
  hot_data : m'.hot_page_data ≡ m.hot_page_data
  writable : m'.hot_page_writable ≡ m.hot_page_writable
  pub r_pages : (j : ℕ) → out j ≡ false → m'.r_pages j ≡ m.r_pages j
  pub w_pages : (j : ℕ) → out j ≡ false → m'.w_pages j ≡ m.w_pages j

Frame-refl : (out : ℕ → Bool) (m : Memory) → Frame out m m
Frame-refl out m = record {
  pages = refl;
  num = refl;
  hot_data = refl;
  writable = refl;
  r_pages = λ j _. refl;
  w_pages = λ j _. refl;
}

set_rights-Frame : (pg : ℕ) (r w : Bool) (m : Memory) → Frame (λ j. pg == j) m (set_rights pg r w m)
set_rights-Frame pg r w m = record {
  pages = refl;
  num = refl;
  hot_data = refl;
  writable = refl;
  r_pages = λ j e. rw e;
  w_pages = λ j e. rw e;
}

alter_page-Frame :
    (access : Accessibility) (pg : ℕ) (m : Memory) → Frame (λ j. pg == j) m (alter_page access pg m)
unfolding alter_page
alter_page-Frame access pg m =
    if-elim (Frame _ m) (leb max_pages pg) (λ _. Frame-refl _ m)
      λ _.
        if-elim (Frame _ m)
          (same (m.w_pages pg) (is_write access) && same (m.r_pages pg) (is_read access))
          (λ _. Frame-refl _ m)
          λ _.
            if-elim (Frame _ m) (is_write access) (λ _. set_rights-Frame pg false true m)
              λ _.
                if-elim (Frame _ m) (is_read access) (λ _. set_rights-Frame pg true false m)
                  λ _. set_rights-Frame pg false false m

Frame-then :
    (pg : ℕ) (pgs : List ℕ) (m m' m'' : Memory)
    → Frame (λ j. pg == j) m m'
    → Frame (λ j. mem j pgs) m' m''
    → Frame (λ j. mem j (pg ∷ pgs)) m m''
Frame-then pg pgs m m' m'' f g = record {
  pages = g.pages ∙ f.pages;
  num = g.num ∙ f.num;
  hot_data = g.hot_data ∙ f.hot_data;
  writable = g.writable ∙ f.writable;
  r_pages = λ j e. g.r_pages j (ground arith) ∙ f.r_pages j (ground arith);
  w_pages = λ j e. g.w_pages j (ground arith) ∙ f.w_pages j (ground arith);
}

pub alter_pages-Frame :
    (access : Accessibility) (pgs : List ℕ) (m : Memory)
    → Frame (λ j. mem j pgs) m (alter_pages access pgs m)
unfolding alter_pages
alter_pages-Frame access [] m = Frame-refl _ m
alter_pages-Frame access (pg ∷ pgs) m =
    Frame-then pg pgs m (alter_page access pg m) _ (alter_page-Frame access pg m)
      (alter_pages-Frame access pgs (alter_page access pg m))

-- The cache is dropped, or its page is not among those altered.
abbrev pub IsOutside : List ℕ → Memory → Type 0
IsOutside pgs m = (n : ℕ) → m.hot_page_num ≡ some n → ltb n max_pages ≡ true → mem n pgs ≡ false

missed :
    (pg : ℕ) (pgs : List ℕ) (m : Memory) (n : ℕ)
    → (ltb pg max_pages && matches m.hot_page_num pg) ≡ false
    → m.hot_page_num ≡ some n
    → ltb n max_pages ≡ true
    → mem n pgs ≡ false
    → mem n (pg ∷ pgs) ≡ false
missed pg pgs m n miss e lt rest = ground arith

pub invalidate_hot-elim :
    (P : Memory → Type 0) (pgs : List ℕ) (m : Memory)
    → P (cool m)
    → (IsOutside pgs m → P m)
    → P (invalidate_hot pgs m)
unfolding invalidate_hot
invalidate_hot-elim P [] m c k = k (λ n _ _. refl)
invalidate_hot-elim P (pg ∷ pgs) m c k =
    if-elim P (ltb pg max_pages && matches m.hot_page_num pg) (λ _. c)
      (λ miss.
        invalidate_hot-elim P pgs m c
          (λ rest. k (λ n e lt. missed pg pgs m n miss e lt (rest n e lt))))

cool-IsCoherent : (m m' : Memory) → m'.pages ≡ m.pages → IsCoherent m → IsCoherent (cool m')
cool-IsCoherent m m' e c = record { paged = λ pg bytes f. c.paged pg bytes (rw (← e) f); hot = tt }

can_read→ltb : (m : Memory) (n : ℕ) → can_read m n ≡ true → ltb n max_pages ≡ true
unfolding can_read
can_read→ltb m n h = ground arith

can_read-Frame :
    (m m' : Memory) (n : ℕ)
    → m'.r_pages n ≡ m.r_pages n
    → m'.w_pages n ≡ m.w_pages n
    → can_read m' n ≡ can_read m n
unfolding can_read readable
can_read-Frame m m' n r w = rw (r, w)

HotIsValid-Frame :
    (pgs : List ℕ) (m m' : Memory) (h : Option ℕ)
    → Frame (λ j. mem j pgs) m m'
    → ((n : ℕ) → h ≡ some n → ltb n max_pages ≡ true → mem n pgs ≡ false)
    → HotIsValid m h
    → HotIsValid m' h
HotIsValid-Frame pgs m m' none f out v = tt
HotIsValid-Frame pgs m m' (some n) f out v =
    let o = out n refl (can_read→ltb m n v.1) in
    (
      f.hot_data ∙ v.0,
      can_read-Frame m m' n (f.r_pages n o) (f.w_pages n o) ∙ v.1,
      λ w. f.w_pages n o ∙ v.2 (sym f.writable ∙ w),
    )

pub alter_accessibility-IsCoherent :
    (start len : ℕ) (access : Accessibility) (m : Memory)
    → IsCoherent m
    → IsCoherent (alter_accessibility start len access m)
unfolding alter_accessibility
alter_accessibility-IsCoherent start len access m c =
    invalidate_hot-elim IsCoherent pgs altered (cool-IsCoherent m altered f.pages c) (λ out.
      record {
        paged = λ pg bytes e. c.paged pg bytes (rw (← f.pages) e);
        hot =
            rw f.num
              (HotIsValid-Frame pgs m altered m.hot_page_num f (λ n e. out n (f.num ∙ e)) c.hot);
      })
  where
    pgs : List ℕ
    pgs = get_pages start len

    altered : Memory
    altered = alter_pages access pgs m

    f : Frame (λ j. mem j pgs) m altered
    f = alter_pages-Frame access pgs m

HotIsValid-heap_break :
    (n : ℕ) (m : Memory) (h : Option ℕ)
    → HotIsValid m h
    → HotIsValid (record m { heap_break = n }) h
unfolding can_read readable
HotIsValid-heap_break n m none v = tt
HotIsValid-heap_break n m (some pg) v = v

pub heap_break-IsCoherent :
    (n : ℕ) (m : Memory) → IsCoherent m → IsCoherent (record m { heap_break = n })
heap_break-IsCoherent n m c = record {
  paged = c.paged;
  hot = HotIsValid-heap_break n m m.hot_page_num c.hot;
}
