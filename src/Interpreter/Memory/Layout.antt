-- ===== src/Interpreter/Memory/Layout.antt =====
-- memory.py: what `from_pc` lays out.
use tsrkit_pvm.Prelude.{
  ℕ, zero, suc, ◌+◌, ◌-◌, ◌*◌, ◌/◌, ◌^◌, ◌<◌, max, Bool, true, false, ◌||◌, List, [], ◌∷◌, ◌++◌,
  some, range, ◌≡◌, refl, sym, ap, ◌∙◌, ◌⊎◌, inl, inr, ◌↔◌, arith, ◌==◌, ltb, leb, length, Ensures,
  Ensures-map, Bool-cases, if-elim, if◌then◌else◌,
}
use tsrkit_pvm.Common.Constants.{pvm_init_zone_size}
use tsrkit_pvm.Common.Utils.{get_pages, total_page_size, total_zone_size}
use tsrkit_pvm.Interpreter.Memory.{Memory, max_pages, update}
use tsrkit_pvm.Interpreter.Memory.Access.{mem}
use tsrkit_pvm.Interpreter.Memory.Coherent.{IsCoherent, AreBytes}
use tsrkit_pvm.Interpreter.Memory.Flat.{byte}
use tsrkit_pvm.Interpreter.Memory.Flat.Stored.{written}
use tsrkit_pvm.Interpreter.Memory.Grants.{Touches, touched, range-mem}
use tsrkit_pvm.Interpreter.Memory.Init.{
  blank, allow, init, place, last_or, start_memory, from_pc, write_start, write_pages, heap_start,
  arg_start, stack_start, index_pages,
}
use tsrkit_pvm.Interpreter.Memory.Loading.{
  AreCells, Never, place-AreCells, AreCells-append, stored, stored-places,
  bulk_load_sparse-IsLoaded, zero_byte, blank-IsCoherent, blank-IsPaged,
}

-- A length rounded up to pages of 2^12 bytes, and where the read-write data starts: behind the
-- zone that follows the read-only data, both rounded up to zones of 2^16 bytes.
abbrev pub up_to_page : ℕ → ℕ
up_to_page n = (n + 4095) / 4096 * 4096

abbrev pub data_start : List ℕ → ℕ
data_start rd = 2 ^ 17 + (length rd + 65535) / 65536 * 65536

abbrev pub data_size : List ℕ → ℕ → ℕ
data_size wr z = up_to_page (length wr) + z * 4096

abbrev pub args_start : ℕ
args_start = 2 ^ 32 - 2 ^ 16 - 2 ^ 24

-- The layout: the bytes, with 0 between the zones; the pages that are readable only, and those that
-- are writable; the end of the data.
pub record IsLaidOut (rd wr args : List ℕ) (z s : ℕ) (m : Memory) : Type 0 where
  pub coherent : IsCoherent m
  bytes :
      (j : ℕ)
      → byte m j
        ≡ written args_start args j (written (data_start rd) wr j (written (2 ^ 16) rd j 0))
  reads :
      (n : ℕ)
      → n < 2 ^ 20
      → (m.r_pages n ≡ true) ↔ (
          Touches (2 ^ 16) (up_to_page (length rd)) n
          ⊎ Touches args_start (up_to_page (length args)) n)
  writes :
      (n : ℕ)
      → n < 2 ^ 20
      → (m.w_pages n ≡ true) ↔ (
          Touches (data_start rd) (data_size wr z) n
          ⊎ Touches (2 ^ 32 - 2 ^ 17 - 2 ^ 24 - up_to_page s) (up_to_page s) n)
  heap : m.heap_break ≡ ((data_start rd + max (data_size wr z) 1 - 1) / 4096 + 1) * 4096

mem-append : (n : ℕ) (xs ys : List ℕ) → mem n (xs ++ ys) ≡ (mem n xs || mem n ys)
mem-append n [] ys = refl
mem-append n (x ∷ xs) ys = let rest = mem-append n xs ys in ground arith

allow-mem : (pgs : List ℕ) (f : ℕ → Bool) (n : ℕ) → n < 2 ^ 20 → allow pgs f n ≡ (mem n pgs || f n)
unfolding allow
allow-mem [] f n h = refl
allow-mem (pg ∷ pgs) f n h =
    allow-mem pgs (if ltb pg max_pages then update f pg true else f) n h
    ∙ if-elim (λ (g : ℕ → Bool). (mem n pgs || g n) ≡ (pg == n || mem n pgs || f n))
        (ltb pg max_pages)
        (λ _. elim (Bool-cases (pg == n)) [
          | inl e ↦ rw e (ground arith)
          | inr e ↦ rw e (ground arith)
        ])
        (λ big. let other : (pg == n) ≡ false = ground arith in rw other (ground arith))

mem-touches : (start len n : ℕ) → mem n (get_pages start len) ≡ true → Touches start len n
unfolding get_pages
mem-touches start len n h = let r = range-mem n _ _ h in (r.0, omega (arith, r.0, r.1))

or_false : (b : Bool) → (b || false) ≡ b
or_false b = ground arith

rest_of : (b c : Bool) → (b || c) ≡ true → b ≡ false → c ≡ true
rest_of b c h k = ground arith

left_of : (b c : Bool) → b ≡ true → (b || c) ≡ true
left_of b c h = ground arith

right_of : (b c : Bool) → c ≡ true → (b || c) ≡ true
right_of b c h = ground arith

-- The pages of two ranges, and no others.
allowed :
    (a k b l n : ℕ)
    → n < 2 ^ 20
    → (allow (get_pages a k ++ get_pages b l) (λ _. false) n ≡ true)
      ↔ (Touches a k n ⊎ Touches b l n)
allowed a k b l n h = (
  λ e. elim (Bool-cases (mem n (get_pages a k))) [
    | inl first ↦ inl (mem-touches a k n first)
    | inr later ↦ inr (mem-touches b l n (rest_of _ _ (sym split ∙ e) later))
  ],
  λ t. split ∙ elim t [
    | inl first ↦ left_of _ _ (touched a k n first)
    | inr later ↦ right_of _ _ (touched b l n later)
  ],
)
  where
    split :
        allow (get_pages a k ++ get_pages b l) (λ _. false) n
        ≡ (mem n (get_pages a k) || mem n (get_pages b l))
    split =
        allow-mem (get_pages a k ++ get_pages b l) (λ _. false) n h
        ∙ or_false _
        ∙ mem-append n (get_pages a k) (get_pages b l)

allowed_in :
    (a k b l : ℕ) (r : ℕ → Bool) (n : ℕ)
    → n < 2 ^ 20
    → r ≡ allow (get_pages a k ++ get_pages b l) (λ _. false)
    → (r n ≡ true) ↔ (Touches a k n ⊎ Touches b l n)
allowed_in a k b l r n h e = rw e (allowed a k b l n h)

last_or-range : (d k n : ℕ) → last_or d (range k (suc n)) ≡ k + n
last_or-range d k zero = omega arith
last_or-range d k (suc n) = last_or-range k (k + 1) n ∙ omega arith

heap_lem :
    (rd wr : List ℕ) (z : ℕ)
    → heap_start rd wr z ≡ ((data_start rd + max (data_size wr z) 1 - 1) / 4096 + 1) * 4096
unfolding heap_start write_pages write_start get_pages total_page_size total_zone_size
heap_lem rd wr z =
    let low = data_start rd / 4096 in
    let high = (data_start rd + max (data_size wr z) 1 - 1) / 4096 in
    let count : high + 1 - low ≡ suc (high - low) = omega arith in
    ap (λ n. (last_or 0 (range low n) + 1) * 4096) count
    ∙ ap (λ n. (n + 1) * 4096) (last_or-range 0 low (high - low))
    ∙ omega arith

stack_pages :
    (s : ℕ)
    → s < 2 ^ 24
    → index_pages (stack_start s) (total_page_size s)
      ≡ some (get_pages (2 ^ 32 - 2 ^ 17 - 2 ^ 24 - up_to_page s) (up_to_page s))
unfolding index_pages stack_start total_page_size
stack_pages s h =
    let inside : leb (up_to_page s) (2 ^ 32 - 2 ^ 17 - 2 ^ 24) ≡ true = ground arith in
    rw inside refl

-- `from_pc` makes the layout.
pub from_pc-IsLaidOut :
    (rd wr args : List ℕ) (z s : ℕ)
    → s < 2 ^ 24
    → AreBytes rd
    → AreBytes wr
    → AreBytes args
    → Ensures (λ _ m. IsLaidOut rd wr args z s m) Never (from_pc rd wr args z s)
unfolding from_pc start_memory init write_start arg_start write_pages total_page_size
    total_zone_size
from_pc-IsLaidOut rd wr args z s low hr hw ha = rw (stack_pages s low) (
    Ensures-map
      (λ _ m l. record {
        coherent = l.coherent;
        bytes = λ j.
            l.bytes j
            ∙ ap (stored cells j) (zero_byte r w (heap_start rd wr z) j)
            ∙ stored-places pvm_init_zone_size (write_start rd) arg_start rd wr args j;
        reads = λ n h. allowed_in _ _ _ _ m.r_pages n h l.reads;
        writes = λ n h. allowed_in _ _ _ _ m.w_pages n h l.writes;
        heap = l.heap ∙ heap_lem rd wr z;
      })
      (λ _ _ e. e)
      (bulk_load_sparse-IsLoaded cells (blank r w (heap_start rd wr z)) cells_AreCells
        (blank-IsCoherent r w (heap_start rd wr z)) (blank-IsPaged r w (heap_start rd wr z))))
  where
    r : ℕ → Bool
    r =
        allow
          (get_pages pvm_init_zone_size (total_page_size (length rd))
            ++ get_pages arg_start (total_page_size (length args)))
          (λ _. false)

    w : ℕ → Bool
    w =
        allow
          (write_pages rd wr z
            ++ get_pages (2 ^ 32 - 2 ^ 17 - 2 ^ 24 - up_to_page s) (up_to_page s))
          (λ _. false)

    cells : List (ℕ × ℕ)
    cells = place pvm_init_zone_size rd ++ place (write_start rd) wr ++ place arg_start args

    cells_AreCells : AreCells cells
    cells_AreCells =
        AreCells-append (place pvm_init_zone_size rd ++ place (write_start rd) wr) _
          (AreCells-append (place pvm_init_zone_size rd) _ (place-AreCells pvm_init_zone_size rd hr)
            (place-AreCells (write_start rd) wr hw))
          (place-AreCells arg_start args ha)
