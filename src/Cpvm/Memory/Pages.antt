-- ===== src/Cpvm/Memory/Pages.antt =====
-- cy_memory.pyx: the check of a range of pages against the rights of each of its bytes.
use tsrkit_pvm.Prelude.{
  ℕ, zero, suc, ◌+◌, ◌-◌, ◌/◌, ◌^◌, ◌≤◌, ◌<◌, Bool, true, false, ◌&&◌, ltb, leb, ◌==◌,
  if◌then◌else◌, Outcome, pvm_exit, ◌≡◌, refl, sym, ap, ◌∙◌, arith, if-elim, Bool-cases, inl, inr,
  ltb→lt, ltb→le, ==_iff, leb→le, leb→gt,
}
use native.Mathlib.Nat.{mod-eq_of_lt}
use tsrkit_pvm.Interpreter.Memory.{max_pages}
use tsrkit_pvm.Cpvm.Words.{uint32}
use tsrkit_pvm.Cpvm.Utils.{page_count}
use tsrkit_pvm.Cpvm.Memory.{CyMemory, has_access, check_access, num_pages}
use tsrkit_pvm.Cpvm.Memory.Rights.{mode_of, num_pages-eq}

pub past_the_end :
    (m : CyMemory) (pg : ℕ) (w : Bool) → max_pages ≤ pg → has_access m pg (mode_of w) ≡ false
unfolding has_access
past_the_end m pg w h = let top : leb max_pages pg ≡ true = ground arith in rw top refl

-- What a check of pages does when all of them, or not all, grant the right.
abbrev pub checked : Bool → ℕ → CyMemory → Outcome CyMemory (Unit {0})
checked ok addr m = if ok then Outcome.done tt m else Outcome.raised (pvm_exit 2 addr) m

checked-and :
    (a b : Bool) (addr : ℕ) (m : CyMemory)
    → checked (a && b) addr m ≡ (if a then checked b addr m else Outcome.raised (pvm_exit 2 addr) m)
checked-and true b addr m = refl
checked-and false b addr m = refl

-- The right for each of the bytes from an address on.
unfoldable pub all_bytes : CyMemory → Bool → ℕ → ℕ → Bool
all_bytes m w zero address = true
all_bytes m w (suc n) address =
    has_access m (address / 4096) (mode_of w) && all_bytes m w n (address + 1)

module _ (m : CyMemory) (w : Bool) (addr : ℕ) where
  check_access_step :
      (pg count : ℕ)
      → pg < 2 ^ 32 - 1
      → check_access pg (suc count) (mode_of w) addr m ≡ (
          if has_access m pg (mode_of w)
          then check_access (pg + 1) count (mode_of w) addr m
          else Outcome.raised (pvm_exit 2 addr) m)
  unfolding check_access
  check_access_step pg count h =
      let here : uint32 pg ≡ pg = mod-eq_of_lt (omega arith) in
      let next : uint32 (pg + 1) ≡ pg + 1 = mod-eq_of_lt (omega arith) in rw (here, next) refl

  -- A range that goes past the last page, or wraps around.
  check_access-past :
      (left pg count : ℕ)
      → pg + left ≡ max_pages
      → left < count
      → check_access pg count (mode_of w) addr m ≡ Outcome.raised (pvm_exit 2 addr) m
  check_access-past left pg zero e h = absurd (omega arith)
  check_access-past zero pg (suc count) e h =
      check_access_step pg count (omega arith) ∙ rw (past_the_end m pg w (omega arith)) refl
  check_access-past (suc left) pg (suc count) e h =
      check_access_step pg count (omega arith)
      ∙ rw (check_access-past left (pg + 1) count (omega arith) (omega arith)) (
          if-elim (λ o. o ≡ Outcome.raised (pvm_exit 2 addr) m) (has_access m pg (mode_of w))
            (λ _. refl) (λ _. refl))

  pub all_bytes-past :
      (n address : ℕ) → address ≤ 2 ^ 32 → 2 ^ 32 < address + n → all_bytes m w n address ≡ false
  unfolding all_bytes
  all_bytes-past zero address h k = absurd (omega arith)
  all_bytes-past (suc n) address h k = elim (Bool-cases (ltb address (2 ^ 32))) [
    | inl l ↦
        let low = ltb→lt address (2 ^ 32) l in
        rw (all_bytes-past n (address + 1) (omega arith) (omega arith)) (ground arith)
    | inr e ↦
        let high = ltb→le address (2 ^ 32) e in
        rw (past_the_end m (address / 4096) w (omega arith)) refl
  ]

  -- The number of pages that the bytes touch, without wrapping around.
  abbrev pages_of : ℕ → ℕ → ℕ
  pages_of n address = (address + n - 1) / 4096 + 1 - address / 4096

  check_access-all :
      (n address : ℕ)
      → 1 ≤ n
      → address + n ≤ 2 ^ 32
      → check_access (address / 4096) (pages_of n address) (mode_of w) addr m
        ≡ checked (all_bytes m w n address) addr m
  unfolding all_bytes
  check_access-all zero address one top = absurd (omega arith)
  check_access-all (suc zero) address one top =
      let single : pages_of 1 address ≡ suc zero = omega arith in
      rw single (
        check_access_step (address / 4096) 0 (omega arith)
        ∙ (unfold check_access in
            sym (checked-and (has_access m (address / 4096) (mode_of w)) true addr m)))
  check_access-all (suc (suc n)) address one top =
      elim (Bool-cases ((address + 1) / 4096 == address / 4096)) [
        | inl e ↦
            let same : address / 4096 ≡ (address + 1) / 4096 =
              sym ((==_iff ((address + 1) / 4096) (address / 4096)).0 e) in
            let count : pages_of (suc (suc n)) address ≡ pages_of (suc n) (address + 1) =
              omega arith in
            rw (count, same)
              (check_access-all (suc n) (address + 1) (omega arith) (omega arith)
                ∙ ap (λ ok. checked ok addr m)
                    (again (has_access m ((address + 1) / 4096) (mode_of w))
                      (all_bytes m w n (address + 1 + 1))))
        | inr e ↦
            let next : (address + 1) / 4096 ≡ address / 4096 + 1 = ground arith in
            let count : pages_of (suc (suc n)) address ≡ suc (pages_of (suc n) (address + 1)) =
              omega arith in
            rw count (
              check_access_step (address / 4096) (pages_of (suc n) (address + 1)) (omega arith)
              ∙ ap
                  (λ o.
                    if has_access m (address / 4096) (mode_of w)
                    then o
                    else Outcome.raised (pvm_exit 2 addr) m)
                  (ap (λ pg. check_access pg (pages_of (suc n) (address + 1)) (mode_of w) addr m)
                      (sym next)
                    ∙ check_access-all (suc n) (address + 1) (omega arith) (omega arith))
              ∙ sym (
                  checked-and (has_access m (address / 4096) (mode_of w))
                    (all_bytes m w (suc n) (address + 1)) addr m))
      ]
    where
      again : (a c : Bool) → (a && c) ≡ (a && (a && c))
      again true c = refl
      again false c = refl

  -- What a check of the pages of a range comes to, whether or not the range wraps around.
  pub check_access-bytes :
      (n address : ℕ)
      → 1 ≤ n
      → n < 2 ^ 31
      → address < 2 ^ 32
      → check_access (address / 4096) (num_pages address n) (mode_of w) addr m
        ≡ checked (all_bytes m w n address) addr m
  check_access-bytes n address one small low = elim (Bool-cases (leb (address + n) (2 ^ 32))) [
    | inl l ↦
        let top = leb→le (address + n) (2 ^ 32) l in
        rw (num_pages-eq address n one top) (check_access-all n address one top)
    | inr h ↦
        let over = leb→gt (address + n) (2 ^ 32) h in
        rw (all_bytes-past n address (omega arith) over) (
          check_access-past (max_pages - address / 4096) (address / 4096) (num_pages address n)
            (omega arith) (unfold num_pages page_count in omega arith))
  ]

pub all_bytes-drop :
    (m : CyMemory) (w : Bool) (k n t address next : ℕ)
    → t ≡ k + n
    → next ≡ address + k
    → all_bytes m w t address ≡ true
    → all_bytes m w n next ≡ true
unfolding all_bytes
all_bytes-drop m w zero n t address next et en h =
    let same : n ≡ t = omega arith in let stay : next ≡ address = omega arith in rw (same, stay) h
all_bytes-drop m w (suc k) n zero address next et en h = absurd (omega arith)
all_bytes-drop m w (suc k) n (suc t) address next et en h =
    all_bytes-drop m w k n t (address + 1) next (omega arith) (omega arith) (ground (arith, h))

-- Bytes that may all be read or written end within the address space.
pub inside :
    (m : CyMemory) (w : Bool) (n address : ℕ)
    → address < 2 ^ 32
    → all_bytes m w n address ≡ true
    → address + n ≤ 2 ^ 32
inside m w n address low ok = elim (Bool-cases (leb (address + n) (2 ^ 32))) [
  | inl l ↦ leb→le (address + n) (2 ^ 32) l
  | inr h ↦
      let bad = all_bytes-past m w 0 n address (omega arith) (leb→gt (address + n) (2 ^ 32) h) in
      absurd (ground (arith, ok, bad))
]
