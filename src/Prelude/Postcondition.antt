-- ===== src/Prelude/Postcondition.antt =====
-- A postcondition of an outcome, for a return and for a raise.
use mathlib.Core.Path.{◌≡◌, refl}
use mathlib.Core.Option.{Option, none, some}
use native.Mathlib.Omega.{arith}
use tsrkit_pvm.Prelude.Effects.{Exn, Outcome, M, bind_outcome, or_raise}

pub data Ensures {S A : Type 0} (P : A → S → Type 0) (Q : Exn → S → Type 0)
    : Outcome S A → Type 0 where
  returns : {a : A} {s : S} → P a s → Ensures P Q (Outcome.done a s)
  raises : {e : Exn} {s : S} → Q e s → Ensures P Q (Outcome.raised e s)

module _ {S A : Type 0} where
  pub Ensures-bind :
      {B : Type 0} {P : A → S → Type 0} {P' : B → S → Type 0} {Q : Exn → S → Type 0}
      {m : Outcome S A} {k : A → M S B}
      → Ensures P Q m
      → ((a : A) (s : S) → P a s → Ensures P' Q (k a s))
      → Ensures P' Q (bind_outcome m k)
  Ensures-bind (Ensures.returns p) h = h _ _ p
  Ensures-bind (Ensures.raises q) h = Ensures.raises q

  pub Ensures-or_raise :
      {B : Type 0} {P : B → S → Type 0} {Q : Exn → S → Type 0} (e : Exn) (o : Option A)
      (k : A → M S B) (s : S)
      → Q e s
      → ((a : A) → o ≡ some a → Ensures P Q (k a s))
      → Ensures P Q (bind_outcome (or_raise e o s) k)
  Ensures-or_raise e (some a) k s q h = h a refl
  Ensures-or_raise e none k s q h = Ensures.raises q

  pub Ensures-map :
      {P P' : A → S → Type 0} {Q Q' : Exn → S → Type 0} {m : Outcome S A}
      → ((a : A) (s : S) → P a s → P' a s)
      → ((e : Exn) (s : S) → Q e s → Q' e s)
      → Ensures P Q m
      → Ensures P' Q' m
  Ensures-map f g (Ensures.returns p) = Ensures.returns (f _ _ p)
  Ensures-map f g (Ensures.raises q) = Ensures.raises (g _ _ q)

  pub Ensures-done :
      {P : A → S → Type 0} {Q : Exn → S → Type 0} {m : Outcome S A} {a : A} {s : S}
      → Ensures P Q m
      → m ≡ Outcome.done a s
      → P a s
  Ensures-done {P} (Ensures.returns {a} {s} p) e = ground (arith, p)
  Ensures-done (Ensures.raises q) e = cc

  pub Ensures-raised :
      {P : A → S → Type 0} {Q : Exn → S → Type 0} {m : Outcome S A} {e : Exn} {s : S}
      → Ensures P Q m
      → m ≡ Outcome.raised e s
      → Q e s
  Ensures-raised (Ensures.returns p) e = cc
  Ensures-raised (Ensures.raises q) e = ground (arith, q)

-- A pair, for the proof of `All` of a list that is written out.
infixr 3 ◌&◌
abbrev pub ◌&◌ {ℓ κ} : {A : Type ℓ} {B : Type κ} → A → B → A × B
a & b = (a, b)
