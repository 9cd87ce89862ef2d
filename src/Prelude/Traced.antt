-- ===== src/Prelude/Traced.antt =====
-- Code that calls the host, step by step: a result, and the calls made so far, the first one first.
-- Whether a call fails may depend on the calls before it.
pub mod Plans
pub mod Invariants
pub mod Ensured
pub mod Answers
pub mod Triples
use mathlib.Core.Path.{◌≡◌, refl, subst}
use mathlib.Core.Bool.{Bool, true, false}
use mathlib.Core.List.{List, [], ◌∷◌, ◌++◌}
use mathlib.Core.Logic.{◌≢◌, ◌⊎◌, inl, inr}
use urunc.Prelude.Tests.{if◌then◌else◌, Bool-cases}
use urunc.Prelude.Fallible.{Result, ok, err}
use urunc.Prelude.Lists.{append_assoc}

abbrev pub Traced : Type 0 → Type 0 → Type 0 → Type 0
Traced C E A = List C → Result E A × List C

module _ {C E : Type 0} where
  abbrev pub pure : {A : Type 0} → A → Traced C E A
  pure a calls = (ok a, calls)

  abbrev pub raise : {A : Type 0} → E → Traced C E A
  raise e calls = (err e, calls)

  -- A function that makes no call.
  abbrev pub lift : {A : Type 0} → (List C → Result E A) → Traced C E A
  lift f calls = (f calls, calls)

  infixl 5 ◌>>=◌ ◌>>◌
  abbrev pub ◌>>=◌ : {A B : Type 0} → Traced C E A → (A → Traced C E B) → Traced C E B
  ◌>>=◌ m next calls = let r = m calls in elim r.0 [ err e ↦ (err e, r.1) | ok a ↦ next a r.1 ]

  abbrev pub ◌>>◌ : {A B : Type 0} → Traced C E A → Traced C E B → Traced C E B
  m >> next = m >>= λ done. next

  abbrev pub perform : (List C → C → Bool) → (C → E) → C → Traced C E (Unit {0})
  perform fails problem c calls =
      (if fails calls c then err (problem c) else ok tt, calls ++ (c ∷ []))

  -- `m`, and when it fails `undo`, whose own failure is dropped.
  abbrev pub or_undo : {A B : Type 0} → Traced C E A → Traced C E B → Traced C E A
  or_undo m undo calls =
      let r = m calls in elim r.0 [ ok a ↦ (ok a, r.1) | err e ↦ (err e, (undo r.1).1) ]

abbrev pub outcome : {E : Type 0} → Bool → E → Result E (Unit {0})
outcome b e = if b then err e else ok tt

pub err≢ok : {E A : Type 0} {e : E} {a : A} → ◌≢◌ {A = Result E A} (err e) (ok a)
err≢ok h = cc
