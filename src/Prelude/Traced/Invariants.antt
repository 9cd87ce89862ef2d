-- ===== src/Prelude/Traced/Invariants.antt =====
-- Invariants of the calls that code makes.
use mathlib.Core.Bool.{Bool}
use mathlib.Core.List.{List, [], ◌∷◌, ◌++◌}
use urunc.Prelude.Fallible.{Result, ok, err}
use urunc.Prelude.Traced.{Traced, pure, raise, lift, ◌>>=◌, perform, or_undo}

-- Whatever the code answers, what held of the calls made before holds of all of them after.
module _ {C E : Type 0} (I : List C → Type 0) where
  pub record Preserves {A : Type 0} (m : Traced C E A) : Type 0 where
    pub apply : (calls : List C) → I calls → I (m calls).1

  pub pure-Preserves : {A : Type 0} (a : A) → Preserves (pure {C = C} {E = E} a)
  pure-Preserves a = record { apply = λ calls h. h }

  pub raise-Preserves : {A : Type 0} (e : E) → Preserves {A = A} (raise {C = C} {E = E} e)
  raise-Preserves e = record { apply = λ calls h. h }

  pub lift-Preserves : {A : Type 0} (f : List C → Result E A) → Preserves (lift f)
  lift-Preserves f = record { apply = λ calls h. h }

  pub then_Preserves :
      {A B : Type 0} (r : Result E A × List C) (next : A → Traced C E B)
      → I r.1
      → ((a : A) → Preserves (next a))
      → I (elim r.0 as (λ x. Result E B × List C) [ err e ↦ (err e, r.1) | ok a ↦ next a r.1 ]).1
  then_Preserves (err e, calls) next h k = h
  then_Preserves (ok a, calls) next h k = (k a).apply calls h

  pub >>=-Preserves :
      {A B : Type 0} {m : Traced C E A} {next : A → Traced C E B}
      → Preserves m
      → ((a : A) → Preserves (next a))
      → Preserves (m >>= next)
  >>=-Preserves {m} {next} h k = record {
    apply = λ calls i. then_Preserves (m calls) next (h.apply calls i) k;
  }

  pub perform-Preserves :
      (fails : List C → C → Bool) (problem : C → E) (c : C)
      → ((calls : List C) → I calls → I (calls ++ (c ∷ [])))
      → Preserves (perform fails problem c)
  perform-Preserves fails problem c keeps = record { apply = keeps }

  undo_Preserves :
      {A B : Type 0} (r : Result E A × List C) (undo : Traced C E B)
      → I r.1
      → Preserves undo
      → I
          (elim r.0 as (λ x. Result E A × List C) [
            | ok a ↦ (ok a, r.1)
            | err e ↦ (err e, (undo r.1).1)
          ]).1
  undo_Preserves (err e, calls) undo h k = k.apply calls h
  undo_Preserves (ok a, calls) undo h k = h

  pub or_undo-Preserves :
      {A B : Type 0} {m : Traced C E A} {undo : Traced C E B}
      → Preserves m
      → Preserves undo
      → Preserves (or_undo m undo)
  or_undo-Preserves {m} {undo} h k = record {
    apply = λ calls i. undo_Preserves (m calls) undo (h.apply calls i) k;
  }
