-- ===== src/Prelude/Traced/Ensured.antt =====
-- What code that succeeds has done.
use mathlib.Core.Path.{◌≡◌, refl}
use mathlib.Core.Bool.{Bool, true, false}
use mathlib.Core.List.{List, [], ◌∷◌, ◌++◌}
use urunc.Prelude.Fallible.{Result, ok, err}
use urunc.Prelude.Traced.{Traced, ◌>>=◌, ◌>>◌, perform, outcome, err≢ok}
use urunc.Prelude.Traced.Invariants.{Preserves}

-- When the code succeeds, it has made calls of which this holds.
module _ {C E : Type 0} (I : List C → Type 0) where
  abbrev pub Holds : {A : Type 0} → Result E A × List C → Type 0
  Holds (err e, calls) = Unit
  Holds (ok a, calls) = I calls

  pub record Ensures {A : Type 0} (m : Traced C E A) : Type 0 where
    pub apply : (calls : List C) → Holds (m calls)

  later_Ensures :
      {A B : Type 0} (r : Result E A × List C) (next : A → Traced C E B)
      → ((a : A) → Ensures (next a))
      → Holds (elim r.0 as (λ x. Result E B × List C) [ err e ↦ (err e, r.1) | ok a ↦ next a r.1 ])
  later_Ensures (err e, calls) next k = tt
  later_Ensures (ok a, calls) next k = (k a).apply calls

  pub >>=-Ensures :
      {A B : Type 0} (m : Traced C E A) {next : A → Traced C E B}
      → ((a : A) → Ensures (next a))
      → Ensures (m >>= next)
  >>=-Ensures m {next} k = record { apply = λ calls. later_Ensures (m calls) next k }

  kept : {A : Type 0} (r : Result E A × List C) → I r.1 → Holds r
  kept (err e, calls) h = tt
  kept (ok a, calls) h = h

  first_Ensures :
      {A B : Type 0} (r : Result E A × List C) (next : A → Traced C E B)
      → Holds r
      → ((a : A) → Preserves I (next a))
      → Holds (elim r.0 as (λ x. Result E B × List C) [ err e ↦ (err e, r.1) | ok a ↦ next a r.1 ])
  first_Ensures (err e, calls) next h k = tt
  first_Ensures (ok a, calls) next h k = kept (next a calls) ((k a).apply calls h)

  pub Ensures->>= :
      {A B : Type 0} {m : Traced C E A} {next : A → Traced C E B}
      → Ensures m
      → ((a : A) → Preserves I (next a))
      → Ensures (m >>= next)
  Ensures->>= {m} {next} h k = record {
    apply = λ calls. first_Ensures (m calls) next (h.apply calls) k;
  }

  pub perform-Ensures :
      (fails : List C → C → Bool) (problem : C → E) (c : C)
      → ((calls : List C) → I (calls ++ (c ∷ [])))
      → Ensures (perform fails problem c)
  perform-Ensures fails problem c has = record {
    apply = λ calls. kept (perform fails problem c calls) (has calls);
  }

  performed :
      (fails : List C → C → Bool) (problem : C → E) (c : C) (next : Traced C E (Unit {0}))
      (calls : List C) (b : Bool)
      → (b ≡ false → Holds (next (calls ++ (c ∷ []))))
      → Holds (elim (outcome b (problem c)) as (λ x. Result E (Unit {0}) × List C) [
        | err e ↦ (err e, calls ++ (c ∷ []))
        | ok a ↦ next (calls ++ (c ∷ []))
      ])
  performed fails problem c next calls true k = tt
  performed fails problem c next calls false k = k refl

  -- A call, and what follows when it does not fail.
  pub perform->>-Ensures :
      (fails : List C → C → Bool) (problem : C → E) (c : C) (next : Traced C E (Unit {0}))
      → ((calls : List C) → fails calls c ≡ false → Holds (next (calls ++ (c ∷ []))))
      → Ensures (perform fails problem c >> next)
  perform->>-Ensures fails problem c next k = record {
    apply = λ calls. performed fails problem c next calls (fails calls c) (k calls);
  }

module _ {C E : Type 0} {A : Type 0} where
  holds_all :
      {X : Type 0} (I : X → List C → Type 0) (r : Result E A × List C)
      → ((x : X) → Holds (I x) r)
      → Holds (λ calls. (x : X) → I x calls) r
  holds_all I (err e, calls) h = tt
  holds_all I (ok a, calls) h = h

  pub Ensures-all :
      {X : Type 0} (I : X → List C → Type 0) {m : Traced C E A}
      → ((x : X) → Ensures (I x) m)
      → Ensures (λ calls. (x : X) → I x calls) m
  Ensures-all I {m} h = record { apply = λ calls. holds_all I (m calls) (λ x. (h x).apply calls) }

  holds_both :
      (I J : List C → Type 0) (r : Result E A × List C)
      → Holds I r
      → Holds J r
      → Holds (λ calls. I calls × J calls) r
  holds_both I J (err e, calls) h k = tt
  holds_both I J (ok a, calls) h k = (h, k)

  pub Ensures-both :
      (I J : List C → Type 0) {m : Traced C E A}
      → Ensures I m
      → Ensures J m
      → Ensures (λ calls. I calls × J calls) m
  Ensures-both I J {m} h k = record {
    apply = λ calls. holds_both I J (m calls) (h.apply calls) (k.apply calls);
  }

  pub holds_of_ok :
      (I : List C → Type 0) (r : Result E A × List C) {a : A} → Holds I r → r.0 ≡ ok a → I r.1
  holds_of_ok I (err e, calls) h k = absurd (err≢ok k)
  holds_of_ok I (ok a, calls) h k = h

  pub Ensures-trivial : (m : Traced C E A) → Ensures (λ calls. Unit {0}) m
  Ensures-trivial m = record { apply = λ calls. kept (λ c. Unit {0}) (m calls) tt }
