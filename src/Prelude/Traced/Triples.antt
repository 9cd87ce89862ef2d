-- ===== src/Prelude/Traced/Triples.antt =====
-- What code answers and has done, and when it fails.
use mathlib.Core.Path.{◌≡◌, refl, subst}
use mathlib.Core.Bool.{Bool, true, false}
use mathlib.Core.List.{List, [], ◌∷◌, ◌++◌}
use urunc.Prelude.Fallible.{Result, ok, err}
use urunc.Prelude.Traced.{Traced, pure, ◌>>=◌, perform, outcome, err≢ok}

-- Of why the code fails.
module _ {C E : Type 0} (P : List C → Type 0) where
  abbrev pub Blame : {A : Type 0} → Result E A × List C → Type 0
  Blame (err e, calls) = P calls
  Blame (ok a, calls) = Unit

  -- When it fails, this holds of the calls that it has made.
  pub record Blames {A : Type 0} (m : Traced C E A) : Type 0 where
    pub apply : (calls : List C) → Blame (m calls)

  pub pure-Blames : {A : Type 0} (a : A) → Blames (pure {C = C} {E = E} a)
  pure-Blames a = record { apply = λ calls. tt }

  next_Blame :
      {A B : Type 0} (r : Result E A × List C) (next : A → Traced C E B)
      → Blame r
      → ((a : A) → Blames (next a))
      → Blame (elim r.0 as (λ x. Result E B × List C) [ err e ↦ (err e, r.1) | ok a ↦ next a r.1 ])
  next_Blame (err e, calls) next h k = h
  next_Blame (ok a, calls) next h k = (k a).apply calls

  pub >>=-Blames :
      {A B : Type 0} {m : Traced C E A} {next : A → Traced C E B}
      → Blames m
      → ((a : A) → Blames (next a))
      → Blames (m >>= next)
  >>=-Blames {m} {next} h k = record {
    apply = λ calls. next_Blame (m calls) next (h.apply calls) k;
  }

  failing_Blame :
      (e : E) (calls : List C) (b : Bool) → (b ≡ true → P calls) → Blame (outcome b e, calls)
  failing_Blame e calls true k = k refl
  failing_Blame e calls false k = tt

  pub perform-Blames :
      (fails : List C → C → Bool) (problem : C → E) (c : C)
      → ((calls : List C) → fails calls c ≡ true → P (calls ++ (c ∷ [])))
      → Blames (perform fails problem c)
  perform-Blames fails problem c k = record {
    apply = λ calls. failing_Blame (problem c) (calls ++ (c ∷ [])) (fails calls c) (k calls);
  }

-- Of what the code answers when it succeeds, and the calls that it has made.
module _ {C E : Type 0} where
  abbrev pub Leaves : {A : Type 0} → (A → List C → Type 0) → Result E A × List C → Type 0
  Leaves P (err e, calls) = Unit
  Leaves P (ok a, calls) = P a calls

  -- From calls of which `I` holds.
  pub record Leads {A : Type 0} (I : List C → Type 0) (P : A → List C → Type 0) (m : Traced C E A)
      : Type 0 where
    pub apply : (calls : List C) → I calls → Leaves P (m calls)

  next_Leaves :
      {A B : Type 0} (Q : A → List C → Type 0) (P : B → List C → Type 0) (r : Result E A × List C)
      (next : A → Traced C E B)
      → Leaves Q r
      → ((a : A) → Leads (Q a) P (next a))
      → Leaves P
          (elim r.0 as (λ x. Result E B × List C) [ err e ↦ (err e, r.1) | ok a ↦ next a r.1 ])
  next_Leaves Q P (err e, calls) next h k = tt
  next_Leaves Q P (ok a, calls) next h k = (k a).apply calls h

  pub Leads->>= :
      {A B : Type 0} (I : List C → Type 0) (Q : A → List C → Type 0) (P : B → List C → Type 0)
      {m : Traced C E A} {next : A → Traced C E B}
      → Leads I Q m
      → ((a : A) → Leads (Q a) P (next a))
      → Leads I P (m >>= next)
  Leads->>= I Q P {m} {next} h k = record {
    apply = λ calls i. next_Leaves Q P (m calls) next (h.apply calls i) k;
  }

  anything_Leaves : {A : Type 0} (r : Result E A × List C) → Leaves (λ a calls. Unit {0}) r
  anything_Leaves (err e, calls) = tt
  anything_Leaves (ok a, calls) = tt

  pub pure-Leads :
      {A : Type 0} (I : List C → Type 0) (P : A → List C → Type 0) (a : A)
      → ((calls : List C) → I calls → P a calls)
      → Leads I P (pure a)
  pure-Leads I P a k = record { apply = k }

  pub Leads-anything :
      {A : Type 0} (I : List C → Type 0) (m : Traced C E A) → Leads I (λ a calls. Unit {0}) m
  Leads-anything I m = record { apply = λ calls i. anything_Leaves (m calls) }

  pub Leaves-of_calls :
      {A : Type 0} (I : List C → Type 0) (r : Result E A × List C) → I r.1 → Leaves (λ a. I) r
  Leaves-of_calls I (err e, calls) h = tt
  Leaves-of_calls I (ok a, calls) h = h

  pub Leaves-both :
      {A : Type 0} (P : A → List C → Type 0) (I : List C → Type 0) (r : Result E A × List C)
      → Leaves P r
      → I r.1
      → Leaves (λ a calls. P a calls × I calls) r
  Leaves-both P I (err e, calls) h k = tt
  Leaves-both P I (ok a, calls) h k = (h, k)

  pub leaves_of_ok :
      {A : Type 0} (P : A → List C → Type 0) (r : Result E A × List C) {a : A}
      → Leaves P r
      → r.0 ≡ ok a
      → P a r.1
  leaves_of_ok P (err e, calls) h k = absurd (err≢ok k)
  leaves_of_ok P (ok b, calls) h k = subst (λ x. Leaves P (x, calls)) k h
