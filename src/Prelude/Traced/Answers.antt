-- ===== src/Prelude/Traced/Answers.antt =====
-- What code that succeeds answers.
use mathlib.Core.List.{List}
use urunc.Prelude.Fallible.{Result, ok, err}
use urunc.Prelude.Traced.{Traced, pure, ◌>>=◌}
use urunc.Prelude.Traced.Invariants.{Preserves}

-- Of what the code answers when it succeeds.
module _ {C E : Type 0} where
  abbrev pub Gives : {A : Type 0} → (A → Type 0) → Result E A × List C → Type 0
  Gives P (err e, calls) = Unit
  Gives P (ok a, calls) = P a

  pub record Yields {A : Type 0} (P : A → Type 0) (m : Traced C E A) : Type 0 where
    pub apply : (calls : List C) → Gives P (m calls)

  pub pure-Yields : {A : Type 0} (P : A → Type 0) (a : A) → P a → Yields P (pure a)
  pure-Yields P a h = record { apply = λ calls. h }

  next_Gives :
      {A B : Type 0} (Q : A → Type 0) (P : B → Type 0) (r : Result E A × List C)
      (next : A → Traced C E B)
      → Gives Q r
      → ((a : A) → Q a → Yields P (next a))
      → Gives P
          (elim r.0 as (λ x. Result E B × List C) [ err e ↦ (err e, r.1) | ok a ↦ next a r.1 ])
  next_Gives Q P (err e, calls) next h k = tt
  next_Gives Q P (ok a, calls) next h k = (k a h).apply calls

  pub Yields->>= :
      {A B : Type 0} (Q : A → Type 0) (P : B → Type 0) {m : Traced C E A} {next : A → Traced C E B}
      → Yields Q m
      → ((a : A) → Q a → Yields P (next a))
      → Yields P (m >>= next)
  Yields->>= Q P {m} {next} h k = record {
    apply = λ calls. next_Gives Q P (m calls) next (h.apply calls) k;
  }

  always_Gives : {A : Type 0} (r : Result E A × List C) → Gives (λ a. Unit {0}) r
  always_Gives (err e, calls) = tt
  always_Gives (ok a, calls) = tt

  pub >>=-Yields :
      {A B : Type 0} (P : B → Type 0) (m : Traced C E A) {next : A → Traced C E B}
      → ((a : A) → Yields P (next a))
      → Yields P (m >>= next)
  >>=-Yields P m k =
      Yields->>= (λ a. Unit {0}) P (record { apply = λ calls. always_Gives (m calls) }) (λ a h. k a)

  pub given_Preserves :
      {A B : Type 0} (Q : A → Type 0) (I : List C → Type 0) (r : Result E A × List C)
      (next : A → Traced C E B)
      → Gives Q r
      → I r.1
      → ((a : A) → Q a → Preserves I (next a))
      → I (elim r.0 as (λ x. Result E B × List C) [ err e ↦ (err e, r.1) | ok a ↦ next a r.1 ]).1
  given_Preserves Q I (err e, calls) next g h k = h
  given_Preserves Q I (ok a, calls) next g h k = (k a g).apply calls h

  pub Yields-Preserves :
      {A B : Type 0} (Q : A → Type 0) (I : List C → Type 0) {m : Traced C E A}
      {next : A → Traced C E B}
      → Yields Q m
      → Preserves I m
      → ((a : A) → Q a → Preserves I (next a))
      → Preserves I (m >>= next)
  Yields-Preserves Q I {m} {next} g h k = record {
    apply = λ calls i. given_Preserves Q I (m calls) next (g.apply calls) (h.apply calls i) k;
  }
