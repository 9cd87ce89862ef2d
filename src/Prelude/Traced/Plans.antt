-- ===== src/Prelude/Traced/Plans.antt =====
-- The calls that code makes, as a plan.
use mathlib.Core.Path.{◌≡◌, refl}
use mathlib.Core.Bool.{Bool, true, false}
use mathlib.Core.List.{List, [], ◌∷◌, ◌++◌}
use mathlib.Core.Logic.{◌⊎◌, inl, inr}
use urunc.Prelude.Tests.{Bool-cases}
use urunc.Prelude.Fallible.{Result, ok, err}
use urunc.Prelude.Lists.{append_assoc}
use urunc.Prelude.Traced.{Traced, pure, ◌>>◌, perform, or_undo}

-- A call of a plan, and the calls that are made when it fails.
abbrev pub Steps : Type 0 → Type 0
Steps C = List (C × List C)

abbrev pub step : {C : Type 0} → C → C × List C
step c = (c, [])

-- The code makes the calls of the plan in their order, each once. Where one fails it makes those that
-- stand beside it and ends with the error of the call; when none fails, it succeeds.
module _ {C E : Type 0} (fails : List C → C → Bool) (problem : C → E) where
  abbrev pub Follows : Steps C → List C → Result E (Unit {0}) × List C → Type 0
  Follows [] calls r = (r.0 ≡ ok tt) × (r.1 ≡ calls)
  Follows ((c, undo) ∷ plan) calls r =
      ((fails calls c ≡ true) × (r.0 ≡ err (problem c)) × (r.1 ≡ calls ++ (c ∷ undo)))
      ⊎ ((fails calls c ≡ false) × Follows plan (calls ++ (c ∷ [])) r)

  then-Follows :
      (plan later : Steps C) (calls : List C) (r : Result E (Unit {0}) × List C)
      (next : Traced C E (Unit {0}))
      → Follows plan calls r
      → ((calls : List C) → Follows later calls (next calls))
      → Follows (plan ++ later) calls (elim r.0 [ err e ↦ (err e, r.1) | ok a ↦ next r.1 ])
  then-Follows [] later calls r next (succeeds, same) h = rw succeeds (rw same (h calls))
  then-Follows ((c, undo) ∷ plan) later calls r next (inl (failed, error, made)) h =
      inl (failed, rw error refl, rw error made)
  then-Follows ((c, undo) ∷ plan) later calls r next (inr (done, rest)) h =
      inr (done, then-Follows plan later (calls ++ (c ∷ [])) r next rest h)

  pub record Does (plan : Steps C) (m : Traced C E (Unit {0})) : Type 0 where
    pub apply : (calls : List C) → Follows plan calls (m calls)

  pub >>-Does :
      {plan later : Steps C} {m next : Traced C E (Unit {0})}
      → Does plan m
      → Does later next
      → Does (plan ++ later) (m >> next)
  >>-Does {plan} {later} {m} {next} h k = record {
    apply = λ calls. then-Follows plan later calls (m calls) next (h.apply calls) k.apply;
  }

  pub pure-Does : Does [] (pure tt)
  pure-Does = record { apply = λ calls. (refl, refl) }

  perform-Follows :
      (c : C) (calls : List C) → Follows (step c ∷ []) calls (perform fails problem c calls)
  perform-Follows c calls = elim (Bool-cases (fails calls c)) [
    | inl e ↦ inl (e, rw e refl, refl)
    | inr e ↦ inr (e, (rw e refl, refl))
  ]

  pub perform-Does : (c : C) → Does (step c ∷ []) (perform fails problem c)
  perform-Does c = record { apply = perform-Follows c }

  or_undo-Follows :
      (c undo : C) (calls : List C)
      → Follows
          ((c, undo ∷ []) ∷ [])
          calls
          (or_undo (perform fails problem c) (perform fails problem undo) calls)
  or_undo-Follows c undo calls = elim (Bool-cases (fails calls c)) [
    | inl e ↦
        inl (e, rw (or_undo, e) refl, rw (or_undo, e) (append_assoc calls (c ∷ []) (undo ∷ [])))
    | inr e ↦ inr (e, (rw (or_undo, e) refl, rw (or_undo, e) refl))
  ]

  pub or_undo-Does :
      (c undo : C)
      → Does ((c, undo ∷ []) ∷ []) (or_undo (perform fails problem c) (perform fails problem undo))
  or_undo-Does c undo = record { apply = or_undo-Follows c undo }
