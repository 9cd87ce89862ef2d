-- ===== src/Prelude/Lists.antt =====
-- Lists measured by native numbers, and predicates over all elements.
use Prim.Native.Nat.{ℕ, suc, ◌+◌}
use mathlib.Core.Path.{◌≡◌, refl, ap}
use mathlib.Core.Bool.{Bool, false, ◌||◌}
use mathlib.Core.Option.{Option, none, some}
use urunc.Prelude.Tests.{if◌then◌else◌}
use mathlib.Core.List.{List, [], ◌∷◌, ◌++◌}
use mathlib.Core.Logic.{◌⊎◌, inl, inr}
use native.Mathlib.Omega.{arith}
use Prim.Native.String.{String}
use text.Mathlib.Text.{◌==◌}

module _ {ℓ} {A : Type ℓ} where
  abbrev pub length : List A → ℕ
  length [] = 0
  length (x ∷ xs) = suc (length xs)

  pub length-append : (xs ys : List A) → length (xs ++ ys) ≡ length xs + length ys
  length-append [] ys = omega arith
  length-append (x ∷ xs) ys = omega (arith, length-append xs ys)

  abbrev pub All {κ} : (A → Type κ) → List A → Type κ
  All P [] = Unit
  All P (x ∷ xs) = P x × All P xs

-- `slices.Contains`
unfoldable pub contains : List String → String → Bool
contains [] a = false
contains (x ∷ xs) a = x == a || contains xs a

module _ {ℓ} {A : Type ℓ} where
  -- The elements that pass the test, in their order.
  abbrev pub keep : (A → Bool) → List A → List A
  keep p [] = []
  keep p (x ∷ xs) = let rest = keep p xs in if p x then x ∷ rest else rest

  -- What the elements give, in their order, less those that give nothing.
  abbrev pub choose {κ} : {B : Type κ} → (A → Option B) → List A → List B
  choose f [] = []
  choose f (x ∷ xs) = let rest = choose f xs in elim (f x) [ none ↦ rest | some y ↦ y ∷ rest ]

  -- The first that the elements give.
  abbrev pub first_of {κ} : {B : Type κ} → (A → Option B) → List A → Option B
  first_of f [] = none
  first_of f (x ∷ xs) = let rest = first_of f xs in elim (f x) [ none ↦ rest | some y ↦ some y ]

  -- The last that the elements give.
  abbrev pub last_of {κ} : {B : Type κ} → (A → Option B) → List A → Option B
  last_of f [] = none
  last_of f (x ∷ xs) = elim (last_of f xs) [ none ↦ f x | some y ↦ some y ]

  pub append-nil : (xs : List A) → xs ++ [] ≡ xs
  append-nil [] = refl
  append-nil (x ∷ xs) = ap (λ l. x ∷ l) (append-nil xs)

  pub append_assoc : (xs ys zs : List A) → (xs ++ ys) ++ zs ≡ xs ++ (ys ++ zs)
  append_assoc [] ys zs = refl
  append_assoc (x ∷ xs) ys zs = ap (λ l. x ∷ l) (append_assoc xs ys zs)

  pub keep-cons :
      (p : A → Bool) (x : A) (xs : List A) → keep p (x ∷ xs) ≡ keep p (x ∷ []) ++ keep p xs
  keep-cons p x xs = ground arith

  pub choose-cons {κ} :
      {B : Type κ} (f : A → Option B) (x : A) (xs : List A)
      → choose f (x ∷ xs) ≡ choose f (x ∷ []) ++ choose f xs
  choose-cons f x xs = ground arith

  pub All-append {κ} : (P : A → Type κ) (xs ys : List A) → All P xs → All P ys → All P (xs ++ ys)
  All-append P [] ys h k = k
  All-append P (x ∷ xs) ys h k = (h.0, All-append P xs ys h.1 k)

  abbrev pub Any : (A → Type 0) → List A → Type 0
  Any P [] = ⊥
  Any P (x ∷ xs) = P x ⊎ Any P xs

  pub Any-append : (P : A → Type 0) (xs ys : List A) → Any P xs → Any P (xs ++ ys)
  Any-append P [] ys h = elim h [ ]
  Any-append P (x ∷ xs) ys (inl h) = inl h
  Any-append P (x ∷ xs) ys (inr h) = inr (Any-append P xs ys h)

  pub Any-last : (P : A → Type 0) (xs : List A) (y : A) → P y → Any P (xs ++ (y ∷ []))
  Any-last P [] y h = inl h
  Any-last P (x ∷ xs) y h = inr (Any-last P xs y h)
