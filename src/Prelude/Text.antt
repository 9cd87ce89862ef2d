-- ===== src/Prelude/Text.antt =====
-- strings.HasPrefix is the library's `starts_with`; here are strings.Split at one character, and the
-- tests on all characters that the program's regular expressions make.
use Prim.Native.Nat.{ℕ, ◌+◌}
use Prim.Native.Char.{Char, code}
use Prim.Native.String.{String, ◌++◌ as ◌<>◌}
use mathlib.Core.Path.{◌≡◌, refl, ap, ◌∙◌}
use mathlib.Core.Logic.{◌≢◌}
use mathlib.Core.Bool.{Bool, true, ◌&&◌}
use mathlib.Core.List.{List, [], ◌∷◌, ◌++◌}
use native.Mathlib.Omega.{arith}
use text.Mathlib.TextLemmas.{cons-append, nil-append}
use mathlib.Core.Path.{ap₂}
use mathlib.Core.Logic.{inl, inr}
use text.Mathlib.TextEquality.{Char-path}
use mathlib.Core.Option.{Option, none, some}
use urunc.Prelude.Tests.{eqb, ltb, if◌then◌else◌, Bool-cases}

-- The character goes in front of the first part.
abbrev pub push : Char → List String → List String
push c [] = String.◌∷◌ c String.[] ∷ []
push c (p ∷ ps) = String.◌∷◌ c p ∷ ps

-- `strings.Split(s, sep)` for a separator of one character.
unfoldable pub split : ℕ → String → List String
split sep String.[] = "" ∷ []
split sep (String.◌∷◌ c s) =
    let rest = split sep s in if eqb (code c) sep then "" ∷ rest else push c rest

-- Every character satisfies the test.
unfoldable pub all_chars : (ℕ → Bool) → String → Bool
all_chars p String.[] = true
all_chars p (String.◌∷◌ c s) = p (code c) && all_chars p s

-- `len(s)`: the bytes of the UTF-8 encoding.
unfoldable pub byte_len : String → ℕ
byte_len String.[] = 0
byte_len (String.◌∷◌ c s) =
    let n = code c in
    (if ltb n 128 then 1 else if ltb n 2048 then 2 else if ltb n 65536 then 3 else 4) + byte_len s

-- `strings.Cut` at one character: the part before it, and the part after it if it occurs.
unfoldable pub cut : ℕ → String → String × Option String
cut sep String.[] = ("", none)
cut sep (String.◌∷◌ c s) =
    let rest = cut sep s in if eqb (code c) sep then ("", some s) else (String.◌∷◌ c rest.0, rest.1)

-- `strings.CutPrefix`
unfoldable pub cut_prefix : String → String → Option String
cut_prefix String.[] s = some s
cut_prefix (String.◌∷◌ d p) String.[] = none
cut_prefix (String.◌∷◌ d p) (String.◌∷◌ c s) =
    let rest = cut_prefix p s in if eqb (code d) (code c) then rest else none

-- The character does not occur.
abbrev pub Lacks : ℕ → String → Type 0
Lacks sep String.[] = Unit
Lacks sep (String.◌∷◌ c s) = (code c ≢ sep) × Lacks sep s

pub split-append :
    (sep : ℕ) (d : Char) (p s : String)
    → code d ≡ sep
    → Lacks sep p
    → split sep (p <> (String.◌∷◌ d s)) ≡ p ∷ split sep s
unfolding split
split-append sep d String.[] s e free = rw nil-append (ground arith)
split-append sep d (String.◌∷◌ c p) s e free =
    rw cons-append (ground (arith, split-append sep d p s e free.1))

pub split_of_Lacks : (sep : ℕ) (p : String) → Lacks sep p → split sep p ≡ p ∷ []
unfolding split
split_of_Lacks sep String.[] free = refl
split_of_Lacks sep (String.◌∷◌ c p) free = ground (arith, split_of_Lacks sep p free.1)

-- The parts with the separator between them.
unfoldable pub join : Char → List String → String
join d [] = ""
join d (p ∷ []) = p
join d (p ∷ q ∷ ps) = p <> (String.◌∷◌ d (join d (q ∷ ps)))

push-ne-nil : (c : Char) (ps : List String) → push c ps ≢ []
push-ne-nil c [] h = cc
push-ne-nil c (p ∷ ps) h = cc

pub join-one : (d : Char) (p : String) → join d (p ∷ []) ≡ p
unfolding join
join-one d p = refl

pub join-pair : (d : Char) (p q : String) → join d (p ∷ q ∷ []) ≡ p <> (String.◌∷◌ d q)
unfolding join
join-pair d p q = refl

push-append : (c : Char) (ps qs : List String) → ps ≢ [] → push c (ps ++ qs) ≡ push c ps ++ qs
push-append c [] qs h = absurd (h refl)
push-append c (p ∷ ps) qs h = refl

split-ne-nil : (sep : ℕ) (s : String) → split sep s ≢ []
unfolding split
split-ne-nil sep String.[] h = cc
split-ne-nil sep (String.◌∷◌ c s) h = ground (arith, push-ne-nil c (split sep s))

join-push :
    (d c : Char) (ps : List String) → ps ≢ [] → join d (push c ps) ≡ String.◌∷◌ c (join d ps)
unfolding join
join-push d c [] h = absurd (h refl)
join-push d c (p ∷ []) h = refl
join-push d c (p ∷ q ∷ ps) h = cons-append c p (String.◌∷◌ d (join d (q ∷ ps)))

join-cons_empty :
    (d : Char) (ps : List String) → ps ≢ [] → join d ("" ∷ ps) ≡ String.◌∷◌ d (join d ps)
unfolding join
join-cons_empty d [] h = absurd (h refl)
join-cons_empty d (q ∷ ps) h = nil-append (String.◌∷◌ d (join d (q ∷ ps)))

-- Joining the parts of a split gives the text back.
pub join-split : (sep : ℕ) (d : Char) (s : String) → code d ≡ sep → join d (split sep s) ≡ s
unfolding split
join-split sep d String.[] e = unfold join in refl
join-split sep d (String.◌∷◌ c s) e = elim (Bool-cases (eqb (code c) sep)) [
  | inl same ↦ rw same (
      join-cons_empty d (split sep s) (split-ne-nil sep s)
      ∙ ap₂ (λ x y. String.◌∷◌ x y) (Char-path d c (ground arith)) (join-split sep d s e))
  | inr other ↦ rw other (
      join-push d c (split sep s) (split-ne-nil sep s)
      ∙ ap (λ y. String.◌∷◌ c y) (join-split sep d s e))
]

-- The parts of a text in front of a separator, then those of the rest.
pub split-append_any :
    (sep : ℕ) (d : Char) (p s : String)
    → code d ≡ sep
    → split sep (p <> (String.◌∷◌ d s)) ≡ split sep p ++ split sep s
unfolding split
split-append_any sep d String.[] s e = rw nil-append (ground arith)
split-append_any sep d (String.◌∷◌ c p) s e = rw cons-append (elim (Bool-cases (eqb (code c) sep)) [
  | inl same ↦ rw (same, split-append_any sep d p s e)
  | inr other ↦
      rw (other, split-append_any sep d p s e)
        (push-append c (split sep p) (split sep s) (split-ne-nil sep p))
])

pub Lacks-append : (sep : ℕ) (p s : String) → Lacks sep p → Lacks sep s → Lacks sep (p <> s)
Lacks-append sep String.[] s h k = rw nil-append k
Lacks-append sep (String.◌∷◌ c p) s h k = rw cons-append (h.0, Lacks-append sep p s h.1 k)
