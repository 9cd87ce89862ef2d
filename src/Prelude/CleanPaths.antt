-- ===== src/Prelude/CleanPaths.antt =====
-- A clean path that does not start with ".." has no element "..".
use mathlib.Core.List.{reverse_aux}
use Prim.Native.Nat.{ℕ}
use Prim.Native.Char.{Char, code}
use Prim.Native.String.{String, ◌++◌ as ◌<>◌}
use mathlib.Core.Path.{◌≡◌, refl, sym, ap, ◌∙◌, subst}
use mathlib.Core.Logic.{◌≢◌, ◌⊎◌, inl, inr}
use mathlib.Core.Bool.{Bool, true, false, ◌||◌}
use mathlib.Core.List.{List, [], ◌∷◌}
use text.Mathlib.Text.{◌==◌, starts_with}
use text.Mathlib.TextPositions.{starts_with-append}
use text.Mathlib.TextLemmas.{cons-append, nil-append}
use text.Mathlib.TextEquality.{eq_iff}
use native.Mathlib.Omega.{arith}
use urunc.Prelude.Tests.{eqb, if◌then◌else◌, Bool-cases}
use urunc.Prelude.Lists.{All}
use urunc.Prelude.Text.{push, split, join, Lacks, split-append, split_of_Lacks}
use urunc.Prelude.Filepath.{slash, is_abs, clean_step, clean_parts, elements, clean}

-- An element of a path that is no step up.
abbrev pub IsBelow : String → Type 0
IsBelow part = (◌≢◌ {A = String} part "..") × Lacks slash part

-- The last element of the list, which is the path's first, is a step up.
abbrev EndsUp : List String → Type 0
EndsUp [] = ⊥
EndsUp (p ∷ []) = p ≡ ".."
EndsUp (p ∷ q ∷ ps) = EndsUp (q ∷ ps)

-- The elements kept so far: none is a step up, or the path is relative and starts with one.
abbrev Kept : Bool → List String → Type 0
Kept rooted kept = All IsBelow kept ⊎ ((rooted ≡ false) × EndsUp kept)

EndsUp-cons : (p : String) (ps : List String) → EndsUp ps → EndsUp (p ∷ ps)
EndsUp-cons p [] h = absurd h
EndsUp-cons p (q ∷ ps) h = h

-- A step up takes the last element away, or is kept on another one.
EndsUp-tail : (p : String) (ps : List String) → p ≢ ".." → EndsUp (p ∷ ps) → EndsUp ps
EndsUp-tail p [] ne h = absurd (ne h)
EndsUp-tail p (q ∷ ps) ne h = h

clean_step-Kept :
    (rooted : Bool) (part : String) (kept : List String)
    → Lacks slash part
    → Kept rooted kept
    → Kept rooted (clean_step rooted part kept)
unfolding clean_step
clean_step-Kept true part [] free (inl h) = inl (ground (arith, eq_iff part ".."))
clean_step-Kept false part [] free (inl h) = elim (Bool-cases (part == "" || part == ".")) [
  | inl e ↦ rw e (inl tt)
  | inr e ↦ elim (Bool-cases (part == "..")) [
    | inl u ↦ rw (e, u) (inr (refl, refl))
    | inr u ↦ rw (e, u) (inl ((ground (arith, eq_iff part ".."), free), tt))
  ]
]
clean_step-Kept rooted part [] free (inr (r, h)) = absurd h
clean_step-Kept rooted part (top ∷ rest) free h = elim (Bool-cases (part == "" || part == ".")) [
  | inl e ↦ rw e h
  | inr e ↦ elim (Bool-cases (part == "..")) [
    | inr u ↦
        rw (e, u)
          (elim h [
            | inl below ↦ inl ((ground (arith, eq_iff part ".."), free), below)
            | inr (r, up) ↦ inr (r, up)
          ])
    | inl u ↦ elim (Bool-cases (top == "..")) [
      | inl t ↦
          rw (e, u, t)
            (elim h [
              | inl below ↦ absurd (below.0.0 (ground (arith, eq_iff top "..")))
              | inr (r, up) ↦ inr (r, up)
            ])
      | inr t ↦
          rw (e, u, t)
            (elim h [
              | inl below ↦ inl below.1
              | inr (r, up) ↦ inr (r, EndsUp-tail top rest (ground (arith, eq_iff top "..")) up)
            ])
    ]
  ]
]

clean_parts-Kept :
    (rooted : Bool) (parts kept : List String)
    → All (Lacks slash) parts
    → Kept rooted kept
    → Kept rooted (clean_parts rooted parts kept)
unfolding clean_parts
clean_parts-Kept rooted [] kept free h = h
clean_parts-Kept rooted (part ∷ parts) kept free h =
    clean_parts-Kept rooted parts (clean_step rooted part kept) free.1
      (clean_step-Kept rooted part kept free.0 h)

push-Lacks :
    (sep : ℕ) (c : Char) (ps : List String)
    → code c ≢ sep
    → All (Lacks sep) ps
    → All (Lacks sep) (push c ps)
push-Lacks sep c [] ne h = ((ne, tt), tt)
push-Lacks sep c (p ∷ ps) ne h = ((ne, h.0), h.1)

split-Lacks : (sep : ℕ) (s : String) → All (Lacks sep) (split sep s)
unfolding split
split-Lacks sep String.[] = (tt, tt)
split-Lacks sep (String.◌∷◌ c s) = elim (Bool-cases (eqb (code c) sep)) [
  | inl e ↦ rw e (tt, split-Lacks sep s)
  | inr e ↦ rw e (push-Lacks sep c (split sep s) (ground arith) (split-Lacks sep s))
]

-- Splitting undoes joining, if no part has the separator.
split-join :
    (sep : ℕ) (d : Char) (p : String) (ps : List String)
    → code d ≡ sep
    → All (Lacks sep) (p ∷ ps)
    → split sep (join d (p ∷ ps)) ≡ p ∷ ps
unfolding join
split-join sep d p [] e h = split_of_Lacks sep p h.0
split-join sep d p (q ∷ ps) e h =
    split-append sep d p (join d (q ∷ ps)) e h.0 ∙ ap (λ l. p ∷ l) (split-join sep d q ps e h.1)

Below-Lacks : (ps : List String) → All IsBelow ps → All (Lacks slash) ps
Below-Lacks [] h = tt
Below-Lacks (p ∷ ps) h = (h.0.1, Below-Lacks ps h.1)

-- What `reverse` makes of the kept elements.
All-reverse_aux :
    (xs acc : List String) → All IsBelow xs → All IsBelow acc → All IsBelow (reverse_aux xs acc)
All-reverse_aux [] acc h k = k
All-reverse_aux (x ∷ xs) acc h k = All-reverse_aux xs (x ∷ acc) h.1 (h.0, k)

abbrev StartsUp : List String → Type 0
StartsUp ps = (rest : List String) × (ps ≡ ".." ∷ rest)

EndsUp-reverse_aux : (xs acc : List String) → EndsUp xs → StartsUp (reverse_aux xs acc)
EndsUp-reverse_aux [] acc h = absurd h
EndsUp-reverse_aux (x ∷ []) acc h = (acc, ap (λ p. p ∷ acc) h)
EndsUp-reverse_aux (x ∷ y ∷ xs) acc h = EndsUp-reverse_aux (y ∷ xs) (x ∷ acc) h

join-starts_up : (rest : List String) → starts_with (join "/" (".." ∷ rest)) ".." ≡ true
unfolding join
join-starts_up [] = refl
join-starts_up (q ∷ rest) = starts_with-append ".." (String.◌∷◌ "/" (join "/" (q ∷ rest)))

elements-Kept :
    (s : String) → All IsBelow (elements s) ⊎ ((is_abs s ≡ false) × StartsUp (elements s))
unfolding elements
elements-Kept s =
    elim (clean_parts-Kept (is_abs s) (split slash s) [] (split-Lacks slash s) (inl tt)) [
      | inl h ↦ inl (All-reverse_aux (clean_parts (is_abs s) (split slash s) []) [] h tt)
      | inr (r, up) ↦ inr (r, EndsUp-reverse_aux (clean_parts (is_abs s) (split slash s) []) [] up)
    ]

-- No element is a step up.
unfoldable pub NoUp : List String → Type 0
NoUp = All (λ part. ◌≢◌ {A = String} part "..")

NoUp-of_Below : (ps : List String) → All IsBelow ps → NoUp ps
unfolding NoUp
NoUp-of_Below [] h = tt
NoUp-of_Below (p ∷ ps) h = (h.0.0, NoUp-of_Below ps h.1)

-- The joined elements, split again.
joined-NoUp : (ps : List String) → All IsBelow ps → NoUp (split slash (join "/" ps))
unfolding NoUp join split
joined-NoUp [] h = (ground (arith, eq_iff "" ".."), tt)
joined-NoUp (p ∷ ps) h =
    subst NoUp (sym (split-join slash "/" p ps refl (Below-Lacks (p ∷ ps) h)))
      (NoUp-of_Below (p ∷ ps) h)

rooted-NoUp : (ps : List String) → All IsBelow ps → NoUp (split slash ("/" <> join "/" ps))
unfolding NoUp split
rooted-NoUp ps h = rw (cons-append, nil-append) (ground (arith, eq_iff "" ".."), joined-NoUp ps h)

clean_abs : (s : String) → is_abs s ≡ true → clean s ≡ "/" <> join "/" (elements s)
unfolding clean
clean_abs s e = rw e refl

clean_relative :
    (s : String)
    → is_abs s ≡ false
    → clean s ≡ (if join "/" (elements s) == "" then "." else join "/" (elements s))
unfolding clean
clean_relative s e = rw e refl

or_dot-NoUp :
    (out : String) → NoUp (split slash out) → NoUp (split slash (if out == "" then "." else out))
unfolding NoUp split
or_dot-NoUp out h = elim (Bool-cases (out == "")) [
  | inl e ↦ rw e (ground (arith, eq_iff "." ".."), tt)
  | inr e ↦ rw e h
]

or_dot-starts_up :
    (out : String)
    → starts_with out ".." ≡ true
    → starts_with (if out == "" then "." else out) ".." ≡ true
or_dot-starts_up out h = elim (Bool-cases (out == "")) [
  | inl e ↦ absurd (
      let h' : starts_with "" ".." ≡ true =
        subst (λ v. starts_with v ".." ≡ true) ((eq_iff out "").0 e) h in
      cc)
  | inr e ↦ rw e h
]

true-ne-false : ◌≢◌ {A = Bool} true false
true-ne-false h = cc

-- A clean path that does not start with ".." has no step up anywhere.
pub clean-NoUp : (s : String) → clean s ≡ s → starts_with s ".." ≡ false → NoUp (split slash s)
clean-NoUp s same plain = elim (elements-Kept s) [
  | inl below ↦
      subst (λ v. NoUp (split slash v)) same
        (elim (Bool-cases (is_abs s)) [
          | inl e ↦
              subst (λ v. NoUp (split slash v)) (sym (clean_abs s e))
                (rooted-NoUp (elements s) below)
          | inr e ↦
              subst (λ v. NoUp (split slash v)) (sym (clean_relative s e))
                (or_dot-NoUp _ (joined-NoUp (elements s) below))
        ])
  | inr (r, (rest, e)) ↦
      let up : starts_with s ".." ≡ true =
        subst (λ v. starts_with v ".." ≡ true) (sym (clean_relative s r) ∙ same)
          (or_dot-starts_up (join "/" (elements s))
            (subst (λ ps. starts_with (join "/" ps) ".." ≡ true) (sym e) (join-starts_up rest))) in
      absurd (true-ne-false (sym up ∙ plain))
]
