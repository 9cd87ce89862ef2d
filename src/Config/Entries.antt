-- ===== src/Config/Entries.antt =====
-- What the loops of UruncConfigFromMap make of one field of one name: the value stored under the
-- key of that field, whatever the order of the entries.
use urunc.Prelude.{
  String, ◌<>◌, ◌==◌, eq_iff, eq_refl, starts_with, Bool, true, false, Option, none, some, List, [],
  ◌∷◌, if◌then◌else◌, ◌&&◌, ◌≡◌, refl, sym, ◌∙◌, ap, arith, inl, inr, Bool-cases,
}
use urunc.Prelude.Map.{Map, lookup, insert, NodupKeys, lookup-insert}
use urunc.Prelude.Text.{split, Lacks, split-append, split_of_Lacks, join, join-pair, join-split}
use urunc.Config.{found, read_parts, read_entry, read_entries}
use text.Mathlib.TextEquality.{starts_with_iff}
use text.Mathlib.TextPositions.{starts_with-append}
use text.Mathlib.TextLemmas.{append_assoc, cons-append, nil-append, append_cancel_left}

-- The key of a field: prefix, name, dot, field.
abbrev pub key : String → String → String → String
key prefix name field = ((prefix <> name) <> ".") <> field

-- The prefixes of the two loops are two words, each with a dot behind it.
pub record IsPrefixOf (word₁ word₂ prefix : String) : Type 0 where
  pub dotless₁ : Lacks b'.' word₁
  pub dotless₂ : Lacks b'.' word₂
  pub written : prefix ≡ word₁ <> ("." <> (word₂ <> "."))

dot_front : (s : String) → "." <> s ≡ String.◌∷◌ "." s
dot_front s = cons-append "." "" s ∙ ap (λ t. String.◌∷◌ "." t) (nil-append s)

prefix-rest :
    (word₁ word₂ prefix s : String)
    → IsPrefixOf word₁ word₂ prefix
    → prefix <> s ≡ word₁ <> (String.◌∷◌ "." (word₂ <> (String.◌∷◌ "." s)))
prefix-rest word₁ word₂ prefix s h =
    rw (h.written, append_assoc, append_assoc, append_assoc, dot_front, dot_front)

pub split-prefix :
    (word₁ word₂ prefix s : String)
    → IsPrefixOf word₁ word₂ prefix
    → split b'.' (prefix <> s) ≡ word₁ ∷ word₂ ∷ split b'.' s
split-prefix word₁ word₂ prefix s h =
    rw (prefix-rest word₁ word₂ prefix s h, split-append b'.' "." word₁ _ refl h.dotless₁)
      (ap (λ t. word₁ ∷ t) (split-append b'.' "." word₂ s refl h.dotless₂))

pub key-rest :
    (prefix name field : String)
    → key prefix name field ≡ prefix <> (name <> (String.◌∷◌ "." field))
key-rest prefix name field = rw (append_assoc, append_assoc, dot_front)

abbrev pub is_pair : List String → String → String → Bool
is_pair (h ∷ g ∷ []) name field = h == name && g == field
is_pair _ name field = false

pub is_pair_eq :
    (ps : List String) (name field : String) → is_pair ps name field ≡ true → ps ≡ name ∷ field ∷ []
is_pair_eq [] name field h = cc
is_pair_eq (a ∷ []) name field h = cc
is_pair_eq (a ∷ b ∷ []) name field h = ground (arith, eq_iff a name, eq_iff b field)
is_pair_eq (a ∷ b ∷ c ∷ ps) name field h = cc

pub split-pair :
    (name field : String)
    → Lacks b'.' name
    → Lacks b'.' field
    → split b'.' (name <> (String.◌∷◌ "." field)) ≡ name ∷ field ∷ []
split-pair name field hn hf =
    split-append b'.' "." name field refl hn ∙ ap (λ t. name ∷ t) (split_of_Lacks b'.' field hf)

module _ (name field : String) (hn : Lacks b'.' name) (hf : Lacks b'.' field) where
  -- A key is the key of the field exactly when its last two parts are the name and the field.
  pub key-eq_is_pair :
      (prefix rest : String)
      → ((prefix <> rest) == key prefix name field) ≡ is_pair (split b'.' rest) name field
  key-eq_is_pair prefix rest = elim (Bool-cases (is_pair (split b'.' rest) name field)) [
    | inl yes_pair ↦ rw yes_pair (
        (eq_iff (prefix <> rest) (key prefix name field)).1 (
          ap (λ t. prefix <> t)
            (sym (join-split b'.' "." rest refl)
              ∙ ap (join ".") (is_pair_eq (split b'.' rest) name field yes_pair)
              ∙ join-pair "." name field)
          ∙ sym (key-rest prefix name field)))
    | inr no_pair ↦ elim (Bool-cases ((prefix <> rest) == key prefix name field)) [
      | inr differ ↦ rw (no_pair, differ)
      | inl same ↦
          let e : rest ≡ name <> (String.◌∷◌ "." field) = append_cancel_left prefix rest _ (
            (eq_iff (prefix <> rest) (key prefix name field)).0 same
            ∙ key-rest prefix name field) in
          let pair : split b'.' rest ≡ name ∷ field ∷ [] =
            ap (split b'.') e ∙ split-pair name field hn hf in
          let f : (name == name && field == field) ≡ false = rw pair at no_pair in
          absurd (ground (arith, eq_refl name, eq_refl field))
    ]
  ]

-- One field of the settings `C`: how it is read off, and how a stored value changes it.
pub record Field {C : Type 0} (V : Type 0) (set_field : String → String → C → C) (field : String)
    : Type 0 where
  pub proj : C → V
  pub update : String → V → V
  pub law :
      (g val : String) (c : C)
      → proj (set_field g val c) ≡ (if g == field then update val (proj c) else proj c)

-- A field after what is stored for it, if anything is.
abbrev pub updated : {V : Type 0} → (String → V → V) → Option String → V → V
updated update none old = old
updated update (some val) old = update val old

module _ {C : Type 0} (prefix : String) (zero_value : C) (set_field : String → String → C → C) where
  abbrev at : String → Map C → C
  at = found prefix zero_value set_field

  at-insert :
      (h name : String) (x : C) (cs : Map C)
      → at name (insert h x cs) ≡ (if h == name then x else at name cs)
  at-insert h name x cs = rw (lookup-insert, found) (ground arith)

  module _ {V : Type 0} (name field : String) (hn : Lacks b'.' name) (hf : Lacks b'.' field)
      (word₁ word₂ : String) (two_words : IsPrefixOf word₁ word₂ prefix)
      (fd : Field V set_field field) where
    read_parts-field :
        (ps : List String) (val : String) (cs : Map C)
        → fd.proj (at name (read_parts prefix zero_value set_field (word₁ ∷ word₂ ∷ ps) val cs)) ≡ (
            if is_pair ps name field
            then fd.update val (fd.proj (at name cs))
            else fd.proj (at name cs))
    read_parts-field [] val cs = refl
    read_parts-field (a ∷ []) val cs = refl
    read_parts-field (a ∷ b ∷ c ∷ ps) val cs = refl
    read_parts-field (a ∷ b ∷ []) val cs =
        rw at-insert
          (ground (arith, eq_iff a name, fd.law b val (at name cs), fd.law b val (at a cs)))

    -- An entry changes the field of a name exactly when it is stored under the key of that field.
    read_entry-field :
        (k val : String) (cs : Map C)
        → fd.proj (at name (read_entry prefix zero_value set_field k val cs)) ≡ (
            if k == key prefix name field
            then fd.update val (fd.proj (at name cs))
            else fd.proj (at name cs))
    unfolding read_entry
    read_entry-field k val cs = elim (Bool-cases (starts_with k prefix)) [
      | inl front ↦
          let (rest, e) = (starts_with_iff k prefix).0 front in
          rw (front, ← e, split-prefix word₁ word₂ prefix rest two_words)
            (rw (key-eq_is_pair name field hn hf prefix rest)
              (read_parts-field (split b'.' rest) val cs))
      | inr other ↦ elim (Bool-cases (k == key prefix name field)) [
        | inl same ↦ absurd (
            ground (
              arith,
              ap (λ t. starts_with t prefix) ((eq_iff k (key prefix name field)).0 same),
              ap (λ t. starts_with t prefix) (key-rest prefix name field),
              starts_with-append prefix (name <> (String.◌∷◌ "." field)),
            ))
        | inr differ ↦ rw (other, differ)
      ]
    ]

    -- The value of a field after the loop: what is stored under its key, if anything is.
    pub read_entries-field :
        (m : Map String) (cs : Map C)
        → NodupKeys m
        → fd.proj (at name (read_entries prefix zero_value set_field m cs))
          ≡ updated fd.update (lookup (key prefix name field) m) (fd.proj (at name cs))
    unfolding read_entries lookup
    read_entries-field [] cs u = refl
    read_entries-field ((k, val) ∷ m) cs (fresh, u) =
        elim (Bool-cases (k == key prefix name field)) [
          | inl same ↦
              let e = (eq_iff k (key prefix name field)).0 same in
              rw (
                same,
                read_entries-field m (read_entry prefix zero_value set_field k val cs) u,
                read_entry-field k val cs,
                same,
                ← e,
                fresh,
              )
          | inr differ ↦ rw (
            differ,
            read_entries-field m (read_entry prefix zero_value set_field k val cs) u,
            read_entry-field k val cs,
            differ,
          )
        ]
