-- ===== src/Container/Paths.antt =====
-- The paths to join, as the message to nsenter writes them, read back at the commas.
use mathlib.Core.List.{append-nil, append_assoc}
use text.Mathlib.TextLemmas.{
  nil-append, append_assoc as text_append_assoc, cons-append, cons-ne-nil,
}
use urunc.Prelude.{
  ℕ, String, ◌<>◌, ◌==◌, eq_iff, Bool, false, Option, none, some, List, [], ◌∷◌, ◌++◌,
  if◌then◌else◌, ok, ◌≡◌, ◌≢◌, refl, sym, ap, subst, Option-cases, Result-cases, OnOk, ◌∙◌, inl,
  inr, arith, Bool-cases,
}
use urunc.Prelude.Text.{split, Lacks, Lacks-append, split-append_any, split_of_Lacks}
use urunc.Container.Namespaces.{
  NsType, same_type, Namespace, has_char, check_valid_ns_path, ns_name, NsInfo, add_ns, add_all_ns,
  write_ns_paths,
}

abbrev pub entries : (NsType → String) → List NsType → List String
entries paths [] = []
entries paths (t ∷ ts) = if paths t == "" then entries paths ts else paths t ∷ entries paths ts

pub Lacks-of_has_char : (sep : ℕ) (s : String) → has_char sep s ≡ false → Lacks sep s
unfolding has_char
Lacks-of_has_char sep String.[] h = tt
Lacks-of_has_char sep (String.◌∷◌ c s) h = (ground arith, Lacks-of_has_char sep s (ground arith))

abbrev pub LacksComma : Option String → Type 0
LacksComma none = Unit
LacksComma (some p) = Lacks b',' p

pub ns_name-LacksComma : (t : NsType) → LacksComma (ns_name t)
unfolding ns_name
ns_name-LacksComma NsType.user = omega arith
ns_name-LacksComma _ = omega arith

pub append-ne-empty : (s t : String) → s ≢ "" → s <> t ≢ ""
append-ne-empty String.[] t ne = λ _. ne refl
append-ne-empty (String.◌∷◌ c s) t ne = λ e. cons-ne-nil c (s <> t) (sym (cons-append c s t) ∙ e)

pub with_comma-split :
    (buf p : String) → split b',' ((buf <> ",") <> p) ≡ split b',' buf ++ split b',' p
with_comma-split buf p =
    ap (split b',') (
      text_append_assoc buf "," p
      ∙ ap (λ t. buf <> t) (cons-append "," "" p ∙ ap (λ t. String.◌∷◌ "," t) (nil-append p)))
    ∙ split-append_any b',' "," buf p refl

pub split-write_ns_paths :
    (paths : NsType → String) (ts : List NsType) (buf : String)
    → ((t : NsType) → Lacks b',' (paths t))
    → buf ≢ ""
    → split b',' (write_ns_paths paths ts buf) ≡ split b',' buf ++ entries paths ts
unfolding write_ns_paths
split-write_ns_paths paths [] buf free ne = sym (append-nil _)
split-write_ns_paths paths (t ∷ ts) buf free ne = elim (Bool-cases (paths t == "")) [
  | inl empty ↦ rw empty (split-write_ns_paths paths ts buf free ne)
  | inr used ↦
      let buf_used : (buf == "") ≡ false = ground (arith, eq_iff buf "") in
      rw
        (
          used,
          buf_used,
          split-write_ns_paths paths ts ((buf <> ",") <> paths t) free
              (append-ne-empty (buf <> ",") (paths t) (append-ne-empty buf "," ne)),
          with_comma-split buf (paths t),
          split_of_Lacks b',' (paths t) (free t),
        )
        (append_assoc (split b',' buf) (paths t ∷ []) (entries paths ts))
]

-- Read at its commas, the text of the paths is the list of the paths that are not empty.
pub split-write_ns_paths_empty :
    (paths : NsType → String) (ts : List NsType)
    → ((t : NsType) → Lacks b',' (paths t))
    → entries paths ts ≢ []
    → split b',' (write_ns_paths paths ts "") ≡ entries paths ts
unfolding write_ns_paths
split-write_ns_paths_empty paths [] free ne = absurd (ne refl)
split-write_ns_paths_empty paths (t ∷ ts) free ne = elim (Bool-cases (paths t == "")) [
  | inl empty ↦ rw empty (split-write_ns_paths_empty paths ts free (rw empty at ne))
  | inr used ↦ rw (
    used,
    nil-append (paths t),
    split-write_ns_paths paths ts (paths t) free
        (λ e. absurd (ground (arith, eq_iff (paths t) ""))),
    split_of_Lacks b',' (paths t) (free t),
  )
]

-- What is written for each kind of namespace has no comma, and an attribute is only left out where it
-- would say nothing.
abbrev pub IsSound : NsInfo → Type 0
IsSound info =
    ((t : NsType) → Lacks b',' (info.ns_paths t))
    × (info.write_flags ≡ false → (t : NsType) → info.clone_flags t ≡ false)
    × (info.write_paths ≡ false → (t : NsType) → info.ns_paths t ≡ "")

module _ (exists : String → Bool) where
  pub check_valid-Lacks :
      (path : String) → check_valid_ns_path exists path ≡ ok tt → Lacks b',' path
  unfolding check_valid_ns_path
  check_valid-Lacks path h = Lacks-of_has_char b',' path (ground arith)

  pub add_ns-IsSound :
      (ns : Namespace) (info : NsInfo) → IsSound info → OnOk IsSound (add_ns exists ns info)
  unfolding add_ns
  add_ns-IsSound ns info free = elim (Option-cases (ns_name ns.type)) [
    | inl e ↦
        rw (e, OnOk)
          (elim (Bool-cases (ns.path == "")) [
            | inl p ↦ rw p (free.0, λ h. cc, free.2)
            | inr p ↦ rw p (free.0, free.1, λ h. cc)
          ])
    | inr (prefix, e) ↦
        rw (e, OnOk)
          (elim (Bool-cases (ns.path == "")) [
            | inl p ↦ rw p (free.0, λ h. cc, free.2)
            | inr p ↦ rw p (elim (Result-cases (check_valid_ns_path exists ns.path)) [
              | inl (v, c) ↦ rw c (
                λ t. elim (Bool-cases (same_type ns.type t)) [
                  | inl s ↦ rw s (
                      Lacks-append b',' prefix ns.path
                        (subst LacksComma e (ns_name-LacksComma ns.type))
                        (check_valid-Lacks ns.path c))
                  | inr s ↦ rw s (free.0 t)
                ],
                free.1,
                λ h. cc,
              )
              | inr (x, c) ↦ rw c tt
            ])
          ])
  ]

  pub add_all_ns-IsSound :
      (namespaces : List Namespace) (info : NsInfo)
      → IsSound info
      → OnOk IsSound (add_all_ns exists namespaces info)
  unfolding add_all_ns
  add_all_ns-IsSound [] info free = free
  add_all_ns-IsSound (ns ∷ rest) info free = elim (Result-cases (add_ns exists ns info)) [
    | inl (info', e) ↦
        rw (e, OnOk)
          (add_all_ns-IsSound rest info' (subst (OnOk IsSound) e (add_ns-IsSound ns info free)))
    | inr (x, e) ↦ rw (e, OnOk) tt
  ]
