-- ===== src/Config/Keys.antt =====
-- The keys under which the settings stand in the annotations: which of them are equal.
use urunc.Prelude.{
  String, ◌<>◌, ◌==◌, eq_iff, eq_refl, true, false, List, [], ◌∷◌, ◌++◌, ◌&&◌, ◌≡◌, ◌≢◌, refl, sym,
  ◌∙◌, ap, arith, inl, inr, Bool-cases,
}
use urunc.Prelude.Text.{split, Lacks, split-append_any, split_of_Lacks, join, join-one, join-split}
use urunc.Config.Entries.{
  key, key-rest, key-eq_is_pair, is_pair, is_pair_eq, IsPrefixOf, split-prefix,
}

pub last_of :
    (ps : List String) (g name field : String)
    → ps ++ (g ∷ []) ≡ name ∷ field ∷ []
    → (ps ≡ name ∷ []) × (g ≡ field)
last_of [] g name field h = cc
last_of (a ∷ []) g name field h = (cc, cc)
last_of (a ∷ b ∷ []) g name field h = cc
last_of (a ∷ b ∷ c ∷ ps) g name field h = cc

module _ (name field : String) (hn : Lacks b'.' name) (hf : Lacks b'.' field) where
  -- Two keys agree exactly when their names and their fields do.
  pub split_pair_eq :
      (hv g : String)
      → is_pair (split b'.' hv ++ (g ∷ [])) name field ≡ true
      → (hv ≡ name) × (g ≡ field)
  split_pair_eq hv g h =
      let (alone, last) = last_of (split b'.' hv) g name field (is_pair_eq _ name field h) in
      (sym (join-split b'.' "." hv refl) ∙ ap (join ".") alone ∙ join-one "." name, last)

  -- Two keys agree exactly when their names and their fields do.
  pub key-eq :
      (prefix hv g : String)
      → Lacks b'.' g
      → (key prefix hv g == key prefix name field) ≡ (hv == name && g == field)
  key-eq prefix hv g hg =
      rw
        (
          key-rest prefix hv g,
          key-eq_is_pair name field hn hf prefix (hv <> (String.◌∷◌ "." g)),
          split-append_any b'.' "." hv g refl,
          split_of_Lacks b'.' g hg,
        )
        (elim (Bool-cases (is_pair (split b'.' hv ++ (g ∷ [])) name field)) [
          | inl pair ↦
              let (e, e') = split_pair_eq hv g pair in rw (pair, e, e', eq_refl name, eq_refl field)
          | inr no_pair ↦ elim (Bool-cases (hv == name && g == field)) [
            | inr differ ↦ rw (no_pair, differ)
            | inl same ↦
                let e : hv ≡ name = ground (arith, eq_iff hv name) in
                let e' : g ≡ field = ground (arith, eq_iff g field) in
                let pair : (split b'.' hv ++ (g ∷ [])) ≡ name ∷ field ∷ [] =
                  rw (e, e', split_of_Lacks b'.' name hn) in
                let f : (name == name && field == field) ≡ false = rw pair at no_pair in
                absurd (ground (arith, eq_refl name, eq_refl field))
          ]
        ])

-- A key behind one prefix differs from every text whose second part is another word.
pub key-ne :
    (w₁ w₂ prefix name field v₁ v₂ s : String) {rest : List String}
    → IsPrefixOf w₁ w₂ prefix
    → split b'.' s ≡ v₁ ∷ v₂ ∷ rest
    → w₂ ≢ v₂
    → (key prefix name field == s) ≡ false
key-ne w₁ w₂ prefix name field v₁ v₂ s {rest} h parts differ =
    elim (Bool-cases (key prefix name field == s)) [
      | inr other ↦ other
      | inl same ↦
          let e = (eq_iff (key prefix name field) s).0 same in
          let left = split-prefix w₁ w₂ prefix (name <> (String.◌∷◌ "." field)) h in
          let q : w₁ ∷ w₂ ∷ split b'.' (name <> (String.◌∷◌ "." field)) ≡ v₁ ∷ v₂ ∷ rest =
            sym left ∙ ap (split b'.') (sym (key-rest prefix name field) ∙ e) ∙ parts in
          absurd (differ (cc))
    ]

abbrev pub monitors_prefix : String
monitors_prefix = "urunc_config.monitors."

abbrev pub extra_bins_prefix : String
extra_bins_prefix = "urunc_config.extra_binaries."

pub Lacks-dot_tests :
    (Lacks b'.' "urunc_config") × (Lacks b'.' "monitors") × (Lacks b'.' "extra_binaries")
Lacks-dot_tests = (omega arith)

pub monitors_prefix-words : IsPrefixOf "urunc_config" "monitors" monitors_prefix
monitors_prefix-words = record {
  dotless₁ = Lacks-dot_tests.0;
  dotless₂ = Lacks-dot_tests.1;
  written = refl;
}

pub extra_bins_prefix-words : IsPrefixOf "urunc_config" "extra_binaries" extra_bins_prefix
extra_bins_prefix-words = record {
  dotless₁ = Lacks-dot_tests.0;
  dotless₂ = Lacks-dot_tests.2;
  written = refl;
}
