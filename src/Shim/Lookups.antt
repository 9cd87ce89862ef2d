-- ===== src/Shim/Lookups.antt =====
-- Where each annotation of the patched config.json comes from.
use urunc.Prelude.{
  ℕ, Bool, List, Result, err, String, eq_iff, starts_with, Option, none, some, [], ◌∷◌,
  if◌then◌else◌, ok, ◌≡◌, ◌≢◌, ◌⊎◌, refl, arith, inl, inr,
}
use urunc.Prelude.Map.{Map, lookup, insert, lookup-insert, lookup-cons, lookup-nil, NodupKeys}
use urunc.Shim.Inject.{
  ConfigFile, patch_config_json, patch_if_any, answer, or_fail, inject_urunc_annotations,
}
use urunc.Prelude.Traced.{◌>>=◌}
use urunc.Prelude.Filepath.{join_paths}
use urunc.Shim.{
  urunc_prefix, collect_annotations, patch_annotations, new_annotation_fetcher,
  fetch_urunc_annotations, fetch_all, FileCall, ShimError, encode_failed, atomic_write_file,
  Container, Stream, read_stream,
}

abbrev pub or_else : {A : Type 0} → Option A → Option A → Option A
or_else none second = second
or_else (some a) second = some a

collect-lookup :
    (k : String) (filtered src : Map String)
    → NodupKeys src
    → lookup k (collect_annotations filtered src) ≡ (
        if starts_with k urunc_prefix
        then or_else (lookup k src) (lookup k filtered)
        else lookup k filtered)
unfolding collect_annotations
collect-lookup k filtered [] unique = rw (lookup-nil k) (ground arith)
collect-lookup k filtered ((j, v) ∷ src) (fresh, unique) = ground (
  arith,
  eq_iff j k,
  lookup-cons j k v src,
  lookup-insert j k v filtered,
  collect-lookup k (insert j v filtered) src unique,
  collect-lookup k filtered src unique,
)

collect-nil : (filtered : Map String) → collect_annotations filtered [] ≡ filtered
unfolding collect_annotations
collect-nil filtered = refl

patch-lookup :
    (k : String) (spec annotations : Map String)
    → lookup k (patch_annotations spec annotations) ≡ or_else (lookup k spec) (lookup k annotations)
unfolding patch_annotations
patch-lookup k spec [] = rw (lookup-nil k) (ground arith)
patch-lookup k spec ((j, v) ∷ rest) = ground (
  arith,
  eq_iff j k,
  lookup-cons j k v rest,
  lookup-insert j k v spec,
  patch-lookup k (insert j v spec) rest,
  patch-lookup k spec rest,
)

patch-nil : (spec : Map String) → patch_annotations spec [] ≡ spec
unfolding patch_annotations
patch-nil spec = refl

-- What the sources say of a key: the specification first, then the manifest, then the labels, of which
-- only the keys of urunc count.
abbrev pub chosen : String → Map String → Map String → Map String → Option String
chosen k spec manifest labels =
    or_else (lookup k spec)
      (if starts_with k urunc_prefix then or_else (lookup k manifest) (lookup k labels) else none)

merged-lookup :
    (k : String) (spec manifest labels : Map String)
    → NodupKeys manifest
    → NodupKeys labels
    → lookup k
        (patch_annotations spec (collect_annotations (collect_annotations [] labels) manifest))
      ≡ chosen k spec manifest labels
merged-lookup k spec manifest labels unique_manifest unique_labels = ground (
  arith,
  lookup-nil {V = String} k,
  patch-lookup k spec (collect_annotations (collect_annotations [] labels) manifest),
  collect-lookup k (collect_annotations [] labels) manifest unique_manifest,
  collect-lookup k [] labels unique_labels,
)

module _ (get_image : String → Option String) (read : String → Stream)
    (unmarshal : String → Option (Map String)) where
  -- The annotations of the image's manifest; none if the image has no manifest in the store.
  abbrev pub HasManifest : Container → Map String → Type 0
  HasManifest container manifest =
      ((container.image ≡ "") × (manifest ≡ []))
      ⊎ ((get_image container.image ≡ none) × (manifest ≡ []))
      ⊎ ((digest raw : String) × (container.image ≢ "")
          × (get_image container.image ≡ some digest)
          × (read_stream "" (read digest) ≡ ok raw)
          × (unmarshal raw ≡ some manifest))

  abbrev merged : Container → Map String → Map String
  merged container manifest = collect_annotations (collect_annotations [] container.labels) manifest

  fetched :
      (container : Container) (manifest : Map String)
      → HasManifest container manifest
      → fetch_all get_image read unmarshal (some container) ≡ ok (merged container manifest)
  unfolding new_annotation_fetcher fetch_urunc_annotations
  fetched container manifest (inl (no_image, no_manifest)) =
      ground
        (arith, eq_iff container.image "", collect-nil (collect_annotations [] container.labels))
  fetched container manifest (inr (inl (unknown, no_manifest))) =
      ground
        (arith, eq_iff container.image "", collect-nil (collect_annotations [] container.labels))
  fetched container manifest (inr (inr (digest, raw, image, known, sent, decoded))) =
      ground (arith, eq_iff container.image "", known, sent, decoded)

-- What is done with the text of the patched specification.
abbrev pub replaced :
    (List FileCall → FileCall → Bool)
    → String
    → ℕ
    → Option String
    → Result ShimError (Unit {0}) × List FileCall
replaced fails path mode none = (err encode_failed, [])
replaced fails path mode (some bytes) = atomic_write_file fails path bytes mode []

module _ {S : Type 0} (config_file : ConfigFile S) (fails : List FileCall → FileCall → Bool)
    (bundle_path : String) where
  -- config.json is there, can be read and decoded.
  abbrev pub HasConfig : ℕ → S → Type 0
  HasConfig mode spec =
      (raw : String) × (config_file.stat (join_paths bundle_path "config.json") ≡ some mode)
      × (config_file.read_file (join_paths bundle_path "config.json") ≡ some raw)
      × (config_file.decode raw ≡ some spec)

  written :
      (path : String) (mode : ℕ) (text : Option String)
      → (answer (or_fail encode_failed text) >>= λ patched.
            atomic_write_file fails path patched mode)
          []
        ≡ replaced fails path mode text
  written path mode none = refl
  written path mode (some bytes) = refl

  patched_config :
      (mode : ℕ) (spec : S) (annotations : Map String)
      → HasConfig mode spec
      → patch_config_json config_file fails bundle_path annotations []
        ≡ replaced fails
            (join_paths bundle_path "config.json")
            mode
            (config_file.encode spec (patch_annotations (config_file.annotations spec) annotations))
  unfolding patch_config_json
  patched_config mode spec annotations (raw, there, sent, decoded) =
      rw (there, sent, decoded)
        (written (join_paths bundle_path "config.json") mode
          (config_file.encode spec (patch_annotations (config_file.annotations spec) annotations)))

  -- What `patch_if_any` makes of the annotations and of config.json.
  abbrev pub IsInjection : S → ℕ → Map String → Result ShimError (Unit {0}) × List FileCall → Type 0
  IsInjection spec mode patched r =
      ((r ≡ (ok tt, [])) × (patched ≡ config_file.annotations spec))
      ⊎ (r
          ≡ replaced fails (join_paths bundle_path "config.json") mode
              (config_file.encode spec patched))

  patched_if_any :
      (mode : ℕ) (spec : S) (annotations : Map String)
      → HasConfig mode spec
      → IsInjection spec mode
          (patch_annotations (config_file.annotations spec) annotations)
          (patch_if_any config_file fails bundle_path annotations [])
  patched_if_any mode spec [] has = inl (refl, patch-nil (config_file.annotations spec))
  patched_if_any mode spec (a ∷ annotations) has =
      inr (patched_config mode spec (a ∷ annotations) has)

  module _ (get_image : String → Option String) (read : String → Stream)
      (unmarshal : String → Option (Map String)) where
    -- When the container is known, the manifest of its image is read and decoded or there is
    -- none, and config.json is there and is read and decoded: there are annotations such that
    -- `InjectUruncAnnotations` either makes no call and succeeds, and they are those that
    -- config.json has, or it encodes the specification with them, where it fails if that fails,
    -- and does what `atomicWriteFile` does with the text and the mode of the old file. Each key
    -- of them has the value it had in config.json before; if it had none, a key with the prefix
    -- of urunc has the value of the manifest, else that of the container's label, and any other
    -- key stays without value. The labels and the manifest are maps: no key stands twice.
    pub inject_urunc_annotations-lookup :
        (container : Container) (manifest : Map String) (mode : ℕ) (spec : S)
        → HasManifest get_image read unmarshal container manifest
        → NodupKeys manifest
        → NodupKeys container.labels
        → HasConfig mode spec
        → (patched : Map String) × IsInjection spec mode patched (
            inject_urunc_annotations config_file fails get_image read unmarshal
              (some container)
              bundle_path
              [])
          × ((k : String)
              → lookup k patched
                ≡ chosen k (config_file.annotations spec) manifest container.labels)
    unfolding inject_urunc_annotations
    inject_urunc_annotations-lookup container manifest mode spec has unique_manifest unique_labels
          config =
        (
          patch_annotations (config_file.annotations spec)
              (collect_annotations (collect_annotations [] container.labels) manifest),
          rw (fetched get_image read unmarshal container manifest has) (
              patched_if_any mode spec
                (collect_annotations (collect_annotations [] container.labels) manifest) config),
          λ k.
              merged-lookup k (config_file.annotations spec) manifest container.labels
                unique_manifest unique_labels,
        )
