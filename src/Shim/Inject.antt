-- ===== src/Shim/Inject.antt =====
-- pkg/containerd-shim/containerd/annotations.go: patchConfigJSON and InjectUruncAnnotations.
use urunc.Prelude.{ℕ, String, Bool, Option, none, some, List, [], ◌∷◌, Result, ok, err}
use urunc.Prelude.Map.{Map}
use urunc.Prelude.Filepath.{join_paths}
use urunc.Prelude.Traced.{◌>>=◌, lift, pure}
use urunc.Shim.{
  Container, Stream, ShimError, no_config, config_read_failed, bad_config, encode_failed, FileCall,
  File, fetch_all, patch_annotations, atomic_write_file,
}

-- config.json before it is patched: stat(2) with the mode of the file, its text, and what the JSON library
-- makes of the text. `S` is the specification, and `encode` is given its text with other annotations.
pub record ConfigFile (S : Type 0) : Type 0 where
  pub stat : String → Option ℕ
  pub read_file : String → Option String
  pub decode : String → Option S
  pub annotations : S → Map String
  pub encode : S → Map String → Option String

abbrev pub or_fail : {A : Type 0} → ShimError → Option A → Result ShimError A
or_fail problem none = err problem
or_fail problem (some a) = ok a

abbrev pub answer : {A : Type 0} → Result ShimError A → File A
answer r = lift (λ calls. r)

module _ {S : Type 0} (config_file : ConfigFile S) (fails : List FileCall → FileCall → Bool) where
  -- `patchConfigJSON`
  unfoldable pub patch_config_json : String → Map String → File (Unit {0})
  patch_config_json bundle_path annotations =
      let config_path = join_paths bundle_path "config.json" in
      answer (or_fail no_config (config_file.stat config_path)) >>= λ mode.
      answer (or_fail config_read_failed (config_file.read_file config_path)) >>= λ raw.
      answer (or_fail bad_config (config_file.decode raw)) >>= λ spec.
      answer (
        or_fail encode_failed
          (config_file.encode spec (patch_annotations (config_file.annotations spec) annotations)))
      >>= λ patched. atomic_write_file fails config_path patched mode

  abbrev pub patch_if_any : String → Map String → File (Unit {0})
  patch_if_any bundle_path [] = pure tt
  patch_if_any bundle_path (a ∷ annotations) = patch_config_json bundle_path (a ∷ annotations)

  -- `InjectUruncAnnotations`
  unfoldable pub inject_urunc_annotations :
      (String → Option String)
      → (String → Stream)
      → (String → Option (Map String))
      → Option Container
      → String
      → File (Unit {0})
  inject_urunc_annotations get_image read unmarshal container bundle_path =
      answer (fetch_all get_image read unmarshal container) >>= patch_if_any bundle_path
