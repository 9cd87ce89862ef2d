-- ===== src/Shim.antt =====
-- pkg/containerd-shim/containerd/annotations.go: the annotations of the image that the shim writes
-- into the bundle's config.json before urunc reads it.
pub mod Inject
pub mod Lookups
pub mod Atomic
use urunc.Prelude.{
  ℕ, String, ◌<>◌, ◌==◌, starts_with, Bool, true, false, Option, none, some, List, [], ◌∷◌, ◌++◌,
  if◌then◌else◌, Result, ok, err, ◌>>=◌,
}
use urunc.Prelude.Map.{Map, lookup, insert}
use urunc.Prelude.Filepath.{base, dir_path, join_paths}
use urunc.Prelude.Traced.{Traced, perform, pure, ◌>>◌, or_undo}

abbrev pub urunc_prefix : String
urunc_prefix = "com.urunc.unikernel."

pub data ShimError : Type 0 where
  no_container : ShimError
  bad_manifest bad_config : ShimError
  read_failed : ShimError
  no_config config_read_failed encode_failed write_failed : ShimError

-- A loop of `fetchUruncAnnotations`: the entries with the prefix are put into the map.
unfoldable pub collect_annotations : Map String → Map String → Map String
collect_annotations filtered [] = filtered
collect_annotations filtered ((k, v) ∷ rest) =
    collect_annotations (if starts_with k urunc_prefix then insert k v filtered else filtered) rest

-- The metadata of the container: its labels and its image.
pub record Container : Type 0 where
  pub labels : Map String
  pub image : String

pub record AnnotationFetcher : Type 0 where
  pub container_labels : Map String
  pub target : Option String

-- `newAnnotationFetcher`. `get_image` gives the digest of the image's manifest, if the image is known
-- and its target is a manifest.
unfoldable pub new_annotation_fetcher :
    (String → Option String) → Option Container → Result ShimError AnnotationFetcher
new_annotation_fetcher get_image none = err no_container
new_annotation_fetcher get_image (some container) = ok (record {
  container_labels = container.labels;
  target = if container.image == "" then none else get_image container.image;
})

-- The messages of a stream; the last one is its end or a failure.
pub data Stream : Type 0 where
  eof failed : Stream
  message : String → Stream → Stream

-- The loop of `readBlob`.
unfoldable pub read_stream : String → Stream → Result ShimError String
read_stream raw eof = ok raw
read_stream raw failed = err read_failed
read_stream raw (message bytes rest) = read_stream (raw <> bytes) rest

-- `fetchUruncAnnotations`. `read` is the content client, and `unmarshal` gives the annotations of a
-- manifest.
unfoldable pub fetch_urunc_annotations :
    (String → Stream)
    → (String → Option (Map String))
    → AnnotationFetcher
    → Result ShimError (Map String)
fetch_urunc_annotations read unmarshal f =
    let filtered = collect_annotations [] f.container_labels in
    elim f.target [
      | none ↦ ok filtered
      | some digest ↦ read_stream "" (read digest) >>= λ raw. elim (unmarshal raw) [
        | none ↦ err bad_manifest
        | some annotations ↦ ok (collect_annotations filtered annotations)
      ]
    ]

-- The annotations that `InjectUruncAnnotations` fetches.
abbrev pub fetch_all :
    (String → Option String)
    → (String → Stream)
    → (String → Option (Map String))
    → Option Container
    → Result ShimError (Map String)
fetch_all get_image read unmarshal container =
    new_annotation_fetcher get_image container >>= λ fetcher.
    fetch_urunc_annotations read unmarshal fetcher

-- The loop of `patchConfigJSON`: an annotation of the specification stays.
unfoldable pub patch_annotations : Map String → Map String → Map String
patch_annotations spec [] = spec
patch_annotations spec ((k, v) ∷ rest) =
    patch_annotations (elim (lookup k spec) [ some old ↦ spec | none ↦ insert k v spec ]) rest

-- What `atomicWriteFile` asks of the system, for the temporary file beside config.json.
pub data FileCall : Type 0 where
  create_temp : String → String → FileCall
  chmod_temp : ℕ → FileCall
  write_temp : String → FileCall
  sync_temp close_temp rename_temp remove_temp : FileCall

abbrev pub File : Type 0 → Type 0
File = Traced FileCall ShimError

module _ (fails : List FileCall → FileCall → Bool) where
  abbrev pub file : FileCall → File (Unit {0})
  file = perform fails (λ c. write_failed)

  abbrev pub or_close : FileCall → File (Unit {0})
  or_close c = or_undo (file c) (file close_temp)

  unfoldable pub write_and_rename : String → ℕ → File (Unit {0})
  write_and_rename bytes mode = do
    or_close (chmod_temp mode)
    or_close (write_temp bytes)
    or_close sync_temp
    file close_temp
    file rename_temp

  -- The deferred `os.Remove`, whose failure is dropped.
  abbrev pub then_remove : File (Unit {0}) → File (Unit {0})
  then_remove m calls = let r = m calls in (r.0, (file remove_temp r.1).1)

  unfoldable pub atomic_write_file : String → String → ℕ → File (Unit {0})
  atomic_write_file path bytes mode =
      file (create_temp (dir_path path) ("." <> (base path <> ".tmp-*")))
      >> then_remove (write_and_rename bytes mode)
