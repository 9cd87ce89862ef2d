-- ===== src/Tests/Shim.antt =====
-- Runs of the shim's annotations.
use urunc.Prelude.{
  String, ◌==◌, eq_iff, Bool, true, false, Option, none, some, List, [], ◌∷◌, if◌then◌else◌, ok,
  err, inr, refl, ◌≡◌, arith,
}
use urunc.Prelude.Map.{Map, lookup, insert}
use urunc.Shim.{
  Container, Stream, eof, message, collect_annotations, patch_annotations, new_annotation_fetcher,
  fetch_urunc_annotations, read_stream, no_config, FileCall, create_temp, chmod_temp, write_temp,
  sync_temp, close_temp, rename_temp, remove_temp, write_and_rename, atomic_write_file,
}
use urunc.Shim.Lookups.{inject_urunc_annotations-lookup, chosen, IsInjection}
use urunc.Shim.Inject.{ConfigFile, patch_config_json, inject_urunc_annotations}
use urunc.Prelude.Filepath.{join_paths, base}
use urunc.Prelude.Text.{split}
use urunc.Shim.Atomic.{Disk, AllOrNothing, replay, atomic_write_file-AllOrNothing}

abbrev labelled : Container
labelled = record {
  labels = ("com.urunc.unikernel.hypervisor", "qemu") ∷ ("io.other", "x") ∷ [];
  image = "nginx";
}

abbrev image_manifest : Map String
image_manifest =
    ("com.urunc.unikernel.hypervisor", "firecracker") ∷ ("com.urunc.unikernel.binary", "/k") ∷ []

abbrev pod_spec : Map String
pod_spec = ("com.urunc.unikernel.binary", "/own") ∷ []

abbrev store : String → Option String
store image = some "sha256:1"

abbrev content : String → Stream
content digest = message "{" (message "}" eof)

abbrev decode_manifest : String → Option (Map String)
decode_manifest raw = if raw == "{}" then some image_manifest else none

-- The text that is written is the monitor of the annotations.
abbrev pod_config : ConfigFile (Map String)
pod_config = record {
  stat = λ path. if path == "/b/config.json" then some 420 else none;
  read_file = λ path. some "{}";
  decode = λ raw. if raw == "{}" then some pod_spec else none;
  annotations = λ spec. spec;
  encode = λ spec annotations. lookup "com.urunc.unikernel.hypervisor" annotations;
}

abbrev all_done : List FileCall → FileCall → Bool
all_done calls c = false

inject_example :
    (patched : Map String) × IsInjection pod_config all_done "/b" pod_spec 420 patched (
      inject_urunc_annotations pod_config all_done store content decode_manifest
        (some labelled)
        "/b"
        [])
    × ((k : String) → lookup k patched ≡ chosen k pod_spec image_manifest labelled.labels)
unfolding lookup read_stream join_paths
inject_example =
    inject_urunc_annotations-lookup pod_config all_done "/b" store content decode_manifest labelled
      image_manifest 420 pod_spec
      (inr (inr ("sha256:1", "{}", ground (arith, eq_iff "nginx" ""), refl, refl, refl)))
      (refl, (refl, tt)) (refl, (refl, tt)) ("{}", refl, refl, refl)

inject_runs :
    (inject_urunc_annotations pod_config all_done store content decode_manifest
        (some labelled)
        "/b"
        []
      ≡ (
        ok tt,
        create_temp "/b" ".config.json.tmp-*"
            ∷ chmod_temp 420
            ∷ write_temp "firecracker"
            ∷ sync_temp
            ∷ close_temp
            ∷ rename_temp
            ∷ remove_temp
            ∷ [],
      ))
    × (inject_urunc_annotations pod_config all_done store content decode_manifest
          (some labelled)
          "/c"
          []
        ≡ (err no_config, []))
unfolding inject_urunc_annotations new_annotation_fetcher fetch_urunc_annotations read_stream
    collect_annotations patch_annotations lookup insert patch_config_json atomic_write_file
    write_and_rename join_paths base split
inject_runs = (refl, refl)

abbrev no_rename : List FileCall → FileCall → Bool
no_rename calls c = elim c [ rename_temp ↦ true | _ ↦ false ]

abbrev old_config : Disk
old_config = record { config = some "old"; temp = none }

atomic_example :
    AllOrNothing no_rename "/b/config.json" "new" 420 old_config
      (atomic_write_file no_rename "/b/config.json" "new" 420 []).0
      (replay no_rename []
        (atomic_write_file no_rename "/b/config.json" "new" 420 []).1
        old_config).config
atomic_example = atomic_write_file-AllOrNothing no_rename "/b/config.json" "new" 420 old_config
