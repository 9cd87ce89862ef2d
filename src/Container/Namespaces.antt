-- ===== src/Container/Namespaces.antt =====
-- findNS and checkValidNsPath of pkg/unikontainers/utils.go, and FormatNsenterInfo of unikontainers.go
-- up to the netlink encoding of its two attributes.
use urunc.Prelude.{
  ℕ, String, ◌<>◌, ◌==◌, Bool, true, false, Option, none, some, List, [], ◌∷◌, ◌||◌, if◌then◌else◌,
  Result, ok, err, eqb, code,
}

-- The namespaces of the OCI specification; a name that urunc does not know is `unknown`.
pub data NsType : Type 0 where
  user ipc uts network pid mount cgroup time unknown : NsType

unfoldable pub NsType-discrete : Discrete NsType
NsType-discrete = hlevel

pub record Namespace : Type 0 where
  pub type : NsType
  pub path : String

pub data NsError : Type 0 where
  not_existing : NsError
  invalid_path : String → NsError
  not_found : NsType → NsError

abbrev comma : ℕ
comma = b','

-- `strings.ContainsRune`
unfoldable pub has_char : ℕ → String → Bool
has_char r String.[] = false
has_char r (String.◌∷◌ c s) = eqb (code c) r || has_char r s

abbrev pub same_type : NsType → NsType → Bool
same_type a b = elim (NsType-discrete a b) [ yes _ ↦ true | no _ ↦ false ]

-- `exists` is whether lstat(2) finds the path.
module _ (exists : String → Bool) where
  -- `checkValidNsPath`
  unfoldable pub check_valid_ns_path : String → Result NsError (Unit {0})
  unfolding has_char
  check_valid_ns_path path =
      if exists path
      then if has_char comma path then err (invalid_path path) else ok tt
      else err not_existing

  -- `findNS`
  unfoldable pub find_ns : List Namespace → NsType → Result NsError String
  find_ns [] ns_type = err (not_found ns_type)
  find_ns (ns ∷ rest) ns_type =
      if same_type ns.type ns_type
      then elim (check_valid_ns_path ns.path) [ err e ↦ err e | ok _ ↦ ok ns.path ]
      else find_ns rest ns_type

-- What is written in front of the path of a joined namespace; a user namespace is ignored.
unfoldable pub ns_name : NsType → Option String
ns_name ipc = some "ipc:"
ns_name uts = some "uts:"
ns_name network = some "net:"
ns_name pid = some "pid:"
ns_name mount = some "mnt:"
ns_name cgroup = some "cgroup:"
ns_name time = some "time:"
ns_name _ = none

-- The variables of the loop: the clone flags as the set of namespaces to create, and the array of
-- paths, one place for each namespace.
pub record NsInfo : Type 0 where
  pub write_paths : Bool
  pub write_flags : Bool
  pub clone_flags : NsType → Bool
  pub ns_paths : NsType → String

abbrev pub no_ns_info : NsInfo
no_ns_info = record {
  write_paths = false;
  write_flags = false;
  clone_flags = λ _. false;
  ns_paths = λ _. "";
}

module _ (exists : String → Bool) where
  -- One round of the loop.
  unfoldable pub add_ns : Namespace → NsInfo → Result NsError NsInfo
  add_ns ns info = elim (ns_name ns.type) [
    | none ↦
        if ns.path == ""
        then ok (record info { write_flags = true })
        else ok (record info { write_paths = true })
    | some prefix ↦
        if ns.path == ""
        then ok (record info {
          write_flags = true;
          clone_flags = λ t. same_type ns.type t || info.clone_flags t;
        })
        else elim (check_valid_ns_path exists ns.path) [
          | err e ↦ err e
          | ok _ ↦ ok (record info {
            write_paths = true;
            ns_paths = λ t. if same_type ns.type t then prefix <> ns.path else info.ns_paths t;
          })
        ]
  ]

  unfoldable pub add_all_ns : List Namespace → NsInfo → Result NsError NsInfo
  add_all_ns [] info = ok info
  add_all_ns (ns ∷ rest) info = elim (add_ns ns info) [
    | err e ↦ err e
    | ok info' ↦ add_all_ns rest info'
  ]

-- The order that nsenter expects.
abbrev pub ns_order : List NsType
ns_order = user ∷ ipc ∷ uts ∷ network ∷ pid ∷ mount ∷ cgroup ∷ time ∷ []

-- The loop that fills the buffer: a comma goes in front of each path but the first.
unfoldable pub write_ns_paths : (NsType → String) → List NsType → String → String
write_ns_paths paths [] buf = buf
write_ns_paths paths (t ∷ ts) buf =
    write_ns_paths paths ts
      (if paths t == "" then buf else (if buf == "" then buf else buf <> ",") <> paths t)

-- The attributes of the message: the clone flags and the text of the paths, each only if wanted.
abbrev pub NsMessage : Type 0
NsMessage = Option (NsType → Bool) × Option String

unfoldable pub format_nsenter_info : (String → Bool) → List Namespace → Result NsError NsMessage
unfolding write_ns_paths
format_nsenter_info exists namespaces = elim (add_all_ns exists namespaces no_ns_info) [
  | err e ↦ err e
  | ok info ↦ ok (
    if info.write_flags then some info.clone_flags else none,
    if info.write_paths then some (write_ns_paths info.ns_paths ns_order "") else none,
  )
]
