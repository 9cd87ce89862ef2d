-- ===== src/Initrd.antt =====
-- pkg/unikontainers/initrd/initrd.go: MergeFileMountsIntoInitrd and what it calls. The archive is the
-- list of the records that the cpio reader finds, and the merge the list of those that it writes.
pub mod Allocator
pub mod Inodes
use urunc.Prelude.{
  ℕ, zero, suc, ◌+◌, ◌-◌, String, ◌<>◌, ◌==◌, Bool, true, false, ◌||◌, not, eqb, Option, none, some,
  List, [], ◌∷◌, ◌++◌, contains, if◌then◌else◌, Result, ok, err, ◌>>=◌,
}
use urunc.Prelude.Text.{split, cut_prefix}
use urunc.Prelude.Filepath.{slash, is_abs, clean, join_paths, dir_path}
use urunc.Types.{Mount}

abbrev pub max_newc_inode : ℕ
max_newc_inode = 4294967295

pub record InodeAllocator : Type 0 where
  pub used : List ℕ
  pub next : ℕ

pub data InitrdError : Type 0 where
  inodes_exhausted : InitrdError
  not_absolute could_not_stat could_not_read : String → InitrdError

-- A record of the archive: what the code reads or chooses of it.
pub record CpioRecord : Type 0 where
  pub name : String
  pub inode : ℕ
  pub is_dir : Bool
  pub content : String

-- Whether the map `used` has the number.
unfoldable pub taken : ℕ → List ℕ → Bool
taken i [] = false
taken i (j ∷ js) = eqb i j || taken i js

abbrev pub new_inode_allocator : InodeAllocator
new_inode_allocator = record { used = []; next = 1 }

abbrev pub reserve : InodeAllocator → ℕ → InodeAllocator
reserve a inode = record a { used = inode ∷ a.used }

-- The loop of `allocate`, with a round for each number that is left.
unfoldable pub first_free : ℕ → List ℕ → ℕ → Option ℕ
first_free zero used next = none
first_free (suc left) used next = elim (taken next used) [
  | true ↦ first_free left used (next + 1)
  | false ↦ some next
]

-- `allocate`: the loop ends when `next` is over the largest number.
unfoldable pub allocate : InodeAllocator → Result InitrdError (ℕ × InodeAllocator)
allocate a = elim (first_free ((max_newc_inode + 1) - a.next) a.used a.next) [
  | none ↦ err inodes_exhausted
  | some inode ↦ ok (inode, record { used = inode ∷ a.used; next = inode + 1 })
]

-- `strings.TrimPrefix`
abbrev pub trim_prefix : String → String → String
trim_prefix prefix s = elim (cut_prefix prefix s) [ none ↦ s | some rest ↦ rest ]

-- `archiveLookupPath`
unfoldable pub archive_lookup_path : String → String
archive_lookup_path name = trim_prefix "/" (clean name)

-- `archivePath`
unfoldable pub archive_path : String → Result InitrdError String
archive_path destination =
    if not (is_abs destination)
    then err (not_absolute destination)
    else ok ("./" <> archive_lookup_path destination)

-- What the merge changes: the records written, the last one first, the names and the inodes.
pub record Merge : Type 0 where
  pub written : List CpioRecord
  pub existing_names : List String
  pub inodes : InodeAllocator

-- `inspectInitrd`, of the records that the reader gives.
abbrev pub inspect_initrd : List CpioRecord → Merge
inspect_initrd [] = record { written = []; existing_names = []; inodes = new_inode_allocator }
inspect_initrd (hdr ∷ archive) =
    let m = inspect_initrd archive in
    record m {
      existing_names = archive_lookup_path hdr.name ∷ m.existing_names;
      inodes = reserve m.inodes hdr.inode;
    }

abbrev pub directory : String → ℕ → CpioRecord
directory parent_name inode = record {
  name = "./" <> parent_name;
  inode = inode;
  is_dir = true;
  content = "";
}

-- A directory that the archive does not have yet.
abbrev pub add_directory : String → Merge → Result InitrdError Merge
add_directory parent_name m = allocate m.inodes >>= λ (inode, inodes). ok (record {
  written = directory parent_name inode ∷ m.written;
  existing_names = parent_name ∷ m.existing_names;
  inodes = inodes;
})

-- The loop of `addMissingParents` over the components.
abbrev pub add_parents : List String → String → Merge → Result InitrdError Merge
add_parents [] parent_name m = ok m
add_parents (component ∷ rest) parent_name m = elim (component == "" || component == ".") [
  | true ↦ add_parents rest parent_name m
  | false ↦ elim (contains m.existing_names (join_paths parent_name component)) [
    | true ↦ add_parents rest (join_paths parent_name component) m
    | false ↦
        add_directory (join_paths parent_name component) m
        >>= add_parents rest (join_paths parent_name component)
  ]
]

unfoldable pub add_missing_parents : String → Merge → Result InitrdError Merge
add_missing_parents lookup_name = add_parents (split slash (dir_path lookup_name)) ""

-- The records that are added for a file, from whether it is regular and from its content.
abbrev pub records_of :
    String → String → ℕ → Option Bool → Option String → Result InitrdError (List CpioRecord)
records_of src_file dest_file inode none read = err (could_not_stat src_file)
records_of src_file dest_file inode (some false) read = ok []
records_of src_file dest_file inode (some true) none = err (could_not_read src_file)
records_of src_file dest_file inode (some true) (some content) =
    ok (record { name = dest_file; inode = inode; is_dir = false; content = content } ∷ [])

-- `stat` says whether a file is regular.
unfoldable pub regular_file_bind_mounts :
    (String → Option Bool) → List Mount → Result InitrdError (List Mount)
regular_file_bind_mounts stat [] = ok []
regular_file_bind_mounts stat (mount ∷ mounts) = elim (stat mount.source) [
  | none ↦ err (could_not_stat mount.source)
  | some regular ↦
      regular_file_bind_mounts stat mounts >>= λ rest. ok (if regular then mount ∷ rest else rest)
]

-- `stat` says whether a file is regular, and `read_file` gives its content.
module _ (stat : String → Option Bool) (read_file : String → Option String) where
  -- `copyFileToInitrdWithInode`
  unfoldable pub copy_file_to_initrd : String → String → ℕ → Result InitrdError (List CpioRecord)
  copy_file_to_initrd src_file dest_file inode =
      records_of src_file dest_file inode (stat src_file) (read_file src_file)

  -- One round of the loop of `MergeFileMountsIntoInitrd`.
  unfoldable pub merge_mount : Mount → Merge → Result InitrdError Merge
  merge_mount mount m = archive_path mount.destination >>= λ archive_name.
      let lookup_name = archive_lookup_path archive_name in
      add_missing_parents lookup_name m >>= λ m. allocate m.inodes >>= λ (inode, inodes).
      copy_file_to_initrd mount.source archive_name inode >>= λ copied. ok (record {
        written = copied ++ m.written;
        existing_names = lookup_name ∷ m.existing_names;
        inodes = inodes;
      })

  unfoldable pub merge_mounts : List Mount → Merge → Result InitrdError Merge
  merge_mounts [] m = ok m
  merge_mounts (mount ∷ mounts) m = merge_mount mount m >>= merge_mounts mounts

  -- `MergeFileMountsIntoInitrd` from the regular files on.
  abbrev pub merge_regular : List CpioRecord → List Mount → Result InitrdError (List CpioRecord)
  merge_regular archive [] = ok []
  merge_regular archive (first ∷ rest) =
      merge_mounts (first ∷ rest) (inspect_initrd archive) >>= λ m. ok m.written

  -- `MergeFileMountsIntoInitrd`: the records that it writes.
  unfoldable pub merge_file_mounts_into_initrd :
      List CpioRecord → List Mount → Result InitrdError (List CpioRecord)
  merge_file_mounts_into_initrd archive mounts =
      regular_file_bind_mounts stat mounts >>= λ file_mounts. merge_regular archive file_mounts
