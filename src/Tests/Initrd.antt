-- ===== src/Tests/Initrd.antt =====
-- A run of the merge into an initrd.
use urunc.Prelude.{
  String, Bool, true, false, Option, some, List, [], ◌∷◌, ok, err, OnOk, arith, ◌==◌, ◌≡◌, refl,
  contains, not,
}
use urunc.Prelude.Text.{split, cut_prefix}
use urunc.Prelude.Filepath.{is_abs, clean, join_paths}
use urunc.Types.{Mount}
use urunc.Initrd.{
  first_free, taken, allocate, copy_file_to_initrd, regular_file_bind_mounts, merge_mount,
  merge_mounts, add_missing_parents, archive_path, archive_lookup_path, CpioRecord, InodeAllocator,
  inodes_exhausted, max_newc_inode, merge_file_mounts_into_initrd,
}
use urunc.Initrd.Inodes.{merge_file_mounts_into_initrd-IsNew, IsNew}
use urunc.Initrd.Allocator.{allocate-exhausted}

abbrev file_stat : String → Option Bool
file_stat path = some (not (path == "/srv/data"))

abbrev file_content : String → Option String
file_content path = some "text"

abbrev old_archive : List CpioRecord
old_archive =
    record { name = "."; inode = 1; is_dir = true; content = "" }
    ∷ record { name = "./etc"; inode = 3; is_dir = true; content = "" }
    ∷ []

abbrev file_mounts : List Mount
file_mounts =
    record { type = "bind"; source = "/srv/hosts"; destination = "/etc/hosts"; options = [] }
    ∷ record { type = "bind"; source = "/srv/data"; destination = "/data"; options = [] }
    ∷ record { type = "bind"; source = "/srv/key"; destination = "/run/keys/key"; options = [] }
    ∷ []

merge_example :
    OnOk
      (IsNew (1 ∷ 3 ∷ []))
      (merge_file_mounts_into_initrd file_stat file_content old_archive file_mounts)
merge_example = merge_file_mounts_into_initrd-IsNew file_stat file_content old_archive file_mounts

merge_run :
    merge_file_mounts_into_initrd file_stat file_content old_archive file_mounts
    ≡ ok (
        record { name = "./run/keys/key"; inode = 6; is_dir = false; content = "text" }
        ∷ record { name = "./run/keys"; inode = 5; is_dir = true; content = "" }
        ∷ record { name = "./run"; inode = 4; is_dir = true; content = "" }
        ∷ record { name = "./etc/hosts"; inode = 2; is_dir = false; content = "text" }
        ∷ [])
unfolding merge_file_mounts_into_initrd first_free taken allocate copy_file_to_initrd
    regular_file_bind_mounts merge_mount merge_mounts add_missing_parents archive_path
    archive_lookup_path contains split cut_prefix is_abs clean join_paths
merge_run = refl

abbrev full : InodeAllocator
full = record { used = max_newc_inode ∷ []; next = max_newc_inode }

full_is_exhausted : allocate full ≡ err inodes_exhausted
unfolding allocate first_free taken
full_is_exhausted = refl

allocate_example : taken max_newc_inode full.used ≡ true
allocate_example =
    allocate-exhausted full inodes_exhausted max_newc_inode full_is_exhausted (ground arith)
      (ground arith)
