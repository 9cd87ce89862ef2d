-- ===== src/Initrd/Inodes.antt =====
-- The inodes of the records that the merge adds to an archive.
use urunc.Prelude.{
  ℕ, ◌+◌, ◌≤◌, String, ◌==◌, Bool, true, false, ◌||◌, Option, none, some, List, [], ◌∷◌, ◌++◌, map,
  contains, Result, ok, err, ◌>>=◌, OnOk, OnOk->>=, ◌≡◌, refl, ap, sym, arith,
}
use urunc.Prelude.Filepath.{slash, join_paths, dir_path}
use urunc.Prelude.Text.{split}
use urunc.Types.{Mount}
use urunc.Initrd.Allocator.{IsAllocated, allocate-IsAllocated, taken_before, taken_cons}
use urunc.Initrd.{
  CpioRecord, InodeAllocator, Merge, taken, allocate, max_newc_inode, inspect_initrd, add_directory,
  add_parents, add_missing_parents, copy_file_to_initrd, regular_file_bind_mounts, merge_mount,
  merge_mounts, archive_path, archive_lookup_path, merge_file_mounts_into_initrd, directory,
  records_of, merge_regular,
}

abbrev pub inodes_of : List CpioRecord → List ℕ
inodes_of records = map (λ r. r.inode) records

OnOk-any {ℓ κ} : {E : Type ℓ} {A : Type κ} (r : Result E A) → OnOk (λ a. Unit {0}) r
OnOk-any (ok a) = tt
OnOk-any (err e) = tt

module _ (old : List ℕ) where
  -- Each record has an inode of its own, which the archive does not have.
  abbrev pub IsNew : List CpioRecord → Type 0
  IsNew [] = Unit
  IsNew (r ∷ records) =
      (taken r.inode old ≡ false)
      × (taken r.inode (inodes_of records) ≡ false)
      × (1 ≤ r.inode)
      × (r.inode ≤ max_newc_inode)
      × IsNew records

  -- A number that is not in use is neither in the archive nor in what is written.
  abbrev Avoids : Merge → Type 0
  Avoids m =
      (i : ℕ)
      → taken i m.inodes.used ≡ false
      → (taken i old ≡ false) × (taken i (inodes_of m.written) ≡ false)

  abbrev IsMerging : Merge → Type 0
  IsMerging m =
      Avoids m × (1 ≤ m.inodes.next) × (m.inodes.next ≤ max_newc_inode + 1) × IsNew m.written

  -- A record, or none, with the inode that was allocated for it.
  abbrev HasInode : ℕ → List CpioRecord → Type 0
  HasInode i [] = Unit
  HasInode i (r ∷ []) = r.inode ≡ i
  HasInode i (r ∷ q ∷ rest) = ⊥

  write-IsMerging :
      (m : Merge) (i : ℕ) (after : InodeAllocator) (copied : List CpioRecord) (names : List String)
      → IsMerging m
      → IsAllocated m.inodes (i, after)
      → HasInode i copied
      → IsMerging (record { written = copied ++ m.written; existing_names = names; inodes = after })
  unfolding taken
  write-IsMerging m i after [] names (avoids, positive, bounded, new)
        (free, least, most, used, next) h =
      (λ j e. avoids j (taken_before j i used e).1, ground arith, ground arith, new)
  write-IsMerging m i after (r ∷ []) names (avoids, positive, bounded, new)
        (free, least, most, used, next) h =
      (
        λ j e. (
          (avoids j (taken_before j i used e).1).0,
          rw h (
              taken_cons j i _ (taken_before j i used e).0
                (avoids j (taken_before j i used e).1).1),
        ),
        ground arith,
        ground arith,
        rw h ((avoids i free).0, (avoids i free).1, ground arith, most, new),
      )
  write-IsMerging m i after (r ∷ q ∷ rest) names merging allocated h = absurd h

  add_directory-IsMerging :
      (parent_name : String) (m : Merge)
      → IsMerging m
      → OnOk IsMerging (add_directory parent_name m)
  add_directory-IsMerging parent_name m merging =
      OnOk->>= (IsAllocated m.inodes) IsMerging (allocate m.inodes) _
        (allocate-IsAllocated m.inodes merging.2)
        (λ (i, after) allocated.
          write-IsMerging m i after (directory parent_name i ∷ []) (parent_name ∷ m.existing_names)
            merging allocated refl)

  add_parents-IsMerging :
      (components : List String) (parent_name : String) (m : Merge)
      → IsMerging m
      → OnOk IsMerging (add_parents components parent_name m)
  add_parents-IsMerging [] parent_name m merging = merging
  add_parents-IsMerging (component ∷ rest) parent_name m merging =
      elim (component == "" || component == ".")
        as (λ skip. OnOk IsMerging (elim skip [
          | true ↦ add_parents rest parent_name m
          | false ↦ elim (contains m.existing_names (join_paths parent_name component)) [
            | true ↦ add_parents rest (join_paths parent_name component) m
            | false ↦
                add_directory (join_paths parent_name component) m
                >>= add_parents rest (join_paths parent_name component)
          ]
        ])) [
          | true ↦ add_parents-IsMerging rest parent_name m merging
          | false ↦
              elim (contains m.existing_names (join_paths parent_name component))
                as (λ exists. OnOk IsMerging (elim exists [
                  | true ↦ add_parents rest (join_paths parent_name component) m
                  | false ↦
                      add_directory (join_paths parent_name component) m
                      >>= add_parents rest (join_paths parent_name component)
                ])) [
                  | true ↦ add_parents-IsMerging rest (join_paths parent_name component) m merging
                  | false ↦
                      OnOk->>= IsMerging IsMerging
                        (add_directory (join_paths parent_name component) m)
                        (add_parents rest (join_paths parent_name component))
                        (add_directory-IsMerging (join_paths parent_name component) m merging)
                        (λ m merging.
                          add_parents-IsMerging rest (join_paths parent_name component) m merging)
                ]
        ]

  add_missing_parents-IsMerging :
      (lookup_name : String) (m : Merge)
      → IsMerging m
      → OnOk IsMerging (add_missing_parents lookup_name m)
  unfolding add_missing_parents
  add_missing_parents-IsMerging lookup_name m merging =
      add_parents-IsMerging (split slash (dir_path lookup_name)) "" m merging

  records_of-HasInode :
      (src_file dest_file : String) (i : ℕ) (regular : Option Bool) (read : Option String)
      → OnOk (HasInode i) (records_of src_file dest_file i regular read)
  records_of-HasInode src_file dest_file i none read = tt
  records_of-HasInode src_file dest_file i (some false) read = tt
  records_of-HasInode src_file dest_file i (some true) none = tt
  records_of-HasInode src_file dest_file i (some true) (some content) = refl

  module _ (stat : String → Option Bool) (read_file : String → Option String) where
    copy_file_to_initrd-HasInode :
        (src_file dest_file : String) (i : ℕ)
        → OnOk (HasInode i) (copy_file_to_initrd stat read_file src_file dest_file i)
    unfolding copy_file_to_initrd
    copy_file_to_initrd-HasInode src_file dest_file i =
        records_of-HasInode src_file dest_file i (stat src_file) (read_file src_file)

    merge_mount-IsMerging :
        (mount : Mount) (m : Merge)
        → IsMerging m
        → OnOk IsMerging (merge_mount stat read_file mount m)
    unfolding merge_mount
    merge_mount-IsMerging mount m merging =
        OnOk->>= (λ name. Unit {0}) IsMerging (archive_path mount.destination) _
          (OnOk-any (archive_path mount.destination))
          (λ archive_name any.
            OnOk->>= IsMerging IsMerging (add_missing_parents (archive_lookup_path archive_name) m)
              _ (add_missing_parents-IsMerging (archive_lookup_path archive_name) m merging)
              (λ m merging.
                OnOk->>= (IsAllocated m.inodes) IsMerging (allocate m.inodes) _
                  (allocate-IsAllocated m.inodes merging.2)
                  (λ (i, after) allocated.
                    OnOk->>= (HasInode i) IsMerging
                      (copy_file_to_initrd stat read_file mount.source archive_name i) _
                      (copy_file_to_initrd-HasInode mount.source archive_name i)
                      (λ copied has.
                        write-IsMerging m i after copied
                          (archive_lookup_path archive_name ∷ m.existing_names) merging allocated
                          has))))

    merge_mounts-IsMerging :
        (mounts : List Mount) (m : Merge)
        → IsMerging m
        → OnOk IsMerging (merge_mounts stat read_file mounts m)
    unfolding merge_mounts
    merge_mounts-IsMerging [] m merging = merging
    merge_mounts-IsMerging (mount ∷ mounts) m merging =
        OnOk->>= IsMerging IsMerging (merge_mount stat read_file mount m)
          (merge_mounts stat read_file mounts) (merge_mount-IsMerging mount m merging)
          (merge_mounts-IsMerging mounts)

inspect_initrd-inodes :
    (archive : List CpioRecord)
    → ((inspect_initrd archive).written ≡ [])
      × ((inspect_initrd archive).inodes.next ≡ 1)
      × ((inspect_initrd archive).inodes.used ≡ inodes_of archive)
inspect_initrd-inodes [] = (refl, refl, refl)
inspect_initrd-inodes (hdr ∷ archive) =
    let (written, next, used) = inspect_initrd-inodes archive in
    (written, next, ap (λ js. hdr.inode ∷ js) used)

inspect_initrd-IsMerging :
    (archive : List CpioRecord) → IsMerging (inodes_of archive) (inspect_initrd archive)
unfolding taken
inspect_initrd-IsMerging archive =
    let (written, next, used) = inspect_initrd-inodes archive in
    (λ i e. (rw (sym used) e, rw written refl), ground arith, ground arith, rw written tt)

merge_regular-IsNew :
    (stat : String → Option Bool) (read_file : String → Option String) (archive : List CpioRecord)
    (mounts : List Mount)
    → OnOk (IsNew (inodes_of archive)) (merge_regular stat read_file archive mounts)
merge_regular-IsNew stat read_file archive [] = tt
merge_regular-IsNew stat read_file archive (first ∷ rest) =
    let old = inodes_of archive in
    OnOk->>= (IsMerging old) (IsNew old)
      (merge_mounts stat read_file (first ∷ rest) (inspect_initrd archive)) _
      (merge_mounts-IsMerging old stat read_file (first ∷ rest) (inspect_initrd archive)
        (inspect_initrd-IsMerging archive))
      (λ m (avoids, positive, bounded, new). new)

-- For every archive, every list of mounts and all answers of `stat` and `read_file`: when
-- `MergeFileMountsIntoInitrd` succeeds, each record that it writes, for a file or for a missing
-- parent directory, has an inode between 1 and 2^32 - 1 that no record of the archive has and no
-- other record that it writes.
pub merge_file_mounts_into_initrd-IsNew :
    (stat : String → Option Bool) (read_file : String → Option String) (archive : List CpioRecord)
    (mounts : List Mount)
    → OnOk (IsNew (inodes_of archive)) (merge_file_mounts_into_initrd stat read_file archive mounts)
unfolding merge_file_mounts_into_initrd
merge_file_mounts_into_initrd-IsNew stat read_file archive mounts =
    OnOk->>= (λ files. Unit {0}) (IsNew (inodes_of archive)) (regular_file_bind_mounts stat mounts)
      (merge_regular stat read_file archive) (OnOk-any (regular_file_bind_mounts stat mounts))
      (λ files any. merge_regular-IsNew stat read_file archive files)
