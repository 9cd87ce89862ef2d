-- ===== src/Rootfs/Usable.antt =====
-- Which root filesystems ChooseRootfs (pkg/unikontainers/unikontainers.go) accepts, and their order.
use urunc.Prelude.{
  ℕ, ◌≤◌, String, eq_iff, true, false, none, some, ◌≡◌, ◌≢◌, ◌⊎◌, refl, inl, inr, arith,
  Option-cases,
}
use urunc.Prelude.Map.{get}
use urunc.Types.{RootfsParams}
use urunc.Unikernels.{supports_block, supports_fs}
use urunc.Hypervisors.{supports_sharedfs}
use urunc.Annotations.{annot_initrd, annot_block, annot_block_mnt_point}
use urunc.Rootfs.{
  Host, RootfsSelector, should_mount_container_rootfs, get_mount_info_source, try_initrd,
  try_explicit_block, try_container_block_rootfs, try_virtiofs, try_9pfs,
}

-- What ChooseRootfs asks of a root filesystem of each kind, and where it comes from. Of an initrd it asks
-- only that the annotation is there, and for a block device it does not ask the monitor. The number is
-- the kind's rank: the lower is the one to prefer.
pub data IsUsable (h : Host) (rs : RootfsSelector) (r : RootfsParams) : ℕ → Type 0 where
  initrd :
      get rs.annot annot_initrd ≢ ""
      → r.type ≡ "initrd"
      → r.path ≡ get rs.annot annot_initrd
      → IsUsable h rs r 0
  explicit_block :
      get rs.annot annot_block ≢ ""
      → get rs.annot annot_block_mnt_point ≡ "/"
      → supports_block rs.unikernel ≡ true
      → r.type ≡ "block"
      → r.path ≡ get rs.annot annot_block
      → IsUsable h rs r 1
  container_block :
      (fs_type : String)
      → should_mount_container_rootfs rs ≡ true
      → supports_block rs.unikernel ≡ true
      → get_mount_info_source h rs.cntr_rootfs ≡ some (r.path, fs_type)
      → supports_fs rs.unikernel fs_type ≡ true
      → r.type ≡ "block"
      → IsUsable h rs r 2
  virtiofs :
      should_mount_container_rootfs rs ≡ true
      → supports_fs rs.unikernel "virtiofs" ≡ true
      → supports_sharedfs rs.vmm "virtio" ≡ true
      → h.file_exists rs.vfsd_path ≡ true
      → r.type ≡ "virtiofs"
      → r.path ≡ rs.cntr_rootfs
      → IsUsable h rs r 3
  plan9 :
      should_mount_container_rootfs rs ≡ true
      → supports_fs rs.unikernel "9pfs" ≡ true
      → supports_sharedfs rs.vmm "9p" ≡ true
      → r.type ≡ "9pfs"
      → r.path ≡ rs.cntr_rootfs
      → IsUsable h rs r 4
  nothing_asked :
      should_mount_container_rootfs rs ≡ false → r.type ≡ "" → r.path ≡ "" → IsUsable h rs r 5

module _ (h : Host) (rs : RootfsSelector) (r : RootfsParams) where
  pub try_initrd-IsUsable : try_initrd rs ≡ some r → IsUsable h rs r 0
  unfolding try_initrd
  try_initrd-IsUsable e =
      initrd (ground (arith, eq_iff (get rs.annot annot_initrd) "")) (ground arith) (ground arith)

  pub try_explicit_block-IsUsable : try_explicit_block rs ≡ some r → IsUsable h rs r 1
  unfolding try_explicit_block
  try_explicit_block-IsUsable e =
      explicit_block (ground (arith, eq_iff (get rs.annot annot_block) ""))
        (ground (arith, eq_iff (get rs.annot annot_block_mnt_point) "/")) (ground arith)
        (ground arith) (ground arith)

  pub try_container_block_rootfs-IsUsable :
      should_mount_container_rootfs rs ≡ true
      → try_container_block_rootfs h rs ≡ some r
      → IsUsable h rs r 2
  unfolding try_container_block_rootfs
  try_container_block_rootfs-IsUsable asked e =
      elim (Option-cases (get_mount_info_source h rs.cntr_rootfs)) [
        | inl n ↦ ground arith
        | inr ((source, fs_type), s) ↦
            container_block fs_type asked (ground arith) (ground (arith, s)) (ground (arith, s))
              (ground (arith, s))
      ]

  pub try_virtiofs-IsUsable :
      should_mount_container_rootfs rs ≡ true → try_virtiofs h rs ≡ some r → IsUsable h rs r 3
  unfolding try_virtiofs
  try_virtiofs-IsUsable asked e =
      virtiofs asked (ground arith) (ground arith) (ground arith) (ground arith) (ground arith)

  pub try_9pfs-IsUsable :
      should_mount_container_rootfs rs ≡ true → try_9pfs rs ≡ some r → IsUsable h rs r 4
  unfolding try_9pfs
  try_9pfs-IsUsable asked e =
      plan9 asked (ground arith) (ground arith) (ground arith) (ground arith)

-- What one attempt's failure, or the request, leaves of the ranks.
module _ (h : Host) (rs : RootfsSelector) (r : RootfsParams) where
  pub rank-bound : (k : ℕ) → IsUsable h rs r k → k ≤ 5
  rank-bound k (initrd _ _ _) = omega arith
  rank-bound k (explicit_block _ _ _ _ _) = omega arith
  rank-bound k (container_block _ _ _ _ _ _) = omega arith
  rank-bound k (virtiofs _ _ _ _ _ _) = omega arith
  rank-bound k (plan9 _ _ _ _ _) = omega arith
  rank-bound k (nothing_asked _ _ _) = omega arith

  pub skip-initrd : (k : ℕ) → IsUsable h rs r k → try_initrd rs ≡ none → 1 ≤ k
  unfolding try_initrd
  skip-initrd k (initrd c t p) e = ground (arith, eq_iff (get rs.annot annot_initrd) "")
  skip-initrd k (explicit_block _ _ _ _ _) e = omega arith
  skip-initrd k (container_block _ _ _ _ _ _) e = omega arith
  skip-initrd k (virtiofs _ _ _ _ _ _) e = omega arith
  skip-initrd k (plan9 _ _ _ _ _) e = omega arith
  skip-initrd k (nothing_asked _ _ _) e = omega arith

  pub skip-block : (k : ℕ) → IsUsable h rs r k → try_explicit_block rs ≡ none → k ≢ 1
  unfolding try_explicit_block
  skip-block k (initrd _ _ _) e = omega arith
  skip-block k (explicit_block c m b t p) e =
      ground (
        arith,
        eq_iff (get rs.annot annot_block) "",
        eq_iff (get rs.annot annot_block_mnt_point) "/",
      )
  skip-block k (container_block _ _ _ _ _ _) e = omega arith
  skip-block k (virtiofs _ _ _ _ _ _) e = omega arith
  skip-block k (plan9 _ _ _ _ _) e = omega arith
  skip-block k (nothing_asked _ _ _) e = omega arith

  pub skip-container_block :
      (k : ℕ) → IsUsable h rs r k → try_container_block_rootfs h rs ≡ none → k ≢ 2
  unfolding try_container_block_rootfs
  skip-container_block k (initrd _ _ _) e = omega arith
  skip-container_block k (explicit_block _ _ _ _ _) e = omega arith
  skip-container_block k (container_block f a b s t p) e = ground (arith, s, t)
  skip-container_block k (virtiofs _ _ _ _ _ _) e = omega arith
  skip-container_block k (plan9 _ _ _ _ _) e = omega arith
  skip-container_block k (nothing_asked _ _ _) e = omega arith

  pub skip-virtiofs : (k : ℕ) → IsUsable h rs r k → try_virtiofs h rs ≡ none → k ≢ 3
  unfolding try_virtiofs
  skip-virtiofs k (initrd _ _ _) e = omega arith
  skip-virtiofs k (explicit_block _ _ _ _ _) e = omega arith
  skip-virtiofs k (container_block _ _ _ _ _ _) e = omega arith
  skip-virtiofs k (virtiofs a b c d t p) e = ground arith
  skip-virtiofs k (plan9 _ _ _ _ _) e = omega arith
  skip-virtiofs k (nothing_asked _ _ _) e = omega arith

  pub skip-plan9 : (k : ℕ) → IsUsable h rs r k → try_9pfs rs ≡ none → k ≢ 4
  unfolding try_9pfs
  skip-plan9 k (initrd _ _ _) e = omega arith
  skip-plan9 k (explicit_block _ _ _ _ _) e = omega arith
  skip-plan9 k (container_block _ _ _ _ _ _) e = omega arith
  skip-plan9 k (virtiofs _ _ _ _ _ _) e = omega arith
  skip-plan9 k (plan9 a b c t p) e = ground arith
  skip-plan9 k (nothing_asked _ _ _) e = omega arith

  pub asked_rank : (k : ℕ) → IsUsable h rs r k → should_mount_container_rootfs rs ≡ true → k ≤ 4
  asked_rank k (initrd _ _ _) e = omega arith
  asked_rank k (explicit_block _ _ _ _ _) e = omega arith
  asked_rank k (container_block _ _ _ _ _ _) e = omega arith
  asked_rank k (virtiofs _ _ _ _ _ _) e = omega arith
  asked_rank k (plan9 _ _ _ _ _) e = omega arith
  asked_rank k (nothing_asked a b c) e = ground arith

  pub unasked_rank :
      (k : ℕ) → IsUsable h rs r k → should_mount_container_rootfs rs ≡ false → (k ≤ 1) ⊎ (k ≡ 5)
  unasked_rank k (initrd a b c) e = inl (omega arith)
  unasked_rank k (explicit_block a b c d f) e = inl (omega arith)
  unasked_rank k (container_block f a b s t p) e = ground arith
  unasked_rank k (virtiofs a b c d t p) e = ground arith
  unasked_rank k (plan9 a b c t p) e = ground arith
  unasked_rank k (nothing_asked a b c) e = inr refl
