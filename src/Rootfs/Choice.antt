-- ===== src/Rootfs/Choice.antt =====
-- The choice of the guest's root filesystem by ChooseRootfs (pkg/unikontainers/unikontainers.go).
use urunc.Prelude.{
  ℕ, ◌≤◌, String, Option, none, some, ◌≡◌, refl, inl, inr, arith, if◌then◌else◌, Result, ok, err,
  Option-cases, Bool-cases,
}
use urunc.Prelude.Filepath.{clean, join_paths}
use urunc.Types.{RootfsParams}
use urunc.Rootfs.{
  Host, RootfsSelector, RootfsError, no_usable_rootfs, monitor_rootfs_dir_name,
  should_mount_container_rootfs, try_initrd, try_explicit_block, try_container_block_rootfs,
  try_virtiofs, try_9pfs, try_container_rootfs, try_container_shared_fs, select_rootfs, or_try,
  switch_mon_rootfs, new_rootfs_result,
}
use urunc.Rootfs.Usable.{
  IsUsable, initrd, explicit_block, container_block, virtiofs, plan9, nothing_asked,
  try_initrd-IsUsable, try_explicit_block-IsUsable, try_container_block_rootfs-IsUsable,
  try_virtiofs-IsUsable, try_9pfs-IsUsable, rank-bound, skip-initrd, skip-block,
  skip-container_block, skip-virtiofs, skip-plan9, asked_rank, unasked_rank,
}

-- The chosen root filesystem, with its rank, or that there is none.
abbrev IsBest : Host → RootfsSelector → Option RootfsParams → Type 0
IsBest h rs (some r) =
    (k : ℕ) × IsUsable h rs r k × ((r' : RootfsParams) (k' : ℕ) → IsUsable h rs r' k' → k ≤ k')
IsBest h rs none = (r' : RootfsParams) (k' : ℕ) → IsUsable h rs r' k' → k' ≡ 5

-- The attempts in their order.
module _ (h : Host) (rs : RootfsSelector) where
  container-IsBest :
      try_initrd rs ≡ none → try_explicit_block rs ≡ none → IsBest h rs (try_container_rootfs h rs)
  unfolding try_container_rootfs try_container_shared_fs
  container-IsBest i b = elim (Bool-cases (should_mount_container_rootfs rs)) [
    | inr unasked ↦ rw unasked (λ r' k' u. omega (
      arith,
      skip-initrd h rs r' k' u i,
      skip-block h rs r' k' u b,
      unasked_rank h rs r' k' u unasked,
    ))
    | inl asked ↦ elim (Option-cases (try_container_block_rootfs h rs)) [
      | inr (r, c) ↦
          rw (asked, c)
            (
              2,
              try_container_block_rootfs-IsUsable h rs r asked c,
              λ r' k' u. omega (arith, skip-initrd h rs r' k' u i, skip-block h rs r' k' u b),
            )
      | inl c ↦ elim (Option-cases (try_virtiofs h rs)) [
        | inr (r, v) ↦
            rw (asked, c, v)
              (
                3,
                try_virtiofs-IsUsable h rs r asked v,
                λ r' k' u. omega (
                  arith,
                  skip-initrd h rs r' k' u i,
                  skip-block h rs r' k' u b,
                  skip-container_block h rs r' k' u c,
                ),
              )
        | inl v ↦ elim (Option-cases (try_9pfs rs)) [
          | inr (r, p) ↦
              rw (asked, c, v, p)
                (
                  4,
                  try_9pfs-IsUsable h rs r asked p,
                  λ r' k' u. omega (
                    arith,
                    skip-initrd h rs r' k' u i,
                    skip-block h rs r' k' u b,
                    skip-container_block h rs r' k' u c,
                    skip-virtiofs h rs r' k' u v,
                  ),
                )
          | inl p ↦
              rw (asked, c, v, p)
                (λ r' k' u. omega (
                  arith,
                  skip-initrd h rs r' k' u i,
                  skip-block h rs r' k' u b,
                  skip-container_block h rs r' k' u c,
                  skip-virtiofs h rs r' k' u v,
                  skip-plan9 h rs r' k' u p,
                  rank-bound h rs r' k' u,
                ))
        ]
      ]
    ]
  ]

  attempts-IsBest :
      IsBest h rs
        (or_try (try_initrd rs) (or_try (try_explicit_block rs) (try_container_rootfs h rs)))
  attempts-IsBest = elim (Option-cases (try_initrd rs)) [
    | inr (r, i) ↦ rw i (0, try_initrd-IsUsable h rs r i, λ r' k' u. omega arith)
    | inl i ↦ elim (Option-cases (try_explicit_block rs)) [
      | inr (r, b) ↦
          rw (i, b)
            (
              1,
              try_explicit_block-IsUsable h rs r b,
              λ r' k' u. omega (arith, skip-initrd h rs r' k' u i),
            )
      | inl b ↦ rw (i, b) (container-IsBest i b)
    ]
  ]

-- Only the kind and the path of a root filesystem say whether it can be used.
moved-IsUsable :
    (h : Host) (rs : RootfsSelector) (r : RootfsParams) (bundle : String) (k : ℕ)
    → IsUsable h rs r k
    → IsUsable h rs (switch_mon_rootfs r bundle) k
unfolding switch_mon_rootfs
moved-IsUsable h rs r bundle k (initrd a b c) = initrd a b c
moved-IsUsable h rs r bundle k (explicit_block a b c d e) = explicit_block a b c d e
moved-IsUsable h rs r bundle k (container_block f a b c d e) = container_block f a b c d e
moved-IsUsable h rs r bundle k (virtiofs a b c d e f) = virtiofs a b c d e f
moved-IsUsable h rs r bundle k (plan9 a b c d e) = plan9 a b c d e
moved-IsUsable h rs r bundle k (nothing_asked a b c) = nothing_asked a b c

-- What a choice is worth: the result meets what its kind asks, no other that does has a lower rank, and the
-- monitor gets its own directory of the bundle; or there was none.
unfoldable pub IsRightChoice : Host → RootfsSelector → Result RootfsError RootfsParams → Type 0
IsRightChoice h rs (ok r) =
    ((k : ℕ) × IsUsable h rs r k × ((r' : RootfsParams) (k' : ℕ) → IsUsable h rs r' k' → k ≤ k'))
    × (r.mon_rootfs ≡ join_paths (clean rs.bundle) monitor_rootfs_dir_name)
IsRightChoice h rs (err e) =
    (e ≡ no_usable_rootfs) × ((r : RootfsParams) (k : ℕ) → ¬ IsUsable h rs r k)

-- For every host and every selector: if a root filesystem is chosen, then it meets what its kind
-- asks. An initrd asks for its annotation. A block image asks for its annotation, the mount point
-- / and a guest that supports block devices. A block device of the container asks that mounting
-- the container's rootfs is requested and that the guest supports block devices and the device's
-- filesystem. virtiofs and 9pfs ask for the same request and that the guest and the monitor
-- support them, and virtiofs that virtiofsd exists. No filesystem at all asks that there is no
-- request. No other that meets what its kind asks comes before it in this order, and the
-- monitor's rootfs is the directory monRootfs of the bundle. If there is an error, it says that
-- none can be used, and none meets what its kind asks.
pub select_rootfs-IsRightChoice :
    (h : Host) (rs : RootfsSelector) → IsRightChoice h rs (select_rootfs h rs)
unfolding select_rootfs IsRightChoice switch_mon_rootfs new_rootfs_result
select_rootfs-IsRightChoice h rs =
    go (or_try (try_initrd rs) (or_try (try_explicit_block rs) (try_container_rootfs h rs)))
      (attempts-IsBest h rs)
  where
    go :
        (o : Option RootfsParams)
        → IsBest h rs o
        → IsRightChoice h rs (elim o [
          | some result ↦ ok (switch_mon_rootfs result rs.bundle)
          | none ↦
              if should_mount_container_rootfs rs
              then err no_usable_rootfs
              else ok (switch_mon_rootfs (new_rootfs_result "" "" rs.cntr_rootfs) rs.bundle)
        ])
    go (some r) (k, u, least) = ((k, moved-IsUsable h rs r rs.bundle k u, least), refl)
    go none all5 = elim (Bool-cases (should_mount_container_rootfs rs)) [
      | inl asked ↦ rw asked (refl, λ r k u. omega (arith, all5 r k u, asked_rank h rs r k u asked))
      | inr unasked ↦
          rw unasked
            ((5, nothing_asked unasked refl refl, λ r' k' u. omega (arith, all5 r' k' u)), refl)
    ]
