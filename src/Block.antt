-- ===== src/Block.antt =====
-- pkg/unikontainers/block.go: how a mount point is recognised as a block device that the guest can use,
-- and the parameters of the block devices that the guest gets.
pub mod MountInfo
use urunc.Prelude.{
  ℕ, zero, suc, String, ◌==◌, Bool, true, false, not, Option, none, some, List, [], ◌∷◌, ◌&&◌,
  if◌then◌else◌, Result, ok, err,
}
use urunc.Prelude.{contains}
use urunc.Types.{BlockDevParams, no_block_dev, RootfsParams}

-- mountinfo.Info, an entry of /proc/thread-self/mountinfo.
pub record MountEntry : Type 0 where
  pub mountpoint : String
  pub source : String
  pub fs_type : String
  pub options : String

-- The variables of the loop of findMountInfo: the device, and the keys of `nonSpecialSources`.
pub record Search : Type 0 where
  pub block_dev : BlockDevParams
  pub non_special_sources : List String

unfoldable pub search_step : String → MountEntry → Search → Search
search_step path m s =
    if m.mountpoint == path
    then record s {
      block_dev = record s.block_dev {
        source = m.source;
        fs_type = m.fs_type;
        mount_point = path;
        mount_options = m.options;
        id = "";
      };
    }
    else if not (m.fs_type == m.source)
    then record s { non_special_sources = m.source ∷ s.non_special_sources }
    else s

unfoldable pub search_mounts : String → List MountEntry → Search → Search
search_mounts path [] s = s
search_mounts path (m ∷ ms) s = search_mounts path ms (search_step path m s)

abbrev pub nothing_found : Search
nothing_found = record { block_dev = no_block_dev; non_special_sources = [] }

-- `findMountInfo`; `none` is ErrMountpoint.
unfoldable pub find_mount_info : List MountEntry → String → Option BlockDevParams
find_mount_info mount_info path =
    let s = search_mounts path mount_info nothing_found in
    if s.block_dev.source == ""
    then none
    else if contains s.non_special_sources s.block_dev.source
    then none
    else some s.block_dev

pub data BlockError : Type 0 where
  no_mountpoint_given : BlockError

-- `handleExplicitBlockImage`
unfoldable pub handle_explicit_block_image : String → String → Result BlockError BlockDevParams
handle_explicit_block_image block_img mount_point =
    if block_img == ""
    then ok no_block_dev
    else if mount_point == ""
    then err no_mountpoint_given
    else ok (record no_block_dev {
      source = block_img;
      mount_point = mount_point;
      id = if mount_point == "/" then "rootfs" else "";
      is_explicit = true;
    })

-- The first entry of `blockRootfs.getBlockDevs`, the root filesystem of the guest.
unfoldable pub rootfs_block : String → String → String → BlockDevParams
rootfs_block path mounted_path guest_type = record no_block_dev {
  source = path;
  mount_point = if guest_type == "rumprun" then "/data" else "/";
  id = "rootfs";
  is_explicit = mounted_path == "";
}

-- `blockDevNodes`, up to the look at the host's devices: the devices whose nodes the monitor gets.
unfoldable pub block_dev_nodes : List BlockDevParams → RootfsParams → List String
block_dev_nodes [] rootfs = []
block_dev_nodes (b ∷ bs) rootfs =
    let rest = block_dev_nodes bs rootfs in
    if not (rootfs.type == "block")
    then []
    else if b.source == rootfs.path && rootfs.mounted_path == ""
    then rest
    else b.source ∷ rest

-- The answers of umount(2): success, EBUSY, or another error.
pub data Unmounted : Type 0 where
  unmounted busy : Unmounted
  refused : ℕ → Unmounted

pub data UnmountError : Type 0 where
  still_busy : UnmountError
  unmount_errno : ℕ → UnmountError

-- `unmount`: ten tries at most, and the number of tries made. `answers n` is the answer to try `n`.
unfoldable pub unmount_from : (ℕ → Unmounted) → ℕ → ℕ → Result UnmountError (Unit {0}) × ℕ
unmount_from answers zero n = (err still_busy, n)
unmount_from answers (suc tries) n =
    let rest = unmount_from answers tries (suc n) in
    elim (answers n) [
      | unmounted ↦ (ok tt, suc n)
      | refused e ↦ (err (unmount_errno e), suc n)
      | busy ↦ rest
    ]

unfoldable pub unmount : (ℕ → Unmounted) → Result UnmountError (Unit {0}) × ℕ
unfolding unmount_from
unmount answers = unmount_from answers 10 0
