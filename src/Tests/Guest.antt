-- ===== src/Tests/Guest.antt =====
-- The guest's root filesystem and mounts, at concrete values.
use urunc.Prelude.{
  String, ◌==◌, Bool, true, false, Option, none, some, List, [], ◌∷◌, ◌≡◌, refl, contains, keep,
  choose, last_of,
}
use urunc.Types.{Mount}
use urunc.Unikernels.{linux}
use urunc.Hypervisors.{qemu}
use urunc.Block.{MountEntry, find_mount_info, search_step, search_mounts}
use urunc.Block.MountInfo.{find_mount_info-described, described, last_at}
use urunc.Rootfs.{Host, RootfsSelector, select_rootfs}
use urunc.Rootfs.Choice.{select_rootfs-IsRightChoice, IsRightChoice}
use urunc.Mount.{Flag, map_rootfs_propagation_flag, split_mount_options, only_bind_mounts}
use urunc.Mount.Options.{split_mount_options-Splits, is_left, says, or_old}
use urunc.Mount.Binds.{only_bind_mounts_lem, guest_mounts}

abbrev rootfs_entry : MountEntry
rootfs_entry = record {
  mountpoint = "/run/rootfs";
  source = "/dev/dm-3";
  fs_type = "ext4";
  options = "rw";
}

abbrev other_entry : MountEntry
other_entry = record { mountpoint = "/mnt"; source = "/dev/dm-3"; fs_type = "ext4"; options = "rw" }

abbrev host : Host
host = record {
  cwd = some "/";
  mounts = some (rootfs_entry ∷ []);
  file_exists = λ p. p == "/usr/libexec/virtiofsd";
  look_path = λ p. none;
  goarch = "amd64";
}

abbrev linux_on_qemu : RootfsSelector
linux_on_qemu = record {
  bundle = "/run/bundle";
  cntr_rootfs = "/run/rootfs";
  annot = ("com.urunc.unikernel.mountRootfs", "true") ∷ [];
  unikernel = linux;
  vmm = qemu;
  vfsd_path = "/usr/libexec/virtiofsd";
}

select_rootfs_example : IsRightChoice host linux_on_qemu (select_rootfs host linux_on_qemu)
select_rootfs_example = select_rootfs-IsRightChoice host linux_on_qemu

-- Two mounts of one device are not given to the guest.
find_mount_info_tests :
    (find_mount_info (rootfs_entry ∷ other_entry ∷ []) "/run/rootfs" ≡ none)
    × (find_mount_info (other_entry ∷ []) "/run/rootfs" ≡ none)
unfolding find_mount_info search_mounts search_step contains
find_mount_info_tests = (refl, refl)

find_mount_info_example :
    find_mount_info (rootfs_entry ∷ []) "/run/rootfs"
    ≡ described "/run/rootfs" (rootfs_entry ∷ []) (last_at "/run/rootfs" (rootfs_entry ∷ []) none)
find_mount_info_example = find_mount_info-described (rootfs_entry ∷ []) "/run/rootfs"

abbrev bind_options : List String
bind_options = "rbind" ∷ "rprivate" ∷ "ro" ∷ "rw" ∷ "nosuid" ∷ []

split_options_example :
    ((split_mount_options bind_options true).containerd ≡ keep (is_left true) bind_options)
    × ((split_mount_options bind_options true).propagation
        ≡ choose map_rootfs_propagation_flag bind_options)
    × ((g : Flag)
        → (split_mount_options bind_options true).vfs g
          ≡ or_old false (last_of (says g) bind_options))
split_options_example = split_mount_options-Splits bind_options true

abbrev mounts : List Mount
mounts =
    record { type = "bind"; source = "/data"; destination = "/data"; options = "rbind" ∷ [] }
    ∷ record { type = "bind"; source = "/sys"; destination = "/sys"; options = "bind" ∷ [] }
    ∷ record { type = "proc"; source = "proc"; destination = "/proc"; options = [] }
    ∷ []

abbrev kernel_fs : String → Option Bool
kernel_fs p = some (p == "/sys")

only_bind_mounts_example : only_bind_mounts kernel_fs mounts ≡ guest_mounts kernel_fs mounts
only_bind_mounts_example = only_bind_mounts_lem kernel_fs mounts
