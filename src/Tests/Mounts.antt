-- ===== src/Tests/Mounts.antt =====
-- Runs of applyMounts and of the devices of a monitor's rootfs.
use urunc.Prelude.{
  ◌==◌, ◌<>◌, true, false, none, some, List, [], ◌∷◌, ok, refl, ◌≡◌, All, if◌then◌else◌, contains,
}
use urunc.Prelude.Strconv.{pos}
use urunc.Prelude.Text.{split, join}
use urunc.Prelude.Filepath.{clean, join_paths}
use urunc.Types.{Mount}
use urunc.Mount.{
  nosuid, is_bind_mount, split_mount_options, split_options, split_option,
  map_rootfs_propagation_flag, map_vfs_flag, get_unprivileged_mount_flags, same_flag, slave_mount,
}
use urunc.Mount.Apply.{
  Host, mknod, chmod, chown, made_private, einval, create_mount_point, locked_flags, remount_bind,
  set_propagations, sticky_tmpfs, mount_at, apply_mount, apply_mounts, set_propagation,
  make_private, bind_recursive,
}
use urunc.Mount.Flags.{HasItsFlags, apply_mounts-flags}
use urunc.Mount.Devices.{
  LinuxDevice, own_device, make_device, setup_dev, setup_devices, rootfs_parent_mount_private,
  prepare_root,
}

abbrev rootless : Host
rootless = record {
  fails = λ calls c. false;
  secure_join = λ root path. some (root <> path);
  is_dir = λ calls path. some (path == "/lib");
  stat_file = λ path. none;
  in_user_ns = true;
  statfs_flags = λ calls path. some (λ g. same_flag g nosuid);
  private_answer = λ calls path. if path == "/run" then made_private else einval;
}

abbrev read_only : List Mount
read_only =
    record {
      type = "bind";
      source = "/lib";
      destination = "/lib";
      options = "bind" ∷ "rw" ∷ "private" ∷ "ro" ∷ [];
    }
    ∷ record {
      type = "tmpfs";
      source = "tmpfs";
      destination = "/tmp";
      options = "nosuid" ∷ "mode=1777" ∷ [];
    }
    ∷ []

read_only_is_mounted : (apply_mounts rootless "/mon" read_only []).0 ≡ ok tt
unfolding apply_mounts apply_mount mount_at create_mount_point locked_flags remount_bind
    set_propagations sticky_tmpfs is_bind_mount split_mount_options split_options split_option
    map_rootfs_propagation_flag map_vfs_flag get_unprivileged_mount_flags same_flag contains
read_only_is_mounted = refl

flags_example :
    All (λ m. HasItsFlags rootless "/mon" m (apply_mounts rootless "/mon" read_only []).1) read_only
flags_example = apply_mounts-flags rootless "/mon" read_only [] read_only_is_mounted

abbrev kvm : LinuxDevice
kvm = record {
  path = "/dev/kvm";
  type = "c";
  major = pos 10;
  minor = pos 232;
  file_mode = some 432;
  uid = some 0;
  gid = some 104;
}

devices_run :
    setup_devices
      (record rootless { in_user_ns = false })
      (λ major minor. major)
      "/mon"
      (kvm ∷ record kvm { path = "/dev/net/tun" } ∷ [])
      false
      []
    ≡ (
      ok tt,
      mknod "/mon/dev/kvm" false 432 10
          ∷ chmod "/mon/dev/kvm" 438
          ∷ chown "/mon/dev/kvm" 0 104
          ∷ [],
    )
unfolding setup_devices setup_dev make_device own_device clean join_paths split join
devices_run = refl

prepare_run : prepare_root rootless ("rootfs" ∷ "c1" ∷ "run" ∷ []) "" [] ≡ (
  ok tt,
  set_propagation "/" (slave_mount true)
      ∷ make_private "/run/c1/rootfs"
      ∷ make_private "/run/c1"
      ∷ make_private "/run"
      ∷ bind_recursive "/run/c1/rootfs"
      ∷ [],
)
unfolding prepare_root rootfs_parent_mount_private map_rootfs_propagation_flag
prepare_run = refl
