-- ===== src/Tests/Resources.antt =====
-- The monitor's resources on concrete inputs.
use urunc.Prelude.{
  ℕ, ◌*◌, ◌≤◌, ◌<◌, String, ◌<>◌, true, false, some, [], ◌∷◌, ok, ◌≡◌, refl, arith, OnOk, All,
}
use urunc.Prelude.Strconv.{format_uint, pos}
use urunc.Types.{Mount, RootfsParams}
use urunc.Hypervisors.{Vmm, qemu}
use urunc.Hypervisors.Process.{bytes_to_string_mb, bytes_to_mb}
use urunc.Block.{MountEntry}
use urunc.Resources.{Files, missing, monitor_memory_bytes}
use urunc.Resources.Volumes.{
  VolumeHost, VolumeCall, set_loop_autoclear, mount_again, remount, restore_block_volume,
  restore_block_volumes,
}
use urunc.Types.{BlockDevParams}
use urunc.Prelude.{List, Bool}
use urunc.Resources.Builders.{RootfsBuilder, sharedfs_rootfs, choose_tmpfs_size}
use urunc.Resources.Collect.{DeviceAnswer, device, get_monitor_resources, MonitorResources}
use urunc.Resources.Confined.{IsConfined, volumes_of, get_monitor_resources-IsConfined}
use urunc.Resources.Memory.{choose_tmpfs_size_covers}

abbrev files : Files
files = record {
  stat = λ path. some true;
  lstat = λ path. missing;
  secure_join = λ root path. some (root <> path);
  rel = λ root path. some "data";
}

abbrev entry : MountEntry
entry = record {
  mountpoint = "/vol";
  source = "/dev/dm-1";
  fs_type = "ext4";
  options = "ro,nosuid";
}

-- What is mounted again is a mount point from then on, and what is unmounted is none any more.
abbrev is_mounted : List VolumeCall → Bool
is_mounted [] = false
is_mounted (mount_again r ∷ calls) = true
is_mounted (_ ∷ calls) = is_mounted calls

abbrev volume_host : VolumeHost
volume_host = record {
  fails = λ calls c. false;
  mount_info = λ calls. some (elim calls [ [] ↦ entry ∷ [] | c ∷ cs ↦ [] ]);
  flag_changes = λ calls device value. true;
  mounted = λ calls path. some (is_mounted calls);
}

abbrev volume : Mount
volume = record {
  type = "bind";
  source = "/vol";
  destination = "/data";
  options = "bind" ∷ "rw" ∷ [];
}

abbrev rfs : RootfsBuilder
rfs =
    sharedfs_rootfs (volume ∷ []) (record { path = "/usr/libexec/virtiofsd"; options = "" })
      "/cntrRootfs" "/run/rootfs" "virtiofs" (256 * 1024 * 1024)

abbrev params : RootfsParams
params = record {
  type = "virtiofs";
  path = "";
  mounted_path = "/run/rootfs";
  mon_rootfs = "/b/monRootfs";
}

abbrev vmm : Vmm
vmm = record {
  kind = qemu;
  binary = "qemu-system-";
  binary_path = "/usr/bin/qemu-system-x86_64";
  vhost = false;
}

abbrev all_devices : String → DeviceAnswer
all_devices path = device

get_monitor_resources_example :
    OnOk
      (λ (res : MonitorResources). All (IsConfined "/run/rootfs" (volumes_of rfs)) res.mounts)
      (get_monitor_resources files volume_host all_devices rfs params vmm "" (volume ∷ []))
get_monitor_resources_example =
    get_monitor_resources-IsConfined files volume_host all_devices rfs params vmm "" (volume ∷ [])

choose_tmpfs_size_example :
    (guest tmpfs : ℕ) × (bytes_to_string_mb 268435456 ≡ format_uint guest)
    × (choose_tmpfs_size "virtiofs" 268435456 ≡ format_uint tmpfs <> "m")
    × (guest < tmpfs)
    × (268435456 ≤ tmpfs * 1024 * 1024)
choose_tmpfs_size_example = choose_tmpfs_size_covers 268435456 (omega arith) (omega arith)

-- A memory limit below a megabyte: the guest gets the default of 256, and the tmpfs 1.
small_memory :
    (bytes_to_string_mb (monitor_memory_bytes 256 (some (pos 900000))) ≡ "256")
    × (choose_tmpfs_size "virtiofs" (monitor_memory_bytes 256 (some (pos 900000))) ≡ "1m")
unfolding bytes_to_string_mb choose_tmpfs_size monitor_memory_bytes format_uint bytes_to_mb
small_memory = (refl, refl)

abbrev taken : BlockDevParams
taken = record {
  source = "/dev/dm-1";
  mount_point = "/data";
  fs_type = "ext4";
  id = "vol0";
  host_mount_point = "/vol";
  loop_autoclear = true;
  mount_options = "ro,nosuid";
  is_explicit = false;
}

-- Two volumes with one mount point: the second is skipped.
restore_run :
    restore_block_volumes volume_host (taken ∷ taken ∷ []) []
    ≡ (ok tt, mount_again (remount taken) ∷ set_loop_autoclear "/dev/dm-1" true ∷ [])
unfolding restore_block_volumes restore_block_volume
restore_run = refl
