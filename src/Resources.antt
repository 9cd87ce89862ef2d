-- ===== src/Resources.antt =====
-- What the monitor gets from the host: mountsForMonitor, bindMount and tmpfsMount of
-- pkg/unikontainers/rootfs.go, the memory of the guest and getMonitorResources of unikontainers.go.
pub mod Builders
pub mod Volumes
pub mod Collect
pub mod Confined
pub mod Memory
pub mod Restored
pub mod Taken
pub mod Turns
use urunc.Prelude.{
  ℕ, ◌*◌, ◌^◌, ◌%◌, String, ◌<>◌, ◌==◌, Bool, true, false, not, Option, none, some, List, [], ◌∷◌,
  ◌++◌, ◌||◌, ◌&&◌, if◌then◌else◌, Result, ok, err, ◌>>=◌, starts_with, contains, eqb,
}
use urunc.Prelude.Strconv.{ℤ, pos, negsuc}
use urunc.Prelude.Filepath.{join_paths, base, clean}
use urunc.Types.{Mount}
use urunc.Hypervisors.{VmmKind, hyperlight, uses_tuntap}
use urunc.Hypervisors.Process.{nonpositive}

-- internal/constants/constants.go
abbrev pub container_rootfs_mount_path : String
container_rootfs_mount_path = "/cntrRootfs"

abbrev pub resolv_conf_path : String
resolv_conf_path = "/etc/resolv.conf"

unfoldable pub tmpfs_mount : String → String → Mount
tmpfs_mount target size = record {
  type = "tmpfs";
  source = "tmpfs";
  destination = target;
  options = "nosuid" ∷ "noexec" ∷ "strictatime" ∷ "mode=1777" ∷ ("size=" <> size) ∷ "private" ∷ [];
}

unfoldable pub bind_mount : String → String → Bool → Bool → List String → Mount
bind_mount source target private ro extra_options = record {
  type = "bind";
  source = source;
  destination = target;
  options =
      "bind"
      ∷ ((if private then "private" ∷ [] else [])
          ++ (if ro then "ro" ∷ [] else [])
          ++ extra_options);
}

-- What lstat(2) says of a path, and the target of a link; `none` is a failure of readlink(2).
pub data LstatAnswer : Type 0 where
  missing failed regular : LstatAnswer
  link : Option String → LstatAnswer

pub data ResourceError : Type 0 where
  stat_failed : String → ResourceError
  resolve_failed : String → ResourceError
  no_block_support : ResourceError
  bad_mount : ResourceError
  device_failed : String → ResourceError
  volume_failed : String → ResourceError

-- What the host answers: os.Stat (`none` for an error other than a missing file), os.Lstat, and
-- securejoin with filepath.Rel after it.
pub record Files : Type 0 where
  pub stat : String → Option Bool
  pub lstat : String → LstatAnswer
  pub secure_join : String → String → Option String
  pub rel : String → String → Option String

unfoldable pub find_qemu_data_dir : Files → String → Result ResourceError String
find_qemu_data_dir h basename =
    let path = join_paths "/usr/local/share/" basename in
    elim (h.lstat path) [
      | failed ↦ err (stat_failed path)
      | missing ↦ ok (join_paths "/usr/share/" basename)
      | link (some target) ↦ ok target
      | link none ↦ err (stat_failed path)
      | regular ↦ ok path
    ]

abbrev pub host_mount : String → String → Mount
host_mount source target = bind_mount source target true true []

-- A mount that is left out when its source does not exist.
unfoldable pub mount_if_exists : Files → String → String → Result ResourceError (List Mount)
mount_if_exists h source target = elim (h.stat source) [
  | none ↦ err (stat_failed source)
  | some true ↦ ok (host_mount source target ∷ [])
  | some false ↦ ok []
]

abbrev pub proc_mount : Mount
proc_mount = record { type = "proc"; source = "proc"; destination = "/proc"; options = [] }

abbrev pub dev_mount : Mount
dev_mount = record {
  type = "tmpfs";
  source = "tmpfs";
  destination = "/dev";
  options = "nosuid" ∷ "strictatime" ∷ "mode=755" ∷ "size=65536k" ∷ "private" ∷ [];
}

abbrev pub dev_pts_mount : Mount
dev_pts_mount = record {
  type = "devpts";
  source = "devpts";
  destination = "/dev/pts";
  options = "nosuid" ∷ "noexec" ∷ "newinstance" ∷ "ptmxmode=0666" ∷ "mode=0620" ∷ [];
}

-- The libraries of a monitor that is not static.
unfoldable pub library_mounts : Files → String → Result ResourceError (List Mount)
library_mounts h monitor_name =
    if monitor_name == "firecracker"
    then ok []
    else mount_if_exists h "/lib64" "/lib64" >>= λ lib64.
        ok ((host_mount "/lib" "/lib" ∷ lib64) ++ (host_mount "/usr/lib" "/usr/lib" ∷ []))

unfoldable pub qemu_data_mounts : Files → String → String → Result ResourceError (List Mount)
qemu_data_mounts h monitor_name data_path =
    if not (starts_with monitor_name "qemu")
    then ok []
    else (if data_path == "" then find_qemu_data_dir h "qemu" else ok (join_paths data_path "qemu"))
      >>= λ q_data_path.
          (if data_path == ""
            then find_qemu_data_dir h "seabios"
            else ok (join_paths data_path "seabios"))
          >>= λ s_bios_path. mount_if_exists h s_bios_path "/usr/share/seabios" >>= λ bios.
              ok (host_mount q_data_path "/usr/share/qemu" ∷ bios)

-- `mountsForMonitor`
unfoldable pub mounts_for_monitor : Files → String → String → Result ResourceError (List Mount)
mounts_for_monitor h monitor_path monitor_data_path =
    library_mounts h (base monitor_path) >>= λ libraries.
    qemu_data_mounts h (base monitor_path) monitor_data_path >>= λ data_mounts. ok (
      (proc_mount ∷ dev_mount ∷ dev_pts_mount ∷ host_mount monitor_path monitor_path ∷ libraries)
      ++ data_mounts)

-- `monitorMemoryBytes`, with the memory limit of the spec, an int64, if it is given.
unfoldable pub monitor_memory_bytes : ℕ → Option ℤ → ℕ
monitor_memory_bytes default_mem none = (default_mem * 1024 * 1024) % 2 ^ 64
monitor_memory_bytes default_mem (some (negsuc n)) = (default_mem * 1024 * 1024) % 2 ^ 64
monitor_memory_bytes default_mem (some (pos n)) =
    if eqb n 0 then (default_mem * 1024 * 1024) % 2 ^ 64 else n

-- `guestDefaultMemoryMB`
unfoldable pub guest_default_memory_mb : String → ℕ → ℕ
guest_default_memory_mb vmm_type default_mem =
    if vmm_type == "hyperlight-unikraft" then 0 else default_mem

-- `resolvConfMount`: the last mount of /etc/resolv.conf.
unfoldable pub resolv_conf_mount : List Mount → Option Mount
resolv_conf_mount [] = none
resolv_conf_mount (m ∷ ms) = elim (resolv_conf_mount ms) [
  | some n ↦ some n
  | none ↦ if clean m.destination == "/etc/resolv.conf" then some m else none
]

-- `monitorResolvConfMount`
unfoldable pub monitor_resolv_conf_mount : VmmKind → List Mount → Option Mount
monitor_resolv_conf_mount vmm mounts =
    if uses_tuntap vmm then none else elim (resolv_conf_mount mounts) [
      | none ↦ none
      | some m ↦ some (record m {
        destination = resolv_conf_path;
        options = if contains m.options "ro" then m.options else m.options ++ ("ro" ∷ []);
      })
    ]
