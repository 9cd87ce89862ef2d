-- ===== src/Mount.antt =====
-- pkg/unikontainers/mount.go: what the options of a mount mean, which mounts reach the guest, and the
-- flags that a rootless remount keeps.
pub mod Options
pub mod Binds
pub mod Apply
pub mod Flags
pub mod Devices
use urunc.Prelude.{
  ℕ, String, ◌==◌, Bool, true, false, not, Option, none, some, List, [], ◌∷◌, ◌++◌, ◌||◌, ◌&&◌,
  if◌then◌else◌, contains, Result, ok, err,
}
use urunc.Types.{Mount}

-- The propagation of a mount, and whether it is recursive (MS_REC).
pub data Propagation : Type 0 where
  private_mount slave_mount shared_mount unbindable_mount : Bool → Propagation

unfoldable pub map_rootfs_propagation_flag : String → Option Propagation
map_rootfs_propagation_flag value =
    if value == "rprivate"
    then some (private_mount true)
    else if value == "private"
    then some (private_mount false)
    else if value == "rslave"
    then some (slave_mount true)
    else if value == "slave"
    then some (slave_mount false)
    else if value == "rshared"
    then some (shared_mount true)
    else if value == "shared"
    then some (shared_mount false)
    else if value == "runbindable"
    then some (unbindable_mount true)
    else if value == "unbindable"
    then some (unbindable_mount false)
    else none

-- The flag bits of mount(2) that an option sets or clears. No two share a bit.
pub data Flag : Type 0 where
  rdonly nosuid nodev noexec noatime nodiratime relatime strictatime nosymfollow synchronous dirsync
        mandlock silent lazytime i_version :
      Flag

unfoldable pub same_flag : Flag → Flag → Bool
same_flag rdonly rdonly = true
same_flag nosuid nosuid = true
same_flag nodev nodev = true
same_flag noexec noexec = true
same_flag noatime noatime = true
same_flag nodiratime nodiratime = true
same_flag relatime relatime = true
same_flag strictatime strictatime = true
same_flag nosymfollow nosymfollow = true
same_flag synchronous synchronous = true
same_flag dirsync dirsync = true
same_flag mandlock mandlock = true
same_flag silent silent = true
same_flag lazytime lazytime = true
same_flag i_version i_version = true
same_flag _ _ = false

-- `mapVFSFlag`: the flag, and whether the option clears it.
unfoldable pub map_vfs_flag : String → Option (Flag × Bool)
map_vfs_flag value =
    if value == "ro"
    then some (rdonly, false)
    else if value == "rw"
    then some (rdonly, true)
    else if value == "nosuid"
    then some (nosuid, false)
    else if value == "suid"
    then some (nosuid, true)
    else if value == "nodev"
    then some (nodev, false)
    else if value == "dev"
    then some (nodev, true)
    else if value == "noexec"
    then some (noexec, false)
    else if value == "exec"
    then some (noexec, true)
    else if value == "noatime"
    then some (noatime, false)
    else if value == "atime"
    then some (noatime, true)
    else if value == "nodiratime"
    then some (nodiratime, false)
    else if value == "diratime"
    then some (nodiratime, true)
    else if value == "relatime"
    then some (relatime, false)
    else if value == "norelatime"
    then some (relatime, true)
    else if value == "strictatime"
    then some (strictatime, false)
    else if value == "nostrictatime"
    then some (strictatime, true)
    else if value == "nosymfollow"
    then some (nosymfollow, false)
    else if value == "symfollow"
    then some (nosymfollow, true)
    else if value == "sync"
    then some (synchronous, false)
    else if value == "async"
    then some (synchronous, true)
    else if value == "dirsync"
    then some (dirsync, false)
    else if value == "mand"
    then some (mandlock, false)
    else if value == "nomand"
    then some (mandlock, true)
    else if value == "silent"
    then some (silent, false)
    else if value == "loud"
    then some (silent, true)
    else if value == "lazytime"
    then some (lazytime, false)
    else if value == "nolazytime"
    then some (lazytime, true)
    else if value == "iversion"
    then some (i_version, false)
    else if value == "noiversion"
    then some (i_version, true)
    else none

-- The bits of a `uintptr` of flags.
abbrev pub Flags : Type 0
Flags = Flag → Bool

abbrev pub no_flags : Flags
no_flags _ = false

-- `flags |= f`, `flags &^= f`
abbrev pub set_flag : Flag → Bool → Flags → Flags
set_flag f value flags g = if same_flag f g then value else flags g

pub record SplitOptions : Type 0 where
  pub containerd : List String
  pub propagation : List Propagation
  pub vfs : Flags

-- One turn of the loop of `splitMountOptions`.
unfoldable pub split_option : Bool → SplitOptions → String → SplitOptions
split_option is_bind s o = elim (map_rootfs_propagation_flag o) [
  | some p ↦ record s { propagation = s.propagation ++ (p ∷ []) }
  | none ↦ elim (map_vfs_flag o) [
    | none ↦ record s { containerd = s.containerd ++ (o ∷ []) }
    | some (flag, clear) ↦
        let vfs = set_flag flag (not clear) s.vfs in
        if is_bind
        then record s { vfs = vfs }
        else record s { containerd = s.containerd ++ (o ∷ []); vfs = vfs }
  ]
]

unfoldable pub split_options : Bool → SplitOptions → List String → SplitOptions
split_options is_bind s [] = s
split_options is_bind s (o ∷ os) = split_options is_bind (split_option is_bind s o) os

-- `splitMountOptions`
unfoldable pub split_mount_options : List String → Bool → SplitOptions
split_mount_options options is_bind =
    split_options is_bind (record { containerd = []; propagation = []; vfs = no_flags }) options

unfoldable pub is_bind_mount : Mount → Bool
unfolding contains
is_bind_mount m = contains m.options "bind" || contains m.options "rbind"

pub data MountError : Type 0 where
  no_bind_option : Mount → MountError
  statfs_failed : String → MountError

-- `onlyBindMounts`. `is_host_kernel_fs` is isHostKernelFS, which asks statfs(2); `none` is its failure.
unfoldable pub only_bind_mounts :
    (String → Option Bool) → List Mount → Result MountError (List Mount)
only_bind_mounts is_host_kernel_fs [] = ok []
only_bind_mounts is_host_kernel_fs (m ∷ ms) =
    let rest = only_bind_mounts is_host_kernel_fs ms in
    if not (is_bind_mount m)
    then if m.type == "bind" || m.type == "rbind" then err (no_bind_option m) else rest
    else elim (is_host_kernel_fs m.source) [
      | none ↦ err (statfs_failed m.source)
      | some true ↦ rest
      | some false ↦ elim rest [ err e ↦ err e | ok result ↦ ok (m ∷ result) ]
    ]

-- The flags that statfs(2) reports, as `Flag`s; getUnprivilegedMountFlags of them.
unfoldable pub get_unprivileged_mount_flags : Flags → Flags
get_unprivileged_mount_flags st rdonly = st rdonly
get_unprivileged_mount_flags st nodev = st nodev
get_unprivileged_mount_flags st noexec = st noexec
get_unprivileged_mount_flags st nosuid = st nosuid
get_unprivileged_mount_flags st noatime = st noatime
get_unprivileged_mount_flags st relatime = st relatime
get_unprivileged_mount_flags st nodiratime = st nodiratime
get_unprivileged_mount_flags st strictatime = not (st noatime || st relatime)
get_unprivileged_mount_flags st _ = false
