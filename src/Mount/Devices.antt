-- ===== src/Mount/Devices.antt =====
-- setupDevices, setupDev, fileFromHost, rootfsParentMountPrivate and prepareRoot of
-- pkg/unikontainers/mount.go.
use urunc.Prelude.{
  ℕ, ◌+◌, ◌%◌, ◌*◌, ◌/◌, String, ◌<>◌, ◌==◌, Bool, true, false, not, ◌&&◌, ltb, Option, none, some,
  List, [], ◌∷◌, ◌++◌, if◌then◌else◌, ok, err,
}
use urunc.Prelude.Strconv.{ℤ, pos, negsuc}
use urunc.Prelude.Filepath.{clean, join_paths, is_abs, dir_path}
use urunc.Prelude.Traced.{pure, raise, lift, ◌>>=◌, ◌>>◌}
use urunc.Resources.{bind_mount}
use urunc.Mount.{Propagation, slave_mount, map_rootfs_propagation_flag}
use urunc.Mount.Apply.{
  Host, Act, ApplyError, act, or_error, apply_mount, mkdir_all, mknod, chmod, chown, copy_file,
  make_private, made_private, einval, other_error, set_propagation, bind_recursive, not_a_device,
  no_file_mode, no_uid, no_gid, bad_device_number, not_regular_file, no_source, no_target,
  bad_propagation, no_private_parent,
}

-- `specs.LinuxDevice`; a pointer that may be nil is an Option.
pub record LinuxDevice : Type 0 where
  pub path : String
  pub type : String
  pub major : ℤ
  pub minor : ℤ
  pub file_mode : Option ℕ
  pub uid : Option ℕ
  pub gid : Option ℕ

abbrev max_uint32 : ℕ
max_uint32 = 4294967295

abbrev max_int : ℕ
max_int = 9223372036854775807

-- A device number within 32 bits.
abbrev pub device_number : ℤ → Option ℕ
device_number (negsuc n) = none
device_number (pos n) = if ltb max_uint32 n then none else some n

-- `unix.Mkdev` of numbers in range, when the result fits an int.
abbrev pub new_device : (ℕ → ℕ → ℕ) → Option ℕ → Option ℕ → Option ℕ
new_device mkdev none minor = none
new_device mkdev (some major) none = none
new_device mkdev (some major) (some minor) =
    let dev = mkdev major minor in if ltb max_int dev then none else some dev

-- `permBits | 0o006`
abbrev pub others_read_write : ℕ → ℕ
others_read_write perm = (perm / 8) * 8 + (6 + perm % 2)

-- `devType`: whether it is a block device.
abbrev pub is_block : LinuxDevice → Option Bool
is_block dev = if dev.type == "c" then some false else if dev.type == "b" then some true else none

-- `filepath.Join(monRootfs, rel)`, with the path relative to the root; an absolute path has one.
abbrev pub under_rootfs : String → String → Option String
under_rootfs mon_rootfs path =
    if is_abs path then some (join_paths mon_rootfs (clean path)) else none

module _ (host : Host) where
  abbrev need : {A : Type 0} → ApplyError → Option A → Act A
  need problem value = lift (λ calls. or_error problem value)

  abbrev require_regular : Bool → String → Act (Unit {0})
  require_regular true path = pure tt
  require_regular false path = raise (not_regular_file path)

  -- `fileFromHost`; an empty target is the path on the host, relative to the root.
  unfoldable pub file_from_host : String → String → String → Act (Unit {0})
  file_from_host mon_rootfs host_path target = do
    info ← need (no_source host_path) (host.stat_file host_path)
    require_regular info.is_regular host_path
    name ←
        need (no_target host_path) (
          if target == "" then (if is_abs host_path then some host_path else none) else some target)
    dst ← need (no_target name) (host.secure_join mon_rootfs name)
    act host (copy_file host_path dst)
    act host (chmod dst info.mode)
    act host (chown dst info.uid info.gid)

  -- An absolute and clean path, of its elements, the last one first.
  abbrev pub path_of : List String → String
  path_of [] = "/"
  path_of (last ∷ []) = "/" <> last
  path_of (last ∷ parent ∷ rest) = path_of (parent ∷ rest) <> ("/" <> last)

  -- The loop of `rootfsParentMountPrivate`, from a path of these elements up to the root.
  unfoldable pub rootfs_parent_mount_private : List String → Act (Unit {0})
  rootfs_parent_mount_private [] calls = elim (host.private_answer calls "/") [
    | made_private ↦ (ok tt, calls ++ (make_private "/" ∷ []))
    | einval ↦ (err (no_private_parent "/"), calls ++ (make_private "/" ∷ []))
    | other_error ↦ (err (no_private_parent "/"), calls ++ (make_private "/" ∷ []))
  ]
  rootfs_parent_mount_private (last ∷ parents) calls =
      let path = path_of (last ∷ parents) in
      elim (host.private_answer calls path) [
        | made_private ↦ (ok tt, calls ++ (make_private path ∷ []))
        | einval ↦ rootfs_parent_mount_private parents (calls ++ (make_private path ∷ []))
        | other_error ↦ (err (no_private_parent path), calls ++ (make_private path ∷ []))
      ]

  abbrev propagation_of : String → Option Propagation
  propagation_of value =
      if value == "" then some (slave_mount true) else map_rootfs_propagation_flag value

  -- `prepareRoot`
  unfoldable pub prepare_root : List String → String → Act (Unit {0})
  prepare_root path rootfs_propagation = do
    flag ← need (bad_propagation rootfs_propagation) (propagation_of rootfs_propagation)
    act host (set_propagation "/" flag)
    rootfs_parent_mount_private path
    act host (bind_recursive (path_of path))

module _ (host : Host) (mkdev : ℕ → ℕ → ℕ) where
  unfoldable pub own_device : String → LinuxDevice → Act (Unit {0})
  own_device dst dev = do
    uid ← need host (no_uid dev.path) dev.uid
    gid ← need host (no_gid dev.path) dev.gid
    act host (chown dst uid gid)

  unfoldable pub make_device : String → Bool → LinuxDevice → Act (Unit {0})
  make_device dst block dev = do
    if dir_path dev.path == "/dev" then pure tt else act host (mkdir_all (dir_path dst))
    mode ← need host (no_file_mode dev.path) dev.file_mode
    number ←
        need host (bad_device_number dst)
          (new_device mkdev (device_number dev.major) (device_number dev.minor))
    act host (mknod dst block (mode % 512) number)
    act host (chmod dst (others_read_write (mode % 512)))
    own_device dst dev

  -- `setupDev`
  unfoldable pub setup_dev : String → LinuxDevice → Act (Unit {0})
  setup_dev mon_rootfs dev =
      if host.in_user_ns
      then apply_mount host mon_rootfs (bind_mount dev.path dev.path false false [])
      else (need host (not_a_device dev.path) (is_block dev) >>= λ block.
          need host (no_target dev.path) (under_rootfs mon_rootfs dev.path) >>= λ dst.
          make_device dst block dev)

  unfoldable pub setup_devices : String → List LinuxDevice → Bool → Act (Unit {0})
  setup_devices mon_rootfs [] needs_tap = pure tt
  setup_devices mon_rootfs (dev ∷ devices) needs_tap =
      (if not needs_tap && dev.path == "/dev/net/tun" then pure tt else setup_dev mon_rootfs dev)
      >> setup_devices mon_rootfs devices needs_tap
