-- ===== src/Mount/Apply.antt =====
-- applyMount, createMountPoint, setupDev, fileFromHost and prepareRoot of
-- pkg/unikontainers/mount.go. The calls that change the host are traced; its answers are a record.
use urunc.Prelude.{
  ℕ, String, ◌==◌, Bool, false, ◌||◌, ◌&&◌, Option, none, some, List, [], ◌∷◌, if◌then◌else◌,
  contains, Result, ok, err,
}
use urunc.Prelude.Filepath.{dir_path}
use urunc.Prelude.Traced.{Traced, pure, lift, ◌>>=◌, ◌>>◌, perform}
use urunc.Types.{Mount}
use urunc.Mount.{
  Propagation, Flags, rdonly, nosuid, nodev, noexec, noatime, nodiratime, relatime, strictatime,
  nosymfollow, synchronous, dirsync, mandlock, silent, lazytime, i_version, split_mount_options,
  is_bind_mount, get_unprivileged_mount_flags,
}

pub data HostCall : Type 0 where
  mkdir_all : String → HostCall
  open_create close_file : String → HostCall
  -- containerd's mount package: type, source, options and target.
  do_mount : String → String → List String → String → HostCall
  -- MS_BIND | MS_REMOUNT with these flags.
  remount : String → Flags → HostCall
  set_propagation : String → Propagation → HostCall
  make_private : String → HostCall
  bind_recursive : String → HostCall
  chmod chmod_sticky : String → ℕ → HostCall
  chown : String → ℕ → ℕ → HostCall
  copy_file : String → String → HostCall
  -- The path, whether it is a block device, the permissions, and the device's number.
  mknod : String → Bool → ℕ → ℕ → HostCall

pub data ApplyError : Type 0 where
  no_target no_source no_statfs : String → ApplyError
  not_a_device no_file_mode no_uid no_gid : String → ApplyError
  not_regular_file : String → ApplyError
  bad_device_number : String → ApplyError
  bad_propagation : String → ApplyError
  no_private_parent : String → ApplyError
  host_failed : HostCall → ApplyError

-- What mount(2) answers to MS_PRIVATE.
pub data PrivateAnswer : Type 0 where
  made_private einval other_error : PrivateAnswer

-- stat(2) of a regular file.
pub record FileInfo : Type 0 where
  pub is_regular : Bool
  pub mode : ℕ
  pub uid : ℕ
  pub gid : ℕ

pub record Host : Type 0 where
  pub fails : List HostCall → HostCall → Bool
  pub secure_join : String → String → Option String
  -- Whether it is a directory.
  pub is_dir : List HostCall → String → Option Bool
  pub stat_file : String → Option FileInfo
  pub in_user_ns : Bool
  pub statfs_flags : List HostCall → String → Option Flags
  pub private_answer : List HostCall → String → PrivateAnswer

abbrev pub Act : Type 0 → Type 0
Act = Traced HostCall ApplyError

abbrev pub or_error : {A : Type 0} → ApplyError → Option A → Result ApplyError A
or_error problem none = err problem
or_error problem (some a) = ok a

-- `vfsFlags != 0`
abbrev pub any_flag : Flags → Bool
any_flag flags =
    flags rdonly
    || flags nosuid
    || flags nodev
    || flags noexec
    || flags noatime
    || flags nodiratime
    || flags relatime
    || flags strictatime
    || flags nosymfollow
    || flags synchronous
    || flags dirsync
    || flags mandlock
    || flags silent
    || flags lazytime
    || flags i_version

module _ (host : Host) where
  abbrev pub act : HostCall → Act (Unit {0})
  act = perform host.fails host_failed

  -- `createMountPoint`
  unfoldable pub create_mount_point : String → Mount → Act (Unit {0})
  create_mount_point target m =
      if is_bind_mount m
      then (lift (λ calls. or_error (no_source m.source) (host.is_dir calls m.source)) >>= λ dir.
          if dir
          then act (mkdir_all target)
          else act (mkdir_all (dir_path target))
            >> act (open_create target)
            >> act (close_file target))
      else act (mkdir_all target)

  -- `getUnprivilegedMountFlags`
  abbrev pub read_locked : String → List HostCall → Result ApplyError Flags
  read_locked source calls = elim (host.statfs_flags calls source) [
    | none ↦ err (no_statfs source)
    | some st ↦ ok (get_unprivileged_mount_flags st)
  ]

  -- The flags locked on the source, in a user namespace.
  unfoldable pub locked_flags : String → Act Flags
  locked_flags source =
      if host.in_user_ns then lift (λ calls. read_locked source calls) else pure (λ g. false)

  unfoldable pub remount_bind : String → Mount → Flags → Act (Unit {0})
  remount_bind target m vfs_flags =
      if is_bind_mount m && any_flag vfs_flags
      then (locked_flags m.source >>= λ locked. act (remount target (λ g. vfs_flags g || locked g)))
      else pure tt

  unfoldable pub set_propagations : String → List Propagation → Act (Unit {0})
  set_propagations target [] = pure tt
  set_propagations target (p ∷ rest) =
      act (set_propagation target p) >> set_propagations target rest

  unfoldable pub sticky_tmpfs : String → Mount → Act (Unit {0})
  sticky_tmpfs target m =
      if m.type == "tmpfs" && contains m.options "mode=1777"
      then act (chmod_sticky target 511)
      else pure tt

  -- `applyMount` from the target on.
  unfoldable pub mount_at : Mount → String → Act (Unit {0})
  mount_at m target =
      let split = split_mount_options m.options (is_bind_mount m) in
      do
        create_mount_point target m
        act (do_mount m.type m.source split.containerd target)
        remount_bind target m split.vfs
        set_propagations target split.propagation
        sticky_tmpfs target m

  unfoldable pub apply_mount : String → Mount → Act (Unit {0})
  apply_mount rootfs_path m =
      lift
        (λ calls. or_error (no_target m.destination) (host.secure_join rootfs_path m.destination))
      >>= mount_at m

  unfoldable pub apply_mounts : String → List Mount → Act (Unit {0})
  apply_mounts rootfs_path [] = pure tt
  apply_mounts rootfs_path (m ∷ mounts) =
      apply_mount rootfs_path m >> apply_mounts rootfs_path mounts
