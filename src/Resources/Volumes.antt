-- ===== src/Resources/Volumes.antt =====
-- pkg/unikontainers/block.go: getBlockVolumes, the volumes of the container that become block devices of
-- the guest, and restoreBlockVolumes, which mounts them again.
use urunc.Prelude.{
  ℕ, suc, String, ◌<>◌, ◌==◌, Bool, true, false, not, Option, none, some, List, [], ◌∷◌,
  if◌then◌else◌, Result, ok, err,
}
use urunc.Prelude.Traced.{Traced, perform, lift, pure, ◌>>=◌}
use urunc.Prelude.Text.{split}
use urunc.Prelude.Strconv.{format_uint}
use urunc.Types.{Mount, BlockDevParams}
use urunc.Unikernels.{UnikernelKind, supports_fs}
use urunc.Block.{MountEntry, find_mount_info}
use urunc.Mount.{Flags, no_flags, set_flag, map_vfs_flag}
use urunc.Resources.{ResourceError, volume_failed}

-- One turn of the loop over the mount options in `restoreBlockVolumes`.
unfoldable pub restore_flags : Flags → List String → Flags
restore_flags flags [] = flags
restore_flags flags (o ∷ os) = elim (map_vfs_flag o) [
  | none ↦ restore_flags flags os
  | some (flag, clear) ↦ restore_flags (set_flag flag (not clear) flags) os
]

-- The arguments of mount(2).
pub record Remount : Type 0 where
  pub source : String
  pub target : String
  pub fs_type : String
  pub flags : Flags

abbrev pub comma : ℕ
comma = b','

-- What is asked of the system.
pub data VolumeCall : Type 0 where
  set_loop_autoclear : String → Bool → VolumeCall
  unmount_at : String → VolumeCall
  mount_again : Remount → VolumeCall

-- The host, whose answers may depend on the calls before: which calls fail, the mountinfo, whether
-- setLoopAutoclear changes the flag, and whether a path is a mount point. `none` is an error.
pub record VolumeHost : Type 0 where
  pub fails : List VolumeCall → VolumeCall → Bool
  pub mount_info : List VolumeCall → Option (List MountEntry)
  pub flag_changes : List VolumeCall → String → Bool → Bool
  pub mounted : List VolumeCall → String → Option Bool

abbrev pub Volumes : Type 0 → Type 0
Volumes = Traced VolumeCall ResourceError

abbrev path_of_call : VolumeCall → String
path_of_call (set_loop_autoclear device value) = device
path_of_call (unmount_at path) = path
path_of_call (mount_again r) = r.target

abbrev pub failure : VolumeCall → ResourceError
failure c = volume_failed (path_of_call c)

abbrev pub asked : {A : Type 0} → String → Option A → Result ResourceError A
asked path none = err (volume_failed path)
asked path (some a) = ok a

abbrev pub add_volume : Option BlockDevParams → List BlockDevParams → List BlockDevParams
add_volume none volumes = volumes
add_volume (some b) volumes = b ∷ volumes

abbrev pub remount : BlockDevParams → Remount
remount b = record {
  source = b.source;
  target = b.host_mount_point;
  fs_type = b.fs_type;
  flags = restore_flags no_flags (split comma b.mount_options);
}

-- The volume of the mount with the index `i`.
abbrev pub volume_of : ℕ → Mount → BlockDevParams → Bool → BlockDevParams
volume_of i m info cleared = record info {
  loop_autoclear = cleared;
  id = "vol" <> format_uint i;
  host_mount_point = info.mount_point;
  mount_point = m.destination;
  is_explicit = false;
}

module _ (h : VolumeHost) where
  abbrev pub volume_call : VolumeCall → Volumes (Unit {0})
  volume_call = perform h.fails failure

  -- The answer of `setLoopAutoclear`: whether the flag was changed.
  abbrev pub set_autoclear : String → Bool → Volumes Bool
  set_autoclear device value calls =
      let r = volume_call (set_loop_autoclear device value) calls in
      (elim r.0 [ err e ↦ err e | ok done ↦ ok (h.flag_changes calls device value) ], r.1)

  -- A device that the guest supports is taken from the host.
  abbrev pub take_volume : ℕ → Mount → BlockDevParams → Volumes (Option BlockDevParams)
  take_volume i m info = set_autoclear info.source false >>= λ cleared.
      volume_call (unmount_at info.mount_point) >>= λ done. pure (some (volume_of i m info cleared))

  abbrev pub volume_found :
      UnikernelKind → ℕ → Mount → Option BlockDevParams → Volumes (Option BlockDevParams)
  volume_found ukernel i m none = pure none
  volume_found ukernel i m (some info) =
      if supports_fs ukernel info.fs_type then take_volume i m info else pure none

  -- The turn of the mount with the index `i`, with the mountinfo as it is then.
  unfoldable pub block_volume : UnikernelKind → ℕ → Mount → Volumes (Option BlockDevParams)
  block_volume ukernel i m = lift (λ calls. asked m.source (h.mount_info calls)) >>= λ entries.
      volume_found ukernel i m (find_mount_info entries m.source)

  -- `getBlockVolumes`, from the index `i` on.
  unfoldable pub get_block_volumes : UnikernelKind → ℕ → List Mount → Volumes (List BlockDevParams)
  get_block_volumes ukernel i [] = pure []
  get_block_volumes ukernel i (m ∷ ms) = block_volume ukernel i m >>= λ found.
      get_block_volumes ukernel (suc i) ms >>= λ volumes. pure (add_volume found volumes)

  abbrev pub mount_volume : BlockDevParams → Volumes (Unit {0})
  mount_volume b = volume_call (mount_again (remount b)) >>= λ done.
      if b.loop_autoclear then volume_call (set_loop_autoclear b.source true) else pure tt

  -- A turn of the loop of `restoreBlockVolumes`.
  unfoldable pub restore_block_volume : BlockDevParams → Volumes (Unit {0})
  restore_block_volume b =
      if b.host_mount_point == ""
      then pure tt
      else (lift (λ calls. asked b.host_mount_point (h.mounted calls b.host_mount_point))
          >>= λ there. if there then pure tt else mount_volume b)

  -- `restoreBlockVolumes`
  unfoldable pub restore_block_volumes : List BlockDevParams → Volumes (Unit {0})
  restore_block_volumes [] = pure tt
  restore_block_volumes (b ∷ bs) = restore_block_volume b >>= λ done. restore_block_volumes bs
