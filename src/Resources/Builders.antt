-- ===== src/Resources/Builders.antt =====
-- The rootfsBuilder of each kind of guest rootfs: blockRootfs (block.go), initrdRootfs
-- (initrd_rootfs.go), sharedfsRootfs (shared_fs.go) and noRootfs (rootfs.go), and newRootfsBuilder.
use urunc.Prelude.{
  ℕ, ◌+◌, ◌*◌, ◌^◌, ◌%◌, String, ◌<>◌, ◌==◌, Bool, true, false, not, Option, none, some, List, [],
  ◌∷◌, ◌++◌, ◌||◌, ◌&&◌, if◌then◌else◌, Result, ok, err, ◌>>=◌,
}
use urunc.Prelude.Map.{Map, get}
use urunc.Prelude.Filepath.{join_paths}
use urunc.Prelude.Fields.{fields}
use urunc.Types.{Mount, RootfsParams, ExtraBinConfig, SharedfsParams, BlockDevParams}
use urunc.Annotations.{annot_type, annot_block, annot_block_mnt_point}
use urunc.Settings.{UruncConfig}
use urunc.Config.RoundTrip.{extra_bin_of}
use urunc.Hypervisors.Process.{bytes_to_string_mb}
use urunc.Unikernels.{UnikernelKind}
use urunc.Mount.{only_bind_mounts, MountError}
use urunc.Block.{handle_explicit_block_image, rootfs_block}
use urunc.Resources.{
  ResourceError, resolve_failed, no_block_support, bad_mount, Files, bind_mount, tmpfs_mount,
  container_rootfs_mount_path,
}
use urunc.Resources.Volumes.{VolumeHost, get_block_volumes}

pub data RootfsBuilder : Type 0 where
  -- mounts, mountedPath, containerRootfs, path, guestType and guest
  block_rootfs : List Mount → String → String → String → String → UnikernelKind → RootfsBuilder
  -- mounts and mountedPath
  initrd_rootfs : List Mount → String → RootfsBuilder
  -- mounts, vfsdConfig, sharedPath, mountedPath, sfsType and memory
  sharedfs_rootfs : List Mount → ExtraBinConfig → String → String → String → ℕ → RootfsBuilder
  -- containerRootfsPath, annotBlockPath and annotBlockMountPoint
  no_rootfs : String → String → String → RootfsBuilder

-- The bind mount of the container's rootfs in the monitor's.
abbrev pub container_rootfs_mount : String → Bool → Mount
container_rootfs_mount source ro =
    bind_mount source container_rootfs_mount_path true ro ("nodev" ∷ "nosuid" ∷ "noexec" ∷ [])

-- The virtiofsd binary, in sharedfsRootfs.getMounts.
abbrev pub virtiofsd_mount : String → String → List Mount
virtiofsd_mount sfs_type path =
    if sfs_type == "virtiofs" then bind_mount path path true true [] ∷ [] else []

-- `chooseTmpfsSize`
unfoldable pub choose_tmpfs_size : String → ℕ → String
choose_tmpfs_size sfs_type mem =
    if sfs_type == "9pfs"
    then "65536k"
    else bytes_to_string_mb ((mem + 1024 * 1024) % 2 ^ 64) <> "m"

-- `rebaseBindMounts`
unfoldable pub rebase_bind_mounts : Files → String → List Mount → Result ResourceError (List Mount)
rebase_bind_mounts h container_rootfs [] = ok []
rebase_bind_mounts h container_rootfs (m ∷ ms) =
    let rest = rebase_bind_mounts h container_rootfs ms in
    elim (h.secure_join container_rootfs m.destination) [
      | none ↦ err (resolve_failed m.destination)
      | some resolved ↦ elim (h.rel container_rootfs resolved) [
        | none ↦ err (resolve_failed m.destination)
        | some rel ↦ rest >>= λ result. ok (
            record {
              type = "bind";
              source = m.source;
              destination = join_paths container_rootfs_mount_path rel;
              options = m.options;
            }
            ∷ result)
      ]
    ]

-- `getMounts`
unfoldable pub get_mounts : Files → RootfsBuilder → Result ResourceError (List Mount)
get_mounts h (block_rootfs mounts mounted_path container_rootfs path guest_type guest) = ok (
    tmpfs_mount "/tmp" "65536k"
    ∷ (if mounted_path == "" then container_rootfs_mount container_rootfs false ∷ [] else []))
get_mounts h (initrd_rootfs mounts mounted_path) =
    ok (container_rootfs_mount mounted_path false ∷ tmpfs_mount "/tmp" "65536k" ∷ [])
get_mounts h (sharedfs_rootfs mounts vfsd shared_path mounted_path sfs_type memory) =
    rebase_bind_mounts h mounted_path mounts >>= λ binds. ok (
      (container_rootfs_mount mounted_path false ∷ virtiofsd_mount sfs_type vfsd.path)
      ++ (tmpfs_mount "/tmp" (choose_tmpfs_size sfs_type memory) ∷ binds))
get_mounts h (no_rootfs container_rootfs_path block block_mount_point) = ok (
    container_rootfs_mount container_rootfs_path (block == "" || block_mount_point == "")
    ∷ tmpfs_mount "/tmp" "65536k"
    ∷ [])

-- `getBlockDevs`, which begins with no call of a volume made.
unfoldable pub get_block_devs :
    VolumeHost → RootfsBuilder → Result ResourceError (List BlockDevParams)
get_block_devs h (block_rootfs mounts mounted_path container_rootfs path guest_type guest) =
    (get_block_volumes h guest 0 mounts []).0 >>= λ volumes.
    ok (rootfs_block path mounted_path guest_type ∷ volumes)
get_block_devs h (initrd_rootfs mounts mounted_path) = ok []
get_block_devs h (sharedfs_rootfs mounts vfsd shared_path mounted_path sfs_type memory) = ok []
get_block_devs h (no_rootfs container_rootfs_path block block_mount_point) =
    elim (handle_explicit_block_image block block_mount_point) [
      | err e ↦ err no_block_support
      | ok b ↦ ok (
          if not (b.source == "") && not (b.mount_point == "/")
          then record b { id = "annot_vol" } ∷ []
          else [])
    ]

-- `getSharedDirs`
unfoldable pub get_shared_dirs : RootfsBuilder → SharedfsParams
get_shared_dirs (sharedfs_rootfs mounts vfsd shared_path mounted_path sfs_type memory) = record {
  type = sfs_type;
  path = container_rootfs_mount_path;
}
get_shared_dirs _ = record { type = ""; path = "" }

-- `preStartCmd`; an empty list stands for nil.
unfoldable pub pre_start_cmd : RootfsBuilder → List String
pre_start_cmd (sharedfs_rootfs mounts vfsd shared_path mounted_path sfs_type memory) =
    if sfs_type == "9pfs"
    then []
    else (vfsd.path ∷ "--socket-path=/tmp/vhostqemu" ∷ "--shared-dir" ∷ shared_path ∷ [])
      ++ (if vfsd.options == "" then [] else fields vfsd.options)
pre_start_cmd _ = []

-- The mounts for the guest that newRootfsBuilder selects.
unfoldable pub builder_mounts :
    (String → Option Bool) → RootfsParams → List Mount → Result MountError (List Mount)
builder_mounts is_host_kernel_fs params mounts =
    if params.type == "block"
      || params.type == "initrd"
      || params.type == "virtiofs"
      || params.type == "9pfs"
    then only_bind_mounts is_host_kernel_fs mounts
    else ok []

-- `newRootfsBuilder`
unfoldable pub new_rootfs_builder :
    (String → Option Bool)
    → List Mount
    → Map String
    → UruncConfig
    → String
    → RootfsParams
    → UnikernelKind
    → ℕ
    → Result ResourceError RootfsBuilder
new_rootfs_builder is_host_kernel_fs spec_mounts annot cfg container_rootfs params unikernel
      memory =
    elim (builder_mounts is_host_kernel_fs params spec_mounts) [
      | err e ↦ err bad_mount
      | ok mounts ↦ ok (
          if params.type == "block"
          then block_rootfs mounts params.mounted_path container_rootfs params.path
              (get annot annot_type) unikernel
          else if params.type == "initrd"
          then initrd_rootfs mounts params.mounted_path
          else if params.type == "virtiofs" || params.type == "9pfs"
          then sharedfs_rootfs mounts (extra_bin_of cfg "virtiofsd") container_rootfs_mount_path
              params.mounted_path params.type memory
          else no_rootfs params.mounted_path (get annot annot_block)
              (get annot annot_block_mnt_point))
    ]
