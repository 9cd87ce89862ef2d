-- ===== src/Rootfs.antt =====
-- The choice of the guest's root filesystem: ChooseRootfs of pkg/unikontainers/unikontainers.go, the
-- rootfsSelector of rootfs.go, and resolveAgainstBase of utils.go.
pub mod Usable
pub mod Choice
use urunc.Prelude.{
  String, ◌==◌, Bool, true, false, not, Option, none, some, List, ◌||◌, ◌&&◌, if◌then◌else◌, Result,
  ok, err,
}
use urunc.Prelude.Map.{Map, get}
use urunc.Prelude.Strconv.{parse_bool}
use urunc.Prelude.Filepath.{clean, is_abs, join_paths}
use urunc.Types.{RootfsParams, ExtraBinConfig, no_extra_bin}
use urunc.Settings.{UruncConfig}
use urunc.Config.{set_extra_bin_field}
use urunc.Config.RoundTrip.{extra_bin_of}
use urunc.Unikernels.{UnikernelKind, new_unikernel, supports_block, supports_fs}
use urunc.Hypervisors.{VmmKind, Vmm, VmmError, new_vmm, supports_sharedfs}
use urunc.Block.{MountEntry, find_mount_info}
use urunc.Annotations.{
  annot_hypervisor, annot_type, annot_initrd, annot_block, annot_block_mnt_point,
  annot_mount_rootfs,
}

abbrev pub monitor_rootfs_dir_name : String
monitor_rootfs_dir_name = "monRootfs"

pub data RootfsError : Type 0 where
  no_abs_path no_config not_supported_unikernel no_usable_rootfs : RootfsError
  vmm_error : VmmError → RootfsError

-- The host: the working directory, the parsed mountinfo, which files exist, exec.LookPath and the
-- architecture. `none` is a failure to read.
pub record Host : Type 0 where
  pub cwd : Option String
  pub mounts : Option (List MountEntry)
  pub file_exists : String → Bool
  pub look_path : String → Option String
  pub goarch : String

-- `resolveAgainstBase`; filepath.Abs joins the working directory and the path.
unfoldable pub resolve_against_base : Host → String → String → Result RootfsError String
resolve_against_base h base path =
    if is_abs path then ok path else if is_abs base then ok (join_paths base path) else elim h.cwd [
      | none ↦ err no_abs_path
      | some dir ↦ ok (join_paths (join_paths dir base) path)
    ]

pub record RootfsSelector : Type 0 where
  pub bundle : String
  pub cntr_rootfs : String
  pub annot : Map String
  pub unikernel : UnikernelKind
  pub vmm : VmmKind
  pub vfsd_path : String

unfoldable pub new_rootfs_result : String → String → String → RootfsParams
new_rootfs_result rootfs_type path mounted_path = record {
  type = rootfs_type;
  path = path;
  mounted_path = mounted_path;
  mon_rootfs = "";
}

unfoldable pub try_initrd : RootfsSelector → Option RootfsParams
unfolding new_rootfs_result
try_initrd rs =
    let initrd_path = get rs.annot annot_initrd in
    if initrd_path == "" then none else some (new_rootfs_result "initrd" initrd_path rs.cntr_rootfs)

unfoldable pub try_explicit_block : RootfsSelector → Option RootfsParams
unfolding new_rootfs_result
try_explicit_block rs =
    let block_path = get rs.annot annot_block in
    let block_mnt_point = get rs.annot annot_block_mnt_point in
    if block_path == "" || not (block_mnt_point == "/") || not (supports_block rs.unikernel)
    then none
    else some (new_rootfs_result "block" block_path "")

unfoldable pub should_mount_container_rootfs : RootfsSelector → Bool
should_mount_container_rootfs rs =
    let annot_value = get rs.annot annot_mount_rootfs in
    if annot_value == ""
    then false
    else elim (parse_bool annot_value) [ none ↦ false | some should_mount ↦ should_mount ]

-- getMountInfo fails where the mountinfo cannot be read or the path is no mount of a block device.
unfoldable pub get_mount_info_source : Host → String → Option (String × String)
get_mount_info_source h path = elim h.mounts [
  | none ↦ none
  | some entries ↦ elim (find_mount_info entries path) [
    | none ↦ none
    | some dev ↦ some (dev.source, dev.fs_type)
  ]
]

unfoldable pub try_container_block_rootfs : Host → RootfsSelector → Option RootfsParams
unfolding new_rootfs_result
try_container_block_rootfs h rs =
    if not (supports_block rs.unikernel)
    then none
    else elim (get_mount_info_source h rs.cntr_rootfs) [
      | none ↦ none
      | some (source, fs_type) ↦
          if not (supports_fs rs.unikernel fs_type)
          then none
          else some (new_rootfs_result "block" source rs.cntr_rootfs)
    ]

unfoldable pub try_virtiofs : Host → RootfsSelector → Option RootfsParams
unfolding new_rootfs_result
try_virtiofs h rs =
    if not (supports_fs rs.unikernel "virtiofs")
    then none
    else if not (supports_sharedfs rs.vmm "virtio")
    then none
    else if not (h.file_exists rs.vfsd_path)
    then none
    else some (new_rootfs_result "virtiofs" rs.cntr_rootfs rs.cntr_rootfs)

unfoldable pub try_9pfs : RootfsSelector → Option RootfsParams
unfolding new_rootfs_result
try_9pfs rs =
    if not (supports_fs rs.unikernel "9pfs")
    then none
    else if not (supports_sharedfs rs.vmm "9p")
    then none
    else some (new_rootfs_result "9pfs" rs.cntr_rootfs rs.cntr_rootfs)

abbrev pub or_try : Option RootfsParams → Option RootfsParams → Option RootfsParams
or_try none next = next
or_try (some r) next = some r

unfoldable pub try_container_shared_fs : Host → RootfsSelector → Option RootfsParams
unfolding try_virtiofs try_9pfs
try_container_shared_fs h rs = or_try (try_virtiofs h rs) (try_9pfs rs)

unfoldable pub try_container_rootfs : Host → RootfsSelector → Option RootfsParams
unfolding should_mount_container_rootfs try_container_block_rootfs try_container_shared_fs
try_container_rootfs h rs =
    if not (should_mount_container_rootfs rs)
    then none
    else or_try (try_container_block_rootfs h rs) (try_container_shared_fs h rs)

unfoldable pub switch_mon_rootfs : RootfsParams → String → RootfsParams
switch_mon_rootfs res bundle = record res {
  mon_rootfs = join_paths (clean bundle) monitor_rootfs_dir_name;
}

-- The part of ChooseRootfs that follows the making of the selector.
unfoldable pub select_rootfs : Host → RootfsSelector → Result RootfsError RootfsParams
unfolding try_initrd try_explicit_block try_container_rootfs switch_mon_rootfs new_rootfs_result
select_rootfs h rs =
    elim (or_try (try_initrd rs) (or_try (try_explicit_block rs) (try_container_rootfs h rs))) [
      | some result ↦ ok (switch_mon_rootfs result rs.bundle)
      | none ↦
          if should_mount_container_rootfs rs
          then err no_usable_rootfs
          else ok (switch_mon_rootfs (new_rootfs_result "" "" rs.cntr_rootfs) rs.bundle)
    ]

-- The selector of ChooseRootfs, or the error that comes before it.
unfoldable pub make_selector :
    Host → String → String → Map String → Option UruncConfig → Result RootfsError RootfsSelector
unfolding resolve_against_base
make_selector h bundle spec_root annot cfg =
    let bundle_dir = clean bundle in
    elim (resolve_against_base h bundle_dir (clean spec_root)) [
      | err e ↦ err e
      | ok rootfs_dir ↦ elim cfg [
        | none ↦ err no_config
        | some config ↦ elim (new_unikernel (get annot annot_type)) [
          | none ↦ err not_supported_unikernel
          | some unikernel ↦
              elim (new_vmm h.look_path h.goarch (get annot annot_hypervisor) config.monitors) [
                | err e ↦ err (vmm_error e)
                | ok vmm ↦ ok (record {
                  bundle = bundle_dir;
                  cntr_rootfs = rootfs_dir;
                  annot = annot;
                  unikernel = unikernel;
                  vmm = vmm.kind;
                  vfsd_path = (extra_bin_of config "virtiofsd").path;
                })
              ]
        ]
      ]
    ]

-- `ChooseRootfs`
unfoldable pub choose_rootfs :
    Host → String → String → Map String → Option UruncConfig → Result RootfsError RootfsParams
choose_rootfs h bundle spec_root annot cfg = elim (make_selector h bundle spec_root annot cfg) [
  | err e ↦ err e
  | ok rs ↦ select_rootfs h rs
]
