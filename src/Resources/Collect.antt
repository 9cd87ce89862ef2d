-- ===== src/Resources/Collect.antt =====
-- getMonitorResources of pkg/unikontainers/unikontainers.go, and getMonitorDevices of rootfs.go.
use urunc.Prelude.{
  String, Bool, Option, none, some, List, [], ◌∷◌, ◌++◌, if◌then◌else◌, Result, ok, err, ◌>>=◌,
}
use urunc.Types.{Mount, RootfsParams, SharedfsParams, BlockDevParams}
use urunc.Hypervisors.{Vmm, uses_kvm, uses_tuntap}
use urunc.Block.{block_dev_nodes}
use urunc.Resources.{
  ResourceError, device_failed, Files, mounts_for_monitor, monitor_resolv_conf_mount,
}
use urunc.Resources.Builders.{
  RootfsBuilder, get_mounts, get_block_devs, get_shared_dirs, pre_start_cmd,
}
use urunc.Resources.Volumes.{VolumeHost}

-- What stat(2) says of a device's path: `absent` is ENOENT.
pub data DeviceAnswer : Type 0 where
  absent no_device : DeviceAnswer
  device : DeviceAnswer

-- The devices are named by their paths.
unfoldable pub device_from_host :
    (String → DeviceAnswer) → String → Result ResourceError (List String)
device_from_host devices path = elim (devices path) [
  | device ↦ ok (path ∷ [])
  | absent ↦ err (device_failed path)
  | no_device ↦ err (device_failed path)
]

unfoldable pub tun_device : (String → DeviceAnswer) → Result ResourceError (List String)
tun_device devices = elim (devices "/dev/net/tun") [
  | device ↦ ok ("/dev/net/tun" ∷ [])
  | absent ↦ ok []
  | no_device ↦ err (device_failed "/dev/net/tun")
]

-- `getMonitorDevices`
unfoldable pub get_monitor_devices :
    (String → DeviceAnswer) → Bool → Bool → Result ResourceError (List String)
get_monitor_devices devices needs_kvm needs_tun = device_from_host devices "/dev/null" >>= λ null.
    device_from_host devices "/dev/urandom" >>= λ random.
    (if needs_tun then tun_device devices else ok []) >>= λ tun.
    (if needs_kvm then device_from_host devices "/dev/kvm" else ok []) >>= λ kvm.
    ok (((null ++ random) ++ tun) ++ kvm)

-- blockDevNodes, with a device for each path.
unfoldable pub devices_from_host :
    (String → DeviceAnswer) → List String → Result ResourceError (List String)
devices_from_host devices [] = ok []
devices_from_host devices (path ∷ paths) =
    let rest = devices_from_host devices paths in
    device_from_host devices path >>= λ first. rest >>= λ others. ok (first ++ others)

pub record MonitorResources : Type 0 where
  pub mounts : List Mount
  pub devices : List String
  pub tuntap : Bool
  pub block_args : List BlockDevParams
  pub sharedfs : SharedfsParams
  pub pre_start_cmd : List String

abbrev pub mount_list : Option Mount → List Mount
mount_list none = []
mount_list (some m) = m ∷ []

-- The devices, the block parameters and the rest of `getMonitorResources`, with the mounts that it has
-- collected before them.
unfoldable pub collect_devices :
    VolumeHost
    → (String → DeviceAnswer)
    → RootfsBuilder
    → RootfsParams
    → Vmm
    → List Mount
    → Result ResourceError MonitorResources
collect_devices v devices rfs params vmm mounts =
    get_monitor_devices devices (uses_kvm vmm.kind) (uses_tuntap vmm.kind) >>= λ devs.
    get_block_devs v rfs >>= λ block_args.
    devices_from_host devices (block_dev_nodes block_args params) >>= λ block_devs. ok (record {
      mounts = mounts;
      devices = devs ++ block_devs;
      tuntap = uses_tuntap vmm.kind;
      block_args = block_args;
      sharedfs = get_shared_dirs rfs;
      pre_start_cmd = pre_start_cmd rfs;
    })

-- `getMonitorResources`
unfoldable pub get_monitor_resources :
    Files
    → VolumeHost
    → (String → DeviceAnswer)
    → RootfsBuilder
    → RootfsParams
    → Vmm
    → String
    → List Mount
    → Result ResourceError MonitorResources
get_monitor_resources h v devices rfs params vmm data_path cntr_mounts =
    mounts_for_monitor h vmm.binary_path data_path >>= λ monitor_mounts.
    get_mounts h rfs >>= λ rootfs_mounts. collect_devices v devices rfs params vmm (
      (monitor_mounts ++ rootfs_mounts)
      ++ mount_list (monitor_resolv_conf_mount vmm.kind cntr_mounts))
