-- ===== src/Launch.antt =====
-- How the monitor's process is prepared: buildMonitorSpec, SetupNet, the confinement of paths and what
-- Exec does up to execve (pkg/unikontainers/unikontainers.go), and getDNSServer of utils.go.
pub mod Exec
pub mod Monitor
pub mod Privileges
pub mod Prepares
pub mod Order
pub mod Confined
pub mod Executes
use urunc.Prelude.{
  ℕ, ltb, String, ◌<>◌, ◌==◌, Bool, true, false, not, ◌||◌, Option, none, some, List, [], ◌∷◌, ◌++◌,
  if◌then◌else◌, Result, ok, err, ◌>>=◌,
}
use urunc.Prelude.Map.{Map, lookup, get}
use urunc.Prelude.Strconv.{ℤ}
use urunc.Prelude.Text.{split}
use urunc.Prelude.Fields.{fields}
use urunc.Types.{
  Mount, NetDevParams, BlockDevParams, RootfsParams, MonitorConfig, no_monitor, ExecArgs,
  UnikernelParams, SharedfsParams,
}
use urunc.Annotations.{
  annot_type, annot_hypervisor, annot_version, annot_binary, annot_initrd, annot_snapshot,
  annot_net_dev, annot_blk_dev, annot_hyperlight_ports,
}
use urunc.Annotations.Values.{matches_path}
use urunc.Hypervisors.{monitor_at}
use urunc.Resources.{
  container_rootfs_mount_path, monitor_memory_bytes, guest_default_memory_mb, resolv_conf_mount,
}
use urunc.Resources.Collect.{MonitorResources}
use urunc.Container.Namespaces.{Namespace}

-- `specs.User`
pub record User : Type 0 where
  pub uid : ℕ
  pub gid : ℕ
  pub additional_gids : List ℕ

-- What is used here of the state and of the specification of a container.
pub record Unikontainer : Type 0 where
  pub id : String
  pub annotations : Map String
  pub spec_annotations : Map String
  pub monitors : Map MonitorConfig
  pub args : List String
  pub env : List String
  pub cwd : String
  pub user : User
  pub mounts : List Mount
  pub namespaces : List Namespace
  pub memory_limit : Option ℤ
  pub seccomp : Bool
  pub rootfs_propagation : String
  pub hooks : List String

pub record MonitorSpec : Type 0 where
  pub container_id : String
  pub unikernel_type : String
  pub monitor_type : String
  pub monitor_cfg : MonitorConfig
  pub exec_args : ExecArgs
  pub guest_params : UnikernelParams
  pub network_type : String
  pub dns_server : String
  pub user : User
  pub pre_start_cmd : List String

abbrev pub no_net : NetDevParams
no_net = record {
  ip = "";
  mask = "";
  gateway = "";
  mac = "";
  tap_dev = "";
  mtu = 0;
  dns_server = "";
}

abbrev newline : ℕ
newline = b'\n'

-- A line of resolv.conf: the address after `nameserver`. `parse_ip` gives an IPv4 address that is no
-- loopback, as text.
abbrev pub nameserver_of : (String → Option String) → List String → Option String
nameserver_of parse_ip [] = none
nameserver_of parse_ip (key ∷ []) = none
nameserver_of parse_ip (key ∷ addr ∷ rest) = if key == "nameserver" then parse_ip addr else none

abbrev pub first_server : (String → Option String) → List String → String
first_server parse_ip [] = ""
first_server parse_ip (line ∷ lines) =
    let rest = first_server parse_ip lines in
    elim (nameserver_of parse_ip (fields line)) [ none ↦ rest | some server ↦ server ]

-- `getDNSServer`
unfoldable pub get_dns_server :
    (String → Option String) → (String → Option String) → List Mount → String
get_dns_server read_file parse_ip mounts = elim (resolv_conf_mount mounts) [
  | none ↦ ""
  | some m ↦ elim (read_file m.source) [
    | none ↦ ""
    | some contents ↦ first_server parse_ip (split newline contents)
  ]
]

-- `getNetworkType`
unfoldable pub get_network_type : Unikontainer → String
get_network_type u =
    if get u.spec_annotations "io.kubernetes.cri.container-name" == "user-container"
    then "static"
    else "dynamic"

abbrev pub is_some : {A : Type 0} → Option A → Bool
is_some none = false
is_some (some a) = true

abbrev pub exec_args_of : Unikontainer → MonitorConfig → MonitorResources → List String → ExecArgs
exec_args_of u cfg res environment = record {
  container_id = u.id;
  environment = environment;
  command = "";
  seccomp = u.seccomp;
  mem_size_b =
      monitor_memory_bytes
        (guest_default_memory_mb (get u.annotations annot_hypervisor) cfg.default_memory_mb)
        u.memory_limit;
  resolv_conf = is_some (resolv_conf_mount res.mounts);
  ports = get u.annotations annot_hyperlight_ports;
  vcpus = if ltb cfg.default_vcpus 1 then 1 else cfg.default_vcpus;
  unikernel_path = get u.annotations annot_binary;
  initrd_path = get u.annotations annot_initrd;
  snapshot_path = get u.annotations annot_snapshot;
  v_accel_type = "";
  v_sock_dev_path = "";
  v_sock_dev_id = 0;
  socket_path = cfg.socket_path;
  net = no_net;
  sharedfs = res.sharedfs;
}

abbrev pub guest_params_of : Unikontainer → RootfsParams → MonitorResources → UnikernelParams
guest_params_of u rootfs res = record {
  cmd_line = u.args;
  env_vars = u.env;
  monitor = get u.annotations annot_hypervisor;
  version = get u.annotations annot_version;
  net_dev_name = get u.annotations annot_net_dev;
  blk_dev_name = get u.annotations annot_blk_dev;
  net = no_net;
  block = res.block_args;
  rootfs = rootfs;
  proc_conf = record { uid = u.user.uid; gid = u.user.gid; work_dir = u.cwd };
}

-- `buildMonitorSpec`, without the fields that writeMonitorSpec sets.
unfoldable pub build_monitor_spec :
    (String → Option String)
    → (String → Option String)
    → List String
    → Unikontainer
    → RootfsParams
    → MonitorResources
    → MonitorSpec
build_monitor_spec read_file parse_ip environment u rootfs res =
    let cfg = monitor_at (get u.annotations annot_hypervisor) u.monitors in
    record {
      container_id = u.id;
      unikernel_type = get u.annotations annot_type;
      monitor_type = get u.annotations annot_hypervisor;
      monitor_cfg = cfg;
      exec_args = exec_args_of u cfg res environment;
      guest_params = guest_params_of u rootfs res;
      network_type = "";
      dns_server =
          if is_some (resolv_conf_mount res.mounts)
          then ""
          else get_dns_server read_file parse_ip u.mounts;
      user = record { uid = 0; gid = 0; additional_gids = [] };
      pre_start_cmd = res.pre_start_cmd;
    }

-- What `writeMonitorSpec` stores.
unfoldable pub stored_spec : Unikontainer → MonitorSpec → MonitorSpec
stored_spec u spec = record spec {
  network_type = get_network_type u;
  user = u.user;
  guest_params = record spec.guest_params {
    rootfs = record spec.guest_params.rootfs { mon_rootfs = "/" };
  };
  exec_args = record spec.exec_args { environment = [] };
}

pub data ConfineError : Type 0 where
  join_failed : String → ConfineError
  not_allowed : String → ConfineError

-- `secure_join` is securejoin, which resolves the links of the image.
module _ (secure_join : String → String → Option String) where
  -- `confineToContainerRootfs`
  unfoldable pub confine_to_container_rootfs : String → Result ConfineError String
  confine_to_container_rootfs path =
      if path == "" then ok "" else elim (secure_join container_rootfs_mount_path path) [
        | none ↦ err (join_failed path)
        | some confined ↦
            if not (matches_path confined) then err (not_allowed confined) else ok confined
      ]

  -- `confineBlockSources`
  unfoldable pub confine_block_sources :
      List BlockDevParams → Result ConfineError (List BlockDevParams)
  confine_block_sources [] = ok []
  confine_block_sources (b ∷ blocks) =
      (if b.is_explicit
        then (confine_to_container_rootfs b.source >>= λ source. ok (record b { source = source }))
        else ok b)
      >>= λ first. confine_block_sources blocks >>= λ rest. ok (first ∷ rest)

  -- The boot files of the monitor.
  unfoldable pub confine_exec_args : ExecArgs → Result ConfineError ExecArgs
  confine_exec_args args = confine_to_container_rootfs args.unikernel_path >>= λ unikernel_path.
      confine_to_container_rootfs args.initrd_path >>= λ initrd_path.
      confine_to_container_rootfs args.snapshot_path >>= λ snapshot_path. ok (record args {
        unikernel_path = unikernel_path;
        initrd_path = initrd_path;
        snapshot_path = snapshot_path;
      })
