-- ===== src/Tests/Launch.antt =====
-- Runs of Exec, runMonitor and of what is written for the monitor's process.
use urunc.Prelude.{◌==◌, ◌<>◌, true, false, none, some, [], ◌∷◌, if◌then◌else◌, refl, ◌≡◌, All}
use urunc.Types.{RootfsParams}
use urunc.Network.{Kernel, discover_container_iface, find_container_iface}
use urunc.Mount.Apply.{
  Host, made_private, apply_mounts, bind_recursive, make_private, set_propagation,
}
use urunc.Mount.Devices.{prepare_root, rootfs_parent_mount_private, setup_devices}
use urunc.Container.Namespaces.{mount, NsType-discrete, check_valid_ns_path, find_ns}
use urunc.Resources.Collect.{MonitorResources}
use urunc.Launch.{
  Unikontainer, MonitorSpec, build_monitor_spec, stored_spec, get_dns_server, confine_block_sources,
  confine_exec_args, confine_to_container_rootfs,
}
use urunc.Launch.Exec.{
  symlink_ptmx, create_console, chmod_console, chdir, pivot_root, make_slave, unmount_old_root,
  remove_old_root, send_start_success, set_gid, set_uid, set_groups, run_hook, spawn, execve,
  change_root, container_iface_info, exec_monitor, execute_hooks, host_call, init_guest, make_dir,
  make_socket, pivot_rootfs, pre_exec, setup_console, setup_net, setup_user, signal_ready,
  spawn_process,
}
use urunc.Launch.Monitor.{
  Machine, exec, run_monitor, add_devices, exec_setup, exec_start, exec_with, network_part,
  prepare_command, run_setup, run_start, run_with, setup_monitor_rootfs, setup_v_accel,
}
use urunc.Launch.Privileges.{StartsAsUser}
use urunc.Launch.Order.{exec-StartsAsUser}
use urunc.Launch.Executes.{RunsConfined, exec-RunsConfined}
use urunc.Unikernels.{new_unikernel}
use urunc.Prelude.Map.{lookup}
use urunc.Hypervisors.{new_vmm, supports_control_socket, uses_tuntap}
use urunc.Prelude.Filepath.{join_paths, clean, elements}
use urunc.VAccel.{resolve_v_accel_config}
use urunc.Prelude.Text.{all_chars}
use urunc.Resources.{resolv_conf_mount}
use urunc.Prelude.Fields.{fields}
use urunc.Mount.{slave_mount}

abbrev web : Unikontainer
web = record {
  id = "web";
  annotations =
      ("com.urunc.unikernel.hypervisor", "hyperlight-unikraft")
      ∷ ("com.urunc.unikernel.unikernelType", "unikraft")
      ∷ ("com.urunc.unikernel.binary", "/kernel")
      ∷ [];
  spec_annotations = [];
  monitors = [];
  args = "serve" ∷ [];
  env = "A=1" ∷ [];
  cwd = "/";
  user = record { uid = 1000; gid = 100; additional_gids = 5 ∷ [] };
  mounts =
      record {
        type = "bind";
        source = "/host/resolv";
        destination = "/etc/resolv.conf";
        options = [];
      }
      ∷ [];
  namespaces = record { type = mount; path = "" } ∷ [];
  memory_limit = none;
  seccomp = false;
  rootfs_propagation = "";
  hooks = "ldconfig" ∷ [];
}

abbrev gathered : MonitorResources
gathered = record {
  mounts = [];
  devices = [];
  tuntap = false;
  block_args = [];
  sharedfs = record { type = ""; path = "" };
  pre_start_cmd = "virtiofsd" ∷ "--fd=3" ∷ [];
}

abbrev no_links : Kernel
no_links = record {
  fails = λ calls c. false;
  interfaces = λ calls. some [];
  links = λ calls. some [];
  interface_by_name = λ calls name. none;
  gateway = λ calls. none;
  filters = λ calls name. some [];
  qdiscs = λ calls name. some [];
  iptables = none;
}

abbrev host : Host
host = record {
  fails = λ calls c. false;
  secure_join = λ root path. some (root <> path);
  is_dir = λ calls path. some true;
  stat_file = λ path. none;
  in_user_ns = false;
  statfs_flags = λ calls path. none;
  private_answer = λ calls path. made_private;
}

abbrev machine : Machine
machine = record {
  kernel = no_links;
  host = host;
  fails = λ calls c. false;
  mkdev = λ major minor. major;
  device_of = λ path. none;
  is_socket = λ path. false;
  exists = λ path. true;
  read_file = λ path.
      if path == "/host/resolv" then some "# none\nnameserver ::1\nnameserver 10.0.0.2\n" else none;
  parse_ip = λ text. if text == "10.0.0.2" then some text else none;
  look_path = λ name. some ("/usr/bin/" <> name);
  goarch = "amd64";
  environ = "HOME=/" ∷ [];
  build_command = λ params. some "serve";
  build_exec_cmd = λ args. some ("hluk" ∷ args.unikernel_path ∷ []);
}

abbrev initrd_rootfs : RootfsParams
initrd_rootfs = record { type = "initrd"; path = ""; mounted_path = ""; mon_rootfs = "/mon" }

abbrev kept : MonitorSpec
kept =
    stored_spec web
      (build_monitor_spec machine.read_file machine.parse_ip [] web initrd_rootfs gathered)

exec_example :
    StartsAsUser machine web.user (exec machine web initrd_rootfs gathered []).1
    × StartsAsUser machine web.user (run_monitor machine kept []).1
unfolding stored_spec
exec_example = exec-StartsAsUser machine web initrd_rootfs gathered kept

confined_example :
    All (RunsConfined machine) (exec machine web initrd_rootfs gathered []).1
    × All (RunsConfined machine) (run_monitor machine kept []).1
confined_example = exec-RunsConfined machine web initrd_rootfs gathered kept

exec_run :
    (exec machine web initrd_rootfs gathered []).1
    ≡ make_dir "/mon"
      ∷ host_call (set_propagation "/" (slave_mount true))
      ∷ host_call (make_private "/mon")
      ∷ host_call (bind_recursive "/mon")
      ∷ symlink_ptmx "/mon/dev/ptmx"
      ∷ create_console "/mon/dev/console"
      ∷ chmod_console "/mon/dev/console"
      ∷ chdir "/mon"
      ∷ make_dir "/mon/old_root"
      ∷ pivot_root
      ∷ chdir "/"
      ∷ make_slave
      ∷ unmount_old_root
      ∷ remove_old_root
      ∷ chdir "/"
      ∷ init_guest
      ∷ set_groups (5 ∷ [])
      ∷ set_gid 100
      ∷ set_uid 1000
      ∷ run_hook "ldconfig"
      ∷ spawn ("virtiofsd" ∷ "--fd=3" ∷ [])
      ∷ send_start_success
      ∷ pre_exec
      ∷ execve "/usr/bin/hluk" ("hluk" ∷ "/cntrRootfs/kernel" ∷ []) ("HOME=/" ∷ [])
      ∷ []
unfolding exec new_unikernel build_monitor_spec lookup new_vmm exec_with exec_setup network_part
    setup_net uses_tuntap container_iface_info discover_container_iface find_container_iface
    setup_monitor_rootfs prepare_root rootfs_parent_mount_private elements setup_v_accel
    resolve_v_accel_config change_root pivot_rootfs prepare_command confine_exec_args
    confine_to_container_rootfs confine_block_sources setup_user make_socket execute_hooks
    spawn_process exec_monitor exec_start add_devices setup_console setup_devices apply_mounts
    find_ns supports_control_socket NsType-discrete check_valid_ns_path all_chars join_paths
exec_run = refl

run_monitor_run :
    (run_monitor machine kept []).1
    ≡ init_guest
      ∷ set_groups (5 ∷ [])
      ∷ set_gid 100
      ∷ set_uid 1000
      ∷ spawn ("virtiofsd" ∷ "--fd=3" ∷ [])
      ∷ signal_ready true
      ∷ pre_exec
      ∷ execve "/usr/bin/hluk" ("hluk" ∷ "/cntrRootfs/kernel" ∷ []) ("HOME=/" ∷ [])
      ∷ []
unfolding run_monitor stored_spec new_unikernel build_monitor_spec lookup new_vmm run_with run_setup
    network_part setup_net uses_tuntap container_iface_info discover_container_iface
    find_container_iface prepare_command confine_exec_args confine_to_container_rootfs
    confine_block_sources setup_user make_socket spawn_process exec_monitor run_start
    supports_control_socket all_chars
run_monitor_run = refl

server_run : get_dns_server machine.read_file machine.parse_ip web.mounts ≡ "10.0.0.2"
unfolding get_dns_server resolv_conf_mount clean fields
server_run = refl
