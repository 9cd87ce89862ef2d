-- ===== src/Launch/Monitor.antt =====
-- (*Unikontainer).Exec (pkg/unikontainers/unikontainers.go), prepareVSockEnvironment (vaccel.go) and
-- runMonitor (monitor.go): all that is done until execve of the monitor.
use mathlib.Core.List.{reverse}
use urunc.Prelude.{
  ℕ, String, ◌==◌, Bool, true, false, not, Option, none, some, List, [], ◌∷◌, if◌then◌else◌, Result,
  ok, err,
}
use urunc.Prelude.Map.{Map, get}
use urunc.Prelude.Filepath.{join_paths, base, elements}
use urunc.Prelude.Traced.{pure, raise, lift, ◌>>=◌, ◌>>◌}
use urunc.Types.{
  MonitorConfig, NetDevParams, ExecArgs, UnikernelParams, RootfsParams, BlockDevParams,
}
use urunc.Annotations.{annot_hypervisor}
use urunc.Hypervisors.{Vmm, VmmKind, new_vmm, uses_tuntap}
use urunc.Unikernels.{new_unikernel}
use urunc.Network.{Kernel}
use urunc.Mount.Apply.{Host, apply_mounts, no_source}
use urunc.Mount.Devices.{LinuxDevice, setup_devices, prepare_root}
use urunc.Container.Namespaces.{Namespace, not_existing, mount, find_ns}
use urunc.Resources.{bind_mount}
use urunc.Resources.Collect.{MonitorResources}
use urunc.VAccel.{
  VAccelError, v_accel_disabled, resolve_v_accel_config, set_rpc_address, id_to_guest_cid,
}
use urunc.Launch.{
  Unikontainer, User, MonitorSpec, build_monitor_spec, get_network_type, confine_exec_args,
  confine_block_sources,
}
use urunc.Launch.Exec.{
  Launch, LaunchCall, LaunchError, net_call, host_call, make_dir, init_guest, send_start_success,
  signal_ready, net_error, apply_error, v_accel_error, confine_error, guest_error, command_error,
  vmm_error, no_rootfs, as_error, part, setup_net, do_call, setup_console, change_root, setup_user,
  execute_hooks, spawn_process, make_socket, exec_monitor,
}

-- The system, and what the guest and the monitor make of their parameters.
pub record Machine : Type 0 where
  pub kernel : Kernel
  pub host : Host
  pub fails : List LaunchCall → LaunchCall → Bool
  pub mkdev : ℕ → ℕ → ℕ
  pub device_of : String → Option LinuxDevice
  pub is_socket : String → Bool
  pub exists : String → Bool
  pub read_file : String → Option String
  pub parse_ip : String → Option String
  pub look_path : String → Option String
  pub goarch : String
  pub environ : List String
  pub build_command : UnikernelParams → Option String
  pub build_exec_cmd : ExecArgs → Option (List String)

abbrev v_accel_mount_path : String
v_accel_mount_path = "/vaccel"

-- What vAccel changes: the guest's environment and the monitor's arguments.
abbrev pub with_v_accel :
    Unikontainer → String → UnikernelParams × ExecArgs → UnikernelParams × ExecArgs
with_v_accel u rpc_address (params, args) = (
  record params { env_vars = set_rpc_address params.env_vars rpc_address },
  record args {
    v_accel_type = "vsock";
    v_sock_dev_path = v_accel_mount_path;
    v_sock_dev_id = id_to_guest_cid u.id;
  },
)

-- `errors.Is(err, ErrVAccelDisabled)` is no error.
abbrev pub if_enabled : {A : Type 0} → Result VAccelError A → Result VAccelError (Option A)
if_enabled (err v_accel_disabled) = ok none
if_enabled (err other) = err other
if_enabled (ok found) = ok (some found)

-- What is computed, as a step that may fail.
abbrev pub answer : {A : Type 0} → Result LaunchError A → Launch A
answer r = lift (λ calls. r)

module _ (machine : Machine) where
  abbrev pub some_or : {A : Type 0} → LaunchError → Option A → Result LaunchError A
  some_or problem none = err problem
  some_or problem (some a) = ok a

  abbrev pub devices_named : List String → Result LaunchError (List LinuxDevice)
  devices_named [] = ok []
  devices_named (path ∷ paths) = elim (machine.device_of path) [
    | none ↦ err (apply_error (no_source path))
    | some dev ↦ elim (devices_named paths) [ err e ↦ err e | ok devices ↦ ok (dev ∷ devices) ]
  ]

  abbrev pub found_devices : List String → Launch (List LinuxDevice)
  found_devices paths = answer (devices_named paths)

  abbrev pub built_exec_cmd : ExecArgs → Launch (List String)
  built_exec_cmd args = answer (some_or command_error (machine.build_exec_cmd args))

  abbrev pub built_command : UnikernelParams → Launch String
  built_command params = answer (some_or guest_error (machine.build_command params))

  abbrev pub confined_args : ExecArgs → Launch ExecArgs
  confined_args args =
      answer (as_error confine_error (confine_exec_args machine.host.secure_join args))

  abbrev pub confined_blocks : List BlockDevParams → Launch (List BlockDevParams)
  confined_blocks blocks =
      answer (as_error confine_error (confine_block_sources machine.host.secure_join blocks))

  abbrev pub enabled_v_accel : Unikontainer → Launch (Option (String × String × String))
  enabled_v_accel u = answer (
      as_error v_accel_error
        (if_enabled (resolve_v_accel_config (get u.annotations annot_hypervisor) u.annotations)))

  unfoldable pub add_devices : String → List String → Bool → Launch (Unit {0})
  add_devices mon_rootfs paths with_tuntap = do
    devices ← found_devices paths
    part host_call apply_error
        (setup_devices machine.host machine.mkdev mon_rootfs devices with_tuntap)

  -- `setupMonitorRootfs`
  unfoldable pub setup_monitor_rootfs :
      Unikontainer → String → MonitorResources → Bool → Launch (Unit {0})
  setup_monitor_rootfs u mon_rootfs res with_tuntap = do
    do_call machine.fails (make_dir mon_rootfs)
    part host_call apply_error
        (prepare_root machine.host (reverse (elements mon_rootfs)) u.rootfs_propagation)
    part host_call apply_error (apply_mounts machine.host mon_rootfs res.mounts)
    add_devices mon_rootfs res.devices with_tuntap
    setup_console machine.fails mon_rootfs

  -- The agent's socket in the monitor's rootfs, for firecracker.
  unfoldable pub mount_v_sock : String → String → String → Launch (Unit {0})
  mount_v_sock mon_rootfs hypervisor host_socket =
      if hypervisor == "firecracker"
      then if machine.is_socket host_socket
        then part host_call apply_error (
            apply_mounts machine.host mon_rootfs (
              bind_mount host_socket (join_paths v_accel_mount_path (base host_socket)) true true []
              ∷ []))
        else raise (apply_error (no_source host_socket))
      else pure tt

  -- `prepareVSockEnvironment`, and the devices that it asks for.
  unfoldable pub prepare_v_sock_environment : String → String → String → Launch (Unit {0})
  prepare_v_sock_environment mon_rootfs hypervisor host_socket = do
    devices ← found_devices ("/dev/vsock" ∷ "/dev/vhost-vsock" ∷ [])
    mount_v_sock mon_rootfs hypervisor host_socket
    part host_call apply_error (setup_devices machine.host machine.mkdev mon_rootfs devices false)

  abbrev pub use_v_accel :
      Unikontainer
      → String
      → UnikernelParams × ExecArgs
      → Option (String × String × String)
      → Launch (UnikernelParams × ExecArgs)
  use_v_accel u mon_rootfs both none = pure both
  use_v_accel u mon_rootfs both (some (v_accel_type, host_socket, rpc_address)) =
      if v_accel_type == "vsock"
      then (prepare_v_sock_environment mon_rootfs (get u.annotations annot_hypervisor) host_socket
          >> pure (with_v_accel u rpc_address both))
      else pure both

  -- The vAccel setup of `Exec`.
  unfoldable pub setup_v_accel :
      Unikontainer → String → UnikernelParams × ExecArgs → Launch (UnikernelParams × ExecArgs)
  setup_v_accel u mon_rootfs both = do
    found ← enabled_v_accel u
    use_v_accel u mon_rootfs both found

  abbrev pub with_pivot : List Namespace → Bool
  with_pivot namespaces = elim (find_ns machine.exists namespaces mount) [
    | ok path ↦ true
    | err not_existing ↦ true
    | err other ↦ false
  ]

  -- From the new root on: the paths are confined, the guest is initialized, and the user is set.
  unfoldable pub prepare_command : User → UnikernelParams × ExecArgs → Launch ExecArgs
  prepare_command user (params, args) = do
    confined ← confined_args args
    blocks ← confined_blocks params.block
    do_call machine.fails init_guest
    command ← built_command (record params { block = blocks })
    setup_user machine.fails user
    pure (record confined { command = command })

  abbrev pub with_net : MonitorSpec → NetDevParams → UnikernelParams × ExecArgs
  with_net spec net_args =
      let net = record net_args { dns_server = spec.dns_server } in
      (record spec.guest_params { net = net }, record spec.exec_args { net = net })

  unfoldable pub network_part : VmmKind → String → User → Launch NetDevParams
  network_part kind network_type user =
      part net_call net_error
        (setup_net machine.kernel (uses_tuntap kind) network_type user.uid user.gid)

  -- `Exec` until the user is set.
  unfoldable pub exec_setup :
      Unikontainer → RootfsParams → MonitorResources → MonitorSpec → Vmm → Launch ExecArgs
  exec_setup u rootfs res spec vmm = do
    net_args ← network_part vmm.kind (get_network_type u) u.user
    setup_monitor_rootfs u rootfs.mon_rootfs res (not (net_args.tap_dev == ""))
    both ← setup_v_accel u rootfs.mon_rootfs (with_net spec net_args)
    change_root machine.fails rootfs.mon_rootfs (with_pivot u.namespaces)
    prepare_command u.user both

  -- `Exec` from there on, as the container's user.
  unfoldable pub exec_start : Unikontainer → MonitorResources → Vmm → ExecArgs → Launch (Unit {0})
  exec_start u res vmm args = do
    make_socket machine.fails vmm.kind args.socket_path
    execute_hooks machine.fails u.hooks
    spawn_process machine.fails res.pre_start_cmd
    exec_cmd ← built_exec_cmd args
    do_call machine.fails send_start_success
    exec_monitor machine.fails vmm.binary_path args exec_cmd

  unfoldable pub exec_with :
      Unikontainer → RootfsParams → MonitorResources → MonitorSpec → Vmm → Launch (Unit {0})
  exec_with u rootfs res spec vmm = exec_setup u rootfs res spec vmm >>= exec_start u res vmm

  -- The guest and the monitor of a specification.
  abbrev pub chosen_vmm : String → String → Map MonitorConfig → Launch Vmm
  chosen_vmm unikernel_type monitor_type monitors = do
    guest ← answer (some_or guest_error (new_unikernel unikernel_type))
    answer (as_error vmm_error (new_vmm machine.look_path machine.goarch monitor_type monitors))

  -- `Exec`, with the root filesystem and the resources that monitor.json keeps.
  unfoldable pub exec : Unikontainer → RootfsParams → MonitorResources → Launch (Unit {0})
  exec u rootfs res =
      let spec =
        build_monitor_spec machine.read_file machine.parse_ip machine.environ u rootfs res in
      if rootfs.mon_rootfs == ""
      then raise no_rootfs
      else (chosen_vmm spec.unikernel_type spec.monitor_type u.monitors
          >>= exec_with u rootfs res spec)

  abbrev pub with_environ : MonitorSpec → MonitorSpec
  with_environ spec = record spec {
    exec_args = record spec.exec_args { environment = machine.environ };
  }

  -- `runMonitor` until the user is set, in the monitor's rootfs that libcontainer has made.
  unfoldable pub run_setup : MonitorSpec → Vmm → Launch ExecArgs
  run_setup spec vmm = do
    net_args ← network_part vmm.kind spec.network_type spec.user
    prepare_command spec.user (with_net (with_environ spec) net_args)

  unfoldable pub run_start : MonitorSpec → Vmm → ExecArgs → Launch (Unit {0})
  run_start spec vmm args = do
    make_socket machine.fails vmm.kind args.socket_path
    spawn_process machine.fails spec.pre_start_cmd
    exec_cmd ← built_exec_cmd args
    do_call machine.fails (signal_ready true)
    exec_monitor machine.fails vmm.binary_path args exec_cmd

  unfoldable pub run_with : MonitorSpec → Vmm → Launch (Unit {0})
  run_with spec vmm = run_setup spec vmm >>= run_start spec vmm

  -- `runMonitor`
  unfoldable pub run_monitor : MonitorSpec → Launch (Unit {0})
  run_monitor spec =
      chosen_vmm spec.unikernel_type spec.monitor_type ((spec.monitor_type, spec.monitor_cfg) ∷ [])
      >>= run_with spec
