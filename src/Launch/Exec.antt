-- ===== src/Launch/Exec.antt =====
-- SetupNet, setupMonitorRootfs, changeRoot, setupUser and the parts of Exec
-- (pkg/unikontainers/unikontainers.go and rootfs.go), as calls to the system.
use urunc.Prelude.{
  ℕ, String, ◌==◌, Bool, not, ◌&&◌, List, [], ◌∷◌, ◌++◌, map, if◌then◌else◌, Result, ok, err,
}
use urunc.Prelude.Filepath.{dir_path, join_paths}
use urunc.Prelude.Traced.{Traced, pure, lift, ◌>>=◌, ◌>>◌, perform}
use urunc.Types.{NetDevParams, ExecArgs}
use urunc.Hypervisors.{VmmError, VmmKind, supports_control_socket}
use urunc.Network.{
  Call, NetError, Kernel, Net, Interface, UnikernelNetworkInfo, no_container_iface, container_iface,
}
use urunc.Network.Setup.{interface_info, new_network_manager, manager_setup}
use urunc.Mount.Apply.{HostCall, ApplyError}
use urunc.VAccel.{VAccelError}
use urunc.Launch.{User, ConfineError, no_net}

pub data LaunchCall : Type 0 where
  net_call : Call → LaunchCall
  host_call : HostCall → LaunchCall
  make_dir : String → LaunchCall
  symlink_ptmx create_console chmod_console : String → LaunchCall
  chdir : String → LaunchCall
  pivot_root make_slave unmount_old_root remove_old_root chroot : LaunchCall
  -- Init of the guest, which may write files; an error about its version is only logged.
  init_guest : LaunchCall
  set_groups : List ℕ → LaunchCall
  set_gid set_uid : ℕ → LaunchCall
  make_socket_dir : String → LaunchCall
  run_hook : String → LaunchCall
  spawn : List String → LaunchCall
  send_start_success pre_exec : LaunchCall
  signal_ready : Bool → LaunchCall
  execve : String → List String → List String → LaunchCall

pub data LaunchError : Type 0 where
  net_error : NetError → LaunchError
  apply_error : ApplyError → LaunchError
  v_accel_error : VAccelError → LaunchError
  confine_error : ConfineError → LaunchError
  vmm_error : VmmError → LaunchError
  guest_error command_error no_rootfs : LaunchError
  call_error : LaunchCall → LaunchError

abbrev pub Launch : Type 0 → Type 0
Launch = Traced LaunchCall LaunchError

abbrev pub as_error : {E A : Type 0} → (E → LaunchError) → Result E A → Result LaunchError A
as_error problem (ok a) = ok a
as_error problem (err e) = err (problem e)

-- The calls of a part, after those made before.
abbrev pub part : {D E A : Type 0} → (D → LaunchCall) → (E → LaunchError) → Traced D E A → Launch A
part call problem m calls = (as_error problem (m []).0, calls ++ map call (m []).1)

abbrev pub net_args_of : Interface → String → NetDevParams
net_args_of iface tap = record {
  ip = iface.ip;
  mask = iface.mask;
  gateway = iface.default_gateway;
  mac = iface.mac;
  tap_dev = tap;
  mtu = iface.mtu;
  dns_server = "";
}

-- A failure of `NetworkSetup` is only logged.
abbrev or_no_net :
    Result NetError UnikernelNetworkInfo × List Call → Result NetError NetDevParams × List Call
or_no_net (ok info, calls) = (ok (net_args_of info.eth_device info.tap_device), calls)
or_no_net (err e, calls) = (ok no_net, calls)

-- Without an interface there is no network.
abbrev without_iface :
    Result NetError NetDevParams × List Call → Result NetError NetDevParams × List Call
without_iface (err no_container_iface, calls) = (ok no_net, calls)
without_iface other = other

module _ (kernel : Kernel) where
  -- `network.ContainerIface`
  unfoldable pub container_iface_info : Net Interface
  container_iface_info = container_iface kernel >>= λ link. interface_info kernel link.name

  -- `SetupNet`
  unfoldable pub setup_net : Bool → String → ℕ → ℕ → Net NetDevParams
  setup_net tuntap network_type uid gid =
      if tuntap
      then (lift (λ calls. new_network_manager network_type) >>= λ manager.
          λ calls. or_no_net (manager_setup manager kernel uid gid calls))
      else λ calls.
          without_iface ((container_iface_info >>= λ iface. pure (net_args_of iface "")) calls)

module _ (fails : List LaunchCall → LaunchCall → Bool) where
  abbrev pub do_call : LaunchCall → Launch (Unit {0})
  do_call = perform fails call_error

  -- `setupConsole`; the link may exist already.
  unfoldable pub setup_console : String → Launch (Unit {0})
  setup_console mon_rootfs = do
    do_call (symlink_ptmx (join_paths mon_rootfs "/dev/ptmx"))
    do_call (create_console (join_paths mon_rootfs "/dev/console"))
    do_call (chmod_console (join_paths mon_rootfs "/dev/console"))

  unfoldable pub pivot_rootfs : String → Launch (Unit {0})
  pivot_rootfs new_root = do
    do_call (make_dir (join_paths new_root "/old_root"))
    do_call pivot_root
    do_call (chdir "/")
    do_call make_slave
    do_call unmount_old_root
    do_call remove_old_root

  unfoldable pub change_root : String → Bool → Launch (Unit {0})
  change_root rootfs_dir pivot = do
    do_call (chdir rootfs_dir)
    if pivot then pivot_rootfs rootfs_dir else do_call chroot
    do_call (chdir "/")

  abbrev pub set_additional : List ℕ → Launch (Unit {0})
  set_additional [] = pure tt
  set_additional (g ∷ gs) = do_call (set_groups (g ∷ gs))

  -- `setupUser`
  unfoldable pub setup_user : User → Launch (Unit {0})
  setup_user user = do
    set_additional user.additional_gids
    do_call (set_gid user.gid)
    do_call (set_uid user.uid)

  -- `ExecuteHooks`
  unfoldable pub execute_hooks : List String → Launch (Unit {0})
  execute_hooks [] = pure tt
  execute_hooks (hook ∷ hooks) = do_call (run_hook hook) >> execute_hooks hooks

  -- `spawnProcess`
  unfoldable pub spawn_process : List String → Launch (Unit {0})
  spawn_process [] = pure tt
  spawn_process (binary ∷ args) = do_call (spawn (binary ∷ args))

  unfoldable pub make_socket : VmmKind → String → Launch (Unit {0})
  make_socket kind socket_path =
      if supports_control_socket kind && not (socket_path == "")
      then do_call (make_socket_dir (dir_path socket_path))
      else pure tt

  unfoldable pub exec_monitor : String → ExecArgs → List String → Launch (Unit {0})
  exec_monitor vmm_path args exec_cmd = do
    do_call pre_exec
    do_call (execve vmm_path exec_cmd args.environment)
