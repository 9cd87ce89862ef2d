-- ===== src/Launch/Prepares.antt =====
-- The part of Exec and of runMonitor that prepares the process (pkg/unikontainers/unikontainers.go, monitor.go).
use urunc.Prelude.{
  ℕ, String, ◌==◌, Bool, true, false, not, Bool-cases, Option, none, some, List, [], ◌∷◌, map,
  if◌then◌else◌, All, All-append, inl, inr,
}
use urunc.Prelude.Traced.{Traced, ◌>>=◌}
use urunc.Prelude.Traced.Invariants.{
  Preserves, pure-Preserves, raise-Preserves, >>=-Preserves, perform-Preserves,
}
use urunc.Prelude.Map.{get}
use urunc.Prelude.Filepath.{join_paths, base, elements}
use urunc.Types.{ExecArgs, UnikernelParams, RootfsParams}
use urunc.Hypervisors.{Vmm, VmmKind, uses_tuntap}
use urunc.Resources.Collect.{MonitorResources}
use mathlib.Core.List.{reverse}
use urunc.Annotations.{annot_hypervisor}
use urunc.Resources.{bind_mount}
use urunc.Mount.Apply.{apply_mounts, no_source}
use urunc.Mount.Devices.{setup_devices, prepare_root}
use urunc.Launch.{get_network_type, Unikontainer, User, MonitorSpec}
use urunc.Launch.Exec.{
  Launch, LaunchCall, LaunchError, net_call, host_call, make_dir, symlink_ptmx, create_console,
  chmod_console, chdir, pivot_root, make_slave, unmount_old_root, remove_old_root, chroot,
  init_guest, set_groups, set_gid, set_uid, call_error, net_error, apply_error, setup_net, part,
  do_call, setup_console, pivot_rootfs, change_root, set_additional, setup_user,
}
use urunc.Launch.Monitor.{
  Machine, with_environ, with_v_accel, with_pivot, use_v_accel, mount_v_sock, with_net, add_devices,
  setup_monitor_rootfs, prepare_v_sock_environment, setup_v_accel, prepare_command, network_part,
  exec_setup, run_setup,
}
use urunc.Launch.Privileges.{
  IsSetup, built_command-Preserves, confined_args-Preserves, confined_blocks-Preserves,
  found_devices-Preserves, enabled_v_accel-Preserves,
}

-- The calls that prepare.
All-map :
    {D : Type 0} (call : D → LaunchCall)
    → ((d : D) → IsSetup (call d))
    → (ds : List D) → All IsSetup (map call ds)
All-map call each [] = tt
All-map call each (d ∷ ds) = (each d, All-map call each ds)

abbrev pub OnlySetup : List LaunchCall → Type 0
OnlySetup = All IsSetup

part-Prepares :
    {D E A : Type 0} (call : D → LaunchCall) (problem : E → LaunchError) (m : Traced D E A)
    → ((d : D) → IsSetup (call d))
    → Preserves OnlySetup (part call problem m)
part-Prepares call problem m each = record {
  apply =
      λ calls all. All-append IsSetup calls (map call (m []).1) all (All-map call each (m []).1);
}

module _ (machine : Machine) where
  abbrev pub Prepares : {A : Type 0} → Launch A → Type 0
  Prepares = Preserves OnlySetup

  setup_call : (c : LaunchCall) → IsSetup c → Prepares (do_call machine.fails c)
  setup_call c h =
      perform-Preserves OnlySetup machine.fails call_error c
        (λ calls all. All-append IsSetup calls (c ∷ []) all (h, tt))

  infixr 5 ◌then◌
  abbrev ◌then◌ :
      {A B : Type 0} {m : Launch A} {k : Launch B}
      → Prepares m
      → Prepares k
      → Prepares (m >>= λ a. k)
  h then k = >>=-Preserves OnlySetup h (λ done. k)

  setup_console-Prepares : (mon_rootfs : String) → Prepares (setup_console machine.fails mon_rootfs)
  unfolding setup_console
  setup_console-Prepares mon_rootfs =
      setup_call (symlink_ptmx (join_paths mon_rootfs "/dev/ptmx")) tt
      then setup_call (create_console (join_paths mon_rootfs "/dev/console")) tt
      then setup_call (chmod_console (join_paths mon_rootfs "/dev/console")) tt

  pivot_rootfs-Prepares : (new_root : String) → Prepares (pivot_rootfs machine.fails new_root)
  unfolding pivot_rootfs
  pivot_rootfs-Prepares new_root =
      setup_call (make_dir (join_paths new_root "/old_root")) tt
      then setup_call pivot_root tt
      then setup_call (chdir "/") tt
      then setup_call make_slave tt
      then setup_call unmount_old_root tt
      then setup_call remove_old_root tt

  into_root-Prepares :
      (dir : String) (pivot : Bool)
      → Prepares (if pivot then pivot_rootfs machine.fails dir else do_call machine.fails chroot)
  into_root-Prepares dir true = pivot_rootfs-Prepares dir
  into_root-Prepares dir false = setup_call chroot tt

  change_root-Prepares :
      (dir : String) (pivot : Bool) → Prepares (change_root machine.fails dir pivot)
  unfolding change_root
  change_root-Prepares dir pivot =
      setup_call (chdir dir) tt then into_root-Prepares dir pivot then setup_call (chdir "/") tt

  set_additional-Prepares : (gids : List ℕ) → Prepares (set_additional machine.fails gids)
  set_additional-Prepares [] = pure-Preserves OnlySetup tt
  set_additional-Prepares (g ∷ gs) = setup_call (set_groups (g ∷ gs)) tt

  setup_user-Prepares : (user : User) → Prepares (setup_user machine.fails user)
  unfolding setup_user
  setup_user-Prepares user =
      set_additional-Prepares user.additional_gids
      then setup_call (set_gid user.gid) tt
      then setup_call (set_uid user.uid) tt

  prepare_command-Prepares :
      (user : User) (both : UnikernelParams × ExecArgs)
      → Prepares (prepare_command machine user both)
  unfolding prepare_command
  prepare_command-Prepares user (params, args) =
      >>=-Preserves OnlySetup (confined_args-Preserves machine OnlySetup args) (λ confined.
        >>=-Preserves OnlySetup (confined_blocks-Preserves machine OnlySetup params.block)
          (λ blocks. >>=-Preserves OnlySetup (setup_call init_guest tt) (λ done.
            >>=-Preserves OnlySetup
              (built_command-Preserves machine OnlySetup (record params { block = blocks }))
              (λ command.
                >>=-Preserves OnlySetup (setup_user-Prepares user)
                  (λ done. pure-Preserves OnlySetup (record confined { command = command }))))))

  add_devices-Prepares :
      (mon_rootfs : String) (paths : List String) (tap : Bool)
      → Prepares (add_devices machine mon_rootfs paths tap)
  unfolding add_devices
  add_devices-Prepares mon_rootfs paths tap =
      >>=-Preserves OnlySetup (found_devices-Preserves machine OnlySetup paths) (λ devices.
        part-Prepares host_call apply_error
          (setup_devices machine.host machine.mkdev mon_rootfs devices tap) (λ d. tt))

  setup_monitor_rootfs-Prepares :
      (u : Unikontainer) (dir : String) (res : MonitorResources) (tap : Bool)
      → Prepares (setup_monitor_rootfs machine u dir res tap)
  unfolding setup_monitor_rootfs
  setup_monitor_rootfs-Prepares u dir res tap =
      setup_call (make_dir dir) tt
      then part-Prepares host_call apply_error
          (prepare_root machine.host (reverse (elements dir)) u.rootfs_propagation) (λ d. tt)
      then part-Prepares host_call apply_error (apply_mounts machine.host dir res.mounts) (λ d. tt)
      then add_devices-Prepares dir res.devices tap
      then setup_console-Prepares dir

  mount_v_sock-Prepares :
      (dir hypervisor socket : String) → Prepares (mount_v_sock machine dir hypervisor socket)
  unfolding mount_v_sock
  mount_v_sock-Prepares dir hypervisor socket = elim (Bool-cases (hypervisor == "firecracker")) [
    | inr e ↦ rw e (pure-Preserves OnlySetup tt)
    | inl e ↦ elim (Bool-cases (machine.is_socket socket)) [
      | inl f ↦
          rw (e, f)
            (part-Prepares host_call apply_error
              (apply_mounts machine.host dir
                (bind_mount socket (join_paths "/vaccel" (base socket)) true true [] ∷ []))
              (λ d. tt))
      | inr f ↦ rw (e, f) (raise-Preserves OnlySetup (apply_error (no_source socket)))
    ]
  ]

  prepare_v_sock_environment-Prepares :
      (dir hypervisor socket : String)
      → Prepares (prepare_v_sock_environment machine dir hypervisor socket)
  unfolding prepare_v_sock_environment
  prepare_v_sock_environment-Prepares dir hypervisor socket =
      >>=-Preserves OnlySetup
        (found_devices-Preserves machine OnlySetup ("/dev/vsock" ∷ "/dev/vhost-vsock" ∷ []))
        (λ devices.
          mount_v_sock-Prepares dir hypervisor socket
          then part-Prepares host_call apply_error
              (setup_devices machine.host machine.mkdev dir devices false) (λ d. tt))

  use_v_accel-Prepares :
      (u : Unikontainer) (dir : String) (both : UnikernelParams × ExecArgs)
      (found : Option (String × String × String))
      → Prepares (use_v_accel machine u dir both found)
  use_v_accel-Prepares u dir both none = pure-Preserves OnlySetup both
  use_v_accel-Prepares u dir both (some (v_accel_type, socket, address)) =
      elim (Bool-cases (v_accel_type == "vsock")) [
        | inl e ↦ rw e (
            prepare_v_sock_environment-Prepares dir (get u.annotations annot_hypervisor) socket
            then pure-Preserves OnlySetup (with_v_accel u address both))
        | inr e ↦ rw e (pure-Preserves OnlySetup both)
      ]

  setup_v_accel-Prepares :
      (u : Unikontainer) (dir : String) (both : UnikernelParams × ExecArgs)
      → Prepares (setup_v_accel machine u dir both)
  unfolding setup_v_accel
  setup_v_accel-Prepares u dir both =
      >>=-Preserves OnlySetup (enabled_v_accel-Preserves machine OnlySetup u)
        (λ found. use_v_accel-Prepares u dir both found)

  network_part-Prepares :
      (kind : VmmKind) (network_type : String) (user : User)
      → Prepares (network_part machine kind network_type user)
  unfolding network_part
  network_part-Prepares kind network_type user =
      part-Prepares net_call net_error
        (setup_net machine.kernel (uses_tuntap kind) network_type user.uid user.gid) (λ d. tt)

  pub exec_setup-Prepares :
      (u : Unikontainer) (rootfs : RootfsParams) (res : MonitorResources) (spec : MonitorSpec)
      (vmm : Vmm)
      → Prepares (exec_setup machine u rootfs res spec vmm)
  unfolding exec_setup
  exec_setup-Prepares u rootfs res spec vmm =
      >>=-Preserves OnlySetup (network_part-Prepares vmm.kind (get_network_type u) u.user)
        (λ net_args.
          setup_monitor_rootfs-Prepares u rootfs.mon_rootfs res (not (net_args.tap_dev == ""))
          then >>=-Preserves OnlySetup
              (setup_v_accel-Prepares u rootfs.mon_rootfs (with_net machine spec net_args))
              (λ both.
                change_root-Prepares rootfs.mon_rootfs (with_pivot machine u.namespaces)
                then prepare_command-Prepares u.user both))

  pub run_setup-Prepares : (spec : MonitorSpec) (vmm : Vmm) → Prepares (run_setup machine spec vmm)
  unfolding run_setup
  run_setup-Prepares spec vmm =
      >>=-Preserves OnlySetup (network_part-Prepares vmm.kind spec.network_type spec.user)
        (λ net_args.
          prepare_command-Prepares spec.user
            (with_net machine (with_environ machine spec) net_args))
