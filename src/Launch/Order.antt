-- ===== src/Launch/Order.antt =====
-- The order of the calls of Exec and runMonitor (pkg/unikontainers/unikontainers.go, monitor.go).
use urunc.Prelude.{
  if◌then◌else◌, ◌==◌, not, Bool, true, false, Bool-cases, List, [], ◌∷◌, ◌++◌, Result, ok, err,
  append_assoc, append-nil, ◌≡◌, inl, inr, refl, sym,
}
use urunc.Prelude.Traced.{◌>>◌}
use urunc.Prelude.Traced.Ensured.{perform->>-Ensures, Ensures, >>=-Ensures, Ensures->>=, Holds}
use urunc.Prelude.Traced.Invariants.{Preserves, pure-Preserves}
use urunc.Types.{ExecArgs, UnikernelParams, RootfsParams}
use urunc.Hypervisors.{Vmm}
use urunc.Resources.Collect.{MonitorResources}
use urunc.Launch.{Unikontainer, User, MonitorSpec, build_monitor_spec, get_network_type}
use urunc.Launch.Exec.{
  Launch, LaunchCall, LaunchError, init_guest, set_gid, set_uid, call_error, do_call,
  set_additional, setup_user, change_root,
}
use urunc.Launch.Monitor.{
  Machine, confined_args, confined_blocks, built_command, with_net, with_pivot, network_part,
  setup_monitor_rootfs, setup_v_accel, prepare_command, exec_setup, exec_start, exec_with, exec,
  run_setup, run_start, run_with, run_monitor, with_environ,
}
use urunc.Launch.Privileges.{
  monitor_chosen, EndsAsUser, StartsAsUser, Grown, exec_start-Starts, run_start-Starts,
}
use urunc.Launch.Prepares.{OnlySetup, exec_setup-Prepares, run_setup-Prepares}

module _ (machine : Machine) where
  abbrev Ends : User → {A : Type 0} → Launch A → Type 0
  Ends user = Ensures (EndsAsUser machine user)

  set_uid-Holds :
      (user : User) (calls : List LaunchCall)
      → machine.fails calls (set_gid user.gid) ≡ false
      → (b : Bool) → machine.fails (calls ++ (set_gid user.gid ∷ [])) (set_uid user.uid) ≡ b
      → Holds (EndsAsUser machine user) (
        if b then err (call_error (set_uid user.uid)) else ok tt,
        (calls ++ (set_gid user.gid ∷ [])) ++ (set_uid user.uid ∷ []),
      )
  set_uid-Holds user calls e true f = tt
  set_uid-Holds user calls e false f =
      (calls, append_assoc calls (set_gid user.gid ∷ []) (set_uid user.uid ∷ []), e, f)

  set_ids-Ends :
      (user : User)
      → Ends user
          (do_call machine.fails (set_gid user.gid) >> do_call machine.fails (set_uid user.uid))
  set_ids-Ends user =
      perform->>-Ensures (EndsAsUser machine user) machine.fails call_error (set_gid user.gid)
        (do_call machine.fails (set_uid user.uid))
        (λ calls e.
          set_uid-Holds user calls e
            (machine.fails (calls ++ (set_gid user.gid ∷ [])) (set_uid user.uid)) refl)

  setup_user-Ends : (user : User) → Ends user (setup_user machine.fails user)
  unfolding setup_user
  setup_user-Ends user =
      >>=-Ensures (EndsAsUser machine user) (set_additional machine.fails user.additional_gids)
        (λ done. set_ids-Ends user)

  prepare_command-Ends :
      (user : User) (both : UnikernelParams × ExecArgs)
      → Ends user (prepare_command machine user both)
  unfolding prepare_command
  prepare_command-Ends user (params, args) =
      >>=-Ensures (EndsAsUser machine user) (confined_args machine args) (λ confined.
        >>=-Ensures (EndsAsUser machine user) (confined_blocks machine params.block) (λ blocks.
          >>=-Ensures (EndsAsUser machine user) (do_call machine.fails init_guest) (λ done.
            >>=-Ensures (EndsAsUser machine user)
              (built_command machine (record params { block = blocks }))
              (λ command. Ensures->>= (EndsAsUser machine user) (setup_user-Ends user) (λ done.
                pure-Preserves (EndsAsUser machine user)
                  (record confined { command = command }))))))

  exec_setup-Ends :
      (u : Unikontainer) (rootfs : RootfsParams) (res : MonitorResources) (spec : MonitorSpec)
      (vmm : Vmm)
      → Ends u.user (exec_setup machine u rootfs res spec vmm)
  unfolding exec_setup
  exec_setup-Ends u rootfs res spec vmm =
      >>=-Ensures (EndsAsUser machine u.user)
        (network_part machine vmm.kind (get_network_type u) u.user)
        (λ net_args.
          >>=-Ensures (EndsAsUser machine u.user)
            (setup_monitor_rootfs machine u rootfs.mon_rootfs res (not (net_args.tap_dev == "")))
            (λ done.
              >>=-Ensures (EndsAsUser machine u.user)
                (setup_v_accel machine u rootfs.mon_rootfs (with_net machine spec net_args))
                (λ both.
                  >>=-Ensures (EndsAsUser machine u.user)
                    (change_root machine.fails rootfs.mon_rootfs (with_pivot machine u.namespaces))
                    (λ done. prepare_command-Ends u.user both))))

  run_setup-Ends : (spec : MonitorSpec) (vmm : Vmm) → Ends spec.user (run_setup machine spec vmm)
  unfolding run_setup
  run_setup-Ends spec vmm =
      >>=-Ensures (EndsAsUser machine spec.user)
        (network_part machine vmm.kind spec.network_type spec.user)
        (λ net_args.
          prepare_command-Ends spec.user (with_net machine (with_environ machine spec) net_args))

  phases :
      {A : Type 0} (user : User) (r : Result LaunchError A × List LaunchCall)
      (next : A → Launch (Unit {0}))
      → OnlySetup r.1
      → Holds (EndsAsUser machine user) r
      → ((first : List LaunchCall) (a : A) → Preserves (Grown first) (next a))
      → StartsAsUser machine user
          (elim r.0 as (λ x. Result LaunchError (Unit {0}) × List LaunchCall) [
            | err e ↦ (err e, r.1)
            | ok a ↦ next a r.1
          ]).1
  phases user (err e, calls) next all ends starts =
      (calls, [], sym (append-nil calls), all, tt, inl refl)
  phases user (ok a, calls) next all ends starts =
      let (second, e, started) = (starts calls a).apply calls ([], sym (append-nil calls), tt) in
      (calls, second, e, all, started, inr ends)

  exec_with-StartsAsUser :
      (u : Unikontainer) (rootfs : RootfsParams) (res : MonitorResources) (spec : MonitorSpec)
      (vmm : Vmm)
      → StartsAsUser machine u.user (exec_with machine u rootfs res spec vmm []).1
  unfolding exec_with
  exec_with-StartsAsUser u rootfs res spec vmm =
      phases u.user (exec_setup machine u rootfs res spec vmm []) (exec_start machine u res vmm)
        ((exec_setup-Prepares machine u rootfs res spec vmm).apply [] tt)
        ((exec_setup-Ends u rootfs res spec vmm).apply [])
        (λ first args. exec_start-Starts machine first u res vmm args)

  run_with-StartsAsUser :
      (spec : MonitorSpec) (vmm : Vmm)
      → StartsAsUser machine spec.user (run_with machine spec vmm []).1
  unfolding run_with
  run_with-StartsAsUser spec vmm =
      phases spec.user (run_setup machine spec vmm []) (run_start machine spec vmm)
        ((run_setup-Prepares machine spec vmm).apply [] tt) ((run_setup-Ends spec vmm).apply [])
        (λ first args. run_start-Starts machine first spec vmm args)

  no_calls : (user : User) → StartsAsUser machine user []
  no_calls user = ([], [], refl, tt, tt, inl refl)

  exec_alone :
      (u : Unikontainer) (rootfs : RootfsParams) (res : MonitorResources)
      → StartsAsUser machine u.user (exec machine u rootfs res []).1
  unfolding exec
  exec_alone u rootfs res =
      let spec =
        build_monitor_spec machine.read_file machine.parse_ip machine.environ u rootfs res in
      elim (Bool-cases (rootfs.mon_rootfs == "")) [
        | inl e ↦ rw e (no_calls u.user)
        | inr e ↦ rw e (
            monitor_chosen machine (StartsAsUser machine u.user) (no_calls u.user)
              spec.unikernel_type spec.monitor_type u.monitors (exec_with machine u rootfs res spec)
              (exec_with-StartsAsUser u rootfs res spec))
      ]

  run_monitor_alone :
      (spec : MonitorSpec) → StartsAsUser machine spec.user (run_monitor machine spec []).1
  unfolding run_monitor
  run_monitor_alone spec =
      monitor_chosen machine (StartsAsUser machine spec.user) (no_calls spec.user)
        spec.unikernel_type spec.monitor_type ((spec.monitor_type, spec.monitor_cfg) ∷ [])
        (run_with machine spec) (run_with-StartsAsUser spec)

  -- The calls that Exec makes, and those that runMonitor makes, are first ones that prepare the
  -- process and then ones that start others or report the start: the directory of the control
  -- socket, hooks, the first command, the message or signal of the start, and execve of the
  -- monitor. Whatever fails, none of the second kind is made unless the last two of the first
  -- kind set the group and the user of the container and both succeeded.
  pub exec-StartsAsUser :
      (u : Unikontainer) (rootfs : RootfsParams) (res : MonitorResources) (spec : MonitorSpec)
      → StartsAsUser machine u.user (exec machine u rootfs res []).1
        × StartsAsUser machine spec.user (run_monitor machine spec []).1
  exec-StartsAsUser u rootfs res spec = (exec_alone u rootfs res, run_monitor_alone spec)
