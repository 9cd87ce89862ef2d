-- ===== src/Launch/Confined.antt =====
-- confineToContainerRootfs, and the boot files that Exec and runMonitor give to the monitor.
use urunc.Prelude.{
  ℕ, String, ◌==◌, eq_iff, Bool, true, false, not, ◌&&◌, Bool-cases, Option, none, some, List, [],
  ◌∷◌, ◌++◌, if◌then◌else◌, Result, ok, err, All, All-append, ◌≡◌, ◌⊎◌, inl, inr, refl, arith,
}
use urunc.Prelude.Traced.Answers.{Gives, Yields, pure-Yields, Yields->>=, >>=-Yields}
use urunc.Types.{ExecArgs, UnikernelParams, RootfsParams}
use urunc.Annotations.Values.{matches_path}
use urunc.Hypervisors.{Vmm}
use urunc.Resources.{container_rootfs_mount_path}
use urunc.Resources.Collect.{MonitorResources}
use urunc.Launch.{
  Unikontainer, User, MonitorSpec, ConfineError, join_failed, not_allowed, get_network_type,
  confine_to_container_rootfs, confine_exec_args,
}
use urunc.Launch.Exec.{
  LaunchCall, LaunchError, init_guest, as_error, confine_error, do_call, setup_user, change_root,
}
use urunc.Launch.Monitor.{
  Machine, answer, confined_args, confined_blocks, built_command, with_net, with_environ,
  with_pivot, network_part, setup_monitor_rootfs, setup_v_accel, prepare_command, exec_setup,
  run_setup,
}

-- The path is empty, or securejoin has resolved it below the container's rootfs to this path, and it has
-- only the characters that the annotations may have.
abbrev pub IsInRootfs : (String → String → Option String) → String → Type 0
IsInRootfs secure_join path =
    (path ≡ "")
    ⊎ ((asked : String) × (secure_join container_rootfs_mount_path asked ≡ some path)
        × (matches_path path ≡ true))

abbrev pub HasConfinedFiles : (String → String → Option String) → ExecArgs → Type 0
HasConfinedFiles secure_join args =
    IsInRootfs secure_join args.unikernel_path
    × IsInRootfs secure_join args.initrd_path
    × IsInRootfs secure_join args.snapshot_path

abbrev Answered : {E A : Type 0} → (A → Type 0) → Result E A → Type 0
Answered P (err e) = Unit
Answered P (ok a) = P a

module _ (secure_join : String → String → Option String) where
  joined :
      (path : String) (found : Option String)
      → secure_join container_rootfs_mount_path path ≡ found
      → Answered (IsInRootfs secure_join) (elim found as (λ o. Result ConfineError String) [
        | none ↦ err (join_failed path)
        | some confined ↦
            if not (matches_path confined) then err (not_allowed confined) else ok confined
      ])
  joined path none e = tt
  joined path (some confined) e = elim (Bool-cases (matches_path confined)) [
    | inl f ↦ rw (Answered, f) (inr (path, e, f))
    | inr f ↦ rw (Answered, f) tt
  ]

  confine_to_container_rootfs-IsInRootfs :
      (path : String)
      → Answered (IsInRootfs secure_join) (confine_to_container_rootfs secure_join path)
  unfolding confine_to_container_rootfs
  confine_to_container_rootfs-IsInRootfs path = elim (Bool-cases (path == "")) [
    | inl e ↦ rw (Answered, e) (inl refl)
    | inr e ↦ rw (Answered, e) (joined path (secure_join container_rootfs_mount_path path) refl)
  ]

  abbrev then_do : {E A B : Type 0} → Result E A → (A → Result E B) → Result E B
  then_do r next = urunc.Prelude.◌>>=◌ r next

  after :
      {E A B : Type 0} (P : A → Type 0) (Q : B → Type 0) (r : Result E A) (next : A → Result E B)
      → Answered P r
      → ((a : A) → P a → Answered Q (next a))
      → Answered Q (then_do r next)
  after P Q (err e) next h k = tt
  after P Q (ok a) next h k = k a h

  confine_exec_args-HasConfinedFiles :
      (args : ExecArgs)
      → Answered (HasConfinedFiles secure_join) (confine_exec_args secure_join args)
  unfolding confine_exec_args
  confine_exec_args-HasConfinedFiles args =
      after (IsInRootfs secure_join) (HasConfinedFiles secure_join)
        (confine_to_container_rootfs secure_join args.unikernel_path) _
        (confine_to_container_rootfs-IsInRootfs args.unikernel_path)
        (λ unikernel_path h.
          after (IsInRootfs secure_join) (HasConfinedFiles secure_join)
            (confine_to_container_rootfs secure_join args.initrd_path) _
            (confine_to_container_rootfs-IsInRootfs args.initrd_path)
            (λ initrd_path i.
              after (IsInRootfs secure_join) (HasConfinedFiles secure_join)
                (confine_to_container_rootfs secure_join args.snapshot_path) _
                (confine_to_container_rootfs-IsInRootfs args.snapshot_path)
                (λ snapshot_path j. (h, i, j))))

module _ (machine : Machine) where
  abbrev pub IsGood : ExecArgs → Type 0
  IsGood = HasConfinedFiles machine.host.secure_join

  answered :
      {E A : Type 0} (P : A → Type 0) (problem : E → LaunchError) (r : Result E A)
      (calls : List LaunchCall)
      → Answered P r
      → Gives P (answer (as_error problem r) calls)
  answered P problem (err e) calls h = tt
  answered P problem (ok a) calls h = h

  confined_args-IsGood : (args : ExecArgs) → Yields IsGood (confined_args machine args)
  confined_args-IsGood args = record {
    apply = λ calls.
        answered IsGood confine_error (confine_exec_args machine.host.secure_join args) calls
          (confine_exec_args-HasConfinedFiles machine.host.secure_join args);
  }

  prepare_command-IsGood :
      (user : User) (both : UnikernelParams × ExecArgs)
      → Yields IsGood (prepare_command machine user both)
  unfolding prepare_command
  prepare_command-IsGood user (params, args) =
      Yields->>= IsGood IsGood (confined_args-IsGood args) (λ confined h.
        >>=-Yields IsGood (confined_blocks machine params.block) (λ blocks.
          >>=-Yields IsGood (do_call machine.fails init_guest) (λ done.
            >>=-Yields IsGood (built_command machine (record params { block = blocks })) (λ command.
              >>=-Yields IsGood (setup_user machine.fails user)
                (λ done. pure-Yields IsGood (record confined { command = command }) h)))))

  pub exec_setup-IsGood :
      (u : Unikontainer) (rootfs : RootfsParams) (res : MonitorResources) (spec : MonitorSpec)
      (vmm : Vmm)
      → Yields IsGood (exec_setup machine u rootfs res spec vmm)
  unfolding exec_setup
  exec_setup-IsGood u rootfs res spec vmm =
      >>=-Yields IsGood (network_part machine vmm.kind (get_network_type u) u.user) (λ net_args.
        >>=-Yields IsGood
          (setup_monitor_rootfs machine u rootfs.mon_rootfs res (not (net_args.tap_dev == "")))
          (λ done.
            >>=-Yields IsGood
              (setup_v_accel machine u rootfs.mon_rootfs (with_net machine spec net_args))
              (λ both.
                >>=-Yields IsGood
                  (change_root machine.fails rootfs.mon_rootfs (with_pivot machine u.namespaces))
                  (λ done. prepare_command-IsGood u.user both))))

  pub run_setup-IsGood :
      (spec : MonitorSpec) (vmm : Vmm) → Yields IsGood (run_setup machine spec vmm)
  unfolding run_setup
  run_setup-IsGood spec vmm =
      >>=-Yields IsGood (network_part machine vmm.kind spec.network_type spec.user) (λ net_args.
        prepare_command-IsGood spec.user (with_net machine (with_environ machine spec) net_args))
