-- ===== src/Launch/Executes.antt =====
-- What Exec and runMonitor execute.
use urunc.Prelude.{
  String, ◌==◌, true, Bool-cases, Option, none, some, List, [], ◌∷◌, All, All-append, ◌≡◌, inl, inr,
  refl,
}
use urunc.Prelude.Traced.{◌>>=◌}
use urunc.Prelude.Traced.Answers.{Gives, Yields, Yields-Preserves, given_Preserves}
use urunc.Prelude.Traced.Invariants.{Preserves, >>=-Preserves, perform-Preserves}
use urunc.Types.{ExecArgs, RootfsParams}
use urunc.Hypervisors.{Vmm}
use urunc.Resources.Collect.{MonitorResources}
use urunc.Launch.{Unikontainer, MonitorSpec, build_monitor_spec}
use urunc.Launch.Exec.{
  Launch, LaunchCall, send_start_success, signal_ready, pre_exec, execve, call_error, command_error,
  do_call, exec_monitor,
}
use urunc.Launch.Monitor.{
  Machine, answer, some_or, built_exec_cmd, exec_start, exec_with, exec, run_start, run_with,
  run_monitor,
}
use urunc.Launch.Confined.{HasConfinedFiles, IsGood, exec_setup-IsGood, run_setup-IsGood}
use urunc.Launch.Privileges.{
  monitor_chosen, IsHelper, execute_hooks-Preserves, spawn_process-Preserves, make_socket-Preserves,
  IsSetup, built_exec_cmd-Preserves,
}
use urunc.Launch.Prepares.{OnlySetup, exec_setup-Prepares, run_setup-Prepares}

-- What is executed is the command of arguments whose files are confined.
abbrev pub RunsConfined : Machine → LaunchCall → Type 0
RunsConfined machine (execve path argv environment) =
    (args : ExecArgs) × (machine.build_exec_cmd args ≡ some argv)
    × HasConfinedFiles machine.host.secure_join args
RunsConfined machine _ = Unit

module _ (machine : Machine) where
  abbrev AllConfined : List LaunchCall → Type 0
  AllConfined = All (RunsConfined machine)

  prepared_call_runs_nothing : (c : LaunchCall) → IsSetup c → RunsConfined machine c
  prepared_call_runs_nothing (execve path argv environment) h = absurd h
  prepared_call_runs_nothing _ h = tt

  prepared_calls_run_nothing : (calls : List LaunchCall) → OnlySetup calls → AllConfined calls
  prepared_calls_run_nothing [] h = tt
  prepared_calls_run_nothing (c ∷ calls) (h, all) =
      (prepared_call_runs_nothing c h, prepared_calls_run_nothing calls all)

  confined_call :
      (c : LaunchCall) → RunsConfined machine c → Preserves AllConfined (do_call machine.fails c)
  confined_call c h =
      perform-Preserves AllConfined machine.fails call_error c
        (λ calls all. All-append (RunsConfined machine) calls (c ∷ []) all (h, tt))

  built :
      (args : ExecArgs) (found : Option (List String)) (calls : List LaunchCall)
      → machine.build_exec_cmd args ≡ found
      → Gives
          (λ cmd. machine.build_exec_cmd args ≡ some cmd)
          (answer (some_or machine command_error found) calls)
  built args none calls e = tt
  built args (some cmd) calls e = e

  built_exec_cmd-Yields :
      (args : ExecArgs)
      → Yields (λ cmd. machine.build_exec_cmd args ≡ some cmd) (built_exec_cmd machine args)
  built_exec_cmd-Yields args = record {
    apply = λ calls. built args (machine.build_exec_cmd args) calls refl;
  }

  helper_runs_nothing : (c : LaunchCall) → IsHelper c → RunsConfined machine c
  helper_runs_nothing (execve path argv environment) h = absurd h
  helper_runs_nothing _ h = tt

  confined_helper : (c : LaunchCall) → IsHelper c → Preserves AllConfined (do_call machine.fails c)
  confined_helper c h = confined_call c (helper_runs_nothing c h)

  -- The command is built, `report` is made, and the command is executed.
  execute-AllConfined :
      (report : LaunchCall) (path : String) (args : ExecArgs)
      → RunsConfined machine report
      → (IsGood machine) args
      → Preserves AllConfined (
          built_exec_cmd machine args >>= λ cmd.
          do_call machine.fails report >>= λ done. exec_monitor machine.fails path args cmd)
  unfolding exec_monitor
  execute-AllConfined report path args silent good =
      Yields-Preserves (λ cmd. machine.build_exec_cmd args ≡ some cmd) AllConfined
        (built_exec_cmd-Yields args) (built_exec_cmd-Preserves machine AllConfined args)
        (λ cmd e. >>=-Preserves AllConfined (confined_call report silent) (λ done.
          >>=-Preserves AllConfined (confined_call pre_exec tt)
            (λ done. confined_call (execve path cmd args.environment) (args, e, good))))

  exec_start-AllConfined :
      (u : Unikontainer) (res : MonitorResources) (vmm : Vmm) (args : ExecArgs)
      → (IsGood machine) args
      → Preserves AllConfined (exec_start machine u res vmm args)
  unfolding exec_start
  exec_start-AllConfined u res vmm args good =
      >>=-Preserves AllConfined
        (make_socket-Preserves machine AllConfined confined_helper vmm.kind args.socket_path)
        (λ a.
          >>=-Preserves AllConfined
            (execute_hooks-Preserves machine AllConfined confined_helper u.hooks)
            (λ b.
              >>=-Preserves AllConfined
                (spawn_process-Preserves machine AllConfined confined_helper res.pre_start_cmd)
                (λ c. execute-AllConfined send_start_success vmm.binary_path args tt good)))

  run_start-AllConfined :
      (spec : MonitorSpec) (vmm : Vmm) (args : ExecArgs)
      → (IsGood machine) args
      → Preserves AllConfined (run_start machine spec vmm args)
  unfolding run_start
  run_start-AllConfined spec vmm args good =
      >>=-Preserves AllConfined
        (make_socket-Preserves machine AllConfined confined_helper vmm.kind args.socket_path)
        (λ a.
          >>=-Preserves AllConfined
            (spawn_process-Preserves machine AllConfined confined_helper spec.pre_start_cmd)
            (λ b. execute-AllConfined (signal_ready true) vmm.binary_path args tt good))

  -- A part that only prepares and answers confined arguments, and one that runs with them.
  then_run :
      {m : Launch ExecArgs} {next : ExecArgs → Launch (Unit {0})}
      → Preserves OnlySetup m
      → Yields (IsGood machine) m
      → ((args : ExecArgs) → IsGood machine args → Preserves AllConfined (next args))
      → AllConfined ((m >>= next) []).1
  then_run {m} {next} prepares good k =
      given_Preserves (IsGood machine) AllConfined (m []) next (good.apply [])
        (prepared_calls_run_nothing (m []).1 (prepares.apply [] tt)) k

  exec_with-AllConfined :
      (u : Unikontainer) (rootfs : RootfsParams) (res : MonitorResources) (spec : MonitorSpec)
      (vmm : Vmm)
      → AllConfined (exec_with machine u rootfs res spec vmm []).1
  unfolding exec_with
  exec_with-AllConfined u rootfs res spec vmm =
      then_run (exec_setup-Prepares machine u rootfs res spec vmm)
        (exec_setup-IsGood machine u rootfs res spec vmm) (exec_start-AllConfined u res vmm)

  run_with-AllConfined :
      (spec : MonitorSpec) (vmm : Vmm) → AllConfined (run_with machine spec vmm []).1
  unfolding run_with
  run_with-AllConfined spec vmm =
      then_run (run_setup-Prepares machine spec vmm) (run_setup-IsGood machine spec vmm)
        (run_start-AllConfined spec vmm)

  exec-AllConfined :
      (u : Unikontainer) (rootfs : RootfsParams) (res : MonitorResources)
      → AllConfined (exec machine u rootfs res []).1
  unfolding exec
  exec-AllConfined u rootfs res =
      let spec =
        build_monitor_spec machine.read_file machine.parse_ip machine.environ u rootfs res in
      elim (Bool-cases (rootfs.mon_rootfs == "")) [
        | inl e ↦ rw e tt
        | inr e ↦ rw e (
            monitor_chosen machine AllConfined tt spec.unikernel_type spec.monitor_type u.monitors
              (exec_with machine u rootfs res spec) (exec_with-AllConfined u rootfs res spec))
      ]

  run_monitor-AllConfined : (spec : MonitorSpec) → AllConfined (run_monitor machine spec []).1
  unfolding run_monitor
  run_monitor-AllConfined spec =
      monitor_chosen machine AllConfined tt spec.unikernel_type spec.monitor_type
        ((spec.monitor_type, spec.monitor_cfg) ∷ []) (run_with machine spec)
        (run_with-AllConfined spec)

  -- Whatever fails, each execve that Exec or runMonitor makes runs a command that BuildExecCmd
  -- has made of arguments whose unikernel, initrd and snapshot paths are each empty, or what
  -- securejoin answered below the container's rootfs and of the characters allowed in the
  -- annotations' paths.
  pub exec-RunsConfined :
      (u : Unikontainer) (rootfs : RootfsParams) (res : MonitorResources) (spec : MonitorSpec)
      → All (RunsConfined machine) (exec machine u rootfs res []).1
        × All (RunsConfined machine) (run_monitor machine spec []).1
  exec-RunsConfined u rootfs res spec =
      (exec-AllConfined u rootfs res, run_monitor-AllConfined spec)
