-- ===== src/Launch/Privileges.antt =====
-- In which order a monitor's process gives up its privileges and starts others.
use urunc.Prelude.{
  String, ◌==◌, true, false, not, ◌&&◌, Bool-cases, none, some, List, [], ◌∷◌, ◌++◌, ok, err, All,
  All-append, append_assoc, ◌≡◌, ◌⊎◌, inl, inr, ap, ◌∙◌,
}
use urunc.Prelude.Traced.{◌>>=◌}
use urunc.Prelude.Traced.Invariants.{Preserves, pure-Preserves, >>=-Preserves, perform-Preserves}
use urunc.Prelude.Map.{Map}
use urunc.Unikernels.{new_unikernel}
use urunc.Prelude.Filepath.{dir_path}
use urunc.Types.{MonitorConfig, ExecArgs, UnikernelParams, BlockDevParams}
use urunc.Hypervisors.{new_vmm, Vmm, VmmKind, supports_control_socket}
use urunc.Resources.Collect.{MonitorResources}
use urunc.Launch.{Unikontainer, User, MonitorSpec}
use urunc.Launch.Exec.{
  guest_error, vmm_error, as_error, Launch, LaunchCall, set_gid, set_uid, make_socket_dir, run_hook,
  spawn, send_start_success, signal_ready, pre_exec, execve, call_error, do_call, execute_hooks,
  spawn_process, make_socket, exec_monitor,
}
use urunc.Launch.Monitor.{
  Machine, answer, some_or, chosen_vmm, built_exec_cmd, built_command, confined_args,
  confined_blocks, found_devices, enabled_v_accel, exec_start, run_start,
}

-- What starts another process or reports the start.
abbrev pub IsStart : LaunchCall → Type 0
IsStart (make_socket_dir dir) = Unit
IsStart (run_hook hook) = Unit
IsStart (spawn argv) = Unit
IsStart send_start_success = Unit
IsStart (signal_ready status) = Unit
IsStart pre_exec = Unit
IsStart (execve path argv environment) = Unit
IsStart _ = ⊥

-- The rest, which prepares the process.
abbrev pub IsSetup : LaunchCall → Type 0
IsSetup (make_socket_dir dir) = ⊥
IsSetup (run_hook hook) = ⊥
IsSetup (spawn argv) = ⊥
IsSetup send_start_success = ⊥
IsSetup (signal_ready status) = ⊥
IsSetup pre_exec = ⊥
IsSetup (execve path argv environment) = ⊥
IsSetup _ = Unit

-- The last two calls set the group and the user, and both succeeded.
abbrev pub EndsAsUser : Machine → User → List LaunchCall → Type 0
EndsAsUser machine user calls =
    (before : List LaunchCall) × (calls ≡ before ++ (set_gid user.gid ∷ set_uid user.uid ∷ []))
    × (machine.fails before (set_gid user.gid) ≡ false)
    × (machine.fails (before ++ (set_gid user.gid ∷ [])) (set_uid user.uid) ≡ false)

-- The calls are those that prepare, and then, as the user, those that start.
abbrev pub StartsAsUser : Machine → User → List LaunchCall → Type 0
StartsAsUser machine user calls =
    (first second : List LaunchCall) × (calls ≡ first ++ second)
    × All IsSetup first
    × All IsStart second
    × ((second ≡ []) ⊎ EndsAsUser machine user first)

abbrev pub Grown : List LaunchCall → List LaunchCall → Type 0
Grown first calls = (second : List LaunchCall) × (calls ≡ first ++ second) × All IsStart second

grow :
    (first : List LaunchCall) (c : LaunchCall)
    → IsStart c
    → (calls : List LaunchCall) → Grown first calls
    → Grown first (calls ++ (c ∷ []))
grow first c start calls (second, e, all) = (
  second ++ (c ∷ []),
  ap (λ l. l ++ (c ∷ [])) e ∙ append_assoc first second (c ∷ []),
  All-append IsStart second (c ∷ []) all (start, tt),
)

module _ (machine : Machine) (I : List LaunchCall → Type 0) where
  pub built_exec_cmd-Preserves : (args : ExecArgs) → Preserves I (built_exec_cmd machine args)
  built_exec_cmd-Preserves args = record { apply = λ calls h. h }

  pub built_command-Preserves :
      (params : UnikernelParams) → Preserves I (built_command machine params)
  built_command-Preserves params = record { apply = λ calls h. h }

  pub confined_args-Preserves : (args : ExecArgs) → Preserves I (confined_args machine args)
  confined_args-Preserves args = record { apply = λ calls h. h }

  pub confined_blocks-Preserves :
      (blocks : List BlockDevParams) → Preserves I (confined_blocks machine blocks)
  confined_blocks-Preserves blocks = record { apply = λ calls h. h }

  pub found_devices-Preserves : (paths : List String) → Preserves I (found_devices machine paths)
  found_devices-Preserves paths = record { apply = λ calls h. h }

  pub enabled_v_accel-Preserves : (u : Unikontainer) → Preserves I (enabled_v_accel machine u)
  enabled_v_accel-Preserves u = record { apply = λ calls h. h }

-- What starts another process before the monitor, and the socket's directory.
abbrev pub IsHelper : LaunchCall → Type 0
IsHelper (make_socket_dir dir) = Unit
IsHelper (run_hook hook) = Unit
IsHelper (spawn argv) = Unit
IsHelper _ = ⊥

module _ (machine : Machine) (I : List LaunchCall → Type 0)
    (helper_call : (c : LaunchCall) → IsHelper c → Preserves I (do_call machine.fails c)) where
  pub execute_hooks-Preserves :
      (hooks : List String) → Preserves I (execute_hooks machine.fails hooks)
  unfolding execute_hooks
  execute_hooks-Preserves [] = pure-Preserves I tt
  execute_hooks-Preserves (hook ∷ hooks) =
      >>=-Preserves I (helper_call (run_hook hook) tt) (λ done. execute_hooks-Preserves hooks)

  pub spawn_process-Preserves :
      (argv : List String) → Preserves I (spawn_process machine.fails argv)
  unfolding spawn_process
  spawn_process-Preserves [] = pure-Preserves I tt
  spawn_process-Preserves (binary ∷ args) = helper_call (spawn (binary ∷ args)) tt

  pub make_socket-Preserves :
      (kind : VmmKind) (path : String) → Preserves I (make_socket machine.fails kind path)
  unfolding make_socket
  make_socket-Preserves kind path =
      elim (Bool-cases (supports_control_socket kind && not (path == ""))) [
        | inl e ↦ rw e (helper_call (make_socket_dir (dir_path path)) tt)
        | inr e ↦ rw e (pure-Preserves I tt)
      ]

helper_starts : (c : LaunchCall) → IsHelper c → IsStart c
helper_starts (make_socket_dir dir) h = tt
helper_starts (run_hook hook) h = tt
helper_starts (spawn argv) h = tt
helper_starts _ h = absurd h

module _ (machine : Machine) (first : List LaunchCall) where
  abbrev Starts : {A : Type 0} → Launch A → Type 0
  Starts = Preserves (Grown first)

  start_call : (c : LaunchCall) → IsStart c → Starts (do_call machine.fails c)
  start_call c start =
      perform-Preserves (Grown first) machine.fails call_error c (grow first c start)

  helper_call-Starts : (c : LaunchCall) → IsHelper c → Starts (do_call machine.fails c)
  helper_call-Starts c h = start_call c (helper_starts c h)

  exec_monitor-Starts :
      (path : String) (args : ExecArgs) (cmd : List String)
      → Starts (exec_monitor machine.fails path args cmd)
  unfolding exec_monitor
  exec_monitor-Starts path args cmd =
      >>=-Preserves (Grown first) (start_call pre_exec tt)
        (λ done. start_call (execve path cmd args.environment) tt)

  pub exec_start-Starts :
      (u : Unikontainer) (res : MonitorResources) (vmm : Vmm) (args : ExecArgs)
      → Starts (exec_start machine u res vmm args)
  unfolding exec_start
  exec_start-Starts u res vmm args =
      >>=-Preserves (Grown first)
        (make_socket-Preserves machine (Grown first) helper_call-Starts vmm.kind args.socket_path)
        (λ a.
          >>=-Preserves (Grown first)
            (execute_hooks-Preserves machine (Grown first) helper_call-Starts u.hooks)
            (λ b.
              >>=-Preserves (Grown first)
                (spawn_process-Preserves machine (Grown first) helper_call-Starts res.pre_start_cmd)
                (λ c.
                  >>=-Preserves (Grown first) (built_exec_cmd-Preserves machine (Grown first) args)
                    (λ cmd.
                      >>=-Preserves (Grown first) (start_call send_start_success tt)
                        (λ d. exec_monitor-Starts vmm.binary_path args cmd)))))

  pub run_start-Starts :
      (spec : MonitorSpec) (vmm : Vmm) (args : ExecArgs) → Starts (run_start machine spec vmm args)
  unfolding run_start
  run_start-Starts spec vmm args =
      >>=-Preserves (Grown first)
        (make_socket-Preserves machine (Grown first) helper_call-Starts vmm.kind args.socket_path)
        (λ a.
          >>=-Preserves (Grown first)
            (spawn_process-Preserves machine (Grown first) helper_call-Starts spec.pre_start_cmd)
            (λ b.
              >>=-Preserves (Grown first) (built_exec_cmd-Preserves machine (Grown first) args)
                (λ cmd.
                  >>=-Preserves (Grown first) (start_call (signal_ready true) tt)
                    (λ d. exec_monitor-Starts vmm.binary_path args cmd))))

module _ (machine : Machine) (P : List LaunchCall → Type 0) (initially : P []) where
  -- What holds of no calls, and of the calls that follow the choice of a monitor.
  pub monitor_chosen :
      (unikernel_type monitor_type : String) (monitors : Map MonitorConfig)
      (next : Vmm → Launch (Unit {0}))
      → ((vmm : Vmm) → P (next vmm []).1)
      → P ((chosen_vmm machine unikernel_type monitor_type monitors >>= next) []).1
  monitor_chosen unikernel_type monitor_type monitors next h =
      elim (new_unikernel unikernel_type)
        as (λ g.
          P
            ((answer (some_or machine guest_error g)
                >>= (λ guest. answer (
                    as_error vmm_error
                      (new_vmm machine.look_path machine.goarch monitor_type monitors)))
                >>= next)
              []).1) [
                | none ↦ initially
                | some guest ↦
                    elim (new_vmm machine.look_path machine.goarch monitor_type monitors)
                      as (λ r. P ((answer (as_error vmm_error r) >>= next) []).1) [
                        | err e ↦ initially
                        | ok vmm ↦ h vmm
                      ]
              ]
