-- ===== src/Container.antt =====
-- pkg/unikontainers/unikontainers.go: what `urunc kill` and `urunc delete` do with a container.
pub mod Namespaces
pub mod Paths
pub mod Message
pub mod Delete
pub mod Guard
pub mod Saved
use urunc.Prelude.{
  ℕ, String, ◌==◌, Bool, true, false, not, Option, none, some, List, [], ◌∷◌, ◌||◌, ◌&&◌,
  if◌then◌else◌, Result, ok, err,
}
use urunc.Prelude.Map.{Map, get}
use urunc.Prelude.Strconv.{ℤ, pos, negsuc}
use urunc.Types.{MonitorConfig}
use urunc.Annotations.{annot_hypervisor}
use urunc.Settings.{UruncConfig}
use urunc.Config.RoundTrip.{monitor_of}
use urunc.Hypervisors.Process.{Answers, Traced, KillCall, nonpositive, call, sigkill, sigterm}
use urunc.Hypervisors.{
  Vmm, VmmError, kill_error, hedge_not_implemented, new_vmm, is_signal, supports_control_socket,
}
use urunc.Hypervisors

-- specs.State, less its version.
pub record State : Type 0 where
  pub id : String
  pub status : String
  pub pid : ℤ
  pub bundle : String
  pub annotations : Map String

pub record Unikontainer : Type 0 where
  pub state : State
  pub base_dir : String
  pub urunc_cfg : UruncConfig

-- What a signal does besides: the control socket whose removal is attempted, if any. Its failure is
-- only logged.
pub record Signalled : Type 0 where
  pub result : Result VmmError (Unit {0})
  pub calls : List KillCall
  pub socket_removed : Option String

-- The host: exec.LookPath, the architecture, the answers of kill(2) and the clock.
module _ (look_path : String → Option String) (goarch : String) (answers : Answers)
    (clock : ℕ → ℕ) where
  abbrev vmm_of : Unikontainer → Result VmmError Vmm
  vmm_of u =
      new_vmm look_path goarch (get u.state.annotations annot_hypervisor) u.urunc_cfg.monitors

  abbrev pub socket_of : Unikontainer → String
  socket_of u = (monitor_of u.urunc_cfg (get u.state.annotations annot_hypervisor)).socket_path

  -- `(*Unikontainer).Signal`
  unfoldable pub signal : Unikontainer → ℤ → Signalled
  signal u sig =
      if nonpositive u.state.pid
      then record { result = ok tt; calls = []; socket_removed = none }
      else elim (vmm_of u) [
        | err e ↦ record { result = err e; calls = []; socket_removed = none }
        | ok vmm ↦
            let (r, calls) = Hypervisors.signal answers clock vmm.kind u.state.pid sig in
            record {
              result = r;
              calls = calls;
              socket_removed = elim r [
                | err e ↦ none
                | ok _ ↦
                    if (is_signal sig sigkill || is_signal sig sigterm)
                      && not (socket_of u == "")
                      && supports_control_socket vmm.kind
                    then some (socket_of u)
                    else none
              ];
            }
      ]

  -- `(*Unikontainer).Kill`
  unfoldable pub kill : Unikontainer → Traced (Result VmmError (Unit {0}))
  kill u = if nonpositive u.state.pid then (ok tt, []) else elim (vmm_of u) [
    | err e ↦ (err e, [])
    | ok vmm ↦ Hypervisors.stop answers clock vmm.kind u.state.pid
  ]

  -- `isRunning`; `hedge_state` is what the Hedge library says of the container.
  unfoldable pub is_running : (String → String) → Unikontainer → Bool × List KillCall
  is_running hedge_state u =
      if not (get u.state.annotations annot_hypervisor == "hedge")
      then if nonpositive u.state.pid
        then (false, [])
        else (elim (answers 0) [ none ↦ true | some _ ↦ false ], call u.state.pid (pos 0) ∷ [])
      else (hedge_state u.state.id == "running", [])
