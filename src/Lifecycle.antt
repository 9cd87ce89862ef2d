-- ===== src/Lifecycle.antt =====
-- The processes of a container's life: `urunc create` and the process it starts again inside the
-- container's namespaces (cmd/urunc/create.go), and `urunc start` (cmd/urunc/start.go). They share
-- state.json, the init pipe and the two sockets of pkg/unikontainers/ipc.go.
pub mod Ipc
pub mod States
pub mod Requests
pub mod Reports
pub mod Order
pub mod Status
pub mod Oci
use urunc.Prelude.{String, ◌<>◌, Bool, true, false, Option, none, some, ok, ◌≡◌, ◌≢◌, ◌⊎◌}
use urunc.Prelude.Map.{Map}
use urunc.Prelude.Strconv.{ℤ, pos}
use urunc.Container.{State}
use urunc.Lifecycle.Ipc.{await_message, ack_reexec, start_execve, start_success, start_err}
use urunc.Lifecycle.States.{
  initial_setup_state, create_state, save_container_state, set_running_state,
}

-- How far createUnikontainer has come.
pub data CreatePhase : Type 0 where
  begun : CreatePhase
  set_up : CreatePhase
  spawned : CreatePhase
  pid_saved : CreatePhase
  hooks_run : CreatePhase
  acked : CreatePhase
  create_failed : CreatePhase

-- How far reexecUnikontainer has come. `ready` is Exec after the command of the monitor is built, and
-- `reported` after it has sent StartSuccess.
pub data ReexecPhase : Type 0 where
  not_started : ReexecPhase
  awaiting_ack : ReexecPhase
  ack_received : ReexecPhase
  loaded : ReexecPhase
  prepared : ReexecPhase
  listening : ReexecPhase
  start_received : ReexecPhase
  connected : ReexecPhase
  ready : ReexecPhase
  reported : ReexecPhase
  executed : ReexecPhase
  error_sent : ReexecPhase
  reexec_failed : ReexecPhase

-- How far startUnikontainer has come.
pub data StartPhase : Type 0 where
  idle : StartPhase
  start_loaded : StartPhase
  start_listening : StartPhase
  start_connected : StartPhase
  start_sent : StartPhase
  success_received : StartPhase
  running_saved : StartPhase
  start_done : StartPhase
  start_failed : StartPhase

-- One process of each kind, with its copy of the state, and what they share. A pipe or a socket holds
-- all that was written to it: each has one reader, which reads once.
pub record World : Type 0 where
  pub create_phase : CreatePhase
  pub reexec_phase : ReexecPhase
  pub start_phase : StartPhase
  pub created : State
  pub reexec_pid : ℤ
  pub reexec_state : Option State
  pub started : Option State
  pub saved : Option State
  pub init_pipe : String
  pub reexec_listens : Bool
  pub reexec_sock : String
  pub urunc_listens : Bool
  pub urunc_sock : String

-- Before the first step of createUnikontainer; `state` is what New has made.
abbrev pub initial : State → World
initial state = record {
  create_phase = begun;
  reexec_phase = not_started;
  start_phase = idle;
  created = state;
  reexec_pid = pos 0;
  reexec_state = none;
  started = none;
  saved = none;
  init_pipe = "";
  reexec_listens = false;
  reexec_sock = "";
  urunc_listens = false;
  urunc_sock = "";
}

-- `createUnikontainer` between the points where it shares something with another process; all that can
-- go wrong on the way (the terminal, the sockets, nsenter, the hooks) is `create_fails`. It takes the
-- annotations of the spec, which each save adds to the state.
pub data CreateStep (annotations : Map String) : World → World → Type 0 where
  -- InitialSetup, up to the saving of the state.
  sets_up :
      (w : World) (s : State)
      → w.create_phase ≡ begun
      → s ≡ save_container_state annotations (initial_setup_state w.created)
      → CreateStep annotations w (record w { create_phase = set_up; created = s; saved = some s })
  -- The process is started, has gone through nsenter, and its pid is known.
  spawns :
      (w : World) (pid : ℤ)
      → w.create_phase ≡ set_up
      → w.reexec_phase ≡ not_started
      → CreateStep annotations w
          (record w { create_phase = spawned; reexec_phase = awaiting_ack; reexec_pid = pid })
  -- (*Unikontainer).Create
  saves_pid :
      (w : World) (s : State)
      → w.create_phase ≡ spawned
      → s ≡ save_container_state annotations (create_state w.created w.reexec_pid)
      → CreateStep annotations w
          (record w { create_phase = pid_saved; created = s; saved = some s })
  runs_hooks :
      (w : World)
      → w.create_phase ≡ pid_saved
      → CreateStep annotations w (record w { create_phase = hooks_run })
  acks :
      (w : World)
      → w.create_phase ≡ hooks_run
      → CreateStep annotations w
          (record w { create_phase = acked; init_pipe = w.init_pipe <> ack_reexec })
  create_fails :
      (w : World)
      → w.create_phase ≢ acked
      → CreateStep annotations w (record w { create_phase = create_failed })

-- `reexecUnikontainer`, and `(*Unikontainer).Exec` in it.
pub data ReexecStep : World → World → Type 0 where
  receives_ack :
      (w : World)
      → w.reexec_phase ≡ awaiting_ack
      → await_message w.init_pipe ack_reexec ≡ ok tt
      → ReexecStep w (record w { reexec_phase = ack_received })
  -- getUnikontainer
  loads :
      (w : World) (s : State)
      → w.reexec_phase ≡ ack_received
      → w.saved ≡ some s
      → ReexecStep w (record w { reexec_phase = loaded; reexec_state = some s })
  -- The CreateContainer hooks.
  prepares :
      (w : World) → w.reexec_phase ≡ loaded → ReexecStep w (record w { reexec_phase = prepared })
  listens :
      (w : World)
      → w.reexec_phase ≡ prepared
      → ReexecStep w (record w { reexec_phase = listening; reexec_listens = true })
  receives_start :
      (w : World)
      → w.reexec_phase ≡ listening
      → await_message w.reexec_sock start_execve ≡ ok tt
      → ReexecStep w (record w { reexec_phase = start_received; reexec_listens = false })
  connects :
      (w : World)
      → w.reexec_phase ≡ start_received
      → w.urunc_listens ≡ true
      → ReexecStep w (record w { reexec_phase = connected })
  -- Exec, as far as BuildExecCmd.
  builds :
      (w : World) → w.reexec_phase ≡ connected → ReexecStep w (record w { reexec_phase = ready })
  reports :
      (w : World)
      → w.reexec_phase ≡ ready
      → ReexecStep w
          (record w { reexec_phase = reported; urunc_sock = w.urunc_sock <> start_success })
  -- execve replaces the process by the monitor.
  executes :
      (w : World) → w.reexec_phase ≡ reported → ReexecStep w (record w { reexec_phase = executed })
  -- Exec returns an error, at any point of it.
  exec_fails :
      (w : World)
      → (w.reexec_phase ≡ connected) ⊎ (w.reexec_phase ≡ ready) ⊎ (w.reexec_phase ≡ reported)
      → ReexecStep w
          (record w { reexec_phase = error_sent; urunc_sock = w.urunc_sock <> start_err })
  -- An error before Exec, or one in sending the message about it.
  reexec_fails :
      (w : World)
      → w.reexec_phase ≢ not_started
      → w.reexec_phase ≢ executed
      → ReexecStep w (record w { reexec_phase = reexec_failed; reexec_listens = false })

-- `startUnikontainer` without libcontainer. In an orderly run it begins when create has returned.
pub data StartStep (annotations : Map String) (orderly : Bool) : World → World → Type 0 where
  start_loads :
      (w : World) (s : State)
      → w.start_phase ≡ idle
      → w.saved ≡ some s
      → (orderly ≡ true → w.create_phase ≡ acked)
      → StartStep annotations orderly w (record w { start_phase = start_loaded; started = some s })
  start_listens :
      (w : World)
      → w.start_phase ≡ start_loaded
      → StartStep annotations orderly w
          (record w { start_phase = start_listening; urunc_listens = true })
  start_connects :
      (w : World)
      → w.start_phase ≡ start_listening
      → w.reexec_listens ≡ true
      → StartStep annotations orderly w (record w { start_phase = start_connected })
  sends_start :
      (w : World)
      → w.start_phase ≡ start_connected
      → StartStep annotations orderly w
          (record w { start_phase = start_sent; reexec_sock = w.reexec_sock <> start_execve })
  receives_success :
      (w : World)
      → w.start_phase ≡ start_sent
      → await_message w.urunc_sock start_success ≡ ok tt
      → StartStep annotations orderly w (record w { start_phase = success_received })
  -- SetRunningState
  saves_running :
      (w : World) (s r : State)
      → w.start_phase ≡ success_received
      → w.started ≡ some s
      → r ≡ save_container_state annotations (set_running_state s)
      → StartStep annotations orderly w
          (record w { start_phase = running_saved; started = some r; saved = some r })
  -- The Poststart hooks; then the listener is destroyed.
  finishes :
      (w : World)
      → w.start_phase ≡ running_saved
      → StartStep annotations orderly w
          (record w { start_phase = start_done; urunc_listens = false })
  start_fails :
      (w : World)
      → w.start_phase ≢ start_done
      → StartStep annotations orderly w
          (record w { start_phase = start_failed; urunc_listens = false })

-- The processes take turns in any order.
pub data Step (annotations : Map String) (orderly : Bool) (w w' : World) : Type 0 where
  create_step : CreateStep annotations w w' → Step annotations orderly w w'
  reexec_step : ReexecStep w w' → Step annotations orderly w w'
  start_step : StartStep annotations orderly w w' → Step annotations orderly w w'

pub data Reach (annotations : Map String) (orderly : Bool) (v : World) : World → Type 0 where
  here : Reach annotations orderly v v
  next :
      {w w' : World}
      → Reach annotations orderly v w
      → Step annotations orderly w w'
      → Reach annotations orderly v w'
