-- ===== src/Lifecycle/Requests.antt =====
-- The acknowledgement of create and the request of start: what the pipe and the socket hold, and who
-- has gone on after reading them.
use urunc.Prelude.{
  String, ◌<>◌, Bool, true, false, ok, ◌≡◌, refl, ap, ◌∙◌, subst, ◌⊎◌, inl, inr, arith,
}
use urunc.Prelude.Map.{Map}
use urunc.Lifecycle.Ipc.{await_message, ack_reexec, start_execve}
use urunc.Lifecycle.{
  CreatePhase, begun, set_up, spawned, pid_saved, hooks_run, acked, create_failed, ReexecPhase,
  not_started, awaiting_ack, start_received, connected, ready, reported, executed, error_sent,
  reexec_failed, StartPhase, idle, start_loaded, start_listening, start_connected, start_sent,
  success_received, running_saved, start_done, World, CreateStep, sets_up, spawns, saves_pid,
  runs_hooks, acks, create_fails, ReexecStep, receives_ack, loads, prepares, listens,
  receives_start, connects, builds, reports, executes, exec_fails, reexec_fails, StartStep,
  start_loads, start_listens, start_connects, sends_start, receives_success, saves_running,
  finishes, start_fails,
}

-- What create has written to the init pipe.
abbrev pub ack_of : CreatePhase → String
ack_of acked = ack_reexec
ack_of _ = ""

abbrev pub past_ack : ReexecPhase → Bool
past_ack not_started = false
past_ack awaiting_ack = false
past_ack reexec_failed = false
past_ack _ = true

pub record AckOrder (w : World) : Type 0 where
  pub pipe : w.init_pipe ≡ ack_of w.create_phase
  pub past : past_ack w.reexec_phase ≡ true → w.create_phase ≡ acked
  pub listens_late : w.reexec_listens ≡ true → w.create_phase ≡ acked

await_ack : (p : CreatePhase) → await_message (ack_of p) ack_reexec ≡ ok tt → p ≡ acked
unfolding await_message
await_ack acked h = refl
await_ack begun h = cc
await_ack set_up h = cc
await_ack spawned h = cc
await_ack pid_saved h = cc
await_ack hooks_run h = cc
await_ack create_failed h = cc

module _ (annotations : Map String) where
  pub CreateStep-AckOrder : {w w' : World} → CreateStep annotations w w' → AckOrder w → AckOrder w'
  CreateStep-AckOrder (sets_up w s p e) i = ground arith
  CreateStep-AckOrder (spawns w pid p r) i = ground arith
  CreateStep-AckOrder (saves_pid w s p e) i = ground arith
  CreateStep-AckOrder (runs_hooks w p) i = ground arith
  CreateStep-AckOrder (acks w p) i =
      ground (arith, ap (λ s. s <> ack_reexec) (i.pipe ∙ ap ack_of p))
  CreateStep-AckOrder (create_fails w p) i = ground arith

pub ReexecStep-AckOrder : {w w' : World} → ReexecStep w w' → AckOrder w → AckOrder w'
ReexecStep-AckOrder (receives_ack w p h) i = ground (arith, await_ack w.create_phase)
ReexecStep-AckOrder (loads w s p h) i = ground arith
ReexecStep-AckOrder (prepares w p) i = ground arith
ReexecStep-AckOrder (listens w p) i = ground arith
ReexecStep-AckOrder (receives_start w p h) i = ground arith
ReexecStep-AckOrder (connects w p h) i = ground arith
ReexecStep-AckOrder (builds w p) i = ground arith
ReexecStep-AckOrder (reports w p) i = ground arith
ReexecStep-AckOrder (executes w p) i = ground arith
ReexecStep-AckOrder (exec_fails w p) i = ground arith
ReexecStep-AckOrder (reexec_fails w p q) i = ground arith

module _ (annotations : Map String) (orderly : Bool) where
  pub StartStep-AckOrder :
      {w w' : World} → StartStep annotations orderly w w' → AckOrder w → AckOrder w'
  StartStep-AckOrder (start_loads w s p e o) i = ground arith
  StartStep-AckOrder (start_listens w p) i = ground arith
  StartStep-AckOrder (start_connects w p e) i = ground arith
  StartStep-AckOrder (sends_start w p) i = ground arith
  StartStep-AckOrder (receives_success w p e) i = ground arith
  StartStep-AckOrder (saves_running w s r p e q) i = ground arith
  StartStep-AckOrder (finishes w p) i = ground arith
  StartStep-AckOrder (start_fails w p) i = ground arith

-- What start has written to the socket of the other process.
abbrev pub before_send : StartPhase → Bool
before_send idle = true
before_send start_loaded = true
before_send start_listening = true
before_send start_connected = true
before_send _ = false

abbrev pub past_connect : StartPhase → Bool
past_connect start_connected = true
past_connect start_sent = true
past_connect success_received = true
past_connect running_saved = true
past_connect start_done = true
past_connect _ = false

abbrev pub past_start : ReexecPhase → Bool
past_start start_received = true
past_start connected = true
past_start ready = true
past_start reported = true
past_start executed = true
past_start error_sent = true
past_start _ = false

pub record StartOrder (w : World) : Type 0 where
  pub sock : (w.reexec_sock ≡ "") ⊎ ((w.reexec_sock ≡ start_execve) × (w.create_phase ≡ acked))
  pub unsent : before_send w.start_phase ≡ true → w.reexec_sock ≡ ""
  pub connects_late : past_connect w.start_phase ≡ true → w.create_phase ≡ acked
  pub started : past_start w.reexec_phase ≡ true → w.reexec_sock ≡ start_execve
  pub told : (w.urunc_sock ≡ "") ⊎ (w.reexec_sock ≡ start_execve)

no_start : ¬ (await_message "" start_execve ≡ ok tt)
unfolding await_message
no_start h = cc

await_start :
    (s : String)
    → (s ≡ "") ⊎ (s ≡ start_execve)
    → await_message s start_execve ≡ ok tt
    → s ≡ start_execve
unfolding await_message
await_start s (inl e) h = absurd (no_start (subst (λ t. await_message t start_execve ≡ ok tt) e h))
await_start s (inr e) h = e

module _ (annotations : Map String) where
  pub CreateStep-StartOrder :
      {w w' : World} → CreateStep annotations w w' → StartOrder w → StartOrder w'
  CreateStep-StartOrder (sets_up w s p e) i = ground arith
  CreateStep-StartOrder (spawns w pid p r) i = ground arith
  CreateStep-StartOrder (saves_pid w s p e) i = ground arith
  CreateStep-StartOrder (runs_hooks w p) i = ground arith
  CreateStep-StartOrder (acks w p) i = ground arith
  CreateStep-StartOrder (create_fails w p) i = ground arith

pub ReexecStep-StartOrder : {w w' : World} → ReexecStep w w' → StartOrder w → StartOrder w'
ReexecStep-StartOrder (receives_ack w p h) i = ground arith
ReexecStep-StartOrder (loads w s p h) i = ground arith
ReexecStep-StartOrder (prepares w p) i = ground arith
ReexecStep-StartOrder (listens w p) i = ground arith
ReexecStep-StartOrder (receives_start w p h) i = ground (arith, await_start w.reexec_sock)
ReexecStep-StartOrder (connects w p h) i = ground arith
ReexecStep-StartOrder (builds w p) i = ground arith
ReexecStep-StartOrder (reports w p) i = ground arith
ReexecStep-StartOrder (executes w p) i = ground arith
ReexecStep-StartOrder (exec_fails w p) i = ground arith
ReexecStep-StartOrder (reexec_fails w p q) i = ground arith

module _ (annotations : Map String) (orderly : Bool) where
  pub StartStep-StartOrder :
      {w w' : World}
      → StartStep annotations orderly w w'
      → AckOrder w
      → StartOrder w
      → StartOrder w'
  StartStep-StartOrder (start_loads w s p e o) a i = ground arith
  StartStep-StartOrder (start_listens w p) a i = ground arith
  StartStep-StartOrder (start_connects w p e) a i = ground arith
  StartStep-StartOrder (sends_start w p) a i =
      ground (arith, ap (λ s. s <> start_execve) (i.unsent (ap before_send p)))
  StartStep-StartOrder (receives_success w p e) a i = ground arith
  StartStep-StartOrder (saves_running w s r p e q) a i = ground arith
  StartStep-StartOrder (finishes w p) a i = ground arith
  StartStep-StartOrder (start_fails w p) a i = ground arith
