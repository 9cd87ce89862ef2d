-- ===== src/Lifecycle/Oci.antt =====
-- The lifecycle of the OCI runtime specification, and that the steps of the processes follow it.
use urunc.Prelude.{
  String, ◌==◌, Bool, true, false, Option, none, some, ◌≡◌, refl, ap, sym, subst, ◌∙◌, ◌⊎◌, inl,
  inr, arith, if◌then◌else◌,
}
use urunc.Prelude.Map.{Map}
use urunc.Prelude.Strconv.{ℤ}
use urunc.Container.{State}
use urunc.Lifecycle.States.{
  save_container_state, initial_setup_state, create_state, set_running_state,
}
use urunc.Lifecycle.{
  CreatePhase, begun, set_up, spawned, pid_saved, hooks_run, acked, create_failed, StartPhase, idle,
  start_failed, World, initial, CreateStep, sets_up, spawns, saves_pid, runs_hooks, acks,
  create_fails, ReexecStep, receives_ack, loads, prepares, listens, receives_start, connects,
  builds, reports, executes, exec_fails, reexec_fails, StartStep, start_loads, start_listens,
  start_connects, sends_start, receives_success, saves_running, finishes, start_fails, Step,
  create_step, reexec_step, start_step, Reach, here, next,
}

pub data OciStatus : Type 0 where
  absent : OciStatus
  creating : OciStatus
  created : ℤ → OciStatus
  running : ℤ → OciStatus

-- The status that state.json tells, with the pid from when it is created.
abbrev pub oci_status : Option State → OciStatus
oci_status none = absent
oci_status (some s) =
    if s.status == "creating"
    then creating
    else if s.status == "created"
    then created s.pid
    else running s.pid

-- The steps of a container whose process has the pid `pid`.
pub data OciStep (pid : ℤ) : OciStatus → OciStatus → Type 0 where
  create_begins : OciStep pid absent creating
  create_ends : OciStep pid creating (created pid)
  starts : OciStep pid (created pid) (running pid)

abbrev unstarted : StartPhase → Bool
unstarted idle = true
unstarted start_failed = true
unstarted _ = false

-- What state.json holds as create goes on.
abbrev Held : CreatePhase → ℤ → OciStatus → Type 0
Held begun pid o = o ≡ absent
Held set_up pid o = o ≡ creating
Held spawned pid o = o ≡ creating
Held pid_saved pid o = o ≡ created pid
Held hooks_run pid o = o ≡ created pid
Held acked pid o = (o ≡ created pid) ⊎ (o ≡ running pid)
Held create_failed pid o = Unit

abbrev Owns : Option State → ℤ → Type 0
Owns none pid = Unit
Owns (some s) pid = s.pid ≡ pid

record Kept (w : World) : Type 0 where
  pub late : (w.create_phase ≡ acked) ⊎ ((unstarted w.start_phase ≡ true) × (w.started ≡ none))
  pub held : Held w.create_phase w.reexec_pid (oci_status w.saved)
  pub own : Owns w.started w.reexec_pid

module _ (annotations : Map String) where
  saved_statuses :
      (s : State) (pid : ℤ)
      → (oci_status (some (save_container_state annotations (initial_setup_state s))) ≡ creating)
        × (oci_status (some (save_container_state annotations (create_state s pid))) ≡ created pid)
        × (oci_status (some (save_container_state annotations (set_running_state s)))
            ≡ running s.pid)
  unfolding save_container_state
  saved_statuses s pid = (refl, refl, refl)

  CreateStep-Kept : {w w' : World} → CreateStep annotations w w' → Kept w → Kept w'
  CreateStep-Kept (sets_up w s p e) i = ground (arith, saved_statuses w.created w.reexec_pid)
  CreateStep-Kept (spawns w pid p r) i = ground arith
  CreateStep-Kept (saves_pid w s p e) i = ground (arith, saved_statuses w.created w.reexec_pid)
  CreateStep-Kept (runs_hooks w p) i = ground arith
  CreateStep-Kept (acks w p) i = ground arith
  CreateStep-Kept (create_fails w p) i = ground arith

ReexecStep-Kept : {w w' : World} → ReexecStep w w' → Kept w → Kept w'
ReexecStep-Kept (receives_ack w p h) i = ground arith
ReexecStep-Kept (loads w s p h) i = ground arith
ReexecStep-Kept (prepares w p) i = ground arith
ReexecStep-Kept (listens w p) i = ground arith
ReexecStep-Kept (receives_start w p h) i = ground arith
ReexecStep-Kept (connects w p h) i = ground arith
ReexecStep-Kept (builds w p) i = ground arith
ReexecStep-Kept (reports w p) i = ground arith
ReexecStep-Kept (executes w p) i = ground arith
ReexecStep-Kept (exec_fails w p) i = ground arith
ReexecStep-Kept (reexec_fails w p q) i = ground arith

module _ (annotations : Map String) where
  StartStep-Kept : {w w' : World} → StartStep annotations true w w' → Kept w → Kept w'
  StartStep-Kept (start_loads w s p e o) i = ground arith
  StartStep-Kept (start_listens w p) i = ground arith
  StartStep-Kept (start_connects w p e) i = ground arith
  StartStep-Kept (sends_start w p) i = ground arith
  StartStep-Kept (receives_success w p e) i = ground arith
  StartStep-Kept (saves_running w s r p e q) i =
      ground (arith, saved_statuses annotations s w.reexec_pid)
  StartStep-Kept (finishes w p) i = ground arith
  StartStep-Kept (start_fails w p) i = ground arith

module _ (annotations : Map String) where
  Step-Kept : {w w' : World} → Step annotations true w w' → Kept w → Kept w'
  Step-Kept (create_step s) i = CreateStep-Kept annotations s i
  Step-Kept (reexec_step s) i = ReexecStep-Kept s i
  Step-Kept (start_step s) i = StartStep-Kept annotations s i

  Reach-Kept : {state : State} {w : World} → Reach annotations true (initial state) w → Kept w
  Reach-Kept here = record { late = ground arith; held = refl; own = tt }
  Reach-Kept (next r s) = Step-Kept s (Reach-Kept r)

  abbrev Follows : World → World → Type 0
  Follows w w' =
      (oci_status w'.saved ≡ oci_status w.saved)
      ⊎ OciStep w.reexec_pid (oci_status w.saved) (oci_status w'.saved)

  moves : {pid : ℤ} {a b a' b' : OciStatus} → a ≡ a' → b ≡ b' → OciStep pid a' b' → OciStep pid a b
  moves {pid} {a} {b} {a'} {b'} e f s =
      subst (λ x. OciStep pid x b) (sym e) (subst (λ y. OciStep pid a' y) (sym f) s)

  now :
      {w : World} {c : CreatePhase}
      → w.create_phase ≡ c
      → Kept w
      → Held c w.reexec_pid (oci_status w.saved)
  now {w} p i = subst (λ c. Held c w.reexec_pid (oci_status w.saved)) p i.held

  CreateStep-Follows : {w w' : World} → CreateStep annotations w w' → Kept w → Follows w w'
  CreateStep-Follows (sets_up w s p e) i = inr (
      moves (now p i)
        (ap (λ t. oci_status (some t)) e ∙ (saved_statuses annotations w.created w.reexec_pid).0)
        create_begins)
  CreateStep-Follows (spawns w pid p r) i = inl refl
  CreateStep-Follows (saves_pid w s p e) i = inr (
      moves (now p i)
        (ap (λ t. oci_status (some t)) e ∙ (saved_statuses annotations w.created w.reexec_pid).1)
        create_ends)
  CreateStep-Follows (runs_hooks w p) i = inl refl
  CreateStep-Follows (acks w p) i = inl refl
  CreateStep-Follows (create_fails w p) i = inl refl

  ReexecStep-Follows : {w w' : World} → ReexecStep w w' → Follows w w'
  ReexecStep-Follows (receives_ack w p h) = inl refl
  ReexecStep-Follows (loads w s p h) = inl refl
  ReexecStep-Follows (prepares w p) = inl refl
  ReexecStep-Follows (listens w p) = inl refl
  ReexecStep-Follows (receives_start w p h) = inl refl
  ReexecStep-Follows (connects w p h) = inl refl
  ReexecStep-Follows (builds w p) = inl refl
  ReexecStep-Follows (reports w p) = inl refl
  ReexecStep-Follows (executes w p) = inl refl
  ReexecStep-Follows (exec_fails w p) = inl refl
  ReexecStep-Follows (reexec_fails w p q) = inl refl

  StartStep-Follows : {w w' : World} → StartStep annotations true w w' → Kept w → Follows w w'
  StartStep-Follows (start_loads w s p e o) i = inl refl
  StartStep-Follows (start_listens w p) i = inl refl
  StartStep-Follows (start_connects w p e) i = inl refl
  StartStep-Follows (sends_start w p) i = inl refl
  StartStep-Follows (receives_success w p e) i = inl refl
  StartStep-Follows (saves_running w s r p e q) i =
      let acked' : w.create_phase ≡ acked = ground arith in
      let own : s.pid ≡ w.reexec_pid = subst (λ o. Owns o w.reexec_pid) e i.own in
      let status : oci_status (some r) ≡ running w.reexec_pid =
        ap (λ t. oci_status (some t)) q
        ∙ (saved_statuses annotations s w.reexec_pid).2
        ∙ ap running own in
      elim (now acked' i) [ inl h ↦ inr (moves h status starts) | inr h ↦ inl (status ∙ sym h) ]
  StartStep-Follows (finishes w p) i = inl refl
  StartStep-Follows (start_fails w p) i = inl refl

  Step-Follows : {w w' : World} → Step annotations true w w' → Kept w → Follows w w'
  Step-Follows (create_step s) i = CreateStep-Follows s i
  Step-Follows (reexec_step s) i = ReexecStep-Follows s
  Step-Follows (start_step s) i = StartStep-Follows s i

  -- When start begins after create has returned, each step of the processes either leaves the
  -- status and the pid of state.json as they are or makes one step of the OCI lifecycle: from
  -- absent to creating, from creating to created with the pid of the process that create has
  -- spawned, or from created to running, both with that pid.
  pub Reach-Follows :
      (state : State) (w w' : World)
      → Reach annotations true (initial state) w
      → Step annotations true w w'
      → (oci_status w'.saved ≡ oci_status w.saved)
        ⊎ OciStep w.reexec_pid (oci_status w.saved) (oci_status w'.saved)
  Reach-Follows state w w' r s = Step-Follows s (Reach-Kept r)
