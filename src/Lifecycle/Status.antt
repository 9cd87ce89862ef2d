-- ===== src/Lifecycle/Status.antt =====
-- A container is only called running after the process that becomes the monitor has said so.
use urunc.Prelude.{
  String, ◌<>◌, ◌==◌, Bool, Option, none, some, ◌≡◌, refl, ap, sym, subst, ◌∙◌, ◌⊎◌, inl, inr,
  if◌then◌else◌,
}
use urunc.Prelude.Map.{Map}
use urunc.Container.{State}
use urunc.Lifecycle.Ipc.{ack_reexec, start_execve, start_success, start_err}
use urunc.Lifecycle.States.{save_container_state}
use urunc.Lifecycle.Reports.{Succeeded, nothing, Reported, past_success}
use urunc.Lifecycle.Requests.{ack_of}
use urunc.Lifecycle.Order.{InOrder, Reach-InOrder}
use urunc.Lifecycle.{
  acked, World, initial, CreateStep, sets_up, spawns, saves_pid, runs_hooks, acks, create_fails,
  ReexecStep, receives_ack, loads, prepares, listens, receives_start, connects, builds, reports,
  executes, exec_fails, reexec_fails, StartStep, start_loads, start_listens, start_connects,
  sends_start, receives_success, saves_running, finishes, start_fails, Step, create_step,
  reexec_step, start_step, Reach, here, next,
}

abbrev IsRunning : Option State → Type 0
IsRunning none = ⊥
IsRunning (some s) = s.status ≡ "running"

not_running : (s : String) → (s ≡ "creating") ⊎ (s ≡ "created") → s ≡ "running" → ⊥
not_running s (inl e) h = subst (λ t. if t == "creating" then Unit {0} else ⊥) (sym e ∙ h) tt
not_running s (inr e) h = subst (λ t. if t == "created" then Unit {0} else ⊥) (sym e ∙ h) tt

saved_status :
    (annotations : Map String) (s t : State)
    → s ≡ save_container_state annotations t
    → s.status ≡ t.status
unfolding save_container_state
saved_status annotations s t e = ap (λ x. x.status) e

-- A success that is reported stays in the socket.
ReexecStep-Succeeded :
    {w w' : World} → ReexecStep w w' → InOrder w → Succeeded w.urunc_sock → Succeeded w'.urunc_sock
ReexecStep-Succeeded (receives_ack w p h) i k = k
ReexecStep-Succeeded (loads w s p h) i k = k
ReexecStep-Succeeded (prepares w p) i k = k
ReexecStep-Succeeded (listens w p) i k = k
ReexecStep-Succeeded (receives_start w p h) i k = k
ReexecStep-Succeeded (connects w p h) i k = k
ReexecStep-Succeeded (builds w p) i k = k
ReexecStep-Succeeded (reports w p) i k =
    absurd (nothing w.urunc_sock (subst (λ r. Reported r w.urunc_sock) p i.report.report) k)
ReexecStep-Succeeded (executes w p) i k = k
ReexecStep-Succeeded (exec_fails w (inl p)) i k =
    absurd (nothing w.urunc_sock (subst (λ r. Reported r w.urunc_sock) p i.report.report) k)
ReexecStep-Succeeded (exec_fails w (inr (inl p))) i k =
    absurd (nothing w.urunc_sock (subst (λ r. Reported r w.urunc_sock) p i.report.report) k)
ReexecStep-Succeeded (exec_fails w (inr (inr p))) i k =
    inr (ap (λ s. s <> start_err) (subst (λ r. Reported r w.urunc_sock) p i.report.report))
ReexecStep-Succeeded (reexec_fails w p q) i k = k

unasked : start_execve ≡ "" → ⊥
unasked h = cc

-- Then start was asked for, after the acknowledgement of create.
asked :
    (w : World)
    → InOrder w
    → Succeeded w.urunc_sock
    → (w.reexec_sock ≡ start_execve) × (w.create_phase ≡ acked)
asked w i k = elim i.start.told [
  | inl e ↦ absurd (nothing w.urunc_sock e k)
  | inr e ↦ elim i.start.sock [ inl f ↦ absurd (unasked (sym e ∙ f)) | inr f ↦ f ]
]

abbrev Told : World → Type 0
Told w = IsRunning w.saved → Succeeded w.urunc_sock

module _ (annotations : Map String) (orderly : Bool) where
  CreateStep-Told : {w w' : World} → CreateStep annotations w w' → Told w → Told w'
  CreateStep-Told (sets_up w s p e) i =
      λ h. absurd (not_running s.status (inl (saved_status annotations s _ e)) h)
  CreateStep-Told (spawns w pid p r) i = i
  CreateStep-Told (saves_pid w s p e) i =
      λ h. absurd (not_running s.status (inr (saved_status annotations s _ e)) h)
  CreateStep-Told (runs_hooks w p) i = i
  CreateStep-Told (acks w p) i = i
  CreateStep-Told (create_fails w p) i = i

  ReexecStep-saved : {w w' : World} → ReexecStep w w' → w'.saved ≡ w.saved
  ReexecStep-saved (receives_ack w p h) = refl
  ReexecStep-saved (loads w s p h) = refl
  ReexecStep-saved (prepares w p) = refl
  ReexecStep-saved (listens w p) = refl
  ReexecStep-saved (receives_start w p h) = refl
  ReexecStep-saved (connects w p h) = refl
  ReexecStep-saved (builds w p) = refl
  ReexecStep-saved (reports w p) = refl
  ReexecStep-saved (executes w p) = refl
  ReexecStep-saved (exec_fails w p) = refl
  ReexecStep-saved (reexec_fails w p q) = refl

  StartStep-Told :
      {w w' : World} → StartStep annotations orderly w w' → InOrder w → Told w → Told w'
  StartStep-Told (start_loads w s p e o) a i = i
  StartStep-Told (start_listens w p) a i = i
  StartStep-Told (start_connects w p e) a i = i
  StartStep-Told (sends_start w p) a i = i
  StartStep-Told (receives_success w p e) a i = i
  StartStep-Told (saves_running w s r p e q) a i = λ h. a.report.succeeded (ap past_success p)
  StartStep-Told (finishes w p) a i = i
  StartStep-Told (start_fails w p) a i = i

  Step-Told : {w w' : World} → Step annotations orderly w w' → InOrder w → Told w → Told w'
  Step-Told (create_step s) a i = CreateStep-Told s i
  Step-Told (reexec_step s) a i =
      λ h. ReexecStep-Succeeded s a (i (subst IsRunning (ReexecStep-saved s) h))
  Step-Told (start_step s) a i = StartStep-Told s a i

  Reach-Told : {state : State} {w : World} → Reach annotations orderly (initial state) w → Told w
  Reach-Told here = λ h. absurd h
  Reach-Told (next r s) = Step-Told s (Reach-InOrder annotations orderly r) (Reach-Told r)

  -- In every interleaving of create, the process that it starts and start, from a new container:
  -- when state.json has the status running, create has acknowledged, start has asked for the
  -- execution, and the process has reported success, after which at most an error has followed.
  pub Reach-running :
      (state s : State) (w : World)
      → Reach annotations orderly (initial state) w
      → w.saved ≡ some s
      → s.status ≡ "running"
      → (w.init_pipe ≡ ack_reexec)
        × (w.reexec_sock ≡ start_execve)
        × ((w.urunc_sock ≡ start_success) ⊎ (w.urunc_sock ≡ start_success <> start_err))
  Reach-running state s w r e running =
      let a = Reach-InOrder annotations orderly r in
      let told : Succeeded w.urunc_sock = Reach-Told r (subst IsRunning (sym e) running) in
      let k = asked w a told in (a.ack.pipe ∙ ap ack_of k.1, k.0, told)
