-- ===== src/Lifecycle/Reports.antt =====
-- What the process that becomes the monitor reports to start.
use urunc.Prelude.{String, ◌<>◌, Bool, true, false, ok, ◌≡◌, refl, ap, subst, ◌⊎◌, inl, inr, arith}
use urunc.Prelude.Map.{Map}
use urunc.Lifecycle.Ipc.{await_message, start_success, start_err}
use urunc.Lifecycle.{
  ReexecPhase, reported, executed, error_sent, reexec_failed, StartPhase, success_received,
  running_saved, start_done, World, CreateStep, sets_up, spawns, saves_pid, runs_hooks, acks,
  create_fails, ReexecStep, receives_ack, loads, prepares, listens, receives_start, connects,
  builds, reports, executes, exec_fails, reexec_fails, StartStep, start_loads, start_listens,
  start_connects, sends_start, receives_success, saves_running, finishes, start_fails,
}

abbrev pub both : String
both = "RX_SUCCESSRX_ERROR"

-- What the process has reported to start.
abbrev pub Reported : ReexecPhase → String → Type 0
Reported reported s = s ≡ start_success
Reported executed s = s ≡ start_success
Reported error_sent s = (s ≡ start_err) ⊎ (s ≡ both)
Reported reexec_failed s = (s ≡ "") ⊎ (s ≡ start_success) ⊎ (s ≡ start_err) ⊎ (s ≡ both)
Reported _ s = s ≡ ""

abbrev pub past_success : StartPhase → Bool
past_success success_received = true
past_success running_saved = true
past_success start_done = true
past_success _ = false

abbrev pub Succeeded : String → Type 0
Succeeded s = (s ≡ start_success) ⊎ (s ≡ both)

pub record ReportOrder (w : World) : Type 0 where
  pub report : Reported w.reexec_phase w.urunc_sock
  pub succeeded : past_success w.start_phase ≡ true → Succeeded w.urunc_sock

abbrev Any : String → Type 0
Any s = (s ≡ "") ⊎ (s ≡ start_success) ⊎ (s ≡ start_err) ⊎ (s ≡ both)

Reported-Any : (r : ReexecPhase) (s : String) → Reported r s → Any s
Reported-Any r s h = ground arith

no_success :
    (¬ (await_message "" start_success ≡ ok tt))
    × (¬ (await_message start_err start_success ≡ ok tt))
unfolding await_message
no_success = (λ h. cc, λ h. cc)

await_success : (s : String) → Any s → await_message s start_success ≡ ok tt → Succeeded s
await_success s (inl e) h =
    absurd (no_success.0 (subst (λ t. await_message t start_success ≡ ok tt) e h))
await_success s (inr (inl e)) h = inl e
await_success s (inr (inr (inl e))) h =
    absurd (no_success.1 (subst (λ t. await_message t start_success ≡ ok tt) e h))
await_success s (inr (inr (inr e))) h = inr e

module _ (annotations : Map String) where
  pub CreateStep-ReportOrder :
      {w w' : World} → CreateStep annotations w w' → ReportOrder w → ReportOrder w'
  CreateStep-ReportOrder (sets_up w s p e) i = ground arith
  CreateStep-ReportOrder (spawns w pid p r) i = ground arith
  CreateStep-ReportOrder (saves_pid w s p e) i = ground arith
  CreateStep-ReportOrder (runs_hooks w p) i = ground arith
  CreateStep-ReportOrder (acks w p) i = ground arith
  CreateStep-ReportOrder (create_fails w p) i = ground arith

pub then_both : start_success <> start_err ≡ both
then_both = refl

pub nothing : (s : String) → s ≡ "" → Succeeded s → ⊥
nothing s e (inl h) = cc
nothing s e (inr h) = cc

pub ReexecStep-ReportOrder : {w w' : World} → ReexecStep w w' → ReportOrder w → ReportOrder w'
ReexecStep-ReportOrder (receives_ack w p h) i = ground arith
ReexecStep-ReportOrder (loads w s p h) i = ground arith
ReexecStep-ReportOrder (prepares w p) i = ground arith
ReexecStep-ReportOrder (listens w p) i = ground arith
ReexecStep-ReportOrder (receives_start w p h) i = ground arith
ReexecStep-ReportOrder (connects w p h) i = ground arith
ReexecStep-ReportOrder (builds w p) i = ground arith
ReexecStep-ReportOrder (reports w p) i =
    let empty : w.urunc_sock ≡ "" = subst (λ r. Reported r w.urunc_sock) p i.report in
    ground (arith, ap (λ s. s <> start_success) empty, nothing w.urunc_sock empty)
ReexecStep-ReportOrder (executes w p) i = ground arith
ReexecStep-ReportOrder (exec_fails w (inl p)) i =
    let empty : w.urunc_sock ≡ "" = subst (λ r. Reported r w.urunc_sock) p i.report in
    ground (arith, ap (λ s. s <> start_err) empty, nothing w.urunc_sock empty)
ReexecStep-ReportOrder (exec_fails w (inr (inl p))) i =
    let empty : w.urunc_sock ≡ "" = subst (λ r. Reported r w.urunc_sock) p i.report in
    ground (arith, ap (λ s. s <> start_err) empty, nothing w.urunc_sock empty)
ReexecStep-ReportOrder (exec_fails w (inr (inr p))) i =
    let success : w.urunc_sock ≡ start_success = subst (λ r. Reported r w.urunc_sock) p i.report in
    ground (arith, ap (λ s. s <> start_err) success)
ReexecStep-ReportOrder (reexec_fails w p q) i = ground arith

module _ (annotations : Map String) (orderly : Bool) where
  pub StartStep-ReportOrder :
      {w w' : World} → StartStep annotations orderly w w' → ReportOrder w → ReportOrder w'
  StartStep-ReportOrder (start_loads w s p e o) i = ground arith
  StartStep-ReportOrder (start_listens w p) i = ground arith
  StartStep-ReportOrder (start_connects w p e) i = ground arith
  StartStep-ReportOrder (sends_start w p) i = ground arith
  StartStep-ReportOrder (receives_success w p e) i =
      ground
        (arith, await_success w.urunc_sock (Reported-Any w.reexec_phase w.urunc_sock i.report) e)
  StartStep-ReportOrder (saves_running w s r p e q) i = ground arith
  StartStep-ReportOrder (finishes w p) i = ground arith
  StartStep-ReportOrder (start_fails w p) i = ground arith
