-- ===== src/Lifecycle/Order.antt =====
-- What has been said over the pipe and the sockets when a process of the container's life goes on.
use urunc.Prelude.{String, Bool, ◌≡◌, ap, ◌∙◌, subst, arith}
use urunc.Prelude.Map.{Map}
use urunc.Container.{State}
use urunc.Lifecycle.Ipc.{ack_reexec, start_execve, start_success}
use urunc.Lifecycle.{
  acked, executed, World, initial, Step, create_step, reexec_step, start_step, Reach, here, next,
}
use urunc.Lifecycle.Requests.{
  AckOrder, StartOrder, ack_of, past_ack, past_start, CreateStep-AckOrder, ReexecStep-AckOrder,
  StartStep-AckOrder, CreateStep-StartOrder, ReexecStep-StartOrder, StartStep-StartOrder,
}
use urunc.Lifecycle.Reports.{
  ReportOrder, Reported, CreateStep-ReportOrder, ReexecStep-ReportOrder, StartStep-ReportOrder,
}

-- All that holds of the messages in a world that is reached.
pub record InOrder (w : World) : Type 0 where
  pub ack : AckOrder w
  pub start : StartOrder w
  pub report : ReportOrder w

module _ (annotations : Map String) (orderly : Bool) where
  pub Step-InOrder : {w w' : World} → Step annotations orderly w w' → InOrder w → InOrder w'
  Step-InOrder (create_step s) i = record {
    ack = CreateStep-AckOrder annotations s i.ack;
    start = CreateStep-StartOrder annotations s i.start;
    report = CreateStep-ReportOrder annotations s i.report;
  }
  Step-InOrder (reexec_step s) i = record {
    ack = ReexecStep-AckOrder s i.ack;
    start = ReexecStep-StartOrder s i.start;
    report = ReexecStep-ReportOrder s i.report;
  }
  Step-InOrder (start_step s) i = record {
    ack = StartStep-AckOrder annotations orderly s i.ack;
    start = StartStep-StartOrder annotations orderly s i.ack i.start;
    report = StartStep-ReportOrder annotations orderly s i.report;
  }

  pub Reach-InOrder :
      {state : State} {w : World} → Reach annotations orderly (initial state) w → InOrder w
  Reach-InOrder here = record { ack = ground arith; start = ground arith; report = ground arith }
  Reach-InOrder (next r s) = Step-InOrder s (Reach-InOrder r)

  -- In every interleaving of create, the process that it starts and start, from a new container:
  -- when the monitor has been executed, create has acknowledged over the init pipe, start has
  -- asked for the execution, and exactly the success, and no error, has been reported to start.
  pub Reach-executed :
      (state : State) (w : World)
      → Reach annotations orderly (initial state) w
      → w.reexec_phase ≡ executed
      → (w.init_pipe ≡ ack_reexec) × (w.reexec_sock ≡ start_execve) × (w.urunc_sock ≡ start_success)
  Reach-executed state w r e =
      let i = Reach-InOrder r in
      let acked' : w.create_phase ≡ acked = i.ack.past (ap past_ack e) in
      (
        i.ack.pipe ∙ ap ack_of acked',
        i.start.started (ap past_start e),
        subst (λ p. Reported p w.urunc_sock) e i.report.report,
      )
