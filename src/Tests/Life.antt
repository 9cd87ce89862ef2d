-- ===== src/Tests/Life.antt =====
-- Runs of create, start and the process between them.
use urunc.Prelude.{
  eqb, err, ltb, not, ◌&&◌, ◌==◌, if◌then◌else◌, ◌≡◌, ◌⊎◌, ok, refl, true, false, [], String, Bool,
  ◌<>◌, some,
}
use urunc.Prelude.Strconv.{pos}
use urunc.Prelude.Text.{byte_len}
use urunc.Container.{State}
use urunc.Container.Saved.{save_annotations}
use urunc.Lifecycle.Ipc.{
  address_empty, address_too_long, write_failed, any_below, ensure_valid_sock_addr, await_message,
  ack_reexec, start_execve, start_success, start_err, send_ipc_message_with_retry,
  send_ipc_message_with_retry_lem, max_retries_exceeded,
}
use urunc.Lifecycle.States.{new_state, save_container_state}
use urunc.Lifecycle.Order.{Reach-executed}
use urunc.Lifecycle.Status.{Reach-running}
use urunc.Lifecycle.Oci.{Reach-Follows, oci_status, OciStep}
use urunc.Lifecycle.{
  acked, awaiting_ack, listening, reported, executed, start_listening, start_sent, success_received,
  running_saved, World, initial, sets_up, spawns, saves_pid, runs_hooks, acks, receives_ack, loads,
  prepares, listens, receives_start, connects, builds, reports, executes, start_loads,
  start_listens, start_connects, sends_start, receives_success, saves_running, Step, create_step,
  reexec_step, start_step, Reach, here, next,
}

abbrev fresh : State
fresh = new_state "c1" "/bundle" []

abbrev saved_as : String → State
saved_as s = record fresh { status = s; pid = pos 42 }

-- create, up to the saving of the pid and the acknowledgement.
abbrev after_create : World
after_create = record (initial fresh) {
  create_phase = acked;
  reexec_phase = awaiting_ack;
  created = saved_as "created";
  reexec_pid = pos 42;
  saved = some (saved_as "created");
  init_pipe = "UC_ACK";
}

created_run : (orderly : Bool) → Reach [] orderly (initial fresh) after_create
unfolding save_container_state save_annotations
created_run orderly =
    next
      (next
        (next
          (next (next here (create_step (sets_up _ _ refl refl)))
            (create_step (spawns _ (pos 42) refl refl)))
          (create_step (saves_pid _ _ refl refl)))
        (create_step (runs_hooks _ refl)))
      (create_step (acks _ refl))

-- start and the other process, from their first steps to a monitor that runs.
abbrev after_start : World
after_start = record after_create {
  reexec_phase = executed;
  start_phase = running_saved;
  reexec_state = some (saved_as "created");
  started = some (saved_as "running");
  saved = some (saved_as "running");
  reexec_sock = "UC_START";
  urunc_listens = true;
  urunc_sock = "RX_SUCCESS";
}

abbrev listening_both : World
listening_both = record after_create {
  reexec_phase = listening;
  start_phase = start_listening;
  reexec_state = some (saved_as "created");
  started = some (saved_as "created");
  reexec_listens = true;
  urunc_listens = true;
}

listening_run : (orderly : Bool) → Reach [] orderly (initial fresh) listening_both
unfolding await_message
listening_run orderly =
    next
      (next
        (next
          (next
            (next (next (created_run orderly) (reexec_step (receives_ack _ refl refl)))
              (reexec_step (loads _ (saved_as "created") refl refl)))
            (reexec_step (prepares _ refl)))
          (reexec_step (listens _ refl)))
        (start_step (start_loads _ (saved_as "created") refl refl (λ o. refl))))
      (start_step (start_listens _ refl))

abbrev reporting : World
reporting = record listening_both {
  reexec_phase = reported;
  start_phase = start_sent;
  reexec_listens = false;
  reexec_sock = "UC_START";
  urunc_sock = "RX_SUCCESS";
}

reporting_run : (orderly : Bool) → Reach [] orderly (initial fresh) reporting
unfolding await_message
reporting_run orderly =
    next
      (next
        (next
          (next
            (next (next (listening_run orderly) (start_step (start_connects _ refl refl)))
              (start_step (sends_start _ refl)))
            (reexec_step (receives_start _ refl refl)))
          (reexec_step (connects _ refl refl)))
        (reexec_step (builds _ refl)))
      (reexec_step (reports _ refl))

started_run : (orderly : Bool) → Reach [] orderly (initial fresh) after_start
unfolding await_message save_container_state save_annotations
started_run orderly =
    next
      (next (next (reporting_run orderly) (reexec_step (executes _ refl)))
        (start_step (receives_success _ refl refl)))
      (start_step (saves_running _ (saved_as "created") (saved_as "running") refl refl refl))

Reach-executed_example :
    (after_start.init_pipe ≡ ack_reexec)
    × (after_start.reexec_sock ≡ start_execve)
    × (after_start.urunc_sock ≡ start_success)
Reach-executed_example = Reach-executed [] true fresh after_start (started_run true) refl

Reach-running_example :
    (after_start.init_pipe ≡ ack_reexec)
    × (after_start.reexec_sock ≡ start_execve)
    × ((after_start.urunc_sock ≡ start_success)
        ⊎ (after_start.urunc_sock ≡ start_success <> start_err))
Reach-running_example =
    Reach-running [] false fresh (saved_as "running") after_start (started_run false) refl refl

abbrev succeeding : World
succeeding = record reporting { start_phase = success_received }

succeeding_run : Reach [] true (initial fresh) succeeding
unfolding await_message
succeeding_run = next (reporting_run true) (start_step (receives_success _ refl refl))

abbrev marked : World
marked = record succeeding {
  start_phase = running_saved;
  started = some (saved_as "running");
  saved = some (saved_as "running");
}

marking : Step [] true succeeding marked
unfolding save_container_state save_annotations
marking = start_step (saves_running _ (saved_as "created") (saved_as "running") refl refl refl)

Reach-Follows_example :
    (oci_status marked.saved ≡ oci_status succeeding.saved)
    ⊎ OciStep succeeding.reexec_pid (oci_status succeeding.saved) (oci_status marked.saved)
Reach-Follows_example = Reach-Follows [] fresh succeeding marked succeeding_run marking

-- A start that begins before create has saved the pid overwrites it.
abbrev racing : World
racing = record after_start {
  started = some (record fresh { status = "running" });
  saved = some (record fresh { status = "running" });
}

race_run : Reach [] false (initial fresh) racing
unfolding await_message save_container_state save_annotations
race_run =
    next
      (next
        (next
          (next
            (next
              (next
                (next
                  (next
                    (next
                      (next
                        (next
                          (next
                            (next
                              (next
                                (next
                                  (next
                                    (next
                                      (next
                                        (next (next here (create_step (sets_up _ _ refl refl)))
                                          (create_step (spawns _ (pos 42) refl refl)))
                                        (start_step (start_loads _ fresh refl refl (λ o. cc))))
                                      (create_step (saves_pid _ _ refl refl)))
                                    (create_step (runs_hooks _ refl)))
                                  (create_step (acks _ refl)))
                                (reexec_step (receives_ack _ refl refl)))
                              (reexec_step (loads _ (saved_as "created") refl refl)))
                            (reexec_step (prepares _ refl)))
                          (reexec_step (listens _ refl)))
                        (start_step (start_listens _ refl)))
                      (start_step (start_connects _ refl refl)))
                    (start_step (sends_start _ refl)))
                  (reexec_step (receives_start _ refl refl)))
                (reexec_step (connects _ refl refl)))
              (reexec_step (builds _ refl)))
            (reexec_step (reports _ refl)))
          (reexec_step (executes _ refl)))
        (start_step (receives_success _ refl refl)))
      (start_step (saves_running _ fresh (record fresh { status = "running" }) refl refl refl))

send_example : send_ipc_message_with_retry (λ k. eqb k 30) true "/run/urunc/c1/urunc.sock" true ≡ (
    if true && "/run/urunc/c1/urunc.sock" == ""
    then err address_empty
    else if true && ltb 108 (byte_len "/run/urunc/c1/urunc.sock")
    then err address_too_long
    else if not (any_below (λ k. eqb k 30) 50)
    then err max_retries_exceeded
    else if not true
    then err write_failed
    else ok tt)
send_example = send_ipc_message_with_retry_lem (λ k. eqb k 30) true "/run/urunc/c1/urunc.sock" true

late_socket :
    (send_ipc_message_with_retry (λ k. eqb k 49) true "/run/urunc.sock" true ≡ ok tt)
    × (send_ipc_message_with_retry (λ k. eqb k 50) true "/run/urunc.sock" true
        ≡ err max_retries_exceeded)
unfolding send_ipc_message_with_retry ensure_valid_sock_addr byte_len
late_socket = (refl, refl)
