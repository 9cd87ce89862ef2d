-- ===== src/Hypervisors/Process.antt =====
-- pkg/unikontainers/hypervisors/utils.go: the memory units, and how a monitor process is signalled and
-- killed. kill(2) is the system's: its answers are an argument, one for each call, and the calls that
-- are made are the trace that comes back beside the result.
use urunc.Prelude.{
  ℕ, zero, suc, ◌+◌, ◌*◌, ◌/◌, String, Bool, true, false, Option, none, some, List, [], ◌∷◌, ltb,
  eqb, if◌then◌else◌, Result, ok, err,
}
use urunc.Prelude.Strconv.{ℤ, pos, negsuc, format_uint}

-- ESRCH, or any other error number.
pub data Errno : Type 0 where
  esrch : Errno
  other_errno : ℕ → Errno

pub data KillError : Type 0 where
  invalid_pid : ℤ → KillError
  kill_errno : Errno → KillError
  alive_check : Errno → KillError
  timed_out : ℤ → KillError
  -- The model's fuel is used up.
  out_of_fuel : KillError

pub record KillCall : Type 0 where
  pub pid : ℤ
  pub signal : ℤ

-- The answer of the n-th call of kill(2): `none` is success.
abbrev pub Answers : Type 0
Answers = ℕ → Option Errno

abbrev pub sigkill : ℤ
sigkill = pos 9

abbrev pub sigterm : ℤ
sigterm = pos 15

abbrev pub sigint : ℤ
sigint = pos 2

abbrev pub default_memory : ℕ
default_memory = 256

unfoldable pub bytes_to_mib : ℕ → ℕ
bytes_to_mib bytes = bytes / (1024 * 1024)

unfoldable pub bytes_to_mb : ℕ → ℕ
bytes_to_mb bytes = bytes / (1000 * 1000)

unfoldable pub bytes_to_string_mb : ℕ → String
unfolding bytes_to_mb
bytes_to_string_mb arg_mem =
    if eqb arg_mem 0
    then format_uint default_memory
    else let user_mem = bytes_to_mb arg_mem in
      if eqb user_mem 0 then format_uint default_memory else format_uint user_mem

-- `pid <= 0`
abbrev pub nonpositive : ℤ → Bool
nonpositive (pos zero) = true
nonpositive (pos (suc n)) = false
nonpositive (negsuc n) = true

abbrev pub Traced : Type 0 → Type 0
Traced A = A × List KillCall

abbrev pub call : ℤ → ℤ → KillCall
call pid sig = record { pid = pid; signal = sig }

abbrev answered : Option Errno → Result KillError (Unit {0})
answered none = ok tt
answered (some e) = err (kill_errno e)

unfoldable pub signal_process : Answers → ℤ → ℤ → Traced (Result KillError (Unit {0}))
signal_process answers pid sig =
    if nonpositive pid
    then (err (invalid_pid pid), [])
    else (answered (answers 0), call pid sig ∷ [])

abbrev pub with_call :
    KillCall → Traced (Result KillError (Unit {0})) → Traced (Result KillError (Unit {0}))
with_call c (r, trace) = (r, c ∷ trace)

-- One round of the polling loop: the answer to signal 0, whether the deadline has passed, and what the
-- later rounds give.
unfoldable pub poll_round :
    ℤ
    → Option Errno
    → Bool
    → Traced (Result KillError (Unit {0}))
    → Traced (Result KillError (Unit {0}))
poll_round pid (some esrch) late rest = (ok tt, call pid (pos 0) ∷ [])
poll_round pid (some (other_errno e)) late rest =
    (err (alive_check (other_errno e)), call pid (pos 0) ∷ [])
poll_round pid none true rest = (err (timed_out pid), call pid (pos 0) ∷ [])
poll_round pid none false rest = (rest.0, call pid (pos 0) ∷ rest.1)

-- The loop. `clock n` is the time of round `n` in milliseconds.
module _ (answers : Answers) (clock : ℕ → ℕ) (pid : ℤ) (deadline : ℕ) where
  unfoldable pub poll : ℕ → ℕ → Traced (Result KillError (Unit {0}))
  unfolding poll_round
  poll zero n = (err out_of_fuel, [])
  poll (suc fuel) n = poll_round pid (answers n) (ltb deadline (clock n)) (poll fuel (suc n))

abbrev pub kill_timeout_ms : ℕ
kill_timeout_ms = 2000

-- Each round sleeps 100 ms, so the deadline passes within 22 rounds.
abbrev pub poll_fuel : ℕ
poll_fuel = 22

-- `killProcess`; the deadline is set when the first call has returned, at `clock 0`.
unfoldable pub kill_process : Answers → (ℕ → ℕ) → ℤ → Traced (Result KillError (Unit {0}))
kill_process answers clock pid =
    if nonpositive pid
    then (err (invalid_pid pid), [])
    else with_call (call pid sigkill) (elim (answers 0) [
      | some esrch ↦ (ok tt, [])
      | some (other_errno e) ↦ (err (kill_errno (other_errno e)), [])
      | none ↦ poll answers clock pid (clock 0 + kill_timeout_ms) poll_fuel 1
    ])
