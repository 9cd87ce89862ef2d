-- ===== src/Hypervisors/Safety.antt =====
-- No process group is ever signalled, and the killing of a monitor ends.
use urunc.Prelude.{
  ℕ, zero, suc, ◌+◌, ◌*◌, ◌≤◌, ◌<◌, Bool, true, false, Option, none, some, List, ltb, ◌≡◌, ◌≢◌,
  refl, ◌⊎◌, inl, inr, arith, All, Result, ok, err, Option-cases,
}
use urunc.Prelude.Strconv.{ℤ}
use urunc.Hypervisors.Process.{
  Errno, esrch, other_errno, KillError, out_of_fuel, KillCall, Answers, nonpositive, poll,
  poll_round, Traced, kill_process, signal_process, kill_timeout_ms, poll_fuel,
}
use urunc.Hypervisors.{VmmKind, hedge, firecracker, stop, signal}

-- The calls of kill(2) are all on this one process, and its number is above 0.
abbrev pub OnlyOn : ℤ → List KillCall → Type 0
OnlyOn pid = All (λ c. (c.pid ≡ pid) × (nonpositive c.pid ≡ false))

-- The clock does not run backwards, and each round of the loop is 100 ms after the one before.
abbrev pub Ticks : (ℕ → ℕ) → Type 0
Ticks clock = (clock 0 ≤ clock 1) × ((n : ℕ) → clock (suc n) + 100 ≤ clock (suc (suc n)))

-- The process is gone when the killing reports success.
abbrev pub SomeGone : Answers → Type 0
SomeGone answers = (n : ℕ) × (answers n ≡ some esrch)

poll_round-OnlyOn :
    (pid : ℤ) (a : Option Errno) (late : Bool) (rest : Traced (Result KillError (Unit {0})))
    → nonpositive pid ≡ false
    → OnlyOn pid rest.1
    → OnlyOn pid (poll_round pid a late rest).1
unfolding poll_round
poll_round-OnlyOn pid (some esrch) late rest h r = ((refl, h), tt)
poll_round-OnlyOn pid (some (other_errno e)) late rest h r = ((refl, h), tt)
poll_round-OnlyOn pid none true rest h r = ((refl, h), tt)
poll_round-OnlyOn pid none false rest h r = ((refl, h), r)

-- A round that reports success has seen ESRCH, or leaves it to the later rounds.
poll_round-gone :
    (pid : ℤ) (a : Option Errno) (late : Bool) (rest : Traced (Result KillError (Unit {0})))
    → (poll_round pid a late rest).0 ≡ ok tt
    → (a ≡ some esrch) ⊎ (rest.0 ≡ ok tt)
unfolding poll_round
poll_round-gone pid (some esrch) late rest h = inl refl
poll_round-gone pid (some (other_errno e)) late rest h = cc
poll_round-gone pid none true rest h = cc
poll_round-gone pid none false rest h = inr h

poll_round-ends :
    (pid : ℤ) (a : Option Errno) (late : Bool) (rest : Traced (Result KillError (Unit {0})))
    → (late ≡ true) ⊎ (rest.0 ≢ err out_of_fuel)
    → (poll_round pid a late rest).0 ≢ err out_of_fuel
unfolding poll_round
poll_round-ends pid (some esrch) late rest e h = cc
poll_round-ends pid (some (other_errno x)) late rest e h = cc
poll_round-ends pid none true rest e h = cc
poll_round-ends pid none false rest (inl e) h = cc
poll_round-ends pid none false rest (inr e) h = e h

module _ (answers : Answers) (clock : ℕ → ℕ) (pid : ℤ) (deadline : ℕ) where
  poll-OnlyOn :
      (fuel n : ℕ) → nonpositive pid ≡ false → OnlyOn pid (poll answers clock pid deadline fuel n).1
  unfolding poll
  poll-OnlyOn zero n h = tt
  poll-OnlyOn (suc fuel) n h = poll_round-OnlyOn pid _ _ _ h (poll-OnlyOn fuel (suc n) h)

  poll-gone : (fuel n : ℕ) → (poll answers clock pid deadline fuel n).0 ≡ ok tt → SomeGone answers
  unfolding poll
  poll-gone zero n h = cc
  poll-gone (suc fuel) n h = elim (poll_round-gone pid (answers n) _ _ h) [
    | inl e ↦ (n, e)
    | inr rest ↦ poll-gone fuel (suc n) rest
  ]

  -- With 100 ms between the rounds the deadline comes before the fuel ends.
  poll-ends :
      Ticks clock
      → (f n : ℕ) → deadline < clock (suc n) + 100 * f
      → (poll answers clock pid deadline (suc f) (suc n)).0 ≢ err out_of_fuel
  unfolding poll
  poll-ends ticks zero n far =
      poll_round-ends pid (answers (suc n)) (ltb deadline (clock (suc n))) _ (inl (ground arith))
  poll-ends ticks (suc f) n far =
      poll_round-ends pid _ _ _ (inr (poll-ends ticks f (suc n) (omega (arith, ticks.1 n))))

module _ (answers : Answers) (clock : ℕ → ℕ) (pid : ℤ) where
  kill_process-OnlyOn : OnlyOn pid (kill_process answers clock pid).1
  unfolding kill_process
  kill_process-OnlyOn =
      ground (arith, poll-OnlyOn answers clock pid (clock 0 + kill_timeout_ms) poll_fuel 1)

  -- If killProcess reports success, then kill(2) has answered that there is no such process.
  pub kill_process-gone : (kill_process answers clock pid).0 ≡ ok tt → SomeGone answers
  unfolding kill_process
  kill_process-gone h = elim (Option-cases (answers 0)) [
    | inl e ↦
        poll-gone answers clock pid (clock 0 + kill_timeout_ms) poll_fuel 1 (ground (arith, e))
    | inr (x, e) ↦ (0, ground (arith, e))
  ]

  -- If the clock does not run backwards and each round of the loop takes 100 ms or more, then killProcess
  -- ends within its fuel, whatever kill(2) answers.
  pub kill_process-ends : Ticks clock → (kill_process answers clock pid).0 ≢ err out_of_fuel
  unfolding kill_process
  kill_process-ends ticks =
      ground (arith, ticks.0, poll-ends answers clock pid (clock 0 + kill_timeout_ms) ticks 21 0)

  signal_process-OnlyOn : (sig : ℤ) → OnlyOn pid (signal_process answers pid sig).1
  unfolding signal_process
  signal_process-OnlyOn sig = ground arith

  stop-OnlyOn : (kind : VmmKind) → OnlyOn pid (stop answers clock kind pid).1
  unfolding stop
  stop-OnlyOn hedge = tt
  stop-OnlyOn _ = ground (arith, kill_process-OnlyOn)

  -- Whatever the monitor, stopping or signalling it calls kill(2) on its own process alone, and never
  -- on a number that means a process group.
  pub stop_signal-OnlyOn :
      (kind : VmmKind) (sig : ℤ)
      → OnlyOn pid (stop answers clock kind pid).1
        × OnlyOn pid (signal answers clock kind pid sig).1
  unfolding signal
  stop_signal-OnlyOn hedge sig = (stop-OnlyOn hedge, tt)
  stop_signal-OnlyOn firecracker sig =
      ground (arith, stop-OnlyOn firecracker, signal_process-OnlyOn sig)
  stop_signal-OnlyOn kind sig = ground (arith, stop-OnlyOn kind, signal_process-OnlyOn sig)
