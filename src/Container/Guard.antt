-- ===== src/Container/Guard.antt =====
-- What killing or signalling a container may touch.
use urunc.Prelude.{
  ℕ, String, eq_iff, true, Option, some, ◌≡◌, ◌≢◌, ◌⊎◌, inl, inr, arith, ok, Result-cases,
  Bool-cases,
}
use urunc.Prelude.Strconv.{ℤ}
use urunc.Hypervisors.Process.{Answers, nonpositive, sigkill, sigterm}
use urunc.Hypervisors.{is_signal}
use urunc.Hypervisors.Safety.{OnlyOn, stop_signal-OnlyOn}
use urunc.Container.{Unikontainer, signal, kill, vmm_of, socket_of}

module _ (look_path : String → Option String) (goarch : String) (answers : Answers)
    (clock : ℕ → ℕ) where
  -- Kill and Signal call kill(2) on the container's own process alone, and not at all if its number is 0
  -- or below, which would mean a process group; whatever the monitor, the signal and the answers.
  pub kill_signal-OnlyOn :
      (u : Unikontainer) (sig : ℤ)
      → OnlyOn u.state.pid (kill look_path goarch answers clock u).1
        × OnlyOn u.state.pid (signal look_path goarch answers clock u sig).calls
  unfolding kill signal
  kill_signal-OnlyOn u sig = elim (Bool-cases (nonpositive u.state.pid)) [
    | inl e ↦ rw e (tt, tt)
    | inr e ↦ elim (Result-cases (vmm_of look_path goarch answers clock u)) [
      | inl (vmm, v) ↦ rw (e, v) (stop_signal-OnlyOn answers clock u.state.pid vmm.kind sig)
      | inr (x, v) ↦ rw (e, v) (tt, tt)
    ]
  ]

  -- If Signal removes a control socket, then the signal was sent with success, it was SIGKILL or
  -- SIGTERM, and the socket is the one configured for the container's monitor and is not empty.
  signal-socket :
      (u : Unikontainer) (sig : ℤ) (s : String)
      → (signal look_path goarch answers clock u sig).socket_removed ≡ some s
      → ((signal look_path goarch answers clock u sig).result ≡ ok tt)
        × ((is_signal sig sigkill ≡ true) ⊎ (is_signal sig sigterm ≡ true))
        × (s ≡ socket_of look_path goarch answers clock u)
        × (s ≢ "")
  unfolding signal
  signal-socket u sig s h = elim (Bool-cases (nonpositive u.state.pid)) [
    | inl e ↦ ground arith
    | inr e ↦ elim (Result-cases (vmm_of look_path goarch answers clock u)) [
      | inr (x, v) ↦ ground (arith, v)
      | inl (vmm, v) ↦ ground (arith, v, eq_iff (socket_of look_path goarch answers clock u) "")
    ]
  ]
