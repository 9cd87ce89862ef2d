-- ===== src/Lifecycle/Ipc.antt =====
-- pkg/unikontainers/ipc.go: the messages, the addresses of the sockets, sending and awaiting.
use urunc.Prelude.{
  ◌||◌, ◌&&◌, ◌⊎◌, eqb, ap, sym, ◌∙◌, ℕ, zero, suc, true, false, ◌≡◌, refl, ◌<◌, ◌≤◌, ◌+◌, arith,
  Bool-cases, inl, inr, String, ◌==◌, Bool, not, ltb, leb, if◌then◌else◌, Result, ok, err,
  reject_if, ◌>>◌, Option, none, some,
}
use urunc.Prelude.Text.{byte_len}
use urunc.Prelude.Filepath.{join_paths}

abbrev pub ack_reexec : String
ack_reexec = "UC_ACK"

abbrev pub start_execve : String
start_execve = "UC_START"

abbrev pub start_success : String
start_success = "RX_SUCCESS"

abbrev pub start_err : String
start_err = "RX_ERROR"

pub data IpcError : Type 0 where
  address_empty : IpcError
  address_too_long : IpcError
  max_retries_exceeded : IpcError
  write_failed : IpcError
  unexpected_message : String → IpcError

abbrev pub get_urunc_sock_addr : String → String
get_urunc_sock_addr container_dir = join_paths container_dir "urunc.sock"

abbrev pub get_reexec_sock_addr : String → String
get_reexec_sock_addr base_dir = join_paths base_dir "reexec.sock"

-- `ensureValidSockAddr`
unfoldable pub ensure_valid_sock_addr : String → Result IpcError (Unit {0})
ensure_valid_sock_addr sock_addr =
    reject_if (sock_addr == "") address_empty
    >> reject_if (ltb 108 (byte_len sock_addr)) address_too_long

-- `conn.Read(buf)` of all that has come, for a buffer of `n` bytes. The messages are ASCII.
unfoldable pub read_up_to : ℕ → String → String
read_up_to zero s = ""
read_up_to (suc n) String.[] = ""
read_up_to (suc n) (String.◌∷◌ c s) = String.◌∷◌ c (read_up_to n s)

-- `AwaitMessage`, of what was written to the connection; a failure to accept or to read is a step of
-- its own. reexecUnikontainer reads the init pipe in the same way.
unfoldable pub await_message : String → String → Result IpcError (Unit {0})
unfolding read_up_to byte_len
await_message written expected =
    let msg = read_up_to (byte_len expected) written in
    reject_if (not (msg == expected)) (unexpected_message msg)

abbrev pub max_retries : ℕ
max_retries = 50

-- The loop of `sendIPCMessageWithRetry`: whether a call of DialUnix succeeds, by the number of the
-- calls before it. The result has the number of failed calls.
unfoldable pub dial : (ℕ → Bool) → ℕ → ℕ → Option ℕ
dial connects zero retry = none
dial connects (suc fuel) retry =
    let later = dial connects fuel (suc retry) in
    if connects retry then some retry else if leb max_retries (suc retry) then none else later

-- `sendIPCMessageWithRetry`: `written` tells whether the write to the connection succeeds. A retry
-- counts up to `max_retries`, so as many rounds are enough.
unfoldable pub send_ipc_message_with_retry :
    (ℕ → Bool) → Bool → String → Bool → Result IpcError (Unit {0})
unfolding dial
send_ipc_message_with_retry connects written socket_address must_be_valid =
    (if must_be_valid then ensure_valid_sock_addr socket_address else ok tt)
    >> elim (dial connects max_retries 0) [
      | none ↦ err max_retries_exceeded
      | some _ ↦ reject_if (not written) write_failed
    ]

differ : (b : Bool) → b ≡ true → b ≡ false → ⊥
differ true h i = cc
differ false h i = cc

eqb→eq : (a b : ℕ) → eqb a b ≡ true → a ≡ b
eqb→eq a b h = ground arith

-- The dialling finds the first call that succeeds, if it is among those that are left.
dial_found :
    (connects : ℕ → Bool) (fuel retry k : ℕ)
    → fuel + retry ≡ max_retries
    → retry ≤ k
    → k < max_retries
    → connects k ≡ true
    → (n : ℕ) × (dial connects fuel retry ≡ some n)
unfolding dial
dial_found connects zero retry k e lo hi h = absurd (omega arith)
dial_found connects (suc fuel) retry k e lo hi h = elim (Bool-cases (connects retry)) [
  | inl y ↦ rw y (retry, refl)
  | inr y ↦
      let other : suc retry ≤ k = elim (Bool-cases (eqb retry k)) [
        | inl z ↦ absurd (differ (connects k) h (ap connects (sym (eqb→eq retry k z)) ∙ y))
        | inr z ↦ ground arith
      ] in
      let (n, found) = dial_found connects fuel (suc retry) k (omega (arith, e)) other hi h in
      (n, rw y (ground (arith, found)))
]

dial_failed :
    (connects : ℕ → Bool) (fuel retry : ℕ)
    → ((k : ℕ) → k < fuel + retry → connects k ≡ false)
    → dial connects fuel retry ≡ none
unfolding dial
dial_failed connects zero retry h = refl
dial_failed connects (suc fuel) retry h =
    let none_now : connects retry ≡ false = h retry (omega arith) in
    ground (arith, none_now, dial_failed connects fuel (suc retry) (λ k lt. h k (omega arith)))

-- One of the first `n` calls succeeds.
abbrev pub any_below : (ℕ → Bool) → ℕ → Bool
any_below connects zero = false
any_below connects (suc n) = connects n || any_below connects n

any_below-true :
    (connects : ℕ → Bool) (n : ℕ)
    → any_below connects n ≡ true
    → (k : ℕ) × (k < n) × (connects k ≡ true)
any_below-true connects zero h = absurd (cc)
any_below-true connects (suc n) h = elim (Bool-cases (connects n)) [
  | inl y ↦ (n, omega arith, y)
  | inr y ↦
      let (k, lt, found) = any_below-true connects n (ground (arith, h, y)) in
      (k, omega (arith, lt), found)
]

any_below-false :
    (connects : ℕ → Bool) (n : ℕ)
    → any_below connects n ≡ false
    → (k : ℕ) → k < n
    → connects k ≡ false
any_below-false connects zero h k lt = absurd (omega arith)
any_below-false connects (suc n) h k lt = elim (Bool-cases (eqb k n)) [
  | inl same ↦ ap connects (eqb→eq k n same) ∙ ground arith
  | inr other ↦ any_below-false connects n (ground arith) k (ground arith)
]

dial-any_below :
    (connects : ℕ → Bool)
    → ((n : ℕ) × (dial connects max_retries 0 ≡ some n) × (any_below connects 50 ≡ true))
      ⊎ ((dial connects max_retries 0 ≡ none) × (any_below connects 50 ≡ false))
dial-any_below connects = elim (Bool-cases (any_below connects 50)) [
  | inl y ↦
      let (k, lt, found) = any_below-true connects 50 y in
      let (n, e) = dial_found connects max_retries 0 k refl (omega arith) lt found in inl (n, e, y)
  | inr y ↦ inr (dial_failed connects max_retries 0 (any_below-false connects 50 y), y)
]

-- sendIPCMessageWithRetry, for every socket address, every outcome of the calls of DialUnix and
-- of the write: an address that must be valid is refused when it is empty or longer than 108
-- bytes; then the message is sent when one of the first 50 calls connects and the write succeeds,
-- and else the error says which of them failed.
pub send_ipc_message_with_retry_lem :
    (connects : ℕ → Bool) (written : Bool) (address : String) (must_be_valid : Bool)
    → send_ipc_message_with_retry connects written address must_be_valid ≡ (
        if must_be_valid && address == ""
        then err address_empty
        else if must_be_valid && ltb 108 (byte_len address)
        then err address_too_long
        else if not (any_below connects 50)
        then err max_retries_exceeded
        else if not written
        then err write_failed
        else ok tt)
unfolding send_ipc_message_with_retry ensure_valid_sock_addr
send_ipc_message_with_retry_lem connects written address must_be_valid =
    elim (dial-any_below connects) [
      | inl (n, e, y) ↦ rw (e, y) (ground arith)
      | inr (e, y) ↦ rw (e, y) (ground arith)
    ]
