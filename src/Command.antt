-- ===== src/Command.antt =====
-- What the commands of cmd/urunc do before they call the container lifecycle: validateID, checkArgs and
-- getUnikontainer of utils.go, parseSignal of kill.go, reviseRootDir of main.go, and delete.go.
pub mod Child
use urunc.Prelude.{
  ℕ, String, ◌<>◌, ◌==◌, Bool, true, false, not, ◌&&◌, ◌||◌, Option, none, some, List, [], ◌∷◌,
  ◌++◌, if◌then◌else◌, leb, ltb, eqb, starts_with, Result, ok, err, ◌≡◌,
}
use urunc.Prelude.Text.{all_chars, byte_len}
use urunc.Prelude.Strconv.{ℤ, pos, atoi}
use urunc.Prelude.Filepath.{is_abs, clean, join_paths}
use urunc.Prelude.Traced.{Traced, pure, raise, lift, ◌>>=◌, ◌>>◌, perform}

pub data GetError : Type 0 where
  not_exist not_unikernel other_failure : GetError

pub data CommandCall : Type 0 where
  exec_runc kill_monitor : CommandCall
  delete_container : Bool → CommandCall
  execute_hooks_named remove_all : String → CommandCall

pub data CommandError : Type 0 where
  bad_arguments empty_id invalid_id root_is_slash does_not_exist cannot_load : CommandError
  command_failed : CommandCall → CommandError

pub data CheckType : Type 0 where
  exact_args min_args max_args : CheckType

-- `checkArgs`
unfoldable pub check_args : ℕ → ℕ → CheckType → Result CommandError (Unit {0})
check_args count expected exact_args = if eqb count expected then ok tt else err bad_arguments
check_args count expected min_args = if ltb count expected then err bad_arguments else ok tt
check_args count expected max_args = if ltb expected count then err bad_arguments else ok tt

abbrev pub is_id_char : ℕ → Bool
is_id_char c =
    (leb b'a' c && leb c b'z')
    || (leb b'A' c && leb c b'Z')
    || (leb b'0' c && leb c b'9')
    || eqb c b'_'
    || eqb c b'+'
    || eqb c b'-'
    || eqb c b'.'

-- `validateID`
unfoldable pub validate_id : String → Result CommandError (Unit {0})
validate_id id =
    if id == ""
    then err empty_id
    else if not (all_chars is_id_char id)
    then err invalid_id
    else if not ("/" <> id == clean ("/" <> id))
    then err invalid_id
    else ok tt

-- `filepath.Abs`, in the directory `cwd`
abbrev abs : String → String → String
abs cwd path = if is_abs path then clean path else join_paths cwd path

-- `reviseRootDir`, from the option if it is set.
unfoldable pub revise_root_dir : String → Option String → Result CommandError (Option String)
revise_root_dir cwd none = ok none
revise_root_dir cwd (some root) =
    if abs cwd root == "/" then err root_is_slash else ok (some (abs cwd root))

-- `parseSignal`; `to_upper` is strings.ToUpper and `signal_num` is unix.SignalNum.
unfoldable pub parse_signal : (String → String) → (String → ℕ) → String → Option ℤ
parse_signal to_upper signal_num raw = elim (atoi raw) [
  | some n ↦ some n
  | none ↦
      let sig = to_upper raw in
      let signal = signal_num (if starts_with sig "SIG" then sig else "SIG" <> sig) in
      if eqb signal 0 then none else some (pos signal)
]

abbrev pub Command : Type 0 → Type 0
Command = Traced CommandCall CommandError

-- The containers below a root, the calls that fail, and whether ENOENT is the failure of executing runc.
module _ {U : Type 0} (get : String → String → Result GetError U)
    (fails : List CommandCall → CommandCall → Bool) (runc_missing : Bool) where
  abbrev pub command_call : CommandCall → Command (Unit {0})
  command_call = perform fails command_failed

  -- What `Get` answers for a container that is not there: `delete` removes what is left of it.
  abbrev pub remove_left : Bool → String → String → Command (Unit {0})
  remove_left force root id calls =
      let removed = command_call (remove_all (join_paths root id)) calls in
      (if force then ok tt else err does_not_exist, removed.1)

  -- A failing poststop hook does not fail the delete.
  abbrev pub poststop : Command (Unit {0})
  poststop calls = (ok tt, (command_call (execute_hooks_named "Poststop") calls).1)

  -- runc takes over, or it cannot be executed; ENOENT then counts as a container that is not there.
  abbrev pub run_runc : Bool → String → String → Command (Unit {0})
  run_runc force root id calls =
      let r = command_call exec_runc calls in
      elim r.0 [
        | ok done ↦ (ok tt, r.1)
        | err e ↦ if runc_missing then remove_left force root id r.1 else (err e, r.1)
      ]

  abbrev pub delete_found : Bool → String → String → Result GetError U → Command (Unit {0})
  delete_found force root id (ok u) = do
    if force then command_call kill_monitor else pure tt
    command_call (delete_container force)
    poststop
  delete_found force root id (err not_exist) = remove_left force root id
  delete_found force root id (err not_unikernel) = run_runc force root id
  delete_found force root id (err other_failure) = raise cannot_load

  -- The action of `delete`, with the number of its arguments.
  unfoldable pub delete_command : ℕ → Bool → String → String → Command (Unit {0})
  delete_command count force root id = do
    lift (λ calls. check_args count 1 exact_args)
    lift (λ calls. validate_id id)
    delete_found force root id (get id root)
