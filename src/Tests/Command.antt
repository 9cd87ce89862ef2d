-- ===== src/Tests/Command.antt =====
-- Runs of the commands.
use urunc.Prelude.{
  ◌==◌, String, Result, eq_iff, true, false, some, [], ◌∷◌, if◌then◌else◌, ok, err, refl, ◌≡◌, All,
  arith,
}
use urunc.Prelude.Strconv.{pos, atoi}
use urunc.Prelude.Text.{all_chars}
use urunc.Prelude.Filepath.{clean, join_paths}
use urunc.Command.{
  not_exist, not_unikernel, exec_runc, remove_all, delete_container, kill_monitor,
  execute_hooks_named, invalid_id, empty_id, does_not_exist, root_is_slash, validate_id, check_args,
  revise_root_dir, parse_signal, delete_command, GetError,
}
use urunc.Command.Child.{RemovesChild, delete_command-RemovesChild}

abbrev only_web : String → String → Result GetError String
only_web id root = if id == "web" then ok id else err not_exist

abbrev no_unikernel : String → String → Result GetError String
no_unikernel id root = err not_unikernel

delete_example :
    All
      (RemovesChild "/run/urunc")
      (delete_command only_web (λ calls c. false) false 1 false "/run/urunc" "c1" []).1
unfolding clean
delete_example =
    delete_command-RemovesChild only_web (λ calls c. false) false "/run/urunc" 1 false "c1" refl
      refl (λ e. ground (arith, eq_iff "/run/urunc" "/"))

delete_runs :
    (delete_command only_web (λ calls c. false) false 1 false "/run/urunc" "c1" []
      ≡ (err does_not_exist, remove_all "/run/urunc/c1" ∷ []))
    × (delete_command only_web (λ calls c. false) false 1 true "/run/urunc" "web" []
        ≡ (ok tt, kill_monitor ∷ delete_container true ∷ execute_hooks_named "Poststop" ∷ []))
    × (delete_command only_web (λ calls c. false) false 1 true "/run/urunc" ".." []
        ≡ (err invalid_id, []))
    × (delete_command no_unikernel
          (λ calls c. elim c [ exec_runc ↦ true | _ ↦ false ])
          true
          1
          false
          "/run/urunc"
          "c1"
          []
        ≡ (err does_not_exist, exec_runc ∷ remove_all "/run/urunc/c1" ∷ []))
unfolding delete_command check_args validate_id all_chars clean join_paths
delete_runs = (refl, refl, refl, refl)

option_runs :
    (validate_id "" ≡ err empty_id)
    × (validate_id "a/b" ≡ err invalid_id)
    × (validate_id "a+b_c.9" ≡ ok tt)
    × (revise_root_dir "/" (some "../..") ≡ err root_is_slash)
    × (revise_root_dir "/home" (some "x/") ≡ ok (some "/home/x"))
    × (parse_signal
          (λ s. if s == "kill" then "KILL" else s)
          (λ s. if s == "SIGKILL" then 9 else 0)
          "kill"
        ≡ some (pos 9))
    × (parse_signal (λ s. s) (λ s. 0) "15" ≡ some (pos 15))
unfolding validate_id all_chars clean join_paths revise_root_dir parse_signal atoi
option_runs = (refl, refl, refl, refl, refl, refl, refl)
