-- ===== src/Tests/Host.antt =====
-- Killing, deleting and joining namespaces, at concrete values.
use urunc.Prelude.{
  ℕ, zero, suc, ◌*◌, String, Bool, true, false, Option, none, some, List, [], ◌∷◌, ◌≡◌, ◌≢◌, ◌⊎◌,
  refl, Result, ok, err, All, arith,
}
use urunc.Prelude.Map.{lookup}
use urunc.Prelude.Strconv.{pos}
use urunc.Settings.{UruncConfig, default_urunc_config}
use urunc.Hypervisors.Process.{
  esrch, Answers, kill_process, signal_process, poll, poll_round, out_of_fuel, sigkill,
}
use urunc.Hypervisors.{is_signal, new_vmm, supports_control_socket}
use urunc.Hypervisors.Safety.{OnlyOn, SomeGone, kill_process-gone, kill_process-ends}
use urunc.Container.{Unikontainer, signal, kill}
use urunc.Container.Guard.{kill_signal-OnlyOn}
use urunc.Container.Namespaces.{
  NsError, NsType-discrete, check_valid_ns_path, has_char, network, pid, Namespace,
  format_nsenter_info, NsMessage,
}
use urunc.Container.Delete.{
  net_ns_path, Action, remove_base_dir, remove_taps, cleanup_network, delete, delete_failed,
  action_failed,
}

-- A monitor that is gone at the second look.
abbrev gone_at_2 : Answers
gone_at_2 zero = none
gone_at_2 (suc zero) = none
gone_at_2 (suc (suc n)) = some esrch

abbrev clock : ℕ → ℕ
clock n = 100 * n

gone_at_2_dies : (kill_process gone_at_2 clock (pos 42)).0 ≡ ok tt
unfolding kill_process poll poll_round
gone_at_2_dies = refl

kill_process_gone_example : SomeGone gone_at_2
kill_process_gone_example = kill_process-gone gone_at_2 clock (pos 42) gone_at_2_dies

kill_process_ends_example : (kill_process gone_at_2 clock (pos 42)).0 ≢ err out_of_fuel
kill_process_ends_example =
    kill_process-ends gone_at_2 clock (pos 42) (omega arith, λ n. omega arith)

abbrev look_path : String → Option String
look_path p = some "/usr/bin/firecracker"

abbrev config : UruncConfig
config = record {
  log = default_urunc_config.log;
  timestamps = default_urunc_config.timestamps;
  runtime = default_urunc_config.runtime;
  monitors =
      (
        "firecracker",
        record {
          default_memory_mb = 256;
          default_vcpus = 1;
          binary_path = "";
          data_path = "";
          vhost = false;
          socket_path = "/run/fc.sock";
        },
      )
      ∷ [];
  extra_bins = [];
}

abbrev container : Unikontainer
container = record {
  state = record {
    id = "c1";
    status = "running";
    pid = pos 42;
    bundle = "/run/bundle";
    annotations = ("com.urunc.unikernel.hypervisor", "firecracker") ∷ [];
  };
  base_dir = "/run/urunc/c1";
  urunc_cfg = config;
}

kill_signal_example :
    OnlyOn (pos 42) (kill look_path "amd64" gone_at_2 clock container).1
    × OnlyOn (pos 42) (signal look_path "amd64" gone_at_2 clock container sigkill).calls
kill_signal_example = kill_signal-OnlyOn look_path "amd64" gone_at_2 clock container sigkill

socket_goes :
    (signal look_path "amd64" gone_at_2 clock container sigkill).socket_removed
    ≡ some "/run/fc.sock"
unfolding signal new_vmm lookup kill_process poll poll_round urunc.Hypervisors.signal signal_process
    supports_control_socket
socket_goes = refl

abbrev namespaces : List Namespace
namespaces =
    record { type = network; path = "/proc/7/ns/net" } ∷ record { type = pid; path = "" } ∷ []

abbrev all_exist : String → Bool
all_exist p = true

abbrev written : Result NsError NsMessage → NsMessage
written (ok msg) = msg
written (err e) = (none, none)

abbrev ns_message : NsMessage
ns_message = written (format_nsenter_info all_exist namespaces)

abbrev nothing_fails : Action → Bool
nothing_fails a = false

abbrev taps_fail : Action → Bool
taps_fail (remove_taps p) = true
taps_fail _ = false

delete_succeeds : (delete all_exist nothing_fails false true namespaces false).0 ≡ ok tt
unfolding delete cleanup_network net_ns_path check_valid_ns_path has_char NsType-discrete
delete_succeeds = refl

delete_stops :
    (delete all_exist taps_fail false true namespaces false).0
    ≡ err (action_failed (remove_taps "/proc/7/ns/net"))
unfolding delete cleanup_network net_ns_path check_valid_ns_path has_char NsType-discrete
delete_stops = refl

delete_failed_example :
    All
      (λ a. (a ≢ remove_base_dir) ⊎ (taps_fail a ≡ true))
      (delete all_exist taps_fail false true namespaces false).1
delete_failed_example = delete_failed all_exist taps_fail false true false namespaces delete_stops
