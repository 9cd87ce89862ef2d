-- ===== src/Hypervisors.antt =====
-- pkg/unikontainers/hypervisors: the monitors, what each supports, how one is chosen (vmm.go), and how
-- one is stopped and signalled.
pub mod Process
pub mod Safety
pub mod Qemu
pub mod CloudHypervisor
pub mod Firecracker
pub mod Hyperlight
pub mod Solo5
pub mod Separated
use urunc.Prelude.{
  ℕ, String, ◌<>◌, ◌==◌, Bool, true, false, Option, none, some, List, [], ◌∷◌, ◌||◌, if◌then◌else◌,
  eqb, Result, ok, err,
}
use urunc.Prelude.Map.{Map, lookup}
use urunc.Prelude.Strconv.{ℤ, pos, negsuc}
use urunc.Types.{MonitorConfig, no_monitor}
use urunc.Hypervisors.Process.{
  Answers, KillError, Traced, sigterm, sigint, signal_process, kill_process,
}

-- The implementations of `types.VMM`.
pub data VmmKind : Type 0 where
  spt hvt qemu firecracker cloud_hypervisor hyperlight hedge : VmmKind

pub record Vmm : Type 0 where
  pub kind : VmmKind
  pub binary : String
  pub binary_path : String
  pub vhost : Bool

pub data VmmError : Type 0 where
  vmm_not_installed : VmmError
  vmm_not_supported : String → VmmError
  hedge_not_implemented : VmmError
  kill_error : KillError → VmmError

-- `vmmFactories`: the monitor of a type, with its binary.
unfoldable pub vmm_factories : String → Option (VmmKind × String)
vmm_factories vmm_type =
    if vmm_type == "spt"
    then some (spt, "solo5-spt")
    else if vmm_type == "hvt"
    then some (hvt, "solo5-hvt")
    else if vmm_type == "qemu"
    then some (qemu, "qemu-system-")
    else if vmm_type == "firecracker"
    then some (firecracker, "firecracker")
    else if vmm_type == "cloud-hypervisor"
    then some (cloud_hypervisor, "cloud-hypervisor")
    else if vmm_type == "hyperlight-unikraft"
    then some (hyperlight, "hluk")
    else none

-- Only the factory of QEMU passes `vhost` on.
unfoldable pub create_vmm : VmmKind → String → String → Bool → Vmm
create_vmm qemu binary binary_path vhost = record {
  kind = qemu;
  binary = binary;
  binary_path = binary_path;
  vhost = vhost;
}
create_vmm kind binary binary_path vhost = record {
  kind = kind;
  binary = binary;
  binary_path = binary_path;
  vhost = false;
}

unfoldable pub cpu_arch : String → String
cpu_arch goarch =
    if goarch == "arm64" then "aarch64" else if goarch == "amd64" then "x86_64" else ""

abbrev pub monitor_at : String → Map MonitorConfig → MonitorConfig
monitor_at name monitors = elim (lookup name monitors) [ none ↦ no_monitor | some c ↦ c ]

-- The host: exec.LookPath, and the architecture that the program was built for.
module _ (look_path : String → Option String) (goarch : String) where
  unfoldable pub get_vmm_path : String → String → Map MonitorConfig → Result VmmError String
  unfolding cpu_arch
  get_vmm_path vmm_type binary monitors =
      let configured = (monitor_at vmm_type monitors).binary_path in
      if configured == ""
      then elim (look_path (if vmm_type == "qemu" then binary <> cpu_arch goarch else binary)) [
        | none ↦ err vmm_not_installed
        | some vmm_path ↦ ok vmm_path
      ]
      else ok configured

  -- `NewVMM`; `hedge.Ok` always fails.
  unfoldable pub new_vmm : String → Map MonitorConfig → Result VmmError Vmm
  unfolding vmm_factories create_vmm get_vmm_path
  new_vmm vmm_type monitors =
      if vmm_type == "hedge" then err vmm_not_installed else elim (vmm_factories vmm_type) [
        | none ↦ err (vmm_not_supported vmm_type)
        | some (kind, binary) ↦ elim (get_vmm_path vmm_type binary monitors) [
          | err e ↦ err e
          | ok vmm_path ↦ ok (create_vmm kind binary vmm_path (monitor_at vmm_type monitors).vhost)
        ]
      ]

unfoldable pub uses_kvm : VmmKind → Bool
uses_kvm spt = false
uses_kvm _ = true

unfoldable pub uses_tuntap : VmmKind → Bool
uses_tuntap hyperlight = false
uses_tuntap _ = true

unfoldable pub supports_sharedfs : VmmKind → String → Bool
supports_sharedfs qemu fs_type = true
supports_sharedfs cloud_hypervisor fs_type = fs_type == "virtio"
supports_sharedfs _ fs_type = false

unfoldable pub supports_control_socket : VmmKind → Bool
supports_control_socket qemu = true
supports_control_socket firecracker = true
supports_control_socket cloud_hypervisor = true
supports_control_socket _ = false

abbrev as_vmm_error : Traced (Result KillError (Unit {0})) → Traced (Result VmmError (Unit {0}))
as_vmm_error (ok v, trace) = (ok v, trace)
as_vmm_error (err e, trace) = (err (kill_error e), trace)

abbrev pub is_signal : ℤ → ℤ → Bool
is_signal (pos a) (pos b) = eqb a b
is_signal (negsuc a) (negsuc b) = eqb a b
is_signal _ _ = false

module _ (answers : Answers) (clock : ℕ → ℕ) where
  -- `Stop`
  unfoldable pub stop : VmmKind → ℤ → Traced (Result VmmError (Unit {0}))
  stop hedge pid = (err hedge_not_implemented, [])
  stop _ pid = as_vmm_error (kill_process answers clock pid)

  -- `Signal`: firecracker is stopped by SIGTERM and SIGINT.
  unfoldable pub signal : VmmKind → ℤ → ℤ → Traced (Result VmmError (Unit {0}))
  signal hedge pid sig = (err hedge_not_implemented, [])
  signal firecracker pid sig =
      if is_signal sig sigterm || is_signal sig sigint
      then stop firecracker pid
      else as_vmm_error (signal_process answers pid sig)
  signal _ pid sig = as_vmm_error (signal_process answers pid sig)
