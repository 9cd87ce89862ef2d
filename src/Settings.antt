-- ===== src/Settings.antt =====
-- pkg/unikontainers/urunc_config.go: the runtime's settings, their defaults, and how they are completed
-- after the TOML file is decoded. The decoder is a library: load_urunc_config takes its result.
pub mod Filled
use urunc.Prelude.{
  ℕ, suc, String, ◌==◌, Bool, true, false, Option, none, some, [], ◌∷◌, if◌then◌else◌,
}
use urunc.Prelude.Map.{Map, lookup, insert}
use urunc.Types.{MonitorConfig, no_monitor, ExtraBinConfig}

pub record UruncLog : Type 0 where
  pub level : String
  pub syslog : Bool

pub record UruncTimestamps : Type 0 where
  pub enabled : Bool
  pub destination : String

pub record UruncRuntime : Type 0 where
  pub libcontainer : Bool
  pub vaccel : Bool

pub record UruncConfig : Type 0 where
  pub log : UruncLog
  pub timestamps : UruncTimestamps
  pub runtime : UruncRuntime
  pub monitors : Map MonitorConfig
  pub extra_bins : Map ExtraBinConfig

abbrev pub libcontainer_key : String
libcontainer_key = "urunc_config.runtime.libcontainer"

abbrev pub vaccel_key : String
vaccel_key = "urunc_config.runtime.vAccel"

abbrev pub default_log_config : UruncLog
default_log_config = record { level = "info"; syslog = false }

abbrev pub default_timestamps_config : UruncTimestamps
default_timestamps_config = record {
  enabled = false;
  destination = "/var/log/urunc/timestamps.log";
}

abbrev pub default_runtime_config : UruncRuntime
default_runtime_config = record { libcontainer = false; vaccel = false }

abbrev pub default_monitor_memory_mb : ℕ
default_monitor_memory_mb = 256

abbrev pub default_monitor_vcpus : ℕ
default_monitor_vcpus = 1

abbrev pub default_monitor : MonitorConfig
default_monitor = record no_monitor {
  default_memory_mb = default_monitor_memory_mb;
  default_vcpus = default_monitor_vcpus;
}

unfoldable pub default_monitors_config : Map MonitorConfig
default_monitors_config =
    ("qemu", default_monitor)
    ∷ ("hvt", default_monitor)
    ∷ ("spt", default_monitor)
    ∷ ("firecracker", default_monitor)
    ∷ ("cloud-hypervisor", default_monitor)
    ∷ ("hyperlight-unikraft", default_monitor)
    ∷ []

abbrev pub default_virtiofsd : ExtraBinConfig
default_virtiofsd = record {
  path = "/usr/libexec/virtiofsd";
  options = "--cache always --sandbox none";
}

unfoldable pub default_extra_bin_config : Map ExtraBinConfig
default_extra_bin_config = ("virtiofsd", default_virtiofsd) ∷ []

unfoldable pub default_urunc_config : UruncConfig
unfolding default_monitors_config default_extra_bin_config
default_urunc_config = record {
  log = default_log_config;
  timestamps = default_timestamps_config;
  runtime = default_runtime_config;
  monitors = default_monitors_config;
  extra_bins = default_extra_bin_config;
}

abbrev pub or_nat : ℕ → ℕ → ℕ
or_nat default ℕ.zero = default
or_nat default (suc n) = suc n

abbrev pub or_text : String → String → String
or_text default s = if s == "" then default else s

-- One round of the loop over `cfg.Monitors` in LoadUruncConfig.
unfoldable pub fill_monitor : MonitorConfig → MonitorConfig
fill_monitor mon = record mon {
  default_memory_mb = or_nat default_monitor_memory_mb mon.default_memory_mb;
  default_vcpus = or_nat default_monitor_vcpus mon.default_vcpus;
}

unfoldable pub fill_monitors : Map MonitorConfig → Map MonitorConfig
unfolding fill_monitor
fill_monitors [] = []
fill_monitors ((name, mon) ∷ m) = (name, fill_monitor mon) ∷ fill_monitors m

unfoldable pub fill_virtiofsd : Map ExtraBinConfig → Map ExtraBinConfig
fill_virtiofsd m = elim (lookup "virtiofsd" m) [
  | none ↦ m
  | some bin ↦
      insert "virtiofsd"
        (record {
          path = or_text default_virtiofsd.path bin.path;
          options = or_text default_virtiofsd.options bin.options;
        })
        m
]

-- `LoadUruncConfig`. The argument is what toml.DecodeFile makes of the file and of the defaults, or
-- `none` where it fails; the Boolean says whether the error is returned with the configuration.
unfoldable pub load_urunc_config : Option UruncConfig → UruncConfig × Bool
unfolding default_urunc_config fill_monitors fill_virtiofsd
load_urunc_config none = (default_urunc_config, true)
load_urunc_config (some cfg) = (
  record cfg { monitors = fill_monitors cfg.monitors; extra_bins = fill_virtiofsd cfg.extra_bins },
  false,
)
