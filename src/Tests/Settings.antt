-- ===== src/Tests/Settings.antt =====
-- The settings and the annotations, at concrete values.
use urunc.Prelude.{String, true, false, Option, none, some, [], ◌∷◌, ◌≡◌, refl, ok, err, arith}
use urunc.Prelude.Map.{Map, insert, lookup, NodupKeys}
use urunc.Prelude.Text.{all_chars, byte_len, split, cut, cut_prefix}
use urunc.Prelude.Strconv.{parse_bool, atoi}
use urunc.Prelude.Filepath.{clean}
use urunc.Types.{MonitorConfig, ExtraBinConfig}
use urunc.Annotations.{UnikernelConfig, validate, config_map, get_unikernel_config}
use urunc.Annotations.Values.{validate_values, validate_annotation_path_clean, bad_path}
use urunc.Annotations.Accepted.{validate_values-IsAccepted, IsAccepted}
use urunc.Annotations.Survival.{get_unikernel_config-config_map}
use urunc.Annotations.Source.{get_unikernel_config-IsFromSpec, IsFromSpec}
use urunc.Settings.{UruncConfig, default_log_config, default_timestamps_config}
use urunc.Config.{
  store_monitors, store_monitor, store_extra_bins, store_extra_bin, to_map, runtime_from_map,
  urunc_config_from_map,
}
use urunc.Prelude.{All}
use urunc.Settings.{load_urunc_config}
use urunc.Settings.Filled.{load_urunc_config-IsFilled, IsFilled}
use urunc.Container.Saved.{new_annotations, save_annotations, monitor_of_saved}
use urunc.Config.RoundTrip.{
  Holds, runtime_round_trip, monitor_round_trip, extra_bin_round_trip, monitor_of, extra_bin_of,
}

abbrev linux_guest : UnikernelConfig
linux_guest = record {
  unikernel_type = "linux";
  unikernel_version = "6.1";
  unikernel_binary = "/boot/vmlinux";
  hypervisor = "qemu";
  initrd = "";
  snapshot = "";
  block = "";
  blk_mnt_point = "/";
  mount_rootfs = "true";
  net_dev = "";
  blk_dev = "";
  hyperlight_ports = "";
  v_accel = "vsock";
  rpc_address = "vsock://2:2048";
}

abbrev hyperlight_guest : UnikernelConfig
hyperlight_guest = record {
  unikernel_type = "unikraft";
  unikernel_version = "";
  unikernel_binary = "";
  hypervisor = "hyperlight-unikraft";
  initrd = "";
  snapshot = "state/guest.snap";
  block = "";
  blk_mnt_point = "";
  mount_rootfs = "";
  net_dev = "";
  blk_dev = "";
  hyperlight_ports = "80,8000-8080";
  v_accel = "";
  rpc_address = "";
}

hyperlight_guest_is_valid : validate_values hyperlight_guest ≡ ok tt
unfolding validate_values all_chars byte_len clean split cut atoi
hyperlight_guest_is_valid = refl

-- Options and steps up are refused.
path_tests :
    (validate_annotation_path_clean "-kernel" true ≡ err bad_path)
    × (validate_annotation_path_clean "../vmlinux" true ≡ err bad_path)
    × (validate_annotation_path_clean "boot/../vmlinux" true ≡ err bad_path)
    × (validate_annotation_path_clean "boot;reboot" true ≡ err bad_path)
    × (validate_annotation_path_clean "boot/vmlinux" true ≡ ok tt)
unfolding validate_annotation_path_clean all_chars byte_len clean
path_tests = (refl, refl, refl, refl, refl)

linux_guest_is_valid : validate_values linux_guest ≡ ok tt
unfolding validate_values all_chars byte_len clean parse_bool cut_prefix atoi
linux_guest_is_valid = refl

validate_values_example : IsAccepted hyperlight_guest
validate_values_example = validate_values-IsAccepted hyperlight_guest hyperlight_guest_is_valid

linux_guest_is_complete : validate linux_guest ≡ ok tt
unfolding validate
linux_guest_is_complete = refl

abbrev no_decoding : String → Option String
no_decoding s = none

abbrev no_json : String → Option UnikernelConfig
no_json path = none

abbrev joined : String → String → Option String
joined root path = some path

get_unikernel_config_example :
    get_unikernel_config no_decoding no_json joined "/bundle" "rootfs" (config_map linux_guest)
    ≡ ok linux_guest
get_unikernel_config_example =
    get_unikernel_config-config_map no_decoding no_json joined "/bundle" "rootfs" linux_guest
      linux_guest_is_complete

abbrev from_image : String → Option UnikernelConfig
from_image path = some linux_guest

abbrev as_is : String → Option String
as_is s = some s

abbrev ports_only : Map String
ports_only = ("com.urunc.unikernel.hyperlightPorts", "80") ∷ []

image_source_example :
    IsFromSpec as_is from_image joined "/bundle" "rootfs" ports_only
      (get_unikernel_config as_is from_image joined "/bundle" "rootfs" ports_only)
image_source_example =
    get_unikernel_config-IsFromSpec as_is from_image joined "/bundle" "rootfs" ports_only

abbrev qemu_monitor : MonitorConfig
qemu_monitor = record {
  default_memory_mb = 512;
  default_vcpus = 2;
  binary_path = "/usr/bin/qemu";
  data_path = "";
  vhost = true;
  socket_path = "";
}

abbrev virtiofsd_binary : ExtraBinConfig
virtiofsd_binary = record { path = "/usr/libexec/virtiofsd"; options = "--cache always" }

abbrev settings : UruncConfig
settings = record {
  log = default_log_config;
  timestamps = default_timestamps_config;
  runtime = record { libcontainer = true; vaccel = false };
  monitors = ("qemu", qemu_monitor) ∷ [];
  extra_bins = ("virtiofsd", virtiofsd_binary) ∷ [];
}

settings-Holds : Holds (to_map settings) settings
settings-Holds k v h = h

settings-NodupKeys : NodupKeys (to_map settings)
unfolding to_map store_monitors store_monitor store_extra_bins store_extra_bin insert lookup
settings-NodupKeys =
    (refl, (refl, (refl, (refl, (refl, (refl, (refl, (refl, (refl, (refl, tt))))))))))

monitors-NodupKeys : NodupKeys settings.monitors
unfolding lookup
monitors-NodupKeys = (refl, tt)

extra_bins-NodupKeys : NodupKeys settings.extra_bins
unfolding lookup
extra_bins-NodupKeys = (refl, tt)

qemu_at : lookup "qemu" settings.monitors ≡ some qemu_monitor
unfolding lookup
qemu_at = refl

virtiofsd_at : lookup "virtiofsd" settings.extra_bins ≡ some virtiofsd_binary
unfolding lookup
virtiofsd_at = refl

runtime_example : runtime_from_map (to_map settings) ≡ settings.runtime
runtime_example = runtime_round_trip (to_map settings) settings settings-NodupKeys settings-Holds

monitor_example : monitor_of (urunc_config_from_map (to_map settings)) "qemu" ≡ qemu_monitor
monitor_example =
    monitor_round_trip (to_map settings) settings settings-NodupKeys settings-Holds "qemu"
      (omega arith) monitors-NodupKeys qemu_at (omega arith, omega arith) (omega arith, omega arith)

extra_bin_example :
    extra_bin_of (urunc_config_from_map (to_map settings)) "virtiofsd" ≡ virtiofsd_binary
extra_bin_example =
    extra_bin_round_trip (to_map settings) settings settings-NodupKeys settings-Holds "virtiofsd"
      (omega arith) extra_bins-NodupKeys virtiofsd_at

-- A section of the file that only names the binary.
abbrev partial_settings : UruncConfig
partial_settings = record settings {
  monitors =
      (
        "hvt",
        record {
          default_memory_mb = 0;
          default_vcpus = 0;
          binary_path = "/opt/hvt";
          data_path = "";
          vhost = false;
          socket_path = "";
        },
      )
      ∷ [];
}

load_urunc_config_example : All IsFilled (load_urunc_config (some partial_settings)).0.monitors
load_urunc_config_example = load_urunc_config-IsFilled (some partial_settings)

abbrev pod_annotations : Map String
pod_annotations =
    ("urunc_config.monitors.qemu.binary_path", "/opt/other")
    ∷ ("io.kubernetes.cri.container-name", "web")
    ∷ []

monitor_of_saved_example :
    monitor_of
      (urunc_config_from_map
        (save_annotations pod_annotations (new_annotations linux_guest settings)))
      "qemu"
    ≡ qemu_monitor
monitor_of_saved_example =
    monitor_of_saved pod_annotations linux_guest settings "qemu" (omega arith) monitors-NodupKeys
      qemu_at (omega arith, omega arith) (omega arith, omega arith)
