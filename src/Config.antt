-- ===== src/Config.antt =====
-- pkg/unikontainers/urunc_config.go: the configuration, how it is completed after it is decoded from
-- TOML, how it is written to the annotations of state.json and how it is read back. The TOML decoder
-- is a library: `load` takes its result.
pub mod Entries
pub mod Keys
pub mod Store
pub mod Fields
pub mod RoundTrip
use urunc.Prelude.{
  ℕ, suc, ◌+◌, String, ◌<>◌, ◌==◌, starts_with, Bool, true, false, Option, none, some, List, [],
  ◌∷◌, if◌then◌else◌,
}
use urunc.Prelude.Map.{Map, lookup, insert}
use urunc.Prelude.Text.{split}
use urunc.Prelude.Strconv.{ℤ, pos, negsuc, format_bool, parse_bool, format_uint, atoi}
use urunc.Types.{MonitorConfig, no_monitor, ExtraBinConfig, no_extra_bin}
use urunc.Settings.{
  UruncLog, UruncTimestamps, UruncRuntime, UruncConfig, libcontainer_key, vaccel_key,
  default_log_config, default_timestamps_config, default_runtime_config, default_monitor_memory_mb,
  default_monitor_vcpus, default_monitor, default_monitors_config, default_virtiofsd,
  default_extra_bin_config, default_urunc_config, or_nat, or_text, fill_monitor, fill_monitors,
  fill_virtiofsd, load_urunc_config,
}

abbrev pub choose : Bool → Option String → Bool
choose default none = default
choose default (some val) = elim (parse_bool val) [ none ↦ default | some choice ↦ choice ]

unfoldable pub runtime_from_map : Map String → UruncRuntime
runtime_from_map cfg_map = record {
  libcontainer = choose default_runtime_config.libcontainer (lookup libcontainer_key cfg_map);
  vaccel = choose default_runtime_config.vaccel (lookup vaccel_key cfg_map);
}

-- The entries of one monitor in `Map`.
unfoldable pub store_monitor : String → MonitorConfig → Map String → Map String
store_monitor hv c m =
    let prefix = ("urunc_config.monitors." <> hv) <> "." in
    insert (prefix <> "socket_path") c.socket_path (
      insert (prefix <> "vhost") (format_bool c.vhost) (
        insert (prefix <> "data_path") c.data_path (
          insert (prefix <> "binary_path") c.binary_path (
            insert (prefix <> "default_vcpus") (format_uint c.default_vcpus)
              (insert (prefix <> "default_memory_mb") (format_uint c.default_memory_mb) m)))))

unfoldable pub store_monitors : Map MonitorConfig → Map String → Map String
store_monitors [] m = m
store_monitors ((hv, c) ∷ cs) m = store_monitors cs (store_monitor hv c m)

unfoldable pub store_extra_bin : String → ExtraBinConfig → Map String → Map String
store_extra_bin eb c m =
    let prefix = ("urunc_config.extra_binaries." <> eb) <> "." in
    insert (prefix <> "options") c.options (insert (prefix <> "path") c.path m)

unfoldable pub store_extra_bins : Map ExtraBinConfig → Map String → Map String
store_extra_bins [] m = m
store_extra_bins ((eb, c) ∷ cs) m = store_extra_bins cs (store_extra_bin eb c m)

-- `(*UruncConfig).Map`
unfoldable pub to_map : UruncConfig → Map String
to_map p = store_extra_bins p.extra_bins (
    store_monitors p.monitors (
      insert vaccel_key (format_bool p.runtime.vaccel)
        (insert libcontainer_key (format_bool p.runtime.libcontainer) [])))

abbrev pub positive_or : ℕ → Option ℤ → ℕ
positive_or old none = old
positive_or old (some (pos ℕ.zero)) = old
positive_or old (some (pos (suc n))) = suc n
positive_or old (some (negsuc n)) = old

abbrev pub flag_or : Bool → Option Bool → Bool
flag_or old none = old
flag_or old (some b) = b

-- The `switch parts[3]` over the settings of a monitor.
unfoldable pub set_monitor_field : String → String → MonitorConfig → MonitorConfig
set_monitor_field field val c =
    if field == "default_memory_mb"
    then record c { default_memory_mb = positive_or c.default_memory_mb (atoi val) }
    else if field == "default_vcpus"
    then record c { default_vcpus = positive_or c.default_vcpus (atoi val) }
    else if field == "binary_path"
    then record c { binary_path = val }
    else if field == "data_path"
    then record c { data_path = val }
    else if field == "socket_path"
    then record c { socket_path = val }
    else if field == "vhost"
    then record c { vhost = flag_or c.vhost (parse_bool val) }
    else c

unfoldable pub set_extra_bin_field : String → String → ExtraBinConfig → ExtraBinConfig
set_extra_bin_field field val c =
    if field == "path"
    then record c { path = val }
    else if field == "options"
    then record c { options = val }
    else c

-- The two loops of UruncConfigFromMap differ in the prefix of the keys and in the type of the
-- settings; each reads keys of the form prefix, name, dot, field.
module _ {C : Type 0} (prefix : String) (zero_value : C) (set_field : String → String → C → C) where
  -- `hvCfg, exists := cfg.Monitors[hv]`
  abbrev pub found : String → Map C → C
  found name cs = elim (lookup name cs) [ none ↦ zero_value | some c ↦ c ]

  -- After `parts := strings.Split(key, ".")`; another number of parts than four is skipped.
  abbrev pub read_parts : List String → String → Map C → Map C
  read_parts (_ ∷ _ ∷ name ∷ field ∷ []) val cs =
      insert name (set_field field val (found name cs)) cs
  read_parts _ val cs = cs

  unfoldable pub read_entry : String → String → Map C → Map C
  read_entry key val cs = if starts_with key prefix then read_parts (split b'.' key) val cs else cs

  unfoldable pub read_entries : Map String → Map C → Map C
  read_entries [] cs = cs
  read_entries ((key, val) ∷ m) cs = read_entries m (read_entry key val cs)

unfoldable pub monitors_from_map : Map String → Map MonitorConfig
unfolding default_monitors_config
monitors_from_map cfg_map =
    read_entries "urunc_config.monitors." no_monitor set_monitor_field cfg_map
      default_monitors_config

unfoldable pub extra_bins_from_map : Map String → Map ExtraBinConfig
unfolding default_extra_bin_config
extra_bins_from_map cfg_map =
    read_entries "urunc_config.extra_binaries." no_extra_bin set_extra_bin_field cfg_map
      default_extra_bin_config

-- `UruncConfigFromMap`. The log and timestamp sections are not stored and keep their zero values.
unfoldable pub urunc_config_from_map : Map String → UruncConfig
urunc_config_from_map cfg_map = record {
  log = record { level = ""; syslog = false };
  timestamps = record { enabled = false; destination = "" };
  runtime = runtime_from_map cfg_map;
  monitors = monitors_from_map cfg_map;
  extra_bins = extra_bins_from_map cfg_map;
}
