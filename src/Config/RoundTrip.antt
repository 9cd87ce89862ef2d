-- ===== src/Config/RoundTrip.antt =====
-- What UruncConfigFromMap recovers from the entries that `Map` stores.
use urunc.Prelude.{ℕ, ◌<◌, ◌^◌, String, Bool, some, ◌≡◌, refl, ◌∙◌, arith}
use urunc.Prelude.Map.{Map, lookup, NodupKeys}
use urunc.Prelude.Text.{Lacks}
use urunc.Prelude.Strconv.{
  format_bool, format_uint, parse_bool, atoi, parse_bool-format_bool, atoi-format_uint,
}
use urunc.Config.Entries.{Field, updated, read_entries-field}
use urunc.Config.Keys.{
  monitors_prefix, monitors_prefix-words, extra_bins_prefix, extra_bins_prefix-words,
}
use urunc.Config.Store.{
  render_monitor, render_extra_bin, to_map-monitor, to_map-extra_bin, to_map-libcontainer,
  to_map-vaccel,
}
use urunc.Types.{MonitorConfig, no_monitor, ExtraBinConfig, no_extra_bin}
use urunc.Settings.{
  UruncConfig, libcontainer_key, vaccel_key, default_monitors_config, default_extra_bin_config,
}
use urunc.Config.{
  choose, to_map, urunc_config_from_map, runtime_from_map, monitors_from_map, extra_bins_from_map,
  set_monitor_field, set_extra_bin_field, found, positive_or, flag_or,
}
use urunc.Config.Fields.{
  memory_field, vcpus_field, binary_path_field, data_path_field, socket_path_field, vhost_field,
  bin_path_field, bin_options_field,
}

-- The map holds at least the entries of the configuration: it is what `Map` gives, in any order, and
-- may hold annotations besides.
abbrev pub Holds : Map String → UruncConfig → Type 0
Holds m p = (k v : String) → lookup k (to_map p) ≡ some v → lookup k m ≡ some v

-- `cfg.Monitors[hv]` and `cfg.ExtraBins[eb]`, with the zero value of a missing key.
abbrev pub monitor_of : UruncConfig → String → MonitorConfig
monitor_of cfg hv = found monitors_prefix no_monitor set_monitor_field hv cfg.monitors

abbrev pub extra_bin_of : UruncConfig → String → ExtraBinConfig
extra_bin_of cfg eb = found extra_bins_prefix no_extra_bin set_extra_bin_field eb cfg.extra_bins

-- A size that survives: Atoi reads it back, and 0 would be taken for a missing value.
abbrev pub InRange : ℕ → Type 0
InRange n = (0 < n) × (n < 2 ^ 63)

positive_or_format : (n old : ℕ) → InRange n → positive_or old (atoi (format_uint n)) ≡ n
positive_or_format n old (pos_n, small) = rw (atoi-format_uint n small, positive_or) (ground arith)

flag_or_format : (b old : Bool) → flag_or old (parse_bool (format_bool b)) ≡ b
flag_or_format b old = rw (parse_bool-format_bool b, flag_or)

module _ (m : Map String) (p : UruncConfig) (u : NodupKeys m) (h : Holds m p) where
  -- If each key has one entry in the annotations, and they hold the entries that Map writes for the
  -- settings, then the runtime options read back from them are those of the settings.
  pub runtime_round_trip : runtime_from_map m ≡ p.runtime
  unfolding runtime_from_map
  runtime_round_trip =
      rw (h libcontainer_key _ (to_map-libcontainer p), h vaccel_key _ (to_map-vaccel p))
        (rw (
          choose,
          parse_bool-format_bool p.runtime.libcontainer,
          parse_bool-format_bool p.runtime.vaccel,
        ))

  module _ (hv : String) (free : Lacks b'.' hv) (um : NodupKeys p.monitors) {c : MonitorConfig}
      (at_hv : lookup hv p.monitors ≡ some c) where
    abbrev back : MonitorConfig
    back = monitor_of (urunc_config_from_map m) hv

    monitor_field :
        {V : Type 0} (field v : String) (fd : Field V set_monitor_field field)
        → Lacks b'.' field
        → render_monitor field c ≡ some v
        → fd.proj back
          ≡ fd.update v (
              fd.proj
                (found monitors_prefix no_monitor set_monitor_field hv default_monitors_config))
    unfolding urunc_config_from_map monitors_from_map
    monitor_field field v fd hf e =
        read_entries-field monitors_prefix no_monitor set_monitor_field hv field free hf
          "urunc_config" "monitors" monitors_prefix-words fd m default_monitors_config u
        ∙ rw (h _ _ (to_map-monitor hv field free hf p um at_hv e), updated)

    -- If each key has one entry in the annotations, and they hold the entries that Map writes for the
    -- settings, then a monitor of the settings is read back from them unchanged, provided that each monitor
    -- has one entry, its name has no dot, and its memory and its processors are above 0 and below 2^63.
    pub monitor_round_trip :
        InRange c.default_memory_mb
        → InRange c.default_vcpus
        → monitor_of (urunc_config_from_map m) hv ≡ c
    monitor_round_trip memory vcpus = λ i. record {
      default_memory_mb =
          (monitor_field "default_memory_mb" _ memory_field (omega arith) refl
              ∙ positive_or_format _ _ memory)
            i;
      default_vcpus =
          (monitor_field "default_vcpus" _ vcpus_field (omega arith) refl
              ∙ positive_or_format _ _ vcpus)
            i;
      binary_path = monitor_field "binary_path" _ binary_path_field (omega arith) refl i;
      data_path = monitor_field "data_path" _ data_path_field (omega arith) refl i;
      vhost = (monitor_field "vhost" _ vhost_field (omega arith) refl ∙ flag_or_format _ _) i;
      socket_path = monitor_field "socket_path" _ socket_path_field (omega arith) refl i;
    }

  module _ (eb : String) (free : Lacks b'.' eb) (ue : NodupKeys p.extra_bins) {c : ExtraBinConfig}
      (at_eb : lookup eb p.extra_bins ≡ some c) where
    extra_bin_field :
        (field v : String) (fd : Field String set_extra_bin_field field)
        → Lacks b'.' field
        → render_extra_bin field c ≡ some v
        → fd.proj (extra_bin_of (urunc_config_from_map m) eb)
          ≡ fd.update v (
              fd.proj (
                found extra_bins_prefix no_extra_bin set_extra_bin_field eb
                  default_extra_bin_config))
    unfolding urunc_config_from_map extra_bins_from_map
    extra_bin_field field v fd hf e =
        read_entries-field extra_bins_prefix no_extra_bin set_extra_bin_field eb field free hf
          "urunc_config" "extra_binaries" extra_bins_prefix-words fd m default_extra_bin_config u
        ∙ rw (h _ _ (to_map-extra_bin eb field free hf p ue at_eb e), updated)

    -- If each key has one entry in the annotations, and they hold the entries that Map writes for the
    -- settings, then an extra binary of the settings is read back from them unchanged, provided that each
    -- extra binary has one entry and its name has no dot.
    pub extra_bin_round_trip : extra_bin_of (urunc_config_from_map m) eb ≡ c
    extra_bin_round_trip = λ i. record {
      path = extra_bin_field "path" _ bin_path_field (omega arith) refl i;
      options = extra_bin_field "options" _ bin_options_field (omega arith) refl i;
    }
