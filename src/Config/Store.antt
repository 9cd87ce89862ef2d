-- ===== src/Config/Store.antt =====
-- What `Map` stores under the key of a field.
use urunc.Prelude.{
  String, ◌==◌, eq_iff, Option, none, some, List, [], ◌∷◌, if◌then◌else◌, ◌≡◌, ◌≢◌, refl, ◌∙◌, ap,
  arith, inl, inr, Bool-cases,
}
use urunc.Prelude.Map.{Map, lookup, NodupKeys, lookup-insert}
use urunc.Prelude.Text.{split, Lacks}
use urunc.Prelude.Strconv.{format_bool, format_uint}
use urunc.Config.Entries.{key, key-rest, split-prefix}
use urunc.Types.{MonitorConfig, ExtraBinConfig}
use urunc.Settings.{UruncConfig, libcontainer_key, vaccel_key}
use urunc.Config.{store_monitor, store_monitors, store_extra_bin, store_extra_bins, to_map}
use urunc.Config.Keys.{
  key-eq, key-ne, monitors_prefix, extra_bins_prefix, monitors_prefix-words,
  extra_bins_prefix-words,
}

-- The text that is stored for a field of a monitor.
abbrev pub render_monitor : String → MonitorConfig → Option String
render_monitor field c =
    if "socket_path" == field
    then some c.socket_path
    else if "vhost" == field
    then some (format_bool c.vhost)
    else if "data_path" == field
    then some c.data_path
    else if "binary_path" == field
    then some c.binary_path
    else if "default_vcpus" == field
    then some (format_uint c.default_vcpus)
    else if "default_memory_mb" == field
    then some (format_uint c.default_memory_mb)
    else none

abbrev pub render_extra_bin : String → ExtraBinConfig → Option String
render_extra_bin field c =
    if "options" == field then some c.options else if "path" == field then some c.path else none

abbrev pub or_stored : Option String → Option String → Option String
or_stored none old = old
or_stored (some v) old = some v

abbrev pub stored : {C : Type 0} → (C → Option String) → Option C → Option String → Option String
stored render none old = old
stored render (some c) old = or_stored (render c) old

module _ (name field : String) (hn : Lacks b'.' name) (hf : Lacks b'.' field) where
  store_monitor-key :
      (hv : String) (c : MonitorConfig) (m : Map String)
      → lookup (key monitors_prefix name field) (store_monitor hv c m) ≡ (
          if hv == name
          then or_stored (render_monitor field c) (lookup (key monitors_prefix name field) m)
          else lookup (key monitors_prefix name field) m)
  unfolding store_monitor
  store_monitor-key hv c m = simp lookup-insert (
      rw
        (
          key-eq name field hn hf monitors_prefix hv "socket_path" (omega arith),
          key-eq name field hn hf monitors_prefix hv "vhost" (omega arith),
          key-eq name field hn hf monitors_prefix hv "data_path" (omega arith),
          key-eq name field hn hf monitors_prefix hv "binary_path" (omega arith),
          key-eq name field hn hf monitors_prefix hv "default_vcpus" (omega arith),
          key-eq name field hn hf monitors_prefix hv "default_memory_mb" (omega arith),
        )
        (ground arith))

  store_monitors-key :
      (cs : Map MonitorConfig) (m : Map String)
      → NodupKeys cs
      → lookup (key monitors_prefix name field) (store_monitors cs m)
        ≡ stored (render_monitor field) (lookup name cs) (lookup (key monitors_prefix name field) m)
  unfolding store_monitors lookup
  store_monitors-key [] m u = refl
  store_monitors-key ((hv, c) ∷ cs) m (fresh, u) = elim (Bool-cases (hv == name)) [
    | inl same ↦ rw (
      same,
      store_monitors-key cs (store_monitor hv c m) u,
      store_monitor-key hv c m,
      same,
      ← (eq_iff hv name).0 same,
      fresh,
    )
    | inr other ↦
        rw (other, store_monitors-key cs (store_monitor hv c m) u, store_monitor-key hv c m, other)
  ]

  store_extra_bin-key :
      (eb : String) (c : ExtraBinConfig) (m : Map String)
      → lookup (key extra_bins_prefix name field) (store_extra_bin eb c m) ≡ (
          if eb == name
          then or_stored (render_extra_bin field c) (lookup (key extra_bins_prefix name field) m)
          else lookup (key extra_bins_prefix name field) m)
  unfolding store_extra_bin
  store_extra_bin-key eb c m = simp lookup-insert (
      rw
        (
          key-eq name field hn hf extra_bins_prefix eb "options" (omega arith),
          key-eq name field hn hf extra_bins_prefix eb "path" (omega arith),
        )
        (ground arith))

  store_extra_bins-key :
      (cs : Map ExtraBinConfig) (m : Map String)
      → NodupKeys cs
      → lookup (key extra_bins_prefix name field) (store_extra_bins cs m)
        ≡ stored
            (render_extra_bin field)
            (lookup name cs)
            (lookup (key extra_bins_prefix name field) m)
  unfolding store_extra_bins lookup
  store_extra_bins-key [] m u = refl
  store_extra_bins-key ((eb, c) ∷ cs) m (fresh, u) = elim (Bool-cases (eb == name)) [
    | inl same ↦ rw (
      same,
      store_extra_bins-key cs (store_extra_bin eb c m) u,
      store_extra_bin-key eb c m,
      same,
      ← (eq_iff eb name).0 same,
      fresh,
    )
    | inr other ↦ rw (
      other,
      store_extra_bins-key cs (store_extra_bin eb c m) u,
      store_extra_bin-key eb c m,
      other,
    )
  ]

-- The texts whose second part is another word than that of the loop are left alone.
module _ (s v₁ v₂ : String) {rest : List String} (parts : split b'.' s ≡ v₁ ∷ v₂ ∷ rest) where
  store_extra_bins-other :
      "extra_binaries" ≢ v₂
      → (cs : Map ExtraBinConfig) (m : Map String) → lookup s (store_extra_bins cs m) ≡ lookup s m
  unfolding store_extra_bins store_extra_bin
  store_extra_bins-other ne [] m = refl
  store_extra_bins-other ne ((eb, c) ∷ cs) m =
      store_extra_bins-other ne cs (store_extra_bin eb c m)
      ∙ simp lookup-insert (
          rw (
            key-ne _ _ extra_bins_prefix eb "options" v₁ v₂ s extra_bins_prefix-words parts ne,
            key-ne _ _ extra_bins_prefix eb "path" v₁ v₂ s extra_bins_prefix-words parts ne,
          ))

  store_monitors-other :
      "monitors" ≢ v₂
      → (cs : Map MonitorConfig) (m : Map String) → lookup s (store_monitors cs m) ≡ lookup s m
  unfolding store_monitors store_monitor
  store_monitors-other ne [] m = refl
  store_monitors-other ne ((hv, c) ∷ cs) m =
      store_monitors-other ne cs (store_monitor hv c m)
      ∙ simp lookup-insert (
          rw (
            key-ne _ _ monitors_prefix hv "socket_path" v₁ v₂ s monitors_prefix-words parts ne,
            key-ne _ _ monitors_prefix hv "vhost" v₁ v₂ s monitors_prefix-words parts ne,
            key-ne _ _ monitors_prefix hv "data_path" v₁ v₂ s monitors_prefix-words parts ne,
            key-ne _ _ monitors_prefix hv "binary_path" v₁ v₂ s monitors_prefix-words parts ne,
            key-ne _ _ monitors_prefix hv "default_vcpus" v₁ v₂ s monitors_prefix-words parts ne,
            key-ne _ _ monitors_prefix hv "default_memory_mb" v₁ v₂ s monitors_prefix-words parts
                ne,
          ))

word-ne :
    (◌≢◌ {A = String} "monitors" "runtime")
    × (◌≢◌ {A = String} "extra_binaries" "runtime")
    × (◌≢◌ {A = String} "extra_binaries" "monitors")
word-ne = (
  ground (arith, eq_iff "monitors" "runtime"),
  ground (arith, eq_iff "extra_binaries" "runtime"),
  ground (arith, eq_iff "extra_binaries" "monitors"),
)

-- The stored text of each kind of setting.
pub to_map-libcontainer :
    (p : UruncConfig)
    → lookup libcontainer_key (to_map p) ≡ some (format_bool p.runtime.libcontainer)
unfolding to_map split
to_map-libcontainer p =
    store_extra_bins-other libcontainer_key "urunc_config" "runtime" refl word-ne.1 p.extra_bins _
    ∙ store_monitors-other libcontainer_key "urunc_config" "runtime" refl word-ne.0 p.monitors _
    ∙ simp lookup-insert

pub to_map-vaccel :
    (p : UruncConfig) → lookup vaccel_key (to_map p) ≡ some (format_bool p.runtime.vaccel)
unfolding to_map split
to_map-vaccel p =
    store_extra_bins-other vaccel_key "urunc_config" "runtime" refl word-ne.1 p.extra_bins _
    ∙ store_monitors-other vaccel_key "urunc_config" "runtime" refl word-ne.0 p.monitors _
    ∙ simp lookup-insert

module _ (name field : String) (hn : Lacks b'.' name) (hf : Lacks b'.' field)
    (p : UruncConfig) where
  pub to_map-monitor :
      {c : MonitorConfig} {v : String}
      → NodupKeys p.monitors
      → lookup name p.monitors ≡ some c
      → render_monitor field c ≡ some v
      → lookup (key monitors_prefix name field) (to_map p) ≡ some v
  unfolding to_map
  to_map-monitor u at_name e =
      store_extra_bins-other (key monitors_prefix name field) "urunc_config" "monitors"
        (ap (split b'.') (key-rest monitors_prefix name field)
          ∙ split-prefix "urunc_config" "monitors" monitors_prefix _ monitors_prefix-words)
        word-ne.2 p.extra_bins _
      ∙ store_monitors-key name field hn hf p.monitors _ u
      ∙ rw (at_name, stored, e)

  pub to_map-extra_bin :
      {c : ExtraBinConfig} {v : String}
      → NodupKeys p.extra_bins
      → lookup name p.extra_bins ≡ some c
      → render_extra_bin field c ≡ some v
      → lookup (key extra_bins_prefix name field) (to_map p) ≡ some v
  unfolding to_map
  to_map-extra_bin u at_name e =
      store_extra_bins-key name field hn hf p.extra_bins _ u ∙ rw (at_name, stored, e)
