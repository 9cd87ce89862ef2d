-- ===== src/Config/Fields.antt =====
-- The fields that the two `switch parts[3]` set: each key sets its own field and no other.
use urunc.Prelude.{ℕ, String, ◌==◌, eq_iff, Bool, if◌then◌else◌, ◌≡◌, arith}
use urunc.Prelude.Strconv.{parse_bool, atoi}
use urunc.Config.Entries.{Field}
use urunc.Types.{MonitorConfig, ExtraBinConfig}
use urunc.Config.{set_monitor_field, set_extra_bin_field, positive_or, flag_or}

abbrev pub update_nat : String → ℕ → ℕ
update_nat val old = positive_or old (atoi val)

abbrev pub update_text : String → String → String
update_text val old = val

abbrev pub update_flag : String → Bool → Bool
update_flag val old = flag_or old (parse_bool val)

pub memory_law :
    (g val : String) (c : MonitorConfig)
    → (set_monitor_field g val c).default_memory_mb ≡ (
        if g == "default_memory_mb"
        then update_nat val c.default_memory_mb
        else c.default_memory_mb)
unfolding set_monitor_field
memory_law g val c = ground (
  arith,
  eq_iff g "default_memory_mb",
  eq_iff g "default_vcpus",
  eq_iff g "binary_path",
  eq_iff g "data_path",
  eq_iff g "socket_path",
  eq_iff g "vhost",
  eq_iff "default_vcpus" "default_memory_mb",
  eq_iff "binary_path" "default_memory_mb",
  eq_iff "data_path" "default_memory_mb",
  eq_iff "socket_path" "default_memory_mb",
  eq_iff "vhost" "default_memory_mb",
)

abbrev pub memory_field : Field ℕ set_monitor_field "default_memory_mb"
memory_field = record { proj = λ c. c.default_memory_mb; update = update_nat; law = memory_law }

pub vcpus_law :
    (g val : String) (c : MonitorConfig)
    → (set_monitor_field g val c).default_vcpus
      ≡ (if g == "default_vcpus" then update_nat val c.default_vcpus else c.default_vcpus)
unfolding set_monitor_field
vcpus_law g val c = ground (
  arith,
  eq_iff g "default_memory_mb",
  eq_iff g "default_vcpus",
  eq_iff g "binary_path",
  eq_iff g "data_path",
  eq_iff g "socket_path",
  eq_iff g "vhost",
  eq_iff "default_memory_mb" "default_vcpus",
  eq_iff "binary_path" "default_vcpus",
  eq_iff "data_path" "default_vcpus",
  eq_iff "socket_path" "default_vcpus",
  eq_iff "vhost" "default_vcpus",
)

abbrev pub vcpus_field : Field ℕ set_monitor_field "default_vcpus"
vcpus_field = record { proj = λ c. c.default_vcpus; update = update_nat; law = vcpus_law }

pub binary_path_law :
    (g val : String) (c : MonitorConfig)
    → (set_monitor_field g val c).binary_path
      ≡ (if g == "binary_path" then update_text val c.binary_path else c.binary_path)
unfolding set_monitor_field
binary_path_law g val c = ground (
  arith,
  eq_iff g "default_memory_mb",
  eq_iff g "default_vcpus",
  eq_iff g "binary_path",
  eq_iff g "data_path",
  eq_iff g "socket_path",
  eq_iff g "vhost",
  eq_iff "default_memory_mb" "binary_path",
  eq_iff "default_vcpus" "binary_path",
  eq_iff "data_path" "binary_path",
  eq_iff "socket_path" "binary_path",
  eq_iff "vhost" "binary_path",
)

abbrev pub binary_path_field : Field String set_monitor_field "binary_path"
binary_path_field = record {
  proj = λ c. c.binary_path;
  update = update_text;
  law = binary_path_law;
}

pub data_path_law :
    (g val : String) (c : MonitorConfig)
    → (set_monitor_field g val c).data_path
      ≡ (if g == "data_path" then update_text val c.data_path else c.data_path)
unfolding set_monitor_field
data_path_law g val c = ground (
  arith,
  eq_iff g "default_memory_mb",
  eq_iff g "default_vcpus",
  eq_iff g "binary_path",
  eq_iff g "data_path",
  eq_iff g "socket_path",
  eq_iff g "vhost",
  eq_iff "default_memory_mb" "data_path",
  eq_iff "default_vcpus" "data_path",
  eq_iff "binary_path" "data_path",
  eq_iff "socket_path" "data_path",
  eq_iff "vhost" "data_path",
)

abbrev pub data_path_field : Field String set_monitor_field "data_path"
data_path_field = record { proj = λ c. c.data_path; update = update_text; law = data_path_law }

pub socket_path_law :
    (g val : String) (c : MonitorConfig)
    → (set_monitor_field g val c).socket_path
      ≡ (if g == "socket_path" then update_text val c.socket_path else c.socket_path)
unfolding set_monitor_field
socket_path_law g val c = ground (
  arith,
  eq_iff g "default_memory_mb",
  eq_iff g "default_vcpus",
  eq_iff g "binary_path",
  eq_iff g "data_path",
  eq_iff g "socket_path",
  eq_iff g "vhost",
  eq_iff "default_memory_mb" "socket_path",
  eq_iff "default_vcpus" "socket_path",
  eq_iff "binary_path" "socket_path",
  eq_iff "data_path" "socket_path",
  eq_iff "vhost" "socket_path",
)

abbrev pub socket_path_field : Field String set_monitor_field "socket_path"
socket_path_field = record {
  proj = λ c. c.socket_path;
  update = update_text;
  law = socket_path_law;
}

pub vhost_law :
    (g val : String) (c : MonitorConfig)
    → (set_monitor_field g val c).vhost
      ≡ (if g == "vhost" then update_flag val c.vhost else c.vhost)
unfolding set_monitor_field
vhost_law g val c = ground (
  arith,
  eq_iff g "default_memory_mb",
  eq_iff g "default_vcpus",
  eq_iff g "binary_path",
  eq_iff g "data_path",
  eq_iff g "socket_path",
  eq_iff g "vhost",
  eq_iff "default_memory_mb" "vhost",
  eq_iff "default_vcpus" "vhost",
  eq_iff "binary_path" "vhost",
  eq_iff "data_path" "vhost",
  eq_iff "socket_path" "vhost",
)

abbrev pub vhost_field : Field Bool set_monitor_field "vhost"
vhost_field = record { proj = λ c. c.vhost; update = update_flag; law = vhost_law }

pub bin_path_law :
    (g val : String) (c : ExtraBinConfig)
    → (set_extra_bin_field g val c).path ≡ (if g == "path" then update_text val c.path else c.path)
unfolding set_extra_bin_field
bin_path_law g val c = ground (arith, eq_iff g "path", eq_iff g "options", eq_iff "options" "path")

abbrev pub bin_path_field : Field String set_extra_bin_field "path"
bin_path_field = record { proj = λ c. c.path; update = update_text; law = bin_path_law }

pub bin_options_law :
    (g val : String) (c : ExtraBinConfig)
    → (set_extra_bin_field g val c).options
      ≡ (if g == "options" then update_text val c.options else c.options)
unfolding set_extra_bin_field
bin_options_law g val c =
    ground (arith, eq_iff g "path", eq_iff g "options", eq_iff "path" "options")

abbrev pub bin_options_field : Field String set_extra_bin_field "options"
bin_options_field = record { proj = λ c. c.options; update = update_text; law = bin_options_law }
