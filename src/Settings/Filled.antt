-- ===== src/Settings/Filled.antt =====
-- The settings that loading gives a monitor.
use urunc.Prelude.{◌<◌, String, Option, none, some, [], ◌∷◌, All, arith}
use urunc.Prelude.Map.{Map}
use urunc.Types.{MonitorConfig}
use urunc.Settings.{
  UruncConfig, fill_monitor, fill_monitors, load_urunc_config, default_urunc_config,
  default_monitors_config,
}

-- A monitor with no memory or no processor cannot start a guest.
abbrev pub IsFilled : String × MonitorConfig → Type 0
IsFilled entry = (0 < entry.1.default_memory_mb) × (0 < entry.1.default_vcpus)

fill_monitors-IsFilled : (ms : Map MonitorConfig) → All IsFilled (fill_monitors ms)
unfolding fill_monitors fill_monitor
fill_monitors-IsFilled [] = tt
fill_monitors-IsFilled ((name, c) ∷ ms) = ((ground arith, ground arith), fill_monitors-IsFilled ms)

-- Whatever the file decodes to, and also if it cannot be read, every monitor of the loaded settings has
-- memory and processors.
pub load_urunc_config-IsFilled :
    (decoded : Option UruncConfig) → All IsFilled (load_urunc_config decoded).0.monitors
unfolding load_urunc_config default_urunc_config default_monitors_config
load_urunc_config-IsFilled none = ground arith
load_urunc_config-IsFilled (some cfg) = fill_monitors-IsFilled cfg.monitors
