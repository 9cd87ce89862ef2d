-- ===== src/Lifecycle/States.antt =====
-- pkg/unikontainers/unikontainers.go: the state of a container as New makes it, and as InitialSetup,
-- Create and SetRunningState change and save it.
use urunc.Prelude.{String, ◌==◌, if◌then◌else◌}
use urunc.Prelude.Map.{Map}
use urunc.Prelude.Strconv.{ℤ, negsuc}
use urunc.Prelude.Filepath.{join_paths}
use urunc.Container.{State}
use urunc.Container.Saved.{save_annotations}

-- The state of `New`, less its version.
abbrev pub new_state : String → String → Map String → State
new_state container_id bundle_path conf_map = record {
  id = container_id;
  status = "creating";
  pid = negsuc 0;
  bundle = bundle_path;
  annotations = conf_map;
}

-- `saveContainerState`: what it writes is also the state that the process goes on with.
unfoldable pub save_container_state : Map String → State → State
save_container_state spec s = record s { annotations = save_annotations spec s.annotations }

abbrev pub initial_setup_state : State → State
initial_setup_state s = record s { status = "creating" }

-- The file that `Create` writes the pid to.
abbrev pub pid_file_path : State → String → String
pid_file_path s path = if path == "" then join_paths s.bundle "init.pid" else path

abbrev pub create_state : State → ℤ → State
create_state s new_pid = record s { pid = new_pid; status = "created" }

abbrev pub set_running_state : State → State
set_running_state s = record s { status = "running" }
