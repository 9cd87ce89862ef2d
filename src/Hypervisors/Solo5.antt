-- ===== src/Hypervisors/Solo5.antt =====
-- pkg/unikontainers/hypervisors: BuildExecCmd of hvt.go and spt.go, which have the same body.
use urunc.Prelude.{String, ◌<>◌, ◌==◌, List, [], ◌∷◌, ◌++◌, if◌then◌else◌}
use urunc.Types.{ExecArgs, Guest, MonitorBlockArgs}
use urunc.Hypervisors.{Vmm}
use urunc.Hypervisors.Process.{bytes_to_string_mb}

abbrev pub block_args : List MonitorBlockArgs → List String
block_args [] = []
block_args (b ∷ bs) =
    let rest = block_args bs in
    if b.path == "" then rest else ("--block:" <> (b.id <> ("=" <> b.path))) ∷ rest

abbrev pub net_args : ExecArgs → Guest → List String
net_args args ukernel =
    if args.net.tap_dev == "" then [] else ukernel.monitor_net_cli args.net.tap_dev args.net.mac

abbrev pub solo5_args_separator : String
solo5_args_separator = "--"

-- `BuildExecCmd`
unfoldable pub build_exec_cmd : Vmm → ExecArgs → Guest → List String
build_exec_cmd h args ukernel =
    (h.binary_path ∷ ("--mem=" <> bytes_to_string_mb args.mem_size_b) ∷ [])
    ++ (net_args args ukernel
        ++ (block_args ukernel.monitor_block_cli
            ++ (ukernel.monitor_cli.other_args
                ++ (solo5_args_separator
                    ∷ args.unikernel_path
                    ∷ (if args.command == "" then [] else args.command ∷ [])))))
