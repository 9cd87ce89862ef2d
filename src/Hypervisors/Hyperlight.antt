-- ===== src/Hypervisors/Hyperlight.antt =====
-- pkg/unikontainers/hypervisors/hyperlight.go: BuildExecCmd.
use urunc.Prelude.{
  ℕ, String, ◌<>◌, ◌==◌, not, List, [], ◌∷◌, ◌++◌, map, if◌then◌else◌, eqb, Result, ok, err,
}
use urunc.Prelude.Text.{split}
use urunc.Prelude.Strconv.{format_uint}
use urunc.Types.{ExecArgs, Guest}
use urunc.Hypervisors.{Vmm}
use urunc.Hypervisors.Process.{bytes_to_mib}

pub data HyperlightError : Type 0 where
  no_initrd : HyperlightError

abbrev comma : ℕ
comma = b','

-- `portArgs`
unfoldable pub port_args : String → List String
port_args ports =
    if ports == "" then "--port=all" ∷ [] else map (λ p. "--port=" <> p) (split comma ports)

-- `netArgs`
unfoldable pub net_args : ExecArgs → List String
net_args args =
    if args.net.ip == ""
    then []
    else ("--net" ∷ port_args args.ports)
      ++ (if args.resolv_conf then "--resolv-conf=/etc/resolv.conf" ∷ [] else [])

-- `BuildExecCmd`
unfoldable pub build_exec_cmd : Vmm → ExecArgs → Guest → Result HyperlightError (List String)
build_exec_cmd h args ukernel =
    if not (args.snapshot_path == "")
    then ok (
        (h.binary_path ∷ "snapshot" ∷ "run" ∷ args.snapshot_path ∷ [])
        ++ (net_args args ++ ukernel.monitor_cli.other_args))
    else if args.initrd_path == ""
    then err no_initrd
    else ok (
        (h.binary_path ∷ "run" ∷ [])
        ++ ((if args.unikernel_path == "" then [] else "--kernel" ∷ args.unikernel_path ∷ [])
            ++ (("--initrd" ∷ args.initrd_path ∷ [])
                ++ ((if eqb (bytes_to_mib args.mem_size_b) 0
                      then []
                      else "--scratch-mb" ∷ format_uint (bytes_to_mib args.mem_size_b) ∷ [])
                    ++ (net_args args ++ ukernel.monitor_cli.other_args)))))
