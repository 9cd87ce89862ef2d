-- ===== src/Hypervisors/CloudHypervisor.antt =====
-- pkg/unikontainers/hypervisors/cloud_hypervisor.go: BuildExecCmd.
use urunc.Prelude.{String, ◌<>◌, ◌==◌, Bool, not, List, [], ◌∷◌, ◌++◌, if◌then◌else◌, eqb}
use urunc.Prelude.Strconv.{format_uint}
use urunc.Types.{ExecArgs, Guest, MonitorBlockArgs}
use urunc.Hypervisors.{Vmm}
use urunc.Hypervisors.Process.{bytes_to_string_mb}

abbrev when : Bool → List String → List String
when cond args = if cond then args else []

unfoldable pub net_args : ExecArgs → Guest → List String
net_args args ukernel =
    if args.net.tap_dev == ""
    then []
    else elim (ukernel.monitor_net_cli args.net.tap_dev args.net.mac) [
      | [] ↦ "--net" ∷ ("tap=" <> (args.net.tap_dev <> (",mac=" <> args.net.mac))) ∷ []
      | a ∷ more ↦ a ∷ more
    ]

abbrev disk_args : MonitorBlockArgs → List String
disk_args b = elim b.exact_args [
  | a ∷ more ↦ a ∷ more
  | [] ↦
      if b.path == ""
      then []
      else "--disk" ∷ ("path=" <> (b.path <> (if b.id == "" then "" else ",id=" <> b.id))) ∷ []
]

abbrev block_args : List MonitorBlockArgs → List String
block_args [] = []
block_args (b ∷ bs) = disk_args b ++ block_args bs

-- `BuildExecCmd`
unfoldable pub build_exec_cmd : Vmm → ExecArgs → Guest → List String
build_exec_cmd ch args ukernel =
    (ch.binary_path ∷ [])
    ++ (when (not (args.socket_path == "")) ("--api-socket" ∷ ("path=" <> args.socket_path) ∷ [])
        ++ (("--memory"
              ∷ ("size="
                  <> (bytes_to_string_mb args.mem_size_b
                      <> (if args.sharedfs.type == "virtiofs" then "M,shared=on" else "M")))
              ∷ [])
            ++ (when (not (eqb args.vcpus 0)) ("--cpus" ∷ ("boot=" <> format_uint args.vcpus) ∷ [])
                ++ (("--kernel"
                      ∷ args.unikernel_path
                      ∷ "--console"
                      ∷ "off"
                      ∷ "--serial"
                      ∷ "tty"
                      ∷ "--seccomp"
                      ∷ (if args.seccomp then "true" else "false")
                      ∷ [])
                    ++ (net_args args ukernel
                        ++ (block_args ukernel.monitor_block_cli
                            ++ (when (not (args.initrd_path == ""))
                                  ("--initramfs" ∷ args.initrd_path ∷ [])
                                ++ (when (not (ukernel.monitor_cli.extra_initrd == ""))
                                      ("--initramfs" ∷ ukernel.monitor_cli.extra_initrd ∷ [])
                                    ++ (when (args.sharedfs.type == "virtiofs")
                                          ("--fs" ∷ "tag=fs0,socket=/tmp/vhostqemu" ∷ [])
                                        ++ (when (args.v_accel_type == "vsock") (
                                              "--vsock"
                                              ∷ ("cid="
                                                  <> (format_uint args.v_sock_dev_id
                                                      <> (",socket="
                                                          <> (args.v_sock_dev_path
                                                            <> "/vaccel.sock"))))
                                              ∷ [])
                                            ++ (ukernel.monitor_cli.other_args
                                                ++ ("--cmdline" ∷ args.command ∷ []))))))))))))
