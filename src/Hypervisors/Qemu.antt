-- ===== src/Hypervisors/Qemu.antt =====
-- pkg/unikontainers/hypervisors/qemu.go: BuildExecCmd.
use urunc.Prelude.{String, ◌<>◌, ◌==◌, Bool, not, List, [], ◌∷◌, ◌++◌, ◌&&◌, if◌then◌else◌, eqb}
use urunc.Prelude.Strconv.{format_uint}
use urunc.Types.{ExecArgs, Guest, MonitorBlockArgs}
use urunc.Hypervisors.{Vmm}
use urunc.Hypervisors.Process.{bytes_to_string_mb}

-- `if cond { exArgs = append(exArgs, args...) }`
abbrev when : Bool → List String → List String
when cond args = if cond then args else []

-- The arguments that do not depend on the container, after the binary and the memory.
abbrev machine_args : List String
machine_args =
    "-L" ∷ "/usr/share/qemu" ∷ "-cpu" ∷ "host" ∷ "-enable-kvm" ∷ "-display" ∷ "none" ∷ "-vga"
    ∷ "none" ∷ "-serial" ∷ "stdio" ∷ "-monitor" ∷ "null" ∷ []

-- The network where the guest has no arguments of its own for it.
abbrev default_net : String → Bool → ExecArgs → List String
default_net goarch vhost args =
    "-netdev"
    ∷ ("tap,id=net0,script=no,downscript=no,ifname="
        <> (args.net.tap_dev <> (if vhost then ",vhost=on" else "")))
    ∷ "-device"
    ∷ ((if goarch == "arm64" then "virtio-net-device" else "virtio-net-pci")
        <> (",netdev=net0,host_mtu=" <> (format_uint args.net.mtu <> (",mac=" <> args.net.mac))))
    ∷ []

abbrev guest_or_default : List String → List String → List String
guest_or_default [] default_args = default_args
guest_or_default (a ∷ more) default_args = a ∷ more

unfoldable pub net_args : String → Bool → ExecArgs → Guest → List String
net_args goarch vhost args ukernel =
    if args.net.tap_dev == ""
    then "-nic" ∷ "none" ∷ []
    else guest_or_default (ukernel.monitor_net_cli args.net.tap_dev args.net.mac)
        (default_net goarch vhost args)

abbrev block_args : List MonitorBlockArgs → List String
block_args [] = []
block_args (b ∷ bs) =
    (if not (b.id == "") && not (b.path == "")
      then "-device"
        ∷ ("virtio-blk-pci,serial=" <> (b.id <> (",drive=" <> (b.id <> ",scsi=off"))))
        ∷ "-drive"
        ∷ ("format=raw,if=none,id=" <> (b.id <> (",file=" <> b.path)))
        ∷ []
      else b.exact_args)
    ++ block_args bs

unfoldable pub sharedfs_args : ExecArgs → Guest → List String
sharedfs_args args ukernel =
    if args.sharedfs.type == "9pfs"
    then ukernel.monitor_sharedfs_cli args.sharedfs.type args.sharedfs.path
    else if args.sharedfs.type == "virtiofs"
    then "-object"
      ∷ ("memory-backend-file,id=mem,size="
          <> (bytes_to_string_mb args.mem_size_b <> "M,mem-path=/tmp,share=on"))
      ∷ "-numa"
      ∷ "node,memdev=mem"
      ∷ "-chardev"
      ∷ "socket,id=char0,path=/tmp/vhostqemu"
      ∷ "-device"
      ∷ "vhost-user-fs-pci,queue-size=1024,chardev=char0,tag=fs0"
      ∷ []
    else []

-- `BuildExecCmd`
unfoldable pub build_exec_cmd : String → Vmm → ExecArgs → Guest → List String
build_exec_cmd goarch q args ukernel =
    (q.binary_path ∷ "-m" ∷ (bytes_to_string_mb args.mem_size_b <> "M") ∷ machine_args)
    ++ (when (not (args.socket_path == ""))
          ("-qmp" ∷ ("unix:" <> (args.socket_path <> ",server=on,wait=off")) ∷ [])
        ++ (when (not (eqb args.vcpus 0)) ("-smp" ∷ format_uint args.vcpus ∷ [])
            ++ (when args.seccomp (
                  "--sandbox"
                  ∷ "on,obsolete=deny,elevateprivileges=deny,spawn=deny,resourcecontrol=deny" ∷ [])
                ++ (when (goarch == "arm64") ("-M" ∷ "virt" ∷ [])
                    ++ (("-kernel" ∷ args.unikernel_path ∷ [])
                        ++ (net_args goarch q.vhost args ukernel
                            ++ (block_args ukernel.monitor_block_cli
                                ++ (when (not (args.initrd_path == ""))
                                      ("-initrd" ∷ args.initrd_path ∷ [])
                                    ++ (sharedfs_args args ukernel
                                        ++ (when (not (ukernel.monitor_cli.extra_initrd == ""))
                                              ("-initrd" ∷ ukernel.monitor_cli.extra_initrd ∷ [])
                                            ++ (ukernel.monitor_cli.other_args
                                                ++ (when (args.v_accel_type == "vsock") (
                                                      "-device"
                                                      ∷ ("vhost-vsock-pci,id=vhost-vsock-pci0,guest-cid="
                                                          <> format_uint args.v_sock_dev_id)
                                                      ∷ [])
                                                    ++ ("-append" ∷ args.command ∷ [])))))))))))))
