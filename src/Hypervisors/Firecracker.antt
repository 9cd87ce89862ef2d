-- ===== src/Hypervisors/Firecracker.antt =====
-- pkg/unikontainers/hypervisors/firecracker.go: BuildExecCmd, and the configuration that it writes.
use urunc.Prelude.{
  ℕ, String, ◌<>◌, ◌==◌, Bool, false, not, List, [], ◌∷◌, ◌++◌, map, if◌then◌else◌, eqb, Result, ok,
  err,
}
use urunc.Types.{ExecArgs, Guest, MonitorBlockArgs}
use urunc.Hypervisors.{Vmm}
use urunc.Hypervisors.Process.{bytes_to_mib, default_memory}

pub record FirecrackerDrive : Type 0 where
  pub drive_id : String
  pub is_ro : Bool
  pub is_root_dev : Bool
  pub host_path : String

pub record FirecrackerNet : Type 0 where
  pub iface_id : String
  pub guest_mac : String
  pub host_if : String

pub record FirecrackerVSockDev : Type 0 where
  pub guest_cid : ℕ
  pub uds_path : String
  pub vsock_id : String

-- The boot source and the machine, whose two constant fields are false, and the devices.
pub record FirecrackerConfig : Type 0 where
  pub image_path : String
  pub boot_args : String
  pub initrd_path : String
  pub vcpu_count : ℕ
  pub mem_size_mib : ℕ
  pub drives : List FirecrackerDrive
  pub net_ifs : List FirecrackerNet
  pub vsock : FirecrackerVSockDev

unfoldable pub fc_mem : ℕ → ℕ
fc_mem mem_size_b =
    if eqb mem_size_b 0
    then default_memory
    else if eqb (bytes_to_mib mem_size_b) 0
    then default_memory
    else bytes_to_mib mem_size_b

abbrev fc_drive : MonitorBlockArgs → FirecrackerDrive
fc_drive b = record {
  drive_id = b.id;
  is_ro = false;
  is_root_dev = b.id == "rootfs";
  host_path = b.path;
}

-- The configuration of `BuildExecCmd`.
unfoldable pub fc_config : ExecArgs → Guest → FirecrackerConfig
fc_config args ukernel =
    let vsock = args.v_accel_type == "vsock" in
    record {
      image_path = args.unikernel_path;
      boot_args = args.command;
      initrd_path =
          if args.initrd_path == "" then ukernel.monitor_cli.extra_initrd else args.initrd_path;
      vcpu_count = args.vcpus;
      mem_size_mib = fc_mem args.mem_size_b;
      drives = map fc_drive ukernel.monitor_block_cli;
      net_ifs =
          if args.net.tap_dev == ""
          then []
          else record { iface_id = "net1"; guest_mac = args.net.mac; host_if = args.net.tap_dev }
            ∷ [];
      vsock = record {
        guest_cid = if vsock then args.v_sock_dev_id else 0;
        uds_path = if vsock then args.v_sock_dev_path <> "/vaccel.sock" else "";
        vsock_id = if vsock then "root" else "";
      };
    }

pub data FirecrackerError : Type 0 where
  config_not_saved : FirecrackerError

-- `BuildExecCmd`: the arguments and the configuration that it writes to /tmp/fc.json. Whether the
-- writing succeeds is an argument.
unfoldable pub build_exec_cmd :
    Bool → Vmm → ExecArgs → Guest → Result FirecrackerError (List String × FirecrackerConfig)
build_exec_cmd writes fc args ukernel =
    if not writes
    then err config_not_saved
    else ok (
      (fc.binary_path
            ∷ (if args.socket_path == ""
                then "--no-api" ∷ []
                else "--api-sock" ∷ args.socket_path ∷ []))
          ++ (("--config-file" ∷ "/tmp/fc.json" ∷ [])
              ++ (if args.seccomp then [] else "--no-seccomp" ∷ [])),
      fc_config args ukernel,
    )
