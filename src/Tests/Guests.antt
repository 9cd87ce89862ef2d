-- ===== src/Tests/Guests.antt =====
-- Guests and the command lines of their monitors, on concrete inputs.
use urunc.Prelude.{
  suc, ◌+◌, ◌*◌, ◌%◌, ◌≤◌, ◌<◌, ◌==◌, true, false, some, [], ◌∷◌, ◌++◌, length, ok, ◌≡◌, refl, inr,
  arith, OnOk, if◌then◌else◌,
}
use urunc.Prelude.Text.{split, join, byte_len}
use urunc.Prelude.Fields.{Lacks-contains_char}
use urunc.Prelude.Strconv.{format_uint}
use urunc.Types.{NetDevParams, BlockDevParams, no_block_dev, ProcessConfig, ExecArgs}
use urunc.Hypervisors.{Vmm, hvt}
use urunc.Hypervisors.Process.{bytes_to_string_mb, bytes_to_mb}
use urunc.Hypervisors.Solo5.{build_exec_cmd}
use urunc.Hypervisors.Separated.{guest_args, build_exec_cmd-guest_args}
use urunc.Unikernels.Masks.{subnet_mask_to_cidr, mask_of, subnet_mask_to_cidr-mask_of}
use urunc.Unikernels.Urunit.{line_end, written, env_section, process_section, block_section}
use urunc.Unikernels.Linux.{Linux}
use urunc.Unikernels.Linux.Config.{build_urunit_config, config_lines, build_urunit_config-lines}
use urunc.Unikernels.Freebsd.{Freebsd, monitor_block_cli, urunit_sections, block_sector_size}
use urunc.Unikernels.Freebsd
use urunc.Unikernels.Attached.{
  nth, config_args, monitor_block_cli-config, build_urunit_config-whole,
}
use urunc.Unikernels.Solo5.{Mirage, mirage_guest, Rumprun, rumprun_guest}

abbrev net : NetDevParams
net = record {
  ip = "10.0.0.2";
  mask = "255.255.255.0";
  gateway = "10.0.0.1";
  mac = "52:54:00:12:34:56";
  tap_dev = "tap0_urunc";
  mtu = 1500;
  dns_server = "";
}

abbrev proc_conf : ProcessConfig
proc_conf = record { uid = 1000; gid = 100; work_dir = "/srv" }

abbrev data_volume : BlockDevParams
data_volume = record no_block_dev { id = "vol0"; source = "/dev/dm-1"; mount_point = "/data" }

abbrev linux_guest : Linux
linux_guest = record {
  app = "/urunit";
  command = "/bin/server -v";
  monitor = "firecracker";
  env = "PATH=/bin" ∷ "LANG=C" ∷ [];
  address = "10.0.0.2";
  gateway = "10.0.0.1";
  mask = "255.255.255.0";
  blk = data_volume ∷ [];
  root_fs_type = "block";
  initrd_conf = true;
  proc_config = proc_conf;
}

build_urunit_config-lines_example :
    split line_end (build_urunit_config linux_guest) ≡ config_lines linux_guest ++ ("" ∷ [])
build_urunit_config-lines_example =
    build_urunit_config-lines linux_guest
      (Lacks-contains_char 10 "PATH=/bin" refl, (Lacks-contains_char 10 "LANG=C" refl, tt))
      (Lacks-contains_char 10 "/srv" refl)
      ((Lacks-contains_char 10 "vol0" refl, Lacks-contains_char 10 "/data" refl), tt)

-- A variable with a line end in it adds lines of its own: here it ends the environment and names the
-- user of the process.
injected :
    split line_end
      (build_urunit_config (record linux_guest { env = "A=1\nUEE\nUCS\nUID:0" ∷ []; blk = [] }))
    ≡ "UES" ∷ "A=1" ∷ "UEE" ∷ "UCS" ∷ "UID:0" ∷ "UEE" ∷ "UCS" ∷ "UID:1000" ∷ "GID:100" ∷ "WD:/srv"
      ∷ "UCE" ∷ "UBS" ∷ "UBE" ∷ "" ∷ []
unfolding split build_urunit_config written env_section process_section block_section join
    format_uint
injected = refl

abbrev freebsd_guest : Freebsd
freebsd_guest = record {
  command = "/bin/server" ∷ [];
  init_path = "/urunit";
  with_urunit = true;
  monitor = "firecracker";
  env = "LANG=C" ∷ [];
  root_fs_type = "block";
  block_fs_type = "ufs";
  address = "10.0.0.2";
  gateway = "10.0.0.1";
  mask = "255.255.255.0";
  block =
      record no_block_dev { id = "rootfs"; source = "/dev/dm-0"; mount_point = "/" }
      ∷ data_volume
      ∷ [];
  proc_config = proc_conf;
}

whole_example :
    (byte_len (Freebsd.build_urunit_config freebsd_guest) % block_sector_size ≡ 0)
    × (byte_len (urunit_sections freebsd_guest)
        ≤ byte_len (Freebsd.build_urunit_config freebsd_guest))
    × (byte_len (Freebsd.build_urunit_config freebsd_guest)
        < byte_len (urunit_sections freebsd_guest) + block_sector_size)
whole_example = build_urunit_config-whole freebsd_guest

monitor_block_cli-config_example :
    (nth (length freebsd_guest.block) (monitor_block_cli freebsd_guest)
      ≡ some (config_args freebsd_guest.monitor))
    × (length (monitor_block_cli freebsd_guest) ≡ suc (length freebsd_guest.block))
monitor_block_cli-config_example = monitor_block_cli-config freebsd_guest refl (inr refl)

mask_of_example :
    (subnet_mask_to_cidr (mask_of 20) ≡ ok 20)
    × OnOk (λ n. n ≤ 32) (subnet_mask_to_cidr "255.0.255.0")
mask_of_example = subnet_mask_to_cidr-mask_of 20 "255.0.255.0" (omega arith)

abbrev tender : Vmm
tender = record {
  kind = hvt;
  binary = "solo5-hvt";
  binary_path = "/usr/bin/solo5-hvt";
  vhost = false;
}

abbrev exec_args : ExecArgs
exec_args = record {
  container_id = "c1";
  environment = [];
  command = "--ipv4=10.0.0.2/24";
  seccomp = true;
  mem_size_b = 268435456;
  resolv_conf = false;
  ports = "";
  vcpus = 1;
  unikernel_path = "/cntrRootfs/unikernel.hvt";
  initrd_path = "";
  snapshot_path = "";
  v_accel_type = "";
  v_sock_dev_path = "";
  v_sock_dev_id = 0;
  socket_path = "";
  net = net;
  sharedfs = record { type = ""; path = "" };
}

abbrev mirage : Mirage
mirage = record {
  command = "";
  monitor = "hvt";
  address = "--ipv4=10.0.0.2/24";
  gateway = "--ipv4-gateway=10.0.0.1";
  block = data_volume ∷ [];
  net_dev_name = "service";
  blk_dev_name = "storage";
}

abbrev rumprun : Rumprun
rumprun = record {
  command = "redis-server";
  monitor = "hvt";
  envs = [];
  net = record {
    interface = "";
    cloner = "";
    type = "";
    method = "";
    address = "";
    mask = "";
    gateway = "";
  };
  blk = record {
    host_path = "/dev/dm-1";
    source = "etfs";
    path = "/dev/ld0a";
    fs_type = "blk";
    mountpoint = "/data";
  };
}

guest_args_example :
    (guest_args (build_exec_cmd tender exec_args (mirage_guest mirage))
      ≡ exec_args.unikernel_path ∷ (if exec_args.command == "" then [] else exec_args.command ∷ []))
    × (guest_args (build_exec_cmd tender exec_args (rumprun_guest rumprun))
        ≡ exec_args.unikernel_path
          ∷ (if exec_args.command == "" then [] else exec_args.command ∷ []))
guest_args_example = build_exec_cmd-guest_args tender exec_args mirage rumprun

-- 512 MiB as a limit: QEMU reads its "536M" as mebibytes, which is more than the limit.
over_limit : (bytes_to_string_mb 536870912 ≡ "536") × (536870912 < 536 * 1048576)
unfolding bytes_to_string_mb bytes_to_mb format_uint
over_limit = (refl, omega arith)
