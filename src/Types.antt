-- ===== src/Types.antt =====
-- pkg/unikontainers/types/types.go: the data that the components exchange. Of the types of the OCI
-- runtime specification (specs.Mount, specs.LinuxDevice) the fields that urunc reads or writes.
use urunc.Prelude.{ℕ, String, Bool, List, []}

-- What `NetDevParams` says of the container's network.
pub record NetDevParams : Type 0 where
  pub ip : String
  pub mask : String
  pub gateway : String
  pub mac : String
  pub tap_dev : String
  pub mtu : ℕ
  pub dns_server : String

pub record BlockDevParams : Type 0 where
  pub source : String
  pub mount_point : String
  pub fs_type : String
  pub id : String
  pub host_mount_point : String
  pub loop_autoclear : Bool
  pub mount_options : String
  pub is_explicit : Bool

-- The zero value.
abbrev pub no_block_dev : BlockDevParams
no_block_dev = record {
  source = "";
  mount_point = "";
  fs_type = "";
  id = "";
  host_mount_point = "";
  loop_autoclear = Bool.false;
  mount_options = "";
  is_explicit = Bool.false;
}

pub record SharedfsParams : Type 0 where
  pub type : String
  pub path : String

pub record RootfsParams : Type 0 where
  pub type : String
  pub path : String
  pub mounted_path : String
  pub mon_rootfs : String

pub record ExtraBinConfig : Type 0 where
  pub path : String
  pub options : String

abbrev pub no_extra_bin : ExtraBinConfig
no_extra_bin = record { path = ""; options = "" }

-- `DefaultMemoryMB` and `DefaultVCPUs` are of Go's type uint, which has 64 bits here.
pub record MonitorConfig : Type 0 where
  pub default_memory_mb : ℕ
  pub default_vcpus : ℕ
  pub binary_path : String
  pub data_path : String
  pub vhost : Bool
  pub socket_path : String

abbrev pub no_monitor : MonitorConfig
no_monitor = record {
  default_memory_mb = 0;
  default_vcpus = 0;
  binary_path = "";
  data_path = "";
  vhost = Bool.false;
  socket_path = "";
}

-- `specs.Mount`
pub record Mount : Type 0 where
  pub type : String
  pub source : String
  pub destination : String
  pub options : List String

-- The process inside of a Linux guest.
pub record ProcessConfig : Type 0 where
  pub uid : ℕ
  pub gid : ℕ
  pub work_dir : String

-- What a guest's command line is made of.
pub record UnikernelParams : Type 0 where
  pub cmd_line : List String
  pub env_vars : List String
  pub monitor : String
  pub version : String
  pub net_dev_name : String
  pub blk_dev_name : String
  pub net : NetDevParams
  pub block : List BlockDevParams
  pub rootfs : RootfsParams
  pub proc_conf : ProcessConfig

pub record MonitorCliArgs : Type 0 where
  pub extra_initrd : String
  pub other_args : List String

abbrev pub no_cli_args : MonitorCliArgs
no_cli_args = record { extra_initrd = ""; other_args = [] }

pub record MonitorBlockArgs : Type 0 where
  pub id : String
  pub path : String
  pub exact_args : List String

-- What a monitor's command line is made of.
pub record ExecArgs : Type 0 where
  pub container_id : String
  pub environment : List String
  pub command : String
  pub seccomp : Bool
  pub mem_size_b : ℕ
  pub resolv_conf : Bool
  pub ports : String
  pub vcpus : ℕ
  pub unikernel_path : String
  pub initrd_path : String
  pub snapshot_path : String
  pub v_accel_type : String
  pub v_sock_dev_path : String
  pub v_sock_dev_id : ℕ
  pub socket_path : String
  pub net : NetDevParams
  pub sharedfs : SharedfsParams

-- What a monitor asks of a guest: types.Unikernel, less Init, CommandString and what it supports.
pub record Guest : Type 0 where
  pub monitor_net_cli : String → String → List String
  pub monitor_block_cli : List MonitorBlockArgs
  pub monitor_sharedfs_cli : String → String → List String
  pub monitor_cli : MonitorCliArgs
