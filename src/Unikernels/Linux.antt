-- ===== src/Unikernels/Linux.antt =====
-- pkg/unikontainers/unikernels/linux.go: Linux guests.
pub mod Config
use urunc.Prelude.{
  ℕ, String, ◌<>◌, ◌==◌, Bool, true, false, not, List, [], ◌∷◌, ◌++◌, map, ◌&&◌, ◌||◌,
  if◌then◌else◌, Option, none, some, Result, ok, err,
}
use urunc.Prelude.Text.{join}
use urunc.Prelude.Fields.{trim_space, contains_char, contains_text}
use urunc.Types.{
  NetDevParams, BlockDevParams, RootfsParams, ProcessConfig, UnikernelParams, MonitorCliArgs,
  no_cli_args, MonitorBlockArgs, Guest,
}

-- The network is given by its address, gateway and mask.
pub record Linux : Type 0 where
  pub app : String
  pub command : String
  pub monitor : String
  pub env : List String
  pub address : String
  pub gateway : String
  pub mask : String
  pub blk : List BlockDevParams
  pub root_fs_type : String
  pub initrd_conf : Bool
  pub proc_config : ProcessConfig

abbrev pub urunit_conf_path : String
urunit_conf_path = "/urunit.conf"

-- A word that has a space in it is put in quotes.
unfoldable pub normalized_arg : String → String
normalized_arg arg =
    let trimmed = trim_space arg in
    if contains_char b' ' trimmed then "'" <> (trimmed <> "'") else trimmed

-- The app and the command of `parseCmdLine`; `none` is the error for no arguments.
unfoldable pub parse_cmd_line : List String → Option (String × String)
parse_cmd_line [] = none
parse_cmd_line (app ∷ args) = some (normalized_arg app, join " " (map normalized_arg args))

-- Whether the configuration can be written is an argument of `Init`.
pub data LinuxError : Type 0 where
  no_init config_not_written : LinuxError

-- `Init`
unfoldable pub init : (Linux → Bool) → UnikernelParams → Result LinuxError Linux
init writes_config data_ = elim (parse_cmd_line data_.cmd_line) [
  | none ↦ err no_init
  | some (app, command) ↦
      let l : Linux = record {
        app = app;
        command = command;
        monitor = data_.monitor;
        env = data_.env_vars;
        address = data_.net.ip;
        gateway = data_.net.gateway;
        mask = data_.net.mask;
        blk = data_.block;
        root_fs_type = data_.rootfs.type;
        initrd_conf = contains_text app "urunit";
        proc_config = data_.proc_conf;
      } in
      if l.initrd_conf && not (writes_config l) then err config_not_written else ok l
]

-- The space-separated words in front of which `CommandString` puts a space.
abbrev env_words : List String → String
env_words [] = ""
env_words (e ∷ es) = " " <> (e <> env_words es)

abbrev root_words : String → String
root_words root_fs_type =
    if root_fs_type == "block"
    then " root=/dev/vda rw"
    else if root_fs_type == "initrd"
    then " root=/dev/ram0 rw"
    else if root_fs_type == "9pfs"
    then " root=fs0 rw rootfstype=9p rootflags=trans=virtio,version=9p2000.L,msize=5000000,cache=mmap,posixacl"
    else if root_fs_type == "virtiofs"
    then " root=fs0 rw rootfstype=virtiofs"
    else ""

-- The host: the architecture, and IsIPInSubnet, which parses the addresses by the library.
module _ (goarch : String) (is_ip_in_subnet : String → String → String → Bool) where
  -- `CommandString`
  unfoldable pub command_string : Linux → String
  command_string l =
      ((((("panic=-1"
                <> (if goarch == "arm64" && l.monitor == "qemu"
                    then " console=ttyAMA0"
                    else " console=ttyS0"))
              <> root_words l.root_fs_type)
            <> (if l.address == ""
                then ""
                else " ip="
                  <> (l.address
                      <> ("::" <> (l.gateway <> (":" <> (l.mask <> ":urunc:eth0:off")))))))
          <> (if not l.initrd_conf
              then env_words l.env
              else if l.root_fs_type == "initrd"
              then " URUNIT_CONFIG=/urunit.conf"
              else " retain_initrd URUNIT_CONFIG=/sys/firmware/initrd"))
        <> (if is_ip_in_subnet l.address l.gateway l.mask then "" else " URUNIT_DEFROUTE=1"))
      <> (if l.app == ""
          then ""
          else " "
            <> ((if l.root_fs_type == "initrd" then "rd" else "")
                <> ("init=" <> (l.app <> (" -- " <> l.command)))))

abbrev qemu_block : BlockDevParams → MonitorBlockArgs
qemu_block b = record {
  id = "";
  path = "";
  exact_args =
      "-device"
      ∷ ("virtio-blk-pci,serial=" <> (b.id <> (",drive=" <> b.id)))
      ∷ "-drive"
      ∷ ("format=raw,if=none,id=" <> (b.id <> (",file=" <> b.source)))
      ∷ [];
}

abbrev named_block : String → BlockDevParams → MonitorBlockArgs
named_block prefix b = record { id = prefix <> b.id; path = b.source; exact_args = [] }

-- `MonitorBlockCli`
unfoldable pub monitor_block_cli : Linux → List MonitorBlockArgs
monitor_block_cli l =
    if l.monitor == "qemu"
    then map qemu_block l.blk
    else if l.monitor == "firecracker"
    then map (named_block "FC") l.blk
    else if l.monitor == "cloud-hypervisor"
    then map (named_block "") l.blk
    else []

-- `MonitorSharedfsCli`, which Unikraft has too.
unfoldable pub monitor_sharedfs_cli : String → String → String → List String
monitor_sharedfs_cli monitor fs_type path =
    if not (monitor == "qemu") || not (fs_type == "9pfs")
    then []
    else "-fsdev"
      ∷ ("local,id=rootfs9p,security_model=none,multidevs=remap,path=" <> path)
      ∷ "-device"
      ∷ "virtio-9p-pci,fsdev=rootfs9p,mount_tag=fs0"
      ∷ []

-- `MonitorCli`
unfoldable pub monitor_cli : Linux → MonitorCliArgs
monitor_cli l =
    let extra =
      if l.initrd_conf && not (l.root_fs_type == "initrd") then urunit_conf_path else "" in
    if l.monitor == "qemu"
    then record { extra_initrd = extra; other_args = "-no-reboot" ∷ "-nodefaults" ∷ [] }
    else if l.monitor == "firecracker" || l.monitor == "cloud-hypervisor"
    then record { extra_initrd = extra; other_args = [] }
    else no_cli_args

abbrev pub guest : Linux → Guest
guest l = record {
  monitor_net_cli = λ if_name mac. [];
  monitor_block_cli = monitor_block_cli l;
  monitor_sharedfs_cli = monitor_sharedfs_cli l.monitor;
  monitor_cli = monitor_cli l;
}
