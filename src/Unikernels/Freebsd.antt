-- ===== src/Unikernels/Freebsd.antt =====
-- pkg/unikontainers/unikernels/freebsd.go: FreeBSD guests, and their configuration for urunit.
use urunc.Prelude.{
  ℕ, zero, suc, ◌%◌, String, ◌<>◌, ◌==◌, Bool, false, not, List, [], ◌∷◌, ◌++◌, map, length, ◌||◌,
  ◌&&◌, if◌then◌else◌, eqb, Result, ok, err,
}
use urunc.Prelude.Text.{join, byte_len}
use urunc.Prelude.Filepath.{base}
use urunc.Prelude.Strconv.{format_uint}
use urunc.Types.{
  BlockDevParams, ProcessConfig, UnikernelParams, no_cli_args, MonitorBlockArgs, Guest,
}
use urunc.Unikernels.Urunit.{written, env_section, process_section, block_section}
use urunc.Unikernels.Linux.{urunit_conf_path}

pub record Freebsd : Type 0 where
  pub command : List String
  pub init_path : String
  pub with_urunit : Bool
  pub monitor : String
  pub env : List String
  pub root_fs_type : String
  pub block_fs_type : String
  pub address : String
  pub gateway : String
  pub mask : String
  pub block : List BlockDevParams
  pub proc_config : ProcessConfig

pub data FreebsdError : Type 0 where
  unsupported_rootfs : String → FreebsdError
  config_not_written : FreebsdError

-- `usesUrunit`
unfoldable pub uses_urunit : List String → Bool
uses_urunit [] = false
uses_urunit (arg ∷ args) = base arg == "urunit"

abbrev head_or_empty : List String → String
head_or_empty [] = ""
head_or_empty (a ∷ more) = a

abbrev tail_of : List String → List String
tail_of [] = []
tail_of (a ∷ more) = more

-- The guest of `Init` where the type of its rootfs is supported.
abbrev new_freebsd : UnikernelParams → Freebsd
new_freebsd p =
    let net = not (p.net.mask == "") in
    record {
      command = tail_of p.cmd_line;
      init_path = head_or_empty p.cmd_line;
      with_urunit = uses_urunit p.cmd_line;
      monitor = p.monitor;
      env = p.env_vars;
      root_fs_type = p.rootfs.type;
      block_fs_type =
          if p.rootfs.type == "block"
          then if p.rootfs.mounted_path == "" then "ufs" else "ext2fs"
          else "";
      address = if net then p.net.ip else "";
      gateway = if net then p.net.gateway else "";
      mask = if net then p.net.mask else "";
      block = p.block;
      proc_config = p.proc_conf;
    }

-- `Init`; whether the configuration can be written is an argument.
unfoldable pub init : (Freebsd → Bool) → UnikernelParams → Result FreebsdError Freebsd
init writes_config p =
    if not (p.rootfs.type == "block") && not (p.rootfs.type == "9pfs")
    then err (unsupported_rootfs p.rootfs.type)
    else if uses_urunit p.cmd_line && not (writes_config (new_freebsd p))
    then err config_not_written
    else ok (new_freebsd p)

-- `CommandString`, with the device of the urunit configuration.
unfoldable pub command_string : (String → String → String → Bool) → Freebsd → String
command_string is_ip_in_subnet f = join " " (
    ((if f.root_fs_type == "9pfs"
        then "vfs.root.mountfrom=p9fs:fs0"
        else "vfs.root.mountfrom=" <> (f.block_fs_type <> ":/dev/vtbd0"))
      ∷ (if f.init_path == "" then [] else ("init_path=" <> f.init_path) ∷ []))
    ++ (if not f.with_urunit
        then []
        else ("URUNIT_CONFIG=/dev/vtbd" <> format_uint (length f.block))
          ∷ (if not (f.address == "") && not (is_ip_in_subnet f.address f.gateway f.mask)
              then "URUNIT_DEFROUTE=1" ∷ []
              else [])))

-- `qemuMMIOBlock`
unfoldable pub qemu_mmio_block : String → String → List String
qemu_mmio_block id path =
    "-device"
    ∷ ("virtio-blk-device,serial=" <> (id <> (",drive=" <> id)))
    ∷ "-drive"
    ∷ ("format=raw,if=none,id=" <> (id <> (",file=" <> path)))
    ∷ []

abbrev pub mmio_args : String → String → MonitorBlockArgs
mmio_args id path = record { id = ""; path = ""; exact_args = qemu_mmio_block id path }

abbrev pub named_args : String → String → MonitorBlockArgs
named_args id path = record { id = id; path = path; exact_args = [] }

-- `MonitorBlockCli`
unfoldable pub monitor_block_cli : Freebsd → List MonitorBlockArgs
monitor_block_cli f =
    if f.monitor == "qemu"
    then map (λ b. mmio_args b.id b.source) f.block
      ++ (if f.with_urunit then mmio_args "urunit" urunit_conf_path ∷ [] else [])
    else if f.monitor == "firecracker"
    then map (λ b. named_args ("FC" <> b.id) b.source) f.block
      ++ (if f.with_urunit then named_args "FC_URUNIT_CONFIG" urunit_conf_path ∷ [] else [])
    else []

-- `MonitorSharedfsCli`
unfoldable pub monitor_sharedfs_cli : Freebsd → String → String → List String
monitor_sharedfs_cli f fs_type path =
    if not (f.monitor == "qemu") || not (fs_type == "9pfs")
    then []
    else "-fsdev"
      ∷ ("local,id=rootfs9p,security_model=none,multidevs=remap,path=" <> path)
      ∷ "-device"
      ∷ "virtio-9p-device,fsdev=rootfs9p,mount_tag=fs0"
      ∷ []

abbrev pub guest : Freebsd → Guest
guest f = record {
  monitor_net_cli = λ if_name mac.
      if f.monitor == "qemu"
      then "-netdev"
        ∷ ("tap,id=net0,script=no,downscript=no,ifname=" <> if_name)
        ∷ "-device"
        ∷ ("virtio-net-device,netdev=net0,mac=" <> mac)
        ∷ []
      else [];
  monitor_block_cli = monitor_block_cli f;
  monitor_sharedfs_cli = monitor_sharedfs_cli f;
  monitor_cli =
      if f.monitor == "qemu"
      then record {
        extra_initrd = "";
        other_args =
            "-M" ∷ "microvm,acpi=on,pic=on,pit=on,rtc=on" ∷ "-nodefaults" ∷ "-no-reboot" ∷ [];
      }
      else no_cli_args;
}

-- The arguments of the command.
abbrev arg_writes : List String → List String
arg_writes [] = []
arg_writes (c ∷ cs) = "ARV:" ∷ c ∷ "\n" ∷ arg_writes cs

abbrev command_section : List String → List String
command_section command = ("ARC:" ∷ format_uint (length command) ∷ "\n" ∷ []) ++ arg_writes command

abbrev net_section : Freebsd → List String
net_section f =
    "UNS" ∷ "\n" ∷ "IP:" ∷ f.address ∷ "\n" ∷ "GW:" ∷ f.gateway ∷ "\n" ∷ "MSK:" ∷ f.mask ∷ "\n"
    ∷ "UNE" ∷ "\n" ∷ []

-- The configuration before it is padded.
unfoldable pub urunit_sections : Freebsd → String
urunit_sections f = written (
    env_section f.env
    ++ (("UCS" ∷ "\n" ∷ [])
        ++ (process_section f.proc_config
            ++ (command_section f.command
                ++ (("UCE" ∷ "\n" ∷ [])
                    ++ (block_section f.monitor f.block
                        ++ (net_section f ++ ("PAD" ∷ "\n" ∷ []))))))))

abbrev pub block_sector_size : ℕ
block_sector_size = 512

-- The loop that pads the configuration to whole sectors, for at most `fuel` turns.
unfoldable pub pad : ℕ → String → String
pad zero text = text
pad (suc fuel) text =
    let longer = pad fuel (text <> "\n") in
    if eqb (byte_len text % block_sector_size) 0 then text else longer

-- `buildUrunitConfig`: a sector is full after less than its size of turns.
unfoldable pub build_urunit_config : Freebsd → String
build_urunit_config f = pad block_sector_size (urunit_sections f)
