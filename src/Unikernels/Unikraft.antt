-- ===== src/Unikernels/Unikraft.antt =====
-- pkg/unikontainers/unikernels/unikraft.go: Unikraft guests.
use urunc.Prelude.{
  String, ◌<>◌, ◌==◌, Bool, true, false, not, List, [], ◌∷◌, ◌++◌, map, Option, none, some,
  if◌then◌else◌,
}
use urunc.Prelude.Text.{join}
use urunc.Types.{UnikernelParams, MonitorCliArgs, no_cli_args, Guest}
use urunc.Unikernels.Linux.{monitor_sharedfs_cli}

pub record Unikraft : Type 0 where
  pub app_name : String
  pub monitor : String
  pub command : String
  pub env : List String
  pub address : String
  pub mask : String
  pub gateway : String
  pub root_fs : String
  pub version : String

-- What `Init` reports beside the guest: the first two do not stop the caller.
pub data VersionNote : Type 0 where
  version_known undefined_version version_not_parsed : VersionNote

-- The guest before its arguments are configured.
abbrev before_args : UnikernelParams → Unikraft
before_args p = record {
  app_name = "Unikraft";
  monitor = p.monitor;
  command = join " " p.cmd_line;
  env = p.env_vars;
  address = "";
  mask = "";
  gateway = "";
  root_fs = "";
  version = p.version;
}

-- `setCompatArgs`, for versions below 0.16.1, after which the environment is dropped.
unfoldable pub set_compat_args : UnikernelParams → Unikraft → Unikraft
set_compat_args p u = record u {
  address = "netdev.ipv4_addr=" <> p.net.ip;
  gateway = "netdev.ipv4_gw_addr=" <> p.net.gateway;
  mask = "netdev.ipv4_subnet_mask=" <> p.net.mask;
  root_fs = if p.rootfs.type == "initrd" then "vfs.rootfs=initrd" else "";
  env = [];
}

-- `setCurrentArgs`
unfoldable pub set_current_args : UnikernelParams → Unikraft → Unikraft
set_current_args p u = record u {
  address =
      "netdev.ip="
      <> (p.net.ip
          <> ("/24:"
              <> (p.net.gateway
                  <> (":" <> (if p.net.dns_server == "" then "8.8.8.8" else p.net.dns_server)))));
  root_fs =
      if p.rootfs.type == "initrd"
      then "vfs.fstab=[ \"initrd0:/:extract:::\" ]"
      else if p.rootfs.type == "9pfs"
      then "vfs.fstab=[ \"fs0:/:9pfs:::\" ]"
      else "";
}

-- `Init`. The version library says whether a version is at least 0.16.1; `none` is no version.
unfoldable pub init : (String → Option Bool) → UnikernelParams → Unikraft × VersionNote
init at_least p =
    if p.version == ""
    then (set_current_args p (before_args p), undefined_version)
    else elim (at_least p.version) [
      | none ↦ (set_current_args p (before_args p), version_not_parsed)
      | some true ↦ (set_current_args p (before_args p), version_known)
      | some false ↦ (set_compat_args p (before_args p), version_known)
    ]

abbrev env_vars : List String → String
env_vars [] = ""
env_vars (e ∷ es) = "env.vars=[ " <> (join " " (e ∷ es) <> " ]")

-- `CommandString`
unfoldable pub command_string : String → Unikraft → String
command_string goarch u =
    u.app_name
    <> (" "
        <> ((if goarch == "arm64" then "console=ttyS0" else "")
            <> (" "
                <> (env_vars u.env
                    <> (" "
                        <> (u.address
                            <> (" "
                                <> (u.gateway
                                    <> (" "
                                        <> (u.mask
                                            <> (" "
                                                <> (u.root_fs <> (" -- " <> u.command)))))))))))))

-- `MonitorCli`
unfoldable pub monitor_cli : Unikraft → MonitorCliArgs
monitor_cli u = if not (u.monitor == "hyperlight-unikraft") then no_cli_args else record {
  extra_initrd = "";
  other_args =
      (if u.command == "" then [] else ("--guest-exec=" <> u.command) ∷ [])
      ++ map (λ e. "--env=" <> e) u.env;
}

abbrev pub guest : Unikraft → Guest
guest u = record {
  monitor_net_cli = λ if_name mac. [];
  monitor_block_cli = [];
  monitor_sharedfs_cli = monitor_sharedfs_cli u.monitor;
  monitor_cli = monitor_cli u;
}
