-- ===== src/Unikernels/Solo5.antt =====
-- pkg/unikontainers/unikernels: the guests of Solo5, mirage.go and rumprun.go.
use urunc.Prelude.{
  String, ◌<>◌, ◌==◌, Bool, not, List, [], ◌∷◌, ◌||◌, ◌&&◌, if◌then◌else◌, Result, ok, ◌>>=◌,
}
use urunc.Prelude.Text.{join}
use urunc.Prelude.Strconv.{format_uint}
use urunc.Types.{UnikernelParams, BlockDevParams, no_cli_args, MonitorBlockArgs, Guest}
use urunc.Unikernels.Masks.{MaskError, subnet_mask_to_cidr}

-- The block devices are kept by their sources.
pub record Mirage : Type 0 where
  pub command : String
  pub monitor : String
  pub address : String
  pub gateway : String
  pub block : List BlockDevParams
  pub net_dev_name : String
  pub blk_dev_name : String

-- The options for the network in `(*Mirage).Init`, from the length of the prefix.
abbrev mirage_net : UnikernelParams → String → String × String
mirage_net p prefix =
    if not (p.net_dev_name == "") && not (p.net_dev_name == "service")
    then (
      "--" <> (p.net_dev_name <> ("-ipv4=" <> (p.net.ip <> ("/" <> prefix)))),
      "--" <> (p.net_dev_name <> ("-ipv4-gateway=" <> p.net.gateway)),
    )
    else ("--ipv4=" <> (p.net.ip <> ("/" <> prefix)), "--ipv4-gateway=" <> p.net.gateway)

abbrev or_default : String → String → String
or_default name default_name = if name == "" then default_name else name

abbrev new_mirage : UnikernelParams → String × String → Mirage
new_mirage p net = record {
  command = join " " p.cmd_line;
  monitor = p.monitor;
  address = net.0;
  gateway = net.1;
  block = p.block;
  net_dev_name = or_default p.net_dev_name "service";
  blk_dev_name = or_default p.blk_dev_name "storage";
}

-- `(*Mirage).Init`
unfoldable pub mirage_init : UnikernelParams → Result MaskError Mirage
mirage_init p =
    if p.net.mask == ""
    then ok (new_mirage p ("", ""))
    else subnet_mask_to_cidr p.net.mask >>= λ mask.
        ok (new_mirage p (mirage_net p (format_uint mask)))

-- `(*Mirage).CommandString`
unfoldable pub mirage_command_string : Mirage → String
mirage_command_string m = m.address <> (" " <> (m.gateway <> (" " <> m.command)))

abbrev is_solo5 : String → Bool
is_solo5 monitor = monitor == "hvt" || monitor == "spt"

-- `(*Mirage).MonitorBlockCli`: the first device only.
unfoldable pub mirage_block_cli : Mirage → List MonitorBlockArgs
mirage_block_cli m = elim m.block [
  | [] ↦ []
  | b ∷ rest ↦
      if is_solo5 m.monitor
      then record { id = m.blk_dev_name; path = b.source; exact_args = [] } ∷ []
      else []
]

-- `(*Mirage).MonitorNetCli`
unfoldable pub mirage_net_cli : Mirage → String → String → List String
mirage_net_cli m if_name mac =
    if is_solo5 m.monitor
    then ("--net:" <> (m.net_dev_name <> ("=" <> if_name)))
      ∷ ("--net-mac:" <> (m.net_dev_name <> ("=" <> mac)))
      ∷ []
    else []

abbrev pub mirage_guest : Mirage → Guest
mirage_guest m = record {
  monitor_net_cli = mirage_net_cli m;
  monitor_block_cli = mirage_block_cli m;
  monitor_sharedfs_cli = λ fs_type path. [];
  monitor_cli = no_cli_args;
}

pub record RumprunNet : Type 0 where
  pub interface : String
  pub cloner : String
  pub type : String
  pub method : String
  pub address : String
  pub mask : String
  pub gateway : String

abbrev no_net : RumprunNet
no_net = record {
  interface = "";
  cloner = "";
  type = "";
  method = "";
  address = "";
  mask = "";
  gateway = "";
}

pub record RumprunBlk : Type 0 where
  pub host_path : String
  pub source : String
  pub path : String
  pub fs_type : String
  pub mountpoint : String

pub record Rumprun : Type 0 where
  pub command : String
  pub monitor : String
  pub envs : List String
  pub net : RumprunNet
  pub blk : RumprunBlk

-- The network in `(*Rumprun).Init`, from the length of the prefix of 128.0.0.0.
abbrev rumprun_net : UnikernelParams → String → RumprunNet
rumprun_net p prefix = record {
  interface = "ukvmif0";
  cloner = "True";
  type = "inet";
  method = "static";
  address = p.net.ip;
  mask = prefix;
  gateway = p.net.gateway;
}

abbrev rumprun_blk : List BlockDevParams → RumprunBlk
rumprun_blk [] = record { host_path = ""; source = ""; path = ""; fs_type = ""; mountpoint = "" }
rumprun_blk (b ∷ bs) = record {
  host_path = b.source;
  source = "etfs";
  path = "/dev/ld0a";
  fs_type = "blk";
  mountpoint = b.mount_point;
}

abbrev new_rumprun : UnikernelParams → RumprunNet → Rumprun
new_rumprun p net = record {
  command = join " " p.cmd_line;
  monitor = p.monitor;
  envs = p.env_vars;
  net = net;
  blk = rumprun_blk p.block;
}

-- `(*Rumprun).Init`
unfoldable pub rumprun_init : UnikernelParams → Result MaskError Rumprun
rumprun_init p =
    if p.net.mask == ""
    then ok (new_rumprun p no_net)
    else subnet_mask_to_cidr "128.0.0.0" >>= λ mask.
        ok (new_rumprun p (rumprun_net p (format_uint mask)))

-- json.Marshal of a struct of strings, from that of a string.
module _ (json_string : String → String) where
  abbrev json_field : String → String → String
  json_field name value = "\"" <> (name <> ("\":" <> json_string value))

  abbrev json_fields : List (String × String) → String
  json_fields [] = ""
  json_fields ((name, value) ∷ []) = json_field name value
  json_fields ((name, value) ∷ f ∷ fs) = json_field name value <> ("," <> json_fields (f ∷ fs))

  -- The variables of the environment, all under one key.
  abbrev env_json : List String → String
  env_json [] = ""
  env_json (e ∷ []) = json_field "env" e
  env_json (e ∷ f ∷ es) = json_field "env" e <> ("," <> env_json (f ∷ es))

  abbrev net_json : RumprunNet → String
  net_json n =
      if n.address == ""
      then ""
      else ",\"net\":{"
        <> (json_fields (
              ("if", n.interface)
              ∷ ("cloner", n.cloner)
              ∷ ("type", n.type)
              ∷ ("method", n.method)
              ∷ ("addr", n.address)
              ∷ ("mask", n.mask)
              ∷ ("gw", n.gateway)
              ∷ [])
            <> "}")

  abbrev blk_json : RumprunBlk → String
  blk_json b =
      if b.source == ""
      then ""
      else ",\"blk\":{"
        <> (json_fields (
              ("source", b.source)
              ∷ ("path", b.path)
              ∷ ("fstype", b.fs_type)
              ∷ ("mountpoint", b.mountpoint)
              ∷ [])
            <> "}")

  -- `(*Rumprun).CommandString`
  unfoldable pub rumprun_command_string : Rumprun → String
  rumprun_command_string r =
      "{"
      <> (json_field "cmdline" r.command
          <> ((elim r.envs [ [] ↦ "" | e ∷ es ↦ "," <> env_json (e ∷ es) ])
              <> (net_json r.net <> (blk_json r.blk <> "}"))))

abbrev pub rumprun_guest : Rumprun → Guest
rumprun_guest r = record {
  monitor_net_cli = λ if_name mac.
      if is_solo5 r.monitor then ("--net:tap=" <> if_name) ∷ ("--net-mac:tap=" <> mac) ∷ [] else [];
  monitor_block_cli =
      if is_solo5 r.monitor
      then record { id = "rootfs"; path = r.blk.host_path; exact_args = [] } ∷ []
      else [];
  monitor_sharedfs_cli = λ fs_type path. [];
  monitor_cli = no_cli_args;
}
