-- ===== src/Unikernels/Qemu.antt =====
-- pkg/unikontainers/unikernels: the guests of QEMU alone, mewz.go and hermit_rs.go.
use urunc.Prelude.{
  ℕ, String, ◌<>◌, ◌==◌, not, List, [], ◌∷◌, ◌++◌, if◌then◌else◌, Result, ok, ◌>>=◌,
}
use urunc.Prelude.Text.{join}
use urunc.Prelude.Fields.{trim_space}
use urunc.Prelude.Strconv.{format_uint}
use urunc.Types.{UnikernelParams, no_cli_args, Guest}
use urunc.Unikernels.Masks.{MaskError, subnet_mask_to_cidr}

pub record Mewz : Type 0 where
  pub command : String
  pub monitor : String
  pub address : String
  pub mask : ℕ
  pub gateway : String

-- `(*Mewz).Init`
unfoldable pub mewz_init : UnikernelParams → Result MaskError Mewz
mewz_init p = (if p.net.mask == "" then ok 24 else subnet_mask_to_cidr p.net.mask) >>= λ mask.
    ok (record {
      command = join " " p.cmd_line;
      monitor = p.monitor;
      address = p.net.ip;
      mask = mask;
      gateway = p.net.gateway;
    })

-- `(*Mewz).CommandString`
unfoldable pub mewz_command_string : Mewz → String
mewz_command_string m =
    if m.address == ""
    then ""
    else "ip=" <> (m.address <> ("/" <> (format_uint m.mask <> (" gateway=" <> m.gateway))))

abbrev pub mewz_guest : Mewz → Guest
mewz_guest m = record {
  monitor_net_cli = λ if_name mac.
      if m.monitor == "qemu"
      then "-device"
        ∷ ("virtio-net-pci,netdev=net0,disable-legacy=on,disable-modern=off,mac=" <> mac)
        ∷ "-netdev"
        ∷ ("tap,script=no,downscript=no,id=net0,ifname=" <> if_name)
        ∷ []
      else [];
  monitor_block_cli = [];
  monitor_sharedfs_cli = λ fs_type path. [];
  monitor_cli =
      if m.monitor == "qemu"
      then record {
        extra_initrd = "";
        other_args = "-no-reboot" ∷ "-device" ∷ "isa-debug-exit,iobase=0x501,iosize=2" ∷ [];
      }
      else no_cli_args;
}

pub record Hermit : Type 0 where
  pub command : String
  pub monitor : String
  pub address : String
  pub mask : ℕ
  pub gateway : String

abbrev new_hermit : UnikernelParams → String → ℕ → String → Hermit
new_hermit p address mask gateway = record {
  command = join " " p.cmd_line;
  monitor = p.monitor;
  address = address;
  mask = mask;
  gateway = gateway;
}

-- `(*Hermit).Init`
unfoldable pub hermit_init : UnikernelParams → Result MaskError Hermit
hermit_init p =
    if p.net.mask == ""
    then ok (new_hermit p "" 0 "")
    else subnet_mask_to_cidr p.net.mask >>= λ mask. ok (new_hermit p p.net.ip mask p.net.gateway)

-- The arguments for the network.
abbrev hermit_net_args : Hermit → List String
hermit_net_args h =
    (if h.address == "" then [] else ("ip=" <> (h.address <> ("/" <> format_uint h.mask))) ∷ [])
    ++ (if h.gateway == "" then [] else ("gateway=" <> h.gateway) ∷ [])

-- The separator stands only between arguments for the network and a command.
abbrev hermit_args : List String → String → List String
hermit_args net app_args =
    net
    ++ (if app_args == ""
        then []
        else elim net [ [] ↦ app_args ∷ [] | a ∷ more ↦ "--" ∷ app_args ∷ [] ])

-- `(*Hermit).CommandString`
unfoldable pub hermit_command_string : Hermit → String
hermit_command_string h = join " " (hermit_args (hermit_net_args h) (trim_space h.command))

-- `(*Hermit).MonitorNetCli`
unfoldable pub hermit_net_cli : String → Hermit → String → String → List String
hermit_net_cli goarch h if_name mac =
    if not (h.monitor == "qemu")
    then []
    else "-netdev"
      ∷ ("tap,id=net0,ifname=" <> (if_name <> ",script=no,downscript=no"))
      ∷ "-device"
      ∷ ((if goarch == "arm64"
            then "virtio-net-device,netdev=net0"
            else "virtio-net-pci,netdev=net0,disable-legacy=on")
          <> (if mac == "" then "" else ",mac=" <> mac))
      ∷ []

abbrev pub hermit_guest : String → Hermit → Guest
hermit_guest goarch h = record {
  monitor_net_cli = hermit_net_cli goarch h;
  monitor_block_cli = [];
  monitor_sharedfs_cli = λ fs_type path. [];
  monitor_cli = record { extra_initrd = ""; other_args = "-no-reboot" ∷ [] };
}
