-- ===== src/Network/Setup.antt =====
-- NewNetworkManager, createTapDevice, networkSetup, setNATRule and the two NetworkSetup.
use urunc.Prelude.{
  ℕ, String, ◌<>◌, ◌==◌, Bool, true, false, ltb, [], ◌∷◌, if◌then◌else◌, Result, ok, err,
}
use urunc.Prelude.Strconv.{format_uint}
use urunc.Prelude.Traced.{pure, raise, lift, ◌>>=◌, ◌>>◌, or_undo}
use urunc.Network.{
  Interface, UnikernelNetworkInfo, Link, Call, NetError, Kernel, Net, listed, get_tap_index,
  container_iface, get_interface_info, call, link_add, set_owner, set_group, close_fd, link_set_mtu,
  link_set_up, qdisc_add, filter_add, parse_addr, addr_replace, open_ip_forward, write_ip_forward,
  run_command, not_supported, several_unikernels, no_iptables,
}

abbrev pub static_network_tap_ip : String
static_network_tap_ip = "172.16.1.1"

abbrev pub static_network_unikernel_ip : String
static_network_unikernel_ip = "172.16.1.2"

abbrev pub static_ip_addr : String
static_ip_addr = static_network_tap_ip <> "/24"

-- `strings.ReplaceAll(DefaultTap, "X", index)`: DefaultTap is `tapX_urunc`.
abbrev pub tap_name : String → String
tap_name index = "tap" <> (index <> "_urunc")

abbrev pub static_info : Link → UnikernelNetworkInfo
static_info redirect_link = record {
  tap_device = tap_name "0";
  eth_device = record {
    ip = static_network_unikernel_ip;
    default_gateway = static_network_tap_ip;
    mask = "255.255.255.0";
    interface = redirect_link.name;
    mac = redirect_link.mac;
    mtu = 0;
  };
}

module _ (kernel : Kernel) where
  -- A call whose failure closes the descriptor of the tap.
  abbrev pub call_or_close : String → Call → Net (Unit {0})
  call_or_close name c = or_undo (call kernel c) (call kernel (close_fd name))

  -- `createTapDevice`: the tap has one queue, so one descriptor.
  unfoldable pub create_tap_device : String → ℕ → ℕ → ℕ → Net (Unit {0})
  create_tap_device name mtu owner_uid owner_gid = do
    call kernel (link_add name mtu)
    call_or_close name (set_owner name owner_uid)
    call_or_close name (set_group name owner_gid)
    call kernel (close_fd name)
    call kernel (link_set_mtu name mtu)

  unfoldable pub add_tc_rules : String → String → Net (Unit {0})
  add_tc_rules tap redirect = do
    call kernel (qdisc_add tap)
    call kernel (qdisc_add redirect)
    call kernel (filter_add tap redirect)
    call kernel (filter_add redirect tap)

  unfoldable pub assign_address : String → String → Net (Unit {0})
  assign_address tap ip_address =
      if ip_address == ""
      then pure tt
      else call kernel (parse_addr ip_address) >> call kernel (addr_replace tap ip_address)

  -- `networkSetup`
  unfoldable pub network_setup : String → String → Link → Bool → ℕ → ℕ → Net (Unit {0})
  network_setup tap ip_address redirect_link tc_rules uid gid = do
    create_tap_device tap redirect_link.mtu uid gid
    call kernel (link_set_up tap)
    call kernel (link_set_up redirect_link.name)
    if tc_rules then add_tc_rules tap redirect_link.name else pure tt
    assign_address tap ip_address

  -- getInterfaceInfo, of what the system answers at this point.
  abbrev pub interface_info : String → Net Interface
  interface_info name = lift (λ calls.
      get_interface_info name (kernel.interface_by_name calls name) (kernel.gateway calls))

  -- `NetworkSetup` of DynamicNetwork, after the count of the taps.
  unfoldable pub dynamic_setup_with : ℕ → ℕ → ℕ → Net UnikernelNetworkInfo
  dynamic_setup_with tap_index uid gid = do
    redirect_link ← container_iface kernel
    network_setup (tap_name (format_uint tap_index)) "" redirect_link true uid gid
    if_info ← interface_info redirect_link.name
    pure (record { tap_device = tap_name (format_uint tap_index); eth_device = if_info })

  unfoldable pub dynamic_network_setup : ℕ → ℕ → Net UnikernelNetworkInfo
  dynamic_network_setup uid gid = do
    tap_index ← lift (λ calls. get_tap_index (kernel.interfaces calls))
    if ltb 0 tap_index then raise several_unikernels else pure tt
    dynamic_setup_with tap_index uid gid

  -- `setNATRule`
  unfoldable pub set_nat_rule : String → String → Net (Unit {0})
  set_nat_rule iface source_ip = do
    path ← lift (λ calls. listed no_iptables kernel.iptables)
    call kernel open_ip_forward
    call kernel write_ip_forward
    call kernel (
        run_command (
          path ∷ "-t" ∷ "nat" ∷ "-A" ∷ "POSTROUTING" ∷ "-s" ∷ source_ip ∷ "-o" ∷ iface ∷ "-j"
          ∷ "MASQUERADE" ∷ "--wait" ∷ "1" ∷ []))

  -- `NetworkSetup` of StaticNetwork
  unfoldable pub static_network_setup : ℕ → ℕ → Net UnikernelNetworkInfo
  static_network_setup uid gid = do
    redirect_link ← container_iface kernel
    network_setup (tap_name "0") static_ip_addr redirect_link false uid gid
    set_nat_rule redirect_link.name static_ip_addr
    pure (static_info redirect_link)

-- The two implementations of Manager, and its method.
pub data NetworkManager : Type 0 where
  static_network dynamic_network : NetworkManager

abbrev pub manager_setup : NetworkManager → Kernel → ℕ → ℕ → Net UnikernelNetworkInfo
manager_setup static_network = static_network_setup
manager_setup dynamic_network = dynamic_network_setup

-- `NewNetworkManager`
unfoldable pub new_network_manager : String → Result NetError NetworkManager
new_network_manager network_type =
    if network_type == "static"
    then ok static_network
    else if network_type == "dynamic"
    then ok dynamic_network
    else err (not_supported network_type)
