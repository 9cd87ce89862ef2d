-- ===== src/Network.antt =====
-- pkg/network: the links of a container's network namespace, the tap device of a monitor and its
-- removal. What the kernel answers is a record of functions of the calls made before.
pub mod Setup
pub mod Teardown
pub mod Plan
pub mod Removed
pub mod Taps
use urunc.Prelude.{
  ℕ, ◌+◌, String, ◌<>◌, ◌==◌, Bool, true, false, not, ◌||◌, ◌&&◌, ltb, leb, eqb, code, Option, none,
  some, List, [], ◌∷◌, ◌++◌, map, if◌then◌else◌, Result, ok, err,
}
use urunc.Prelude.Text.{join, cut_prefix}
use urunc.Prelude.Strconv.{format_uint}
use urunc.Prelude.Fields.{contains_text}
use urunc.Prelude.Traced.{Traced, pure, raise, lift, ◌>>=◌, ◌>>◌, perform, or_undo}

pub record Interface : Type 0 where
  pub ip : String
  pub default_gateway : String
  pub mask : String
  pub interface : String
  pub mac : String
  pub mtu : ℕ

pub record UnikernelNetworkInfo : Type 0 where
  pub tap_device : String
  pub eth_device : Interface

-- An address: whether it is a *net.IPNet, and its parts. `ipv4` is what To4 and String give.
pub record Address : Type 0 where
  pub is_ip_net : Bool
  pub is_loopback : Bool
  pub ipv4 : Option String
  pub mask : List ℕ

-- A link with its attributes, and the answers of AddrList and RouteList for it. A route is given by
-- its destination as text; `none` is no destination.
pub record Link : Type 0 where
  pub name : String
  pub index : ℕ
  pub mtu : ℕ
  pub mac : String
  pub is_loopback : Bool
  pub addresses : Option (List Address)
  pub routes : Option (List (Option String))

pub record Qdisc : Type 0 where
  pub handle : ℕ
  pub is_ingress : Bool
  pub link_index : ℕ

pub data Call : Type 0 where
  link_add : String → ℕ → Call
  set_owner set_group : String → ℕ → Call
  close_fd : String → Call
  link_set_mtu : String → ℕ → Call
  link_set_up link_set_down link_del : String → Call
  qdisc_add : String → Call
  filter_add : String → String → Call
  parse_addr : String → Call
  addr_replace : String → String → Call
  qdisc_del filter_del : ℕ → Call
  open_ip_forward write_ip_forward : Call
  run_command : List String → Call

pub data NetError : Type 0 where
  not_supported : String → NetError
  interfaces_failed links_failed gateway_failed : NetError
  too_many_taps : ℕ → NetError
  several_unikernels no_container_iface : NetError
  no_interface no_mac no_mask no_ipv4 : String → NetError
  filters_failed qdiscs_failed : String → NetError
  no_iptables : NetError
  call_failed : Call → NetError

-- `links` gives `none` for a link without attributes.
pub record Kernel : Type 0 where
  pub fails : List Call → Call → Bool
  pub interfaces : List Call → Option (List String)
  pub links : List Call → Option (List (Option Link))
  pub interface_by_name : List Call → String → Option Link
  pub gateway : List Call → Option String
  pub filters : List Call → String → Option (List ℕ)
  pub qdiscs : List Call → String → Option (List Qdisc)
  pub iptables : Option String

abbrev pub Net : Type 0 → Type 0
Net = Traced Call NetError

-- A failure to list is an error.
abbrev pub listed {ℓ} : {A : Type ℓ} → NetError → Option A → Result NetError A
listed problem none = err problem
listed problem (some xs) = ok xs

-- The loop of `getTapIndex`.
unfoldable pub count_taps : List String → ℕ
count_taps [] = 0
count_taps (name ∷ names) = (if contains_text name "tap" then 1 else 0) + count_taps names

unfoldable pub get_tap_index : Option (List String) → Result NetError ℕ
get_tap_index none = err interfaces_failed
get_tap_index (some names) =
    let tap_count = count_taps names in
    if ltb 255 tap_count then err (too_many_taps tap_count) else ok tap_count

-- `r.Dst == nil`, or one of the two forms of a default route.
abbrev pub is_default_route : Option String → Bool
is_default_route none = true
is_default_route (some dst) = dst == "0.0.0.0/0" || dst == "::/0"

abbrev pub any_of {ℓ} : {A : Type ℓ} → (A → Bool) → List A → Bool
any_of test [] = false
any_of test (x ∷ xs) = test x || any_of test xs

-- What the loop of `discoverContainerIface` asks of a link, in its order.
unfoldable pub is_container_iface : Link → Bool
is_container_iface link = if link.is_loopback then false else elim link.addresses [
  | none ↦ false
  | some [] ↦ false
  | some (first ∷ rest) ↦ elim link.routes [
    | none ↦ false
    | some routes ↦ any_of is_default_route routes
  ]
]

unfoldable pub find_container_iface : List (Option Link) → Result NetError Link
find_container_iface [] = err no_container_iface
find_container_iface (none ∷ links) = find_container_iface links
find_container_iface (some link ∷ links) =
    let rest = find_container_iface links in if is_container_iface link then ok link else rest

-- `discoverContainerIface`
unfoldable pub discover_container_iface : Option (List (Option Link)) → Result NetError Link
discover_container_iface none = err links_failed
discover_container_iface (some links) = find_container_iface links

-- The loop of `getInterfaceInfo` over the addresses: the first IPv4 address that is no loopback.
unfoldable pub find_ipv4 : List Address → Option (String × List ℕ)
find_ipv4 [] = none
find_ipv4 (addr ∷ addrs) = elim (addr.is_ip_net && not addr.is_loopback) [
  | false ↦ find_ipv4 addrs
  | true ↦ elim addr.ipv4 [ none ↦ find_ipv4 addrs | some ip ↦ some (ip, addr.mask) ]
]

-- `decimalParts`
abbrev pub decimal_mask : List ℕ → String
decimal_mask mask = join "." (map format_uint mask)

-- `getInterfaceInfo`, of the answers of InterfaceByName and DiscoverGateway. IPMask.String is "<nil>" for
-- an empty mask, so the mask is empty only where no address was found.
unfoldable pub get_interface_info : String → Option Link → Option String → Result NetError Interface
get_interface_info iface none gateway = err (no_interface iface)
get_interface_info iface (some ief) gateway =
    if ief.mac == "" then err (no_mac iface) else elim ief.addresses [
      | none ↦ err (no_interface iface)
      | some addrs ↦ elim (find_ipv4 addrs) [
        | none ↦ err (no_mask iface)
        | some (ip_address, net_mask) ↦ elim gateway [
          | none ↦ err gateway_failed
          | some default_gateway ↦ ok (record {
            ip = ip_address;
            default_gateway = default_gateway;
            mask = decimal_mask net_mask;
            interface = iface;
            mac = ief.mac;
            mtu = ief.mtu;
          })
        ]
      ]
    ]

module _ (kernel : Kernel) where
  abbrev pub call : Call → Net (Unit {0})
  call = perform kernel.fails call_failed

  -- discoverContainerIface, of the links at this point.
  abbrev pub container_iface : Net Link
  container_iface = lift (λ calls. discover_container_iface (kernel.links calls))
