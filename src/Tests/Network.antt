-- ===== src/Tests/Network.antt =====
-- Runs of pkg/network.
use urunc.Prelude.{◌==◌, true, false, none, some, [], ◌∷◌, if◌then◌else◌, ok, err, refl, ◌≡◌}
use urunc.Prelude.Text.{join}
use urunc.Prelude.Strconv.{format_uint, emit}
use urunc.Prelude.Fields.{contains_text}
use urunc.Prelude.Traced.Plans.{Follows}
use urunc.Network.{
  Link, Kernel, call_failed, count_taps, get_tap_index, find_container_iface, is_container_iface,
  discover_container_iface, find_ipv4, get_interface_info, filter_add, filter_del,
}
use urunc.Network.Setup.{
  create_tap_device, add_tc_rules, network_setup, dynamic_setup_with, dynamic_network_setup,
}
use urunc.Network.Plan.{setup_plan, network_setup-Follows}

abbrev eth0 : Link
eth0 = record {
  name = "eth0";
  index = 2;
  mtu = 1500;
  mac = "02:42:ac:11:00:02";
  is_loopback = false;
  addresses = some (
      record {
        is_ip_net = true;
        is_loopback = false;
        ipv4 = some "172.17.0.2";
        mask = 255 ∷ 255 ∷ 0 ∷ 0 ∷ [];
      }
      ∷ []);
  routes = some (some "172.17.0.0/16" ∷ none ∷ []);
}

abbrev tap0 : Link
tap0 = record eth0 { name = "tap0_urunc"; index = 3; addresses = some []; routes = some [] }

-- No tap yet, and the redirection from the container's link to the tap fails.
abbrev before_setup : Kernel
before_setup = record {
  fails = λ calls c. elim c [ filter_add source target ↦ source == "eth0" | _ ↦ false ];
  interfaces = λ calls. some ("lo" ∷ "eth0" ∷ []);
  links = λ calls.
      some (none ∷ some (record eth0 { name = "lo"; is_loopback = true }) ∷ some eth0 ∷ []);
  interface_by_name = λ calls name. if name == "eth0" then some eth0 else none;
  gateway = λ calls. some "172.17.0.1";
  filters = λ calls name. some (7 ∷ []);
  qdiscs = λ calls name. some [];
  iptables = some "/sbin/iptables";
}

-- The tap is left, and its filters cannot be deleted.
abbrev after_setup : Kernel
after_setup = record before_setup {
  fails = λ calls c. elim c [ filter_del filter ↦ true | _ ↦ false ];
  links = λ calls. some (some eth0 ∷ some tap0 ∷ []);
}

network_setup_example :
    Follows before_setup.fails call_failed
      (setup_plan "tap0_urunc" "" eth0 true 1000 100)
      []
      (network_setup before_setup "tap0_urunc" "" eth0 true 1000 100 [])
network_setup_example = network_setup-Follows before_setup "tap0_urunc" "" eth0 true 1000 100 []

dynamic_run :
    (dynamic_network_setup before_setup 1000 100 []).0
    ≡ err (call_failed (filter_add "eth0" "tap0_urunc"))
unfolding dynamic_network_setup dynamic_setup_with get_tap_index count_taps contains_text
    discover_container_iface find_container_iface is_container_iface network_setup create_tap_device
    add_tc_rules format_uint emit
dynamic_run = refl

info_run :
    get_interface_info "eth0" (some eth0) (some "172.17.0.1")
    ≡ ok (record {
      ip = "172.17.0.2";
      default_gateway = "172.17.0.1";
      mask = "255.255.0.0";
      interface = "eth0";
      mac = "02:42:ac:11:00:02";
      mtu = 1500;
    })
unfolding get_interface_info find_ipv4 format_uint emit join
info_run = refl
