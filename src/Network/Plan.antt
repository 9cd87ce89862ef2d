-- ===== src/Network/Plan.antt =====
-- The calls that networkSetup makes, as a plan.
use urunc.Prelude.{
  ℕ, String, ◌==◌, Bool, true, false, Bool-cases, List, [], ◌∷◌, ◌++◌, if◌then◌else◌, inl, inr,
}
use urunc.Prelude.Traced.{pure, ◌>>◌}
use urunc.Prelude.Traced.Plans.{
  Steps, step, Follows, Does, >>-Does, perform-Does, or_undo-Does, pure-Does,
}
use urunc.Network.{
  Call, Link, Kernel, Net, call, call_failed, link_add, set_owner, set_group, close_fd,
  link_set_mtu, link_set_up, qdisc_add, filter_add, parse_addr, addr_replace,
}
use urunc.Network.Setup.{create_tap_device, add_tc_rules, assign_address, network_setup}

-- The tap belongs to the user before it is up, and both links are up before traffic is redirected.
abbrev pub tap_plan : String → ℕ → ℕ → ℕ → Steps Call
tap_plan tap mtu uid gid =
    step (link_add tap mtu)
    ∷ (set_owner tap uid, close_fd tap ∷ [])
    ∷ (set_group tap gid, close_fd tap ∷ [])
    ∷ step (close_fd tap)
    ∷ step (link_set_mtu tap mtu)
    ∷ []

abbrev pub rules_plan : Bool → String → String → Steps Call
rules_plan false tap redirect = []
rules_plan true tap redirect =
    step (qdisc_add tap)
    ∷ step (qdisc_add redirect)
    ∷ step (filter_add tap redirect)
    ∷ step (filter_add redirect tap)
    ∷ []

abbrev pub address_plan : String → String → Steps Call
address_plan tap ip =
    if ip == "" then [] else step (parse_addr ip) ∷ step (addr_replace tap ip) ∷ []

abbrev pub setup_plan : String → String → Link → Bool → ℕ → ℕ → Steps Call
setup_plan tap ip link tc_rules uid gid =
    tap_plan tap link.mtu uid gid
    ++ (step (link_set_up tap) ∷ step (link_set_up link.name) ∷ [])
    ++ rules_plan tc_rules tap link.name
    ++ address_plan tap ip

module _ (kernel : Kernel) where
  abbrev pub NetDoes : Steps Call → Net (Unit {0}) → Type 0
  NetDoes = Does kernel.fails call_failed

  does_call : (c : Call) → NetDoes (step c ∷ []) (call kernel c)
  does_call = perform-Does kernel.fails call_failed

  abbrev both :
      {p q : Steps Call} {m k : Net (Unit {0})}
      → NetDoes p m
      → NetDoes q k
      → NetDoes (p ++ q) (m >> k)
  both = >>-Does kernel.fails call_failed

  create_tap_device-Does :
      (tap : String) (mtu uid gid : ℕ)
      → NetDoes (tap_plan tap mtu uid gid) (create_tap_device kernel tap mtu uid gid)
  unfolding create_tap_device
  create_tap_device-Does tap mtu uid gid = both (does_call (link_add tap mtu)) (
      both (or_undo-Does kernel.fails call_failed (set_owner tap uid) (close_fd tap)) (
        both (or_undo-Does kernel.fails call_failed (set_group tap gid) (close_fd tap))
          (both (does_call (close_fd tap)) (does_call (link_set_mtu tap mtu)))))

  add_tc_rules-Does :
      (tc_rules : Bool) (tap redirect : String)
      → NetDoes
          (rules_plan tc_rules tap redirect)
          (if tc_rules then add_tc_rules kernel tap redirect else pure tt)
  unfolding add_tc_rules
  add_tc_rules-Does false tap redirect = pure-Does kernel.fails call_failed
  add_tc_rules-Does true tap redirect = both (does_call (qdisc_add tap)) (
      both (does_call (qdisc_add redirect))
        (both (does_call (filter_add tap redirect)) (does_call (filter_add redirect tap))))

  assign_address-Does :
      (tap ip : String) → NetDoes (address_plan tap ip) (assign_address kernel tap ip)
  unfolding assign_address
  assign_address-Does tap ip = elim (Bool-cases (ip == "")) [
    | inl e ↦ rw e (pure-Does kernel.fails call_failed)
    | inr e ↦ rw e (both (does_call (parse_addr ip)) (does_call (addr_replace tap ip)))
  ]

  pub network_setup-Does :
      (tap ip : String) (link : Link) (tc_rules : Bool) (uid gid : ℕ)
      → NetDoes
          (setup_plan tap ip link tc_rules uid gid)
          (network_setup kernel tap ip link tc_rules uid gid)
  unfolding network_setup
  network_setup-Does tap ip link tc_rules uid gid =
      both (create_tap_device-Does tap link.mtu uid gid) (
        both (does_call (link_set_up tap)) (
          both (does_call (link_set_up link.name))
            (both (add_tc_rules-Does tc_rules tap link.name) (assign_address-Does tap ip))))

  -- Whatever the kernel answers, `networkSetup` makes the calls of the plan in their order, each
  -- once: the tap is added, owned by the user and the group, closed and given the MTU of the
  -- container's link, then both links are brought up, then traffic is redirected both ways if
  -- there are rules, then the address is assigned. It ends at the first call that fails, with the
  -- error of that call, after closing the tap's descriptor if the owner or the group could not be
  -- set, and succeeds when none fails.
  pub network_setup-Follows :
      (tap ip : String) (link : Link) (tc_rules : Bool) (uid gid : ℕ) (calls : List Call)
      → Follows kernel.fails call_failed
          (setup_plan tap ip link tc_rules uid gid)
          calls
          (network_setup kernel tap ip link tc_rules uid gid calls)
  network_setup-Follows tap ip link tc_rules uid gid calls =
      (network_setup-Does tap ip link tc_rules uid gid).apply calls
