-- ===== src/Network/Teardown.antt =====
-- CleanupAllUruncTaps and the deletion of filters, qdiscs and taps.
use urunc.Prelude.{
  ℕ, String, ◌==◌, Bool, true, false, ◌&&◌, leb, eqb, code, Option, none, some, List, [], ◌∷◌, ◌++◌,
  if◌then◌else◌, Result, ok, err,
}
use urunc.Prelude.Text.{cut_prefix}
use urunc.Prelude.Traced.{pure, lift, ◌>>=◌, ◌>>◌}
use urunc.Network.{
  Link, Qdisc, Call, NetError, Kernel, Net, listed, container_iface, call, link_set_down, link_del,
  qdisc_del, filter_del, links_failed, filters_failed, qdiscs_failed,
}

-- `\d+_urunc$`, after the digits seen so far.
unfoldable pub digits_then_urunc : Bool → String → Bool
digits_then_urunc seen String.[] = false
digits_then_urunc seen (String.◌∷◌ c s) =
    let rest = digits_then_urunc true s in
    if leb b'0' (code c) && leb (code c) b'9' then rest else seen && String.◌∷◌ c s == "_urunc"

-- `tapRe`
unfoldable pub is_urunc_tap : String → Bool
unfolding digits_then_urunc
is_urunc_tap name = elim (cut_prefix "tap" name) [
  | none ↦ false
  | some rest ↦ digits_then_urunc false rest
]

module _ (kernel : Kernel) where
  -- QdiscList and FilterList
  abbrev pub list_qdiscs : String → Net (List Qdisc)
  list_qdiscs name = lift (λ calls. listed (qdiscs_failed name) (kernel.qdiscs calls name))

  abbrev pub list_filters : String → Net (List ℕ)
  list_filters name = lift (λ calls. listed (filters_failed name) (kernel.filters calls name))

  -- `deleteIngressQdisc`
  unfoldable pub delete_qdiscs : ℕ → List Qdisc → Net (Unit {0})
  delete_qdiscs index [] = pure tt
  delete_qdiscs index (qdisc ∷ rest) = elim (qdisc.is_ingress && eqb qdisc.link_index index) [
    | true ↦ call kernel (qdisc_del qdisc.handle) >> delete_qdiscs index rest
    | false ↦ delete_qdiscs index rest
  ]

  unfoldable pub delete_ingress_qdisc : Link → Net (Unit {0})
  delete_ingress_qdisc link = do qdiscs ← list_qdiscs link.name; delete_qdiscs link.index qdiscs

  unfoldable pub delete_all_qdiscs : Link → Net (Unit {0})
  delete_all_qdiscs device = do
    delete_ingress_qdisc device
    iface ← container_iface kernel
    delete_ingress_qdisc iface

  unfoldable pub delete_filters : List ℕ → Net (Unit {0})
  delete_filters [] = pure tt
  delete_filters (filter ∷ rest) = call kernel (filter_del filter) >> delete_filters rest

  unfoldable pub delete_all_tc_filters : Link → Net (Unit {0})
  delete_all_tc_filters device = do
    tap_filters ← list_filters device.name
    iface ← container_iface kernel
    eth_filters ← list_filters iface.name
    delete_filters (tap_filters ++ eth_filters)

  unfoldable pub delete_tap_device : Link → Net (Unit {0})
  delete_tap_device device =
      call kernel (link_set_down device.name) >> call kernel (link_del device.name)

  -- `errors.Join` of the error, if there is one.
  abbrev pub join_errors :
      List NetError → Result NetError (Unit {0}) × List Call → List NetError × List Call
  join_errors errors (ok done, calls) = (errors, calls)
  join_errors errors (err e, calls) = (errors ++ (e ∷ []), calls)

  -- What the loop of `CleanupAllUruncTaps` does for a tap: each step is tried, whatever the last gave.
  unfoldable pub cleanup_tap : Link → List NetError × List Call → List NetError × List Call
  cleanup_tap link (errors, calls) =
      let filters = join_errors errors (delete_all_tc_filters link calls) in
      let qdiscs = join_errors filters.0 (delete_all_qdiscs link filters.1) in
      join_errors qdiscs.0 (delete_tap_device link qdiscs.1)

  unfoldable pub cleanup_links :
      List (Option Link) → List NetError × List Call → List NetError × List Call
  cleanup_links [] done = done
  cleanup_links (none ∷ links) done = cleanup_links links done
  cleanup_links (some link ∷ links) done = elim (is_urunc_tap link.name) [
    | true ↦ cleanup_links links (cleanup_tap link done)
    | false ↦ cleanup_links links done
  ]

  -- `CleanupAllUruncTaps`: the errors that it joins.
  unfoldable pub cleanup_all_urunc_taps : List Call → List NetError × List Call
  cleanup_all_urunc_taps calls = elim (kernel.links calls) [
    | none ↦ (links_failed ∷ [], calls)
    | some links ↦ cleanup_links links ([], calls)
  ]
