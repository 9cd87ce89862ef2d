-- ===== src/Network/Removed.antt =====
-- What CleanupAllUruncTaps removes, and the taps that NetworkSetup adds.
use urunc.Prelude.{
  ℕ, String, Bool, true, false, ◌&&◌, eqb, Bool-cases, Option, none, some, List, [], ◌∷◌, ◌++◌,
  Result, ok, err, inl, inr, refl, sym, subst, ◌∙◌, ◌≢◌, ◌≡◌, All, All-append, Any, Any-append,
  Any-last,
}
use urunc.Prelude.Traced.{◌>>◌}
use urunc.Prelude.Traced.Invariants.{
  Preserves, pure-Preserves, lift-Preserves, >>=-Preserves, then_Preserves, perform-Preserves,
}
use urunc.Network.{
  Call, NetError, Link, Qdisc, Kernel, Net, call, call_failed, listed, discover_container_iface,
  container_iface, link_set_down, link_del, filter_del, qdisc_del, filters_failed, qdiscs_failed,
}
use urunc.Network.Teardown.{
  is_urunc_tap, delete_qdiscs, delete_ingress_qdisc, delete_all_qdiscs, delete_filters,
  delete_all_tc_filters, delete_tap_device, join_errors, list_filters, list_qdiscs, cleanup_tap,
  cleanup_links, cleanup_all_urunc_taps,
}

abbrev pub Has : Call → List Call → Type 0
Has c = Any (λ d. d ≡ c)

-- The only links that are taken down or deleted are the taps of urunc, and nothing is added.
abbrev pub IsRemoval : Call → Type 0
IsRemoval (link_set_down name) = is_urunc_tap name ≡ true
IsRemoval (link_del name) = is_urunc_tap name ≡ true
IsRemoval (filter_del filter) = Unit
IsRemoval (qdisc_del qdisc) = Unit
IsRemoval _ = ⊥

-- A listed tap of urunc is taken down.
abbrev pub IsTried : List Call → Option Link → Type 0
IsTried calls none = Unit
IsTried calls (some link) = is_urunc_tap link.name ≡ true → Has (link_set_down link.name) calls

-- An invariant of the calls that a call which only removes keeps.
module _ (kernel : Kernel) (I : List Call → Type 0)
    (keeps : (c : Call) → IsRemoval c → (calls : List Call) → I calls → I (calls ++ (c ∷ []))) where
  abbrev Keeps : {A : Type 0} → Net A → Type 0
  Keeps = Preserves I

  call-Keeps : (c : Call) → IsRemoval c → Keeps (call kernel c)
  call-Keeps c r = perform-Preserves I kernel.fails call_failed c (keeps c r)

  delete_filters-Keeps : (filters : List ℕ) → Keeps (delete_filters kernel filters)
  unfolding delete_filters
  delete_filters-Keeps [] = pure-Preserves I tt
  delete_filters-Keeps (filter ∷ rest) =
      >>=-Preserves I (call-Keeps (filter_del filter) tt) (λ done. delete_filters-Keeps rest)

  container_iface-Keeps : Keeps (container_iface kernel)
  container_iface-Keeps = lift-Preserves I (λ calls. discover_container_iface (kernel.links calls))

  list_filters-Keeps : (name : String) → Keeps (list_filters kernel name)
  list_filters-Keeps name =
      lift-Preserves I (λ calls. listed (filters_failed name) (kernel.filters calls name))

  list_qdiscs-Keeps : (name : String) → Keeps (list_qdiscs kernel name)
  list_qdiscs-Keeps name =
      lift-Preserves I (λ calls. listed (qdiscs_failed name) (kernel.qdiscs calls name))

  delete_all_tc_filters-Keeps : (device : Link) → Keeps (delete_all_tc_filters kernel device)
  unfolding delete_all_tc_filters
  delete_all_tc_filters-Keeps device =
      >>=-Preserves I (list_filters-Keeps device.name) (λ tap_filters.
        >>=-Preserves I container_iface-Keeps (λ iface.
          >>=-Preserves I (list_filters-Keeps iface.name)
            (λ eth_filters. delete_filters-Keeps (tap_filters ++ eth_filters))))

  delete_qdiscs-Keeps :
      (index : ℕ) (qdiscs : List Qdisc) → Keeps (delete_qdiscs kernel index qdiscs)
  unfolding delete_qdiscs
  delete_qdiscs-Keeps index [] = pure-Preserves I tt
  delete_qdiscs-Keeps index (qdisc ∷ rest) =
      elim (qdisc.is_ingress && eqb qdisc.link_index index)
        as (λ mine. Keeps (elim mine [
          | true ↦ call kernel (qdisc_del qdisc.handle) >> delete_qdiscs kernel index rest
          | false ↦ delete_qdiscs kernel index rest
        ])) [
          | true ↦
              >>=-Preserves I (call-Keeps (qdisc_del qdisc.handle) tt)
                (λ done. delete_qdiscs-Keeps index rest)
          | false ↦ delete_qdiscs-Keeps index rest
        ]

  delete_ingress_qdisc-Keeps : (link : Link) → Keeps (delete_ingress_qdisc kernel link)
  unfolding delete_ingress_qdisc
  delete_ingress_qdisc-Keeps link =
      >>=-Preserves I (list_qdiscs-Keeps link.name)
        (λ qdiscs. delete_qdiscs-Keeps link.index qdiscs)

  delete_all_qdiscs-Keeps : (device : Link) → Keeps (delete_all_qdiscs kernel device)
  unfolding delete_all_qdiscs
  delete_all_qdiscs-Keeps device =
      >>=-Preserves I (delete_ingress_qdisc-Keeps device)
        (λ done. >>=-Preserves I container_iface-Keeps delete_ingress_qdisc-Keeps)

  delete_tap_device-Keeps :
      (device : Link) → is_urunc_tap device.name ≡ true → Keeps (delete_tap_device kernel device)
  unfolding delete_tap_device
  delete_tap_device-Keeps device tap =
      >>=-Preserves I (call-Keeps (link_set_down device.name) tap)
        (λ done. call-Keeps (link_del device.name) tap)

  join_errors-Keeps :
      (errors : List NetError) (r : Result NetError (Unit {0}) × List Call)
      → I r.1
      → I (join_errors kernel errors r).1
  join_errors-Keeps errors (ok done, calls) i = i
  join_errors-Keeps errors (err e, calls) i = i

  cleanup_tap-Keeps :
      (link : Link) (errors : List NetError) (calls : List Call)
      → is_urunc_tap link.name ≡ true
      → I calls
      → I (cleanup_tap kernel link (errors, calls)).1
  unfolding cleanup_tap
  cleanup_tap-Keeps link errors calls tap i =
      let filters = join_errors kernel errors (delete_all_tc_filters kernel link calls) in
      let qdiscs = join_errors kernel filters.0 (delete_all_qdiscs kernel link filters.1) in
      join_errors-Keeps qdiscs.0 (delete_tap_device kernel link qdiscs.1) (
        (delete_tap_device-Keeps link tap).apply qdiscs.1 (
          join_errors-Keeps filters.0 (delete_all_qdiscs kernel link filters.1) (
            (delete_all_qdiscs-Keeps link).apply filters.1 (
              join_errors-Keeps errors (delete_all_tc_filters kernel link calls)
                ((delete_all_tc_filters-Keeps link).apply calls i)))))

  cleanup_links-Keeps :
      (links : List (Option Link)) (done : List NetError × List Call)
      → I done.1
      → I (cleanup_links kernel links done).1
  unfolding cleanup_links
  cleanup_links-Keeps [] done i = i
  cleanup_links-Keeps (none ∷ links) done i = cleanup_links-Keeps links done i
  cleanup_links-Keeps (some link ∷ links) done i = elim (Bool-cases (is_urunc_tap link.name)) [
    | inl tap ↦
        rw (cleanup_links, tap)
          (cleanup_links-Keeps links (cleanup_tap kernel link done)
            (cleanup_tap-Keeps link done.0 done.1 tap i))
    | inr other ↦ rw (cleanup_links, other) (cleanup_links-Keeps links done i)
  ]

module _ (kernel : Kernel) where
  stays :
      (c : Call)
      → (d : Call) → IsRemoval d
      → (calls : List Call) → Has c calls
      → Has c (calls ++ (d ∷ []))
  stays c d r calls h = Any-append (λ e. e ≡ c) calls (d ∷ []) h

  join_errors-Has :
      (c : Call) (errors : List NetError) (r : Result NetError (Unit {0}) × List Call)
      → Has c r.1
      → Has c (join_errors kernel errors r).1
  join_errors-Has c errors (ok done, calls) h = h
  join_errors-Has c errors (err e, calls) h = h

  delete_tap_device-Has :
      (device : Link) (calls : List Call)
      → Has (link_set_down device.name) (delete_tap_device kernel device calls).1
  unfolding delete_tap_device
  delete_tap_device-Has device calls =
      let down = link_set_down device.name in
      then_Preserves (Has down) (call kernel down calls)
        (λ done. call kernel (link_del device.name)) (Any-last (λ e. e ≡ down) calls down refl)
        (λ done.
          perform-Preserves (Has down) kernel.fails call_failed (link_del device.name)
            (λ calls h. Any-append (λ e. e ≡ down) calls (link_del device.name ∷ []) h))

  cleanup_tap-Has :
      (link : Link) (done : List NetError × List Call)
      → Has (link_set_down link.name) (cleanup_tap kernel link done).1
  unfolding cleanup_tap
  cleanup_tap-Has link (errors, calls) =
      let filters = join_errors kernel errors (delete_all_tc_filters kernel link calls) in
      let qdiscs = join_errors kernel filters.0 (delete_all_qdiscs kernel link filters.1) in
      join_errors-Has (link_set_down link.name) qdiscs.0 (delete_tap_device kernel link qdiscs.1)
        (delete_tap_device-Has link qdiscs.1)

  cleanup_links-tap :
      (link : Link) (links : List (Option Link)) (done : List NetError × List Call)
      → is_urunc_tap link.name ≡ true
      → cleanup_links kernel (some link ∷ links) done
        ≡ cleanup_links kernel links (cleanup_tap kernel link done)
  unfolding cleanup_links
  cleanup_links-tap link links done tap = rw (cleanup_links, tap) refl

  cleanup_links-other :
      (link : Link) (links : List (Option Link)) (done : List NetError × List Call)
      → is_urunc_tap link.name ≡ false
      → cleanup_links kernel (some link ∷ links) done ≡ cleanup_links kernel links done
  unfolding cleanup_links
  cleanup_links-other link links done other = rw (cleanup_links, other) refl

  true≢false : ◌≢◌ {A = Bool} true false
  true≢false e = cc

  cleanup_links-IsTried :
      (links : List (Option Link)) (done : List NetError × List Call)
      → All (IsTried (cleanup_links kernel links done).1) links
  unfolding cleanup_links
  cleanup_links-IsTried [] done = tt
  cleanup_links-IsTried (none ∷ links) done = (tt, cleanup_links-IsTried links done)
  cleanup_links-IsTried (some link ∷ links) done = elim (Bool-cases (is_urunc_tap link.name)) [
    | inl tap ↦
        subst (λ after. All (IsTried after.1) (some link ∷ links))
          (sym (cleanup_links-tap link links done tap))
          (
            λ is_tap.
                cleanup_links-Keeps kernel (Has (link_set_down link.name))
                  (stays (link_set_down link.name)) links (cleanup_tap kernel link done)
                  (cleanup_tap-Has link done),
            cleanup_links-IsTried links (cleanup_tap kernel link done),
          )
    | inr other ↦
        subst (λ after. All (IsTried after.1) (some link ∷ links))
          (sym (cleanup_links-other link links done other))
          (λ is_tap. absurd (true≢false (sym is_tap ∙ other)), cleanup_links-IsTried links done)
  ]

  pub cleanup_all_urunc_taps-exact :
      (links : List (Option Link))
      → kernel.links [] ≡ some links
      → All IsRemoval (cleanup_all_urunc_taps kernel []).1
        × All (IsTried (cleanup_all_urunc_taps kernel []).1) links
  unfolding cleanup_all_urunc_taps
  cleanup_all_urunc_taps-exact links e =
      rw (cleanup_all_urunc_taps, e)
        (
          cleanup_links-Keeps kernel (All IsRemoval)
              (λ c r calls h. All-append IsRemoval calls (c ∷ []) h (r, tt)) links ([], []) tt,
          cleanup_links-IsTried links ([], []),
        )
