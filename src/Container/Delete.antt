-- ===== src/Container/Delete.antt =====
-- (*Unikontainer).Delete and cleanupNetwork of pkg/unikontainers/unikontainers.go. Each release of a
-- resource is an action of the host that may fail; what is done, in order, comes back as a trace.
use urunc.Prelude.{
  String, ◌==◌, Bool, true, false, List, [], ◌∷◌, ◌++◌, if◌then◌else◌, Result, ok, err, All, ◌≡◌,
  ◌≢◌, ◌⊎◌, arith,
}
use urunc.Container.Namespaces.{
  network, same_type, Namespace, NsError, not_existing, check_valid_ns_path,
}

pub data Action : Type 0 where
  destroy_libcontainer : Action
  remove_taps : String → Action
  restore_block_volumes : Action
  remove_mon_rootfs : Action
  remove_base_dir : Action

pub data DeleteError : Type 0 where
  still_running : DeleteError
  action_failed : Action → DeleteError
  bad_network_path : NsError → DeleteError

-- The first network namespace of the specification, if it names a path.
unfoldable pub net_ns_path : List Namespace → String
net_ns_path [] = ""
net_ns_path (ns ∷ rest) = if same_type ns.type network then ns.path else net_ns_path rest

abbrev pub Done : Type 0
Done = Result DeleteError (Unit {0}) × List Action

-- The host: which paths exist, and which actions fail.
module _ (exists : String → Bool) (fails : Action → Bool) where
  abbrev attempt : Action → Done
  attempt a = if fails a then (err (action_failed a), a ∷ []) else (ok tt, a ∷ [])

  -- `cleanupNetwork`
  unfoldable pub cleanup_network : List Namespace → Done
  cleanup_network namespaces =
      let path = net_ns_path namespaces in
      if path == "" then (ok tt, []) else elim (check_valid_ns_path exists path) [
        | err not_existing ↦ (ok tt, [])
        | err e ↦ (err (bad_network_path e), [])
        | ok _ ↦ attempt (remove_taps path)
      ]

  -- The steps one after another: the next is only taken when the last returned no error.
  abbrev pub before : Done → Done → Done
  before (err e, done) next = (err e, done)
  before (ok _, done) next = (next.0, done ++ next.1)

  abbrev tolerate : Bool → Done → Done
  tolerate true (r, done) = (ok tt, done)
  tolerate false d = d

  -- `Delete`, from the answer of `isRunning`. The monitor resources may fail to load, and then there
  -- is no volume to restore; a failure to restore the volumes is only logged.
  unfoldable pub delete : Bool → Bool → List Namespace → Bool → Done
  delete running libcontainer namespaces force =
      if running
      then (err still_running, [])
      else before (if libcontainer then attempt destroy_libcontainer else (ok tt, [])) (
          before (tolerate force (cleanup_network namespaces)) (
            before (tolerate true (attempt restore_block_volumes))
              (before (attempt remove_mon_rootfs) (attempt remove_base_dir))))

  -- The steps of a delete that succeeds, in their order.
  abbrev pub all_steps : Bool → List Action → List Action
  all_steps libcontainer taps =
      (if libcontainer then destroy_libcontainer ∷ [] else [])
      ++ (taps ++ (restore_block_volumes ∷ remove_mon_rootfs ∷ remove_base_dir ∷ []))

  -- If Delete returns no error, then the container did not run, every step was taken in order, and the
  -- monitor's rootfs and the base directory were removed.
  delete_ok :
      (running libcontainer force : Bool) (namespaces : List Namespace)
      → (delete running libcontainer namespaces force).0 ≡ ok tt
      → (running ≡ false)
        × ((delete running libcontainer namespaces force).1
            ≡ all_steps libcontainer (cleanup_network namespaces).1)
        × (fails remove_mon_rootfs ≡ false)
        × (fails remove_base_dir ≡ false)
  unfolding delete
  delete_ok running libcontainer force namespaces h = ground arith

  -- If Delete returns an error, then the base directory was not removed, so the delete can be tried
  -- again.
  pub delete_failed :
      (running libcontainer force : Bool) (namespaces : List Namespace) {e : DeleteError}
      → (delete running libcontainer namespaces force).0 ≡ err e
      → All
          (λ a. (a ≢ remove_base_dir) ⊎ (fails a ≡ true))
          (delete running libcontainer namespaces force).1
  unfolding delete cleanup_network
  delete_failed running libcontainer force namespaces h = ground arith

  -- If the monitor's rootfs and the base directory can be removed, then a forced delete of a container
  -- that does not run, without libcontainer, succeeds, whatever becomes of the network and the volumes.
  delete_forced :
      (namespaces : List Namespace)
      → fails remove_mon_rootfs ≡ false
      → fails remove_base_dir ≡ false
      → (delete false false namespaces true).0 ≡ ok tt
  unfolding delete cleanup_network
  delete_forced namespaces a b = ground arith
