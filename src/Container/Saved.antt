-- ===== src/Container/Saved.antt =====
-- The annotations of state.json: what New makes of them and what saveContainerState adds, in
-- pkg/unikontainers/unikontainers.go; and that a later command reads the same settings from them.
use urunc.Prelude.{
  String, ◌==◌, eq_iff, starts_with, none, some, [], ◌∷◌, if◌then◌else◌, ◌≡◌, arith, Bool-cases,
  inl, inr,
}
use urunc.Prelude.Map.{
  Map, lookup, insert, copy, NodupKeys, lookup-insert, insert-NodupKeys, copy-NodupKeys,
}
use urunc.Prelude.Text.{Lacks}
use urunc.Types.{MonitorConfig, ExtraBinConfig}
use urunc.Annotations.{
  UnikernelConfig, config_map, put, annot_type, annot_version, annot_binary, annot_hypervisor,
  annot_initrd, annot_snapshot, annot_block, annot_block_mnt_point, annot_mount_rootfs,
  annot_net_dev, annot_blk_dev, annot_hyperlight_ports, annot_v_accel, annot_rpc_address,
}
use urunc.Settings.{UruncConfig}
use urunc.Config.{
  to_map, store_monitor, store_monitors, store_extra_bin, store_extra_bins, urunc_config_from_map,
}
use urunc.Config.RoundTrip.{Holds, InRange, monitor_of, monitor_round_trip}

-- `confMap := config.Map(); maps.Copy(confMap, cfg.Map())` in New.
unfoldable pub new_annotations : UnikernelConfig → UruncConfig → Map String
new_annotations config cfg = copy (config_map config) (to_map cfg)

-- The loop of `saveContainerState` over the annotations of the spec.
unfoldable pub save_annotations : Map String → Map String → Map String
save_annotations [] state = state
save_annotations ((key, value) ∷ spec) state =
    let added = save_annotations spec (insert key value state) in
    let passed = save_annotations spec state in
    if starts_with key "com.urunc.unikernel."
    then passed
    else elim (lookup key state) [ some _ ↦ passed | none ↦ added ]

save_annotations-NodupKeys :
    (spec state : Map String) → NodupKeys state → NodupKeys (save_annotations spec state)
unfolding save_annotations
save_annotations-NodupKeys [] state u = u
save_annotations-NodupKeys ((key, value) ∷ spec) state u = ground (
  arith,
  save_annotations-NodupKeys spec state u,
  save_annotations-NodupKeys spec (insert key value state) (insert-NodupKeys key value state u),
)

-- What is in the state stays there.
save_annotations-lookup :
    (spec state : Map String) (k v : String)
    → lookup k state ≡ some v
    → lookup k (save_annotations spec state) ≡ some v
unfolding save_annotations
save_annotations-lookup [] state k v h = h
save_annotations-lookup ((key, value) ∷ spec) state k v h = ground (
  arith,
  eq_iff key k,
  lookup-insert key k value state,
  save_annotations-lookup spec state k v h,
  save_annotations-lookup spec (insert key value state) k v,
)

copy-lookup_other :
    (dst src : Map String) (k v : String)
    → lookup k src ≡ none
    → lookup k dst ≡ some v
    → lookup k (copy dst src) ≡ some v
unfolding copy lookup
copy-lookup_other dst [] k v n h = h
copy-lookup_other dst ((j, w) ∷ src) k v n h =
    copy-lookup_other (insert j w dst) src k v (ground arith)
      (ground (arith, lookup-insert j k w dst))

copy-lookup :
    (dst src : Map String) (k v : String)
    → NodupKeys src
    → lookup k src ≡ some v
    → lookup k (copy dst src) ≡ some v
unfolding copy lookup
copy-lookup dst [] k v u h = cc
copy-lookup dst ((j, w) ∷ src) k v (fresh, u) h = elim (Bool-cases (j == k)) [
  | inl e ↦
      copy-lookup_other (insert j w dst) src k v (ground (arith, eq_iff j k))
        (ground (arith, lookup-insert j k w dst))
  | inr e ↦ copy-lookup (insert j w dst) src k v u (ground arith)
]

put-NodupKeys : (k v : String) (m : Map String) → NodupKeys m → NodupKeys (put k v m)
put-NodupKeys k v m u = ground (arith, insert-NodupKeys k v m u)

store_monitors-NodupKeys :
    (cs : Map MonitorConfig) (m : Map String) → NodupKeys m → NodupKeys (store_monitors cs m)
unfolding store_monitors store_monitor
store_monitors-NodupKeys [] m u = u
store_monitors-NodupKeys ((hv, c) ∷ cs) m u = store_monitors-NodupKeys cs _ (
    insert-NodupKeys _ _ _ (
      insert-NodupKeys _ _ _ (
        insert-NodupKeys _ _ _
          (insert-NodupKeys _ _ _ (insert-NodupKeys _ _ _ (insert-NodupKeys _ _ m u))))))

store_extra_bins-NodupKeys :
    (cs : Map ExtraBinConfig) (m : Map String) → NodupKeys m → NodupKeys (store_extra_bins cs m)
unfolding store_extra_bins store_extra_bin
store_extra_bins-NodupKeys [] m u = u
store_extra_bins-NodupKeys ((eb, c) ∷ cs) m u =
    store_extra_bins-NodupKeys cs _ (insert-NodupKeys _ _ _ (insert-NodupKeys _ _ m u))

to_map-NodupKeys : (p : UruncConfig) → NodupKeys (to_map p)
unfolding to_map
to_map-NodupKeys p =
    store_extra_bins-NodupKeys p.extra_bins _
      (store_monitors-NodupKeys p.monitors _ (insert-NodupKeys _ _ _ (insert-NodupKeys _ _ [] tt)))

config_map-NodupKeys : (c : UnikernelConfig) → NodupKeys (config_map c)
unfolding config_map
config_map-NodupKeys c =
    let m0 = put annot_type c.unikernel_type [] in
    let m1 = put annot_version c.unikernel_version m0 in
    let m2 = put annot_hypervisor c.hypervisor m1 in
    let m3 = put annot_binary c.unikernel_binary m2 in
    let m4 = put annot_initrd c.initrd m3 in
    let m5 = put annot_snapshot c.snapshot m4 in
    let m6 = put annot_block c.block m5 in
    let m7 = put annot_block_mnt_point c.blk_mnt_point m6 in
    let m8 = put annot_mount_rootfs c.mount_rootfs m7 in
    let m9 = put annot_net_dev c.net_dev m8 in
    let m10 = put annot_blk_dev c.blk_dev m9 in
    let m11 = put annot_hyperlight_ports c.hyperlight_ports m10 in
    let m12 = put annot_v_accel c.v_accel m11 in
    let m13 = put annot_rpc_address c.rpc_address m12 in
    put-NodupKeys annot_rpc_address c.rpc_address m12 (
      put-NodupKeys annot_v_accel c.v_accel m11 (
        put-NodupKeys annot_hyperlight_ports c.hyperlight_ports m10 (
          put-NodupKeys annot_blk_dev c.blk_dev m9 (
            put-NodupKeys annot_net_dev c.net_dev m8 (
              put-NodupKeys annot_mount_rootfs c.mount_rootfs m7 (
                put-NodupKeys annot_block_mnt_point c.blk_mnt_point m6 (
                  put-NodupKeys annot_block c.block m5 (
                    put-NodupKeys annot_snapshot c.snapshot m4 (
                      put-NodupKeys annot_initrd c.initrd m3 (
                        put-NodupKeys annot_binary c.unikernel_binary m2 (
                          put-NodupKeys annot_hypervisor c.hypervisor m1 (
                            put-NodupKeys annot_version c.unikernel_version m0
                              (put-NodupKeys annot_type c.unikernel_type [] tt)))))))))))))

saved-NodupKeys :
    (spec : Map String) (c : UnikernelConfig) (p : UruncConfig)
    → NodupKeys (save_annotations spec (new_annotations c p))
unfolding new_annotations
saved-NodupKeys spec c p =
    save_annotations-NodupKeys spec (copy (config_map c) (to_map p))
      (copy-NodupKeys (config_map c) (to_map p) (config_map-NodupKeys c))

saved-Holds :
    (spec : Map String) (c : UnikernelConfig) (p : UruncConfig)
    → Holds (save_annotations spec (new_annotations c p)) p
unfolding new_annotations
saved-Holds spec c p k v h =
    save_annotations-lookup spec (copy (config_map c) (to_map p)) k v
      (copy-lookup (config_map c) (to_map p) k v (to_map-NodupKeys p) h)

-- For all annotations of the spec and all guest configurations, the annotations that New makes and
-- saveContainerState completes give a later command each monitor of the settings unchanged, provided that
-- each monitor has one entry, its name has no dot, and its memory and its processors are above 0 and
-- below 2^63.
pub monitor_of_saved :
    (spec : Map String) (c : UnikernelConfig) (p : UruncConfig) (hv : String) {m : MonitorConfig}
    → Lacks b'.' hv
    → NodupKeys p.monitors
    → lookup hv p.monitors ≡ some m
    → InRange m.default_memory_mb
    → InRange m.default_vcpus
    → monitor_of (urunc_config_from_map (save_annotations spec (new_annotations c p))) hv ≡ m
monitor_of_saved spec c p hv free u at_hv memory vcpus =
    monitor_round_trip (save_annotations spec (new_annotations c p)) p (saved-NodupKeys spec c p)
      (saved-Holds spec c p) hv free u at_hv memory vcpus
