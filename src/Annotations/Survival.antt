-- ===== src/Annotations/Survival.antt =====
-- A configuration comes back from the annotations that Map makes of it, and from its Base64 encoding.
use urunc.Prelude.{String, ◌==◌, eq_iff, Option, ◌≡◌, refl, arith, if◌then◌else◌, ok, ap, ◌∙◌}
use urunc.Prelude.Map.{Map, get, lookup, lookup-insert}
use urunc.Annotations.{
  annot_type, annot_version, annot_binary, annot_hypervisor, annot_initrd, annot_snapshot,
  annot_block, annot_block_mnt_point, annot_mount_rootfs, annot_net_dev, annot_blk_dev,
  annot_hyperlight_ports, annot_v_accel, annot_rpc_address, UnikernelConfig, put,
  get_config_from_spec, config_map, get_unikernel_config, validate,
}

-- The value under a key after one `put`.
get-put :
    (k j v : String) (m : Map String)
    → get (put k v m) j ≡ (if k == j then (if v == "" then get m j else v) else get m j)
get-put k j v m = ground (arith, lookup-insert k j v m)

or_empty_lem : (v : String) → (if v == "" then "" else v) ≡ v
or_empty_lem v = ground (arith, eq_iff v "")

-- Each annotation of `config_map` gives its field back.
module _ (c : UnikernelConfig) where
  unikernel_type_lem : get (config_map c) annot_type ≡ c.unikernel_type
  unfolding config_map lookup
  unikernel_type_lem = simp (get-put, or_empty_lem)

  unikernel_version_lem : get (config_map c) annot_version ≡ c.unikernel_version
  unfolding config_map lookup
  unikernel_version_lem = simp (get-put, or_empty_lem)

  unikernel_binary_lem : get (config_map c) annot_binary ≡ c.unikernel_binary
  unfolding config_map lookup
  unikernel_binary_lem = simp (get-put, or_empty_lem)

  hypervisor_lem : get (config_map c) annot_hypervisor ≡ c.hypervisor
  unfolding config_map lookup
  hypervisor_lem = simp (get-put, or_empty_lem)

  initrd_lem : get (config_map c) annot_initrd ≡ c.initrd
  unfolding config_map lookup
  initrd_lem = simp (get-put, or_empty_lem)

  snapshot_lem : get (config_map c) annot_snapshot ≡ c.snapshot
  unfolding config_map lookup
  snapshot_lem = simp (get-put, or_empty_lem)

  block_lem : get (config_map c) annot_block ≡ c.block
  unfolding config_map lookup
  block_lem = simp (get-put, or_empty_lem)

  blk_mnt_point_lem : get (config_map c) annot_block_mnt_point ≡ c.blk_mnt_point
  unfolding config_map lookup
  blk_mnt_point_lem = simp (get-put, or_empty_lem)

  mount_rootfs_lem : get (config_map c) annot_mount_rootfs ≡ c.mount_rootfs
  unfolding config_map lookup
  mount_rootfs_lem = simp (get-put, or_empty_lem)

  net_dev_lem : get (config_map c) annot_net_dev ≡ c.net_dev
  unfolding config_map lookup
  net_dev_lem = simp (get-put, or_empty_lem)

  blk_dev_lem : get (config_map c) annot_blk_dev ≡ c.blk_dev
  unfolding config_map lookup
  blk_dev_lem = simp (get-put, or_empty_lem)

  hyperlight_ports_lem : get (config_map c) annot_hyperlight_ports ≡ c.hyperlight_ports
  unfolding config_map lookup
  hyperlight_ports_lem = simp (get-put, or_empty_lem)

  v_accel_lem : get (config_map c) annot_v_accel ≡ c.v_accel
  unfolding config_map lookup
  v_accel_lem = simp (get-put, or_empty_lem)

  rpc_address_lem : get (config_map c) annot_rpc_address ≡ c.rpc_address
  unfolding config_map lookup
  rpc_address_lem = simp (get-put, or_empty_lem)

  -- The configuration is read back whole from the annotations that it is written to.
  pub get_config_from_spec-config_map : get_config_from_spec (config_map c) ≡ c
  unfolding get_config_from_spec
  get_config_from_spec-config_map =
      rw
        (
          unikernel_type_lem, unikernel_version_lem, unikernel_binary_lem, hypervisor_lem,
          initrd_lem, snapshot_lem, block_lem, blk_mnt_point_lem, mount_rootfs_lem, net_dev_lem,
          blk_dev_lem, hyperlight_ports_lem, v_accel_lem, rpc_address_lem,
        )
        refl

module _ (decode_string : String → Option String) (read_json : String → Option UnikernelConfig)
    (secure_join : String → String → Option String) (bundle_dir root_path : String) where
  spec_first :
      (annotations : Map String)
      → validate (get_config_from_spec annotations) ≡ ok tt
      → get_unikernel_config decode_string read_json secure_join bundle_dir root_path annotations
        ≡ ok (get_config_from_spec annotations)
  unfolding get_unikernel_config
  spec_first annotations valid = rw (get_unikernel_config, valid) refl

  -- A configuration with the mandatory fields, written to the annotations by Map, is the one that is read
  -- back from them, whatever the image holds.
  pub get_unikernel_config-config_map :
      (c : UnikernelConfig)
      → validate c ≡ ok tt
      → get_unikernel_config decode_string read_json secure_join bundle_dir root_path (config_map c)
        ≡ ok c
  get_unikernel_config-config_map c valid =
      spec_first (config_map c) (rw (get_config_from_spec-config_map c) valid)
      ∙ ap ok (get_config_from_spec-config_map c)
