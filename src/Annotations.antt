-- ===== src/Annotations.antt =====
-- pkg/unikontainers/annotations.go: the configuration of a unikernel, from the annotations of the
-- container's spec or from the image's urunc.json. Base64, the reading of urunc.json and securejoin are
-- arguments.
pub mod Values
pub mod Survival
pub mod Source
pub mod Accepted
use urunc.Prelude.{
  String, ◌==◌, Bool, true, false, not, Option, none, some, List, [], ◌∷◌, ◌||◌, ◌&&◌,
  if◌then◌else◌, Result, ok, err, ◌>>=◌, ◌>>◌, reject_if,
}
use urunc.Prelude.Map.{Map, insert, get}
use urunc.Prelude.Filepath.{is_abs, join_paths}

abbrev pub annot_type : String
annot_type = "com.urunc.unikernel.unikernelType"

abbrev pub annot_version : String
annot_version = "com.urunc.unikernel.unikernelVersion"

abbrev pub annot_binary : String
annot_binary = "com.urunc.unikernel.binary"

abbrev pub annot_hypervisor : String
annot_hypervisor = "com.urunc.unikernel.hypervisor"

abbrev pub annot_initrd : String
annot_initrd = "com.urunc.unikernel.initrd"

abbrev pub annot_snapshot : String
annot_snapshot = "com.urunc.unikernel.snapshot"

abbrev pub annot_block : String
annot_block = "com.urunc.unikernel.block"

abbrev pub annot_block_mnt_point : String
annot_block_mnt_point = "com.urunc.unikernel.blkMntPoint"

abbrev pub annot_mount_rootfs : String
annot_mount_rootfs = "com.urunc.unikernel.mountRootfs"

abbrev pub annot_net_dev : String
annot_net_dev = "com.urunc.unikernel.solo5NetDev"

abbrev pub annot_blk_dev : String
annot_blk_dev = "com.urunc.unikernel.solo5BlkDev"

abbrev pub annot_hyperlight_ports : String
annot_hyperlight_ports = "com.urunc.unikernel.hyperlightPorts"

abbrev pub annot_v_accel : String
annot_v_accel = "com.urunc.unikernel.vAccel"

abbrev pub annot_rpc_address : String
annot_rpc_address = "com.urunc.unikernel.RPCAddress"

pub record UnikernelConfig : Type 0 where
  pub unikernel_type : String
  pub unikernel_version : String
  pub unikernel_binary : String
  pub hypervisor : String
  pub initrd : String
  pub snapshot : String
  pub block : String
  pub blk_mnt_point : String
  pub mount_rootfs : String
  pub net_dev : String
  pub blk_dev : String
  pub hyperlight_ports : String
  pub v_accel : String
  pub rpc_address : String

pub data AnnotError : Type 0 where
  -- A mandatory annotation is missing.
  missing : String → AnnotError
  -- A value of urunc.json is not Base64.
  not_base64 : String → AnnotError
  not_unikernel : AnnotError
  unsafe_root : AnnotError

-- `validate`
unfoldable pub validate : UnikernelConfig → Result AnnotError (Unit {0})
validate c =
    if c.unikernel_type == ""
    then err (missing annot_type)
    else if c.hypervisor == ""
    then err (missing annot_hypervisor)
    else if c.unikernel_binary == "" && not (c.hypervisor == "hyperlight-unikraft")
    then err (missing annot_binary)
    else ok tt

unfoldable pub get_config_from_spec : Map String → UnikernelConfig
get_config_from_spec annotations = record {
  unikernel_type = get annotations annot_type;
  unikernel_version = get annotations annot_version;
  unikernel_binary = get annotations annot_binary;
  hypervisor = get annotations annot_hypervisor;
  initrd = get annotations annot_initrd;
  snapshot = get annotations annot_snapshot;
  block = get annotations annot_block;
  blk_mnt_point = get annotations annot_block_mnt_point;
  mount_rootfs = get annotations annot_mount_rootfs;
  net_dev = get annotations annot_net_dev;
  blk_dev = get annotations annot_blk_dev;
  hyperlight_ports = get annotations annot_hyperlight_ports;
  v_accel = get annotations annot_v_accel;
  rpc_address = get annotations annot_rpc_address;
}

-- `if v != "" { myMap[k] = v }`
abbrev pub put : String → String → Map String → Map String
put k v m = if v == "" then m else insert k v m

-- `(*UnikernelConfig).Map`
unfoldable pub config_map : UnikernelConfig → Map String
config_map c =
    let m0 = put annot_type c.unikernel_type [] in
    let m1 = put annot_version c.unikernel_version m0 in
    let m2 = put annot_hypervisor c.hypervisor m1 in
    let m3 = put annot_binary c.unikernel_binary m2 in
    let m4 = put annot_initrd c.initrd m3 in
    let m5 = put annot_snapshot c.snapshot m4 in
    let m6 = put annot_block c.block m5 in
    let m7 = put annot_block_mnt_point c.blk_mnt_point m6 in
    let m8 = put annot_mount_rootfs c.mount_rootfs m7 in
    let m9 = put annot_net_dev c.net_dev m8 in
    let m10 = put annot_blk_dev c.blk_dev m9 in
    let m11 = put annot_hyperlight_ports c.hyperlight_ports m10 in
    let m12 = put annot_v_accel c.v_accel m11 in
    let m13 = put annot_rpc_address c.rpc_address m12 in m13

module _ (decode_string : String → Option String) where
  -- One field of `decode`.
  abbrev decoded : String → String → Result AnnotError String
  decoded key value = elim (decode_string value) [ none ↦ err (not_base64 key) | some s ↦ ok s ]

  unfoldable pub decode : UnikernelConfig → Result AnnotError UnikernelConfig
  decode c = do
    d_hypervisor ← decoded annot_hypervisor c.hypervisor
    d_unikernel_type ← decoded annot_type c.unikernel_type
    d_unikernel_version ← decoded annot_version c.unikernel_version
    d_unikernel_binary ← decoded annot_binary c.unikernel_binary
    d_initrd ← decoded annot_initrd c.initrd
    d_snapshot ← decoded annot_snapshot c.snapshot
    d_block ← decoded annot_block c.block
    d_blk_mnt_point ← decoded annot_block_mnt_point c.blk_mnt_point
    d_mount_rootfs ← decoded annot_mount_rootfs c.mount_rootfs
    d_net_dev ← decoded annot_net_dev c.net_dev
    d_blk_dev ← decoded annot_blk_dev c.blk_dev
    d_hyperlight_ports ← decoded annot_hyperlight_ports c.hyperlight_ports
    ok (record c {
      hypervisor = d_hypervisor;
      unikernel_type = d_unikernel_type;
      unikernel_version = d_unikernel_version;
      unikernel_binary = d_unikernel_binary;
      initrd = d_initrd;
      snapshot = d_snapshot;
      block = d_block;
      blk_mnt_point = d_blk_mnt_point;
      mount_rootfs = d_mount_rootfs;
      net_dev = d_net_dev;
      blk_dev = d_blk_dev;
      hyperlight_ports = d_hyperlight_ports;
    })

  -- `GetUnikernelConfig`. `read_json` is getConfigFromJSON of a path, and `secure_join` is the
  -- library's.
  module _ (read_json : String → Option UnikernelConfig)
      (secure_join : String → String → Option String) where
    unfoldable pub get_unikernel_config :
        String → String → Map String → Result AnnotError UnikernelConfig
    unfolding get_config_from_spec validate decode
    get_unikernel_config bundle_dir root_path annotations =
        let conf = get_config_from_spec annotations in
        elim (validate conf) [
          | ok _ ↦ ok conf
          | err _ ↦
              let root_fs_dir =
                if is_abs root_path then root_path else join_paths bundle_dir root_path in
              elim (secure_join root_fs_dir "urunc.json") [
                | none ↦ err unsafe_root
                | some json_file_path ↦ elim (read_json json_file_path) [
                  | none ↦ err not_unikernel
                  | some read ↦ elim (decode read) [
                    | err _ ↦ err not_unikernel
                    | ok json_conf ↦ elim (validate json_conf) [
                      | err _ ↦ err not_unikernel
                      | ok _ ↦
                          let ports = get annotations annot_hyperlight_ports in
                          ok (record json_conf {
                            v_accel = get annotations annot_v_accel;
                            rpc_address = get annotations annot_rpc_address;
                            hyperlight_ports =
                                if ports == "" then json_conf.hyperlight_ports else ports;
                          })
                    ]
                  ]
                ]
              ]
        ]
