-- ===== src/Tests/VAccel.antt =====
-- Runs of vaccel.go.
use urunc.Prelude.{String, [], ◌∷◌, ok, ◌≡◌, refl, eq_iff, arith}
use urunc.Prelude.Map.{Map, lookup, get}
use urunc.Prelude.Text.{split, cut_prefix, byte_len, all_chars}
use urunc.Prelude.Strconv.{atoi}
use urunc.Annotations.{UnikernelConfig, annot_v_accel, annot_rpc_address}
use urunc.Annotations.Values.{validate_v_accel, v_accel_address_matches}
use urunc.VAccel.{
  sum_codes, id_to_guest_cid, remove_rpc_address, set_rpc_address, resolve_v_accel_config,
  is_valid_v_sock_address,
}
use urunc.VAccel.Accepted.{resolve_v_accel_config-accepted, IsGuestAddress}

abbrev accelerated : UnikernelConfig
accelerated = record {
  unikernel_type = "linux";
  unikernel_version = "";
  unikernel_binary = "/boot/vmlinux";
  hypervisor = "firecracker";
  initrd = "";
  snapshot = "";
  block = "";
  blk_mnt_point = "";
  mount_rootfs = "true";
  net_dev = "";
  blk_dev = "";
  hyperlight_ports = "";
  v_accel = "vsock";
  rpc_address = "unix:///run/agent/vaccel.sock_2048";
}

abbrev annotations_of_accelerated : Map String
annotations_of_accelerated =
    (annot_rpc_address, "unix:///run/agent/vaccel.sock_2048") ∷ (annot_v_accel, "vsock") ∷ []

accelerated_is_valid : validate_v_accel accelerated ≡ ok tt
unfolding validate_v_accel v_accel_address_matches split cut_prefix byte_len all_chars atoi
accelerated_is_valid = refl

resolve_example :
    (socket address : String) × (resolve_v_accel_config "firecracker" annotations_of_accelerated
      ≡ ok ("vsock", socket, address))
    × IsGuestAddress address
unfolding lookup get
resolve_example =
    resolve_v_accel_config-accepted accelerated annotations_of_accelerated accelerated_is_valid
      (ground (arith, eq_iff "vsock" "")) refl refl

resolve_run :
    resolve_v_accel_config "firecracker" annotations_of_accelerated
    ≡ ok ("vsock", "/run/agent/vaccel.sock_2048", "vsock://2:2048")
unfolding resolve_v_accel_config is_valid_v_sock_address v_accel_address_matches lookup get split
    cut_prefix byte_len all_chars atoi
resolve_run = refl

guest_cid_run : id_to_guest_cid "ab" ≡ 4
unfolding id_to_guest_cid sum_codes
guest_cid_run = refl

set_rpc_address_run :
    set_rpc_address ("A=1" ∷ "VACCEL_RPC_ADDRESS=x" ∷ "B=2" ∷ []) "vsock://2:2048"
    ≡ "A=1" ∷ "B=2" ∷ "VACCEL_RPC_ADDRESS=vsock://2:2048" ∷ []
unfolding set_rpc_address remove_rpc_address
set_rpc_address_run = refl
