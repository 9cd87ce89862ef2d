-- ===== src/VAccel.antt =====
-- pkg/unikontainers/vaccel.go: idToGuestCID, isValidVSockAddress and resolveVAccelConfig, and the
-- environment that Exec gives a guest with vAccel.
pub mod Accepted
use urunc.Prelude.{
  ℕ, ◌+◌, ◌%◌, String, code, ◌<>◌, ◌==◌, Bool, true, false, not, Option, none, some, List, [], ◌∷◌,
  ◌++◌, if◌then◌else◌, starts_with, Result, ok, err,
}
use urunc.Prelude.Map.{Map, lookup, get}
use urunc.Prelude.Text.{split, cut_prefix}
use urunc.Annotations.{annot_v_accel, annot_rpc_address}
use urunc.Annotations.Values.{v_accel_address_matches}

-- The loop over the runes of the id.
unfoldable pub sum_codes : String → ℕ
sum_codes String.[] = 0
sum_codes (String.◌∷◌ c s) = code c + sum_codes s

-- `idToGuestCID`
unfoldable pub id_to_guest_cid : String → ℕ
id_to_guest_cid id = sum_codes id % 97 + 3

pub data VAccelError : Type 0 where
  v_accel_disabled rpc_address_not_set : VAccelError
  unsupported_hypervisor : String → VAccelError
  bad_rpc_address : String → VAccelError

abbrev pub slash : ℕ
slash = b'/'

-- `matches[2]`, the port at the end of the socket's path.
abbrev pub socket_port : List String → Option String
socket_port [] = none
socket_port (s ∷ []) = cut_prefix "vaccel.sock_" s
socket_port (s ∷ t ∷ rest) = socket_port (t ∷ rest)

abbrev pub port_or_empty : Option String → String
port_or_empty none = ""
port_or_empty (some p) = p

abbrev pub path_or_all : String → Option String → String
path_or_all address none = address
path_or_all address (some path) = path

-- The path of the host's socket, and the address for the guest.
abbrev pub socket_and_address : String → String × String
socket_and_address host_socket =
    (host_socket, "vsock://2:" <> port_or_empty (socket_port (split slash host_socket)))

-- `isValidVSockAddress`: the host's socket and the address for the guest.
unfoldable pub is_valid_v_sock_address : String → String → Result VAccelError (String × String)
is_valid_v_sock_address rpc_address hypervisor = elim (v_accel_address_matches hypervisor) [
  | none ↦ err (unsupported_hypervisor hypervisor)
  | some matches ↦
      if not (matches rpc_address)
      then err (bad_rpc_address rpc_address)
      else if hypervisor == "firecracker"
      then ok (socket_and_address (path_or_all rpc_address (cut_prefix "unix://" rpc_address)))
      else ok ("", rpc_address)
]

-- `resolveVAccelConfig`: the type, the host's socket and the address.
unfoldable pub resolve_v_accel_config :
    String → Map String → Result VAccelError (String × String × String)
resolve_v_accel_config hypervisor annotations =
    let address = get annotations annot_rpc_address in
    elim (lookup annot_v_accel annotations) [
      | none ↦ err v_accel_disabled
      | some v_accel_type ↦
          if address == ""
          then err rpc_address_not_set
          else if v_accel_type == "vsock"
          then elim (is_valid_v_sock_address address hypervisor) [
            | err e ↦ err e
            | ok (host_socket, guest_address) ↦ ok (v_accel_type, host_socket, guest_address)
          ]
          else ok (v_accel_type, "", address)
    ]

-- The loop of `Exec` that takes the first such variable away.
unfoldable pub remove_rpc_address : List String → List String
remove_rpc_address [] = []
remove_rpc_address (e ∷ es) =
    let rest = remove_rpc_address es in if starts_with e "VACCEL_RPC_ADDRESS=" then es else e ∷ rest

unfoldable pub set_rpc_address : List String → String → List String
set_rpc_address env rpc_address =
    remove_rpc_address env ++ (("VACCEL_RPC_ADDRESS=" <> rpc_address) ∷ [])
