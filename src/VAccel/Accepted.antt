-- ===== src/VAccel/Accepted.antt =====
-- What create accepts of vAccel, start can use.
use text.Mathlib.TextLemmas.{cons-append, nil-append}
use urunc.Prelude.{
  String, ◌<>◌, eq_iff, true, some, List, [], ◌∷◌, ◌⊎◌, ok, ◌≡◌, ◌≢◌, refl, arith, Option-cases,
  inl, inr,
}
use urunc.Prelude.Map.{Map, lookup, get}
use urunc.Prelude.Text.{split, cut_prefix}
use urunc.Annotations.{UnikernelConfig, annot_v_accel, annot_rpc_address}
use urunc.Annotations.Values.{
  validate_v_accel, v_accel_address_matches, qemu_address_matches, firecracker_address_matches,
  matches_v_accel_port, socket_parts, socket_path,
}
use urunc.VAccel.{
  socket_port, socket_and_address, is_valid_v_sock_address, resolve_v_accel_config, slash,
  path_or_all,
}

cut_prefix-append : (p s : String) → cut_prefix p (p <> s) ≡ some s
unfolding cut_prefix
cut_prefix-append String.[] s = rw nil-append refl
cut_prefix-append (String.◌∷◌ c p) s = rw cons-append (ground (arith, cut_prefix-append p s))

-- An address of the form that a guest connects to: the host's vsock and a port.
abbrev pub IsGuestAddress : String → Type 0
IsGuestAddress address =
    (port : String) × (cut_prefix "vsock://2:" address ≡ some port)
    × (matches_v_accel_port port ≡ true)

-- The port of a socket's path that matches.
socket_parts-port :
    (parts : List String)
    → socket_parts parts ≡ true
    → (port : String) × (socket_port parts ≡ some port) × (matches_v_accel_port port ≡ true)
socket_parts-port [] h = absurd (cc)
socket_parts-port (dir ∷ []) h = absurd (cc)
socket_parts-port (dir ∷ socket ∷ []) h = elim (Option-cases (cut_prefix "vaccel.sock_" socket)) [
  | inl e ↦ absurd (ground (arith, e))
  | inr (port, e) ↦ (port, e, ground (arith, e))
]
socket_parts-port (dir ∷ next ∷ more ∷ rest) h =
    socket_parts-port (next ∷ more ∷ rest) (ground arith)

qemu_address : (address : String) → qemu_address_matches address ≡ true → IsGuestAddress address
qemu_address address h = elim (Option-cases (cut_prefix "vsock://2:" address)) [
  | inl n ↦ absurd (ground (arith, n))
  | inr (port, p) ↦ (port, p, ground (arith, p))
]

socket_path-port :
    (parts : List String)
    → socket_path parts ≡ true
    → (port : String) × (socket_port parts ≡ some port) × (matches_v_accel_port port ≡ true)
socket_path-port [] h = absurd (cc)
socket_path-port (first ∷ []) h = absurd (ground arith)
socket_path-port (first ∷ next ∷ rest) h = socket_parts-port (next ∷ rest) (ground arith)

firecracker_address :
    (address : String)
    → firecracker_address_matches address ≡ true
    → IsGuestAddress (socket_and_address (path_or_all address (cut_prefix "unix://" address))).1
firecracker_address address h = elim (Option-cases (cut_prefix "unix://" address)) [
  | inl n ↦ absurd (ground (arith, n))
  | inr (path, p) ↦
      let (port, e, m) = socket_path-port (split slash path) (ground (arith, p)) in
      rw p (rw e (port, cut_prefix-append "vsock://2:" port, m))
]

-- The monitor supports vAccel, and its addresses match.
abbrev Matches : UnikernelConfig → Type 0
Matches c =
    ((c.hypervisor ≡ "qemu") × (qemu_address_matches c.rpc_address ≡ true))
    ⊎ ((c.hypervisor ≡ "firecracker") × (firecracker_address_matches c.rpc_address ≡ true))

accepted-Matches :
    (c : UnikernelConfig)
    → validate_v_accel c ≡ ok tt
    → c.v_accel ≢ ""
    → (c.v_accel ≡ "vsock") × (c.rpc_address ≢ "") × Matches c
unfolding validate_v_accel v_accel_address_matches
accepted-Matches c h some_type = ground (
  arith,
  eq_iff c.v_accel "",
  eq_iff c.v_accel "vsock",
  eq_iff c.rpc_address "",
  eq_iff c.hypervisor "qemu",
  eq_iff c.hypervisor "firecracker",
)

valid_address :
    (c : UnikernelConfig)
    → Matches c
    → (socket address : String) × (is_valid_v_sock_address c.rpc_address c.hypervisor
        ≡ ok (socket, address))
      × IsGuestAddress address
unfolding is_valid_v_sock_address v_accel_address_matches
valid_address c (inl (q, m)) = ("", c.rpc_address, rw q (rw m refl), qemu_address c.rpc_address m)
valid_address c (inr (f, m)) =
    let found =
      socket_and_address (path_or_all c.rpc_address (cut_prefix "unix://" c.rpc_address)) in
    (found.0, found.1, rw f (rw m refl), firecracker_address c.rpc_address m)

resolve_accepted :
    {socket guest_address : String} (hypervisor : String) (annotations : Map String)
    (address v_accel_type : String)
    → lookup annot_v_accel annotations ≡ some v_accel_type
    → get annotations annot_rpc_address ≡ address
    → v_accel_type ≡ "vsock"
    → address ≢ ""
    → is_valid_v_sock_address address hypervisor ≡ ok (socket, guest_address)
    → resolve_v_accel_config hypervisor annotations ≡ ok ("vsock", socket, guest_address)
unfolding resolve_v_accel_config
resolve_accepted hypervisor annotations address v_accel_type has_type has_address vsock some_address
      e =
    rw (resolve_v_accel_config, has_type)
      (rw has_address
        (rw e (ground (arith, vsock, eq_iff address "", eq_iff v_accel_type "vsock"))))

-- When `validateValues` accepts the vAccel fields of a configuration, vAccel is on and the
-- annotations hold these fields, `resolveVAccelConfig` succeeds with the type vsock and with an
-- address for the guest that is `vsock://2:` and a port that matches `vAccelPortRe`, for QEMU and
-- for Firecracker.
pub resolve_v_accel_config-accepted :
    (c : UnikernelConfig) (annotations : Map String)
    → validate_v_accel c ≡ ok tt
    → c.v_accel ≢ ""
    → lookup annot_v_accel annotations ≡ some c.v_accel
    → get annotations annot_rpc_address ≡ c.rpc_address
    → (socket address : String) × (resolve_v_accel_config c.hypervisor annotations
        ≡ ok ("vsock", socket, address))
      × IsGuestAddress address
resolve_v_accel_config-accepted c annotations valid some_type has_type has_address =
    let (vsock, some_address, m) = accepted-Matches c valid some_type in
    let (socket, address, e, guest) = valid_address c m in
    (
      socket,
      address,
      resolve_accepted c.hypervisor annotations c.rpc_address c.v_accel has_type has_address vsock
          some_address e,
      guest,
    )
