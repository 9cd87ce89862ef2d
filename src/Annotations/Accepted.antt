-- ===== src/Annotations/Accepted.antt =====
-- What is certain of the annotations' values once they are accepted.
use urunc.Prelude.{
  ℕ, ◌≤◌, String, ◌==◌, eq_iff, Bool, true, false, not, Option, none, some, List, [], ◌∷◌,
  starts_with, ok, reject_if, >>-eq-ok, ◌≡◌, ◌≢◌, refl, ◌⊎◌, inl, inr, arith, Bool-cases,
  Option-cases, All,
}
use urunc.Prelude.Text.{all_chars, byte_len, split, cut}
use urunc.Prelude.Strconv.{ℤ, pos, negsuc, atoi}
use urunc.Prelude.CleanPaths.{NoUp, clean-NoUp}
use urunc.Prelude.Filepath.{clean}
use urunc.Annotations.{UnikernelConfig}
use urunc.Annotations.Values.{
  ValueError, unsupported_pair, max_annotation_value_len, is_path_char,
  validate_annotation_path_clean, validate_solo5_dev_name, validate_hyperlight_ports,
  validate_snapshot, validate_mount_rootfs, validate_v_accel, v_accel_address_matches,
  validate_values, supported_pair, port_item, port_items, bad_range, high_of,
}

-- A path that may stand in the monitor's command line: short, of plain characters, no option, clean,
-- and not above the directory it is taken from.
unfoldable pub IsPlainPath : Bool → String → Type 0
IsPlainPath reject_root s =
    (byte_len s ≤ max_annotation_value_len)
    × (all_chars is_path_char s ≡ true)
    × (starts_with s "-" ≡ false)
    × (starts_with s ".." ≡ false)
    × (clean s ≡ s)
    × NoUp (split b'/' s)
    × (s ≢ ".")
    × ((reject_root ≡ false) ⊎ (s ≢ "/"))

validate_annotation_path_clean-IsPlainPath :
    (s : String) (reject_root : Bool)
    → validate_annotation_path_clean s reject_root ≡ ok tt
    → (s ≡ "") ⊎ IsPlainPath reject_root s
unfolding validate_annotation_path_clean IsPlainPath
validate_annotation_path_clean-IsPlainPath s reject_root h = elim (Bool-cases (s == "")) [
  | inl e ↦ inl (ground (arith, eq_iff s ""))
  | inr e ↦ inr (
    ground arith,
    ground arith,
    ground arith,
    ground arith,
    ground (arith, eq_iff (clean s) s),
    clean-NoUp s (ground (arith, eq_iff (clean s) s)) (ground arith),
    ground (arith, eq_iff (clean s) s, eq_iff (clean s) "."),
    ground (arith, eq_iff (clean s) s, eq_iff (clean s) "/"),
  )
]

-- One item of the ports: a range within 1 to 65535, whose two ends are numbers.
abbrev pub IsPortRange : String → Type 0
IsPortRange item =
    (low high : ℕ) × (atoi (cut b'-' item).0 ≡ some (pos low))
    × (atoi (high_of (cut b'-' item).0 (cut b'-' item).1) ≡ some (pos high))
    × (1 ≤ low)
    × (low ≤ high)
    × (high ≤ 65535)

range_lem :
    (a b : Option ℤ)
    → bad_range (elim a [ none ↦ pos 0 | some n ↦ n ]) (elim b [ none ↦ pos 0 | some n ↦ n ])
      ≡ false
    → (low high : ℕ) × (a ≡ some (pos low))
      × (b ≡ some (pos high))
      × (1 ≤ low)
      × (low ≤ high)
      × (high ≤ 65535)
range_lem none none h = ground arith
range_lem none (some (pos n)) h = ground arith
range_lem none (some (negsuc n)) h = ground arith
range_lem (some (pos m)) none h = ground arith
range_lem (some (pos m)) (some (pos n)) h =
    (m, n, refl, refl, ground arith, ground arith, ground arith)
range_lem (some (pos m)) (some (negsuc n)) h = ground arith
range_lem (some (negsuc m)) b h = ground arith

port_item-IsPortRange : (item : String) → port_item item ≡ ok tt → IsPortRange item
unfolding port_item
port_item-IsPortRange item h =
    range_lem (atoi (cut b'-' item).0) (atoi (high_of (cut b'-' item).0 (cut b'-' item).1))
      (ground arith)

port_items-IsPortRange : (items : List String) → port_items items ≡ ok tt → All IsPortRange items
unfolding port_items
port_items-IsPortRange [] h = tt
port_items-IsPortRange (item ∷ items) h =
    let (first, rest) = >>-eq-ok (port_item item) (port_items items) h in
    (port_item-IsPortRange item first, port_items-IsPortRange items rest)

-- Ports are given to a monitor that can limit them, and every item of them is a range.
unfoldable pub IsPortList : String → String → Type 0
IsPortList monitor s = (monitor ≡ "hyperlight-unikraft") × All IsPortRange (split b',' s)

validate_hyperlight_ports-IsPortList :
    (monitor s : String)
    → validate_hyperlight_ports monitor s ≡ ok tt
    → (s ≡ "") ⊎ IsPortList monitor s
unfolding validate_hyperlight_ports IsPortList
validate_hyperlight_ports-IsPortList monitor s h = elim (Bool-cases (s == "")) [
  | inl e ↦ inl (ground (arith, eq_iff s ""))
  | inr e ↦ inr (
    ground (arith, eq_iff monitor "hyperlight-unikraft"),
    port_items-IsPortRange (split b',' s) (ground arith),
  )
]

-- vAccel is off and has no address, or its address is one of its monitor's format.
unfoldable pub IsVAccel : UnikernelConfig → Type 0
IsVAccel c =
    ((c.v_accel ≡ "") × (c.rpc_address ≡ ""))
    ⊎ ((c.v_accel ≡ "vsock")
        × ((matches : String → Bool) × (v_accel_address_matches c.hypervisor ≡ some matches)
            × (matches c.rpc_address ≡ true)))

validate_v_accel-IsVAccel : (c : UnikernelConfig) → validate_v_accel c ≡ ok tt → IsVAccel c
unfolding validate_v_accel IsVAccel
validate_v_accel-IsVAccel c h = elim (Bool-cases (c.v_accel == "")) [
  | inl e ↦ inl (ground (arith, eq_iff c.v_accel ""), ground (arith, eq_iff c.rpc_address ""))
  | inr e ↦ elim (Option-cases (v_accel_address_matches c.hypervisor)) [
    | inl n ↦ ground (arith, n)
    | inr (matches, m) ↦
        inr (ground (arith, eq_iff c.v_accel "vsock"), (matches, m, ground (arith, m)))
  ]
]

-- A snapshot is for the one monitor that resumes it, and replaces the binary and the initrd.
abbrev pub IsSnapshot : UnikernelConfig → Type 0
IsSnapshot c =
    (c.snapshot ≡ "")
    ⊎ ((c.hypervisor ≡ "hyperlight-unikraft") × (c.unikernel_binary ≡ "") × (c.initrd ≡ ""))

validate_snapshot-IsSnapshot : (c : UnikernelConfig) → validate_snapshot c ≡ ok tt → IsSnapshot c
unfolding validate_snapshot
validate_snapshot-IsSnapshot c h = ground (
  arith,
  eq_iff c.snapshot "",
  eq_iff c.hypervisor "hyperlight-unikraft",
  eq_iff c.unikernel_binary "",
  eq_iff c.initrd "",
)

abbrev MayBePath : Bool → String → Type 0
MayBePath reject_root s = (s ≡ "") ⊎ IsPlainPath reject_root s

reject_unless : (b : Bool) (e : ValueError) → reject_if (not b) e ≡ ok tt → b ≡ true
reject_unless true e h = refl
reject_unless false e h = cc

unfoldable pub IsAccepted : UnikernelConfig → Type 0
IsAccepted c =
    (supported_pair c.hypervisor c.unikernel_type ≡ true)
    × IsSnapshot c
    × MayBePath true c.unikernel_binary
    × MayBePath true c.initrd
    × MayBePath true c.snapshot
    × MayBePath true c.block
    × MayBePath false c.blk_mnt_point
    × ((c.hyperlight_ports ≡ "") ⊎ IsPortList c.hypervisor c.hyperlight_ports)
    × IsVAccel c

-- If validateValues accepts a configuration, then its guest and monitor are a supported pair; a
-- snapshot is for hyperlight-unikraft and comes without binary and initrd; the binary, the initrd,
-- the snapshot, the block image and its mount point are each empty or a path of at most 4096 bytes
-- and plain characters, clean, not starting with "-", with no element "..", and not "." (nor "/",
-- but for the mount point); the ports are empty, or for hyperlight-unikraft and all ranges of
-- numbers within 1 to 65535; and vAccel is off without an address, or its address has the format of
-- its monitor.
pub validate_values-IsAccepted : (c : UnikernelConfig) → validate_values c ≡ ok tt → IsAccepted c
unfolding validate_values IsAccepted
validate_values-IsAccepted c h =
    let (pair, h1) =
      >>-eq-ok (reject_if (not (supported_pair c.hypervisor c.unikernel_type)) unsupported_pair) _
        h in
    let (snapshot, h2) = >>-eq-ok _ _ h1 in
    let (_, h3) = >>-eq-ok _ _ h2 in
    let (binary, h4) = >>-eq-ok _ _ h3 in
    let (initrd, h5) = >>-eq-ok _ _ h4 in
    let (state, h6) = >>-eq-ok _ _ h5 in
    let (block, h7) = >>-eq-ok _ _ h6 in
    let (mnt_point, h8) = >>-eq-ok _ _ h7 in
    let (_, h9) = >>-eq-ok (validate_mount_rootfs c.mount_rootfs) _ h8 in
    let (_, h10) = >>-eq-ok (validate_solo5_dev_name c.net_dev) _ h9 in
    let (_, h11) = >>-eq-ok (validate_solo5_dev_name c.blk_dev) _ h10 in
    let (ports, v_accel) = >>-eq-ok _ _ h11 in
    (
      reject_unless (supported_pair c.hypervisor c.unikernel_type) unsupported_pair pair,
      validate_snapshot-IsSnapshot c snapshot,
      validate_annotation_path_clean-IsPlainPath c.unikernel_binary true binary,
      validate_annotation_path_clean-IsPlainPath c.initrd true initrd,
      validate_annotation_path_clean-IsPlainPath c.snapshot true state,
      validate_annotation_path_clean-IsPlainPath c.block true block,
      validate_annotation_path_clean-IsPlainPath c.blk_mnt_point false mnt_point,
      validate_hyperlight_ports-IsPortList c.hypervisor c.hyperlight_ports ports,
      validate_v_accel-IsVAccel c v_accel,
    )
