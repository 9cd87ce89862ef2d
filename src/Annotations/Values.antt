-- ===== src/Annotations/Values.antt =====
-- pkg/unikontainers/annotations.go: the checks of the annotations' values; and the addresses of vAccel,
-- from vaccel.go. A regular expression of the source is a test on characters or on parts.
use urunc.Prelude.{
  ℕ, String, ◌==◌, Bool, true, false, not, Option, none, some, List, [], ◌∷◌, ◌||◌, ◌&&◌,
  if◌then◌else◌, ltb, leb, eqb, starts_with, Result, ok, err, ◌>>◌, reject_if,
}
use urunc.Prelude.Text.{all_chars, byte_len, split, cut, cut_prefix}
use urunc.Prelude.Strconv.{ℤ, pos, negsuc, parse_bool, atoi}
use urunc.Prelude.Filepath.{clean, slash}
use urunc.Annotations.{UnikernelConfig}

pub data ValueError : Type 0 where
  unsupported_pair snapshot_monitor snapshot_combined too_long bad_path bad_bool bad_dev_name
        bad_ports bad_v_accel bad_address :
      ValueError

abbrev pub is_digit : ℕ → Bool
is_digit n = leb b'0' n && leb n b'9'

abbrev pub is_alnum : ℕ → Bool
is_alnum n = is_digit n || (leb b'A' n && leb n b'Z') || (leb b'a' n && leb n b'z')

-- `allowedPathRe`
abbrev pub is_path_char : ℕ → Bool
is_path_char n = is_alnum n || eqb n b'.' || eqb n b'_' || eqb n b'/' || eqb n b'-'

abbrev pub matches_path : String → Bool
matches_path s = not (s == "") && all_chars is_path_char s

abbrev pub max_annotation_value_len : ℕ
max_annotation_value_len = 4096

unfoldable pub validate_annotation_path_clean : String → Bool → Result ValueError (Unit {0})
validate_annotation_path_clean val reject_root =
    if val == ""
    then ok tt
    else if ltb max_annotation_value_len (byte_len val)
    then err too_long
    else if not (matches_path val)
    then err bad_path
    else if starts_with val ".."
    then err bad_path
    else if starts_with val "-"
    then err bad_path
    else if not (clean val == val)
    then err bad_path
    else if clean val == "."
    then err bad_path
    else if clean val == "/" && reject_root
    then err bad_path
    else ok tt

-- `solo5DevNameRe`
abbrev pub matches_dev_name : String → Bool
matches_dev_name s = leb 1 (byte_len s) && leb (byte_len s) 67 && all_chars is_alnum s

unfoldable pub validate_solo5_dev_name : String → Result ValueError (Unit {0})
validate_solo5_dev_name val =
    if val == "" then ok tt else if not (matches_dev_name val) then err bad_dev_name else ok tt

-- One port of `hyperlightPortsRe`: one to five digits.
abbrev pub matches_port : String → Bool
matches_port s = leb 1 (byte_len s) && leb (byte_len s) 5 && all_chars is_digit s

abbrev pub ports_matches_item : String × Option String → Bool
ports_matches_item (low, none) = matches_port low
ports_matches_item (low, some high) = matches_port low && matches_port high

abbrev pub all_items : (String → Bool) → List String → Bool
all_items p [] = true
all_items p (x ∷ xs) = p x && all_items p xs

-- `hyperlightPortsRe`
abbrev pub matches_hyperlight_ports : String → Bool
matches_hyperlight_ports s = all_items (λ item. ports_matches_item (cut b'-' item)) (split b',' s)

-- The value that Atoi leaves when its error is dropped.
abbrev pub atoi_value : String → ℤ
atoi_value s = elim (atoi s) [ none ↦ pos 0 | some n ↦ n ]

-- `low < 1 || high > 65535 || low > high`
abbrev pub bad_range : ℤ → ℤ → Bool
bad_range (pos low) (pos high) = ltb low 1 || ltb 65535 high || ltb high low
bad_range (pos low) (negsuc high) = true
bad_range (negsuc low) high = true

-- `if !isRange { highStr = lowStr }`
abbrev pub high_of : String → Option String → String
high_of low_str none = low_str
high_of low_str (some high_str) = high_str

unfoldable pub port_item : String → Result ValueError (Unit {0})
port_item item =
    let (low_str, after) = cut b'-' item in
    let high_str = high_of low_str after in
    if bad_range (atoi_value low_str) (atoi_value high_str) then err bad_ports else ok tt

unfoldable pub port_items : List String → Result ValueError (Unit {0})
unfolding port_item
port_items [] = ok tt
port_items (item ∷ items) = port_item item >> port_items items

unfoldable pub validate_hyperlight_ports : String → String → Result ValueError (Unit {0})
unfolding port_items
validate_hyperlight_ports monitor val =
    if val == ""
    then ok tt
    else if not (monitor == "hyperlight-unikraft")
    then err bad_ports
    else if ltb max_annotation_value_len (byte_len val)
    then err too_long
    else if not (matches_hyperlight_ports val)
    then err bad_ports
    else port_items (split b',' val)

-- `supportedGuestMonitorPairs`
unfoldable pub supported_pair : String → String → Bool
supported_pair monitor guest =
    if monitor == "hvt" || monitor == "spt"
    then guest == "rumprun" || guest == "mirage"
    else if monitor == "qemu"
    then guest == "mewz"
      || guest == "mirage"
      || guest == "unikraft"
      || guest == "linux"
      || guest == "hermit"
      || guest == "freebsd"
    else if monitor == "firecracker"
    then guest == "linux" || guest == "unikraft" || guest == "freebsd"
    else if monitor == "cloud-hypervisor"
    then guest == "linux"
    else if monitor == "hyperlight-unikraft"
    then guest == "unikraft"
    else false

-- `vAccelPortRe`: a port from 1 to 65535 without leading zeros.
abbrev pub matches_v_accel_port : String → Bool
matches_v_accel_port s =
    matches_port s
    && not (starts_with s "0")
    && elim (atoi_value s) [ pos n ↦ leb n 65535 | negsuc n ↦ false ]

abbrev is_dir_char : ℕ → Bool
is_dir_char n = is_alnum n || eqb n b'_' || eqb n b'-'

abbrev dir_part : String → Bool
dir_part s = not (s == "") && all_chars is_dir_char s

abbrev socket_part : String → Bool
socket_part s = elim (cut_prefix "vaccel.sock_" s) [
  | none ↦ false
  | some port ↦ matches_v_accel_port port
]

-- One or more elements of the directory, then the socket.
abbrev pub socket_parts : List String → Bool
socket_parts [] = false
socket_parts (dir ∷ []) = false
socket_parts (dir ∷ socket ∷ []) = dir_part dir && socket_part socket
socket_parts (dir ∷ next ∷ more ∷ rest) = dir_part dir && socket_parts (next ∷ more ∷ rest)

abbrev pub socket_path : List String → Bool
socket_path [] = false
socket_path (first ∷ parts) = first == "" && socket_parts parts

abbrev pub qemu_address_matches : String → Bool
qemu_address_matches address = elim (cut_prefix "vsock://2:" address) [
  | none ↦ false
  | some port ↦ matches_v_accel_port port
]

abbrev pub firecracker_address_matches : String → Bool
firecracker_address_matches address = elim (cut_prefix "unix://" address) [
  | none ↦ false
  | some path ↦ socket_path (split slash path)
]

-- `vAccelAddressRe`: the format of a monitor's addresses, for those that support vAccel.
unfoldable pub v_accel_address_matches : String → Option (String → Bool)
v_accel_address_matches hypervisor =
    if hypervisor == "qemu"
    then some qemu_address_matches
    else if hypervisor == "firecracker"
    then some firecracker_address_matches
    else none

-- The checks of `validateValues` on the fields of vAccel.
unfoldable pub validate_v_accel : UnikernelConfig → Result ValueError (Unit {0})
unfolding v_accel_address_matches
validate_v_accel c =
    if c.v_accel == ""
    then if not (c.rpc_address == "") then err bad_v_accel else ok tt
    else if not (c.v_accel == "vsock")
    then err bad_v_accel
    else if c.rpc_address == ""
    then err bad_v_accel
    else if ltb max_annotation_value_len (byte_len c.rpc_address)
    then err too_long
    else elim (v_accel_address_matches c.hypervisor) [
      | none ↦ err bad_v_accel
      | some matches ↦ if not (matches c.rpc_address) then err bad_address else ok tt
    ]

unfoldable pub validate_snapshot : UnikernelConfig → Result ValueError (Unit {0})
validate_snapshot c =
    if c.snapshot == ""
    then ok tt
    else if not (c.hypervisor == "hyperlight-unikraft")
    then err snapshot_monitor
    else if not (c.unikernel_binary == "") || not (c.initrd == "")
    then err snapshot_combined
    else ok tt

unfoldable pub validate_mount_rootfs : String → Result ValueError (Unit {0})
validate_mount_rootfs value =
    if value == "" then ok tt else elim (parse_bool value) [ none ↦ err bad_bool | some b ↦ ok tt ]

-- `validateValues`
unfoldable pub validate_values : UnikernelConfig → Result ValueError (Unit {0})
unfolding validate_annotation_path_clean validate_solo5_dev_name validate_hyperlight_ports
    supported_pair validate_v_accel validate_snapshot validate_mount_rootfs
validate_values c = do
  reject_if (not (supported_pair c.hypervisor c.unikernel_type)) unsupported_pair
  validate_snapshot c
  reject_if (ltb max_annotation_value_len (byte_len c.unikernel_version)) too_long
  validate_annotation_path_clean c.unikernel_binary true
  validate_annotation_path_clean c.initrd true
  validate_annotation_path_clean c.snapshot true
  validate_annotation_path_clean c.block true
  validate_annotation_path_clean c.blk_mnt_point false
  validate_mount_rootfs c.mount_rootfs
  validate_solo5_dev_name c.net_dev
  validate_solo5_dev_name c.blk_dev
  validate_hyperlight_ports c.hypervisor c.hyperlight_ports
  validate_v_accel c
