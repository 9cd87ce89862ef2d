-- ===== src/Unikernels/Attached.antt =====
-- pkg/unikontainers/unikernels/freebsd.go: the device that the configuration for urunit is found on, and
-- the sectors that it fills.
use text.Mathlib.TextLemmas.{cons-append, nil-append}
use urunc.Prelude.{
  ℕ, zero, suc, ◌+◌, ◌-◌, ◌%◌, ◌≤◌, ◌<◌, String, ◌<>◌, ◌==◌, true, false, Option, none, some, List,
  [], ◌∷◌, ◌++◌, map, length, if◌then◌else◌, eqb, ◌≡◌, refl, ap, ◌∙◌, arith, Bool-cases, inl, inr,
  ◌⊎◌,
}
use urunc.Prelude.Text.{byte_len}
use urunc.Types.{BlockDevParams, MonitorBlockArgs}
use urunc.Unikernels.Linux.{urunit_conf_path}
use urunc.Unikernels.Freebsd.{
  Freebsd, monitor_block_cli, mmio_args, named_args, pad, build_urunit_config, urunit_sections,
  block_sector_size,
}

byte_len-append : (s t : String) → byte_len (s <> t) ≡ byte_len s + byte_len t
unfolding byte_len
byte_len-append String.[] t = rw nil-append (omega arith)
byte_len-append (String.◌∷◌ c s) t = rw cons-append (omega (arith, byte_len-append s t))

newline_len : (s : String) → byte_len (s <> "\n") ≡ byte_len s + 1
unfolding byte_len
newline_len s = byte_len-append s "\n"

next_turn :
    (fuel : ℕ) (text : String)
    → (byte_len text % 512 ≡ 0) ⊎ (512 ≤ byte_len text % 512 + suc fuel)
    → eqb (byte_len text % 512) 0 ≡ false
    → (byte_len (text <> "\n") % 512 ≡ 0) ⊎ (512 ≤ byte_len (text <> "\n") % 512 + fuel)
next_turn fuel text h n =
    rw (newline_len text) (elim (Bool-cases (eqb ((byte_len text + 1) % 512) 0)) [
      | inl y ↦ inl (ground arith)
      | inr m ↦ inr (ground arith)
    ])

-- As much fuel as is missing to a whole sector is enough.
pad-len :
    (fuel : ℕ) (text : String)
    → (byte_len text % 512 ≡ 0) ⊎ (512 ≤ byte_len text % 512 + fuel)
    → byte_len (pad fuel text) ≡ byte_len text + (512 - byte_len text % 512) % 512
unfolding pad
pad-len zero text (inl e) = omega (arith, e)
pad-len zero text (inr h) = absurd (omega arith)
pad-len (suc fuel) text h = elim (Bool-cases (eqb (byte_len text % 512) 0)) [
  | inl y ↦ rw y (ground arith)
  | inr n ↦
      rw n (
        pad-len fuel (text <> "\n") (next_turn fuel text h n)
        ∙ rw (newline_len text) (ground arith))
]

-- For every FreeBSD guest: the text of buildUrunitConfig fills whole sectors of 512 bytes, and is
-- longer than its sections by less than one sector.
pub build_urunit_config-whole :
    (f : Freebsd)
    → (byte_len (build_urunit_config f) % block_sector_size ≡ 0)
      × (byte_len (urunit_sections f) ≤ byte_len (build_urunit_config f))
      × (byte_len (build_urunit_config f) < byte_len (urunit_sections f) + block_sector_size)
unfolding build_urunit_config
build_urunit_config-whole f =
    let e = pad-len block_sector_size (urunit_sections f) (inr (omega arith)) in
    (omega (arith, e), omega (arith, e), omega (arith, e))

-- The device with the number `n`.
abbrev pub nth {ℓ} : {A : Type ℓ} → ℕ → List A → Option A
nth n [] = none
nth zero (x ∷ xs) = some x
nth (suc n) (x ∷ xs) = nth n xs

nth-length {ℓ κ} :
    {A : Type ℓ} {B : Type κ} (g : A → B) (xs : List A) (y : B)
    → (nth (length xs) (map g xs ++ (y ∷ [])) ≡ some y)
      × (length (map g xs ++ (y ∷ [])) ≡ suc (length xs))
nth-length g [] y = (refl, refl)
nth-length g (x ∷ xs) y = ((nth-length g xs y).0, ap suc (nth-length g xs y).1)

-- How a monitor gets the configuration.
abbrev pub config_args : String → MonitorBlockArgs
config_args monitor =
    if monitor == "qemu"
    then mmio_args "urunit" urunit_conf_path
    else named_args "FC_URUNIT_CONFIG" urunit_conf_path

-- For a FreeBSD guest whose init is urunit, on qemu or firecracker: the device that
-- MonitorBlockCli gives for the configuration has the number of the guest's block devices as its
-- number, and is the last one.
pub monitor_block_cli-config :
    (f : Freebsd)
    → f.with_urunit ≡ true
    → (f.monitor ≡ "qemu") ⊎ (f.monitor ≡ "firecracker")
    → (nth (length f.block) (monitor_block_cli f) ≡ some (config_args f.monitor))
      × (length (monitor_block_cli f) ≡ suc (length f.block))
unfolding monitor_block_cli
monitor_block_cli-config f u (inl q) =
    rw (u, q)
      (nth-length (λ (b : BlockDevParams). mmio_args b.id b.source) f.block (config_args "qemu"))
monitor_block_cli-config f u (inr q) =
    rw (u, q)
      (nth-length (λ (b : BlockDevParams). named_args ("FC" <> b.id) b.source) f.block
        (config_args "firecracker"))
