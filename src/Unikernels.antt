-- ===== src/Unikernels.antt =====
-- pkg/unikontainers/unikernels: the kinds of guests (unikernel.go), and which guest filesystems each
-- supports (SupportsBlock and SupportsFS of the file of each kind).
pub mod Masks
pub mod Urunit
pub mod Linux
pub mod Unikraft
pub mod Solo5
pub mod Qemu
pub mod Freebsd
pub mod Attached
use urunc.Prelude.{String, ◌==◌, Bool, true, false, Option, none, some, ◌||◌, if◌then◌else◌}

-- The implementations of `types.Unikernel`.
pub data UnikernelKind : Type 0 where
  rumprun unikraft mirage mewz linux hermit freebsd : UnikernelKind

-- `New`; `none` is ErrNotSupportedUnikernel.
unfoldable pub new_unikernel : String → Option UnikernelKind
new_unikernel unikernel_type =
    if unikernel_type == "rumprun"
    then some rumprun
    else if unikernel_type == "unikraft"
    then some unikraft
    else if unikernel_type == "mirage"
    then some mirage
    else if unikernel_type == "mewz"
    then some mewz
    else if unikernel_type == "linux"
    then some linux
    else if unikernel_type == "hermit"
    then some hermit
    else if unikernel_type == "freebsd"
    then some freebsd
    else none

unfoldable pub supports_block : UnikernelKind → Bool
supports_block rumprun = true
supports_block unikraft = false
supports_block mirage = true
supports_block mewz = false
supports_block linux = true
supports_block hermit = false
supports_block freebsd = true

unfoldable pub supports_fs : UnikernelKind → String → Bool
supports_fs rumprun fs_type = fs_type == "ext2"
supports_fs unikraft fs_type = fs_type == "9pfs"
supports_fs mirage fs_type = false
supports_fs mewz fs_type = false
supports_fs linux fs_type =
    fs_type == "ext2"
    || fs_type == "ext3"
    || fs_type == "ext4"
    || fs_type == "9pfs"
    || fs_type == "virtiofs"
supports_fs hermit fs_type = fs_type == "initrd"
supports_fs freebsd fs_type = fs_type == "ext2" || fs_type == "9pfs"
