-- ===== src/Mount/Binds.antt =====
-- Which mounts reach the guest.
use urunc.Prelude.{
  String, ◌==◌, Bool, false, not, Option, none, some, List, [], ◌∷◌, ◌||◌, ◌&&◌, if◌then◌else◌,
  keep, first_of, Result, ok, err, ◌≡◌, refl, arith,
}
use urunc.Types.{Mount}
use urunc.Mount.{MountError, no_bind_option, statfs_failed, is_bind_mount, only_bind_mounts}

module _ (is_host_kernel_fs : String → Option Bool) where
  -- Why a mount makes the whole list fail.
  unfoldable pub refusal : Mount → Option MountError
  refusal m =
      if is_bind_mount m
      then elim (is_host_kernel_fs m.source) [
        | none ↦ some (statfs_failed m.source)
        | some _ ↦ none
      ]
      else if m.type == "bind" || m.type == "rbind"
      then some (no_bind_option m)
      else none

  -- A mount that the guest may see: a bind mount from outside of the host kernel's filesystems.
  unfoldable pub is_guest_mount : Mount → Bool
  is_guest_mount m =
      is_bind_mount m
      && elim (is_host_kernel_fs m.source) [ none ↦ false | some kernel ↦ not kernel ]

  abbrev pub guest_mounts : List Mount → Result MountError (List Mount)
  guest_mounts ms = elim (first_of refusal ms) [
    | some e ↦ err e
    | none ↦ ok (keep is_guest_mount ms)
  ]

  -- For every list of mounts: the result is the error of the first mount that is refused (of type bind
  -- or rbind without such an option, or a bind mount whose source cannot be examined), and if there is
  -- none, the bind mounts from outside of the host kernel's filesystems, in their order.
  pub only_bind_mounts_lem :
      (ms : List Mount) → only_bind_mounts is_host_kernel_fs ms ≡ guest_mounts ms
  unfolding only_bind_mounts refusal is_guest_mount
  only_bind_mounts_lem [] = refl
  only_bind_mounts_lem (m ∷ ms) = ground (arith, only_bind_mounts_lem ms)
