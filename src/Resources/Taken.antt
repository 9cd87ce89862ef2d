-- ===== src/Resources/Taken.antt =====
-- getBlockVolumes (pkg/unikontainers/block.go): what it takes from the host.
use urunc.Prelude.{
  ℕ, suc, String, Bool, false, Option, none, some, List, [], ◌∷◌, ◌++◌, All, Any, Any-append,
  Any-last, ◌≡◌, refl, sym, ◌∙◌, ◌⊎◌, inl, inr, arith, Bool-cases,
}
use urunc.Prelude.Traced.{lift}
use urunc.Prelude.Traced.Invariants.{
  Preserves, pure-Preserves, lift-Preserves, >>=-Preserves, perform-Preserves,
}
use urunc.Prelude.Traced.Triples.{
  Leads, Leads->>=, Leads-anything, pure-Leads, Leaves-of_calls, Leaves-both,
}
use urunc.Types.{Mount, BlockDevParams}
use urunc.Unikernels.{UnikernelKind, supports_fs}
use urunc.Block.{MountEntry, find_mount_info}
use urunc.Block.MountInfo.{last_at, described, find_mount_info-described}
use urunc.Resources.Volumes.{
  VolumeHost, VolumeCall, set_loop_autoclear, unmount_at, failure, asked, volume_call,
  set_autoclear, take_volume, volume_found, volume_of, block_volume, get_block_volumes, add_volume,
}

-- The volume was taken from one of the mounts: from where its source was mounted, to its destination.
abbrev pub IsFrom : List Mount → BlockDevParams → Type 0
IsFrom [] b = ⊥
IsFrom (m ∷ ms) b =
    ((b.host_mount_point ≡ m.source) × (b.mount_point ≡ m.destination)) ⊎ IsFrom ms b

-- It was unmounted from the host.
abbrev pub IsUnmounted : BlockDevParams → List VolumeCall → Type 0
IsUnmounted b = Any (λ c. c ≡ unmount_at b.host_mount_point)

abbrev pub AreTaken : List Mount → List BlockDevParams → List VolumeCall → Type 0
AreTaken ms bs calls = All (λ b. IsFrom ms b × IsUnmounted b calls) bs

described-path :
    (path : String) (ms : List MountEntry) (found : Option MountEntry) (b : BlockDevParams)
    → described path ms found ≡ some b
    → b.mount_point ≡ path
described-path path ms none b h = cc
described-path path ms (some m) b h = ground arith

found-path :
    (ms : List MountEntry) (path : String) (b : BlockDevParams)
    → find_mount_info ms path ≡ some b
    → b.mount_point ≡ path
found-path ms path b h =
    described-path path ms (last_at path ms none) b (sym (find_mount_info-described ms path) ∙ h)

-- What later calls do not change.
module _ (h : VolumeHost) (I : List VolumeCall → Type 0)
    (grows : (c : VolumeCall) (calls : List VolumeCall) → I calls → I (calls ++ (c ∷ []))) where
  pub volume_call-Preserves : (c : VolumeCall) → Preserves I (volume_call h c)
  volume_call-Preserves c = perform-Preserves I h.fails failure c (grows c)

  set_autoclear-Preserves :
      (device : String) (value : Bool) → Preserves I (set_autoclear h device value)
  set_autoclear-Preserves device value = record {
    apply = λ calls i. (volume_call-Preserves (set_loop_autoclear device value)).apply calls i;
  }

  take_volume-Preserves :
      (i : ℕ) (m : Mount) (info : BlockDevParams) → Preserves I (take_volume h i m info)
  take_volume-Preserves i m info =
      >>=-Preserves I (set_autoclear-Preserves info.source false) (λ cleared.
        >>=-Preserves I (volume_call-Preserves (unmount_at info.mount_point))
          (λ done. pure-Preserves I _))

  volume_found-Preserves :
      (ukernel : UnikernelKind) (i : ℕ) (m : Mount) (found : Option BlockDevParams)
      → Preserves I (volume_found h ukernel i m found)
  volume_found-Preserves ukernel i m none = pure-Preserves I none
  volume_found-Preserves ukernel i m (some info) =
      elim (Bool-cases (supports_fs ukernel info.fs_type)) [
        | inl e ↦ rw e (take_volume-Preserves i m info)
        | inr e ↦ rw e (pure-Preserves I none)
      ]

  get_block_volumes-Preserves :
      (ukernel : UnikernelKind) (i : ℕ) (ms : List Mount)
      → Preserves I (get_block_volumes h ukernel i ms)
  unfolding get_block_volumes block_volume
  get_block_volumes-Preserves ukernel i [] = pure-Preserves I []
  get_block_volumes-Preserves ukernel i (m ∷ ms) =
      >>=-Preserves I
        (>>=-Preserves I (lift-Preserves I (λ calls. asked m.source (h.mount_info calls)))
          (λ entries. volume_found-Preserves ukernel i m (find_mount_info entries m.source)))
        (λ found.
          >>=-Preserves I (get_block_volumes-Preserves ukernel (suc i) ms)
            (λ volumes. pure-Preserves I (add_volume found volumes)))

module _ (h : VolumeHost) (ukernel : UnikernelKind) where
  abbrev IsTaken : Mount → Option BlockDevParams → List VolumeCall → Type 0
  IsTaken m none calls = Unit
  IsTaken m (some b) calls =
      (b.host_mount_point ≡ m.source) × (b.mount_point ≡ m.destination) × IsUnmounted b calls

  IsTaken-append :
      (m : Mount) (found : Option BlockDevParams) (c : VolumeCall) (calls : List VolumeCall)
      → IsTaken m found calls
      → IsTaken m found (calls ++ (c ∷ []))
  IsTaken-append m none c calls t = tt
  IsTaken-append m (some b) c calls (source, destination, unmounted) = (
    source,
    destination,
    Any-append (λ x. x ≡ unmount_at b.host_mount_point) calls (c ∷ []) unmounted,
  )

  abbrev Start : List VolumeCall → Type 0
  Start calls = Unit

  unmount-IsUnmounted :
      (path : String)
      → Leads Start (λ done. Any (λ c. c ≡ unmount_at path)) (volume_call h (unmount_at path))
  unmount-IsUnmounted path = record {
    apply = λ calls i.
        Leaves-of_calls (Any (λ c. c ≡ unmount_at path)) (volume_call h (unmount_at path) calls)
          (Any-last (λ c. c ≡ unmount_at path) calls (unmount_at path) refl);
  }

  take_volume-IsTaken :
      (i : ℕ) (m : Mount) (info : BlockDevParams)
      → info.mount_point ≡ m.source
      → Leads Start (IsTaken m) (take_volume h i m info)
  take_volume-IsTaken i m info same =
      Leads->>= Start (λ cleared. Start) (IsTaken m)
        (Leads-anything Start (set_autoclear h info.source false))
        (λ cleared.
          Leads->>= Start (λ done. Any (λ c. c ≡ unmount_at info.mount_point)) (IsTaken m)
            (unmount-IsUnmounted info.mount_point)
            (λ done.
              pure-Leads (Any (λ c. c ≡ unmount_at info.mount_point)) (IsTaken m)
                (some (volume_of i m info cleared)) (λ calls u. (same, refl, u))))

  volume_found-IsTaken :
      (i : ℕ) (m : Mount) (entries : List MountEntry) (found : Option BlockDevParams)
      → find_mount_info entries m.source ≡ found
      → Leads Start (IsTaken m) (volume_found h ukernel i m found)
  volume_found-IsTaken i m entries none e = record { apply = λ calls i. tt }
  volume_found-IsTaken i m entries (some info) e =
      elim (Bool-cases (supports_fs ukernel info.fs_type)) [
        | inl s ↦ rw s (take_volume-IsTaken i m info (found-path entries m.source info e))
        | inr s ↦ rw s (record { apply = λ calls i. tt })
      ]

  block_volume-IsTaken : (i : ℕ) (m : Mount) → Leads Start (IsTaken m) (block_volume h ukernel i m)
  unfolding block_volume
  block_volume-IsTaken i m =
      Leads->>= Start (λ entries. Start) (IsTaken m)
        (Leads-anything Start (lift (λ calls. asked m.source (h.mount_info calls))))
        (λ entries. volume_found-IsTaken i m entries (find_mount_info entries m.source) refl)

  later_mounts :
      (m : Mount) (ms : List Mount) (bs : List BlockDevParams) (calls : List VolumeCall)
      → AreTaken ms bs calls
      → AreTaken (m ∷ ms) bs calls
  later_mounts m ms [] calls t = tt
  later_mounts m ms (b ∷ bs) calls ((from, unmounted), t) =
      ((inr from, unmounted), later_mounts m ms bs calls t)

  added :
      (m : Mount) (ms : List Mount) (found : Option BlockDevParams) (bs : List BlockDevParams)
      (calls : List VolumeCall)
      → IsTaken m found calls
      → AreTaken ms bs calls
      → AreTaken (m ∷ ms) (add_volume found bs) calls
  added m ms none bs calls t ts = later_mounts m ms bs calls ts
  added m ms (some b) bs calls (source, destination, unmounted) ts =
      ((inl (source, destination), unmounted), later_mounts m ms bs calls ts)

  pub get_block_volumes-AreTaken :
      (i : ℕ) (ms : List Mount) → Leads Start (AreTaken ms) (get_block_volumes h ukernel i ms)
  unfolding get_block_volumes
  get_block_volumes-AreTaken i [] = record { apply = λ calls i. tt }
  get_block_volumes-AreTaken i (m ∷ ms) =
      Leads->>= Start (IsTaken m) (AreTaken (m ∷ ms)) (block_volume-IsTaken i m) (λ found.
        Leads->>= (IsTaken m found) (λ bs calls. AreTaken ms bs calls × IsTaken m found calls)
          (AreTaken (m ∷ ms))
          (record {
            apply = λ calls taken.
                Leaves-both (AreTaken ms) (IsTaken m found)
                  (get_block_volumes h ukernel (suc i) ms calls)
                  ((get_block_volumes-AreTaken (suc i) ms).apply calls tt)
                  ((get_block_volumes-Preserves h (IsTaken m found) (IsTaken-append m found) ukernel
                      (suc i) ms).apply
                    calls taken);
          })
          (λ bs.
            pure-Leads (λ calls. AreTaken ms bs calls × IsTaken m found calls) (AreTaken (m ∷ ms))
              (add_volume found bs) (λ calls both. added m ms found bs calls both.1 both.0)))
