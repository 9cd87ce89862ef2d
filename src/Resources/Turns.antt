-- ===== src/Resources/Turns.antt =====
-- A turn of the loop of restoreBlockVolumes (pkg/unikontainers/block.go).
use urunc.Prelude.{
  ◌==◌, eq_iff, Bool, true, false, Option, none, some, List, [], ◌∷◌, ◌++◌, Result, ok, err,
  append_assoc, append-nil, ◌≡◌, ◌≢◌, refl, sym, ap, ◌∙◌, ◌⊎◌, inl, inr, arith, if◌then◌else◌,
}
use urunc.Prelude.Traced.{◌>>=◌, pure, lift, outcome}
use urunc.Prelude.Traced.Ensured.{Ensures, Holds}
use urunc.Types.{BlockDevParams}
use urunc.Resources.{ResourceError}
use urunc.Resources.Volumes.{
  VolumeHost, VolumeCall, set_loop_autoclear, mount_again, failure, asked, volume_call, remount,
  mount_volume, restore_block_volume,
}

-- What is done after mount(2).
abbrev pub reset : BlockDevParams → List VolumeCall
reset b = if b.loop_autoclear then set_loop_autoclear b.source true ∷ [] else []

module _ (h : VolumeHost) where
  -- In the turn of the volume its mount point was mounted already, or it was not, and the volume was mounted
  -- with success, and where its loop device had lost the flag autoclear, that was set again with success.
  abbrev pub IsItsTurn : BlockDevParams → List VolumeCall → List VolumeCall → Type 0
  IsItsTurn b before turn =
      ((h.mounted before b.host_mount_point ≡ some true) × (turn ≡ []))
      ⊎ ((h.mounted before b.host_mount_point ≡ some false)
          × (turn ≡ mount_again (remount b) ∷ reset b)
          × (h.fails before (mount_again (remount b)) ≡ false)
          × ((b.loop_autoclear ≡ false)
              ⊎ (h.fails (before ++ (mount_again (remount b) ∷ []))
                    (set_loop_autoclear b.source true)
                  ≡ false)))

  abbrev pub IsBack : BlockDevParams → List VolumeCall → Type 0
  IsBack b calls =
      (before turn after : List VolumeCall) × (calls ≡ before ++ (turn ++ after))
      × IsItsTurn b before turn

  pub IsBack-append :
      (b : BlockDevParams) (c : VolumeCall) (calls : List VolumeCall)
      → IsBack b calls
      → IsBack b (calls ++ (c ∷ []))
  IsBack-append b c calls (before, turn, after, e, its_turn) = (
    before,
    turn,
    after ++ (c ∷ []),
    ap (λ l. l ++ (c ∷ [])) e
        ∙ append_assoc before (turn ++ after) (c ∷ [])
        ∙ ap (λ l. before ++ l) (append_assoc turn after (c ∷ [])),
    its_turn,
  )

  module _ (b : BlockDevParams) (calls : List VolumeCall) where
    abbrev mounted_calls : List VolumeCall
    mounted_calls = calls ++ (mount_again (remount b) ∷ [])

    reset_done :
        b.loop_autoclear ≡ true
        → h.mounted calls b.host_mount_point ≡ some false
        → h.fails calls (mount_again (remount b)) ≡ false
        → (fails : Bool) → h.fails mounted_calls (set_loop_autoclear b.source true) ≡ fails
        → Holds (IsBack b) (
          outcome fails (failure (set_loop_autoclear b.source true)),
          mounted_calls ++ (set_loop_autoclear b.source true ∷ []),
        )
    reset_done had free done true f = tt
    reset_done had free done false f = (
      calls,
      mount_again (remount b) ∷ set_loop_autoclear b.source true ∷ [],
      [],
      append_assoc calls (mount_again (remount b) ∷ []) (set_loop_autoclear b.source true ∷ []),
      inr (free, rw had refl, done, inr f),
    )

    mounted_done :
        h.mounted calls b.host_mount_point ≡ some false
        → h.fails calls (mount_again (remount b)) ≡ false
        → (had : Bool) → b.loop_autoclear ≡ had
        → Holds (IsBack b) (
            (if had then volume_call h (set_loop_autoclear b.source true) else pure tt)
              mounted_calls)
    mounted_done free done true e =
        reset_done e free done (h.fails mounted_calls (set_loop_autoclear b.source true)) refl
    mounted_done free done false e =
        (calls, mount_again (remount b) ∷ [], [], refl, inr (free, rw e refl, done, inl e))

    mount_done :
        h.mounted calls b.host_mount_point ≡ some false
        → (fails : Bool) → h.fails calls (mount_again (remount b)) ≡ fails
        → Holds
            (IsBack b)
            (elim (outcome fails (failure (mount_again (remount b))))
              as (λ x. Result ResourceError (Unit {0}) × List VolumeCall) [
                | err e ↦ (err e, mounted_calls)
                | ok done ↦
                    (if b.loop_autoclear
                        then volume_call h (set_loop_autoclear b.source true)
                        else pure tt)
                      mounted_calls
              ])
    mount_done free true f = tt
    mount_done free false f = mounted_done free f b.loop_autoclear refl

    turn_done :
        (there : Option Bool)
        → h.mounted calls b.host_mount_point ≡ there
        → Holds (IsBack b) (
            (lift (λ c. asked b.host_mount_point there) >>= λ there.
            if there then pure tt else mount_volume h b)
              calls)
    turn_done none e = tt
    turn_done (some true) e = (calls, [], [], sym (append-nil calls), inl (e, refl))
    turn_done (some false) e = mount_done e (h.fails calls (mount_again (remount b))) refl

  else_Ensures :
      (P : List VolumeCall → Type 0) (b : Bool)
      (m n : List VolumeCall → Result ResourceError (Unit {0}) × List VolumeCall)
      → b ≢ true
      → Ensures P n
      → Ensures P (if b then m else n)
  else_Ensures P true m n untrue k = absurd (untrue refl)
  else_Ensures P false m n untrue k = k

  pub restore_block_volume-IsBack :
      (b : BlockDevParams) → b.host_mount_point ≢ "" → Ensures (IsBack b) (restore_block_volume h b)
  unfolding restore_block_volume
  restore_block_volume-IsBack b named =
      else_Ensures (IsBack b) (b.host_mount_point == "") _ _
        (λ e. named (ground (arith, eq_iff b.host_mount_point "")))
        (record { apply = λ calls. turn_done b calls (h.mounted calls b.host_mount_point) refl })
