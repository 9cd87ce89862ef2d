-- ===== src/Resources/Restored.antt =====
-- restoreBlockVolumes (pkg/unikontainers/block.go), after getBlockVolumes.
use urunc.Prelude.{
  String, ◌==◌, Bool, true, false, Option, none, some, List, [], ◌∷◌, ◌++◌, Result, ok, err, All,
  ◌≡◌, ◌≢◌, refl, ◌⊎◌, inl, inr, if◌then◌else◌,
}
use urunc.Prelude.Traced.{pure, lift}
use urunc.Prelude.Traced.Ensured.{
  Ensures, >>=-Ensures, Ensures->>=, Ensures-both, Ensures-trivial, Holds,
}
use urunc.Prelude.Traced.Invariants.{Preserves, pure-Preserves, lift-Preserves, >>=-Preserves}
use urunc.Prelude.Traced.Triples.{Blame, Blames, pure-Blames, >>=-Blames, perform-Blames}
use urunc.Types.{BlockDevParams}
use urunc.Resources.{ResourceError}
use urunc.Resources.Volumes.{
  VolumeHost, VolumeCall, set_loop_autoclear, mount_again, failure, asked, volume_call, remount,
  restore_block_volume, restore_block_volumes,
}
use urunc.Resources.Taken.{volume_call-Preserves}
use urunc.Resources.Turns.{IsBack, IsBack-append, restore_block_volume-IsBack}

module _ (h : VolumeHost) where
  -- The last of the calls has failed, or the question that followed it.
  abbrev pub HasFailed : List VolumeCall → Type 0
  HasFailed calls =
      ((path : String) × (h.mounted calls path ≡ none))
      ⊎ ((before : List VolumeCall) × (c : VolumeCall) × (calls ≡ before ++ (c ∷ []))
          × (h.fails before c ≡ true))

  abbrev pub AreBack :
      List BlockDevParams → Result ResourceError (Unit {0}) × List VolumeCall → Type 0
  AreBack bs (ok done, calls) = All (λ b. IsBack h b calls) bs
  AreBack bs (err e, calls) = HasFailed calls

  module _ (I : List VolumeCall → Type 0)
      (grows : (c : VolumeCall) (calls : List VolumeCall) → I calls → I (calls ++ (c ∷ []))) where
    if_else-Preserves :
        (b : Bool) (m n : List VolumeCall → Result ResourceError (Unit {0}) × List VolumeCall)
        → Preserves I m
        → Preserves I n
        → Preserves I (if b then m else n)
    if_else-Preserves true m n i j = i
    if_else-Preserves false m n i j = j

    restore_block_volumes-Preserves :
        (bs : List BlockDevParams) → Preserves I (restore_block_volumes h bs)
    unfolding restore_block_volumes restore_block_volume
    restore_block_volumes-Preserves [] = pure-Preserves I tt
    restore_block_volumes-Preserves (b ∷ bs) =
        >>=-Preserves I
          (if_else-Preserves (b.host_mount_point == "") _ _ (pure-Preserves I tt) (
            >>=-Preserves I
              (lift-Preserves I
                (λ calls. asked b.host_mount_point (h.mounted calls b.host_mount_point)))
              (λ there. if_else-Preserves there _ _ (pure-Preserves I tt) (
                >>=-Preserves I (volume_call-Preserves h I grows (mount_again (remount b))) (λ done.
                  if_else-Preserves b.loop_autoclear _ _
                    (volume_call-Preserves h I grows (set_loop_autoclear b.source true))
                    (pure-Preserves I tt))))))
          (λ done. restore_block_volumes-Preserves bs)

  restore_block_volumes-IsBack :
      (bs : List BlockDevParams)
      → All (λ b. b.host_mount_point ≢ "") bs
      → Ensures (λ calls. All (λ b. IsBack h b calls) bs) (restore_block_volumes h bs)
  unfolding restore_block_volumes
  restore_block_volumes-IsBack [] named = Ensures-trivial (pure tt)
  restore_block_volumes-IsBack (b ∷ bs) (named, rest) =
      Ensures-both (IsBack h b) (λ calls. All (λ c. IsBack h c calls) bs)
        (Ensures->>= (IsBack h b) (restore_block_volume-IsBack h b named)
          (λ done. restore_block_volumes-Preserves (IsBack h b) (IsBack-append h b) bs))
        (>>=-Ensures (λ calls. All (λ c. IsBack h c calls) bs) (restore_block_volume h b)
          (λ done. restore_block_volumes-IsBack bs rest))

  if_else-Blames :
      (b : Bool) (m n : List VolumeCall → Result ResourceError (Unit {0}) × List VolumeCall)
      → Blames HasFailed m
      → Blames HasFailed n
      → Blames HasFailed (if b then m else n)
  if_else-Blames true m n i j = i
  if_else-Blames false m n i j = j

  volume_call-Blames : (c : VolumeCall) → Blames HasFailed (volume_call h c)
  volume_call-Blames c =
      perform-Blames HasFailed h.fails failure c (λ calls e. inr (calls, c, refl, e))

  unanswered :
      (calls : List VolumeCall) (path : String) (there : Option Bool)
      → h.mounted calls path ≡ there
      → Blame HasFailed (lift (λ c. asked path there) calls)
  unanswered calls path none e = inl (path, e)
  unanswered calls path (some there) e = tt

  restore_block_volumes-Blames :
      (bs : List BlockDevParams) → Blames HasFailed (restore_block_volumes h bs)
  unfolding restore_block_volumes restore_block_volume
  restore_block_volumes-Blames [] = pure-Blames HasFailed tt
  restore_block_volumes-Blames (b ∷ bs) =
      >>=-Blames HasFailed
        (if_else-Blames (b.host_mount_point == "") _ _ (pure-Blames HasFailed tt) (
          >>=-Blames HasFailed
            (record {
              apply = λ calls.
                  unanswered calls b.host_mount_point (h.mounted calls b.host_mount_point) refl;
            })
            (λ there. if_else-Blames there _ _ (pure-Blames HasFailed tt) (
              >>=-Blames HasFailed (volume_call-Blames (mount_again (remount b))) (λ done.
                if_else-Blames b.loop_autoclear _ _
                  (volume_call-Blames (set_loop_autoclear b.source true))
                  (pure-Blames HasFailed tt))))))
        (λ done. restore_block_volumes-Blames bs)

  of_both :
      (bs : List BlockDevParams) (r : Result ResourceError (Unit {0}) × List VolumeCall)
      → Holds (λ calls. All (λ b. IsBack h b calls) bs) r
      → Blame HasFailed r
      → AreBack bs r
  of_both bs (err e, calls) back failed = failed
  of_both bs (ok done, calls) back failed = back

  pub restore_block_volumes-AreBack :
      (bs : List BlockDevParams) (calls : List VolumeCall)
      → All (λ b. b.host_mount_point ≢ "") bs
      → AreBack bs (restore_block_volumes h bs calls)
  restore_block_volumes-AreBack bs calls named =
      of_both bs (restore_block_volumes h bs calls)
        ((restore_block_volumes-IsBack bs named).apply calls)
        ((restore_block_volumes-Blames bs).apply calls)
