-- ===== src/Mount/Flags.antt =====
-- The flags of the mounts that applyMounts makes.
use urunc.Prelude.{
  String, ◌==◌, Bool, true, false, ◌||◌, ◌&&◌, Bool-cases, some, List, [], ◌∷◌, if◌then◌else◌,
  contains, ok, last_of, All, Any, Any-append, Any-last, ◌≡◌, inl, inr, refl, ap, ◌∙◌, arith,
}
use urunc.Prelude.Traced.{◌>>=◌, ◌>>◌}
use urunc.Prelude.Traced.Ensured.{
  Ensures, >>=-Ensures, Ensures->>=, perform-Ensures, Ensures-all, Ensures-both, Ensures-trivial,
  holds_of_ok,
}
use urunc.Prelude.Traced.Invariants.{
  Preserves, pure-Preserves, lift-Preserves, >>=-Preserves, perform-Preserves,
}
use urunc.Prelude.Filepath.{dir_path}
use urunc.Types.{Mount}
use urunc.Mount.{rdonly, Flag, Flags, Propagation, is_bind_mount, split_mount_options}
use urunc.Mount.Options.{says, or_old, split_mount_options-Splits}
use urunc.Mount.Apply.{
  HostCall, Host, Act, remount, set_propagation, chmod_sticky, host_failed, act, any_flag,
  locked_flags, remount_bind, set_propagations, sticky_tmpfs, create_mount_point, do_mount,
  mount_at, apply_mount, apply_mounts, or_error, no_target, no_source, mkdir_all, open_create,
  close_file, read_locked,
}

-- A remount of the target that has the flag.
abbrev pub IsRemount : String → Flag → HostCall → Type 0
IsRemount target g (remount path flags) = (path ≡ target) × (flags g ≡ true)
IsRemount target g _ = ⊥

abbrev pub HasFlag : String → Flag → List HostCall → Type 0
HasFlag target g = Any (IsRemount target g)

any_flag_of : (flags : Flags) (g : Flag) → flags g ≡ true → any_flag flags ≡ true
any_flag_of flags rdonly h = ground arith
any_flag_of flags g h = ground arith

module _ (host : Host) (target : String) (g : Flag) where
  abbrev Kept : {A : Type 0} → Act A → Type 0
  Kept = Preserves (HasFlag target g)

  act-Kept : (c : HostCall) → Kept (act host c)
  act-Kept c =
      perform-Preserves (HasFlag target g) host.fails host_failed c
        (λ calls h. Any-append (IsRemount target g) calls (c ∷ []) h)

  set_propagations-Kept :
      (path : String) (ps : List Propagation) → Kept (set_propagations host path ps)
  unfolding set_propagations
  set_propagations-Kept path [] = pure-Preserves (HasFlag target g) tt
  set_propagations-Kept path (p ∷ ps) =
      >>=-Preserves (HasFlag target g) (act-Kept (set_propagation path p))
        (λ done. set_propagations-Kept path ps)

  made-Kept :
      (path : String) (dir : Bool)
      → Kept (
          if dir
          then act host (mkdir_all path)
          else act host (mkdir_all (dir_path path))
            >> act host (open_create path)
            >> act host (close_file path))
  made-Kept path true = act-Kept (mkdir_all path)
  made-Kept path false =
      >>=-Preserves (HasFlag target g)
        (>>=-Preserves (HasFlag target g) (act-Kept (mkdir_all (dir_path path)))
          (λ made. act-Kept (open_create path)))
        (λ opened. act-Kept (close_file path))

  locked_flags-Kept : (source : String) → Kept (locked_flags host source)
  unfolding locked_flags
  locked_flags-Kept source = elim (Bool-cases host.in_user_ns) [
    | inl e ↦ rw e (lift-Preserves (HasFlag target g) (λ calls. read_locked host source calls))
    | inr e ↦ rw e (pure-Preserves (HasFlag target g) (λ f. false))
  ]

  sticky_tmpfs-Kept : (path : String) (m : Mount) → Kept (sticky_tmpfs host path m)
  unfolding sticky_tmpfs
  sticky_tmpfs-Kept path m =
      elim (Bool-cases (m.type == "tmpfs" && contains m.options "mode=1777")) [
        | inl e ↦ rw e (act-Kept (chmod_sticky path 511))
        | inr e ↦ rw e (pure-Preserves (HasFlag target g) tt)
      ]

  remount_bind-Ensures :
      (m : Mount) (flags : Flags)
      → is_bind_mount m ≡ true
      → flags g ≡ true
      → Ensures (HasFlag target g) (remount_bind host target m flags)
  unfolding remount_bind
  remount_bind-Ensures m flags bind asked =
      rw (bind, any_flag_of flags g asked)
        (>>=-Ensures (HasFlag target g) (locked_flags host m.source) (λ locked.
          perform-Ensures (HasFlag target g) host.fails host_failed
            (remount target (λ f. flags f || locked f))
            (λ calls.
              Any-last (IsRemount target g) calls (remount target (λ f. flags f || locked f))
                (refl, rw asked refl))))

  create_mount_point-Kept : (path : String) (m : Mount) → Kept (create_mount_point host path m)
  unfolding create_mount_point
  create_mount_point-Kept path m = elim (Bool-cases (is_bind_mount m)) [
    | inr e ↦ rw e (act-Kept (mkdir_all path))
    | inl e ↦ rw e (
        >>=-Preserves (HasFlag target g)
          (lift-Preserves (HasFlag target g)
            (λ calls. or_error (no_source m.source) (host.is_dir calls m.source)))
          (λ dir. made-Kept path dir))
  ]

  remount_bind-Kept :
      (path : String) (m : Mount) (flags : Flags) → Kept (remount_bind host path m flags)
  unfolding remount_bind
  remount_bind-Kept path m flags = elim (Bool-cases (is_bind_mount m && any_flag flags)) [
    | inl e ↦ rw e (
        >>=-Preserves (HasFlag target g) (locked_flags-Kept m.source)
          (λ locked. act-Kept (remount path (λ f. flags f || locked f))))
    | inr e ↦ rw e (pure-Preserves (HasFlag target g) tt)
  ]

  mount_at-Kept : (path : String) (m : Mount) → Kept (mount_at host m path)
  unfolding mount_at
  mount_at-Kept path m =
      let split = split_mount_options m.options (is_bind_mount m) in
      >>=-Preserves (HasFlag target g) (create_mount_point-Kept path m) (λ made.
        >>=-Preserves (HasFlag target g) (act-Kept (do_mount m.type m.source split.containerd path))
          (λ mounted.
            >>=-Preserves (HasFlag target g) (remount_bind-Kept path m split.vfs) (λ remounted.
              >>=-Preserves (HasFlag target g) (set_propagations-Kept path split.propagation)
                (λ done. sticky_tmpfs-Kept path m))))

  apply_mount-Kept : (rootfs_path : String) (m : Mount) → Kept (apply_mount host rootfs_path m)
  unfolding apply_mount
  apply_mount-Kept rootfs_path m =
      >>=-Preserves (HasFlag target g)
        (lift-Preserves (HasFlag target g) (λ calls.
          or_error (no_target m.destination) (host.secure_join rootfs_path m.destination)))
        (λ path. mount_at-Kept path m)

  apply_mounts-Kept :
      (rootfs_path : String) (mounts : List Mount) → Kept (apply_mounts host rootfs_path mounts)
  unfolding apply_mounts
  apply_mounts-Kept rootfs_path [] = pure-Preserves (HasFlag target g) tt
  apply_mounts-Kept rootfs_path (m ∷ mounts) =
      >>=-Preserves (HasFlag target g) (apply_mount-Kept rootfs_path m)
        (λ done. apply_mounts-Kept rootfs_path mounts)

  mount_at-Ensures :
      (m : Mount)
      → is_bind_mount m ≡ true
      → last_of (says g) m.options ≡ some true
      → Ensures (HasFlag target g) (mount_at host m target)
  unfolding mount_at
  mount_at-Ensures m bind asked =
      let split = split_mount_options m.options (is_bind_mount m) in
      let flags = (split_mount_options-Splits m.options (is_bind_mount m)).2 in
      >>=-Ensures (HasFlag target g) (create_mount_point host target m) (λ made.
        >>=-Ensures (HasFlag target g) (act host (do_mount m.type m.source split.containerd target))
          (λ mounted.
            Ensures->>= (HasFlag target g)
              (remount_bind-Ensures m split.vfs bind (flags g ∙ ap (or_old false) asked))
              (λ remounted.
                >>=-Preserves (HasFlag target g) (set_propagations-Kept target split.propagation)
                  (λ done. sticky_tmpfs-Kept target m))))

  apply_mount-Ensures :
      (rootfs_path : String) (m : Mount)
      → is_bind_mount m ≡ true
      → last_of (says g) m.options ≡ some true
      → host.secure_join rootfs_path m.destination ≡ some target
      → Ensures (HasFlag target g) (apply_mount host rootfs_path m)
  unfolding apply_mount
  apply_mount-Ensures rootfs_path m bind asked joined = record {
    apply = λ calls. rw (◌>>=◌, joined) ((mount_at-Ensures m bind asked).apply calls);
  }

-- A bind mount's target has each flag that the last option about it sets.
abbrev pub HasItsFlags : Host → String → Mount → List HostCall → Type 0
HasItsFlags host rootfs_path m calls =
    (g : Flag) (target : String)
    → is_bind_mount m ≡ true
    → last_of (says g) m.options ≡ some true
    → host.secure_join rootfs_path m.destination ≡ some target
    → HasFlag target g calls

module _ (host : Host) (rootfs_path : String) where
  abbrev AllHaveFlags : List Mount → List HostCall → Type 0
  AllHaveFlags mounts calls = All (λ m. HasItsFlags host rootfs_path m calls) mounts

  first_mount-Ensures :
      (m : Mount) (mounts : List Mount)
      → Ensures
          (HasItsFlags host rootfs_path m)
          (apply_mount host rootfs_path m >> apply_mounts host rootfs_path mounts)
  first_mount-Ensures m mounts = Ensures-all _ (λ g. Ensures-all _ (λ target. Ensures-all _ (λ bind.
      Ensures-all _ (λ asked. Ensures-all _ (λ joined.
        Ensures->>= (HasFlag target g)
          (apply_mount-Ensures host target g rootfs_path m bind asked joined)
          (λ done. apply_mounts-Kept host target g rootfs_path mounts))))))

  apply_mounts-Ensures :
      (mounts : List Mount) → Ensures (AllHaveFlags mounts) (apply_mounts host rootfs_path mounts)
  unfolding apply_mounts
  apply_mounts-Ensures [] = Ensures-trivial (apply_mounts host rootfs_path [])
  apply_mounts-Ensures (m ∷ mounts) =
      Ensures-both (HasItsFlags host rootfs_path m) (AllHaveFlags mounts)
        (first_mount-Ensures m mounts)
        (>>=-Ensures (AllHaveFlags mounts) (apply_mount host rootfs_path m)
          (λ done. apply_mounts-Ensures mounts))

  -- When `applyMounts` succeeds, whatever the host answers, then for each of the mounts that is a
  -- bind mount, each VFS flag that the last option about it sets, such as `ro`, and the target
  -- that securejoin gives, the calls made have a remount of this target with this flag.
  pub apply_mounts-flags :
      (mounts : List Mount) (calls : List HostCall)
      → (apply_mounts host rootfs_path mounts calls).0 ≡ ok tt
      → All
          (λ m. HasItsFlags host rootfs_path m (apply_mounts host rootfs_path mounts calls).1)
          mounts
  apply_mounts-flags mounts calls h =
      holds_of_ok (AllHaveFlags mounts) (apply_mounts host rootfs_path mounts calls)
        ((apply_mounts-Ensures mounts).apply calls) h
