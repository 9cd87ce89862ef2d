-- ===== src/Mount/Options.antt =====
-- What splitMountOptions makes of a list of options, option by option.
use urunc.Prelude.{
  String, Bool, true, false, not, Option, none, some, List, [], ◌∷◌, ◌++◌, if◌then◌else◌, keep,
  choose, last_of, append-nil, append_assoc, keep-cons, choose-cons, ◌≡◌, refl, sym, ap, ◌∙◌, arith,
}
use urunc.Mount.{
  Flag, SplitOptions, same_flag, map_rootfs_propagation_flag, map_vfs_flag, split_option,
  split_options, split_mount_options,
}

-- The options left to containerd: no propagation, and for a bind mount no flag.
unfoldable pub is_left : Bool → String → Bool
is_left is_bind o = elim (map_rootfs_propagation_flag o) [
  | some p ↦ false
  | none ↦ elim (map_vfs_flag o) [ none ↦ true | some f ↦ not is_bind ]
]

-- What one option says of one flag.
unfoldable pub says : Flag → String → Option Bool
says g o = elim (map_rootfs_propagation_flag o) [
  | some p ↦ none
  | none ↦ elim (map_vfs_flag o) [
    | none ↦ none
    | some (f, clear) ↦ if same_flag f g then some (not clear) else none
  ]
]

abbrev pub or_old : Bool → Option Bool → Bool
or_old old none = old
or_old old (some new) = new

-- One option takes effect in exactly one of the three groups, but that a flag of a mount that is no
-- bind mount also stays with containerd.
module _ (is_bind : Bool) (s : SplitOptions) (o : String) where
  containerd-step :
      (split_option is_bind s o).containerd ≡ s.containerd ++ keep (is_left is_bind) (o ∷ [])
  unfolding split_option is_left
  containerd-step = ground (arith, append-nil s.containerd)

  propagation-step :
      (split_option is_bind s o).propagation
      ≡ s.propagation ++ choose map_rootfs_propagation_flag (o ∷ [])
  unfolding split_option
  propagation-step = ground (arith, append-nil s.propagation)

  vfs-step : (g : Flag) → (split_option is_bind s o).vfs g ≡ or_old (s.vfs g) (says g o)
  unfolding split_option says
  vfs-step g = ground arith

-- What the options as a whole are split into: the left ones and the propagations in their order, and
-- for each flag what the last option about it says.
abbrev pub Splits : Bool → SplitOptions → List String → SplitOptions → Type 0
Splits is_bind s os s' =
    (s'.containerd ≡ s.containerd ++ keep (is_left is_bind) os)
    × (s'.propagation ≡ s.propagation ++ choose map_rootfs_propagation_flag os)
    × ((g : Flag) → s'.vfs g ≡ or_old (s.vfs g) (last_of (says g) os))

split_options-Splits :
    (is_bind : Bool) (os : List String) (s : SplitOptions)
    → Splits is_bind s os (split_options is_bind s os)
unfolding split_options
split_options-Splits is_bind [] s =
    (sym (append-nil s.containerd), sym (append-nil s.propagation), λ g. refl)
split_options-Splits is_bind (o ∷ os) s =
    let s1 = split_option is_bind s o in
    let (left, propagated, flags) = split_options-Splits is_bind os s1 in
    (
      left
          ∙ ap (λ l. l ++ keep (is_left is_bind) os) (containerd-step is_bind s o)
          ∙ append_assoc s.containerd (keep (is_left is_bind) (o ∷ [])) (keep (is_left is_bind) os)
          ∙ ap (λ l. s.containerd ++ l) (sym (keep-cons (is_left is_bind) o os)),
      propagated
          ∙ ap (λ l. l ++ choose map_rootfs_propagation_flag os) (propagation-step is_bind s o)
          ∙ append_assoc s.propagation (choose map_rootfs_propagation_flag (o ∷ []))
              (choose map_rootfs_propagation_flag os)
          ∙ ap (λ l. s.propagation ++ l) (sym (choose-cons map_rootfs_propagation_flag o os)),
      λ g. ground (arith, flags g, vfs-step is_bind s o g),
    )

-- For every list of options: containerd gets, in their order, the options that are no propagation and,
-- for a bind mount, no flag; the propagations are those of the options in their order; and each flag is
-- what the last option about it says, or clear if there is none.
pub split_mount_options-Splits :
    (options : List String) (is_bind : Bool)
    → ((split_mount_options options is_bind).containerd ≡ keep (is_left is_bind) options)
      × ((split_mount_options options is_bind).propagation
          ≡ choose map_rootfs_propagation_flag options)
      × ((g : Flag)
          → (split_mount_options options is_bind).vfs g ≡ or_old false (last_of (says g) options))
unfolding split_mount_options
split_mount_options-Splits options is_bind = split_options-Splits is_bind options _
