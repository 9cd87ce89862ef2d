-- ===== src/Initrd/Allocator.antt =====
-- The inodes that inodeAllocator gives.
use urunc.Prelude.{
  ℕ, zero, suc, ◌+◌, ◌-◌, ◌≤◌, ◌<◌, true, false, eqb, Option, none, some, List, ◌∷◌, Result, ok,
  err, OnOk, ◌≡◌, ◌≢◌, refl, ap, sym, ◌∙◌, arith, Bool-cases, Option-cases, subst, inl, inr,
}
use urunc.Initrd.{
  CpioRecord, InodeAllocator, InitrdError, Merge, taken, first_free, allocate, max_newc_inode,
  inspect_initrd, add_directory, add_parents, add_missing_parents, copy_file_to_initrd,
  regular_file_bind_mounts, merge_mount, merge_mounts, archive_path, archive_lookup_path,
  merge_file_mounts_into_initrd, directory, records_of, dir_path, merge_regular,
}

-- The number that the loop finds.
abbrev IsFree : List ℕ → ℕ → Option ℕ → Type 0
IsFree used next none = Unit
IsFree used next (some inode) =
    (taken inode used ≡ false) × (next ≤ inode) × (inode ≤ max_newc_inode)

IsFree-later :
    (used : List ℕ) (next : ℕ) (found : Option ℕ)
    → IsFree used (next + 1) found
    → IsFree used next found
IsFree-later used next none free = tt
IsFree-later used next (some inode) free = (free.0, ground arith, free.2)

first_free-IsFree :
    (left : ℕ) (used : List ℕ) (next : ℕ)
    → left + next ≤ max_newc_inode + 1
    → IsFree used next (first_free left used next)
unfolding first_free
first_free-IsFree zero used next h = tt
first_free-IsFree (suc left) used next h =
    elim (taken next used)
        as (λ b.
          taken next used ≡ b
          → IsFree used next
              (elim b [ true ↦ first_free left used (next + 1) | false ↦ some next ])) [
                | true ↦ λ e.
                    IsFree-later used next _ (first_free-IsFree left used (next + 1) (ground arith))
                | false ↦ λ e. (e, ground arith, ground arith)
              ]
      refl

-- What `allocate` gives.
abbrev pub IsAllocated : InodeAllocator → ℕ × InodeAllocator → Type 0
IsAllocated a (inode, after) =
    (taken inode a.used ≡ false)
    × (a.next ≤ inode)
    × (inode ≤ max_newc_inode)
    × (after.used ≡ inode ∷ a.used)
    × (after.next ≡ inode + 1)

pub allocate-IsAllocated :
    (a : InodeAllocator) → a.next ≤ max_newc_inode + 1 → OnOk (IsAllocated a) (allocate a)
unfolding allocate
allocate-IsAllocated a h =
    elim (first_free ((max_newc_inode + 1) - a.next) a.used a.next)
        as (λ found.
          IsFree a.used a.next found
          → OnOk (IsAllocated a) (elim found [
            | none ↦ err urunc.Initrd.inodes_exhausted
            | some inode ↦ ok (inode, record { used = inode ∷ a.used; next = inode + 1 })
          ])) [ none ↦ λ free. tt | some inode ↦ λ free. (free.0, free.1, free.2, refl, refl) ]
      (first_free-IsFree ((max_newc_inode + 1) - a.next) a.used a.next (ground arith))

-- A number that the list after a step does not have.
pub taken_before :
    (j i : ℕ) {used after : List ℕ}
    → after ≡ i ∷ used
    → taken j after ≡ false
    → (j ≢ i) × (taken j used ≡ false)
unfolding taken
taken_before j i {used} e h =
    let split : taken j (i ∷ used) ≡ false = ap (taken j) (sym e) ∙ h in
    (ground (arith, split), ground (arith, split))

pub taken_cons :
    (j i : ℕ) (used : List ℕ) → j ≢ i → taken j used ≡ false → taken j (i ∷ used) ≡ false
unfolding taken
taken_cons j i used ne h = ground (arith, ne, h)

first_free-skip :
    (left : ℕ) (used : List ℕ) (next : ℕ)
    → taken next used ≡ true
    → first_free (suc left) used next ≡ first_free left used (next + 1)
unfolding first_free
first_free-skip left used next e = rw (first_free, e) refl

first_free-stop :
    (left : ℕ) (used : List ℕ) (next : ℕ)
    → taken next used ≡ false
    → first_free (suc left) used next ≡ some next
unfolding first_free
first_free-stop left used next e = rw (first_free, e) refl

none≢some : {i : ℕ} → ◌≢◌ {A = Option ℕ} none (some i)
none≢some e = cc

-- The loop finds nothing only when no number is left.
first_free-none :
    (left : ℕ) (used : List ℕ) (next i : ℕ)
    → first_free left used next ≡ none
    → next ≤ i
    → i < next + left
    → taken i used ≡ true
unfolding first_free
first_free-none zero used next i h low high = absurd (ground arith)
first_free-none (suc left) used next i h low high = elim (Bool-cases (taken next used)) [
  | inl e ↦ elim (Bool-cases (eqb i next)) [
    | inl same ↦ subst (λ j. taken j used ≡ true) (ground arith) e
    | inr other ↦
        first_free-none left used (next + 1) i (sym (first_free-skip left used next e) ∙ h)
          (ground arith) (ground arith)
  ]
  | inr e ↦ absurd (none≢some (sym h ∙ first_free-stop left used next e))
]

ok≢err :
    {r : ℕ × InodeAllocator} {problem : InitrdError}
    → ◌≢◌ {A = Result InitrdError (ℕ × InodeAllocator)} (ok r) (err problem)
ok≢err e = cc

allocate-some :
    (a : InodeAllocator) (inode : ℕ)
    → first_free ((max_newc_inode + 1) - a.next) a.used a.next ≡ some inode
    → allocate a ≡ ok (inode, record { used = inode ∷ a.used; next = inode + 1 })
unfolding allocate
allocate-some a inode e = rw (allocate, e) refl

-- When `allocate` fails, every inode from `next` up to 2^32 - 1 is in use: no free number is
-- passed over.
pub allocate-exhausted :
    (a : InodeAllocator) (problem : InitrdError) (i : ℕ)
    → allocate a ≡ err problem
    → a.next ≤ i
    → i ≤ max_newc_inode
    → taken i a.used ≡ true
unfolding allocate
allocate-exhausted a problem i h low high =
    elim (Option-cases (first_free ((max_newc_inode + 1) - a.next) a.used a.next)) [
      | inl e ↦ first_free-none ((max_newc_inode + 1) - a.next) a.used a.next i e low (ground arith)
      | inr (inode, e) ↦ absurd (ok≢err (sym (allocate-some a inode e) ∙ h))
    ]
