-- ===== src/Command/Child.antt =====
-- validateID and the delete command (cmd/urunc): the paths below the runtime's root directory.
use mathlib.Core.List.{reverse, reverse-cons}
use text.Mathlib.TextLemmas.{cons-append, nil-append, append_assoc as text_assoc}
use urunc.Prelude.{
  ℕ, Char, String, ◌<>◌, ◌==◌, eq_iff, Bool, true, false, Bool-cases, List, [], ◌∷◌, ◌++◌,
  if◌then◌else◌, Result, ok, err, All, All-append, ◌≡◌, ◌≢◌, refl, sym, subst, ap, ◌∙◌, inl, inr,
  arith,
}
use urunc.Prelude.Text.{all_chars, split, join, Lacks, split-append_any, split_of_Lacks}
use urunc.Prelude.Filepath.{slash, is_abs, clean_step, clean_parts, elements, clean, join_paths}
use urunc.Prelude.Traced.{pure, lift}
use urunc.Prelude.Traced.Answers.{Gives, Yields-Preserves}
use urunc.Prelude.Traced.Invariants.{
  Preserves, pure-Preserves, raise-Preserves, lift-Preserves, >>=-Preserves, perform-Preserves,
}
use urunc.Command.{
  GetError, not_exist, not_unikernel, other_failure, CommandCall, exec_runc, kill_monitor,
  delete_container, execute_hooks_named, remove_all, CommandError, cannot_load, command_failed,
  command_call, run_runc, remove_left, poststop, delete_found, is_id_char, validate_id, check_args,
  exact_args, delete_command,
}

-- It names a file of a directory, and neither the directory nor its parent.
abbrev pub IsFileName : String → Type 0
IsFileName id =
    (◌≢◌ {A = String} id "")
    × (◌≢◌ {A = String} id ".")
    × (◌≢◌ {A = String} id "..")
    × Lacks slash id

id_chars-Lacks : (id : String) → all_chars is_id_char id ≡ true → Lacks slash id
unfolding all_chars
id_chars-Lacks String.[] h = tt
id_chars-Lacks (String.◌∷◌ c s) h = (ground arith, id_chars-Lacks s (ground arith))

accepted :
    (id : String)
    → validate_id id ≡ ok tt
    → ((id == "") ≡ false)
      × (all_chars is_id_char id ≡ true)
      × (("/" <> id == clean ("/" <> id)) ≡ true)
unfolding validate_id
accepted id h = ground arith

dot_is_not_clean :
    (("/" <> "." == clean ("/" <> ".")) ≡ false) × (("/" <> ".." == clean ("/" <> "..")) ≡ false)
unfolding clean
dot_is_not_clean = (refl, refl)

true≢false : true ≢ false
true≢false h = cc

validate_id-IsFileName : (id : String) → validate_id id ≡ ok tt → IsFileName id
validate_id-IsFileName id h =
    let (named, chars, same) = accepted id h in
    (
      (λ e. ground (arith, eq_iff id "")),
      (λ e.
          true≢false
            (sym (subst (λ s. ("/" <> s == clean ("/" <> s)) ≡ true) e same) ∙ dot_is_not_clean.0)),
      (λ e.
          true≢false
            (sym (subst (λ s. ("/" <> s == clean ("/" <> s)) ≡ true) e same) ∙ dot_is_not_clean.1)),
      id_chars-Lacks id chars,
    )

clean_parts-append :
    (rooted : Bool) (ps qs kept : List String)
    → clean_parts rooted (ps ++ qs) kept ≡ clean_parts rooted qs (clean_parts rooted ps kept)
unfolding clean_parts
clean_parts-append rooted [] qs kept = refl
clean_parts-append rooted (p ∷ ps) qs kept =
    clean_parts-append rooted ps qs (clean_step rooted p kept)

clean_step-IsFileName :
    (rooted : Bool) (id : String) (kept : List String)
    → IsFileName id
    → clean_step rooted id kept ≡ id ∷ kept
unfolding clean_step
clean_step-IsFileName rooted id [] h = ground (arith, eq_iff id "", eq_iff id ".", eq_iff id "..")
clean_step-IsFileName rooted id (top ∷ rest) h =
    ground (arith, eq_iff id "", eq_iff id ".", eq_iff id "..")

join-snoc :
    (d : Char) (p : String) (ps : List String) (x : String)
    → join d ((p ∷ ps) ++ (x ∷ [])) ≡ join d (p ∷ ps) <> (String.◌∷◌ d x)
unfolding join
join-snoc d p [] x = refl
join-snoc d p (q ∷ ps) x = rw (join-snoc d q ps x, text_assoc, cons-append) refl

is_abs-append : (s t : String) → is_abs s ≡ true → is_abs (s <> t) ≡ true
unfolding is_abs
is_abs-append String.[] t h = cc
is_abs-append (String.◌∷◌ c s) t h = rw cons-append h

elements-child :
    (root id : String)
    → is_abs root ≡ true
    → IsFileName id
    → elements (root <> (String.◌∷◌ "/" id)) ≡ elements root ++ (id ∷ [])
unfolding elements
elements-child root id h name =
    rw
      (
        is_abs-append root (String.◌∷◌ "/" id) h,
        h,
        split-append_any slash "/" root id refl,
        split_of_Lacks slash id name.3,
        clean_parts-append true (split slash root) (id ∷ []) [],
      )
      (ap reverse (clean_step-IsFileName true id (clean_parts true (split slash root) []) name)
        ∙ reverse-cons id (clean_parts true (split slash root) []))

clean_of_abs : (s : String) → is_abs s ≡ true → clean s ≡ "/" <> join "/" (elements s)
unfolding clean
clean_of_abs s e = rw e refl

joined_child :
    (root id : String) (parts : List String)
    → root ≡ "/" <> join "/" parts
    → root ≢ "/"
    → "/" <> join "/" (parts ++ (id ∷ [])) ≡ root <> (String.◌∷◌ "/" id)
unfolding join
joined_child root id [] e ne = absurd (ne e)
joined_child root id (p ∷ ps) e ne =
    rw (join-snoc "/" p ps id, e) (sym (text_assoc "/" (join "/" (p ∷ ps)) (String.◌∷◌ "/" id)))

join_paths_named :
    (root id : String)
    → (root == "") ≡ false
    → (id == "") ≡ false
    → join_paths root id ≡ clean ((root <> "/") <> id)
unfolding join_paths
join_paths_named root id e f = rw (e, f) refl

slash_then : (root id : String) → (root <> "/") <> id ≡ root <> (String.◌∷◌ "/" id)
slash_then root id = rw (text_assoc, cons-append, nil-append) refl

empty_of : (root : String) → (root == "") ≡ true → root ≡ ""
empty_of root e = ground (arith, eq_iff root "")

is_abs-named : (root : String) → is_abs root ≡ true → (root == "") ≡ false
unfolding is_abs
is_abs-named root h = elim (Bool-cases (root == "")) [
  | inl e ↦ absurd (true≢false (sym h ∙ ap is_abs (empty_of root e)))
  | inr e ↦ e
]

join_paths-child :
    (root id : String)
    → is_abs root ≡ true
    → clean root ≡ root
    → root ≢ "/"
    → IsFileName id
    → join_paths root id ≡ (root <> "/") <> id
join_paths-child root id h same ne name =
    join_paths_named root id (is_abs-named root h) (ground (arith, eq_iff id ""))
    ∙ ap clean (slash_then root id)
    ∙ clean_of_abs (root <> (String.◌∷◌ "/" id)) (is_abs-append root (String.◌∷◌ "/" id) h)
    ∙ ap (λ parts. "/" <> join "/" parts) (elements-child root id h name)
    ∙ joined_child root id (elements root) (sym same ∙ clean_of_abs root h) ne
    ∙ sym (slash_then root id)

-- What is removed is a file of the root directory.
abbrev pub RemovesChild : String → CommandCall → Type 0
RemovesChild root (remove_all path) = (id : String) × IsFileName id × (path ≡ (root <> "/") <> id)
RemovesChild root _ = Unit

module _ {U : Type 0} (get : String → String → Result GetError U)
    (fails : List CommandCall → CommandCall → Bool) (runc_missing : Bool) (root : String) where
  abbrev Removes : List CommandCall → Type 0
  Removes = All (RemovesChild root)

  removal :
      (c : CommandCall)
      → RemovesChild root c
      → Preserves Removes (command_call get fails runc_missing c)
  removal c h =
      perform-Preserves Removes fails command_failed c
        (λ calls all. All-append (RemovesChild root) calls (c ∷ []) all (h, tt))

  kill_if :
      (force : Bool)
      → Preserves Removes
          (if force then command_call get fails runc_missing kill_monitor else pure tt)
  kill_if true = removal kill_monitor tt
  kill_if false = pure-Preserves Removes tt

  poststop-Removes : Preserves Removes (poststop get fails runc_missing)
  poststop-Removes = record { apply = (removal (execute_hooks_named "Poststop") tt).apply }

  remove_left-Removes :
      (force : Bool) (id : String)
      → RemovesChild root (remove_all (join_paths root id))
      → Preserves Removes (remove_left get fails runc_missing force root id)
  remove_left-Removes force id h = record {
    apply = (removal (remove_all (join_paths root id)) h).apply;
  }

  or_removed :
      (force : Bool) (id : String) (r : Result CommandError (Unit {0}) × List CommandCall)
      → RemovesChild root (remove_all (join_paths root id))
      → Removes r.1
      → (missing : Bool)
      → Removes
          (elim r.0 as (λ x. Result CommandError (Unit {0}) × List CommandCall) [
            | ok done ↦ (ok tt, r.1)
            | err e ↦
                if missing
                then remove_left get fails runc_missing force root id r.1
                else (err e, r.1)
          ]).1
  or_removed force id (ok done, calls) h i missing = i
  or_removed force id (err e, calls) h i true = (remove_left-Removes force id h).apply calls i
  or_removed force id (err e, calls) h i false = i

  run_runc-Removes :
      (force : Bool) (id : String)
      → RemovesChild root (remove_all (join_paths root id))
      → Preserves Removes (run_runc get fails runc_missing force root id)
  run_runc-Removes force id h = record {
    apply = λ calls i.
        or_removed force id (command_call get fails runc_missing exec_runc calls) h
          ((removal exec_runc tt).apply calls i) runc_missing;
  }

  delete_found-Removes :
      (force : Bool) (id : String) (found : Result GetError U)
      → RemovesChild root (remove_all (join_paths root id))
      → Preserves Removes (delete_found get fails runc_missing force root id found)
  delete_found-Removes force id (ok u) h =
      >>=-Preserves Removes (kill_if force)
        (λ a. >>=-Preserves Removes (removal (delete_container force) tt) (λ b. poststop-Removes))
  delete_found-Removes force id (err not_exist) h = record {
    apply = (removal (remove_all (join_paths root id)) h).apply;
  }
  delete_found-Removes force id (err not_unikernel) h = run_runc-Removes force id h
  delete_found-Removes force id (err other_failure) h = raise-Preserves Removes cannot_load

  validated :
      (id : String) (r : Result CommandError (Unit {0})) (calls : List CommandCall)
      → validate_id id ≡ r
      → Gives (λ a. validate_id id ≡ ok tt) (lift (λ calls. r) calls)
  validated id (err e) calls h = tt
  validated id (ok a) calls h = h

  -- If the runtime's root directory is an absolute clean path other than the root of the file
  -- system, then whatever the arguments, what `Get` answers and which calls fail, also when runc
  -- is missing, each path that the delete command itself removes is the root directory, a slash
  -- and a name that is not empty, is neither . nor .. and has no slash. What the container's own
  -- Delete removes is one call here.
  pub delete_command-RemovesChild :
      (count : ℕ) (force : Bool) (id : String)
      → is_abs root ≡ true
      → clean root ≡ root
      → root ≢ "/"
      → All (RemovesChild root) (delete_command get fails runc_missing count force root id []).1
  unfolding delete_command
  delete_command-RemovesChild count force id h same ne =
      (>>=-Preserves Removes (lift-Preserves Removes (λ calls. check_args count 1 exact_args)) (λ a.
          Yields-Preserves (λ a. validate_id id ≡ ok tt) Removes
            (record { apply = λ calls. validated id (validate_id id) calls refl })
            (lift-Preserves Removes (λ calls. validate_id id))
            (λ a valid. delete_found-Removes force id (get id root) (
              id,
              validate_id-IsFileName id valid,
              join_paths-child root id h same ne (validate_id-IsFileName id valid),
            )))).apply
        [] tt
