-- ===== src/Shim/Atomic.antt =====
-- atomicWriteFile leaves config.json as it was, or replaces it as a whole.
use urunc.Prelude.{
  ℕ, String, Bool, true, false, Option, none, some, List, [], ◌∷◌, ◌++◌, Result, ok, err, ◌≡◌,
  arith,
}
use urunc.Shim.{
  FileCall, ShimError, create_temp, write_temp, rename_temp, remove_temp, write_and_rename,
  atomic_write_file,
}

-- The contents of config.json and of the temporary file. `none` is a file that is not there or of
-- which nothing is known.
pub record Disk : Type 0 where
  pub config : Option String
  pub temp : Option String

-- What a call does to the files, when it succeeds or not: a write that fails may have written a part,
-- and rename(2) replaces a file as a whole or not at all.
abbrev pub after_call : FileCall → Bool → Disk → Disk
after_call (create_temp dir pattern) false d = record d { temp = some "" }
after_call (write_temp bytes) false d = record d { temp = some bytes }
after_call (write_temp bytes) true d = record d { temp = none }
after_call rename_temp false d = record { config = d.temp; temp = none }
after_call remove_temp false d = record d { temp = none }
after_call _ _ d = d

-- The files after the calls, of which some failed.
abbrev pub replay : (List FileCall → FileCall → Bool) → List FileCall → List FileCall → Disk → Disk
replay fails before [] d = d
replay fails before (c ∷ calls) d =
    replay fails (before ++ (c ∷ [])) calls (after_call c (fails before c) d)

module _ (fails : List FileCall → FileCall → Bool) (path bytes : String) (mode : ℕ)
    (old : Disk) where
  abbrev run : Result ShimError (Unit {0}) × List FileCall
  run = atomic_write_file fails path bytes mode []

  abbrev pub AllOrNothing : Result ShimError (Unit {0}) → Option String → Type 0
  AllOrNothing (ok done) config = config ≡ some bytes
  AllOrNothing (err e) config = config ≡ old.config

  -- Whichever calls fail, `atomicWriteFile` leaves config.json as it was when it returns an
  -- error, and with exactly the new bytes when it succeeds. A write that fails may have written a
  -- part of the temporary file, and rename replaces a file as a whole or not at all.
  pub atomic_write_file-AllOrNothing : AllOrNothing run.0 (replay fails [] run.1 old).config
  unfolding atomic_write_file write_and_rename
  atomic_write_file-AllOrNothing = ground arith
