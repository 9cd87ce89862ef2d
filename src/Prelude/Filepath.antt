-- ===== src/Prelude/Filepath.antt =====
-- path/filepath on Unix: Clean, IsAbs, Join of two elements and Base.
use mathlib.Core.List.{reverse}
use Prim.Native.Nat.{ℕ}
use Prim.Native.Char.{code}
use Prim.Native.String.{String, ◌++◌ as ◌<>◌}
use mathlib.Core.Path.{◌≡◌, refl}
use mathlib.Core.Bool.{Bool, false, ◌||◌}
use mathlib.Core.List.{List, [], ◌∷◌}
use mathlib.Core.Option.{Option, none, some}
use text.Mathlib.Text.{◌==◌}
use urunc.Prelude.Tests.{eqb, if◌then◌else◌}
use urunc.Prelude.Text.{split, join}

abbrev pub slash : ℕ
slash = b'/'

-- `filepath.IsAbs`
unfoldable pub is_abs : String → Bool
is_abs String.[] = false
is_abs (String.◌∷◌ c s) = eqb (code c) slash

-- One element of the path onto the elements kept so far, the last one first: an empty element and "."
-- are dropped, and ".." takes the element before it away. At the root of an absolute path ".." is
-- dropped, and in front of a relative one it stays.
unfoldable pub clean_step : Bool → String → List String → List String
clean_step rooted part [] =
    if part == "" || part == "."
    then []
    else if part == ".."
    then (if rooted then [] else ".." ∷ [])
    else part ∷ []
clean_step rooted part (top ∷ rest) =
    if part == "" || part == "."
    then top ∷ rest
    else if part == ".."
    then if top == ".." then ".." ∷ top ∷ rest else rest
    else part ∷ top ∷ rest

unfoldable pub clean_parts : Bool → List String → List String → List String
unfolding clean_step
clean_parts rooted [] kept = kept
clean_parts rooted (part ∷ parts) kept = clean_parts rooted parts (clean_step rooted part kept)

-- The elements of the cleaned path, in their order.
unfoldable pub elements : String → List String
unfolding clean_parts reverse split is_abs
elements path = reverse (clean_parts (is_abs path) (split slash path) [])

-- `filepath.Clean`
unfoldable pub clean : String → String
unfolding elements join is_abs
clean path =
    if is_abs path
    then "/" <> join "/" (elements path)
    else let out = join "/" (elements path) in if out == "" then "." else out

-- `filepath.Join(a, b)`: empty elements are left out.
unfoldable pub join_paths : String → String → String
unfolding clean
join_paths a b =
    if a == ""
    then if b == "" then "" else clean b
    else if b == ""
    then clean a
    else clean ((a <> "/") <> b)

-- The part of the path up to its last slash.
abbrev up_to_slash : List String → String
up_to_slash [] = ""
up_to_slash (last ∷ []) = ""
up_to_slash (part ∷ next ∷ rest) = (part <> "/") <> up_to_slash (next ∷ rest)

-- `filepath.Dir`, and path.Dir
abbrev pub dir_path : String → String
dir_path path = clean (up_to_slash (split slash path))

-- The last element that is not empty.
abbrev last_element : List String → Option String
last_element [] = none
last_element (p ∷ ps) = elim (last_element ps) [
  | some q ↦ some q
  | none ↦ if p == "" then none else some p
]

-- `filepath.Base`
unfoldable pub base : String → String
unfolding split
base path =
    if path == "" then "." else elim (last_element (split slash path)) [ none ↦ "/" | some p ↦ p ]

base_tests :
    (base "/usr/bin/qemu" ≡ "qemu") × (base "a/b//" ≡ "b") × (base "//" ≡ "/") × (base "" ≡ ".")
unfolding base
base_tests = (refl, refl, refl, refl)

clean_tests :
    (clean "" ≡ ".")
    × (clean "a//b/./c/.." ≡ "a/b")
    × (clean "/../a" ≡ "/a")
    × (clean "../../x" ≡ "../../x")
    × (clean "/" ≡ "/")
    × (clean "a/.." ≡ ".")
    × (join_paths "/bundle/" "rootfs" ≡ "/bundle/rootfs")
    × (join_paths "/b" "../x" ≡ "/x")
unfolding join_paths
clean_tests = (refl, refl, refl, refl, refl, refl, refl, refl)
