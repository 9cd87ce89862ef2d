-- ===== src/Prelude/Fields.antt =====
-- strings.Fields, strings.Join and strings.TrimSpace.
use Prim.Native.Nat.{ℕ}
use Prim.Native.Char.{code}
use Prim.Native.String.{String}
use mathlib.Core.Path.{◌≡◌, refl}
use mathlib.Core.Bool.{Bool, true, false, ◌||◌, ◌&&◌}
use mathlib.Core.List.{List, [], ◌∷◌}
use text.Mathlib.Text.{◌==◌, starts_with}
use urunc.Prelude.Tests.{eqb, leb, if◌then◌else◌}
use urunc.Prelude.Text.{push, Lacks}
use native.Mathlib.Omega.{arith}

-- `unicode.IsSpace`
abbrev pub is_space : ℕ → Bool
is_space c =
    (leb 9 c && leb c 13)
    || eqb c 32
    || eqb c 0x85
    || eqb c 0xA0
    || eqb c 0x1680
    || (leb 0x2000 c && leb c 0x200a)
    || eqb c 0x2028
    || eqb c 0x2029
    || eqb c 0x202f
    || eqb c 0x205f
    || eqb c 0x3000

-- The fields of a text, and whether it begins with a space or is empty.
abbrev fields_from : String → List String × Bool
fields_from String.[] = ([], true)
fields_from (String.◌∷◌ c s) =
    let rest = fields_from s in
    if is_space (code c)
    then (rest.0, true)
    else if rest.1
    then (String.◌∷◌ c String.[] ∷ rest.0, false)
    else (push c rest.0, false)

-- `strings.Fields`
unfoldable pub fields : String → List String
fields s = (fields_from s).0

fields_tests :
    (fields "  --cache always\t-o  x " ≡ "--cache" ∷ "always" ∷ "-o" ∷ "x" ∷ [])
    × (fields " " ≡ [])
    × (fields "ab" ≡ "ab" ∷ [])
unfolding fields
fields_tests = (refl, refl, refl)

-- The character occurs in the text.
abbrev pub contains_char : ℕ → String → Bool
contains_char c String.[] = false
contains_char c (String.◌∷◌ d s) = eqb (code d) c || contains_char c s

pub Lacks-contains_char : (c : ℕ) (s : String) → contains_char c s ≡ false → Lacks c s
Lacks-contains_char c String.[] h = tt
Lacks-contains_char c (String.◌∷◌ d s) h = (ground arith, Lacks-contains_char c s (ground arith))

abbrev trim_right : String → String
trim_right String.[] = String.[]
trim_right (String.◌∷◌ c s) =
    let rest = trim_right s in if is_space (code c) && rest == "" then "" else String.◌∷◌ c rest

abbrev trim_left : String → String
trim_left String.[] = String.[]
trim_left (String.◌∷◌ c s) =
    let rest = trim_left s in if is_space (code c) then rest else String.◌∷◌ c s

-- `strings.TrimSpace`
unfoldable pub trim_space : String → String
trim_space s = trim_right (trim_left s)

trim_tests : (trim_space "  a b\t\n" ≡ "a b") × (trim_space " \n" ≡ "")
unfolding trim_space
trim_tests = (refl, refl)

-- `strings.Contains`
unfoldable pub contains_text : String → String → Bool
contains_text String.[] sub = sub == ""
contains_text (String.◌∷◌ c s) sub = starts_with (String.◌∷◌ c s) sub || contains_text s sub
