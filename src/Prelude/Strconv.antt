-- ===== src/Prelude/Strconv.antt =====
-- strconv: FormatBool, ParseBool, FormatUint in base 10 and Atoi on a machine of 64 bits.
use Prim.Native.Nat.{ℕ, zero, suc, ◌+◌, ◌-◌, ◌*◌, ◌/◌, ◌%◌, ◌^◌, ◌≤◌, ◌<◌}
use Prim.Native.Char.{Char, code}
use Prim.Native.String.{String}
use mathlib.Core.Path.{◌≡◌, refl, ap, ◌∙◌}
use mathlib.Core.Bool.{Bool, true, false, ◌&&◌, ◌||◌}
use mathlib.Core.Option.{Option, none, some}
use native.Mathlib.Omega.{arith}
use text.Mathlib.Text.{◌==◌}
use mathlib.Core.Logic.{inl, inr}
use urunc.Prelude.Text.{Lacks}
use urunc.Prelude.Tests.{ltb, leb, eqb, if◌then◌else◌, Bool-cases, ltb→lt}

-- `strconv.FormatBool`
abbrev pub format_bool : Bool → String
format_bool true = "true"
format_bool false = "false"

-- `strconv.ParseBool`
unfoldable pub parse_bool : String → Option Bool
parse_bool s =
    if s == "1" || s == "t" || s == "T" || s == "true" || s == "TRUE" || s == "True"
    then some true
    else if s == "0" || s == "f" || s == "F" || s == "false" || s == "FALSE" || s == "False"
    then some false
    else none

pub parse_bool-format_bool : (b : Bool) → parse_bool (format_bool b) ≡ some b
unfolding parse_bool
parse_bool-format_bool true = refl
parse_bool-format_bool false = refl

-- The digit of a number below 10.
abbrev pub digit_char : ℕ → Char
digit_char zero = "0"
digit_char (suc zero) = "1"
digit_char (suc (suc zero)) = "2"
digit_char (suc (suc (suc zero))) = "3"
digit_char (suc (suc (suc (suc zero)))) = "4"
digit_char (suc (suc (suc (suc (suc zero))))) = "5"
digit_char (suc (suc (suc (suc (suc (suc zero)))))) = "6"
digit_char (suc (suc (suc (suc (suc (suc (suc zero))))))) = "7"
digit_char (suc (suc (suc (suc (suc (suc (suc (suc zero)))))))) = "8"
digit_char _ = "9"

-- The digits of `n` in front of `out`, the last one first. The fuel is at least the number of digits.
unfoldable pub emit : ℕ → ℕ → String → String
emit zero n out = out
emit (suc f) n out =
    let rest = emit f (n / 10) (String.◌∷◌ (digit_char (n % 10)) out) in
    if ltb n 10 then String.◌∷◌ (digit_char n) out else rest

-- `strconv.FormatUint(n, 10)`. Each round divides `n` by ten, so `n + 1` rounds are enough.
unfoldable pub format_uint : ℕ → String
unfolding emit
format_uint n = emit (suc n) n ""

-- The digits are read from the left; a byte that is no digit is an error.
unfoldable pub scan : ℕ → String → Option ℕ
scan n String.[] = some n
scan n (String.◌∷◌ c s) =
    let d = code c in
    let rest = scan (n * 10 + (d - 48)) s in if leb 48 d && leb d 57 then rest else none

-- A signed result: `negsuc n` is -(n + 1).
pub data ℤ : Type 0 where
  pos : ℕ → ℤ
  negsuc : ℕ → ℤ

abbrev pub neg : ℕ → ℤ
neg zero = pos 0
neg (suc n) = negsuc n

-- At least one digit, and a value within the range of int64.
abbrev pub bounded : ℕ → Option ℕ → Option ℕ
bounded limit none = none
bounded limit (some n) = if leb n limit then some n else none

abbrev pub map_opt {ℓ κ} : {A : Type ℓ} {B : Type κ} → (A → B) → Option A → Option B
map_opt f none = none
map_opt f (some a) = some (f a)

unfoldable pub digits_of : ℕ → String → Option ℕ
unfolding scan
digits_of limit String.[] = none
digits_of limit (String.◌∷◌ c s) = bounded limit (scan 0 (String.◌∷◌ c s))

-- `strconv.Atoi`: an optional sign and decimal digits. `none` is an error.
unfoldable pub atoi : String → Option ℤ
unfolding digits_of
atoi String.[] = none
atoi (String.◌∷◌ c s) =
    if eqb (code c) b'-'
    then map_opt neg (digits_of (2 ^ 63) s)
    else if eqb (code c) b'+'
    then map_opt pos (digits_of (2 ^ 63 - 1) s)
    else map_opt pos (digits_of (2 ^ 63 - 1) (String.◌∷◌ c s))

atoi_tests :
    (atoi "42" ≡ some (pos 42))
    × (atoi "-7" ≡ some (negsuc 6))
    × (atoi "+7" ≡ some (pos 7))
    × (atoi "" ≡ none)
    × (atoi "-" ≡ none)
    × (atoi "4x" ≡ none)
    × (atoi "9223372036854775808" ≡ none)
unfolding atoi
atoi_tests = (refl, refl, refl, refl, refl, refl, refl)

code-digit_char : (d : ℕ) → d < 10 → code (digit_char d) ≡ 48 + d
code-digit_char zero h = refl
code-digit_char (suc zero) h = refl
code-digit_char (suc (suc zero)) h = refl
code-digit_char (suc (suc (suc zero))) h = refl
code-digit_char (suc (suc (suc (suc zero)))) h = refl
code-digit_char (suc (suc (suc (suc (suc zero))))) h = refl
code-digit_char (suc (suc (suc (suc (suc (suc zero)))))) h = refl
code-digit_char (suc (suc (suc (suc (suc (suc (suc zero))))))) h = refl
code-digit_char (suc (suc (suc (suc (suc (suc (suc (suc zero)))))))) h = refl
code-digit_char (suc (suc (suc (suc (suc (suc (suc (suc (suc zero))))))))) h = refl
code-digit_char (suc (suc (suc (suc (suc (suc (suc (suc (suc (suc d)))))))))) h =
    absurd (omega arith)

scan_digit :
    (a d : ℕ) (s : String) → d < 10 → scan a (String.◌∷◌ (digit_char d) s) ≡ scan (a * 10 + d) s
unfolding scan
scan_digit a d s h = ground (arith, code-digit_char d h)

scan-emit : (f n : ℕ) (out : String) → n < f → scan 0 (emit f n out) ≡ scan n out
unfolding emit
scan-emit zero n out h = elim h [ ]
scan-emit (suc f) n out h = elim (Bool-cases (ltb n 10)) [
  | inl small ↦
      rw small (scan_digit 0 n out (ltb→lt n 10 small) ∙ ap (λ (k : ℕ). scan k out) (omega arith))
  | inr more ↦ rw more (
      scan-emit f (n / 10) (String.◌∷◌ (digit_char (n % 10)) out) (ground arith)
      ∙ scan_digit (n / 10) (n % 10) out (omega arith)
      ∙ ap (λ k. scan k out) (omega arith))
]

-- The text begins with a digit.
abbrev StartsDigit : String → Type 0
StartsDigit String.[] = ⊥
StartsDigit (String.◌∷◌ c s) = (48 ≤ code c) × (code c ≤ 57)

digit_char-StartsDigit : (d : ℕ) (s : String) → d < 10 → StartsDigit (String.◌∷◌ (digit_char d) s)
digit_char-StartsDigit d s h = omega (arith, code-digit_char d h)

emit-StartsDigit : (f n : ℕ) (out : String) → StartsDigit out → StartsDigit (emit f n out)
unfolding emit
emit-StartsDigit zero n out h = h
emit-StartsDigit (suc f) n out h = elim (Bool-cases (ltb n 10)) [
  | inl small ↦ rw small (digit_char-StartsDigit n out (ltb→lt n 10 small))
  | inr more ↦ rw more (
      emit-StartsDigit f (n / 10) (String.◌∷◌ (digit_char (n % 10)) out)
        (digit_char-StartsDigit (n % 10) out (omega arith)))
]

format_uint-StartsDigit : (n : ℕ) → StartsDigit (format_uint n)
unfolding format_uint
format_uint-StartsDigit n = elim (Bool-cases (ltb n 10)) [
  | inl small ↦ rw small (digit_char-StartsDigit n "" (ltb→lt n 10 small))
  | inr more ↦ rw more (
      emit-StartsDigit n (n / 10) (String.◌∷◌ (digit_char (n % 10)) "")
        (digit_char-StartsDigit (n % 10) "" (omega arith)))
]

atoi_of_StartsDigit :
    (s : String) → StartsDigit s → atoi s ≡ map_opt pos (bounded (2 ^ 63 - 1) (scan 0 s))
unfolding atoi
atoi_of_StartsDigit String.[] h = absurd h
atoi_of_StartsDigit (String.◌∷◌ c s) h = ground arith

-- Atoi reads back what FormatUint writes, within the range of int64.
pub atoi-format_uint : (n : ℕ) → n < 2 ^ 63 → atoi (format_uint n) ≡ some (pos n)
unfolding format_uint scan
atoi-format_uint n h =
    atoi_of_StartsDigit (format_uint n) (format_uint-StartsDigit n)
    ∙ rw (scan-emit (suc n) n "" (omega arith)) (ground arith)

emit-Lacks : (sep f n : ℕ) (out : String) → sep < 48 → Lacks sep out → Lacks sep (emit f n out)
unfolding emit
emit-Lacks sep zero n out h k = k
emit-Lacks sep (suc f) n out h k = elim (Bool-cases (ltb n 10)) [
  | inl small ↦ rw small (λ e. omega (arith, code-digit_char n (ltb→lt n 10 small)), k)
  | inr more ↦ rw more (
      emit-Lacks sep f (n / 10) (String.◌∷◌ (digit_char (n % 10)) out) h
        (λ e. omega (arith, code-digit_char (n % 10) (omega arith)), k))
]

-- The digits of a number have no character below "0".
pub format_uint-Lacks : (sep n : ℕ) → sep < 48 → Lacks sep (format_uint n)
unfolding format_uint
format_uint-Lacks sep n h = emit-Lacks sep (suc n) n "" h tt
