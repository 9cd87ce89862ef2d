-- ===== src/Unikernels/Urunit.antt =====
-- What the configurations for urunit have in common: the writes to a strings.Builder, their sections,
-- and the lines that they make.
use text.Mathlib.TextLemmas.{append_assoc, cons-append, nil-append}
use urunc.Prelude.{
  ℕ, String, Char, ◌<>◌, ◌==◌, List, [], ◌∷◌, ◌++◌, if◌then◌else◌, All, append_assoc as list_assoc,
  ◌≡◌, refl, sym, ap, ◌∙◌, Bool-cases, inl, inr,
}
use urunc.Prelude.Text.{split, join, Lacks, split-append}
use urunc.Prelude.Strconv.{format_uint}
use urunc.Types.{ProcessConfig, BlockDevParams}

abbrev pub newline : Char
newline = "\n"

-- `sb.String()` after the writes.
unfoldable pub written : List String → String
written [] = ""
written (s ∷ ss) = s <> written ss

-- `len(env) > 0`
abbrev env_writes : List String → List String
env_writes [] = []
env_writes (e ∷ es) = join newline (e ∷ es) ∷ "\n" ∷ []

-- The environment, between its markers.
unfoldable pub env_section : List String → List String
env_section env = ("UES" ∷ "\n" ∷ []) ++ (env_writes env ++ ("UEE" ∷ "\n" ∷ []))

-- The user, the group and the directory of the process.
unfoldable pub process_section : ProcessConfig → List String
process_section p =
    "UID:"
    ∷ format_uint p.uid
    ∷ "\n"
    ∷ "GID:"
    ∷ format_uint p.gid
    ∷ "\n"
    ∷ "WD:"
    ∷ p.work_dir
    ∷ "\n"
    ∷ []

-- One turn of the loop over the block devices, and the loop.
abbrev block_writes : String → BlockDevParams → List String
block_writes monitor b =
    if b.id == "rootfs"
    then []
    else ("ID:" ∷ (if monitor == "firecracker" then "FC" ∷ [] else []))
      ++ (b.id ∷ "\n" ∷ "MP:" ∷ b.mount_point ∷ "\n" ∷ [])

abbrev blocks_writes : String → List BlockDevParams → List String
blocks_writes monitor [] = []
blocks_writes monitor (b ∷ bs) = block_writes monitor b ++ blocks_writes monitor bs

unfoldable pub block_section : String → List BlockDevParams → List String
block_section monitor bs = ("UBS" ∷ "\n" ∷ []) ++ (blocks_writes monitor bs ++ ("UBE" ∷ "\n" ∷ []))

-- Lines, each with its end, in front of a text.
abbrev pub lines_then : List String → String → String
lines_then [] t = t
lines_then (l ∷ ls) t = l <> (String.◌∷◌ newline (lines_then ls t))

-- The writes make the lines.
abbrev pub Renders : List String → List String → Type 0
Renders writes lines = (t : List String) → written (writes ++ t) ≡ lines_then lines (written t)

newline-append : (s : String) → "\n" <> s ≡ String.◌∷◌ newline s
newline-append s = cons-append newline "" s ∙ ap (λ x. String.◌∷◌ newline x) (nil-append s)

lines_then-append :
    (ls ms : List String) (t : String) → lines_then (ls ++ ms) t ≡ lines_then ls (lines_then ms t)
lines_then-append [] ms t = refl
lines_then-append (l ∷ ls) ms t = ap (λ s. l <> (String.◌∷◌ newline s)) (lines_then-append ls ms t)

pub Renders-append :
    (ws vs ls ms : List String) → Renders ws ls → Renders vs ms → Renders (ws ++ vs) (ls ++ ms)
Renders-append ws vs ls ms f g t =
    ap written (list_assoc ws vs t)
    ∙ f (vs ++ t)
    ∙ ap (lines_then ls) (g t)
    ∙ sym (lines_then-append ls ms (written t))

pub Renders-nil : Renders [] []
Renders-nil t = refl

pub Renders-line : (l : String) → Renders (l ∷ "\n" ∷ []) (l ∷ [])
unfolding written
Renders-line l t = ap (λ s. l <> s) (newline-append (written t))

pub Renders-field : (k v : String) → Renders (k ∷ v ∷ "\n" ∷ []) ((k <> v) ∷ [])
unfolding written
Renders-field k v t =
    sym (append_assoc k v _) ∙ ap (λ s. (k <> v) <> s) (newline-append (written t))

env_writes-Renders : (env : List String) → Renders (env_writes env) env
unfolding join written
env_writes-Renders [] t = refl
env_writes-Renders (e ∷ []) t = ap (λ s. e <> s) (newline-append (written t))
env_writes-Renders (e ∷ f ∷ es) t =
    append_assoc e (String.◌∷◌ newline (join newline (f ∷ es))) _
    ∙ ap (λ s. e <> s)
        (cons-append newline (join newline (f ∷ es)) _
          ∙ ap (λ s. String.◌∷◌ newline s) (env_writes-Renders (f ∷ es) t))

abbrev pub env_lines : List String → List String
env_lines env = ("UES" ∷ []) ++ (env ++ ("UEE" ∷ []))

pub env_section-Renders : (env : List String) → Renders (env_section env) (env_lines env)
unfolding env_section
env_section-Renders env =
    Renders-append ("UES" ∷ "\n" ∷ []) (env_writes env ++ ("UEE" ∷ "\n" ∷ [])) ("UES" ∷ [])
      (env ++ ("UEE" ∷ [])) (Renders-line "UES")
      (Renders-append (env_writes env) ("UEE" ∷ "\n" ∷ []) env ("UEE" ∷ []) (env_writes-Renders env)
        (Renders-line "UEE"))

abbrev pub process_lines : ProcessConfig → List String
process_lines p =
    ("UID:" <> format_uint p.uid) ∷ ("GID:" <> format_uint p.gid) ∷ ("WD:" <> p.work_dir) ∷ []

pub process_section-Renders : (p : ProcessConfig) → Renders (process_section p) (process_lines p)
unfolding process_section
process_section-Renders p =
    Renders-append ("UID:" ∷ format_uint p.uid ∷ "\n" ∷ [])
      (("GID:" ∷ format_uint p.gid ∷ "\n" ∷ []) ++ ("WD:" ∷ p.work_dir ∷ "\n" ∷ []))
      (("UID:" <> format_uint p.uid) ∷ [])
      ((("GID:" <> format_uint p.gid) ∷ []) ++ (("WD:" <> p.work_dir) ∷ []))
      (Renders-field "UID:" (format_uint p.uid))
      (Renders-append ("GID:" ∷ format_uint p.gid ∷ "\n" ∷ []) ("WD:" ∷ p.work_dir ∷ "\n" ∷ [])
        (("GID:" <> format_uint p.gid) ∷ []) (("WD:" <> p.work_dir) ∷ [])
        (Renders-field "GID:" (format_uint p.gid)) (Renders-field "WD:" p.work_dir))

abbrev block_lines : String → BlockDevParams → List String
block_lines monitor b =
    if b.id == "rootfs"
    then []
    else ("ID:" <> ((if monitor == "firecracker" then "FC" else "") <> b.id))
      ∷ ("MP:" <> b.mount_point)
      ∷ []

abbrev pub blocks_lines : String → List BlockDevParams → List String
blocks_lines monitor [] = []
blocks_lines monitor (b ∷ bs) = block_lines monitor b ++ blocks_lines monitor bs

three_writes : (k f v : String) → Renders (k ∷ f ∷ v ∷ "\n" ∷ []) ((k <> (f <> v)) ∷ [])
unfolding written
three_writes k f v t =
    ap (λ s. k <> s) (sym (append_assoc f v ("\n" <> written t)))
    ∙ sym (append_assoc k (f <> v) ("\n" <> written t))
    ∙ ap (λ s. (k <> (f <> v)) <> s) (newline-append (written t))

block_writes-Renders :
    (monitor : String) (b : BlockDevParams)
    → Renders (block_writes monitor b) (block_lines monitor b)
block_writes-Renders monitor b = elim (Bool-cases (b.id == "rootfs")) [
  | inl y ↦ rw y (λ t. refl)
  | inr n ↦ rw n (elim (Bool-cases (monitor == "firecracker")) [
    | inl y ↦ rw y (
        Renders-append ("ID:" ∷ "FC" ∷ b.id ∷ "\n" ∷ []) ("MP:" ∷ b.mount_point ∷ "\n" ∷ [])
          (("ID:" <> ("FC" <> b.id)) ∷ []) (("MP:" <> b.mount_point) ∷ [])
          (three_writes "ID:" "FC" b.id) (Renders-field "MP:" b.mount_point))
    | inr n ↦ rw n (
        rw (nil-append b.id) (
          Renders-append ("ID:" ∷ b.id ∷ "\n" ∷ []) ("MP:" ∷ b.mount_point ∷ "\n" ∷ [])
            (("ID:" <> b.id) ∷ []) (("MP:" <> b.mount_point) ∷ []) (Renders-field "ID:" b.id)
            (Renders-field "MP:" b.mount_point)))
  ])
]

blocks_writes-Renders :
    (monitor : String) (bs : List BlockDevParams)
    → Renders (blocks_writes monitor bs) (blocks_lines monitor bs)
blocks_writes-Renders monitor [] = Renders-nil
blocks_writes-Renders monitor (b ∷ bs) =
    Renders-append (block_writes monitor b) (blocks_writes monitor bs) (block_lines monitor b)
      (blocks_lines monitor bs) (block_writes-Renders monitor b) (blocks_writes-Renders monitor bs)

abbrev pub block_section_lines : String → List BlockDevParams → List String
block_section_lines monitor bs = ("UBS" ∷ []) ++ (blocks_lines monitor bs ++ ("UBE" ∷ []))

pub block_section-Renders :
    (monitor : String) (bs : List BlockDevParams)
    → Renders (block_section monitor bs) (block_section_lines monitor bs)
unfolding block_section
block_section-Renders monitor bs =
    Renders-append ("UBS" ∷ "\n" ∷ []) (blocks_writes monitor bs ++ ("UBE" ∷ "\n" ∷ []))
      ("UBS" ∷ []) (blocks_lines monitor bs ++ ("UBE" ∷ [])) (Renders-line "UBS")
      (Renders-append (blocks_writes monitor bs) ("UBE" ∷ "\n" ∷ []) (blocks_lines monitor bs)
        ("UBE" ∷ []) (blocks_writes-Renders monitor bs) (Renders-line "UBE"))

abbrev pub line_end : ℕ
line_end = 10

-- Splitting gives back lines that have no line end in them.
pub split-lines :
    (ls : List String)
    → All (Lacks line_end) ls
    → split line_end (lines_then ls "") ≡ ls ++ ("" ∷ [])
unfolding split
split-lines [] h = refl
split-lines (l ∷ ls) h =
    split-append line_end newline l (lines_then ls "") refl h.0
    ∙ ap (λ x. l ∷ x) (split-lines ls h.1)
