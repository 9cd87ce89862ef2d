-- ===== src/Unikernels/Linux/Config.antt =====
-- pkg/unikontainers/unikernels/linux.go: buildUrunitConfig, and what urunit reads of it.
use urunc.Prelude.{
  String, ◌<>◌, List, [], ◌∷◌, ◌++◌, All, All-append, ◌≡◌, refl, ap, ◌∙◌, arith, append-nil, false,
  sym, Bool-cases, inl, inr, ◌==◌,
}
use urunc.Prelude.Text.{split, Lacks, Lacks-append}
use urunc.Prelude.Fields.{contains_char, Lacks-contains_char}
use urunc.Prelude.Strconv.{format_uint-Lacks}
use urunc.Types.{BlockDevParams}
use urunc.Unikernels.Urunit.{
  written, env_section, process_section, block_section, Renders, Renders-append, Renders-line,
  env_lines, env_section-Renders, process_lines, process_section-Renders, blocks_lines,
  block_section-Renders, line_end, split-lines, lines_then, block_section_lines,
}
use urunc.Unikernels.Linux.{Linux}

-- `buildUrunitConfig`
unfoldable pub build_urunit_config : Linux → String
build_urunit_config l = written (
    env_section l.env
    ++ (("UCS" ∷ "\n" ∷ [])
        ++ (process_section l.proc_config
            ++ (("UCE" ∷ "\n" ∷ []) ++ block_section l.monitor l.blk))))

abbrev inner_lines : Linux → List String
inner_lines l = process_lines l.proc_config ++ (("UCE" ∷ []) ++ block_section_lines l.monitor l.blk)

-- The lines for the environment, the process and the block devices.
abbrev pub config_lines : Linux → List String
config_lines l = env_lines l.env ++ (("UCS" ∷ []) ++ inner_lines l)

inner_writes : Linux → List String
inner_writes l =
    process_section l.proc_config ++ (("UCE" ∷ "\n" ∷ []) ++ block_section l.monitor l.blk)

inner-Renders : (l : Linux) → Renders (inner_writes l) (inner_lines l)
unfolding inner_writes
inner-Renders l =
    Renders-append (process_section l.proc_config)
      (("UCE" ∷ "\n" ∷ []) ++ block_section l.monitor l.blk) (process_lines l.proc_config)
      (("UCE" ∷ []) ++ block_section_lines l.monitor l.blk) (process_section-Renders l.proc_config)
      (Renders-append ("UCE" ∷ "\n" ∷ []) (block_section l.monitor l.blk) ("UCE" ∷ [])
        (block_section_lines l.monitor l.blk) (Renders-line "UCE")
        (block_section-Renders l.monitor l.blk))

build-lines : (l : Linux) → build_urunit_config l ≡ lines_then (config_lines l) ""
unfolding build_urunit_config inner_writes written
build-lines l =
    ap written (sym (append-nil (env_section l.env ++ (("UCS" ∷ "\n" ∷ []) ++ inner_writes l))))
    ∙ Renders-append (env_section l.env) (("UCS" ∷ "\n" ∷ []) ++ inner_writes l) (env_lines l.env)
        (("UCS" ∷ []) ++ inner_lines l) (env_section-Renders l.env)
        (Renders-append ("UCS" ∷ "\n" ∷ []) (inner_writes l) ("UCS" ∷ []) (inner_lines l)
          (Renders-line "UCS") (inner-Renders l))
        []

abbrev pub OneLine : String → Type 0
OneLine s = Lacks line_end s

plain : (s : String) → contains_char line_end s ≡ false → OneLine s
plain s h = Lacks-contains_char line_end s h

follows : (k v : String) → contains_char line_end k ≡ false → OneLine v → OneLine (k <> v)
follows k v h o = Lacks-append line_end k v (plain k h) o

block_lines-OneLine :
    (monitor : String) (bs : List BlockDevParams)
    → All (λ b. OneLine b.id × OneLine b.mount_point) bs
    → All OneLine (blocks_lines monitor bs)
block_lines-OneLine monitor [] h = tt
block_lines-OneLine monitor (b ∷ bs) h = elim (Bool-cases (b.id == "rootfs")) [
  | inl y ↦ rw y (block_lines-OneLine monitor bs h.1)
  | inr n ↦ rw n (
    follows "ID:" _ refl (elim (Bool-cases (monitor == "firecracker")) [
      | inl y ↦ rw y (follows "FC" b.id refl h.0.0)
      | inr m ↦ rw m (follows "" b.id refl h.0.0)
    ]),
    (follows "MP:" b.mount_point refl h.0.1, block_lines-OneLine monitor bs h.1),
  )
]

config_lines-OneLine :
    (l : Linux)
    → All OneLine l.env
    → OneLine l.proc_config.work_dir
    → All (λ b. OneLine b.id × OneLine b.mount_point) l.blk
    → All OneLine (config_lines l)
config_lines-OneLine l env dir blk = (
  plain "UES" refl,
  All-append OneLine (l.env ++ ("UEE" ∷ [])) (("UCS" ∷ []) ++ inner_lines l)
      (All-append OneLine l.env ("UEE" ∷ []) env (plain "UEE" refl, tt))
      (
        plain "UCS" refl,
        (
          follows "UID:" _ refl (format_uint-Lacks line_end l.proc_config.uid (omega arith)),
          (
            follows "GID:" _ refl (format_uint-Lacks line_end l.proc_config.gid (omega arith)),
            (
              follows "WD:" _ refl dir,
              (
                plain "UCE" refl,
                (
                  plain "UBS" refl,
                  All-append OneLine (blocks_lines l.monitor l.blk) ("UBE" ∷ [])
                      (block_lines-OneLine l.monitor l.blk blk) (plain "UBE" refl, tt),
                ),
              ),
            ),
          ),
        ),
      ),
)

-- For a Linux guest whose environment, working directory, and block devices' ids and mount points
-- have no line end: splitting the text of buildUrunitConfig at line ends gives exactly the marked
-- environment, the uid, gid and directory of the process, and the id (with FC in front for
-- firecracker) and mount point of each block device but the rootfs, in order, and a last empty
-- line.
pub build_urunit_config-lines :
    (l : Linux)
    → All OneLine l.env
    → OneLine l.proc_config.work_dir
    → All (λ b. OneLine b.id × OneLine b.mount_point) l.blk
    → split line_end (build_urunit_config l) ≡ config_lines l ++ ("" ∷ [])
build_urunit_config-lines l env dir blk =
    ap (split line_end) (build-lines l)
    ∙ split-lines (config_lines l) (config_lines-OneLine l env dir blk)
