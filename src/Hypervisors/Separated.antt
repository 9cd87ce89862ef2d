-- ===== src/Hypervisors/Separated.antt =====
-- The separator on the command line of Solo5's tenders: what the guest is told cannot be taken for an
-- option of the tender.
use text.Mathlib.TextLemmas.{cons-append, cons-ne-nil, tail-eq_of_cons-eq}
use urunc.Prelude.{
  String, Char, ◌<>◌, ◌==◌, eq_iff, false, List, [], ◌∷◌, ◌++◌, if◌then◌else◌, All, ◌≡◌, refl, ◌||◌,
  arith, Bool-cases, inl, inr, sym, ap, subst, ◌∙◌,
}
use urunc.Types.{ExecArgs, Guest, MonitorBlockArgs}
use urunc.Unikernels.Solo5.{Mirage, mirage_guest, mirage_net_cli, Rumprun, rumprun_guest}
use urunc.Hypervisors.{Vmm}
use urunc.Hypervisors.Solo5.{build_exec_cmd, block_args, net_args, solo5_args_separator}
use urunc.Hypervisors.Process.{bytes_to_string_mb}

abbrev IsOption : String → Type 0
IsOption a = (a == "--") ≡ false

-- What a tender takes for the guest: the arguments after the first separator. The first argument is
-- the tender itself.
abbrev after_separator : List String → List String
after_separator [] = []
after_separator (a ∷ more) = let rest = after_separator more in if a == "--" then more else rest

abbrev pub guest_args : List String → List String
guest_args [] = []
guest_args (tender ∷ args) = after_separator args

skips :
    (options rest : List String)
    → All IsOption options
    → after_separator (options ++ rest) ≡ after_separator rest
skips [] rest h = refl
skips (o ∷ options) rest h = ground (arith, h.0, skips options rest h.1)

longer : (c : Char) (x : String) → IsOption (String.◌∷◌ "-" (String.◌∷◌ "-" (String.◌∷◌ c x)))
longer c x = elim (Bool-cases ((String.◌∷◌ "-" (String.◌∷◌ "-" (String.◌∷◌ c x))) == "--")) [
  | inl y ↦
      let e = (eq_iff (String.◌∷◌ "-" (String.◌∷◌ "-" (String.◌∷◌ c x))) "--").0 y in
      absurd (cons-ne-nil c x (tail-eq_of_cons-eq (tail-eq_of_cons-eq e)))
  | inr n ↦ n
]

dashed :
    (c : Char) (t s : String) → IsOption ((String.◌∷◌ "-" (String.◌∷◌ "-" (String.◌∷◌ c t))) <> s)
dashed c t s =
    subst IsOption
      (sym (
        cons-append "-" (String.◌∷◌ "-" (String.◌∷◌ c t)) s
        ∙ ap (λ x. String.◌∷◌ "-" x)
            (cons-append "-" (String.◌∷◌ c t) s ∙ ap (λ x. String.◌∷◌ "-" x) (cons-append c t s))))
      (longer c (t <> s))

block_args-IsOption : (bs : List MonitorBlockArgs) → All IsOption (block_args bs)
block_args-IsOption [] = tt
block_args-IsOption (b ∷ bs) = elim (Bool-cases (b.path == "")) [
  | inl y ↦ rw y (block_args-IsOption bs)
  | inr n ↦ rw n (dashed "b" "lock:" (b.id <> ("=" <> b.path)), block_args-IsOption bs)
]

-- A guest of Solo5: its options for the network are options, and it has no others.
abbrev IsSolo5Guest : Guest → Type 0
IsSolo5Guest g =
    ((if_name mac : String) → All IsOption (g.monitor_net_cli if_name mac))
    × (g.monitor_cli.other_args ≡ [])

net_args-IsOption :
    (args : ExecArgs) (g : Guest)
    → ((if_name mac : String) → All IsOption (g.monitor_net_cli if_name mac))
    → All IsOption (net_args args g)
net_args-IsOption args g net = elim (Bool-cases (args.net.tap_dev == "")) [
  | inl y ↦ rw y tt
  | inr n ↦ rw n (net args.net.tap_dev args.net.mac)
]

separated :
    (h : Vmm) (args : ExecArgs) (g : Guest)
    → IsSolo5Guest g
    → guest_args (build_exec_cmd h args g)
      ≡ args.unikernel_path ∷ (if args.command == "" then [] else args.command ∷ [])
unfolding build_exec_cmd
separated h args g (net, none_else) =
    let tail =
      solo5_args_separator
      ∷ args.unikernel_path
      ∷ (if args.command == "" then [] else args.command ∷ []) in
    let blocks = block_args g.monitor_block_cli in
    skips (("--mem=" <> bytes_to_string_mb args.mem_size_b) ∷ [])
      (net_args args g ++ (blocks ++ (g.monitor_cli.other_args ++ tail)))
      (dashed "m" "em=" (bytes_to_string_mb args.mem_size_b), tt)
    ∙ skips (net_args args g) (blocks ++ (g.monitor_cli.other_args ++ tail))
        (net_args-IsOption args g net)
    ∙ skips blocks (g.monitor_cli.other_args ++ tail) (block_args-IsOption g.monitor_block_cli)
    ∙ ap (λ o. after_separator (o ++ tail)) none_else

mirage-IsSolo5Guest : (m : Mirage) → IsSolo5Guest (mirage_guest m)
unfolding mirage_net_cli
mirage-IsSolo5Guest m = (
  λ if_name mac. elim (Bool-cases (m.monitor == "hvt" || m.monitor == "spt")) [
    | inl y ↦ rw y (
      dashed "n" "et:" (m.net_dev_name <> ("=" <> if_name)),
      (dashed "n" "et-mac:" (m.net_dev_name <> ("=" <> mac)), tt),
    )
    | inr n ↦ rw n tt
  ],
  refl,
)

rumprun-IsSolo5Guest : (r : Rumprun) → IsSolo5Guest (rumprun_guest r)
rumprun-IsSolo5Guest r = (
  λ if_name mac. elim (Bool-cases (r.monitor == "hvt" || r.monitor == "spt")) [
    | inl y ↦ rw y (dashed "n" "et:tap=" if_name, (dashed "n" "et-mac:tap=" mac, tt))
    | inr n ↦ rw n tt
  ],
  refl,
)

-- For every tender of Solo5, all arguments and every Mirage and Rumprun guest: on the command
-- line that BuildExecCmd builds, after the first argument that is the separator, which ends the
-- tender's options, stand the path of the kernel and the guest's command, if it is not empty, and
-- nothing else.
pub build_exec_cmd-guest_args :
    (h : Vmm) (args : ExecArgs) (m : Mirage) (r : Rumprun)
    → (guest_args (build_exec_cmd h args (mirage_guest m))
        ≡ args.unikernel_path ∷ (if args.command == "" then [] else args.command ∷ []))
      × (guest_args (build_exec_cmd h args (rumprun_guest r))
          ≡ args.unikernel_path ∷ (if args.command == "" then [] else args.command ∷ []))
build_exec_cmd-guest_args h args m r = (
  separated h args (mirage_guest m) (mirage-IsSolo5Guest m),
  separated h args (rumprun_guest r) (rumprun-IsSolo5Guest r),
)
