-- ===== src/Network/Taps.antt =====
-- The taps that NetworkSetup adds are those that CleanupAllUruncTaps takes down.
use urunc.Prelude.{String, true, Option, none, some, List, [], ◌∷◌, if◌then◌else◌, ◌≡◌, ◌⊎◌, All}
use urunc.Prelude.Traced.{◌>>◌}
use urunc.Prelude.Traced.Invariants.{Preserves, >>=-Preserves}
use urunc.Network.{Call, Link, Kernel, Net, link_add}
use urunc.Network.Teardown.{is_urunc_tap}

-- A link that is added is a tap of urunc.
abbrev pub AddsTap : Call → Type 0
AddsTap (link_add name mtu) = is_urunc_tap name ≡ true
AddsTap _ = Unit

abbrev AllTaps : List Call → Type 0
AllTaps = All AddsTap

module _ (kernel : Kernel) where
  abbrev Adds : {A : Type 0} → Net A → Type 0
  Adds = Preserves AllTaps

  infixr 5 ◌then◌
  abbrev ◌then◌ : {A : Type 0} {m : Net (Unit {0})} {k : Net A} → Adds m → Adds k → Adds (m >> k)
  h then k = >>=-Preserves AllTaps h (λ done. k)

-- A link of that name is listed.
abbrev pub Lists : String → List (Option Link) → Type 0
Lists name [] = ⊥
Lists name (none ∷ links) = Lists name links
Lists name (some link ∷ links) = (link.name ≡ name) ⊎ Lists name links
