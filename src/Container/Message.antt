-- ===== src/Container/Message.antt =====
-- What FormatNsenterInfo tells nsenter: which namespaces to create, and which paths to join.
use urunc.Prelude.{
  String, ◌<>◌, ◌==◌, Bool, true, false, not, Option, none, some, List, [], ◌∷◌, ◌||◌, ◌&&◌,
  if◌then◌else◌, ◌≡◌,
}
use urunc.Prelude.Text.{split}
use urunc.Container.Namespaces.{NsType, same_type, Namespace, ns_name, NsInfo, ns_order, NsMessage}
use urunc.Container.Paths.{entries}

-- The paths that are not empty, in the order given.

abbrev known : Option String → Bool
known none = false
known (some _) = true

abbrev labelled : Option String → String → String → String
labelled none path old = old
labelled (some prefix) path old = prefix <> path

-- The namespaces to create: the known ones that have no path.
abbrev pub creates : List Namespace → NsType → Bool
creates [] t = false
creates (ns ∷ rest) t =
    creates rest t || (same_type ns.type t && (ns.path == "" && known (ns_name ns.type)))

-- What nsenter gets for a kind of namespace: its name and the last path that is given for it.
abbrev pub joins : List Namespace → NsType → String → String
joins [] t old = old
joins (ns ∷ rest) t old = joins rest t (
    if same_type ns.type t && not (ns.path == "")
    then labelled (ns_name ns.type) ns.path old
    else old)

abbrev Describes : List Namespace → NsInfo → NsInfo → Type 0
Describes namespaces info info' =
    (t : NsType)
    → (info'.clone_flags t ≡ (creates namespaces t || info.clone_flags t))
      × (info'.ns_paths t ≡ joins namespaces t (info.ns_paths t))

abbrev pub flags_of : Option (NsType → Bool) → NsType → Bool
flags_of none t = false
flags_of (some f) t = f t

abbrev pub text_of : Option String → String
text_of none = ""
text_of (some s) = s

-- strings.Split of an empty text gives one empty part.
abbrev pub parts_of : List String → List String
parts_of [] = "" ∷ []
parts_of (p ∷ ps) = p ∷ ps

-- The message says which namespaces to create and, in the order of nsenter, which to join.
abbrev pub SaysAll : List Namespace → NsMessage → Type 0
SaysAll namespaces msg =
    ((t : NsType) → flags_of msg.0 t ≡ creates namespaces t)
    × (split b',' (text_of msg.1) ≡ parts_of (entries (λ t. joins namespaces t "") ns_order))
