-- ===== src/Etcd/Records.antt =====
-- modules/etcd/discovery/types.go, and the keys that the registry writes to and the resolver reads
-- from. json.Marshal and the hexadecimal SHA-1 sum are parameters.
pub mod Keys
use yggdrasil_ecosystem.Prelude.{Option, none, some, List, [], ◌∷◌, ◌++◌, ◌==◌, if◌then◌else◌}
use yggdrasil_ecosystem.Prelude.Text.{Text, text_eq, codes}
use yggdrasil_ecosystem.Prelude.Dict.{Dict}

pub record EndpointRecord : Type 0 where
  pub scheme : Text
  pub address : Text
  pub metadata : Dict Text Text

pub record InstanceRecord : Type 0 where
  pub namespace : Text
  pub name : Text
  pub version : Text
  pub region : Text
  pub zone : Text
  pub campus : Text
  pub metadata : Dict Text Text
  pub endpoints : List EndpointRecord

-- strings.Join(parts, "/")
unfoldable pub join : List Text → Text
join [] = []
join (p ∷ []) = p
join (p ∷ q ∷ ps) = p ++ (b'/' ∷ join (q ∷ ps))

abbrev pub default_prefix : Text
default_prefix = codes "/yggdrasil/registry"

-- A part that is not empty is appended.
abbrev part : Text → List Text → List Text
part p ps = if p == [] then ps else p ∷ ps

-- The parts of a key, from the prefix to the sum.
unfoldable pub key_parts : Text → InstanceRecord → Text → List Text
key_parts prefix inst sum = prefix ∷ part inst.namespace (part inst.name (sum ∷ []))

-- buildKeyValue, none for an error of json.Marshal.
unfoldable pub build_key_value :
    (InstanceRecord → Option Text) → (Text → Text) → Text → InstanceRecord → Option (Text × Text)
unfolding key_parts join
build_key_value marshal sha1_hex prefix inst = elim (marshal inst) [
  | none ↦ none
  | some payload ↦ some (join (key_parts prefix inst (sha1_hex payload)), payload)
]

unfoldable pub service_prefix : Text → Text → Text → Text
unfolding join
service_prefix prefix namespace service = join (prefix ∷ namespace ∷ service ∷ [])
