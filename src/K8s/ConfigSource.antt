-- ===== src/K8s/ConfigSource.antt =====
-- modules/k8s/configsource/config_source.go: reading and watching a ConfigMap or a Secret. What the
-- cluster answers, the parsers of the framework and the bytes that it makes of a map are arguments. The
-- values of both resources are strings, so that the test whether a value is one always passes.
pub mod Laws
mod Tests
use yggdrasil_ecosystem.Prelude.{
  ℕ, Bool, true, false, ◌||◌, ◌⊎◌, inl, inr, Option, none, some, List, [], ◌∷◌, ◌++◌, ◌==◌,
  if◌then◌else◌,
}
use yggdrasil_ecosystem.Prelude.Text.{Text, text_eq, codes, to_lower, contains, cut_last, has_byte}
use yggdrasil_ecosystem.Prelude.Dict.{Dict, lookup}

-- The parsers: json.Unmarshal, and ParseParser of a name, which may fail.
pub record Parsers (P : Type 0) : Type 0 where
  pub json : P
  pub parse_parser : Text → Option P

pub record Config (P : Type 0) : Type 0 where
  pub namespace : Text
  pub name : Text
  pub key : Text
  pub merge_all_keys : Bool
  pub format : Option P
  pub watch : Bool

pub data Payload (P : Type 0) : Type 0 where
  map_payload : Dict Text Text → Payload P
  bytes_payload : Text → Option P → Payload P

-- filepath.Ext
unfoldable pub ext : Text → Text
ext path = elim (cut_last b'.' path) [
  | none ↦ []
  | some split ↦ if has_byte b'/' split.1 then [] else b'.' ∷ split.1
]

abbrev or_parser : {P : Type 0} → Option P → Option P → Option P
or_parser none other = other
or_parser (some parser) other = some parser

unfoldable pub is_config_key : Text → Bool
is_config_key key =
    let lower_key = to_lower key in
    contains lower_key (codes ".yaml")
    || contains lower_key (codes ".yml")
    || contains lower_key (codes ".json")
    || contains lower_key (codes ".toml")

abbrev first_key : Dict Text Text → Text
first_key [] = codes "config"
first_key ((key, value) ∷ data_map) = key

unfoldable pub config_key : Dict Text Text → Option Text
unfolding is_config_key
config_key [] = none
config_key ((key, value) ∷ data_map) =
    let later = config_key data_map in if is_config_key key then some key else later

unfoldable pub infer_key_from_data : Dict Text Text → Text
unfolding config_key
infer_key_from_data data_map = elim (config_key data_map) [
  | none ↦ first_key data_map
  | some key ↦ key
]

-- The two kinds of events that bring new data, the deletion, and the others.
pub data EventType : Type 0 where
  added modified deleted other_event : EventType

module _ {P : Type 0} (parsers : Parsers P) where
  unfoldable pub infer_parser : Text → Option P
  unfolding ext
  infer_parser key =
      let kind = to_lower (ext key) in
      if kind == codes ".json"
      then some parsers.json
      else if kind == codes ".toml"
      then or_parser (parsers.parse_parser (codes "toml")) (parsers.parse_parser (codes "yaml"))
      else parsers.parse_parser (codes "yaml")

  -- The parser that fetch chooses.
  unfoldable pub fetched_parser : Config P → Option P
  unfolding infer_parser
  fetched_parser cfg = elim cfg.format [
    | some parser ↦ some parser
    | none ↦ if cfg.key == [] then none else infer_parser cfg.key
  ]

  unfoldable pub payload_at : Text → Dict Text Text → Option P → Text ⊎ Payload P
  unfolding infer_parser
  payload_at key data_map parser = elim (lookup key data_map) [
    | none ↦ inl (codes "key not found")
    | some value ↦ inr (bytes_payload value (or_parser parser (infer_parser key)))
  ]

  unfoldable pub payload : Config P → Dict Text Text → Option P → Text ⊎ Payload P
  unfolding payload_at infer_key_from_data
  payload cfg data_map parser =
      if cfg.merge_all_keys
      then inr (map_payload data_map)
      else payload_at (if cfg.key == [] then infer_key_from_data data_map else cfg.key) data_map
          parser

  -- Read, with what the cluster answers to Get.
  unfoldable pub read : Config P → Text ⊎ Dict Text Text → Text ⊎ Payload P
  unfolding payload fetched_parser
  read cfg (inl err) = inl err
  read cfg (inr data_map) = payload cfg data_map (fetched_parser cfg)

  module _ (bytes_of : Dict Text Text → Text) where
    -- The content of a payload, which Watch compares.
    unfoldable pub content : Payload P → Text
    content (map_payload data_map) = bytes_of data_map
    content (bytes_payload text parser) = text

    -- The next content and what is sent, after a fetch with its payload.
    unfoldable pub offer : Text ⊎ Payload P → Text → Text × List (Payload P)
    unfolding content
    offer (inl err) last = (last, [])
    offer (inr p) last = if content p == last then (last, []) else (content p, p ∷ [])

    unfoldable pub on_event :
        Config P → EventType → Text ⊎ Dict Text Text → Text → Text × List (Payload P)
    unfolding offer read
    on_event cfg added answer last = offer (read cfg answer) last
    on_event cfg modified answer last = offer (read cfg answer) last
    on_event cfg deleted answer last = (last, [])
    on_event cfg other_event answer last = (last, [])

    -- The loop of Watch over the events of its watches, one after the other, each with what Get answers
    -- then: what is sent. A deletion ends it. The last content is the empty text at the start.
    unfoldable pub watched :
        Config P → List (EventType × (Text ⊎ Dict Text Text)) → Text → List (Payload P)
    unfolding on_event
    watched cfg [] last = []
    watched cfg ((deleted, answer) ∷ events) last = []
    watched cfg ((added, answer) ∷ events) last =
        let step = on_event cfg added answer last in step.1 ++ watched cfg events step.0
    watched cfg ((modified, answer) ∷ events) last =
        let step = on_event cfg modified answer last in step.1 ++ watched cfg events step.0
    watched cfg ((other_event, answer) ∷ events) last = watched cfg events last
