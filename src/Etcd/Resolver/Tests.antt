-- ===== src/Etcd/Resolver/Tests.antt =====
-- The resolver's theorems at concrete instances.
use yggdrasil_ecosystem.Prelude.{
  ℕ, ◌≡◌, ◌⊎◌, refl, inl, true, Option, none, some, List, [], ◌∷◌, ◌++◌, ◌==◌, if◌then◌else◌,
}
use yggdrasil_ecosystem.Prelude.Text.{Text, text_eq, text_beq, codes, has_prefix}
use yggdrasil_ecosystem.Prelude.Dict.{member}
use yggdrasil_ecosystem.Etcd.Records.{
  EndpointRecord, InstanceRecord, build_key_value, service_prefix, join, key_parts,
}
use yggdrasil_ecosystem.Etcd.Resolver.{
  ResolverConfig, State, fetch_state, collect, instance_key, is_allowed, normalize_config,
}
use yggdrasil_ecosystem.Etcd.Resolver.Found.{IsFetched, fetch_state-IsFetched}
use yggdrasil_ecosystem.Etcd.Resolver.Registered.{
  member-build_key_value, collect_unspaced, IsUnspaced,
}

abbrev node : EndpointRecord
node = record { scheme = codes "grpc"; address = codes "10.0.0.1:80"; metadata = [] }

abbrev instance_in : Text → InstanceRecord
instance_in namespace = record {
  namespace = namespace;
  name = codes "app";
  version = codes "1";
  region = [];
  zone = [];
  campus = [];
  metadata = [];
  endpoints = node ∷ [];
}

-- A text that stands for the JSON of the instance.
abbrev app_json : Text
app_json = codes "app"

abbrev decode_app : Text → Text → Option InstanceRecord
decode_app namespace value = if value == app_json then some (instance_in namespace) else none

abbrev config : ResolverConfig
config = record {
  client = [];
  prefix = codes "/r";
  namespace = codes "ns";
  protocols = codes "grpc" ∷ [];
  debounce = 0;
}

abbrev name_of : Text → Text → Text
name_of protocol address = protocol ++ address

abbrev answer : Option (ℕ × List Text)
answer = some (7, app_json ∷ [])

fetch_state-IsFetched_example :
    ((answer ≡ none)
      × (fetch_state name_of (decode_app (codes "ns")) config (codes "app") answer ≡ none))
    ⊎ ((revision : ℕ) × (values : List Text) × (state : State) × (answer ≡ some (revision, values))
        × (fetch_state name_of (decode_app (codes "ns")) config (codes "app") answer ≡ some state)
        × IsFetched name_of (decode_app (codes "ns")) config (codes "app") revision values state)
fetch_state-IsFetched_example =
    fetch_state-IsFetched name_of (decode_app (codes "ns")) config (codes "app") answer

abbrev app_key : Text
app_key = codes "/r/ns/app/1f"

member-build_key_value_example :
    (has_prefix app_key (service_prefix (codes "/r") (codes "ns") (codes "app")) ≡ true)
    × (member
          (instance_key (instance_in (codes "ns")) node)
          (collect (decode_app (codes "ns")) config (codes "app") (app_json ∷ []) ([], [])).0
        ≡ true)
unfolding text_beq build_key_value key_parts join is_allowed member
member-build_key_value_example =
    member-build_key_value (λ _. some app_json) (λ _. codes "1f") (decode_app (codes "ns")) config
      (instance_in (codes "ns")) app_key app_json node (app_json ∷ []) (λ e. cc e) (λ e. cc e) refl
      refl refl (inl refl) refl (inl refl)

collect_unspaced_example :
    (collect (decode_app []) (normalize_config config) (codes "app") (app_json ∷ []) ([], [])).1
    ≡ []
unfolding text_beq IsUnspaced
collect_unspaced_example =
    collect_unspaced (decode_app []) config (codes "app") (app_json ∷ []) ((λ rec e. cc e), tt)
