-- ===== src/Etcd/Resolver.antt =====
-- modules/etcd/discovery/resolver.go. Its watchers and loops are those of Discovery/Table. The etcd
-- client's Get and json.Unmarshal are parameters, and so is the name of an endpoint, which the
-- framework makes of its protocol and its address. sort.Slice leaves the order of endpoints with
-- equal names open; here they keep the order in which they were found.
pub mod Laws
pub mod Sorting
pub mod Found
pub mod Registered
mod Tests
use yggdrasil_ecosystem.Prelude.{
  ℕ, Bool, true, false, not, ◌&&◌, ◌||◌, Option, none, some, List, [], ◌∷◌, ◌++◌, ◌==◌, ltb, nat_eq,
  if◌then◌else◌, map,
}
use yggdrasil_ecosystem.Prelude.Text.{Text, text_eq, codes}
use yggdrasil_ecosystem.Prelude.Dict.{Dict, insert, member, add}
use yggdrasil_ecosystem.Etcd.Records.{
  EndpointRecord, InstanceRecord, join, default_prefix, service_prefix,
}
use yggdrasil_ecosystem.Discovery.Table.{WatchTable, snapshot_watchers}

pub record ResolverConfig : Type 0 where
  pub client : Text
  pub prefix : Text
  pub namespace : Text
  pub protocols : List Text
  pub debounce : ℕ

abbrev or_default : Text → Text → Text
or_default fallback value = if value == [] then fallback else value

abbrev default_protocols : List Text
default_protocols = codes "grpc" ∷ codes "http" ∷ []

abbrev protocols_or_default : List Text → List Text
protocols_or_default [] = default_protocols
protocols_or_default (p ∷ ps) = p ∷ ps

unfoldable pub normalize_config : ResolverConfig → ResolverConfig
normalize_config cfg = record cfg {
  prefix = or_default default_prefix cfg.prefix;
  namespace = or_default (codes "default") cfg.namespace;
  protocols = protocols_or_default cfg.protocols;
}

-- toProtocolAllow: whether a protocol is true in the map.
unfoldable pub is_allowed : List Text → Text → Bool
is_allowed protocols scheme = member scheme (protocols_or_default protocols)

-- An endpoint of the state: the attributes are those of the instance, with the metadata of the
-- instance and then of the endpoint written over them.
pub record StateEndpoint : Type 0 where
  pub address : Text
  pub protocol : Text
  pub attributes : Dict Text Text

-- The attributes that fetchState gives the state, and its endpoints.
pub record State : Type 0 where
  pub service : Text
  pub namespace : Text
  pub revision : ℕ
  pub endpoints : List StateEndpoint

-- The loop that copies a metadata map.
abbrev pub insert_all : Dict Text Text → Dict Text Text → Dict Text Text
insert_all [] attrs = attrs
insert_all ((name, value) ∷ metadata) attrs = insert_all metadata (insert name value attrs)

unfoldable pub attributes_of : InstanceRecord → EndpointRecord → Dict Text Text
attributes_of rec endpoint = insert_all endpoint.metadata (
    insert_all rec.metadata (
      (codes "instance_version", rec.version)
      ∷ (codes "instance_region", rec.region)
      ∷ (codes "instance_zone", rec.zone)
      ∷ (codes "instance_campus", rec.campus)
      ∷ []))

unfoldable pub state_endpoint : InstanceRecord → EndpointRecord → StateEndpoint
unfolding attributes_of
state_endpoint rec endpoint = record {
  address = endpoint.address;
  protocol = endpoint.scheme;
  attributes = attributes_of rec endpoint;
}

unfoldable pub instance_key : InstanceRecord → EndpointRecord → Text
unfolding join
instance_key rec endpoint =
    join (rec.namespace ∷ rec.name ∷ rec.version ∷ endpoint.scheme ∷ endpoint.address ∷ [])

-- The set `instances` and the endpoints so far.
abbrev pub Found : Type 0
Found = List Text × List StateEndpoint

-- The body of the inner loop of fetchState.
unfoldable pub add_endpoint : List Text → InstanceRecord → EndpointRecord → Found → Found
unfolding is_allowed instance_key state_endpoint
add_endpoint protocols rec endpoint (instances, endpoints) =
    let key = instance_key rec endpoint in
    if is_allowed protocols endpoint.scheme && not (member key instances)
    then (add key instances, endpoints ++ (state_endpoint rec endpoint ∷ []))
    else (instances, endpoints)

unfoldable pub add_endpoints : List Text → InstanceRecord → List EndpointRecord → Found → Found
unfolding add_endpoint
add_endpoints protocols rec [] found = found
add_endpoints protocols rec (e ∷ es) found =
    add_endpoints protocols rec es (add_endpoint protocols rec e found)

-- The body of the outer loop: a value that is not an instance of the service is passed over.
unfoldable pub add_instance : List Text → Text → Text → Option InstanceRecord → Found → Found
unfolding add_endpoints
add_instance protocols namespace service none found = found
add_instance protocols namespace service (some rec) found =
    if rec.name == service && rec.namespace == namespace
    then add_endpoints protocols rec rec.endpoints found
    else found

module _ (decode : Text → Option InstanceRecord) where
  -- The outer loop.
  unfoldable pub collect : ResolverConfig → Text → List Text → Found → Found
  unfolding add_instance
  collect cfg service [] found = found
  collect cfg service (value ∷ values) found =
      collect cfg service values
        (add_instance cfg.protocols cfg.namespace service (decode value) found)

-- i before j in the order of bytes.
unfoldable pub text_ltb : Text → Text → Bool
text_ltb [] [] = false
text_ltb [] (d ∷ t) = true
text_ltb (c ∷ s) [] = false
text_ltb (c ∷ s) (d ∷ t) = ltb c d || (c == d && text_ltb s t)

module _ (name_of : Text → Text → Text) where
  abbrev pub endpoint_name : StateEndpoint → Text
  endpoint_name e = name_of e.protocol e.address

  unfoldable pub place : StateEndpoint → List StateEndpoint → List StateEndpoint
  unfolding text_ltb
  place e [] = e ∷ []
  place e (f ∷ fs) =
      let rest = place e fs in
      if text_ltb (endpoint_name f) (endpoint_name e) then f ∷ rest else e ∷ f ∷ fs

  unfoldable pub sort_endpoints : List StateEndpoint → List StateEndpoint
  unfolding place
  sort_endpoints [] = []
  sort_endpoints (e ∷ es) = place e (sort_endpoints es)

  module _ (decode : Text → Option InstanceRecord) where
    -- fetchState, on the revision and the values that Get returns, none for its error.
    unfoldable pub fetch_state : ResolverConfig → Text → Option (ℕ × List Text) → Option State
    unfolding collect sort_endpoints
    fetch_state cfg service none = none
    fetch_state cfg service (some (revision, values)) = some (record {
      service = service;
      namespace = cfg.namespace;
      revision = revision;
      endpoints = sort_endpoints ((collect decode cfg service values ([], [])).1);
    })

    -- fetchAndNotify: the states that watchers are told.
    unfoldable pub fetch_and_notify :
        ResolverConfig → Text → Option (ℕ × List Text) → WatchTable → List (ℕ × State)
    unfolding fetch_state
    fetch_and_notify cfg service answer t = elim (fetch_state cfg service answer) [
      | none ↦ []
      | some state ↦ map (λ w. (w, state)) (snapshot_watchers service t)
    ]
