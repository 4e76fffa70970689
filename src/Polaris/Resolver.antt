-- ===== src/Polaris/Resolver.antt =====
-- modules/polaris/discovery/resolver.go, with NetAddr and EffectiveTimeout of
-- modules/polaris/internal/common/common.go. The answer of GetInstances is an argument; instances are
-- records of what the source reads of them, none of them nil. Durations and counts are not negative.
-- The metadata of a request is empty where it is nil. The watchers and the loops are those of
-- Discovery/Table.
pub mod Laws
mod Tests
use yggdrasil_ecosystem.Prelude.{
  ℕ, Bool, true, false, not, ◌&&◌, ◌⊎◌, inl, inr, Option, none, some, List, [], ◌∷◌, ◌++◌, map, ◌*◌,
  ◌==◌, nat_eq, ltb, if◌then◌else◌, second,
}
use yggdrasil_ecosystem.Prelude.Text.{Text, text_eq, codes, has_byte}
use yggdrasil_ecosystem.Prelude.Decimal.{decimal}
use yggdrasil_ecosystem.Prelude.Dict.{Dict, lookup, insert, member}
use yggdrasil_ecosystem.Discovery.Table as Table
use yggdrasil_ecosystem.Discovery.Table.{WatchTable, new_table, snapshot_watchers}

-- The fields that the resolver reads; those that choose the SDK are left out.
pub record ResolverConfig : Type 0 where
  pub namespace : Text
  pub protocols : List Text
  pub refresh_interval : ℕ
  pub timeout : ℕ
  pub retry_count : ℕ
  pub skip_route_filter : Bool
  pub metadata : Dict Text Text

pub record Instance : Type 0 where
  pub id : Text
  pub host : Text
  pub port : ℕ
  pub weight : ℕ
  pub priority : ℕ
  pub protocol : Text
  pub version : Text
  pub metadata : Dict Text Text

pub record Response : Type 0 where
  pub revision : Text
  pub instances : List Instance

pub record GetInstancesRequest : Type 0 where
  pub service : Text
  pub namespace : Text
  pub skip_route_filter : Bool
  pub metadata : Dict Text Text
  pub timeout : Option ℕ
  pub retry_count : Option ℕ

-- A value of an endpoint's attributes.
pub data Attribute : Type 0 where
  text_value : Text → Attribute
  number_value : ℕ → Attribute

pub record StateEndpoint : Type 0 where
  pub address : Text
  pub protocol : Text
  pub attributes : Dict Text Attribute

-- The state's attributes are fields; the response is that under polaris_instances_response.
pub record State : Type 0 where
  pub service : Text
  pub namespace : Text
  pub revision : Text
  pub response : Response
  pub endpoints : List StateEndpoint

-- shouldBracketIPv6
unfoldable pub should_bracket : Text → Bool
should_bracket [] = false
should_bracket (c ∷ host) = not (c == b'[') && has_byte b':' (c ∷ host)

unfoldable pub net_addr : Text → ℕ → Text
unfolding should_bracket
net_addr host port =
    if host == []
    then b':' ∷ decimal port
    else if should_bracket host
    then b'[' ∷ (host ++ (b']' ∷ b':' ∷ decimal port))
    else host ++ (b':' ∷ decimal port)

abbrev positive : ℕ → Option ℕ
positive d = if d == 0 then none else some d

-- EffectiveTimeout: the time until the context's deadline, 0 where it has passed, or else the fallback.
unfoldable pub effective_timeout : Option ℕ → ℕ → ℕ
effective_timeout none fallback = fallback
effective_timeout (some left) fallback = if ltb 0 left then left else fallback

unfoldable pub allow_set : List Text → List Text → List Text
allow_set [] def = def
allow_set (p ∷ ps) def = p ∷ ps

-- A map[string]string read at a key.
abbrev pub value_at : Text → Dict Text Text → Text
value_at key m = elim (lookup key m) [ none ↦ [] | some value ↦ value ]

unfoldable pub metadata_matches : Dict Text Text → Dict Text Text → Bool
metadata_matches metadata [] = true
metadata_matches metadata ((key, want) ∷ required) =
    value_at key metadata == want && metadata_matches metadata required

-- The loop that copies an instance's metadata over its attributes.
unfoldable pub copy_metadata : Dict Text Text → Dict Text Attribute → Dict Text Attribute
copy_metadata [] attrs = attrs
copy_metadata ((k, v) ∷ metadata) attrs = copy_metadata metadata (insert k (text_value v) attrs)

unfoldable pub instance_attributes : Instance → Dict Text Attribute
unfolding copy_metadata
instance_attributes i = copy_metadata i.metadata (
    (codes "instance_id", text_value i.id)
    ∷ (codes "weight", number_value i.weight)
    ∷ (codes "priority", number_value i.priority)
    ∷ (codes "version", text_value i.version)
    ∷ [])

unfoldable pub instance_endpoint : Instance → StateEndpoint
unfolding net_addr instance_attributes
instance_endpoint i = record {
  address = net_addr i.host i.port;
  protocol = i.protocol;
  attributes = instance_attributes i;
}

-- The two tests of the loop in fetchState.
unfoldable pub is_wanted : ResolverConfig → Instance → Bool
unfolding allow_set metadata_matches
is_wanted cfg i =
    member i.protocol (allow_set cfg.protocols (codes "grpc" ∷ []))
    && metadata_matches i.metadata cfg.metadata

-- The loop, with the endpoints so far.
unfoldable pub endpoints_from :
    ResolverConfig → List StateEndpoint → List Instance → List StateEndpoint
unfolding is_wanted instance_endpoint
endpoints_from cfg endpoints [] = endpoints
endpoints_from cfg endpoints (i ∷ is) =
    endpoints_from cfg
      (if is_wanted cfg i then endpoints ++ (instance_endpoint i ∷ []) else endpoints) is

abbrev pub namespace_or_default : ResolverConfig → Text
namespace_or_default cfg = if cfg.namespace == [] then codes "default" else cfg.namespace

unfoldable pub instances_request : ResolverConfig → Option ℕ → Text → GetInstancesRequest
unfolding effective_timeout
instances_request cfg left app = record {
  service = app;
  namespace = namespace_or_default cfg;
  skip_route_filter = cfg.skip_route_filter;
  metadata = cfg.metadata;
  timeout = positive (effective_timeout left cfg.timeout);
  retry_count = positive cfg.retry_count;
}

unfoldable pub state_of : ResolverConfig → Text → Response → State
unfolding endpoints_from
state_of cfg app resp = record {
  service = app;
  namespace = namespace_or_default cfg;
  revision = resp.revision;
  response = resp;
  endpoints = endpoints_from cfg [] resp.instances;
}

-- fetchState, with what GetInstances answers to a request and the time left of the context.
unfoldable pub fetch_state :
    (GetInstancesRequest → Text ⊎ Response) → ResolverConfig → Option ℕ → Text → Text ⊎ State
unfolding instances_request state_of
fetch_state get_instances cfg left app = elim (get_instances (instances_request cfg left app)) [
  | inl err ↦ inl err
  | inr resp ↦ inr (state_of cfg app resp)
]

-- UpdateState of a watcher.
pub record Told : Type 0 where
  pub watcher : ℕ
  pub state : State

pub record Resolver : Type 0 where
  pub init_err : Option Text
  pub cfg : ResolverConfig
  pub table : WatchTable
  pub told : List Told

-- NewResolver, or NewResolverWithError with its error.
unfoldable pub new_resolver : Option Text → ResolverConfig → Resolver
new_resolver init_err cfg = record { init_err = init_err; cfg = cfg; table = new_table; told = [] }

-- AddWatch: its error, and the resolver.
unfoldable pub add_watch : Text → ℕ → Resolver → Option Text × Resolver
add_watch app watcher r = elim r.init_err [
  | some err ↦ (some err, r)
  | none ↦
      if app == []
      then (some (codes "empty app name"), r)
      else (none, record r { table = Table.add_watch app watcher r.table })
]

unfoldable pub del_watch : Text → ℕ → Resolver → Option Text × Resolver
del_watch app watcher r = elim r.init_err [
  | some err ↦ (some err, r)
  | none ↦ (none, record r { table = Table.del_watch app watcher r.table })
]

-- The update of every watcher there is.
unfoldable pub notify : Text → State → Resolver → Resolver
notify app state r = record r {
  told = r.told ++ map (λ w. record { watcher = w; state = state }) (snapshot_watchers app r.table);
}

unfoldable pub fetch_and_notify :
    (GetInstancesRequest → Text ⊎ Response) → Option ℕ → Text → Resolver → Resolver
unfolding fetch_state notify
fetch_and_notify get_instances left app r = elim (fetch_state get_instances r.cfg left app) [
  | inl err ↦ r
  | inr state ↦ notify app state r
]

-- The interval of the ticker in watchLoop.
unfoldable pub loop_interval : ResolverConfig → ℕ
loop_interval cfg = if cfg.refresh_interval == 0 then 10 * second else cfg.refresh_interval
