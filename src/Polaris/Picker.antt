-- ===== src/Polaris/Picker.antt =====
-- modules/polaris/traffic/balancer.go: the picker. The Polaris SDK is a parameter: what its calls answer
-- to the requests that the picker builds. Remote clients are numbers. A nil instance in a response is
-- none; the identifier is all that is read of an instance. The release of a quota and the Report of a
-- pick result only call the SDK and are left out, as are the fields of the governance configuration that
-- only choose how the SDK is set up.
pub mod Laws
use yggdrasil_ecosystem.Prelude.{
  ℕ, ◌+◌, ◌-◌, ◌%◌, ◌⊎◌, inl, inr, Bool, true, false, ◌&&◌, ◌||◌, Option, none, some, List, [], ◌∷◌,
  ◌++◌, ◌==◌, if◌then◌else◌, ltb, get_elem?, length, is_some,
}
use yggdrasil_ecosystem.Prelude.Text.{Text, text_eq, codes}
use yggdrasil_ecosystem.Prelude.Dict.{Dict, lookup}

pub record RateLimitConfig : Type 0 where
  pub enable : Bool
  pub token : ℕ
  pub timeout : ℕ
  pub retry_count : ℕ
  pub release : Bool
  pub arguments : Dict Text Text

pub record RoutingConfig : Type 0 where
  pub enable : Bool
  pub recover_all : Bool
  pub routers : List Text
  pub lb_policy : Text
  pub timeout : ℕ
  pub retry_count : ℕ
  pub arguments : Dict Text Text

pub record GovernanceConfig : Type 0 where
  pub namespace : Text
  pub caller_namespace : Text
  pub caller_service : Text
  pub rate_limit : RateLimitConfig
  pub circuit_breaker : Bool
  pub routing : RoutingConfig

pub record InstancesResponse : Type 0 where
  pub instances : List (Option Text)

pub record PolarisPicker : Type 0 where
  pub service_name : Text
  pub instances_response : Option InstancesResponse
  pub ready_by_instance : Dict Text ℕ
  pub ready_any : List ℕ
  pub idx : ℕ
  pub governance : GovernanceConfig

-- What the call of a method carries: the outgoing metadata, if there is any.
pub record RpcInfo : Type 0 where
  pub method : Text
  pub out_metadata : Option (Dict Text (List Text))

pub record QuotaRequest : Type 0 where
  pub namespace : Text
  pub service : Text
  pub method : Text
  pub token : Option ℕ
  pub timeout : Option ℕ
  pub retry_count : Option ℕ
  pub arguments : List (Text × Text)

pub record RoutersRequest : Type 0 where
  pub routers : List Text
  pub source_service : Text
  pub source_namespace : Text
  pub dst_instances : InstancesResponse
  pub method : Text
  pub arguments : List (Text × Text)
  pub timeout : Option ℕ
  pub retry_count : Option ℕ

pub record MethodResource : Type 0 where
  pub dst_namespace : Text
  pub dst_service : Text
  pub src_namespace : Text
  pub src_service : Text
  pub method : Text

pub record QuotaResponse : Type 0 where
  pub is_ok : Bool
  pub info : Text
  pub wait_ms : ℕ

pub record CheckResult : Type 0 where
  pub pass : Bool
  pub rule_name : Text

pub data PickError : Type 0 where
  no_available_instance empty_response : PickError
  sdk_error resource_exhausted unavailable context_error : Text → PickError

-- The SDK's calls; a Text on the left is an error. `waited` is the context's error where it is done
-- before the time that the quota makes the call wait.
pub record Sdk : Type 0 where
  pub limit_err : Option Text
  pub get_quota : QuotaRequest → Text ⊎ Option QuotaResponse
  pub waited : ℕ → Option Text
  pub cb_err : Option Text
  pub new_method_resource : MethodResource → Option Text
  pub check : MethodResource → Text ⊎ Option CheckResult
  pub router_err : Option Text
  pub process_routers : RoutersRequest → Text ⊎ InstancesResponse
  pub process_load_balance : Text → InstancesResponse → Text ⊎ Option Text

abbrev or_default : Text → Text → Text
or_default fallback value = if value == [] then fallback else value

abbrev dst_namespace : GovernanceConfig → Text
dst_namespace g = or_default (codes "default") g.namespace

abbrev src_namespace : GovernanceConfig → Text
src_namespace g = or_default (dst_namespace g) g.caller_namespace

abbrev src_service : GovernanceConfig → Text
src_service g = or_default (codes "unknown") g.caller_service

abbrev positive : ℕ → Option ℕ
positive n = if ltb 0 n then some n else none

-- The first value of each key of the metadata that has one.
unfoldable pub metadata_arguments : Dict Text (List Text) → List (Text × Text)
metadata_arguments [] = []
metadata_arguments ((k, []) ∷ md) = metadata_arguments md
metadata_arguments ((k, v ∷ vs) ∷ md) = (k, v) ∷ metadata_arguments md

unfoldable pub request_arguments :
    Dict Text Text → Option (Dict Text (List Text)) → List (Text × Text)
unfolding metadata_arguments
request_arguments configured none = configured
request_arguments configured (some md) = configured ++ metadata_arguments md

-- The request of checkRateLimit.
unfoldable pub quota_request : PolarisPicker → RpcInfo → QuotaRequest
unfolding request_arguments
quota_request p ri = record {
  namespace = dst_namespace p.governance;
  service = p.service_name;
  method = ri.method;
  token = positive p.governance.rate_limit.token;
  timeout = positive p.governance.rate_limit.timeout;
  retry_count = positive p.governance.rate_limit.retry_count;
  arguments = request_arguments p.governance.rate_limit.arguments ri.out_metadata;
}

-- The wait that a quota asks for.
abbrev wait_quota : Sdk → ℕ → Option PickError
wait_quota sdk wait_ms =
    if ltb 0 wait_ms
    then elim (sdk.waited wait_ms) [ none ↦ none | some err ↦ some (context_error err) ]
    else none

unfoldable pub quota_error : Sdk → Text ⊎ Option QuotaResponse → Option PickError
quota_error sdk (inl err) = some (sdk_error err)
quota_error sdk (inr none) = some empty_response
quota_error sdk (inr (some resp)) =
    if resp.is_ok
    then wait_quota sdk resp.wait_ms
    else some (resource_exhausted (or_default (codes "polaris rate limit exceeded") resp.info))

-- The rate limit part of Next, with checkRateLimit: its error, if there is one.
unfoldable pub rate_limit_error : Sdk → PolarisPicker → RpcInfo → Option PickError
unfolding quota_error quota_request
rate_limit_error sdk p ri =
    if p.governance.rate_limit.enable
    then elim sdk.limit_err [
      | some err ↦ some (sdk_error err)
      | none ↦ quota_error sdk (sdk.get_quota (quota_request p ri))
    ]
    else none

unfoldable pub method_resource : PolarisPicker → RpcInfo → MethodResource
method_resource p ri = record {
  dst_namespace = dst_namespace p.governance;
  dst_service = p.service_name;
  src_namespace = src_namespace p.governance;
  src_service = src_service p.governance;
  method = ri.method;
}

abbrev open_message : Text → Text
open_message rule =
    if rule == []
    then codes "polaris circuit breaker open"
    else codes "polaris circuit breaker open" ++ (codes ": " ++ rule)

unfoldable pub check_error : Text ⊎ Option CheckResult → Option PickError
check_error (inl err) = some (sdk_error err)
check_error (inr none) = none
check_error (inr (some cr)) =
    if cr.pass then none else some (unavailable (open_message cr.rule_name))

-- The circuit breaker part of Next.
unfoldable pub breaker_error : Sdk → PolarisPicker → RpcInfo → Option PickError
unfolding check_error method_resource
breaker_error sdk p ri =
    if p.governance.circuit_breaker
    then elim sdk.cb_err [
      | some err ↦ some (sdk_error err)
      | none ↦ elim (sdk.new_method_resource (method_resource p ri)) [
        | some err ↦ some (sdk_error err)
        | none ↦ check_error (sdk.check (method_resource p ri))
      ]
    ]
    else none

-- The loop of filterReadyInstances.
unfoldable pub keep_ready : Dict Text ℕ → List (Option Text) → List (Option Text)
keep_ready ready [] = []
keep_ready ready (none ∷ ids) = keep_ready ready ids
keep_ready ready (some id ∷ ids) =
    let rest = keep_ready ready ids in if is_some (lookup id ready) then some id ∷ rest else rest

unfoldable pub filter_ready_instances : PolarisPicker → InstancesResponse → InstancesResponse
unfolding keep_ready
filter_ready_instances p dst = elim p.ready_by_instance [
  | [] ↦ dst
  | _ ↦ record { instances = keep_ready p.ready_by_instance dst.instances }
]

-- The result of a pick: an error or a client, and the picker after it.
abbrev pub Picked : Type 0
Picked = (PickError ⊎ ℕ) × PolarisPicker

-- readyAny[idx], with the index moved on.
unfoldable pub taken : PolarisPicker → Option ℕ → Picked
taken p none = (inl no_available_instance, record p { idx = p.idx + 1 })
taken p (some client) = (inr client, record p { idx = p.idx + 1 })

-- randAllReady. The index, an int64 in the source, does not come to 2^63.
unfoldable pub rand_all_ready : PolarisPicker → Picked
unfolding taken
rand_all_ready p = elim p.ready_any [
  | [] ↦ (inl no_available_instance, p)
  | first ∷ rest ↦ taken p (get_elem? (first ∷ rest) (p.idx % length (first ∷ rest)))
]

-- The request of processRouters.
unfoldable pub routers_request : PolarisPicker → RpcInfo → InstancesResponse → RoutersRequest
unfolding request_arguments
routers_request p ri dst = record {
  routers = p.governance.routing.routers;
  source_service = src_service p.governance;
  source_namespace = src_namespace p.governance;
  dst_instances = dst;
  method = ri.method;
  arguments = request_arguments p.governance.routing.arguments ri.out_metadata;
  timeout = positive p.governance.routing.timeout;
  retry_count = positive p.governance.routing.retry_count;
}

-- The client of the instance that the load balancing gives, if there is one.
unfoldable pub client_of : PolarisPicker → Option Text → Option ℕ
client_of p none = none
client_of p (some id) = lookup id p.ready_by_instance

-- pickRemote after processLoadBalance.
unfoldable pub pick_balanced : PolarisPicker → Text ⊎ Option Text → Picked
unfolding rand_all_ready client_of
pick_balanced p (inl err) = (inl (sdk_error err), p)
pick_balanced p (inr one) = elim (client_of p one) [
  | some client ↦ (inr client, p)
  | none ↦ rand_all_ready p
]

-- pickRemote after the routers: the instances that they have left and are ready.
unfoldable pub pick_routed : Sdk → PolarisPicker → InstancesResponse → Picked
unfolding pick_balanced
pick_routed sdk p filtered = elim filtered.instances [
  | [] ↦
      if p.governance.routing.recover_all then rand_all_ready p else (inl no_available_instance, p)
  | _ ↦ pick_balanced p (sdk.process_load_balance p.governance.routing.lb_policy filtered)
]

unfoldable pub pick_filtered : Sdk → PolarisPicker → Text ⊎ InstancesResponse → Picked
unfolding pick_routed filter_ready_instances
pick_filtered sdk p (inl err) = (inl (sdk_error err), p)
pick_filtered sdk p (inr left) = pick_routed sdk p (filter_ready_instances p left)

-- pickRemote where routing is on and there is a response.
unfoldable pub pick_by_routing : Sdk → PolarisPicker → RpcInfo → InstancesResponse → Picked
unfolding pick_filtered routers_request
pick_by_routing sdk p ri resp = elim sdk.router_err [
  | some err ↦ (inl (sdk_error err), p)
  | none ↦
      pick_filtered sdk p
        (sdk.process_routers (routers_request p ri (filter_ready_instances p resp)))
]

unfoldable pub pick_remote : Sdk → PolarisPicker → RpcInfo → Picked
unfolding pick_by_routing rand_all_ready
pick_remote sdk p ri =
    if p.governance.routing.enable
    then elim p.instances_response [
      | none ↦ rand_all_ready p
      | some resp ↦ pick_by_routing sdk p ri resp
    ]
    else rand_all_ready p

abbrev has_ready : PolarisPicker → Bool
has_ready p = elim p.ready_by_instance [
  | [] ↦ elim p.ready_any [ [] ↦ false | _ ↦ true ]
  | _ ↦ true
]

-- What follows, unless there is an error.
unfoldable pub unless_error : PolarisPicker → Option PickError → Picked → Picked
unless_error p (some err) rest = (inl err, p)
unless_error p none rest = rest

-- Next
unfoldable pub next : Sdk → PolarisPicker → RpcInfo → Picked
unfolding rate_limit_error breaker_error pick_remote unless_error
next sdk p ri =
    if has_ready p
    then unless_error p (rate_limit_error sdk p ri)
        (unless_error p (breaker_error sdk p ri) (pick_remote sdk p ri))
    else (inl no_available_instance, p)
