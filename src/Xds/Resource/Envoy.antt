-- ===== src/Xds/Resource/Envoy.antt =====
-- The messages of the Envoy API that modules/xds/internal/resource/decode.go reads, as records of the
-- fields it reads. A message or a wrapper that may be missing is an `Option`, the variants of a
-- oneof are constructors, and a list has no missing elements, as in every decoded message.
use yggdrasil_ecosystem.Prelude.{ℕ, Bool, Option, none, some, List}
use yggdrasil_ecosystem.Prelude.Text.{Text}
use yggdrasil_ecosystem.Prelude.Dict.{Dict}

-- route_specifier of HttpConnectionManager: the name of the route configuration in either variant.
pub data RouteSpecifier : Type 0 where
  rds : Option Text → RouteSpecifier
  route_config : Option Text → RouteSpecifier
  no_route_specifier : RouteSpecifier

module _ (Any : Type 0) where
  pub record Filter : Type 0 where
    pub name : Text
    pub typed_config : Option Any

  pub record Listener : Type 0 where
    pub name : Text
    pub filter_chains : List (List Filter)

pub data PathSpecifier : Type 0 where
  prefix_path exact_path : Text → PathSpecifier
  safe_regex : Option Text → PathSpecifier
  other_path : PathSpecifier

pub data HeaderMatchSpecifier : Type 0 where
  exact_value prefix_value suffix_value : Text → HeaderMatchSpecifier
  regex_value : Option Text → HeaderMatchSpecifier
  present_value : Bool → HeaderMatchSpecifier
  other_value : HeaderMatchSpecifier

pub record HeaderRule : Type 0 where
  pub name : Text
  pub header_match_specifier : HeaderMatchSpecifier

pub record MatchRule : Type 0 where
  pub path_specifier : Option PathSpecifier
  pub headers : List HeaderRule

pub record ClusterWeight : Type 0 where
  pub name : Text
  pub weight : Option ℕ

pub record ClusterWeights : Type 0 where
  pub total_weight : Option ℕ
  pub clusters : List ClusterWeight

pub data ClusterSpecifier : Type 0 where
  one_cluster : Text → ClusterSpecifier
  many_clusters : Option ClusterWeights → ClusterSpecifier
  other_specifier : ClusterSpecifier

-- A route and its action, none where it redirects or answers directly.
pub record RouteRule : Type 0 where
  pub match : Option MatchRule
  pub route : Option ClusterSpecifier

pub record Host : Type 0 where
  pub name : Text
  pub domains : List Text
  pub routes : List RouteRule

pub record RouteConfiguration : Type 0 where
  pub name : Text
  pub virtual_hosts : List Host

pub data LbPolicy : Type 0 where
  round_robin least_request random other_policy : LbPolicy

pub record Thresholds : Type 0 where
  pub max_connections : Option ℕ
  pub max_pending_requests : Option ℕ
  pub max_requests : Option ℕ
  pub max_retries : Option ℕ

-- The durations in nanoseconds.
pub record OutlierDetection : Type 0 where
  pub consecutive_5xx : Option ℕ
  pub consecutive_gateway_failure : Option ℕ
  pub consecutive_local_origin_failure : Option ℕ
  pub interval : Option ℕ
  pub base_ejection_time : Option ℕ
  pub max_ejection_time : Option ℕ
  pub max_ejection_percent : Option ℕ
  pub enforcing_consecutive_5xx : Option ℕ
  pub enforcing_success_rate : Option ℕ
  pub success_rate_minimum_hosts : Option ℕ
  pub success_rate_request_volume : Option ℕ
  pub success_rate_stdev_factor : Option ℕ
  pub failure_percentage_threshold : Option ℕ
  pub enforcing_failure_percentage : Option ℕ
  pub failure_percentage_minimum_hosts : Option ℕ
  pub failure_percentage_request_volume : Option ℕ
  pub split_external_local_origin_errors : Bool

-- A value of a metadata struct: a float64 number or of another kind.
pub data Value (Number : Type 0) : Type 0 where
  number_kind : Number → Value Number
  other_kind : Value Number

module _ (Number : Type 0) where
  pub record Cluster : Type 0 where
    pub name : Text
    pub lb_policy : LbPolicy
    pub max_requests_per_connection : Option ℕ
    pub circuit_breakers : Option (List Thresholds)
    pub outlier_detection : Option OutlierDetection
    pub metadata : Option (Dict Text (Dict Text (Value Number)))

pub record Locality : Type 0 where
  pub region : Text
  pub zone : Text
  pub sub_zone : Text

pub record SocketAddress : Type 0 where
  pub address : Text
  pub port_value : ℕ

pub data Address : Type 0 where
  socket_address : SocketAddress → Address
  other_address : Address

pub data HostIdentifier : Type 0 where
  endpoint_host : Option Address → HostIdentifier
  named_host : HostIdentifier

-- The health status is the number of the enum's value.
pub record LbEndpoint : Type 0 where
  pub load_balancing_weight : Option ℕ
  pub host_identifier : Option HostIdentifier
  pub health_status : ℕ

pub record LocalityLbEndpoints : Type 0 where
  pub load_balancing_weight : Option ℕ
  pub locality : Option Locality
  pub priority : ℕ
  pub lb_endpoints : List LbEndpoint

pub record ClusterLoadAssignment : Type 0 where
  pub cluster_name : Text
  pub endpoints : List LocalityLbEndpoints

-- GetValue of a wrapper message, on a nil pointer too.
abbrev pub get_value : Option ℕ → ℕ
get_value wrapper = elim wrapper [ none ↦ 0 | some n ↦ n ]
