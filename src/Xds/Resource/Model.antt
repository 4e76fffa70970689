-- ===== src/Xds/Resource/Model.antt =====
-- modules/xds/internal/resource/model.go. A pointer that may be nil is an `Option`; durations are
-- nanoseconds, and the compiled regular expressions of package regexp are a type parameter.
use yggdrasil_ecosystem.Prelude.{ℕ, Bool, Option, List}
use yggdrasil_ecosystem.Prelude.Text.{Text}
use yggdrasil_ecosystem.Prelude.Dict.{Dict}

pub record CircuitBreakerConfig : Type 0 where
  pub max_connections : ℕ
  pub max_pending_requests : ℕ
  pub max_requests : ℕ
  pub max_retries : ℕ

pub record OutlierDetectionConfig : Type 0 where
  pub consecutive_5xx : ℕ
  pub consecutive_gateway_failure : ℕ
  pub consecutive_local_origin_failure : ℕ
  pub interval : ℕ
  pub base_ejection_time : ℕ
  pub max_ejection_time : ℕ
  pub max_ejection_percent : ℕ
  pub enforcing_consecutive_5xx : ℕ
  pub enforcing_success_rate : ℕ
  pub success_rate_minimum_hosts : ℕ
  pub success_rate_request_volume : ℕ
  pub success_rate_stdev_factor : ℕ
  pub failure_percentage_threshold : ℕ
  pub enforcing_failure_percentage : ℕ
  pub failure_percentage_minimum_hosts : ℕ
  pub failure_percentage_request_volume : ℕ
  pub split_external_local_origin_errors : Bool

pub record RateLimiterConfig : Type 0 where
  pub max_tokens : ℕ
  pub tokens_per_fill : ℕ
  pub fill_interval : ℕ

pub record ClusterPolicy : Type 0 where
  pub lb_policy : Text
  pub max_requests : ℕ
  pub circuit_breaker : Option CircuitBreakerConfig
  pub outlier_detection : Option OutlierDetectionConfig
  pub rate_limiter : Option RateLimiterConfig

pub record Endpoint : Type 0 where
  pub address : Text
  pub port : ℕ

pub record WeightedEndpoint : Type 0 where
  pub cluster : Text
  pub endpoint : Endpoint
  pub weight : ℕ
  pub priority : ℕ
  pub metadata : Dict Text Text

pub record WeightedCluster : Type 0 where
  pub name : Text
  pub weight : ℕ

pub record WeightedClusters : Type 0 where
  pub clusters : List WeightedCluster
  pub total_weight : ℕ

pub record RouteAction : Type 0 where
  pub cluster : Text
  pub weighted_clusters : Option WeightedClusters

module _ (Regexp : Type 0) where
  pub record HeaderMatcher : Type 0 where
    pub name : Text
    pub exact_match : Text
    pub prefix_match : Text
    pub suffix_match : Text
    pub regex_match : Option Regexp
    pub present : Bool

  pub record RouteMatch : Type 0 where
    pub prefix : Text
    pub path : Text
    pub suffix : Text
    pub contains : Text
    pub regex : Option Regexp
    pub headers : List HeaderMatcher

  pub record Route : Type 0 where
    pub match : Option RouteMatch
    pub action : Option RouteAction

  pub record VirtualHost : Type 0 where
    pub name : Text
    pub domains : List Text
    pub routes : List Route

  pub record RouteSnapshot : Type 0 where
    pub vhosts : List VirtualHost

pub record ListenerSnapshot : Type 0 where
  pub route : Text

pub record ClusterSnapshot : Type 0 where
  pub policy : ClusterPolicy

pub record EdsSnapshot : Type 0 where
  pub endpoints : List WeightedEndpoint

-- DiscoveryEvent with its DiscoveryEventType: the type decides what the data is.
pub data DiscoveryEvent (Regexp : Type 0) : Type 0 where
  listener_added : Text → ListenerSnapshot → DiscoveryEvent Regexp
  route_added : Text → RouteSnapshot Regexp → DiscoveryEvent Regexp
  cluster_added : Text → ClusterSnapshot → DiscoveryEvent Regexp
  endpoint_added : Text → EdsSnapshot → DiscoveryEvent Regexp
