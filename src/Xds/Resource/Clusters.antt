-- ===== src/Xds/Resource/Clusters.antt =====
-- The decoding of clusters in modules/xds/internal/resource/decode.go. The float64 numbers of a
-- metadata struct are a type parameter with the conversions that the source makes: uint32(x), and
-- time.Duration(x * float64(time.Second)) in nanoseconds.
use yggdrasil_ecosystem.Prelude.{ℕ, Option, none, some, List, [], ◌∷◌, ◌==◌, if◌then◌else◌}
use yggdrasil_ecosystem.Prelude.Text.{Text, text_eq, codes}
use yggdrasil_ecosystem.Prelude.Dict.{Dict, lookup}
use yggdrasil_ecosystem.Xds.Resource.Model.{
  CircuitBreakerConfig, OutlierDetectionConfig, RateLimiterConfig, ClusterPolicy, DiscoveryEvent,
  cluster_added,
}
use yggdrasil_ecosystem.Xds.Resource.Envoy
use yggdrasil_ecosystem.Xds.Resource.Envoy.{
  LbPolicy, round_robin, least_request, random, other_policy, Thresholds, OutlierDetection, Value,
  number_kind, other_kind, get_value,
}

abbrev pub rate_limit_metadata_key : Text
rate_limit_metadata_key = codes "yggdrasil.rate_limit"

-- The switch of parseCluster.
unfoldable pub lb_policy_name : LbPolicy → Text
lb_policy_name random = codes "random"
lb_policy_name least_request = codes "least_request"
lb_policy_name round_robin = codes "round_robin"
lb_policy_name other_policy = codes "round_robin"

unfoldable pub parse_thresholds : Thresholds → CircuitBreakerConfig
parse_thresholds t = record {
  max_connections = get_value t.max_connections;
  max_pending_requests = get_value t.max_pending_requests;
  max_requests = get_value t.max_requests;
  max_retries = get_value t.max_retries;
}

-- Only the first thresholds are read.
unfoldable pub parse_circuit_breakers : Option (List Thresholds) → Option CircuitBreakerConfig
parse_circuit_breakers none = none
parse_circuit_breakers (some []) = none
parse_circuit_breakers (some (t ∷ ts)) = some (parse_thresholds t)

unfoldable pub parse_outlier_detection : OutlierDetection → OutlierDetectionConfig
parse_outlier_detection o = record {
  consecutive_5xx = get_value o.consecutive_5xx;
  consecutive_gateway_failure = get_value o.consecutive_gateway_failure;
  consecutive_local_origin_failure = get_value o.consecutive_local_origin_failure;
  interval = get_value o.interval;
  base_ejection_time = get_value o.base_ejection_time;
  max_ejection_time = get_value o.max_ejection_time;
  max_ejection_percent = get_value o.max_ejection_percent;
  enforcing_consecutive_5xx = get_value o.enforcing_consecutive_5xx;
  enforcing_success_rate = get_value o.enforcing_success_rate;
  success_rate_minimum_hosts = get_value o.success_rate_minimum_hosts;
  success_rate_request_volume = get_value o.success_rate_request_volume;
  success_rate_stdev_factor = get_value o.success_rate_stdev_factor;
  failure_percentage_threshold = get_value o.failure_percentage_threshold;
  enforcing_failure_percentage = get_value o.enforcing_failure_percentage;
  failure_percentage_minimum_hosts = get_value o.failure_percentage_minimum_hosts;
  failure_percentage_request_volume = get_value o.failure_percentage_request_volume;
  split_external_local_origin_errors = o.split_external_local_origin_errors;
}

abbrev outlier_config : Option OutlierDetection → Option OutlierDetectionConfig
outlier_config none = none
outlier_config (some o) = some (parse_outlier_detection o)

-- The conversions of float64 numbers.
pub record Conversions (Number : Type 0) : Type 0 where
  pub zero_number : Number
  pub to_uint32 : Number → ℕ
  pub to_duration : Number → ℕ

module _ {Number : Type 0} (conversions : Conversions Number) where
  -- GetNumberValue is 0 for a value of another kind.
  unfoldable pub number_value : Option (Value Number) → Number
  number_value none = conversions.zero_number
  number_value (some (number_kind x)) = x
  number_value (some other_kind) = conversions.zero_number

  -- parseRateLimiter, on the fields of the struct.
  unfoldable pub limiter_of : Dict Text (Value Number) → Option RateLimiterConfig
  unfolding number_value
  limiter_of [] = none
  limiter_of (field ∷ rest) =
      let fields = field ∷ rest in
      some (record {
        max_tokens = conversions.to_uint32 (number_value (lookup (codes "max_tokens") fields));
        tokens_per_fill =
            conversions.to_uint32 (number_value (lookup (codes "tokens_per_fill") fields));
        fill_interval =
            conversions.to_duration (number_value (lookup (codes "fill_interval") fields));
      })

  abbrev configured_limiter : Option (Dict Text (Value Number)) → Option RateLimiterConfig
  configured_limiter none = none
  configured_limiter (some fields) = limiter_of fields

  unfoldable pub parse_rate_limiter :
      Option (Dict Text (Dict Text (Value Number))) → Option RateLimiterConfig
  parse_rate_limiter none = none
  parse_rate_limiter (some metadata) = configured_limiter (lookup rate_limit_metadata_key metadata)

  -- What parseCluster makes of a cluster that has a name.
  unfoldable pub parse_policy : Envoy.Cluster Number → ClusterPolicy
  unfolding lb_policy_name
  parse_policy c = record {
    lb_policy = lb_policy_name c.lb_policy;
    max_requests = get_value c.max_requests_per_connection;
    circuit_breaker = parse_circuit_breakers c.circuit_breakers;
    outlier_detection = outlier_config c.outlier_detection;
    rate_limiter = parse_rate_limiter c.metadata;
  }

  module _ {Regexp : Type 0} where
    unfoldable pub parse_cluster : Envoy.Cluster Number → List (DiscoveryEvent Regexp)
    parse_cluster c =
        if c.name == []
        then []
        else (cluster_added c.name (record { policy = parse_policy c }) ∷ [])
