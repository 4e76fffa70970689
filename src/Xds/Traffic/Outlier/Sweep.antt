-- ===== src/Xds/Traffic/Outlier/Sweep.antt =====
-- The periodic sweep of outlier_detector.go with the two analyses of outlier_analysis.go.
use yggdrasil_ecosystem.Prelude.{
  ℕ, false, ◌&&◌, ◌||◌, List, [], ◌∷◌, map, ltb, leb, ◌==◌, nat_eq, if◌then◌else◌, length, keep,
}
use yggdrasil_ecosystem.Prelude.Text.{Text}
use yggdrasil_ecosystem.Prelude.Dict.{Dict, map_values}
use yggdrasil_ecosystem.Prelude.Floats.{Floats}
use yggdrasil_ecosystem.Xds.Traffic.Outlier.{
  EndpointStats, OutlierDetector, should_enforce, eject_all,
}

-- One round of recoverEndpoints.
abbrev pub recover_endpoint : ℕ → EndpointStats → EndpointStats
recover_endpoint now ep =
    if ep.ejected && ltb ep.ejection_time now then record ep { ejected = false } else ep

unfoldable pub recover_endpoints : ℕ → OutlierDetector → OutlierDetector
recover_endpoints now od = record od { endpoints = map_values (recover_endpoint now) od.endpoints }

-- One round of resetIntervalStats.
abbrev pub reset_endpoint : EndpointStats → EndpointStats
reset_endpoint ep = record ep {
  total_requests = 0;
  success_count = 0;
  failure_count = 0;
  local_failures = 0;
  gateway_failures = 0;
}

unfoldable pub reset_interval_stats : OutlierDetector → OutlierDetector
reset_interval_stats od = record od { endpoints = map_values reset_endpoint od.endpoints }

-- The entries are the snapshot of the map: a pointer with what it points to.
unfoldable pub endpoints_meeting_volume : ℕ → Dict Text EndpointStats → Dict Text EndpointStats
endpoints_meeting_volume minimum eps = keep (λ b. leb minimum b.1.total_requests) eps

module _ (F : Floats) where
  open F use {Float, from_ℕ, plus, minus, times, over, sqrt, lt, ge}

  unfoldable pub success_rate : EndpointStats → Float
  success_rate ep =
      if ep.total_requests == 0
      then from_ℕ 0
      else times (over (from_ℕ ep.success_count) (from_ℕ ep.total_requests)) (from_ℕ 100)

  unfoldable pub failure_percentage : EndpointStats → Float
  failure_percentage ep =
      if ep.total_requests == 0
      then from_ℕ 0
      else times (over (from_ℕ ep.failure_count) (from_ℕ ep.total_requests)) (from_ℕ 100)

  sum_rates : Float → Dict Text EndpointStats → Float
  sum_rates acc [] = acc
  sum_rates acc ((k, ep) ∷ eps) = sum_rates (plus acc (success_rate ep)) eps

  sum_squares : Float → Float → Dict Text EndpointStats → Float
  sum_squares mean acc [] = acc
  sum_squares mean acc ((k, ep) ∷ eps) =
      let diff = minus (success_rate ep) mean in sum_squares mean (plus acc (times diff diff)) eps

  success_rate_threshold : ℕ → Dict Text EndpointStats → Float
  unfolding sum_rates sum_squares
  success_rate_threshold factor valid =
      let n = from_ℕ (length valid) in
      let mean = over (sum_rates (from_ℕ 0) valid) n in
      let stddev = sqrt (over (sum_squares mean (from_ℕ 0) valid) n) in
      minus mean (times (over (from_ℕ factor) (from_ℕ 1000)) stddev)

  -- The addresses that detectSuccessRateOutliers ejects.
  unfoldable pub success_rate_candidates : OutlierDetector → Dict Text EndpointStats → List Text
  unfolding success_rate_threshold endpoints_meeting_volume should_enforce
  success_rate_candidates od snapshot =
      let valid = endpoints_meeting_volume od.config.success_rate_request_volume snapshot in
      let threshold = success_rate_threshold od.config.success_rate_stdev_factor valid in
      if od.config.enforcing_success_rate == 0
      then []
      else if ltb (length valid) od.config.success_rate_minimum_hosts
      then []
      else map (λ b. b.0)
          (keep
            (λ b.
              lt (success_rate b.1) threshold && should_enforce od.config.enforcing_success_rate)
            valid)

  unfoldable pub detect_success_rate_outliers : ℕ → OutlierDetector → OutlierDetector
  detect_success_rate_outliers now od = eject_all (success_rate_candidates od od.endpoints) now od

  -- The addresses that detectFailurePercentageOutliers ejects.
  unfoldable pub failure_percentage_candidates :
      OutlierDetector → Dict Text EndpointStats → List Text
  unfolding endpoints_meeting_volume should_enforce
  failure_percentage_candidates od snapshot =
      let valid = endpoints_meeting_volume od.config.failure_percentage_request_volume snapshot in
      let threshold = from_ℕ od.config.failure_percentage_threshold in
      if od.config.enforcing_failure_percentage == 0 || od.config.failure_percentage_threshold == 0
      then []
      else if ltb (length valid) od.config.failure_percentage_minimum_hosts
      then []
      else map (λ b. b.0)
          (keep
            (λ b.
              ge (failure_percentage b.1) threshold
              && should_enforce od.config.enforcing_failure_percentage)
            valid)

  unfoldable pub detect_failure_percentage_outliers : ℕ → OutlierDetector → OutlierDetector
  detect_failure_percentage_outliers now od =
      eject_all (failure_percentage_candidates od od.endpoints) now od

  -- performHealthSweep at `now`, with the clock at `later` when it ejects.
  unfoldable pub perform_health_sweep : ℕ → ℕ → OutlierDetector → OutlierDetector
  perform_health_sweep now later od =
      let recovered = recover_endpoints now od in
      let by_rate = detect_success_rate_outliers later recovered in
      let by_percentage = detect_failure_percentage_outliers later by_rate in
      reset_interval_stats by_percentage
