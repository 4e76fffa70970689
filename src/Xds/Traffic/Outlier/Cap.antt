-- ===== src/Xds/Traffic/Outlier/Cap.antt =====
-- The share of the endpoints that may be ejected at a time.
use yggdrasil_ecosystem.Prelude.{
  ℕ, ◌*◌, ◌/◌, ◌≤◌, ◌<◌, ◌≡◌, inl, inr, Bool, some, List, [], ◌∷◌, map, arith, length, Option-cases,
}
use yggdrasil_ecosystem.Prelude.Text.{Text, text_eq, text_beq_iff}
use yggdrasil_ecosystem.Prelude.Dict.{
  lookup, insert, lookup-insert, length-modify, length-map_values, length-insert_new,
  count_values-modify_le, count_values-modify_at, count_values-insert_new,
  count_values-map_values_le,
}
use yggdrasil_ecosystem.Prelude.Floats.{Floats}
use yggdrasil_ecosystem.Xds.Resource.Model.{OutlierDetectionConfig}
use yggdrasil_ecosystem.Xds.Traffic.Outlier.{
  EndpointStats, OutlierDetector, max_ejected, ejected_count, eject, eject_endpoint, eject_all,
  endpoint_stats, new_stats, record_endpoint_result, record_result, report_result,
}
use yggdrasil_ecosystem.Xds.Traffic.Outlier.Sweep.{
  recover_endpoints, recover_endpoint, reset_endpoint, reset_interval_stats,
  success_rate_candidates, failure_percentage_candidates, detect_success_rate_outliers,
  detect_failure_percentage_outliers, perform_health_sweep,
}

-- The share comes to at least one endpoint, and no more than the share are ejected.
abbrev pub WithinCap : OutlierDetector → Type 0
WithinCap od = (0 < max_ejected od) × (ejected_count od.endpoints ≤ max_ejected od)

-- `max_ejected` depends on no more than the number of endpoints and the share.
max_ejected_eq :
    (od od' : OutlierDetector)
    → length od'.endpoints ≡ length od.endpoints
    → od'.config ≡ od.config
    → max_ejected od' ≡ max_ejected od
max_ejected_eq od od' l c = ground arith

eject_endpoint-WithinCap :
    (key : Text) (now : ℕ) (od : OutlierDetector)
    → WithinCap od
    → WithinCap (eject_endpoint key now od)
unfolding eject_endpoint
eject_endpoint-WithinCap key now od w = ground (
  arith,
  length-modify key (eject od.config now) od.endpoints,
  count_values-modify_le (λ ep. ep.ejected) key (eject od.config now) od.endpoints,
)

eject_all-WithinCap :
    (keys : List Text) (now : ℕ) (od : OutlierDetector)
    → WithinCap od
    → WithinCap (eject_all keys now od)
unfolding eject_all
eject_all-WithinCap [] now od w = w
eject_all-WithinCap (key ∷ keys) now od w =
    eject_all-WithinCap keys now (eject_endpoint key now od) (eject_endpoint-WithinCap key now od w)

share_mono : (n m percent : ℕ) → n ≤ m → (n * percent) / 100 ≤ (m * percent) / 100
share_mono n m percent h = let product : n * percent ≤ m * percent = grind arith in omega arith

endpoint_stats-WithinCap :
    (endpoint : Text) (od : OutlierDetector)
    → WithinCap od
    → WithinCap (endpoint_stats endpoint od).0
unfolding endpoint_stats
endpoint_stats-WithinCap endpoint od w = elim (Option-cases (lookup endpoint od.endpoints)) [
  | inl new ↦
      rw (new, endpoint_stats)
        (ground (
          arith,
          share_mono (length od.endpoints)
              (length (insert endpoint (new_stats endpoint) od.endpoints))
              od.config.max_ejection_percent,
          length-insert_new endpoint (new_stats endpoint) od.endpoints,
          count_values-insert_new (λ ep. ep.ejected) endpoint (new_stats endpoint) od.endpoints,
        ))
  | inr (ep, old) ↦ rw (old, endpoint_stats) w
]

-- The statistics that a report works on are those stored for the endpoint.
pub endpoint_stats-lookup :
    (endpoint : Text) (od : OutlierDetector)
    → lookup endpoint (endpoint_stats endpoint od).0.endpoints ≡ some (endpoint_stats endpoint od).1
unfolding endpoint_stats
endpoint_stats-lookup endpoint od = ground (
  arith,
  lookup-insert endpoint endpoint (new_stats endpoint) od.endpoints,
  text_beq_iff endpoint endpoint,
)

pub record-ejected :
    (config : OutlierDetectionConfig) (failed : Bool) (status : ℕ) (ep : EndpointStats)
    → (record_endpoint_result config failed status ep).0.ejected ≡ ep.ejected
unfolding record_endpoint_result
record-ejected config failed status ep = ground arith

record_result-WithinCap :
    (endpoint : Text) (failed : Bool) (status : ℕ) (od : OutlierDetector)
    → WithinCap od
    → WithinCap (record_result endpoint failed status od).0
unfolding record_result
record_result-WithinCap endpoint failed status od w = ground (
  arith,
  endpoint_stats-WithinCap endpoint od w,
  length-modify endpoint (λ _. ep') od'.endpoints,
  count_values-modify_at (λ ep. ep.ejected) endpoint (λ _. ep') ep od'.endpoints
      (endpoint_stats-lookup endpoint od) (record-ejected od.config failed status ep),
)
  where
    od' : OutlierDetector
    od' = (endpoint_stats endpoint od).0

    ep : EndpointStats
    ep = (endpoint_stats endpoint od).1

    ep' : EndpointStats
    ep' = (record_endpoint_result od.config failed status ep).0

-- Where the share of endpoints that may be ejected comes to at least one and no more are ejected, a
-- reported result of any kind keeps it so.
pub report_result-WithinCap :
    (endpoint : Text) (failed : Bool) (status now : ℕ) (od : OutlierDetector)
    → WithinCap od
    → WithinCap (report_result endpoint failed status now od)
unfolding report_result
report_result-WithinCap endpoint failed status now od w =
    eject_all-WithinCap (map (λ _. endpoint) (record_result endpoint failed status od).1) now
      (record_result endpoint failed status od).0
      (record_result-WithinCap endpoint failed status od w)

recover-WithinCap :
    (now : ℕ) (od : OutlierDetector) → WithinCap od → WithinCap (recover_endpoints now od)
unfolding recover_endpoints
recover-WithinCap now od w = ground (
  arith,
  length-map_values (recover_endpoint now) od.endpoints,
  count_values-map_values_le (λ ep. ep.ejected) (recover_endpoint now) od.endpoints
      (λ ep h. ground arith),
)

reset-WithinCap : (od : OutlierDetector) → WithinCap od → WithinCap (reset_interval_stats od)
unfolding reset_interval_stats
reset-WithinCap od w = ground (
  arith,
  length-map_values reset_endpoint od.endpoints,
  count_values-map_values_le (λ ep. ep.ejected) reset_endpoint od.endpoints (λ ep h. h),
)

-- Where the share of endpoints that may be ejected comes to at least one and no more are ejected, a
-- health sweep keeps it so, whatever its floating-point analyses find.
pub perform_health_sweep-WithinCap :
    (F : Floats) (now later : ℕ) (od : OutlierDetector)
    → WithinCap od
    → WithinCap (perform_health_sweep F now later od)
unfolding perform_health_sweep detect_success_rate_outliers detect_failure_percentage_outliers
perform_health_sweep-WithinCap F now later od w =
    let recovered = recover_endpoints now od in
    let by_rate =
      eject_all (success_rate_candidates F recovered recovered.endpoints) later recovered in
    reset-WithinCap
      (eject_all (failure_percentage_candidates F by_rate by_rate.endpoints) later by_rate)
      (eject_all-WithinCap (failure_percentage_candidates F by_rate by_rate.endpoints) later by_rate
        (eject_all-WithinCap (success_rate_candidates F recovered recovered.endpoints) later
          recovered (recover-WithinCap now od w)))
