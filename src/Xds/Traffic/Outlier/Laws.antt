-- ===== src/Xds/Traffic/Outlier/Laws.antt =====
-- How an endpoint comes back, and what a success and an ejection write.
use yggdrasil_ecosystem.Prelude.{
  ℕ, sym, ◌*◌, ◌^◌, ◌≤◌, ◌<◌, ◌≡◌, refl, ◌∙◌, Bool, false, not, ◌&&◌, none, some, [], arith, ltb,
}
use yggdrasil_ecosystem.Prelude.Text.{Text, text_eq, text_beq_iff}
use yggdrasil_ecosystem.Prelude.Dict.{lookup, lookup-modify, lookup-map_values, lookup-insert}
use yggdrasil_ecosystem.Prelude.Floats.{Floats}
use yggdrasil_ecosystem.Xds.Resource.Model.{OutlierDetectionConfig}
use yggdrasil_ecosystem.Xds.Traffic.Outlier.{
  EndpointStats, OutlierDetector, new_stats, ejection_duration, eject_all, endpoint_stats,
  record_endpoint_result, record_result, report_result, is_ejected,
}
use yggdrasil_ecosystem.Xds.Traffic.Outlier.Sweep.{
  recover_endpoint, recover_endpoints, reset_endpoint, reset_interval_stats,
  detect_success_rate_outliers, detect_failure_percentage_outliers, perform_health_sweep,
  success_rate_candidates, failure_percentage_candidates,
}
use yggdrasil_ecosystem.Xds.Traffic.Outlier.Cap.{endpoint_stats-lookup, record-ejected}
use yggdrasil_ecosystem.Xds.Traffic.Outlier.Streak.{record_result_reasons, record_result-lookup}

abbrev pub ejected_until : Text → OutlierDetector → ℕ
ejected_until key od = elim (lookup key od.endpoints) [ none ↦ 0 | some ep ↦ ep.ejection_time ]

-- After a recovery an endpoint is ejected exactly when it was before and its time is not over.
pub is_ejected-recover :
    (key : Text) (now : ℕ) (od : OutlierDetector)
    → is_ejected key (recover_endpoints now od)
      ≡ (is_ejected key od && not (ltb (ejected_until key od) now))
unfolding recover_endpoints is_ejected
is_ejected-recover key now od =
    ground (arith, lookup-map_values (recover_endpoint now) key od.endpoints)

is_ejected-reset :
    (key : Text) (od : OutlierDetector)
    → is_ejected key (reset_interval_stats od) ≡ is_ejected key od
unfolding reset_interval_stats is_ejected
is_ejected-reset key od = ground (arith, lookup-map_values reset_endpoint key od.endpoints)

success_rate_off :
    (F : Floats) (now : ℕ) (od : OutlierDetector)
    → od.config.enforcing_success_rate ≡ 0
    → detect_success_rate_outliers F now od ≡ od
unfolding detect_success_rate_outliers success_rate_candidates eject_all
success_rate_off F now od s = rw none_found
  where
    none_found : success_rate_candidates F od od.endpoints ≡ []
    none_found = ground arith

failure_percentage_off :
    (F : Floats) (now : ℕ) (od : OutlierDetector)
    → od.config.enforcing_failure_percentage ≡ 0
    → detect_failure_percentage_outliers F now od ≡ od
unfolding detect_failure_percentage_outliers failure_percentage_candidates eject_all
failure_percentage_off F now od s = rw none_found
  where
    none_found : failure_percentage_candidates F od od.endpoints ≡ []
    none_found = ground arith

recovered_config :
    (now : ℕ) (od : OutlierDetector) (f : OutlierDetectionConfig → ℕ)
    → f (recover_endpoints now od).config ≡ f od.config
unfolding recover_endpoints
recovered_config now od f = refl

-- With both analyses switched off a sweep ejects nothing: it only brings back those whose time is
-- over.
pub is_ejected-sweep_off :
    (F : Floats) (key : Text) (now later : ℕ) (od : OutlierDetector)
    → od.config.enforcing_success_rate ≡ 0
    → od.config.enforcing_failure_percentage ≡ 0
    → is_ejected key (perform_health_sweep F now later od)
      ≡ (is_ejected key od && not (ltb (ejected_until key od) now))
unfolding perform_health_sweep
is_ejected-sweep_off F key now later od s p =
    rw
      (
        success_rate_off F later (recover_endpoints now od)
            (recovered_config now od (λ c. c.enforcing_success_rate) ∙ s),
        failure_percentage_off F later (recover_endpoints now od)
            (recovered_config now od (λ c. c.enforcing_failure_percentage) ∙ p),
      )
      (is_ejected-reset key (recover_endpoints now od) ∙ is_ejected-recover key now od)

success_effect :
    (config : OutlierDetectionConfig) (status : ℕ) (ep : EndpointStats)
    → 200 ≤ status
    → status < 500
    → let r = record_endpoint_result config false status ep in
      (r.1 ≡ [])
      × (r.0.consecutive_5xx ≡ 0)
      × (r.0.consecutive_gateway_failure ≡ 0)
      × (r.0.consecutive_local_failure ≡ 0)
unfolding record_endpoint_result
success_effect config status ep lo hi = ground arith

-- Recording a result changes no endpoint's ejection.
record_result-is_ejected :
    (key j : Text) (failed : Bool) (status : ℕ) (od : OutlierDetector)
    → is_ejected j (record_result key failed status od).0 ≡ is_ejected j od
unfolding record_result is_ejected endpoint_stats
record_result-is_ejected key j failed status od = ground (
  arith,
  text_beq_iff key j,
  lookup-insert key j (new_stats key) od.endpoints,
  endpoint_stats-lookup key od,
  record-ejected od.config failed status (endpoint_stats key od).1,
  lookup-modify key j
      (λ _. (record_endpoint_result od.config failed status (endpoint_stats key od).1).0)
      (endpoint_stats key od).0.endpoints,
)

-- A successful response, with a status from 200 to 499, clears the three streaks of its endpoint
-- and ejects nobody.
pub report_success :
    (key j : Text) (status now : ℕ) (od : OutlierDetector)
    → 200 ≤ status
    → status < 500
    → (is_ejected j (report_result key false status now od) ≡ is_ejected j od)
      × ((ep : EndpointStats) × (lookup key (report_result key false status now od).endpoints
            ≡ some ep)
          × (ep.consecutive_5xx ≡ 0)
          × (ep.consecutive_gateway_failure ≡ 0)
          × (ep.consecutive_local_failure ≡ 0))
unfolding report_result eject_all
report_success key j status now od lo hi =
    let (no_reason, a, b, c) = success_effect od.config status (endpoint_stats key od).1 lo hi in
    let reasons = sym (record_result_reasons key false status od) ∙ no_reason in
    rw reasons (
      record_result-is_ejected key j false status od,
      (
        (record_endpoint_result od.config false status (endpoint_stats key od).1).0,
        record_result-lookup key now false status od,
        a,
        b,
        c,
      ),
    )

-- An ejection lasts the base time times the number of ejections, and at most the maximum, as long as
-- the int64 product does not overflow.
pub ejection_duration_capped :
    (config : OutlierDetectionConfig) (n : ℕ)
    → config.base_ejection_time * n < 2 ^ 63
    → (ejection_duration config n ≤ config.max_ejection_time)
      × (ejection_duration config n ≤ config.base_ejection_time * n)
ejection_duration_capped config n h = ground arith
