-- ===== src/Xds/Traffic/Outlier.antt =====
-- modules/xds/traffic/outlier_detector.go and outlier_analysis.go. The map's pointers to statistics
-- are the keys of `endpoints`; each call runs under its locks as one step. Times are nanoseconds of
-- the clock and arguments. float64(total) * float64(percent) / 100.0 rounds down to the quotient of
-- the integers for every product below 2 ^ 46. The log is left out.
pub mod Sweep
pub mod Cap
pub mod Eject
pub mod Streak
pub mod Laws
mod Tests
use mathlib.Core.List.{map}
use yggdrasil_ecosystem.Prelude.{
  ℕ, ◌+◌, ◌-◌, ◌*◌, ◌/◌, ◌%◌, ◌^◌, Bool, true, false, not, ◌&&◌, ◌||◌, Option, none, some, List, [],
  ◌∷◌, ◌++◌, ltb, leb, ◌==◌, nat_eq, if◌then◌else◌, u32, u64, u64_mod, length, second,
}
use yggdrasil_ecosystem.Prelude.Text.{Text, text_eq}
use yggdrasil_ecosystem.Prelude.Dict.{Dict, lookup, insert, modify, map_values, count_values}
use yggdrasil_ecosystem.Xds.Resource.Model.{OutlierDetectionConfig}

abbrev pub default_config : OutlierDetectionConfig
default_config = record {
  consecutive_5xx = 5;
  consecutive_gateway_failure = 5;
  consecutive_local_origin_failure = 5;
  interval = 10 * second;
  base_ejection_time = 30 * second;
  max_ejection_time = 300 * second;
  max_ejection_percent = 10;
  enforcing_consecutive_5xx = 100;
  enforcing_success_rate = 100;
  success_rate_minimum_hosts = 5;
  success_rate_request_volume = 100;
  success_rate_stdev_factor = 1900;
  failure_percentage_threshold = 85;
  enforcing_failure_percentage = 0;
  failure_percentage_minimum_hosts = 5;
  failure_percentage_request_volume = 50;
  split_external_local_origin_errors = false;
}

pub record EndpointStats : Type 0 where
  pub address : Text
  pub total_requests : ℕ
  pub success_count : ℕ
  pub failure_count : ℕ
  pub local_failures : ℕ
  pub gateway_failures : ℕ
  pub consecutive_5xx : ℕ
  pub consecutive_gateway_failure : ℕ
  pub consecutive_local_failure : ℕ
  pub ejected : Bool
  pub ejection_time : ℕ
  pub ejection_count : ℕ

abbrev pub new_stats : Text → EndpointStats
new_stats endpoint = record {
  address = endpoint;
  total_requests = 0;
  success_count = 0;
  failure_count = 0;
  local_failures = 0;
  gateway_failures = 0;
  consecutive_5xx = 0;
  consecutive_gateway_failure = 0;
  consecutive_local_failure = 0;
  ejected = false;
  ejection_time = 0;
  ejection_count = 0;
}

pub record OutlierDetector : Type 0 where
  pub config : OutlierDetectionConfig
  pub endpoints : Dict Text EndpointStats
  pub total_ejections : ℕ
  -- Whether the goroutine of Start sweeps.
  pub sweeping : Bool

abbrev fresh : OutlierDetectionConfig → OutlierDetector
fresh config = record { config = config; endpoints = []; total_ejections = 0; sweeping = false }

unfoldable pub new_outlier_detector : Option OutlierDetectionConfig → OutlierDetector
new_outlier_detector none = fresh default_config
new_outlier_detector (some config) = fresh config

unfoldable pub start : OutlierDetector → OutlierDetector
start od = if od.config.interval == 0 then od else record od { sweeping = true }

unfoldable pub stop : OutlierDetector → OutlierDetector
stop od = record od { sweeping = false }

unfoldable pub should_enforce : ℕ → Bool
should_enforce percentage =
    if percentage == 0 then false else if leb 100 percentage then true else true

unfoldable pub should_eject_consecutive : ℕ → ℕ → ℕ → Bool
unfolding should_enforce
should_eject_consecutive current threshold enforcement =
    ltb 0 threshold && leb threshold current && should_enforce enforcement

abbrev pub ejected_count : Dict Text EndpointStats → ℕ
ejected_count eps = count_values (λ ep. ep.ejected) eps

abbrev pub max_ejected : OutlierDetector → ℕ
max_ejected od = (length od.endpoints * od.config.max_ejection_percent) / 100

-- A negative int64, as its bit pattern.
abbrev is_negative : ℕ → Bool
is_negative d = leb (2 ^ 63) d

-- BaseEjectionTime * time.Duration(count), an int64 product, capped by a signed comparison.
abbrev pub ejection_duration : OutlierDetectionConfig → ℕ → ℕ
ejection_duration config n =
    let product = u64 (config.base_ejection_time * n) in
    if not (is_negative product) && ltb config.max_ejection_time product
    then config.max_ejection_time
    else product

-- Time.Add with an int64 duration.
abbrev pub time_add : ℕ → ℕ → ℕ
time_add now d = if is_negative d then now - (u64_mod - d) else now + d

abbrev pub eject : OutlierDetectionConfig → ℕ → EndpointStats → EndpointStats
eject config now ep = record ep {
  ejected = true;
  ejection_count = u32 (ep.ejection_count + 1);
  ejection_time = time_add now (ejection_duration config (u32 (ep.ejection_count + 1)));
}

-- ejectEndpoint after its test of `ep.ejected`.
eject_below_cap : Text → ℕ → OutlierDetector → OutlierDetector
eject_below_cap key now od =
    if leb (max_ejected od) (ejected_count od.endpoints) && ltb 0 (max_ejected od)
    then od
    else record od {
      endpoints = modify key (eject od.config now) od.endpoints;
      total_ejections = u64 (od.total_ejections + 1);
    }

-- ejectEndpoint on the statistics stored at a key.
unfoldable pub eject_endpoint : Text → ℕ → OutlierDetector → OutlierDetector
unfolding eject_below_cap
eject_endpoint key now od = elim (lookup key od.endpoints) [
  | none ↦ od
  | some ep ↦ if ep.ejected then od else eject_below_cap key now od
]

-- The loops that eject each of a list.
unfoldable pub eject_all : List Text → ℕ → OutlierDetector → OutlierDetector
eject_all [] now od = od
eject_all (key ∷ keys) now od = eject_all keys now (eject_endpoint key now od)

unfoldable pub endpoint_stats : Text → OutlierDetector → OutlierDetector × EndpointStats
endpoint_stats endpoint od = elim (lookup endpoint od.endpoints) [
  | some ep ↦ (od, ep)
  | none ↦ (
    record od { endpoints = insert endpoint (new_stats endpoint) od.endpoints },
    new_stats endpoint,
  )
]

pub data Reason : Type 0 where
  five_xx gateway_failure local_failure : Reason

-- One of the three blocks of recordEndpointResultLocked, on a failed request: the statistics after
-- it and the reasons that it adds.
record_5xx : OutlierDetectionConfig → ℕ → EndpointStats → EndpointStats × List Reason
record_5xx config status ep =
    let n = u32 (ep.consecutive_5xx + 1) in
    if leb 500 status && ltb status 600
    then (
      record ep { consecutive_5xx = n },
      (if should_eject_consecutive n config.consecutive_5xx config.enforcing_consecutive_5xx
          then five_xx ∷ []
          else []),
    )
    else (ep, [])

record_gateway : OutlierDetectionConfig → ℕ → EndpointStats → EndpointStats × List Reason
record_gateway config status ep =
    let n = u32 (ep.consecutive_gateway_failure + 1) in
    if status == 502 || (status == 503 || status == 504)
    then (
      record ep {
        gateway_failures = u64 (ep.gateway_failures + 1);
        consecutive_gateway_failure = n;
      },
      (if should_eject_consecutive n config.consecutive_gateway_failure
            config.enforcing_consecutive_5xx
          then gateway_failure ∷ []
          else []),
    )
    else (ep, [])

record_local : OutlierDetectionConfig → Bool → EndpointStats → EndpointStats × List Reason
record_local config failed ep =
    let n = u32 (ep.consecutive_local_failure + 1) in
    if failed
    then (
      record ep { local_failures = u64 (ep.local_failures + 1); consecutive_local_failure = n },
      (if should_eject_consecutive n config.consecutive_local_origin_failure
            config.enforcing_consecutive_5xx
          then local_failure ∷ []
          else []),
    )
    else (ep, [])

record_failure : OutlierDetectionConfig → Bool → ℕ → EndpointStats → EndpointStats × List Reason
unfolding record_5xx record_gateway record_local
record_failure config failed status ep =
    let (ep₁, rs₁) = record_5xx config status ep in
    let (ep₂, rs₂) = record_gateway config status ep₁ in
    let (ep₃, rs₃) = record_local config failed ep₂ in (ep₃, rs₁ ++ (rs₂ ++ rs₃))

-- recordEndpointResultLocked: `failed` says whether the error is not nil.
unfoldable pub record_endpoint_result :
    OutlierDetectionConfig → Bool → ℕ → EndpointStats → EndpointStats × List Reason
unfolding record_failure
record_endpoint_result config failed status ep =
    if not failed && (leb 200 status && ltb status 500)
    then (
      record ep {
        total_requests = u64 (ep.total_requests + 1);
        success_count = u64 (ep.success_count + 1);
        consecutive_5xx = 0;
        consecutive_gateway_failure = 0;
        consecutive_local_failure = 0;
      },
      [],
    )
    else record_failure config failed status (record ep {
      total_requests = u64 (ep.total_requests + 1);
      failure_count = u64 (ep.failure_count + 1);
    })

-- The part of ReportResult up to its loop: the statistics are looked up or made, and updated.
unfoldable pub record_result : Text → Bool → ℕ → OutlierDetector → OutlierDetector × List Reason
record_result endpoint failed status od =
    let (od', ep) = endpoint_stats endpoint od in
    let (ep', reasons) = record_endpoint_result od.config failed status ep in
    (record od' { endpoints = modify endpoint (λ _. ep') od'.endpoints }, reasons)

unfoldable pub report_result : Text → Bool → ℕ → ℕ → OutlierDetector → OutlierDetector
report_result endpoint failed status now od =
    let (od', reasons) = record_result endpoint failed status od in
    eject_all (map (λ _. endpoint) reasons) now od'

unfoldable pub is_ejected : Text → OutlierDetector → Bool
is_ejected endpoint od = elim (lookup endpoint od.endpoints) [ none ↦ false | some ep ↦ ep.ejected ]

pub record OutlierStats : Type 0 where
  pub total_endpoints : ℕ
  pub ejected_count : ℕ
  pub total_ejections : ℕ

unfoldable pub get_stats : OutlierDetector → OutlierStats
get_stats od = record {
  total_endpoints = length od.endpoints;
  ejected_count = ejected_count od.endpoints;
  total_ejections = od.total_ejections;
}
