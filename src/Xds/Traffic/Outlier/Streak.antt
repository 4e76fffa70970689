-- ===== src/Xds/Traffic/Outlier/Streak.antt =====
-- Consecutive server errors eject an endpoint.
use yggdrasil_ecosystem.Prelude.{
  ℕ, ◌+◌, ◌≤◌, ◌<◌, ◌≡◌, ◌≢◌, refl, sym, subst, ◌∙◌, ◌⊎◌, inl, inr, Bool, true, some, List, [], ◌∷◌,
  map, arith, length, All, is_some, u32, u32_mod,
}
use yggdrasil_ecosystem.Prelude.Text.{Text, text_eq, text_beq_iff}
use yggdrasil_ecosystem.Prelude.Dict.{lookup, lookup-modify, length-modify, count_values-modify_at}
use yggdrasil_ecosystem.Xds.Resource.Model.{OutlierDetectionConfig}
use yggdrasil_ecosystem.Xds.Traffic.Outlier.{
  EndpointStats, OutlierDetector, Reason, eject_endpoint, eject_all, endpoint_stats,
  should_eject_consecutive, record_endpoint_result, record_result, report_result, is_ejected,
}
use yggdrasil_ecosystem.Xds.Traffic.Outlier.Eject.{
  HasRoom, present, streak, eject_all-keeps, eject_endpoint_effective,
}
use yggdrasil_ecosystem.Xds.Traffic.Outlier.Cap.{endpoint_stats-lookup, record-ejected}

endpoint_stats_eq :
    (key : Text) (od : OutlierDetector)
    → ((endpoint_stats key od).1.consecutive_5xx ≡ streak key od)
      × ((endpoint_stats key od).1.ejected ≡ is_ejected key od)
      × (present key od ≡ true → (endpoint_stats key od).0 ≡ od)
unfolding endpoint_stats is_ejected
endpoint_stats_eq key od = ground arith

-- What a failed request with a server error does to the statistics of its endpoint.
record_5xx_effect :
    (config : OutlierDetectionConfig) (failed : Bool) (status : ℕ) (ep : EndpointStats)
    → 500 ≤ status
    → status < 600
    → ((record_endpoint_result config failed status ep).0.consecutive_5xx
        ≡ u32 (ep.consecutive_5xx + 1))
      × (0 < config.consecutive_5xx
          → config.consecutive_5xx ≤ u32 (ep.consecutive_5xx + 1)
          → 0 < config.enforcing_consecutive_5xx
          → (record_endpoint_result config failed status ep).1 ≢ [])
unfolding record_endpoint_result should_eject_consecutive
record_5xx_effect config failed status ep lo hi = ground arith

-- `n` reports of server errors on an endpoint.
abbrev pub reports : Text → ℕ → List (Bool × ℕ) → OutlierDetector → OutlierDetector
reports key now [] od = od
reports key now ((failed, status) ∷ rs) od =
    reports key now rs (report_result key failed status now od)

abbrev pub IsServerError : Bool × ℕ → Type 0
IsServerError r = (500 ≤ r.1) × (r.1 < 600)

module _ (key : Text) (now : ℕ) (failed : Bool) (status : ℕ) (od : OutlierDetector) where
  pub record_result-lookup :
      lookup key (record_result key failed status od).0.endpoints
      ≡ some (record_endpoint_result od.config failed status (endpoint_stats key od).1).0
  unfolding record_result
  record_result-lookup = ground (
    arith,
    lookup-modify key key
        (λ _. (record_endpoint_result od.config failed status (endpoint_stats key od).1).0)
        (endpoint_stats key od).0.endpoints,
    endpoint_stats-lookup key od,
    text_beq_iff key key,
  )

  -- The report of a result on an endpoint that is ejected leaves it ejected.
  record_result-ejected : is_ejected key (record_result key failed status od).0 ≡ is_ejected key od
  unfolding is_ejected
  record_result-ejected = ground (
    arith,
    record_result-lookup,
    record-ejected od.config failed status (endpoint_stats key od).1,
    (endpoint_stats_eq key od).1,
  )

  record_result-room :
      present key od ≡ true → HasRoom od → HasRoom (record_result key failed status od).0
  unfolding record_result
  record_result-room p r = ground (
    arith,
    (endpoint_stats_eq key od).2 p,
    length-modify key (λ _. ep') od.endpoints,
    count_values-modify_at (λ ep. ep.ejected) key (λ _. ep') (endpoint_stats key od).1 od.endpoints
        (subst (λ (d : OutlierDetector). lookup key d.endpoints ≡ some (endpoint_stats key od).1)
          ((endpoint_stats_eq key od).2 p) (endpoint_stats-lookup key od))
        (record-ejected od.config failed status (endpoint_stats key od).1),
  )
    where
      ep' : EndpointStats
      ep' = (record_endpoint_result od.config failed status (endpoint_stats key od).1).0

eject_all_hits :
    (rs : List Reason) (key : Text) (now : ℕ) (od : OutlierDetector)
    → rs ≢ []
    → present key od ≡ true
    → HasRoom od
    → is_ejected key (eject_all (map (λ _. key) rs) now od) ≡ true
unfolding eject_all
eject_all_hits [] key now od n p r = absurd (n refl)
eject_all_hits (x ∷ rs) key now od n p r =
    eject_all-keeps (map (λ _. key) rs) key now (eject_endpoint key now od)
      (eject_endpoint_effective key now od p r)

report_result-keeps :
    (key : Text) (now : ℕ) (failed : Bool) (status : ℕ) (od : OutlierDetector)
    → is_ejected key od ≡ true
    → is_ejected key (report_result key failed status now od) ≡ true
unfolding report_result
report_result-keeps key now failed status od h =
    eject_all-keeps (map (λ _. key) (record_result key failed status od).1) key now
      (record_result key failed status od).0 (record_result-ejected key now failed status od ∙ h)

reports-keep :
    (key : Text) (now : ℕ) (rs : List (Bool × ℕ)) (od : OutlierDetector)
    → is_ejected key od ≡ true
    → is_ejected key (reports key now rs od) ≡ true
reports-keep key now [] od h = h
reports-keep key now ((failed, status) ∷ rs) od h =
    reports-keep key now rs (report_result key failed status now od)
      (report_result-keeps key now failed status od h)

-- The settings under which a streak of server errors ejects.
pub record IsEnforced (config : OutlierDetectionConfig) : Type 0 where
  pub threshold : 0 < config.consecutive_5xx
  pub enforced : 0 < config.enforcing_consecutive_5xx

record_result-config :
    (key : Text) (failed : Bool) (status : ℕ) (od : OutlierDetector)
    → (record_result key failed status od).0.config ≡ od.config
unfolding record_result endpoint_stats
record_result-config key failed status od = ground arith

pub record_result_reasons :
    (key : Text) (failed : Bool) (status : ℕ) (od : OutlierDetector)
    → (record_endpoint_result od.config failed status (endpoint_stats key od).1).1
      ≡ (record_result key failed status od).1
unfolding record_result
record_result_reasons key failed status od = refl

record_result-streak :
    (key : Text) (now : ℕ) (failed : Bool) (status : ℕ) (od : OutlierDetector)
    → IsServerError (failed, status)
    → streak key od + 1 < u32_mod
    → IsEnforced od.config
    → (streak key (record_result key failed status od).0 ≡ streak key od + 1)
      × (present key (record_result key failed status od).0 ≡ true)
      × (od.config.consecutive_5xx ≤ streak key od + 1
          → (record_result key failed status od).1 ≢ [])
record_result-streak key now failed status od e w f =
    let (lo, hi) = e in
    let (next, reasons) =
      record_5xx_effect od.config failed status (endpoint_stats key od).1 lo hi in
    let found = record_result-lookup key now failed status od in
    let (same, _, _) = endpoint_stats_eq key od in
    let record_result-reasons = record_result_reasons key failed status od in
    (
      ground (arith, next, found, same),
      ground (arith, found),
      λ h q. reasons f.threshold (ground (arith, same)) f.enforced (record_result-reasons ∙ q),
    )

le_or_lt : (m n : ℕ) → (m ≤ n) ⊎ (n < m)
le_or_lt m n = ground arith

-- What one report does to the streak, and whether it ejects.
abbrev Progress : Text → OutlierDetector → OutlierDetector → Type 0
Progress key od od' =
    (is_ejected key od' ≡ true)
    ⊎ ((streak key od + 1 < od.config.consecutive_5xx)
        × (streak key od' ≡ streak key od + 1)
        × (present key od' ≡ true)
        × HasRoom od'
        × (od'.config ≡ od.config))

report-Progress :
    (key : Text) (now : ℕ) (failed : Bool) (status : ℕ) (od : OutlierDetector) (rs : List Reason)
    → (record_result key failed status od).1 ≡ rs
    → IsServerError (failed, status)
    → present key od ≡ true
    → HasRoom od
    → streak key od + 1 < u32_mod
    → IsEnforced od.config
    → Progress key od (report_result key failed status now od)
unfolding report_result eject_all
report-Progress key now failed status od [] none_left e p r w f =
    let (next, here, due) = record_result-streak key now failed status od e w f in
    rw none_left (
      inr (
        elim (le_or_lt od.config.consecutive_5xx (streak key od + 1)) [
          | inl h ↦ absurd (due h none_left)
          | inr h ↦ h
        ],
        next,
        here,
        record_result-room key now failed status od p r,
        record_result-config key failed status od,
      ))
report-Progress key now failed status od (x ∷ xs) some_left e p r w f =
    let (next, here, due) = record_result-streak key now failed status od e w f in
    inl (
      eject_all_hits (record_result key failed status od).1 key now
        (record_result key failed status od).0 (λ q. cc) here
        (record_result-room key now failed status od p r))

-- A known endpoint with room to eject it is ejected by reports of server errors, as soon as they
-- bring its streak to the threshold, and the reports after that keep it so. The threshold is
-- positive and enforced, and the streak starts below it and does not reach 2 ^ 32.
pub reports_eject :
    (key : Text) (now : ℕ) (rs : List (Bool × ℕ)) (od : OutlierDetector)
    → is_some (lookup key od.endpoints) ≡ true
    → HasRoom od
    → IsEnforced od.config
    → All IsServerError rs
    → streak key od < od.config.consecutive_5xx
    → od.config.consecutive_5xx ≤ streak key od + length rs
    → streak key od + length rs < u32_mod
    → is_ejected key (reports key now rs od) ≡ true
reports_eject key now [] od p r f e below reached w = absurd (omega arith)
reports_eject key now ((failed, status) ∷ rs) od p r f e below reached w =
    elim (report-Progress key now failed status od (record_result key failed status od).1 refl e.0 p
      r (omega arith) f) [
        | inl h ↦ reports-keep key now rs (report_result key failed status now od) h
        | inr (early, next, here, room, same) ↦
            reports_eject key now rs (report_result key failed status now od) here room
              (subst IsEnforced (sym same) f) e.1 (ground arith) (ground arith) (ground arith)
      ]
