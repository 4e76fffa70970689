-- ===== src/Xds/Traffic/Outlier/Tests.antt =====
-- The theorems on outlier detection (modules/xds/traffic/outlier_detector.go), at two endpoints.
use yggdrasil_ecosystem.Prelude.{ℕ, ◌≡◌, inr, refl, Bool, true, ltb, List, [], ◌∷◌, arith}
use yggdrasil_ecosystem.Prelude.Text.{Text, text_eq, text_beq, codes}
use yggdrasil_ecosystem.Prelude.Dict.{lookup}
use yggdrasil_ecosystem.Prelude.Floats.{Floats}
use yggdrasil_ecosystem.Xds.Resource.Model.{OutlierDetectionConfig}
use yggdrasil_ecosystem.Xds.Traffic.Outlier.{
  OutlierDetector, default_config, new_stats, report_result, is_ejected,
}
use yggdrasil_ecosystem.Xds.Traffic.Outlier.Sweep.{perform_health_sweep}
use yggdrasil_ecosystem.Xds.Traffic.Outlier.Cap.{
  WithinCap, report_result-WithinCap, perform_health_sweep-WithinCap,
}
use yggdrasil_ecosystem.Xds.Traffic.Outlier.Streak.{reports, reports_eject}

abbrev one : Text
one = codes "a:1"

abbrev two : Text
two = codes "b:1"

-- Half of the endpoints may be ejected, after two server errors in a row.
abbrev half : OutlierDetectionConfig
half = record default_config {
  consecutive_5xx = 2;
  max_ejection_percent = 50;
  enforcing_success_rate = 0;
}

-- Two endpoints, the first of them ejected until 70.
abbrev pair : OutlierDetector
pair = record {
  config = half;
  endpoints =
      (one, record (new_stats one) { ejected = true; ejection_time = 70 })
      ∷ (two, new_stats two)
      ∷ [];
  total_ejections = 1;
  sweeping = true;
}

-- The same with nobody ejected.
abbrev sound_pair : OutlierDetector
sound_pair = record pair { endpoints = (one, new_stats one) ∷ (two, new_stats two) ∷ [] }

-- Natural numbers in the place of floating-point ones.
abbrev whole_numbers : Floats
whole_numbers = record {
  Float = ℕ;
  from_ℕ = λ n. n;
  plus = λ a b. a;
  minus = λ a b. a;
  times = λ a b. a;
  over = λ a b. a;
  sqrt = λ a. a;
  lt = λ a b. ltb a b;
  ge = λ a b. ltb b a;
}

pair-WithinCap : WithinCap pair
pair-WithinCap = (omega arith, omega arith)

report_result-WithinCap_example : WithinCap (report_result two true 500 3 pair)
report_result-WithinCap_example = report_result-WithinCap two true 500 3 pair pair-WithinCap

perform_health_sweep-WithinCap_example : WithinCap (perform_health_sweep whole_numbers 5 6 pair)
perform_health_sweep-WithinCap_example =
    perform_health_sweep-WithinCap whole_numbers 5 6 pair pair-WithinCap

abbrev two_errors : List (Bool × ℕ)
two_errors = (true, 500) ∷ (true, 503) ∷ []

reports_eject_example : is_ejected two (reports two 3 two_errors sound_pair) ≡ true
unfolding lookup text_beq
reports_eject_example =
    reports_eject two 3 two_errors sound_pair refl (inr (omega arith))
      (record { threshold = omega arith; enforced = omega arith })
      ((omega arith, omega arith), ((omega arith, omega arith), tt)) (omega arith) (omega arith)
      (omega arith)
