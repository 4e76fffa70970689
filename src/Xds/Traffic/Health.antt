-- ===== src/Xds/Traffic/Health.antt =====
-- HealthStatus of modules/xds/traffic/outlier_detector.go.
use yggdrasil_ecosystem.Prelude.{◌≡◌, refl, if◌then◌else◌, ◌==◌}
use yggdrasil_ecosystem.Prelude.Text.{Text, text_eq, text_beq, codes, to_lower, to_upper}

pub data HealthStatus : Type 0 where
  unknown healthy unhealthy draining timeout degraded : HealthStatus

unfoldable pub to_text : HealthStatus → Text
to_text healthy = codes "HEALTHY"
to_text unhealthy = codes "UNHEALTHY"
to_text draining = codes "DRAINING"
to_text timeout = codes "TIMEOUT"
to_text degraded = codes "DEGRADED"
to_text unknown = codes "UNKNOWN"

unfoldable pub parse_health_status : Text → HealthStatus
unfolding to_upper
parse_health_status s =
    let t = to_upper s in
    if t == codes "HEALTHY"
    then healthy
    else if t == codes "UNHEALTHY"
    then unhealthy
    else if t == codes "DRAINING"
    then draining
    else if t == codes "TIMEOUT"
    then timeout
    else if t == codes "DEGRADED"
    then degraded
    else unknown

-- Parsing the printed form of a health status gives it back, in upper and in lower case.
pub parse-to_text :
    (h : HealthStatus)
    → (parse_health_status (to_text h) ≡ h) × (parse_health_status (to_lower (to_text h)) ≡ h)
unfolding parse_health_status to_text text_beq to_lower
parse-to_text healthy = (refl, refl)
parse-to_text unhealthy = (refl, refl)
parse-to_text draining = (refl, refl)
parse-to_text timeout = (refl, refl)
parse-to_text degraded = (refl, refl)
parse-to_text unknown = (refl, refl)
