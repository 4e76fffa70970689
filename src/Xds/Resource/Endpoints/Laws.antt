-- ===== src/Xds/Resource/Endpoints/Laws.antt =====
-- The weights and the health that decoded endpoints have.
use native.Mathlib.Nat.{add-mul}
use yggdrasil_ecosystem.Prelude.{
  ℕ, zero, suc, ◌+◌, ◌*◌, ◌<◌, ◌≡◌, ◌≢◌, refl, ap, false, ◌∙◌, Option, none, some, List, [], ◌∷◌,
  ◌++◌, map, arith, ◌==◌, nat_eq, if◌then◌else◌, sum_of, All, u32_mod,
}
use yggdrasil_ecosystem.Prelude.Text.{Text, text_eq, text_beq, text_beq_iff, codes}
use yggdrasil_ecosystem.Prelude.Dict.{lookup, insert}
use yggdrasil_ecosystem.Xds.Resource.Model.{WeightedEndpoint}
use yggdrasil_ecosystem.Xds.Resource.Envoy.{Locality, LbEndpoint, LocalityLbEndpoints}
use yggdrasil_ecosystem.Xds.Resource.Endpoints.{
  endpoint_health_status, parse_endpoint_metadata, weight_or_one, parse_lb_endpoint, parse_locality,
  parse_localities,
}
use yggdrasil_ecosystem.Xds.Traffic.Health.{
  HealthStatus, unknown, healthy, unhealthy, draining, timeout, degraded, to_text,
}

-- The numbers of envoy.config.core.v3.HealthStatus.
abbrev pub envoy_number : HealthStatus → ℕ
envoy_number unknown = 0
envoy_number healthy = 1
envoy_number unhealthy = 2
envoy_number draining = 3
envoy_number timeout = 4
envoy_number degraded = 5

differ : (s t : Text) → text_beq s t ≡ false → s ≢ t
differ s t apart e = ground (arith, apart, text_beq_iff s t, e)

-- No health status of Envoy's enum is decoded to its own name: HEALTHY becomes UNHEALTHY, and UNKNOWN,
-- which stands for an endpoint without a health check, becomes HEALTHY.
pub endpoint_health_status_shifted :
    (h : HealthStatus) → endpoint_health_status (envoy_number h) ≢ to_text h
unfolding endpoint_health_status to_text text_beq
endpoint_health_status_shifted unknown e = differ _ _ refl e
endpoint_health_status_shifted healthy e = differ _ _ refl e
endpoint_health_status_shifted unhealthy e = differ _ _ refl e
endpoint_health_status_shifted draining e = differ _ _ refl e
endpoint_health_status_shifted timeout e = differ _ _ refl e
endpoint_health_status_shifted degraded e = differ _ _ refl e

-- What a weight counts for: a missing weight and a weight of 0 count as 1.
abbrev pub counted : Option ℕ → ℕ
counted none = 1
counted (some zero) = 1
counted (some (suc n)) = suc n

weight_or_one-counted : (weight : Option ℕ) → weight_or_one weight ≡ counted weight
unfolding weight_or_one
weight_or_one-counted none = refl
weight_or_one-counted (some zero) = refl
weight_or_one-counted (some (suc n)) = ground arith

-- The weights of a locality's endpoints, each times the locality's weight.
abbrev pub locality_weight : LocalityLbEndpoints → ℕ
locality_weight l =
    sum_of (λ e. counted e.load_balancing_weight) l.lb_endpoints * counted l.load_balancing_weight

-- No endpoint's product of weights reaches 2^32.
unfoldable pub IsUnwrapped : LocalityLbEndpoints → Type 0
IsUnwrapped l =
    All
      (λ (e : LbEndpoint).
        counted e.load_balancing_weight * counted l.load_balancing_weight < u32_mod)
      l.lb_endpoints

abbrev pub weight_of : WeightedEndpoint → ℕ
weight_of e = e.weight

sum_of-append :
    (xs ys : List WeightedEndpoint)
    → sum_of weight_of (xs ++ ys) ≡ sum_of weight_of xs + sum_of weight_of ys
sum_of-append [] ys = omega arith
sum_of-append (x ∷ xs) ys = omega (arith, sum_of-append xs ys)

sum_of-parse_lb_endpoint :
    (cluster : Text) (locality : Option Locality) (priority w : ℕ) (es : List LbEndpoint)
    → All (λ (e : LbEndpoint). counted e.load_balancing_weight * w < u32_mod) es
    → sum_of weight_of (map (parse_lb_endpoint cluster locality priority w) es)
      ≡ sum_of (λ e. counted e.load_balancing_weight) es * w
unfolding parse_lb_endpoint
sum_of-parse_lb_endpoint cluster locality priority w [] ok = omega arith
sum_of-parse_lb_endpoint cluster locality priority w (e ∷ es) (ok, oks) =
    rw (weight_or_one-counted e.load_balancing_weight) (
      omega (
        arith,
        sum_of-parse_lb_endpoint cluster locality priority w es oks,
        add-mul (counted e.load_balancing_weight)
            (sum_of (λ (x : LbEndpoint). counted x.load_balancing_weight) es) w,
      ))

sum_of-parse_locality :
    (cluster : Text) (l : LocalityLbEndpoints)
    → IsUnwrapped l
    → sum_of weight_of (parse_locality cluster l) ≡ locality_weight l
unfolding parse_locality IsUnwrapped
sum_of-parse_locality cluster l ok =
    ap
      (λ w.
        sum_of weight_of (map (parse_lb_endpoint cluster l.locality l.priority w) l.lb_endpoints))
      (weight_or_one-counted l.load_balancing_weight)
    ∙ sum_of-parse_lb_endpoint cluster l.locality l.priority (counted l.load_balancing_weight)
        l.lb_endpoints ok

-- Where no endpoint's weight times its locality's weight reaches 2^32, the weights of the decoded
-- endpoints add up to the localities' weights, each times the sum of the weights in it, a missing or
-- zero weight counting as 1.
pub sum_of-parse_localities :
    (cluster : Text) (ls : List LocalityLbEndpoints)
    → All IsUnwrapped ls
    → sum_of weight_of (parse_localities cluster ls) ≡ sum_of locality_weight ls
unfolding parse_localities
sum_of-parse_localities cluster [] ok = refl
sum_of-parse_localities cluster (l ∷ ls) (ok, oks) =
    sum_of-append (parse_locality cluster l) (parse_localities cluster ls)
    ∙ omega (arith, sum_of-parse_locality cluster l ok, sum_of-parse_localities cluster ls oks)

-- A decoded endpoint's metadata has its health under its key, and a name of its locality under the
-- locality's keys exactly where it is not empty.
pub lookup-parse_endpoint_metadata :
    (l : Locality) (status : ℕ)
    → (lookup (codes "health") (parse_endpoint_metadata (some l) status)
        ≡ some (endpoint_health_status status))
      × (lookup (codes "region") (parse_endpoint_metadata (some l) status)
          ≡ (if l.region == [] then none else some l.region))
      × (lookup (codes "zone") (parse_endpoint_metadata (some l) status)
          ≡ (if l.zone == [] then none else some l.zone))
      × (lookup (codes "sub_zone") (parse_endpoint_metadata (some l) status)
          ≡ (if l.sub_zone == [] then none else some l.sub_zone))
unfolding parse_endpoint_metadata lookup insert text_beq
lookup-parse_endpoint_metadata l status = ground arith
