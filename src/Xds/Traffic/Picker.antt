-- ===== src/Xds/Traffic/Picker.antt =====
-- modules/xds/traffic/balancer_picker.go: the selection of a cluster and of an endpoint. A random
-- number is an argument of the call that draws it; the request's headers come from its metadata.
pub mod Weighted
pub mod Members
pub mod Picks
pub mod Select
pub mod Inflight
mod Tests
use yggdrasil_ecosystem.Prelude.{
  ℕ, zero, suc, ◌+◌, ◌-◌, ◌%◌, ◌^◌, Bool, true, false, not, ◌&&◌, ◌||◌, Option, none, some, List,
  [], ◌∷◌, ◌++◌, ltb, leb, ◌==◌, nat_eq, if◌then◌else◌, keep, get_elem?, length, u32, u32_mod,
  is_some,
}
use yggdrasil_ecosystem.Prelude.Text.{Text, text_eq, codes}
use yggdrasil_ecosystem.Prelude.Decimal.{decimal}
use yggdrasil_ecosystem.Prelude.Dict.{Dict, lookup, insert, modify}
use yggdrasil_ecosystem.Xds.Resource.Model.{
  WeightedEndpoint, WeightedCluster, WeightedClusters, RouteAction, ClusterPolicy,
}
use yggdrasil_ecosystem.Xds.Resource.Match.{match_route}
use yggdrasil_ecosystem.Xds.Traffic.Outlier.{OutlierDetector, is_ejected}
use yggdrasil_ecosystem.Xds.Traffic.Balancer.{XdsBalancer}

-- The loop over accumulated weights that selectWeightedCluster and selectRoundRobin share: the first
-- element whose accumulated weight, in uint32, passes the random number.
unfoldable pub weighted_from {ℓ} : {A : Type ℓ} → (A → ℕ) → ℕ → ℕ → List A → Option A
weighted_from weight random acc [] = none
weighted_from weight random acc (x ∷ xs) =
    let acc' = u32 (acc + weight x) in
    let rest = weighted_from weight random acc' xs in if ltb random acc' then some x else rest

abbrev pub head_name : List WeightedCluster → Text
head_name [] = []
head_name (c ∷ cs) = c.name

-- selectWeightedCluster, with b.rng.Uint32() drawn. Clusters[0] of an empty list, which panics in
-- the source, is not reached: its caller tests the length.
unfoldable pub select_weighted_cluster : ℕ → WeightedClusters → Text
select_weighted_cluster drawn w =
    if w.total_weight == 0
    then head_name w.clusters
    else elim (weighted_from (λ (c : WeightedCluster). c.weight) (drawn % w.total_weight) 0
        w.clusters) [ none ↦ head_name w.clusters | some c ↦ c.name ]

-- totalWeight of selectRoundRobin, in uint32.
unfoldable pub total_from : ℕ → List WeightedEndpoint → ℕ
total_from acc [] = acc
total_from acc (e ∷ es) = total_from (u32 (acc + e.weight)) es

abbrev pub head_of {ℓ} : {A : Type ℓ} → List A → Option A
head_of [] = none
head_of (x ∷ xs) = some x

unfoldable pub select_round_robin : ℕ → List WeightedEndpoint → Option WeightedEndpoint
unfolding total_from
select_round_robin drawn es =
    let total = total_from 0 es in
    if total == 0
    then head_of es
    else elim (weighted_from (λ (e : WeightedEndpoint). e.weight) (drawn % total) 0 es) [
      | none ↦ head_of es
      | some e ↦ some e
    ]

-- selectRandom: b.rng.Intn(n) draws below n.
unfoldable pub select_random : ℕ → List WeightedEndpoint → Option WeightedEndpoint
select_random drawn es = get_elem? es (drawn % length es)

-- fmt.Sprintf("%s:%d", address, port)
unfoldable pub endpoint_address : WeightedEndpoint → Text
endpoint_address e = e.endpoint.address ++ (b':' ∷ decimal e.endpoint.port)

-- a < b of int32 bit patterns.
abbrev pub int32_lt : ℕ → ℕ → Bool
int32_lt a b = ltb (u32 (a + 2 ^ 31)) (u32 (b + 2 ^ 31))

-- int32(-1)
abbrev pub minus_one : ℕ
minus_one = u32_mod - 1

abbrev pub counter_of : Dict Text ℕ → WeightedEndpoint → ℕ
counter_of counters e = elim (lookup (endpoint_address e) counters) [ none ↦ 0 | some n ↦ n ]

-- The loop of selectLeastRequest.
unfoldable pub least_from :
    Dict Text ℕ → ℕ → Option WeightedEndpoint → List WeightedEndpoint → Option WeightedEndpoint
least_from counters least selected [] = selected
least_from counters least selected (e ∷ es) =
    let n = counter_of counters e in
    let better = least == minus_one || int32_lt n least in
    least_from counters (if better then n else least) (if better then some e else selected) es

unfoldable pub select_least_request :
    Dict Text ℕ → List WeightedEndpoint → Option WeightedEndpoint × Dict Text ℕ
unfolding least_from
select_least_request counters es = elim (least_from counters minus_one none es) [
  | none ↦ (none, counters)
  | some e ↦ (some e, modify (endpoint_address e) (λ n. u32 (n + 1)) counters)
]

unfoldable pub filter_healthy_endpoints :
    Option OutlierDetector → List WeightedEndpoint → List WeightedEndpoint
filter_healthy_endpoints none es = es
filter_healthy_endpoints (some od) es = keep (λ e. not (is_ejected (endpoint_address e) od)) es

-- The loop over the priorities from `priority` on, `left` of them: the first group that is not empty.
unfoldable pub first_group : ℕ → ℕ → List WeightedEndpoint → List WeightedEndpoint
first_group zero priority es = []
first_group (suc left) priority es =
    let group = keep (λ e. e.priority == priority) es in
    let later = first_group left (priority + 1) es in
    elim group [ [] ↦ later | e ∷ rest ↦ e ∷ rest ]

-- The priorities 0 to 10.
abbrev pub priorities : ℕ
priorities = 11

-- The switch over the policy of selectEndpoint.
unfoldable pub select_by_policy :
    Text → ℕ → Dict Text ℕ → List WeightedEndpoint → Option WeightedEndpoint × Dict Text ℕ
select_by_policy policy drawn counters group =
    if policy == codes "random"
    then (select_random drawn group, counters)
    else if policy == codes "least_request"
    then select_least_request counters group
    else (select_round_robin drawn group, counters)

-- The object that a map points to, with its address.
abbrev pub object {ℓ} : {O : Type ℓ} → Dict Text ℕ → Dict ℕ O → Text → Option (ℕ × O)
object m s cluster = elim (lookup cluster m) [
  | none ↦ none
  | some a ↦ elim (lookup a s) [ none ↦ none | some o ↦ some (a, o) ]
]

module _ {Regexp : Type 0} where
  abbrev pub endpoints_of : XdsBalancer Regexp → Text → List WeightedEndpoint
  endpoints_of b cluster = elim (lookup cluster b.endpoints) [ none ↦ [] | some es ↦ es ]

  abbrev pub policy_of : XdsBalancer Regexp → Text → Text
  policy_of b cluster = elim (lookup cluster b.cluster_policies) [
    | none ↦ codes "round_robin"
    | some p ↦ p.lb_policy
  ]

  -- The detector of a cluster, read through its pointer.
  abbrev pub detector_of : XdsBalancer Regexp → Text → Option OutlierDetector
  detector_of b cluster = elim (object b.outlier_detectors b.store.detectors cluster) [
    | none ↦ none
    | some (a, od) ↦ some od
  ]

  -- selectEndpoint: the endpoint, and the counters after it.
  unfoldable pub select_endpoint :
      ℕ → XdsBalancer Regexp → Text → Option WeightedEndpoint × Dict Text ℕ
  select_endpoint drawn b cluster =
      let healthy = filter_healthy_endpoints (detector_of b cluster) (endpoints_of b cluster) in
      let group = first_group priorities 0 healthy in
      elim group [
        | [] ↦ (none, b.in_flight)
        | e ∷ es ↦ select_by_policy (policy_of b cluster) drawn b.in_flight (e ∷ es)
      ]

-- selectCluster, with the number that it may draw; the empty text stands for no cluster.
module _ (Regexp : Type 0) (match_string : Regexp → Text → Bool) where
  unfoldable pub select_cluster : ℕ → XdsBalancer Regexp → Text → Dict Text Text → Text
  select_cluster drawn b path headers =
      elim (match_route Regexp match_string b.vhosts path headers) [
        | none ↦ []
        | some action ↦ elim action.weighted_clusters [
          | none ↦ action.cluster
          | some w ↦ elim w.clusters [
            | [] ↦ action.cluster
            | c ∷ cs ↦ select_weighted_cluster drawn w
          ]
        ]
      ]
