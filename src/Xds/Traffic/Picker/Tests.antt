-- ===== src/Xds/Traffic/Picker/Tests.antt =====
-- The picker's theorems at a balancer with one least_request cluster.
use mathlib.Core.List.{Memᴰ}
use mathlib.Core.List.Memᴰ
use yggdrasil_ecosystem.Prelude.{
  ℕ, ◌+◌, ◌^◌, ◌<◌, ◌≡◌, ◌≢◌, ◌⊎◌, inl, inr, refl, sym, subst, Bool, true, false, ◌==◌, nat_eq,
  some, none, List, [], ◌∷◌, arith, u32,
}
use yggdrasil_ecosystem.Prelude.Text.{Text, text_eq, text_beq, codes}
use yggdrasil_ecosystem.Prelude.Decimal.{decimal}
use yggdrasil_ecosystem.Prelude.Dict.{Dict, lookup, modify}
use yggdrasil_ecosystem.Xds.Resource.Model.{
  WeightedEndpoint, WeightedCluster, WeightedClusters, ClusterPolicy, CircuitBreakerConfig,
}
use yggdrasil_ecosystem.Xds.Traffic.Breaker.{CircuitBreaker, try_acquire}
use yggdrasil_ecosystem.Xds.Traffic.Breaker.Laws.{IsWithin}
use yggdrasil_ecosystem.Xds.Traffic.Balancer.{XdsBalancer}
use yggdrasil_ecosystem.Xds.Traffic.Picker.{
  weighted_from, select_weighted_cluster, select_round_robin, total_from, endpoint_address,
  counter_of, least_from, select_least_request, filter_healthy_endpoints, first_group,
  select_by_policy, policy_of, priorities, select_endpoint,
}
use yggdrasil_ecosystem.Xds.Traffic.Picker.Weighted.{
  tally, share, is_named, select_weighted_cluster-share,
}
use yggdrasil_ecosystem.Xds.Traffic.Picker.Select.{IsChoice, IsEmptyAt, select_endpoint-IsChoice}
use yggdrasil_ecosystem.Xds.Traffic.Picker.Inflight.{IsLeast, select_least_request-IsLeast}
use yggdrasil_ecosystem.Xds.Traffic.Call.{
  no_available_instance, circuit_breaker_open, PickResult, refused, picked, ready_client,
  take_token, take_slot, pick_endpoint, pick_in_cluster, report,
}
use yggdrasil_ecosystem.Xds.Traffic.Call.Slots.{
  HasSlots, breakers_of, pick_in_cluster_refused, report-pick_in_cluster,
}
use yggdrasil_ecosystem.Xds.Traffic.Call.Counters.{report-pick_endpoint_least}

abbrev cart : Text
cart = codes "cart"

abbrev first_endpoint : WeightedEndpoint
first_endpoint = record {
  cluster = cart;
  endpoint = record { address = codes "a"; port = 1 };
  weight = 3;
  priority = 0;
  metadata = [];
}

abbrev second_endpoint : WeightedEndpoint
second_endpoint = record first_endpoint {
  endpoint = record { address = codes "b"; port = 1 };
  weight = 1;
}

abbrev pair : List WeightedEndpoint
pair = first_endpoint ∷ second_endpoint ∷ []

-- One request is in flight on the first endpoint.
abbrev counters : Dict Text ℕ
counters = (codes "a:1", 1) ∷ (codes "b:1", 0) ∷ []

abbrev limits : CircuitBreakerConfig
limits = record { max_connections = 0; max_pending_requests = 0; max_requests = 2; max_retries = 0 }

abbrev breaker : CircuitBreaker
breaker = record {
  config = limits;
  active_connections = 0;
  pending_requests = 0;
  active_requests = 1;
  active_retries = 0;
  rejected_requests = 0;
  rejected_retries = 0;
}

abbrev policy : Text → ClusterPolicy
policy name = record {
  lb_policy = name;
  max_requests = 0;
  circuit_breaker = some limits;
  outlier_detection = none;
  rate_limiter = none;
}

-- Its clients are 7 and 8.
abbrev least_balancer : XdsBalancer Text
least_balancer = record {
  remotes_client = (codes "a:1", 7) ∷ (codes "b:1", 8) ∷ [];
  vhosts = [];
  cluster_policies = (cart, policy (codes "least_request")) ∷ [];
  endpoints = (cart, pair) ∷ [];
  circuit_breakers = (cart, 0) ∷ [];
  outlier_detectors = [];
  rate_limiters = [];
  in_flight = counters;
  store = record { breakers = (0, breaker) ∷ []; detectors = []; limiters = []; next = 1 };
}

abbrev robin_balancer : XdsBalancer Text
robin_balancer = record least_balancer {
  cluster_policies = (cart, policy (codes "round_robin")) ∷ [];
}

abbrev all_ready : ℕ → Bool
all_ready c = true

abbrev none_ready : ℕ → Bool
none_ready c = false

breaker-IsWithin : IsWithin breaker
breaker-IsWithin = ground arith

cart-HasSlots : HasSlots cart least_balancer
unfolding lookup text_beq
cart-HasSlots = inr (0, breaker, refl, refl, breaker-IsWithin, omega arith)

abbrev second_pick : PickResult
second_pick = record {
  endpoint = 8;
  inflight_key = codes "b:1";
  circuit_breaker = some 0;
  outlier_detector = none;
}

refusal : (pick_in_cluster none_ready 0 cart least_balancer).1 ≡ refused no_available_instance
unfolding pick_in_cluster take_token take_slot try_acquire pick_endpoint select_endpoint
    filter_healthy_endpoints first_group select_by_policy select_least_request least_from
    endpoint_address lookup modify text_beq decimal
refusal = refl

pick : (pick_in_cluster all_ready 0 cart least_balancer).1 ≡ picked second_pick
unfolding pick_in_cluster take_token take_slot try_acquire pick_endpoint select_endpoint
    filter_healthy_endpoints first_group select_by_policy select_least_request least_from
    endpoint_address lookup modify text_beq decimal
pick = refl

no_refusal : no_available_instance ≢ circuit_breaker_open
no_refusal e = cc

pick_in_cluster_refused_example :
    lookup 0 (breakers_of (pick_in_cluster none_ready 0 cart least_balancer).0)
    ≡ lookup 0 (breakers_of least_balancer)
pick_in_cluster_refused_example =
    pick_in_cluster_refused none_ready 0 cart 0 least_balancer no_available_instance cart-HasSlots
      refusal no_refusal

report-pick_in_cluster_example :
    lookup 0
      (breakers_of (report second_pick true 9 (pick_in_cluster all_ready 0 cart least_balancer).0))
    ≡ lookup 0 (breakers_of least_balancer)
report-pick_in_cluster_example =
    report-pick_in_cluster all_ready 0 cart 0 least_balancer second_pick true 9 cart-HasSlots pick

select_endpoint-IsChoice_example :
    ((e : WeightedEndpoint) × ((select_endpoint 0 least_balancer cart).0 ≡ some e)
      × IsChoice least_balancer cart e)
    ⊎ (((select_endpoint 0 least_balancer cart).0 ≡ none)
        × ((r : ℕ) → r < priorities → IsEmptyAt least_balancer cart r))
select_endpoint-IsChoice_example = select_endpoint-IsChoice least_balancer cart 0

counters-counts : (e : WeightedEndpoint) → Memᴰ e pair → counter_of counters e < 2 ^ 31
unfolding lookup text_beq endpoint_address decimal
counters-counts e m = elim (Memᴰ.cases_cons m) [
  | inl one ↦ subst (λ x. counter_of counters x < 2 ^ 31) (sym one) (omega arith)
  | inr m' ↦ elim (Memᴰ.cases_cons m') [
    | inl two ↦ subst (λ x. counter_of counters x < 2 ^ 31) (sym two) (omega arith)
    | inr m'' ↦ absurd (Memᴰ.not-nil m'')
  ]
]

select_least_request-IsLeast_example :
    (x : WeightedEndpoint) × (select_least_request counters pair
      ≡ (some x, modify (endpoint_address x) (λ n. u32 (n + 1)) counters))
    × IsLeast counters (counter_of counters x) pair
select_least_request-IsLeast_example =
    select_least_request-IsLeast counters first_endpoint (second_endpoint ∷ []) counters-counts

second_chosen :
    select_endpoint 0 least_balancer cart
    ≡ (some second_endpoint, (codes "a:1", 1) ∷ (codes "b:1", 1) ∷ [])
unfolding select_endpoint filter_healthy_endpoints first_group select_by_policy select_least_request
    least_from endpoint_address lookup modify text_beq decimal
second_chosen = refl

second_unready :
    ready_client none_ready
      (lookup (endpoint_address second_endpoint) least_balancer.remotes_client)
    ≡ none
unfolding endpoint_address lookup text_beq decimal
second_unready = refl

least_policy : policy_of least_balancer cart ≡ codes "least_request"
unfolding lookup text_beq
least_policy = refl

least_pick : (pick_endpoint all_ready 0 cart least_balancer).1 ≡ picked second_pick
unfolding pick_endpoint select_endpoint filter_healthy_endpoints first_group select_by_policy
    select_least_request least_from endpoint_address lookup modify text_beq decimal
least_pick = refl

second_count : lookup (codes "b:1") counters ≡ some 0
unfolding lookup text_beq
second_count = refl

report-pick_endpoint_least_example :
    lookup
      (codes "a:1")
      (report second_pick false 9 (pick_endpoint all_ready 0 cart least_balancer).0).in_flight
    ≡ lookup (codes "a:1") counters
report-pick_endpoint_least_example =
    report-pick_endpoint_least all_ready 0 cart (codes "a:1") least_balancer second_pick false 9 0
      least_policy least_pick second_count (omega arith)

abbrev first_pick : PickResult
first_pick = record second_pick { endpoint = 7; inflight_key = codes "a:1" }

robin_policy : policy_of robin_balancer cart ≢ codes "least_request"
unfolding lookup text_beq
robin_policy e = absurd (
    ground (arith, (text_eq.equal_iff (policy_of robin_balancer cart) (codes "least_request")).1 e))

robin_pick : (pick_endpoint all_ready 0 cart robin_balancer).1 ≡ picked first_pick
unfolding pick_endpoint select_endpoint filter_healthy_endpoints first_group select_by_policy
    select_round_robin weighted_from total_from endpoint_address lookup modify text_beq decimal
robin_pick = refl

abbrev split : WeightedClusters
split = record {
  clusters = record { name = cart; weight = 9 } ∷ record { name = codes "new"; weight = 1 } ∷ [];
  total_weight = 10;
}

select_weighted_cluster-share_example :
    tally (λ r. select_weighted_cluster r split == cart) 0 10
    ≡ share (λ (c : WeightedCluster). c.weight) (is_named cart) split.clusters
select_weighted_cluster-share_example =
    select_weighted_cluster-share split cart (omega arith) (omega arith) refl
