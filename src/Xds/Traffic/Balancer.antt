-- ===== src/Xds/Traffic/Balancer.antt =====
-- modules/xds/traffic/balancer.go: the balancer's state and its updates. The objects that its maps
-- point to (circuit breakers, outlier detectors, rate limiters) live in a store of their own, so that
-- a call in flight keeps its object when an update replaces the maps. Remote clients belong to the
-- transport of the yggdrasil framework and are numbers here.
use yggdrasil_ecosystem.Prelude.{
  ℕ, ◌+◌, Option, none, some, List, [], ◌∷◌, ◌++◌, ◌==◌, nat_eq, if◌then◌else◌, is_some,
}
use yggdrasil_ecosystem.Prelude.Text.{Text, text_eq, cut_last}
use yggdrasil_ecosystem.Prelude.Decimal.{scan_decimal}
use yggdrasil_ecosystem.Prelude.Dict.{Dict, lookup, insert, modify}
use yggdrasil_ecosystem.Xds.Resource.Model.{
  WeightedEndpoint, VirtualHost, ClusterPolicy, CircuitBreakerConfig, OutlierDetectionConfig,
  RateLimiterConfig,
}
use yggdrasil_ecosystem.Xds.Traffic.Breaker.{CircuitBreaker, new_circuit_breaker}
use yggdrasil_ecosystem.Xds.Traffic.Limiter.{RateLimiter, new_rate_limiter}
use yggdrasil_ecosystem.Xds.Traffic.Limiter as Limiter
use yggdrasil_ecosystem.Xds.Traffic.Outlier.{OutlierDetector, new_outlier_detector}
use yggdrasil_ecosystem.Xds.Traffic.Outlier as Outlier

-- The objects by their addresses; the next address is that of no object.
pub record Store : Type 0 where
  pub breakers : Dict ℕ CircuitBreaker
  pub detectors : Dict ℕ OutlierDetector
  pub limiters : Dict ℕ RateLimiter
  pub next : ℕ

pub record XdsBalancer (Regexp : Type 0) : Type 0 where
  pub remotes_client : Dict Text ℕ
  pub vhosts : List (VirtualHost Regexp)
  pub cluster_policies : Dict Text ClusterPolicy
  pub endpoints : Dict Text (List WeightedEndpoint)
  pub circuit_breakers : Dict Text ℕ
  pub outlier_detectors : Dict Text ℕ
  pub rate_limiters : Dict Text ℕ
  -- The int32 counters, as bit patterns.
  pub in_flight : Dict Text ℕ
  pub store : Store

-- A resolver endpoint; each attribute is the result of its type assertion.
pub record ResolverEndpoint : Type 0 where
  pub address : Text
  pub name : Text
  pub cluster : Option Text
  pub weight : Option ℕ
  pub priority : Option ℕ
  pub metadata : Option (Dict Text Text)

-- What NewRemoteClient of the framework returns.
pub data NewClient : Type 0 where
  failed no_client : NewClient
  client : ℕ → NewClient

abbrev or_else {ℓ} : {A : Type ℓ} → Option A → A → A
or_else none d = d
or_else (some a) d = a

module _ {Regexp : Type 0} where
  -- newXdsBalancer
  unfoldable pub new_xds_balancer : XdsBalancer Regexp
  new_xds_balancer = record {
    remotes_client = [];
    vhosts = [];
    cluster_policies = [];
    endpoints = [];
    circuit_breakers = [];
    outlier_detectors = [];
    rate_limiters = [];
    in_flight = [];
    store = record { breakers = []; detectors = []; limiters = []; next = 0 };
  }

abbrev pub endpoint_key : ResolverEndpoint → Text
endpoint_key e = if e.address == [] then e.name else e.address

-- The loop of refreshRemoteClientsLocked over the endpoints: the next map of clients, from the old one.
unfoldable pub next_clients :
    (ResolverEndpoint → NewClient) → Dict Text ℕ → Dict Text ℕ → List ResolverEndpoint → Dict Text ℕ
next_clients new_remote_client old next [] = next
next_clients new_remote_client old next (e ∷ es) =
    next_clients new_remote_client old
      (elim (lookup (endpoint_key e) old) [
        | some c ↦ insert (endpoint_key e) c next
        | none ↦ elim (new_remote_client e) [
          | failed ↦ next
          | no_client ↦ next
          | client c ↦ insert (endpoint_key e) c next
        ]
      ])
      es

-- Its loop over the old clients.
unfoldable pub stale_clients : Dict Text ℕ → Dict Text ℕ → List ℕ
stale_clients next [] = []
stale_clients next ((key, c) ∷ old) =
    let rest = stale_clients next old in if is_some (lookup key next) then rest else c ∷ rest

-- splitEndpointAddress
unfoldable pub split_endpoint_address : Text → Text × ℕ
split_endpoint_address address = elim (cut_last b':' address) [
  | none ↦ (address, 0)
  | some (host, port) ↦ (host, scan_decimal port)
]

unfoldable pub build_weighted_endpoint : ResolverEndpoint → Option (WeightedEndpoint × Text)
build_weighted_endpoint e =
    let (host, port) = split_endpoint_address e.address in
    if e.address == [] then none else elim e.cluster [
      | none ↦ none
      | some cluster ↦
          if cluster == []
          then none
          else some (
            record {
              cluster = cluster;
              endpoint = record { address = host; port = port };
              weight = or_else e.weight 1;
              priority = or_else e.priority 0;
              metadata = or_else e.metadata [];
            },
            e.address,
          )
    ]

-- The loop of rebuildEndpointsLocked, on the endpoints by cluster and the counters.
unfoldable pub rebuild :
    Dict Text (List WeightedEndpoint)
    → Dict Text ℕ
    → List ResolverEndpoint
    → Dict Text (List WeightedEndpoint) × Dict Text ℕ
rebuild eps counters [] = (eps, counters)
rebuild eps counters (e ∷ es) = elim (build_weighted_endpoint e) [
  | none ↦ rebuild eps counters es
  | some (weighted, key) ↦
      rebuild
        (insert weighted.cluster (or_else (lookup weighted.cluster eps) [] ++ weighted ∷ []) eps)
        (if is_some (lookup key counters) then counters else insert key 0 counters) es
]

-- The objects made for one cluster policy.
abbrev make_breaker : Option CircuitBreakerConfig → Text → Dict Text ℕ × Store → Dict Text ℕ × Store
make_breaker none name (m, s) = (m, s)
make_breaker (some c) name (m, s) = (
  insert name s.next m,
  record s {
    breakers = insert s.next (new_circuit_breaker (some c)) s.breakers;
    next = s.next + 1;
  },
)

abbrev make_detector :
    Option OutlierDetectionConfig → Text → Dict Text ℕ × Store → Dict Text ℕ × Store
make_detector none name (m, s) = (m, s)
make_detector (some c) name (m, s) = (
  insert name s.next m,
  record s {
    detectors = insert s.next (Outlier.start (new_outlier_detector (some c))) s.detectors;
    next = s.next + 1;
  },
)

abbrev make_limiter :
    ℕ → Option RateLimiterConfig → Text → Dict Text ℕ × Store → Dict Text ℕ × Store
make_limiter now none name (m, s) = (m, s)
make_limiter now (some c) name (m, s) = (
  insert name s.next m,
  record s {
    limiters = insert s.next (new_rate_limiter (some c) now) s.limiters;
    next = s.next + 1;
  },
)

-- The maps that applyAttributesLocked builds.
pub record Policies : Type 0 where
  pub policies : Dict Text ClusterPolicy
  pub circuit_breakers : Dict Text ℕ
  pub outlier_detectors : Dict Text ℕ
  pub rate_limiters : Dict Text ℕ
  pub store : Store

-- One round of its loop over the clusters.
unfoldable pub add_policy : ℕ → Text → ClusterPolicy → Policies → Policies
add_policy now name policy p =
    let (breakers, s₁) = make_breaker policy.circuit_breaker name (p.circuit_breakers, p.store) in
    let (detectors, s₂) = make_detector policy.outlier_detection name (p.outlier_detectors, s₁) in
    let (limiters, s₃) = make_limiter now policy.rate_limiter name (p.rate_limiters, s₂) in
    record {
      policies = insert name policy p.policies;
      circuit_breakers = breakers;
      outlier_detectors = detectors;
      rate_limiters = limiters;
      store = s₃;
    }

unfoldable pub add_policies : ℕ → Dict Text ClusterPolicy → Policies → Policies
unfolding add_policy
add_policies now [] p = p
add_policies now ((name, policy) ∷ clusters) p =
    add_policies now clusters (add_policy now name policy p)

stop_detectors : Dict Text ℕ → Dict ℕ OutlierDetector → Dict ℕ OutlierDetector
stop_detectors [] s = s
stop_detectors ((name, a) ∷ m) s = stop_detectors m (modify a Outlier.stop s)

stop_limiters : Dict Text ℕ → Dict ℕ RateLimiter → Dict ℕ RateLimiter
stop_limiters [] s = s
stop_limiters ((name, a) ∷ m) s = stop_limiters m (modify a Limiter.stop s)

module _ {Regexp : Type 0} where
  -- The stops at the start of both branches of applyAttributesLocked, and of Close.
  unfoldable pub stop_policies : XdsBalancer Regexp → Store
  unfolding stop_detectors stop_limiters
  stop_policies b = record b.store {
    detectors = stop_detectors b.outlier_detectors b.store.detectors;
    limiters = stop_limiters b.rate_limiters b.store.limiters;
  }

  unfoldable pub apply_attributes :
      ℕ
      → Option (List (VirtualHost Regexp))
      → Option (Dict Text ClusterPolicy)
      → XdsBalancer Regexp
      → XdsBalancer Regexp
  apply_attributes now routes clusters b =
      let p = add_policies now (or_else clusters []) (record {
        policies = [];
        circuit_breakers = [];
        outlier_detectors = [];
        rate_limiters = [];
        store = stop_policies b;
      }) in
      record b {
        vhosts = or_else routes [];
        cluster_policies = p.policies;
        circuit_breakers = p.circuit_breakers;
        outlier_detectors = p.outlier_detectors;
        rate_limiters = p.rate_limiters;
        store = p.store;
      }

  -- UpdateState: the balancer after it, and the clients that it closes.
  unfoldable pub update_state :
      ℕ
      → (ResolverEndpoint → NewClient)
      → Option (List ResolverEndpoint)
      → Option (List (VirtualHost Regexp))
      → Option (Dict Text ClusterPolicy)
      → XdsBalancer Regexp
      → XdsBalancer Regexp × List ℕ
  update_state now new_remote_client none routes clusters b = (b, [])
  update_state now new_remote_client (some es) routes clusters b =
      let clients = next_clients new_remote_client b.remotes_client [] es in
      let stale = stale_clients clients b.remotes_client in
      let b₁ = apply_attributes now routes clusters (record b { remotes_client = clients }) in
      let (eps, counters) = rebuild [] b₁.in_flight es in
      (record b₁ { endpoints = eps; in_flight = counters }, stale)

  -- Close: the balancer after it, and the clients that it closes.
  unfoldable pub close : XdsBalancer Regexp → XdsBalancer Regexp × List ℕ
  close b =
      (record b { remotes_client = []; store = stop_policies b }, stale_clients [] b.remotes_client)
