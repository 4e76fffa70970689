-- ===== src/Xds/Resolver/State.antt =====
-- modules/xds/internal/resolver/state.go: what the resolver subscribes to, and what it tells an app,
-- computed from the resources that it has received. A Go set is the list of its keys.
use yggdrasil_ecosystem.Prelude.{Option, none, some, List, [], ◌∷◌, ◌++◌, map, ◌==◌, if◌then◌else◌}
use yggdrasil_ecosystem.Prelude.Text.{Text, text_eq}
use yggdrasil_ecosystem.Prelude.Decimal.{decimal}
use yggdrasil_ecosystem.Prelude.Dict.{Dict, lookup, insert, member, add}
use yggdrasil_ecosystem.Xds.Resource.Model.{
  WeightedEndpoint, WeightedCluster, WeightedClusters, RouteAction, Route, VirtualHost,
  ClusterPolicy, ListenerSnapshot, RouteSnapshot, ClusterSnapshot, EdsSnapshot,
}
use yggdrasil_ecosystem.Xds.Traffic.Balancer.{ResolverEndpoint}

pub record AppInfo : Type 0 where
  pub listeners : List Text

-- The resources of xdsCore.
pub record Resources (Regexp : Type 0) : Type 0 where
  pub listeners : Dict Text ListenerSnapshot
  pub routes : Dict Text (RouteSnapshot Regexp)
  pub clusters : Dict Text ClusterSnapshot
  pub endpoints : Dict Text EdsSnapshot

-- The loop of routeClusterNames over the weighted clusters.
abbrev pub add_weighted : List WeightedCluster → List Text → List Text
add_weighted [] set = set
add_weighted (c ∷ cs) set = add_weighted cs (add c.name set)

abbrev pub add_clusters : Option WeightedClusters → List Text → List Text
add_clusters none set = set
add_clusters (some w) set = add_weighted w.clusters set

unfoldable pub add_action : Option RouteAction → List Text → List Text
add_action none set = set
add_action (some a) set =
    add_clusters a.weighted_clusters (if a.cluster == [] then set else add a.cluster set)

-- A loop that adds names to a set.
abbrev pub add_all : List Text → List Text → List Text
add_all [] set = set
add_all (n ∷ ns) set = add_all ns (add n set)

-- The three sets of collectSubscriptionNames.
pub record NameSets : Type 0 where
  pub lds : List Text
  pub rds : List Text
  pub cds : List Text

-- routeNameForListener
unfoldable pub route_name_for_listener : Dict Text ListenerSnapshot → Text → Option Text
route_name_for_listener listeners name = elim (lookup name listeners) [
  | none ↦ none
  | some l ↦ if l.route == [] then none else some l.route
]

-- The zero ClusterPolicy.
abbrev pub no_policy : ClusterPolicy
no_policy = record {
  lb_policy = [];
  max_requests = 0;
  circuit_breaker = none;
  outlier_detection = none;
  rate_limiter = none;
}

-- collectAppEndpoints: the loop over the endpoints of a cluster, with the keys that it has seen.
unfoldable pub seen_key : Text → WeightedEndpoint → Text
seen_key cluster e = cluster ++ (b'|' ∷ (e.endpoint.address ++ (b':' ∷ decimal e.endpoint.port)))

unfoldable pub unseen_endpoints :
    Text → List WeightedEndpoint → List Text → List WeightedEndpoint × List Text
unseen_endpoints cluster [] seen = ([], seen)
unseen_endpoints cluster (e ∷ es) seen =
    let key = seen_key cluster e in
    let skipped = unseen_endpoints cluster es seen in
    let (rest, seen') = unseen_endpoints cluster es (key ∷ seen) in
    if member key seen then skipped else (e ∷ rest, seen')

-- The endpoint that the loop of buildResolverEndpoints makes. Its name is what the framework's
-- BaseEndpoint derives from the address.
unfoldable pub resolver_endpoint : (Text → Text) → WeightedEndpoint → ResolverEndpoint
resolver_endpoint name_of e =
    let address = e.endpoint.address ++ (b':' ∷ decimal e.endpoint.port) in
    record {
      address = address;
      name = name_of address;
      cluster = some e.cluster;
      weight = some e.weight;
      priority = some e.priority;
      metadata = some e.metadata;
    }

module _ {Regexp : Type 0} where
  abbrev pub add_routes : List (Route Regexp) → List Text → List Text
  add_routes [] set = set
  add_routes (r ∷ rs) set = add_routes rs (add_action r.action set)

  abbrev pub add_vhosts : List (VirtualHost Regexp) → List Text → List Text
  add_vhosts [] set = set
  add_vhosts (v ∷ vs) set = add_vhosts vs (add_routes v.routes set)

  unfoldable pub route_cluster_names : Option (RouteSnapshot Regexp) → List Text
  route_cluster_names none = []
  route_cluster_names (some s) = add_vhosts s.vhosts []

  -- The loop of collectSubscriptionNames over the listeners of an app.
  unfoldable pub collect_listeners : Resources Regexp → List Text → NameSets → NameSets
  collect_listeners c [] sets = sets
  collect_listeners c (l ∷ ls) sets =
      let sets' = record sets { lds = add l sets.lds } in
      elim (route_name_for_listener c.listeners l) [
        | none ↦ collect_listeners c ls sets'
        | some r ↦ collect_listeners c ls (record sets' {
          rds = add r sets'.rds;
          cds = add_all (route_cluster_names (lookup r c.routes)) sets'.cds;
        })
      ]

  unfoldable pub collect_apps : Resources Regexp → Dict Text AppInfo → NameSets → NameSets
  collect_apps c [] sets = sets
  collect_apps c ((t, app) ∷ apps) sets =
      collect_apps c apps (collect_listeners c app.listeners sets)

  -- collectSubscriptionNames
  unfoldable pub collect_subscription_names : Resources Regexp → Dict Text AppInfo → NameSets
  collect_subscription_names c apps = collect_apps c apps (record { lds = []; rds = []; cds = [] })

  -- The route configuration of a listener, as the loops of clusterNamesForApp and buildRouteConfig
  -- find it.
  unfoldable pub route_of_listener : Resources Regexp → Text → Option (RouteSnapshot Regexp)
  route_of_listener c l = elim (lookup l c.listeners) [
    | none ↦ none
    | some snapshot ↦ lookup snapshot.route c.routes
  ]

  -- clusterNamesForApp, with the set so far.
  unfoldable pub cluster_names_from : Resources Regexp → List Text → List Text → List Text
  cluster_names_from c [] set = set
  cluster_names_from c (l ∷ ls) set = elim (route_of_listener c l) [
    | none ↦ cluster_names_from c ls set
    | some s ↦ cluster_names_from c ls (add_all (route_cluster_names (some s)) set)
  ]

  unfoldable pub cluster_names_for_app : Resources Regexp → AppInfo → List Text
  cluster_names_for_app c app = cluster_names_from c app.listeners []

  unfoldable pub build_route_config : Resources Regexp → List Text → List (VirtualHost Regexp)
  build_route_config c [] = []
  build_route_config c (l ∷ ls) = elim (route_of_listener c l) [
    | none ↦ build_route_config c ls
    | some s ↦ s.vhosts ++ build_route_config c ls
  ]

  -- buildClusterMap
  unfoldable pub cluster_policy : Resources Regexp → Text → ClusterPolicy
  cluster_policy c n = elim (lookup n c.clusters) [ none ↦ no_policy | some s ↦ s.policy ]

  unfoldable pub cluster_map_from :
      Resources Regexp → List Text → Dict Text ClusterPolicy → Dict Text ClusterPolicy
  cluster_map_from c [] m = m
  cluster_map_from c (n ∷ ns) m = cluster_map_from c ns (insert n (cluster_policy c n) m)

  unfoldable pub build_cluster_map : Resources Regexp → AppInfo → Dict Text ClusterPolicy
  build_cluster_map c app = cluster_map_from c (cluster_names_for_app c app) []

  unfoldable pub collect_from : Resources Regexp → List Text → List Text → List WeightedEndpoint
  collect_from c [] seen = []
  collect_from c (n ∷ ns) seen = elim (lookup n c.endpoints) [
    | none ↦ collect_from c ns seen
    | some s ↦
        let (es, seen') = unseen_endpoints n s.endpoints seen in es ++ collect_from c ns seen'
  ]

  unfoldable pub collect_app_endpoints : Resources Regexp → AppInfo → List WeightedEndpoint
  collect_app_endpoints c app = collect_from c (cluster_names_for_app c app) []

  unfoldable pub build_resolver_endpoints :
      (Text → Text) → Resources Regexp → AppInfo → List ResolverEndpoint
  build_resolver_endpoints name_of c app =
      map (resolver_endpoint name_of) (collect_app_endpoints c app)
