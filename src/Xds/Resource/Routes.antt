-- ===== src/Xds/Resource/Routes.antt =====
-- The decoding of listeners and routes in modules/xds/internal/resource/decode.go. regexp.Compile is
-- a parameter, none for its error, and so is the unmarshalling of a filter's configuration.
pub mod Laws
pub mod Weights
use yggdrasil_ecosystem.Prelude.{
  ℕ, Bool, false, Option, none, some, List, [], ◌∷◌, ◌==◌, if◌then◌else◌, map,
}
use yggdrasil_ecosystem.Prelude.Text.{Text, text_eq, codes}
use yggdrasil_ecosystem.Xds.Resource.Model.{
  HeaderMatcher, RouteMatch, Route, VirtualHost, RouteAction, RouteSnapshot, WeightedCluster,
  WeightedClusters, ListenerSnapshot, DiscoveryEvent, listener_added, route_added,
}
use yggdrasil_ecosystem.Xds.Resource.Envoy
use yggdrasil_ecosystem.Xds.Resource.Envoy.{
  Filter, RouteSpecifier, rds, route_config, no_route_specifier, PathSpecifier, prefix_path,
  exact_path, safe_regex, other_path, HeaderMatchSpecifier, exact_value, prefix_value, suffix_value,
  regex_value, present_value, other_value, HeaderRule, MatchRule, ClusterWeight, ClusterWeights,
  ClusterSpecifier, one_cluster, many_clusters, other_specifier, RouteRule, RouteConfiguration,
  get_value,
}

abbrev pub http_connection_manager_filter : Text
http_connection_manager_filter = codes "envoy.filters.network.http_connection_manager"

-- A name that is given and not empty, or the name to fall back to.
abbrev name_or : Text → Option Text → Text
name_or fallback none = fallback
name_or fallback (some name) = if name == [] then fallback else name

-- The switch of routeNameForListener.
unfoldable specified_name : Text → RouteSpecifier → Text
specified_name fallback (rds name) = name_or fallback name
specified_name fallback (route_config name) = name_or fallback name
specified_name fallback no_route_specifier = fallback

module _ {Any : Type 0} (unmarshal_manager : Any → Option RouteSpecifier) where
  -- The body of the loops after the filter's name has been found.
  unfoldable manager_route : Text → Option Any → Text
  unfolding specified_name
  manager_route listener none = listener
  manager_route listener (some typed) = elim (unmarshal_manager typed) [
    | none ↦ listener
    | some specifier ↦ specified_name listener specifier
  ]

  -- The inner loop: the name that it returns, if it returns.
  unfoldable pub chain_route : Text → List (Filter Any) → Option Text
  unfolding manager_route
  chain_route listener [] = none
  chain_route listener (filter ∷ filters) =
      let rest = chain_route listener filters in
      if filter.name == http_connection_manager_filter
      then some (manager_route listener filter.typed_config)
      else rest

  unfoldable pub chains_route : Text → List (List (Filter Any)) → Text
  chains_route listener [] = []
  chains_route listener (filters ∷ chains) = elim (chain_route listener filters) [
    | some name ↦ name
    | none ↦ chains_route listener chains
  ]

  unfoldable pub route_name_for_listener : Envoy.Listener Any → Text
  route_name_for_listener listener = chains_route listener.name listener.filter_chains

  module _ {Regexp : Type 0} where
    unfoldable pub parse_listener : Envoy.Listener Any → List (DiscoveryEvent Regexp)
    parse_listener listener =
        if listener.name == []
        then []
        else (listener_added listener.name (record { route = route_name_for_listener listener })
            ∷ [])

unfoldable pub parse_weight : ClusterWeight → WeightedCluster
parse_weight c = record { name = c.name; weight = get_value c.weight }

unfoldable pub parse_weights : ClusterWeights → WeightedClusters
unfolding parse_weight
parse_weights w = record {
  clusters = map parse_weight w.clusters;
  total_weight = get_value w.total_weight;
}

unfoldable pub parse_cluster_specifier : ClusterSpecifier → RouteAction
unfolding parse_weights
parse_cluster_specifier (one_cluster name) = record { cluster = name; weighted_clusters = none }
parse_cluster_specifier (many_clusters none) = record { cluster = []; weighted_clusters = none }
parse_cluster_specifier (many_clusters (some w)) = record {
  cluster = [];
  weighted_clusters = some (parse_weights w);
}
parse_cluster_specifier other_specifier = record { cluster = []; weighted_clusters = none }

unfoldable pub parse_route_action : Option ClusterSpecifier → Option RouteAction
parse_route_action none = none
parse_route_action (some specifier) = some (parse_cluster_specifier specifier)

module _ {Regexp : Type 0} (compile : Text → Option Regexp) where
  -- A regular expression that is given, not empty and compiles.
  unfoldable pub compiled : Option Text → Option Regexp
  compiled none = none
  compiled (some regex) = if regex == [] then none else compile regex

  abbrev no_path : RouteMatch Regexp
  no_path = record {
    prefix = [];
    path = [];
    suffix = [];
    contains = [];
    regex = none;
    headers = [];
  }

  unfoldable pub parse_path : Option PathSpecifier → RouteMatch Regexp
  parse_path none = no_path
  parse_path (some (prefix_path prefix)) = record no_path { prefix = prefix }
  parse_path (some (exact_path path)) = record no_path { path = path }
  parse_path (some (safe_regex regex)) = record no_path { regex = compiled regex }
  parse_path (some other_path) = no_path

  abbrev no_value : Text → HeaderMatcher Regexp
  no_value name = record {
    name = name;
    exact_match = [];
    prefix_match = [];
    suffix_match = [];
    regex_match = none;
    present = false;
  }

  unfoldable pub parse_header_specifier : Text → HeaderMatchSpecifier → HeaderMatcher Regexp
  parse_header_specifier name (exact_value v) = record (no_value name) { exact_match = v }
  parse_header_specifier name (regex_value v) = record (no_value name) { regex_match = compiled v }
  parse_header_specifier name (present_value v) = record (no_value name) { present = v }
  parse_header_specifier name (prefix_value v) = record (no_value name) { prefix_match = v }
  parse_header_specifier name (suffix_value v) = record (no_value name) { suffix_match = v }
  parse_header_specifier name other_value = no_value name

  unfoldable pub parse_header : HeaderRule → HeaderMatcher Regexp
  parse_header h = parse_header_specifier h.name h.header_match_specifier

  unfoldable pub parse_route_match : Option MatchRule → Option (RouteMatch Regexp)
  unfolding parse_header
  parse_route_match none = none
  parse_route_match (some m) =
      some (record (parse_path m.path_specifier) { headers = map parse_header m.headers })

  -- The body of the loop of parseVirtualHost.
  unfoldable pub parse_route_rule : RouteRule → Route Regexp
  parse_route_rule r = record {
    match = parse_route_match r.match;
    action = parse_route_action r.route;
  }

  unfoldable pub parse_virtual_host : Envoy.Host → VirtualHost Regexp
  unfolding parse_route_rule
  parse_virtual_host v = record {
    name = v.name;
    domains = v.domains;
    routes = map parse_route_rule v.routes;
  }

  unfoldable pub parse_route : RouteConfiguration → List (DiscoveryEvent Regexp)
  unfolding parse_virtual_host
  parse_route config =
      if config.name == []
      then []
      else (route_added config.name
            (record { vhosts = map parse_virtual_host config.virtual_hosts })
          ∷ [])
