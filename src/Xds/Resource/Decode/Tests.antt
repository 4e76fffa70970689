-- ===== src/Xds/Resource/Decode/Tests.antt =====
-- Tests of the decoder, and its theorems at concrete messages.
use yggdrasil_ecosystem.Prelude.{
  ℕ, ◌*◌, ◌≡◌, ◌≢◌, refl, inl, inr, Bool, Option, none, some, List, [], ◌∷◌, arith, ◌==◌,
  if◌then◌else◌, All, sum_of,
}
use yggdrasil_ecosystem.Prelude.Text.{Text, text_eq, text_beq, codes}
use yggdrasil_ecosystem.Xds.Resource.Model.{DiscoveryEvent, route_added}
use yggdrasil_ecosystem.Xds.Resource.Envoy.{
  RouteConfiguration, MatchRule, prefix_path, exact_value, regex_value, one_cluster, LbEndpoint,
  LocalityLbEndpoints, endpoint_host, socket_address,
}
use yggdrasil_ecosystem.Xds.Resource.Match.{matches}
use yggdrasil_ecosystem.Xds.Resource.Routes.{
  parse_route_match, parse_route, parse_virtual_host, parse_route_rule, parse_route_action,
  parse_cluster_specifier,
}
use yggdrasil_ecosystem.Xds.Resource.Routes.Laws.{
  matches-parse_route_match, IsRule, IsPath, IsValue, IsPattern, rule_holds,
}
use yggdrasil_ecosystem.Xds.Resource.Endpoints.{parse_localities, weight_or_one}
use yggdrasil_ecosystem.Xds.Resource.Endpoints.Laws.{
  sum_of-parse_localities, IsUnwrapped, locality_weight, weight_of,
}
use yggdrasil_ecosystem.Xds.Resource.Decode.{
  Codec, decoded, decode_discovery_response, decode_discovery_resource, parsed, decode_from,
  type_url_route,
}
use yggdrasil_ecosystem.Xds.Resource.Decode.Laws.{decode_discovery_response-IsEventOf, IsEventOf}

-- Regular expressions that match their own text only, and one that does not compile.
abbrev regexp_of : Text → Option Text
regexp_of regex = if regex == codes "(" then none else some regex

abbrev is_text : Text → Text → Bool
is_text regex value = value == regex

abbrev rule : MatchRule
rule = record {
  path_specifier = some (prefix_path (codes "/v1"));
  headers =
      record { name = codes "team"; header_match_specifier = exact_value (codes "a") }
      ∷ record { name = codes "zone"; header_match_specifier = regex_value (some (codes "z")) }
      ∷ [];
}

abbrev team_headers : List (Text × Text)
team_headers = (codes "team", codes "a") ∷ (codes "zone", codes "z") ∷ []

rule-IsRule : IsRule Text is_text regexp_of rule
unfolding IsRule IsPath IsValue IsPattern text_beq
rule-IsRule = (tt, ((λ e. nonempty e), (((λ e. nonempty e), compiles), tt)))
  where
    nonempty : {c : ℕ} {s : Text} → c ∷ s ≢ []
    nonempty e = cc e

    compiles : some (codes "z") ≢ none
    compiles e = cc e

matches-parse_route_match_example :
    matches Text is_text (parse_route_match regexp_of (some rule)) (codes "/v1/x") team_headers
    ≡ rule_holds Text is_text regexp_of rule (codes "/v1/x") team_headers
matches-parse_route_match_example =
    matches-parse_route_match Text is_text regexp_of rule (codes "/v1/x") team_headers rule-IsRule

-- Two endpoints of weights 3 and none in a locality of weight 5.
abbrev node : Option ℕ → LbEndpoint
node weight = record {
  load_balancing_weight = weight;
  host_identifier = some (
      endpoint_host
        (some (socket_address (record { address = codes "10.0.0.1"; port_value = 80 }))));
  health_status = 1;
}

abbrev zone_a : LocalityLbEndpoints
zone_a = record {
  load_balancing_weight = some 5;
  locality = some (record { region = codes "cn"; zone = codes "a"; sub_zone = [] });
  priority = 0;
  lb_endpoints = node (some 3) ∷ node none ∷ [];
}

zone_a-IsUnwrapped : IsUnwrapped zone_a
unfolding IsUnwrapped weight_or_one
zone_a-IsUnwrapped = (omega arith, (omega arith, tt))

sum_of-parse_localities_example :
    sum_of weight_of (parse_localities (codes "c") (zone_a ∷ []))
    ≡ sum_of locality_weight (zone_a ∷ [])
sum_of-parse_localities_example =
    sum_of-parse_localities (codes "c") (zone_a ∷ []) (zone_a-IsUnwrapped, tt)

-- Resources are route configurations here.
abbrev codec : Codec RouteConfiguration Text ℕ
codec = record {
  unmarshal_listener = λ _. inl (codes "not a listener");
  unmarshal_route = λ config. inr config;
  unmarshal_cluster = λ _. inl (codes "not a cluster");
  unmarshal_endpoint = λ _. inl (codes "not an assignment");
  unmarshal_manager = λ _. none;
  compile = regexp_of;
  conversions = record { zero_number = 0; to_uint32 = λ n. n; to_duration = λ n. n * 1000000000 };
}

abbrev route_message : RouteConfiguration
route_message = record {
  name = codes "r";
  virtual_hosts =
      record {
        name = codes "v";
        domains = codes "*" ∷ [];
        routes = record { match = some rule; route = some (one_cluster (codes "c")) } ∷ [];
      }
      ∷ [];
}

abbrev nameless : RouteConfiguration
nameless = record { name = []; virtual_hosts = [] }

abbrev route_event : DiscoveryEvent Text
route_event = route_added (codes "r") (record {
  vhosts =
      record {
        name = codes "v";
        domains = codes "*" ∷ [];
        routes =
            record {
              match = parse_route_match regexp_of (some rule);
              action = some (record { cluster = codes "c"; weighted_clusters = none });
            }
            ∷ [];
      }
      ∷ [];
})

two_routes-decoded :
    decode_discovery_response codec type_url_route (route_message ∷ nameless ∷ [])
    ≡ decoded (route_event ∷ [])
unfolding decode_discovery_response decode_from decode_discovery_resource parsed text_beq
    parse_route parse_virtual_host parse_route_rule parse_route_action parse_cluster_specifier
two_routes-decoded = refl

decode_discovery_response-IsEventOf_example : All (IsEventOf type_url_route) (route_event ∷ [])
decode_discovery_response-IsEventOf_example =
    decode_discovery_response-IsEventOf codec type_url_route (route_message ∷ nameless ∷ [])
      (route_event ∷ []) two_routes-decoded
