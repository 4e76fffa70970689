-- ===== src/Xds/Resource/Endpoints.antt =====
-- The decoding of endpoints in modules/xds/internal/resource/decode.go. Weights are uint32.
pub mod Laws
use yggdrasil_ecosystem.Prelude.{
  ℕ, ◌*◌, Option, none, some, List, [], ◌∷◌, ◌++◌, ◌==◌, nat_eq, if◌then◌else◌, map, u32,
}
use yggdrasil_ecosystem.Prelude.Text.{Text, text_eq, codes}
use yggdrasil_ecosystem.Prelude.Dict.{Dict, insert}
use yggdrasil_ecosystem.Xds.Resource.Model.{
  Endpoint, WeightedEndpoint, EdsSnapshot, DiscoveryEvent, endpoint_added,
}
use yggdrasil_ecosystem.Xds.Resource.Envoy.{
  Locality, SocketAddress, Address, socket_address, other_address, HostIdentifier, endpoint_host,
  named_host, LbEndpoint, LocalityLbEndpoints, ClusterLoadAssignment, get_value,
}

unfoldable pub endpoint_health_status : ℕ → Text
endpoint_health_status status =
    if status == 0
    then codes "HEALTHY"
    else if status == 1
    then codes "UNHEALTHY"
    else if status == 2
    then codes "DRAINING"
    else if status == 3
    then codes "TIMEOUT"
    else if status == 4
    then codes "DEGRADED"
    else codes "UNKNOWN"

-- A name that is not empty is written.
abbrev insert_named : Text → Text → Dict Text Text → Dict Text Text
insert_named key name metadata = if name == [] then metadata else insert key name metadata

abbrev locality_metadata : Option Locality → Dict Text Text
locality_metadata none = []
locality_metadata (some l) =
    insert_named (codes "sub_zone") l.sub_zone
      (insert_named (codes "zone") l.zone (insert_named (codes "region") l.region []))

unfoldable pub parse_endpoint_metadata : Option Locality → ℕ → Dict Text Text
unfolding endpoint_health_status
parse_endpoint_metadata locality status =
    insert (codes "health") (endpoint_health_status status) (locality_metadata locality)

-- A weight of 0 counts as 1.
unfoldable pub weight_or_one : Option ℕ → ℕ
weight_or_one weight = if get_value weight == 0 then 1 else get_value weight

abbrev no_endpoint : Endpoint
no_endpoint = record { address = []; port = 0 }

abbrev address_endpoint : Option Address → Endpoint
address_endpoint none = no_endpoint
address_endpoint (some (socket_address s)) = record { address = s.address; port = s.port_value }
address_endpoint (some other_address) = no_endpoint

unfoldable pub host_endpoint : Option HostIdentifier → Endpoint
host_endpoint none = no_endpoint
host_endpoint (some (endpoint_host address)) = address_endpoint address
host_endpoint (some named_host) = no_endpoint

unfoldable pub parse_lb_endpoint : Text → Option Locality → ℕ → ℕ → LbEndpoint → WeightedEndpoint
unfolding weight_or_one host_endpoint parse_endpoint_metadata
parse_lb_endpoint cluster locality priority locality_weight e = record {
  cluster = cluster;
  endpoint = host_endpoint e.host_identifier;
  weight = u32 (weight_or_one e.load_balancing_weight * locality_weight);
  priority = priority;
  metadata = parse_endpoint_metadata locality e.health_status;
}

-- The inner loop of parseEndpoint.
unfoldable pub parse_locality : Text → LocalityLbEndpoints → List WeightedEndpoint
unfolding parse_lb_endpoint
parse_locality cluster l =
    map (parse_lb_endpoint cluster l.locality l.priority (weight_or_one l.load_balancing_weight))
      l.lb_endpoints

-- The outer loop of parseEndpoint.
unfoldable pub parse_localities : Text → List LocalityLbEndpoints → List WeightedEndpoint
unfolding parse_locality
parse_localities cluster [] = []
parse_localities cluster (l ∷ ls) = parse_locality cluster l ++ parse_localities cluster ls

module _ {Regexp : Type 0} where
  unfoldable pub parse_endpoint : ClusterLoadAssignment → List (DiscoveryEvent Regexp)
  parse_endpoint a =
      if a.cluster_name == []
      then []
      else (endpoint_added a.cluster_name
            (record { endpoints = parse_localities a.cluster_name a.endpoints })
          ∷ [])
