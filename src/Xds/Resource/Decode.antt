-- ===== src/Xds/Resource/Decode.antt =====
-- modules/xds/internal/resource/decode.go: from the resources of a discovery response to events.
-- Resources are values of a parameter type; UnmarshalTo, regexp.Compile and the conversions of
-- float64 numbers are parameters.
pub mod Laws
pub mod Parts
mod Tests
use yggdrasil_ecosystem.Prelude.{ℕ, ◌⊎◌, inl, inr, Option, List, [], ◌∷◌, ◌++◌, ◌==◌, if◌then◌else◌}
use yggdrasil_ecosystem.Prelude.Text.{Text, text_eq, codes}
use yggdrasil_ecosystem.Xds.Resource.Model.{DiscoveryEvent}
use yggdrasil_ecosystem.Xds.Resource.Envoy
use yggdrasil_ecosystem.Xds.Resource.Envoy.{
  RouteSpecifier, RouteConfiguration, ClusterLoadAssignment,
}
use yggdrasil_ecosystem.Xds.Resource.Routes.{parse_listener, parse_route}
use yggdrasil_ecosystem.Xds.Resource.Clusters.{Conversions, parse_cluster}
use yggdrasil_ecosystem.Xds.Resource.Endpoints.{parse_endpoint}

abbrev pub type_url_listener : Text
type_url_listener = codes "type.googleapis.com/envoy.config.listener.v3.Listener"

abbrev pub type_url_route : Text
type_url_route = codes "type.googleapis.com/envoy.config.route.v3.RouteConfiguration"

abbrev pub type_url_cluster : Text
type_url_cluster = codes "type.googleapis.com/envoy.config.cluster.v3.Cluster"

abbrev pub type_url_endpoint : Text
type_url_endpoint = codes "type.googleapis.com/envoy.config.endpoint.v3.ClusterLoadAssignment"

-- An error's message, or the events.
pub data Decoded (Regexp : Type 0) : Type 0 where
  decode_error : Text → Decoded Regexp
  decoded : List (DiscoveryEvent Regexp) → Decoded Regexp

-- What the decoder calls outside the repository; a Text on the left is an error's message.
pub record Codec (Any Regexp Number : Type 0) : Type 0 where
  pub unmarshal_listener : Any → Text ⊎ Envoy.Listener Any
  pub unmarshal_route : Any → Text ⊎ RouteConfiguration
  pub unmarshal_cluster : Any → Text ⊎ Envoy.Cluster Number
  pub unmarshal_endpoint : Any → Text ⊎ ClusterLoadAssignment
  pub unmarshal_manager : Any → Option RouteSpecifier
  pub compile : Text → Option Regexp
  pub conversions : Conversions Number

module _ {Regexp : Type 0} where
  -- The error wrapped with what was being done, or the parsed events.
  unfoldable pub parsed :
      {M : Type 0} → Text → (M → List (DiscoveryEvent Regexp)) → Text ⊎ M → Decoded Regexp
  parsed doing parse (inl err) = decode_error (doing ++ err)
  parsed doing parse (inr message) = decoded (parse message)

module _ {Any Regexp Number : Type 0} (codec : Codec Any Regexp Number) where
  unfoldable pub decode_discovery_resource : Text → Any → Decoded Regexp
  decode_discovery_resource type_url item =
      if type_url == type_url_listener
      then parsed (codes "unmarshal listener: ") (parse_listener codec.unmarshal_manager)
          (codec.unmarshal_listener item)
      else if type_url == type_url_route
      then parsed (codes "unmarshal route: ") (parse_route codec.compile)
          (codec.unmarshal_route item)
      else if type_url == type_url_cluster
      then parsed (codes "unmarshal cluster: ") (parse_cluster codec.conversions)
          (codec.unmarshal_cluster item)
      else if type_url == type_url_endpoint
      then parsed (codes "unmarshal endpoint: ") parse_endpoint (codec.unmarshal_endpoint item)
      else decode_error (codes "unknown type URL: " ++ type_url)

  -- The loop of DecodeDiscoveryResponse, with the events so far.
  unfoldable pub decode_from : List (DiscoveryEvent Regexp) → Text → List Any → Decoded Regexp
  decode_from events type_url [] = decoded events
  decode_from events type_url (item ∷ items) = elim (decode_discovery_resource type_url item) [
    | decode_error err ↦ decode_error err
    | decoded more ↦ decode_from (events ++ more) type_url items
  ]

  unfoldable pub decode_discovery_response : Text → List Any → Decoded Regexp
  unfolding decode_from
  decode_discovery_response type_url items = decode_from [] type_url items
