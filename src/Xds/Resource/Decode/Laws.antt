-- ===== src/Xds/Resource/Decode/Laws.antt =====
-- What the events of a response are, and how its resources combine.
use yggdrasil_ecosystem.Prelude.{
  ◌≡◌, ◌≢◌, refl, sym, subst, ◌⊎◌, inl, inr, true, false, Option, List, [], ◌∷◌, ◌++◌, arith, ◌==◌,
  All, All-append, Bool-cases, if_either,
}
use yggdrasil_ecosystem.Prelude.Text.{Text, text_eq, text_beq_iff}
use yggdrasil_ecosystem.Xds.Resource.Model.{
  DiscoveryEvent, listener_added, route_added, cluster_added, endpoint_added,
}
use yggdrasil_ecosystem.Xds.Resource.Envoy
use yggdrasil_ecosystem.Xds.Resource.Envoy.{
  RouteSpecifier, RouteConfiguration, ClusterLoadAssignment,
}
use yggdrasil_ecosystem.Xds.Resource.Routes.{parse_listener, parse_route}
use yggdrasil_ecosystem.Xds.Resource.Clusters.{Conversions, parse_cluster}
use yggdrasil_ecosystem.Xds.Resource.Endpoints.{parse_endpoint}
use yggdrasil_ecosystem.Xds.Resource.Decode.{
  Codec, Decoded, decode_error, decoded, parsed, decode_discovery_resource, decode_from,
  decode_discovery_response, type_url_listener, type_url_route, type_url_cluster, type_url_endpoint,
}

named_of : (name : Text) → (name == []) ≡ false → name ≢ []
named_of name h e = ground (arith, h, e, text_beq_iff name [])

module _ {Regexp : Type 0} where
  -- The type URL that belongs to the kind of an event, and the event's name.
  abbrev pub event_type_url : DiscoveryEvent Regexp → Text
  event_type_url (listener_added name l) = type_url_listener
  event_type_url (route_added name r) = type_url_route
  event_type_url (cluster_added name c) = type_url_cluster
  event_type_url (endpoint_added name e) = type_url_endpoint

  abbrev pub event_name : DiscoveryEvent Regexp → Text
  event_name (listener_added name l) = name
  event_name (route_added name r) = name
  event_name (cluster_added name c) = name
  event_name (endpoint_added name e) = name

  -- An event of the type with a name.
  pub record IsEventOf (type_url : Text) (e : DiscoveryEvent Regexp) : Type 0 where
    pub kind : event_type_url e ≡ type_url
    pub named : event_name e ≢ []

  AllDecoded : (DiscoveryEvent Regexp → Type 0) → Decoded Regexp → Type 0
  AllDecoded P (decode_error err) = Unit
  AllDecoded P (decoded events) = All P events

  at_url :
      (url known : Text) (d : Decoded Regexp)
      → (url == known) ≡ true
      → AllDecoded (IsEventOf known) d
      → AllDecoded (IsEventOf url) d
  at_url url known d is h =
      subst (λ u. AllDecoded (IsEventOf u) d) (sym ((text_beq_iff url known).0 is)) h

  and_then :
      (P : DiscoveryEvent Regexp → Type 0) (d : Decoded Regexp)
      (next : List (DiscoveryEvent Regexp) → Decoded Regexp)
      → AllDecoded P d
      → ((more : List (DiscoveryEvent Regexp)) → All P more → AllDecoded P (next more))
      → AllDecoded P (elim d [ decode_error err ↦ decode_error err | decoded more ↦ next more ])
  unfolding AllDecoded
  and_then P (decode_error err) next h k = tt
  and_then P (decoded more) next h k = k more h

  parsed-AllDecoded :
      {M : Type 0} (P : DiscoveryEvent Regexp → Type 0) (doing : Text)
      (parse : M → List (DiscoveryEvent Regexp)) (result : Text ⊎ M)
      → ((m : M) → All P (parse m))
      → AllDecoded P (parsed doing parse result)
  unfolding AllDecoded parsed
  parsed-AllDecoded P doing parse (inl err) h = tt
  parsed-AllDecoded P doing parse (inr m) h = h m

module _ (Regexp : Type 0) where
  parse_route-IsEventOf :
      (compile : Text → Option Regexp) (config : RouteConfiguration)
      → All (IsEventOf {Regexp = Regexp} type_url_route) (parse_route compile config)
  unfolding parse_route
  parse_route-IsEventOf compile config = elim (Bool-cases (config.name == [])) [
    | inl empty ↦ rw empty tt
    | inr some_name ↦
        rw some_name (record { kind = refl; named = named_of config.name some_name }, tt)
  ]

  parse_listener-IsEventOf :
      {Any : Type 0} (manager : Any → Option RouteSpecifier) (l : Envoy.Listener Any)
      → All (IsEventOf {Regexp = Regexp} type_url_listener) (parse_listener manager l)
  unfolding parse_listener
  parse_listener-IsEventOf manager l = elim (Bool-cases (l.name == [])) [
    | inl empty ↦ rw empty tt
    | inr some_name ↦ rw some_name (record { kind = refl; named = named_of l.name some_name }, tt)
  ]

  parse_cluster-IsEventOf :
      {Number : Type 0} (conversions : Conversions Number) (c : Envoy.Cluster Number)
      → All (IsEventOf {Regexp = Regexp} type_url_cluster) (parse_cluster conversions c)
  unfolding parse_cluster
  parse_cluster-IsEventOf conversions c = elim (Bool-cases (c.name == [])) [
    | inl empty ↦ rw empty tt
    | inr some_name ↦ rw some_name (record { kind = refl; named = named_of c.name some_name }, tt)
  ]

  parse_endpoint-IsEventOf :
      (a : ClusterLoadAssignment)
      → All (IsEventOf {Regexp = Regexp} type_url_endpoint) (parse_endpoint a)
  unfolding parse_endpoint
  parse_endpoint-IsEventOf a = elim (Bool-cases (a.cluster_name == [])) [
    | inl empty ↦ rw empty tt
    | inr some_name ↦
        rw some_name (record { kind = refl; named = named_of a.cluster_name some_name }, tt)
  ]

module _ {Any Regexp Number : Type 0} (codec : Codec Any Regexp Number) where
  decode_discovery_resource-IsEventOf :
      (type_url : Text) (item : Any)
      → AllDecoded (IsEventOf type_url) (decode_discovery_resource codec type_url item)
  unfolding decode_discovery_resource AllDecoded
  decode_discovery_resource-IsEventOf type_url item =
      let P = λ (d : Decoded Regexp). AllDecoded (IsEventOf type_url) d in
      if_either P _ _ _
        (λ is. at_url type_url type_url_listener _ is (
          parsed-AllDecoded (IsEventOf type_url_listener) _ _ (codec.unmarshal_listener item)
            (parse_listener-IsEventOf Regexp codec.unmarshal_manager)))
        (λ _.
          if_either P _ _ _
            (λ is. at_url type_url type_url_route _ is (
              parsed-AllDecoded (IsEventOf type_url_route) _ _ (codec.unmarshal_route item)
                (parse_route-IsEventOf Regexp codec.compile)))
            (λ _.
              if_either P _ _ _
                (λ is. at_url type_url type_url_cluster _ is (
                  parsed-AllDecoded (IsEventOf type_url_cluster) _ _ (codec.unmarshal_cluster item)
                    (parse_cluster-IsEventOf Regexp codec.conversions)))
                (λ _.
                  if_either P _ _ _
                    (λ is. at_url type_url type_url_endpoint _ is (
                      parsed-AllDecoded (IsEventOf type_url_endpoint) _ _
                        (codec.unmarshal_endpoint item) (parse_endpoint-IsEventOf Regexp)))
                    (λ _. tt))))

  decode_from-AllDecoded :
      (type_url : Text) (items : List Any) (events : List (DiscoveryEvent Regexp))
      → All (IsEventOf type_url) events
      → AllDecoded (IsEventOf type_url) (decode_from codec events type_url items)
  unfolding decode_from AllDecoded
  decode_from-AllDecoded type_url [] events h = h
  decode_from-AllDecoded type_url (item ∷ items) events h =
      and_then (IsEventOf type_url) (decode_discovery_resource codec type_url item)
        (λ more. decode_from codec (events ++ more) type_url items)
        (decode_discovery_resource-IsEventOf type_url item)
        (λ more k.
          decode_from-AllDecoded type_url items (events ++ more)
            (All-append (IsEventOf type_url) events more h k))

  -- Every event of a decoded response is of the kind that the response's type URL names, and has a
  -- name.
  pub decode_discovery_response-IsEventOf :
      (type_url : Text) (items : List Any) (events : List (DiscoveryEvent Regexp))
      → decode_discovery_response codec type_url items ≡ decoded events
      → All (IsEventOf type_url) events
  unfolding decode_discovery_response AllDecoded
  decode_discovery_response-IsEventOf type_url items events e =
      subst (AllDecoded (IsEventOf type_url)) e (decode_from-AllDecoded type_url items [] tt)
