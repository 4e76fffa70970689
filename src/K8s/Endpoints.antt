-- ===== src/K8s/Endpoints.antt =====
-- modules/k8s/discovery/resolver.go: from the Kubernetes objects to a resolver state. The objects are
-- records of the fields that the source reads; ports are not negative. net.JoinHostPort is written
-- out.
pub mod Laws
use yggdrasil_ecosystem.Prelude.{
  ℕ, Bool, true, false, not, ◌&&◌, ◌||◌, Option, none, some, List, [], ◌∷◌, ◌++◌, map, ◌==◌, nat_eq,
  if◌then◌else◌,
}
use yggdrasil_ecosystem.Prelude.Text.{Text, text_eq, codes, has_byte}
use yggdrasil_ecosystem.Prelude.Decimal.{decimal}
use yggdrasil_ecosystem.Prelude.Dict.{Dict, insert}

pub record BackoffConfig (Float : Type 0) : Type 0 where
  pub base_delay : ℕ
  pub multiplier : Float
  pub jitter : Float
  pub max_delay : ℕ

pub record ResolverConfig (Float : Type 0) : Type 0 where
  pub namespace : Text
  pub mode : Text
  pub port_name : Text
  pub port : ℕ
  pub protocol : Text
  pub kubeconfig : Text
  pub resync_period : ℕ
  pub timeout : ℕ
  pub backoff : BackoffConfig Float
  pub endpoint_attributes : Dict Text Text

-- A value of an endpoint's attributes: a string, or the pointer to a string that may be nil.
pub data Attribute : Type 0 where
  text_value : Text → Attribute
  pointer_value : Option Text → Attribute

pub record StateEndpoint : Type 0 where
  pub address : Text
  pub protocol : Text
  pub attributes : Dict Text Attribute

pub record State : Type 0 where
  pub attributes : Dict Text Text
  pub endpoints : List StateEndpoint

pub record TargetRef : Type 0 where
  pub kind : Text
  pub name : Text

pub record EndpointPort : Type 0 where
  pub name : Text
  pub port : ℕ

pub record EndpointAddress : Type 0 where
  pub ip : Text
  pub hostname : Text
  pub node_name : Option Text
  pub target_ref : Option TargetRef

pub record EndpointSubset : Type 0 where
  pub addresses : List EndpointAddress
  pub ports : List EndpointPort

pub record Endpoints : Type 0 where
  pub name : Text
  pub namespace : Text
  pub subsets : List EndpointSubset

pub record SlicePort : Type 0 where
  pub name : Option Text
  pub port : Option ℕ

pub record SliceEndpoint : Type 0 where
  pub addresses : List Text
  pub node_name : Option Text
  pub zone : Option Text
  pub target_ref : Option TargetRef

pub record EndpointSlice : Type 0 where
  pub ports : List SlicePort
  pub endpoints : List SliceEndpoint

-- net.JoinHostPort(host, strconv.Itoa(port))
unfoldable pub join_host_port : Text → ℕ → Text
join_host_port host port =
    if has_byte b':' host
    then b'[' ∷ (host ++ (b']' ∷ b':' ∷ decimal port))
    else host ++ (b':' ∷ decimal port)

abbrev insert_ref : Option TargetRef → Dict Text Attribute → Dict Text Attribute
insert_ref none attrs = attrs
insert_ref (some ref) attrs =
    insert (codes "targetRefName") (text_value ref.name)
      (insert (codes "targetRefKind") (text_value ref.kind) attrs)

-- The loop over the configured attributes.
abbrev insert_configured : Dict Text Text → Dict Text Attribute → Dict Text Attribute
insert_configured [] attrs = attrs
insert_configured ((key, value) ∷ rest) attrs =
    insert_configured rest (insert key (text_value value) attrs)

abbrev insert_optional : Text → Option Text → Dict Text Attribute → Dict Text Attribute
insert_optional key none attrs = attrs
insert_optional key (some value) attrs = insert key (text_value value) attrs

-- The loops of selectPort: the first port that passes.
unfoldable pub find_port : (EndpointPort → Bool) → List EndpointPort → Option EndpointPort
find_port p [] = none
find_port p (port ∷ ports) = let rest = find_port p ports in if p port then some port else rest

module _ {Float : Type 0} (cfg : ResolverConfig Float) where
  unfoldable pub named_port : List EndpointPort → Option EndpointPort
  unfolding find_port
  named_port ports =
      if cfg.port_name == [] then none else find_port (λ p. p.name == cfg.port_name) ports

  unfoldable pub numbered_port : List EndpointPort → Option EndpointPort
  unfolding find_port
  numbered_port ports = if cfg.port == 0 then none else find_port (λ p. p.port == cfg.port) ports

  unfoldable pub select_port : List EndpointPort → Option EndpointPort
  unfolding named_port numbered_port
  select_port [] = none
  select_port (first ∷ ports) = elim (named_port (first ∷ ports)) [
    | some p ↦ some p
    | none ↦ elim (numbered_port (first ∷ ports)) [ some p ↦ some p | none ↦ some first ]
  ]

  unfoldable pub address_endpoint : EndpointAddress → EndpointPort → StateEndpoint
  unfolding join_host_port
  address_endpoint addr port = record {
    address = join_host_port addr.ip port.port;
    protocol = cfg.protocol;
    attributes = insert_configured cfg.endpoint_attributes (
        insert_ref addr.target_ref (
          (codes "hostname", text_value addr.hostname)
          ∷ (codes "nodeName", pointer_value addr.node_name)
          ∷ []));
  }

  -- The body of the loop over a subset's addresses.
  unfoldable pub address_endpoints : Option EndpointPort → EndpointAddress → List StateEndpoint
  unfolding address_endpoint
  address_endpoints none addr = []
  address_endpoints (some port) addr =
      if addr.ip == [] then [] else (address_endpoint addr port ∷ [])

  unfoldable pub addresses_endpoints :
      Option EndpointPort → List EndpointAddress → List StateEndpoint
  unfolding address_endpoints
  addresses_endpoints port [] = []
  addresses_endpoints port (addr ∷ addrs) =
      address_endpoints port addr ++ addresses_endpoints port addrs

  unfoldable pub subsets_endpoints : List EndpointSubset → List StateEndpoint
  unfolding select_port addresses_endpoints
  subsets_endpoints [] = []
  subsets_endpoints (s ∷ subsets) =
      addresses_endpoints (select_port s.ports) s.addresses ++ subsets_endpoints subsets

  unfoldable pub endpoints_to_state : Endpoints → State
  unfolding subsets_endpoints
  endpoints_to_state e = record {
    attributes = (codes "service", e.name) ∷ (codes "namespace", e.namespace) ∷ [];
    endpoints = subsets_endpoints e.subsets;
  }

  abbrev has_port_name : Option Text → Bool
  has_port_name none = false
  has_port_name (some name) = name == cfg.port_name

  unfoldable pub slice_port_value : SlicePort → Option ℕ
  slice_port_value p = elim p.port [
    | none ↦ none
    | some n ↦
        if not (cfg.port_name == []) && not (has_port_name p.name)
        then none
        else if not (cfg.port == 0) && not (n == cfg.port)
        then none
        else some n
  ]

  unfoldable pub slice_endpoint : ℕ → SliceEndpoint → Text → StateEndpoint
  unfolding join_host_port
  slice_endpoint port e addr = record {
    address = join_host_port addr port;
    protocol = cfg.protocol;
    attributes = insert_configured cfg.endpoint_attributes (
        insert_ref e.target_ref (
          insert_optional (codes "zone") e.zone
            (insert_optional (codes "nodeName") e.node_name [])));
  }

  -- The loop over the addresses of an endpoint.
  unfoldable pub slice_addresses : ℕ → SliceEndpoint → List Text → List StateEndpoint
  unfolding slice_endpoint
  slice_addresses port e [] = []
  slice_addresses port e (addr ∷ addrs) =
      let rest = slice_addresses port e addrs in
      if addr == [] then rest else slice_endpoint port e addr ∷ rest

  unfoldable pub slice_endpoints : ℕ → List SliceEndpoint → List StateEndpoint
  unfolding slice_addresses
  slice_endpoints port [] = []
  slice_endpoints port (e ∷ es) = slice_addresses port e e.addresses ++ slice_endpoints port es

  -- The loop over the ports of a slice.
  unfoldable pub slice_ports : List SlicePort → List SliceEndpoint → List StateEndpoint
  unfolding slice_port_value slice_endpoints
  slice_ports [] es = []
  slice_ports (p ∷ ps) es = elim (slice_port_value p) [
    | none ↦ slice_ports ps es
    | some n ↦ slice_endpoints n es ++ slice_ports ps es
  ]

  unfoldable pub slices_endpoints : List EndpointSlice → List StateEndpoint
  unfolding slice_ports
  slices_endpoints [] = []
  slices_endpoints (s ∷ slices) = slice_ports s.ports s.endpoints ++ slices_endpoints slices

  unfoldable pub endpoint_slices_to_state : List EndpointSlice → State
  unfolding slices_endpoints
  endpoint_slices_to_state slices = record { attributes = []; endpoints = slices_endpoints slices }
