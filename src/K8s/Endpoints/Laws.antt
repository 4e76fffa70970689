-- ===== src/K8s/Endpoints/Laws.antt =====
-- Which port is selected, and which addresses a state of endpoint slices has.
use yggdrasil_ecosystem.Prelude.{
  ℕ, ◌≡◌, ◌≢◌, refl, ◌∙◌, ◌⊎◌, inl, inr, Bool, true, false, not, ◌&&◌, ◌||◌, Option, none, some,
  List, [], ◌∷◌, ◌++◌, arith, ◌==◌, nat_eq, nat_beq_iff, any, Any, Option-cases, Bool-cases,
}
use yggdrasil_ecosystem.Prelude.Text.{Text, text_eq, text_beq_iff}
use yggdrasil_ecosystem.K8s.Endpoints.{
  ResolverConfig, EndpointPort, SlicePort, SliceEndpoint, EndpointSlice, StateEndpoint,
  join_host_port, find_port, named_port, numbered_port, select_port, slice_port_value,
  slice_endpoint, slice_addresses, slice_endpoints, slice_ports, slices_endpoints,
}

any-append :
    {A : Type 0} (p : A → Bool) (xs ys : List A) → any p (xs ++ ys) ≡ (any p xs || any p ys)
any-append p [] ys = refl
any-append p (x ∷ xs) ys = ground (arith, any-append p xs ys)

find_port_cases :
    (p : EndpointPort → Bool) (ports : List EndpointPort)
    → ((find_port p ports ≡ none) × (any p ports ≡ false))
      ⊎ ((q : EndpointPort) × (find_port p ports ≡ some q) × Any (λ r. r ≡ q) ports × (p q ≡ true))
unfolding find_port
find_port_cases p [] = inl (refl, refl)
find_port_cases p (port ∷ ports) = elim (Bool-cases (p port)) [
  | inl here ↦ rw here (inr (port, refl, inl refl, here))
  | inr away ↦ rw away (elim (find_port_cases p ports) [
    | inl (missing, nowhere) ↦ inl (missing, nowhere)
    | inr (q, found, at, passes) ↦ inr (q, found, inr at, passes)
  ])
]

module _ (Float : Type 0) (cfg : ResolverConfig Float) where
  -- An address of an endpoint that is not empty, joined with the port.
  abbrev pub serves : Text → ℕ → SliceEndpoint → Bool
  serves address port e = any (λ a. not (a == []) && join_host_port a port == address) e.addresses

  abbrev pub is_wanted_name : Option Text → Bool
  is_wanted_name none = cfg.port_name == []
  is_wanted_name (some name) = cfg.port_name == [] || name == cfg.port_name

  -- A port with a number, of the configured name where one is configured, and of the configured number
  -- where one is configured.
  abbrev pub port_serves : Text → List SliceEndpoint → Option Text → Option ℕ → Bool
  port_serves address es name none = false
  port_serves address es name (some port) =
      (is_wanted_name name && (cfg.port == 0 || port == cfg.port)) && any (serves address port) es

  served : Text → List SliceEndpoint → Option ℕ → Bool
  served address es none = false
  served address es (some port) = any (serves address port) es

  served-slice_port_value :
      (address : Text) (es : List SliceEndpoint) (name : Option Text) (port : Option ℕ)
      → served address es (slice_port_value cfg (record { name = name; port = port }))
        ≡ port_serves address es name port
  unfolding slice_port_value served
  served-slice_port_value address es name none = refl
  served-slice_port_value address es none (some port) = ground arith
  served-slice_port_value address es (some name) (some port) = ground arith

  abbrev pub slice_serves : Text → EndpointSlice → Bool
  slice_serves address s = any (λ p. port_serves address s.endpoints p.name p.port) s.ports

  abbrev pub is_at : Text → StateEndpoint → Bool
  is_at address e = e.address == address

  any-slice_addresses :
      (address : Text) (port : ℕ) (e : SliceEndpoint) (addrs : List Text)
      → any (is_at address) (slice_addresses cfg port e addrs)
        ≡ any (λ a. not (a == []) && join_host_port a port == address) addrs
  unfolding slice_addresses slice_endpoint
  any-slice_addresses address port e [] = refl
  any-slice_addresses address port e (a ∷ addrs) =
      ground (arith, any-slice_addresses address port e addrs)

  any-slice_endpoints :
      (address : Text) (port : ℕ) (es : List SliceEndpoint)
      → any (is_at address) (slice_endpoints cfg port es) ≡ any (serves address port) es
  unfolding slice_endpoints
  any-slice_endpoints address port [] = refl
  any-slice_endpoints address port (e ∷ es) =
      any-append (is_at address) (slice_addresses cfg port e e.addresses)
        (slice_endpoints cfg port es)
      ∙ ground (
        arith,
        any-slice_addresses address port e e.addresses,
        any-slice_endpoints address port es,
      )

  any-slice_port :
      (address : Text) (name : Option Text) (port : Option ℕ) (ps : List SlicePort)
      (es : List SliceEndpoint)
      → any (is_at address) (slice_ports cfg (record { name = name; port = port } ∷ ps) es) ≡ (
          served address es (slice_port_value cfg (record { name = name; port = port }))
          || any (is_at address) (slice_ports cfg ps es))
  unfolding slice_ports served
  any-slice_port address name port ps es =
      elim (Option-cases (slice_port_value cfg (record { name = name; port = port }))) [
        | inl none_given ↦ rw (slice_ports, none_given) refl
        | inr (n, given) ↦
            rw (slice_ports, given)
              (any-append (is_at address) (slice_endpoints cfg n es) (slice_ports cfg ps es)
                ∙ ground (arith, any-slice_endpoints address n es))
      ]

  any-slice_ports :
      (address : Text) (ps : List SlicePort) (es : List SliceEndpoint)
      → any (is_at address) (slice_ports cfg ps es)
        ≡ any (λ p. port_serves address es p.name p.port) ps
  unfolding slice_ports
  any-slice_ports address [] es = refl
  any-slice_ports address (p ∷ ps) es =
      any-slice_port address p.name p.port ps es
      ∙ ground
          (arith, served-slice_port_value address es p.name p.port, any-slice_ports address ps es)

  -- A state of endpoint slices has an endpoint at an address exactly when some slice has an endpoint
  -- with an address that is not empty and a port with a number, which join to that address: the port
  -- has the configured name, where one is configured, and the configured number, where one is.
  pub any-slices_endpoints :
      (address : Text) (slices : List EndpointSlice)
      → any (is_at address) (slices_endpoints cfg slices) ≡ any (slice_serves address) slices
  unfolding slices_endpoints
  any-slices_endpoints address [] = refl
  any-slices_endpoints address (s ∷ slices) =
      any-append (is_at address) (slice_ports cfg s.ports s.endpoints) (slices_endpoints cfg slices)
      ∙ ground
          (arith, any-slice_ports address s.ports s.endpoints, any-slices_endpoints address slices)

  -- The port of a subset: the first of the configured name, or else the first of the configured number,
  -- or else the first of all.
  pub data IsSelected (first : EndpointPort) (ports : List EndpointPort)
      : EndpointPort → Type 0 where
    by_name :
        (p : EndpointPort)
        → Any (λ q. q ≡ p) (first ∷ ports)
        → cfg.port_name ≢ []
        → p.name ≡ cfg.port_name
        → IsSelected first ports p
    by_number :
        (p : EndpointPort)
        → Any (λ q. q ≡ p) (first ∷ ports)
        → cfg.port ≢ 0
        → p.port ≡ cfg.port
        → (cfg.port_name ≡ []) ⊎ (any (λ q. q.name == cfg.port_name) (first ∷ ports) ≡ false)
        → IsSelected first ports p
    by_place :
        (cfg.port_name ≡ []) ⊎ (any (λ q. q.name == cfg.port_name) (first ∷ ports) ≡ false)
        → (cfg.port ≡ 0) ⊎ (any (λ q. q.port == cfg.port) (first ∷ ports) ≡ false)
        → IsSelected first ports first

  IsByName : List EndpointPort → Type 0
  IsByName ports =
      (((cfg.port_name ≡ []) ⊎ (any (λ q. q.name == cfg.port_name) ports ≡ false))
        × (named_port cfg ports ≡ none))
      ⊎ ((p : EndpointPort) × (named_port cfg ports ≡ some p)
          × Any (λ q. q ≡ p) ports
          × (cfg.port_name ≢ [])
          × (p.name ≡ cfg.port_name))

  named_port-IsByName : (ports : List EndpointPort) → IsByName ports
  unfolding named_port IsByName
  named_port-IsByName ports = elim (Bool-cases (cfg.port_name == [])) [
    | inl empty ↦ rw (named_port, empty) (inl (inl ((text_beq_iff cfg.port_name []).0 empty), refl))
    | inr given ↦ elim (find_port_cases (λ p. p.name == cfg.port_name) ports) [
      | inl (missing, nowhere) ↦ rw (named_port, given) (inl (inr nowhere, missing))
      | inr (p, found, at, passes) ↦
          rw (named_port, given)
            (inr (
              p,
              found,
              at,
              (λ e. ground (arith, given, e, text_beq_iff cfg.port_name [])),
              (text_beq_iff p.name cfg.port_name).0 passes,
            ))
    ]
  ]

  IsByNumber : List EndpointPort → Type 0
  IsByNumber ports =
      (((cfg.port ≡ 0) ⊎ (any (λ q. q.port == cfg.port) ports ≡ false))
        × (numbered_port cfg ports ≡ none))
      ⊎ ((p : EndpointPort) × (numbered_port cfg ports ≡ some p)
          × Any (λ q. q ≡ p) ports
          × (cfg.port ≢ 0)
          × (p.port ≡ cfg.port))

  numbered_port-IsByNumber : (ports : List EndpointPort) → IsByNumber ports
  unfolding numbered_port IsByNumber
  numbered_port-IsByNumber ports = elim (Bool-cases (cfg.port == 0)) [
    | inl empty ↦ rw (numbered_port, empty) (inl (inl ((nat_beq_iff cfg.port 0).0 empty), refl))
    | inr given ↦ elim (find_port_cases (λ p. p.port == cfg.port) ports) [
      | inl (missing, nowhere) ↦ rw (numbered_port, given) (inl (inr nowhere, missing))
      | inr (p, found, at, passes) ↦
          rw (numbered_port, given)
            (inr (
              p,
              found,
              at,
              (λ e. ground (arith, given, e)),
              (nat_beq_iff p.port cfg.port).0 passes,
            ))
    ]
  ]

  -- Every subset with ports has a selected one: the first list entry is only taken where no port has
  -- the configured name and none has the configured number.
  pub select_port-IsSelected :
      (first : EndpointPort) (ports : List EndpointPort)
      → (p : EndpointPort) × (select_port cfg (first ∷ ports) ≡ some p) × IsSelected first ports p
  unfolding select_port IsByName IsByNumber
  select_port-IsSelected first ports = elim (named_port-IsByName (first ∷ ports)) [
    | inr (p, found, at, given, same) ↦ rw (select_port, found) (p, refl, by_name p at given same)
    | inl (unnamed, missing) ↦ elim (numbered_port-IsByNumber (first ∷ ports)) [
      | inr (p, found, at, given, same) ↦
          rw (select_port, missing, found) (p, refl, by_number p at given same unnamed)
      | inl (unnumbered, absent) ↦
          rw (select_port, missing, absent) (first, refl, by_place unnamed unnumbered)
    ]
  ]
