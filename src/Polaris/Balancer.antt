-- ===== src/Polaris/Balancer.antt =====
-- modules/polaris/traffic/balancer.go: the balancer. Remote clients are numbers; the client that the
-- framework makes for an endpoint, if it makes one, and whether a client is ready are arguments. Maps
-- are empty where they are nil, apart from remoteByName, which is none after Close.
pub mod Laws
mod Tests
use yggdrasil_ecosystem.Prelude.{
  ℕ, Bool, true, false, Option, none, some, List, [], ◌∷◌, ◌++◌, map, ◌==◌, if◌then◌else◌, keep,
}
use yggdrasil_ecosystem.Prelude.Text.{Text, text_eq}
use yggdrasil_ecosystem.Prelude.Dict.{Dict, lookup, insert}
use yggdrasil_ecosystem.Polaris.Picker.{PolarisPicker, InstancesResponse, GovernanceConfig}

-- The name of an endpoint, and its attribute instance_id where that is a string.
pub record StateEndpoint : Type 0 where
  pub name : Text
  pub instance_id : Option Text

pub record State : Type 0 where
  pub endpoints : List StateEndpoint
  pub polaris_instances_response : Option InstancesResponse

pub record PolarisBalancer : Type 0 where
  pub service_name : Text
  pub governance : GovernanceConfig
  pub remote_by_name : Option (Dict Text ℕ)
  pub remote_by_instance : Dict Text ℕ
  pub instances_response : Option InstancesResponse
  -- What the balancer has done: the pickers given to the framework, and the clients that have been
  -- connected and closed.
  pub pickers : List PolarisPicker
  pub connected : List ℕ
  pub closed : List ℕ

unfoldable pub new_polaris_balancer : Text → GovernanceConfig → PolarisBalancer
new_polaris_balancer service governance = record {
  service_name = service;
  governance = governance;
  remote_by_name = some [];
  remote_by_instance = [];
  instances_response = none;
  pickers = [];
  connected = [];
  closed = [];
}

abbrev pub clients : Dict Text ℕ → List ℕ
clients remotes = map (λ e. e.1) remotes

abbrev pub names_of : Option (Dict Text ℕ) → Dict Text ℕ
names_of none = []
names_of (some remotes) = remotes

-- The entries whose client is ready.
unfoldable pub ready_entries : (ℕ → Bool) → Dict Text ℕ → Dict Text ℕ
ready_entries ready remotes = keep (λ e. ready e.1) remotes

unfoldable pub build_picker : (ℕ → Bool) → PolarisBalancer → PolarisPicker
unfolding ready_entries
build_picker ready b = record {
  service_name = b.service_name;
  instances_response = b.instances_response;
  ready_by_instance = ready_entries ready b.remote_by_instance;
  ready_any = clients (ready_entries ready (names_of b.remote_by_name));
  idx = 0;
  governance = b.governance;
}

abbrev pub publish : (ℕ → Bool) → PolarisBalancer → PolarisBalancer
publish ready b = record b { pickers = b.pickers ++ (build_picker ready b ∷ []) }

-- Close
unfoldable pub close : (ℕ → Bool) → PolarisBalancer → PolarisBalancer
unfolding build_picker
close ready b =
    let b' =
      publish ready
        (record b { remote_by_name = none; remote_by_instance = []; instances_response = none }) in
    record b' { closed = b'.closed ++ clients (names_of b.remote_by_name) }

-- nextByName, nextByInstance, and the clients that are connected.
pub record NextRemotes : Type 0 where
  pub by_name : Dict Text ℕ
  pub by_instance : Dict Text ℕ
  pub made : List ℕ

-- An instance_id that is a string and not empty.
unfoldable pub insert_instance : Option Text → ℕ → Dict Text ℕ → Dict Text ℕ
insert_instance none client remotes = remotes
insert_instance (some id) client remotes = if id == [] then remotes else insert id client remotes

unfoldable pub enter : StateEndpoint → ℕ → List ℕ → NextRemotes → NextRemotes
unfolding insert_instance
enter e client made next = record {
  by_name = insert e.name client next.by_name;
  by_instance = insert_instance e.instance_id client next.by_instance;
  made = next.made ++ made;
}

-- The body of the loop of UpdateState: the client that is there, or a new one, none for an error or
-- a nil client.
unfoldable pub next_remote :
    (StateEndpoint → Option ℕ) → Dict Text ℕ → StateEndpoint → NextRemotes → NextRemotes
unfolding enter
next_remote new_client old e next = elim (lookup e.name old) [
  | some client ↦ enter e client [] next
  | none ↦ elim (new_client e) [ none ↦ next | some client ↦ enter e client (client ∷ []) next ]
]

unfoldable pub next_remotes :
    (StateEndpoint → Option ℕ) → Dict Text ℕ → List StateEndpoint → NextRemotes → NextRemotes
unfolding next_remote
next_remotes new_client old [] next = next
next_remotes new_client old (e ∷ es) next =
    next_remotes new_client old es (next_remote new_client old e next)

abbrev pub no_remotes : NextRemotes
no_remotes = record { by_name = []; by_instance = []; made = [] }

-- UpdateState on a balancer that has not been closed.
unfoldable pub update_open :
    (StateEndpoint → Option ℕ)
    → (ℕ → Bool)
    → State
    → Dict Text ℕ
    → PolarisBalancer
    → PolarisBalancer
unfolding next_remotes build_picker
update_open new_client ready state old b =
    let next = next_remotes new_client old state.endpoints no_remotes in
    publish ready (record b {
      remote_by_name = some next.by_name;
      remote_by_instance = next.by_instance;
      instances_response = state.polaris_instances_response;
      connected = b.connected ++ next.made;
    })

unfoldable pub update_from :
    (StateEndpoint → Option ℕ)
    → (ℕ → Bool)
    → State
    → Option (Dict Text ℕ)
    → PolarisBalancer
    → PolarisBalancer
unfolding update_open
update_from new_client ready state none b = b
update_from new_client ready state (some old) b = update_open new_client ready state old b

-- UpdateState
unfoldable pub update_state :
    (StateEndpoint → Option ℕ) → (ℕ → Bool) → State → PolarisBalancer → PolarisBalancer
unfolding update_from
update_state new_client ready state b = update_from new_client ready state b.remote_by_name b

-- updateRemoteClientState
unfoldable pub update_remote_client_state : (ℕ → Bool) → PolarisBalancer → PolarisBalancer
unfolding build_picker
update_remote_client_state ready b = elim b.remote_by_name [ none ↦ b | some old ↦ publish ready b ]
