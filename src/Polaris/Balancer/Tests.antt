-- ===== src/Polaris/Balancer/Tests.antt =====
-- The balancer's and the picker's theorems at concrete clients.
use yggdrasil_ecosystem.Prelude.{
  ℕ, ◌≡◌, ◌≢◌, All, nat_eq, refl, inl, inr, Bool, true, false, none, some, [], ◌∷◌, ◌++◌, ◌==◌, any,
  ltb,
}
use yggdrasil_ecosystem.Prelude.Text.{Text, text_eq, codes}
use yggdrasil_ecosystem.Prelude.Dict.{lookup}
use yggdrasil_ecosystem.Polaris.Picker.{
  PolarisPicker, GovernanceConfig, RpcInfo, Sdk, pick_remote, next, unless_error, rate_limit_error,
  breaker_error, rand_all_ready, taken, pick_by_routing, pick_filtered, pick_routed, pick_balanced,
  client_of, filter_ready_instances,
}
use yggdrasil_ecosystem.Polaris.Picker.Laws.{IsRound, pick_remote-IsRound}
use yggdrasil_ecosystem.Polaris.Balancer.{
  PolarisBalancer, StateEndpoint, State, clients, names_of, build_picker, close, update_state,
  ready_entries,
}
use yggdrasil_ecosystem.Polaris.Balancer.Laws.{client_for, next-build_picker, close-update_state}

abbrev governance : GovernanceConfig
governance = record {
  namespace = [];
  caller_namespace = [];
  caller_service = [];
  rate_limit = record {
    enable = false;
    token = 0;
    timeout = 0;
    retry_count = 0;
    release = false;
    arguments = [];
  };
  circuit_breaker = false;
  routing = record {
    enable = true;
    recover_all = false;
    routers = [];
    lb_policy = [];
    timeout = 0;
    retry_count = 0;
    arguments = [];
  };
}

-- An SDK that passes everything and always chooses the instance i.
abbrev sdk : Sdk
sdk = record {
  limit_err = none;
  get_quota = λ _. inl (codes "off");
  waited = λ _. none;
  cb_err = none;
  new_method_resource = λ _. none;
  check = λ _. inr none;
  router_err = none;
  process_routers = λ request. inr request.dst_instances;
  process_load_balance = λ _ _. inr (some (codes "i"));
}

abbrev call_info : RpcInfo
call_info = record { method = codes "m"; out_metadata = none }

-- Two clients, of which only that of an endpoint without an instance is ready.
abbrev balancer : PolarisBalancer
balancer = record {
  service_name = codes "svc";
  governance = governance;
  remote_by_name = some ((codes "a", 1) ∷ (codes "b", 2) ∷ []);
  remote_by_instance = (codes "i", 1) ∷ [];
  instances_response = some (record { instances = some (codes "i") ∷ [] });
  pickers = [];
  connected = [];
  closed = [];
}

abbrev second_only : ℕ → Bool
second_only client = ltb 1 client

abbrev picker : PolarisPicker
picker = record {
  service_name = codes "svc";
  instances_response = some (record { instances = some (codes "i") ∷ [] });
  ready_by_instance = [];
  ready_any = 2 ∷ [];
  idx = 0;
  governance = governance;
}

pick_remote-IsRound_example : IsRound picker (pick_remote sdk picker call_info)
pick_remote-IsRound_example = pick_remote-IsRound sdk picker call_info refl

next-build_picker_example : second_only 2 ≡ true
unfolding next unless_error rate_limit_error breaker_error pick_remote pick_by_routing pick_filtered
    pick_routed pick_balanced client_of filter_ready_instances rand_all_ready taken build_picker
    ready_entries lookup
next-build_picker_example = next-build_picker second_only balancer sdk call_info 2 refl

abbrev only_a : State
only_a = record {
  endpoints = record { name = codes "a"; instance_id = some (codes "i") } ∷ [];
  polaris_instances_response = none;
}

close-update_state_example :
    ((name : Text) (client : ℕ)
      → lookup name ((codes "a", 1) ∷ (codes "b", 2) ∷ []) ≡ some client
      → any (λ (e : StateEndpoint). e.name == name) only_a.endpoints ≡ true
      → lookup name (names_of (update_state (λ _. none) second_only only_a balancer).remote_by_name)
        ≡ some client)
    × ((close second_only (update_state (λ _. none) second_only only_a balancer)).closed
        ≡ []
          ++ clients
              (names_of (update_state (λ _. none) second_only only_a balancer).remote_by_name))
    × ((client : ℕ)
        → All
            (λ (e : StateEndpoint).
              client_for (λ _. none) ((codes "a", 1) ∷ (codes "b", 2) ∷ []) e ≢ some client)
            only_a.endpoints
        → any
            (λ c. c == client)
            (close second_only (update_state (λ _. none) second_only only_a balancer)).closed
          ≡ any (λ c. c == client) [])
    × (update_state
          (λ _. none)
          second_only
          only_a
          (close second_only (update_state (λ _. none) second_only only_a balancer))
        ≡ close second_only (update_state (λ _. none) second_only only_a balancer))
close-update_state_example =
    close-update_state (λ _. none) second_only only_a ((codes "a", 1) ∷ (codes "b", 2) ∷ [])
      balancer refl
