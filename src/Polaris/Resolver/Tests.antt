-- ===== src/Polaris/Resolver/Tests.antt =====
-- A fetched state that the balancer is updated with, at two instances of one protocol.
use yggdrasil_ecosystem.Prelude.{◌≡◌, refl, true, false, some, [], ◌∷◌}
use yggdrasil_ecosystem.Prelude.Text.{Text, text_eq, text_beq, codes}
use yggdrasil_ecosystem.Prelude.Dict.{lookup, insert, member}
use yggdrasil_ecosystem.Polaris.Picker.{GovernanceConfig}
use yggdrasil_ecosystem.Polaris.Balancer.{new_polaris_balancer, update_state}
use yggdrasil_ecosystem.Polaris.Resolver.{
  ResolverConfig, Instance, Response, is_wanted, allow_set, metadata_matches, instance_endpoint,
  instance_attributes, copy_metadata, state_of,
}
use yggdrasil_ecosystem.Polaris.Resolver.Laws.{seen_endpoint, seen_state, update_state-state_of}

abbrev governance : GovernanceConfig
governance = record {
  namespace = [];
  caller_namespace = [];
  caller_service = [];
  rate_limit = record {
    enable = false;
    token = 0;
    timeout = 0;
    retry_count = 0;
    release = false;
    arguments = [];
  };
  circuit_breaker = false;
  routing = record {
    enable = true;
    recover_all = false;
    routers = [];
    lb_policy = [];
    timeout = 0;
    retry_count = 0;
    arguments = [];
  };
}

abbrev config : ResolverConfig
config = record {
  namespace = [];
  protocols = [];
  refresh_interval = 0;
  timeout = 0;
  retry_count = 0;
  skip_route_filter = false;
  metadata = (codes "env", codes "prod") ∷ [];
}

abbrev instance_at : Text → Text → Instance
instance_at id host = record {
  id = id;
  host = host;
  port = 80;
  weight = 100;
  priority = 0;
  protocol = codes "grpc";
  version = [];
  metadata = (codes "env", codes "prod") ∷ [];
}

abbrev answer : Response
answer = record {
  revision = codes "r1";
  instances = instance_at (codes "i") (codes "h") ∷ instance_at (codes "j") (codes "g") ∷ [];
}

-- The name of an endpoint is its address here, and every client can be made.
update_state-state_of_example :
    lookup
      (codes "i")
      (update_state
        (λ _. some 7)
        (λ _. true)
        (seen_state (λ _ address. address) (state_of config (codes "app") answer))
        (record (new_polaris_balancer (codes "app") governance) {
          remote_by_name = some [];
        })).remote_by_instance
    ≡ some 7
unfolding is_wanted allow_set metadata_matches member lookup text_beq instance_attributes
    copy_metadata instance_endpoint seen_endpoint insert
update_state-state_of_example =
    update_state-state_of (λ _ address. address) (λ _. some 7) (λ _. true) config (codes "app")
      answer []
      (record (new_polaris_balancer (codes "app") governance) { remote_by_name = some [] }) []
      (instance_at (codes "j") (codes "g") ∷ []) (instance_at (codes "i") (codes "h")) 7 refl refl
      refl refl refl refl refl
