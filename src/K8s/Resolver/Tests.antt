-- ===== src/K8s/Resolver/Tests.antt =====
-- The resolver's theorems at concrete calls and objects.
use yggdrasil_ecosystem.Prelude.{ℕ, ◌≡◌, refl, true, nat_eq, All, none, some, List, [], ◌∷◌, any}
use yggdrasil_ecosystem.Prelude.Text.{text_eq, text_beq, codes}
use yggdrasil_ecosystem.K8s.Endpoints.{
  State, BackoffConfig, ResolverConfig, EndpointSlice, slices_endpoints,
}
use yggdrasil_ecosystem.K8s.Endpoints.Laws.{any-slices_endpoints, is_at, slice_serves}
use yggdrasil_ecosystem.K8s.Resolver.{K8sResolver, new_resolver, empty_state}
use yggdrasil_ecosystem.K8s.Resolver.Updates.{last_told}
use yggdrasil_ecosystem.K8s.Resolver.Overlaps.{
  Step, join_step, store_step, snapshot_step, read_step, tell_step, steps, idle,
}
use yggdrasil_ecosystem.K8s.Resolver.Published.{IsKnown, IsFair, steps-IsFair}
use yggdrasil_ecosystem.K8s.Resolver.Stale.{late_update, last_told-late_update}
use yggdrasil_ecosystem.Prelude.Dict.{lookup, member}
use yggdrasil_ecosystem.Discovery.Table.{snapshot_watchers}

-- A state that a loop has left behind, and a newer one.
abbrev left_behind : K8sResolver
left_behind = record (new_resolver none) { states = (codes "app", empty_state) ∷ [] }

abbrev newer : State
newer = record { attributes = (codes "revision", codes "2") ∷ []; endpoints = [] }

last_told-late_update_example :
    (last_told
        (codes "app")
        1
        (steps (late_update (codes "app") 1 newer left_behind) (idle left_behind)).resolver.told
      ≡ some empty_state)
    × (lookup
          (codes "app")
          (steps (late_update (codes "app") 1 newer left_behind) (idle left_behind)).resolver.states
        ≡ some newer)
    × (member 1 (
          snapshot_watchers
            (codes "app")
            (steps
              (late_update (codes "app") 1 newer left_behind)
              (idle left_behind)).resolver.table)
        ≡ true)
unfolding new_resolver lookup text_beq
last_told-late_update_example =
    last_told-late_update (codes "app") 1 empty_state newer left_behind refl (λ e. cc e) refl

-- An AddWatch and a published state that overlap.
abbrev overlap : List Step
overlap =
    join_step (codes "app") 1
    ∷ store_step (codes "app") newer
    ∷ snapshot_step 0
    ∷ read_step 0
    ∷ tell_step 1
    ∷ tell_step 0
    ∷ []

steps-IsFair_example :
    All
      (IsFair (λ _ state. state ≡ newer) (λ app w. (app ≡ codes "app") × (w ≡ 1)))
      (steps overlap (idle (new_resolver none))).resolver.told
unfolding IsKnown
steps-IsFair_example =
    steps-IsFair (λ _ state. state ≡ newer) (λ app w. (app ≡ codes "app") × (w ≡ 1)) none overlap
      ((refl, refl), (refl, (tt, (tt, (tt, (tt, tt))))))

abbrev waits : BackoffConfig ℕ
waits = record { base_delay = 10; multiplier = 2; jitter = 0; max_delay = 30 }

abbrev config : ResolverConfig ℕ
config = record {
  namespace = codes "default";
  mode = codes "endpointslice";
  port_name = codes "grpc";
  port = 0;
  protocol = codes "grpc";
  kubeconfig = [];
  resync_period = 0;
  timeout = 0;
  backoff = waits;
  endpoint_attributes = [];
}

abbrev slice : EndpointSlice
slice = record {
  ports = record { name = some (codes "grpc"); port = some 80 } ∷ [];
  endpoints =
      record { addresses = codes "10.0.0.1" ∷ []; node_name = none; zone = none; target_ref = none }
      ∷ [];
}

any-slices_endpoints_example :
    any (is_at ℕ config (codes "10.0.0.1:80")) (slices_endpoints config (slice ∷ []))
    ≡ any (slice_serves ℕ config (codes "10.0.0.1:80")) (slice ∷ [])
any-slices_endpoints_example = any-slices_endpoints ℕ config (codes "10.0.0.1:80") (slice ∷ [])
