-- ===== src/Etcd/Registry/Tests.antt =====
-- The registry's theorems at concrete registrations.
use yggdrasil_ecosystem.Prelude.{
  ◌+◌, ◌*◌, ◌≤◌, ◌<◌, ◌≡◌, ◌≢◌, ◌⊎◌, refl, true, false, some, [], ◌∷◌, nat_eq, second,
}
use yggdrasil_ecosystem.Prelude.Text.{text_eq, text_beq, codes}
use yggdrasil_ecosystem.Prelude.Dict.{lookup, member, lookup-insert}
use yggdrasil_ecosystem.Etcd.Registry.{
  Registry, RegistryConfig, Goroutine, Answers, leaving, plain, ended, new_registry, register_at,
  deregister_at, Others, store_lease,
}
use yggdrasil_ecosystem.Etcd.Registry.Loops.{turn, go_on, is_stopped, step}
use yggdrasil_ecosystem.Etcd.Registry.Loops.Ending.{rank, moves, mover, steps, steps-rank}
use yggdrasil_ecosystem.Etcd.Registry.Laws.{
  deregister_at_stale, register_at_cases, IsRegistered, IsRefused, IsAside, is_accepted,
}
use yggdrasil_ecosystem.Etcd.Registry.Races.{turn_of, register_at_raced}

abbrev config : RegistryConfig
config = record {
  client = [];
  prefix = [];
  ttl = 10 * second;
  keep_alive = some false;
  retry_interval = 0;
}

abbrev granted : Answers
granted = record { granted = some 5; is_put = true }

-- A goroutine of another key that stores its lease meanwhile.
abbrev others : Others
others = record { while_putting = store_lease (codes "m") 3; after_putting = λ r. r }

others-IsAside : IsAside (codes "k") 0 others.while_putting
unfolding store_lease text_beq
others-IsAside = record {
  entry = λ r. lookup-insert (codes "m") (codes "k") _ r.regs;
  goroutine = λ r. refl;
  stopped = λ r h. h;
}

register_at_cases_example :
    ((is_accepted granted ≡ true)
      × ((register_at others granted (codes "k") (codes "v") (new_registry config)).0 ≡ true)
      × IsRegistered
          (codes "k")
          (codes "v")
          (new_registry config).next_context
          (register_at others granted (codes "k") (codes "v") (new_registry config)).1)
    ⊎ ((is_accepted granted ≡ false)
        × ((register_at others granted (codes "k") (codes "v") (new_registry config)).0 ≡ false)
        × IsRefused
            (codes "k")
            (new_registry config).next_context
            (new_registry config)
            (register_at others granted (codes "k") (codes "v") (new_registry config)).1)
unfolding new_registry
register_at_cases_example =
    register_at_cases others granted (codes "k") (codes "v") (new_registry config) others-IsAside
      (record { entry = λ r. refl; goroutine = λ r. refl; stopped = λ r h. h })

-- A registration that leaves, and a newer one of the same key.
abbrev old_one : Goroutine
old_one = record { key = codes "k"; value = codes "v"; phase = leaving }

abbrev new_one : Goroutine
new_one = record { key = codes "k"; value = codes "w"; phase = plain }

abbrev two_registrations : Registry
two_registrations = record {
  cfg = config;
  regs = (codes "k", record { cancel = some 1; lease = 5 }) ∷ [];
  is_closed = false;
  cancelled = 0 ∷ [];
  goroutines = (0, old_one) ∷ (1, new_one) ∷ [];
  next_context = 2;
  requests = [];
}

deregister_at_stale_example :
    (lookup 1 (deregister_at (codes "k") (step 0 turn two_registrations)).goroutines ≡ some new_one)
    × (is_stopped 1 (deregister_at (codes "k") (step 0 turn two_registrations)) ≡ false)
unfolding lookup member
deregister_at_stale_example =
    deregister_at_stale 0 1 old_one new_one two_registrations refl refl refl refl (λ e. cc e) refl

-- The first registration is leaving, and the key has no entry.
abbrev deregistered : Registry
deregistered = record two_registrations { regs = []; goroutines = (0, old_one) ∷ [] }

register_at_raced_example :
    ((register_at (turn_of 0) granted (codes "k") (codes "w") deregistered).0 ≡ true)
    × (lookup 2
          (deregister_at
            (codes "k")
            (register_at (turn_of 0) granted (codes "k") (codes "w") deregistered).1).goroutines
        ≡ some new_one)
    × (is_stopped 2 (
          deregister_at
            (codes "k")
            (register_at (turn_of 0) granted (codes "k") (codes "w") deregistered).1)
        ≡ false)
unfolding lookup member
register_at_raced_example =
    register_at_raced granted (codes "k") (codes "w") 0 old_one deregistered refl refl refl refl
      refl refl

steps-rank_example :
    (h : Goroutine) × (lookup 0 (steps 0 (turn ∷ []) two_registrations).goroutines ≡ some h)
    × (moves (turn ∷ []) leaving + rank h.phase ≤ rank leaving)
    × (rank leaving ≤ 8)
    × (h.phase ≢ ended → rank (go_on true (mover h.phase) h.phase) < rank h.phase)
unfolding lookup member
steps-rank_example = steps-rank 0 (turn ∷ []) old_one two_registrations refl refl
