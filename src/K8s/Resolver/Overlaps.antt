-- ===== src/K8s/Resolver/Overlaps.antt =====
-- modules/k8s/discovery/resolver.go: AddWatch, DelWatch and the publishing of states that run at the same
-- time. A step is one critical section or one UpdateState, and the threads take them in any order.
use yggdrasil_ecosystem.Prelude.{
  ℕ, zero, suc, Option, none, some, List, [], ◌∷◌, ◌++◌, ◌==◌, if◌then◌else◌,
}
use yggdrasil_ecosystem.Prelude.Text.{Text, text_eq, codes}
use yggdrasil_ecosystem.Prelude.Dict.{lookup, insert}
use yggdrasil_ecosystem.Discovery.Table.{snapshot_watchers}
use yggdrasil_ecosystem.K8s.Endpoints.{State}
use yggdrasil_ecosystem.K8s.Resolver.{K8sResolver, Told, tell, joined, unless_failed, del_watch}

-- The resolver and its threads: those of AddWatch between the critical section and getState, those that
-- publish between setState and the snapshot of the watchers, and the calls of UpdateState that are
-- still to be made.
pub record Running : Type 0 where
  pub resolver : K8sResolver
  pub joining : List (Text × ℕ)
  pub notifying : List (Text × State)
  pub pending : List Told

pub data Step : Type 0 where
  join_step leave_step : Text → ℕ → Step
  store_step : Text → State → Step
  read_step snapshot_step tell_step : ℕ → Step

-- The element at an index, and the others.
unfoldable pub pull {ℓ} : {A : Type ℓ} → ℕ → List A → Option (A × List A)
pull n [] = none
pull zero (x ∷ xs) = some (x, xs)
pull (suc n) (x ∷ xs) = elim (pull n xs) [ none ↦ none | some (y, rest) ↦ some (y, x ∷ rest) ]

-- AddWatch up to the end of its critical section.
unfoldable pub join : Text → ℕ → K8sResolver → Option Text × K8sResolver
unfolding unless_failed
join app watcher r =
    unless_failed r.init_err
      (if app == [] then (some (codes "empty app name"), r) else (none, joined app watcher r)) r

-- A thread that has joined goes on to getState, if there was no error.
unfoldable pub after_join : Text → ℕ → Running → Option Text × K8sResolver → Running
after_join app watcher s (none, r) = record s {
  resolver = r;
  joining = s.joining ++ ((app, watcher) ∷ []);
}
after_join app watcher s (some err, r) = record s { resolver = r }

-- getState, and the UpdateState that is then to be made.
unfoldable pub after_read : Text → ℕ → Running → Option State → Running
after_read app watcher s none = s
after_read app watcher s (some state) = record s {
  pending = s.pending ++ tell app (watcher ∷ []) state;
}

unfoldable pub read : Running → Option ((Text × ℕ) × List (Text × ℕ)) → Running
unfolding after_read
read s none = s
read s (some ((app, watcher), rest)) =
    after_read app watcher (record s { joining = rest }) (lookup app s.resolver.states)

-- snapshotWatchers, and the calls of UpdateState that are then to be made.
unfoldable pub snapshot : Running → Option ((Text × State) × List (Text × State)) → Running
snapshot s none = s
snapshot s (some ((app, state), rest)) = record s {
  notifying = rest;
  pending = s.pending ++ tell app (snapshot_watchers app s.resolver.table) state;
}

unfoldable pub update : Running → Option (Told × List Told) → Running
update s none = s
update s (some (told, rest)) = record s {
  pending = rest;
  resolver = record s.resolver { told = s.resolver.told ++ (told ∷ []) };
}

-- One step: the critical section of AddWatch, DelWatch, setState, getState, snapshotWatchers, UpdateState.
unfoldable pub step : Step → Running → Running
unfolding join after_join read snapshot update pull del_watch
step (join_step app watcher) s = after_join app watcher s (join app watcher s.resolver)
step (leave_step app watcher) s = record s { resolver = (del_watch app watcher s.resolver).1 }
step (store_step app state) s = record s {
  resolver = record s.resolver { states = insert app state s.resolver.states };
  notifying = s.notifying ++ ((app, state) ∷ []);
}
step (read_step n) s = read s (pull n s.joining)
step (snapshot_step n) s = snapshot s (pull n s.notifying)
step (tell_step n) s = update s (pull n s.pending)

unfoldable pub steps : List Step → Running → Running
unfolding step
steps [] s = s
steps (x ∷ xs) s = steps xs (step x s)

-- A resolver without any thread.
abbrev pub idle : K8sResolver → Running
idle r = record { resolver = r; joining = []; notifying = []; pending = [] }
