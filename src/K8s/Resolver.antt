-- ===== src/K8s/Resolver.antt =====
-- modules/k8s/discovery/resolver.go and backoff.go: the watches of apps. The watchers and the loops
-- are those of Discovery/Table; a loop goes on by what the cluster's watch delivers. Calls and published
-- states follow each other here; those that run at the same time are in Overlaps. float64 numbers
-- are a parameter with what the source does with them.
pub mod Laws
pub mod Overlaps
pub mod Alone
pub mod Published
pub mod Stale
pub mod Updates
pub mod Retries
mod Tests
use yggdrasil_ecosystem.Prelude.{
  ℕ, ◌+◌, ◌*◌, Bool, true, false, Option, none, some, List, [], ◌∷◌, ◌++◌, map, ◌==◌, nat_eq, ltb,
  if◌then◌else◌, second,
}
use yggdrasil_ecosystem.Prelude.Text.{Text, text_eq, codes}
use yggdrasil_ecosystem.Prelude.Dict.{Dict, lookup, insert, erase}
use yggdrasil_ecosystem.Discovery.Table as Table
use yggdrasil_ecosystem.Discovery.Table.{WatchTable, new_table, snapshot_watchers, without}
use yggdrasil_ecosystem.K8s.Endpoints.{BackoffConfig, ResolverConfig, State}

-- What the configuration's defaults and the backoff do with float64 numbers: the delay
-- time.Duration(base * Pow(multiplier, retry)), with a random part where the jitter is positive.
pub record Delays (Float : Type 0) : Type 0 where
  pub is_zero : Float → Bool
  pub is_positive : Float → Bool
  pub default_multiplier : Float
  pub default_jitter : Float
  pub scaled : ℕ → Float → ℕ → ℕ
  pub jittered : ℕ → Float → ℕ → Float → ℕ

module _ {Float : Type 0} (delays : Delays Float) where
  -- Backoff
  unfoldable pub backoff : BackoffConfig Float → ℕ → ℕ
  backoff cfg retry =
      if retry == 0
      then cfg.base_delay
      else let result =
          if delays.is_positive cfg.jitter
          then delays.jittered cfg.base_delay cfg.multiplier retry cfg.jitter
          else delays.scaled cfg.base_delay cfg.multiplier retry in
        if ltb cfg.max_delay result then cfg.max_delay else result

  abbrev normalize_backoff : BackoffConfig Float → BackoffConfig Float
  normalize_backoff cfg = record {
    base_delay = if cfg.base_delay == 0 then second else cfg.base_delay;
    multiplier =
        if delays.is_zero cfg.multiplier then delays.default_multiplier else cfg.multiplier;
    jitter = if delays.is_zero cfg.jitter then delays.default_jitter else cfg.jitter;
    max_delay = if cfg.max_delay == 0 then 30 * second else cfg.max_delay;
  }

  -- NormalizeConfig, with the value of KUBERNETES_NAMESPACE.
  unfoldable pub normalize_config : Text → ResolverConfig Float → ResolverConfig Float
  normalize_config environment cfg = record cfg {
    namespace =
        if cfg.namespace == []
        then if environment == [] then codes "default" else environment
        else cfg.namespace;
    mode = if cfg.mode == [] then codes "endpointslice" else cfg.mode;
    protocol = if cfg.protocol == [] then codes "grpc" else cfg.protocol;
    backoff = normalize_backoff cfg.backoff;
  }

-- UpdateState of a watcher, by the watch of an app.
pub record Told : Type 0 where
  pub app : Text
  pub watcher : ℕ
  pub state : State

pub record K8sResolver : Type 0 where
  pub init_err : Option Text
  pub table : WatchTable
  pub states : Dict Text State
  pub told : List Told

-- NewResolver, or NewResolverWithError with its error.
unfoldable pub new_resolver : Option Text → K8sResolver
new_resolver init_err = record { init_err = init_err; table = new_table; states = []; told = [] }

abbrev pub tell : Text → List ℕ → State → List Told
tell app watchers state = map (λ w. record { app = app; watcher = w; state = state }) watchers

-- getState and the first update of a new watcher.
unfoldable pub tell_known : Text → ℕ → Option State → K8sResolver → K8sResolver
tell_known app watcher none r = r
tell_known app watcher (some state) r = record r { told = r.told ++ tell app (watcher ∷ []) state }

-- A resolver with an initial error returns it.
unfoldable pub unless_failed :
    Option Text → Option Text × K8sResolver → K8sResolver → Option Text × K8sResolver
unless_failed (some err) result r = (some err, r)
unless_failed none result r = result

abbrev pub joined : Text → ℕ → K8sResolver → K8sResolver
joined app watcher r = record r { table = Table.add_watch app watcher r.table }

-- AddWatch: its error, and the resolver, where nothing else runs between its critical section, getState
-- and the first UpdateState. Overlaps has them as steps of their own.
unfoldable pub add_watch : Text → ℕ → K8sResolver → Option Text × K8sResolver
unfolding unless_failed tell_known
add_watch app watcher r =
    unless_failed r.init_err
      (if app == []
        then (some (codes "empty app name"), r)
        else (none, tell_known app watcher (lookup app r.states) (joined app watcher r)))
      r

-- What DelWatch does to the states: the app's is deleted with its last watcher.
abbrev pub forget : Text → List ℕ → Dict Text State → Dict Text State
forget app [] states = erase app states
forget app (w ∷ ws) states = states

unfoldable pub leave : Text → ℕ → Option (List ℕ) → K8sResolver → K8sResolver
leave app watcher none r = r
leave app watcher (some ws) r = record r {
  table = Table.del_watch app watcher r.table;
  states = forget app (without watcher ws) r.states;
}

-- DelWatch
unfoldable pub del_watch : Text → ℕ → K8sResolver → Option Text × K8sResolver
unfolding unless_failed leave
del_watch app watcher r =
    unless_failed r.init_err (none, leave app watcher (lookup app r.table.watchers) r) r

-- setState and notify, where nothing else runs between setState, the snapshot of the watchers and their
-- updates. Overlaps has them as steps of their own.
unfoldable pub publish : Text → State → K8sResolver → K8sResolver
publish app state r = record r {
  states = insert app state r.states;
  told = r.told ++ tell app (snapshot_watchers app r.table) state;
}

abbrev pub empty_state : State
empty_state = record { attributes = []; endpoints = [] }

-- The kinds of the events of a watch.
pub data EventType : Type 0 where
  added modified deleted bookmark error : EventType

-- What a watch gives: an event, with what the list that follows it returns, none for its error, or
-- the end of the channel.
pub data Delivery : Type 0 where
  event : EventType → Option State → Delivery
  channel_end : Delivery

-- How the loops of watchEndpoints and watchEndpointSlice end, when they do.
pub data WatchEnd : Type 0 where
  watch_error list_error cancelled : WatchEnd
  going_on : WatchEnd

-- The part after an event that is listed again.
abbrev relist : Text → Option State → K8sResolver → WatchEnd × K8sResolver
relist app none r = (list_error, r)
relist app (some state) r = (going_on, publish app state r)

unfoldable pub on_event : Text → EventType → Option State → K8sResolver → WatchEnd × K8sResolver
unfolding publish
on_event app deleted listed r = (going_on, publish app empty_state r)
on_event app added listed r = relist app listed r
on_event app modified listed r = relist app listed r
on_event app bookmark listed r = (going_on, r)
on_event app error listed r = (going_on, r)

-- What follows, unless the watch has ended.
unfoldable pub and_then :
    WatchEnd × K8sResolver → (K8sResolver → WatchEnd × K8sResolver) → WatchEnd × K8sResolver
and_then (going_on, r) next = next r
and_then (watch_error, r) next = (watch_error, r)
and_then (list_error, r) next = (list_error, r)
and_then (cancelled, r) next = (cancelled, r)

-- The loop over the events of one watch.
unfoldable pub on_events :
    Text → List (EventType × Option State) → K8sResolver → WatchEnd × K8sResolver
unfolding on_event and_then
on_events app [] r = (going_on, r)
on_events app ((type, listed) ∷ events) r =
    and_then (on_event app type listed r) (λ r'. on_events app events r')

-- One watch: whether it can be opened, what the first list returns, the events until the channel is
-- closed, and whether the context is done then.
pub record Watch : Type 0 where
  pub is_open : Bool
  pub listed : Option State
  pub events : List (EventType × Option State)
  pub is_done : Bool

-- The body of the loop of watchEndpoints and of watchEndpointSlice.
unfoldable pub watch_once : Text → Watch → K8sResolver → WatchEnd × K8sResolver
unfolding on_events publish and_then
watch_once app w r =
    if w.is_open
    then elim w.listed [
      | none ↦ (list_error, r)
      | some state ↦
          and_then (on_events app w.events (publish app state r))
            (λ r'. (if w.is_done then cancelled else going_on, r'))
    ]
    else (watch_error, r)

-- The loop over the watches, as far as they are given.
unfoldable pub watch_all : Text → List Watch → K8sResolver → WatchEnd × K8sResolver
unfolding watch_once and_then
watch_all app [] r = (going_on, r)
watch_all app (w ∷ ws) r = and_then (watch_once app w r) (λ r'. watch_all app ws r')

-- The fallback to the endpoints: after an error that is not that of the context.
unfoldable pub or_else :
    WatchEnd × K8sResolver → (K8sResolver → WatchEnd × K8sResolver) → WatchEnd × K8sResolver
or_else (going_on, r) next = (going_on, r)
or_else (watch_error, r) next = next r
or_else (list_error, r) next = next r
or_else (cancelled, r) next = (cancelled, r)

-- watch: the endpoint slices first where the mode says so, and the endpoints after an error of them.
unfoldable pub watch : Text → Text → List Watch → List Watch → K8sResolver → WatchEnd × K8sResolver
unfolding watch_all or_else
watch mode app slices endpoints r =
    if mode == codes "endpointslice"
    then or_else (watch_all app slices r) (λ r'. watch_all app endpoints r')
    else watch_all app endpoints r

-- Whether the loop of watchLoop returns.
unfoldable pub next_round {ℓ} : {A : Type ℓ} → WatchEnd → A → A → A
next_round cancelled done rest = done
next_round watch_error done rest = rest
next_round list_error done rest = rest
next_round going_on done rest = rest

-- The retries that watchLoop counts: one for each watch that has ended without the context.
unfoldable pub watch_loop :
    Text → Text → ℕ → List (List Watch × List Watch) → K8sResolver → ℕ × K8sResolver
unfolding watch next_round
watch_loop mode app retries [] r = (retries, r)
watch_loop mode app retries ((slices, endpoints) ∷ rounds) r =
    let (end, r') = watch mode app slices endpoints r in
    next_round end (retries, r') (watch_loop mode app (retries + 1) rounds r')

-- A call of the framework, or a state that the loop of an app publishes.
pub data ResolverCall : Type 0 where
  add_call del_call : Text → ℕ → ResolverCall
  publish_call : Text → State → ResolverCall

unfoldable pub call : ResolverCall → K8sResolver → K8sResolver
unfolding add_watch del_watch publish
call (add_call app watcher) r = (add_watch app watcher r).1
call (del_call app watcher) r = (del_watch app watcher r).1
call (publish_call app state) r = publish app state r

unfoldable pub calls : List ResolverCall → K8sResolver → K8sResolver
unfolding call
calls [] r = r
calls (c ∷ cs) r = calls cs (call c r)
