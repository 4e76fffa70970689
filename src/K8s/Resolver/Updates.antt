-- ===== src/K8s/Resolver/Updates.antt =====
-- What the watchers of an app have been told last, where calls and published states do not overlap.
use yggdrasil_ecosystem.Prelude.{
  ℕ, ◌≡◌, true, ◌&&◌, Option, none, some, List, [], ◌∷◌, ◌++◌, arith, ◌==◌, nat_eq, nat_beq_iff,
  if◌then◌else◌,
}
use yggdrasil_ecosystem.Prelude.Text.{Text, text_eq, text_beq_iff}
use yggdrasil_ecosystem.Prelude.Dict.{lookup, member, lookup-insert, lookup-erase}
use yggdrasil_ecosystem.Discovery.Table as Table
use yggdrasil_ecosystem.Discovery.Table.{without, snapshot_watchers}
use yggdrasil_ecosystem.Discovery.Table.Watching.{watching-add_watch, watching-del_watch}
use yggdrasil_ecosystem.K8s.Endpoints.{State}
use yggdrasil_ecosystem.K8s.Resolver.Laws.{add_watch_either, del_watch_either}
use yggdrasil_ecosystem.K8s.Resolver.{
  K8sResolver, Told, new_resolver, tell, forget, add_watch, del_watch, publish, ResolverCall,
  add_call, del_call, publish_call, call, calls,
}

-- The last state that a watcher has been told for an app.
abbrev pub last_told : Text → ℕ → List Told → Option State
last_told app w [] = none
last_told app w (t ∷ ts) = elim (last_told app w ts) [
  | some state ↦ some state
  | none ↦ if t.app == app && t.watcher == w then some t.state else none
]

-- Every watcher of an app knows the app's state, if there is one.
unfoldable pub IsUpToDate : K8sResolver → Type 0
IsUpToDate r =
    (app : Text) (w : ℕ) (state : State)
    → member w (snapshot_watchers app r.table) ≡ true
    → lookup app r.states ≡ some state
    → last_told app w r.told ≡ some state

pub last_told-append :
    (app : Text) (w : ℕ) (ts us : List Told)
    → last_told app w (ts ++ us)
      ≡ elim (last_told app w us) [ some state ↦ some state | none ↦ last_told app w ts ]
last_told-append app w [] us = ground arith
last_told-append app w (t ∷ ts) us = ground (arith, last_told-append app w ts us)

pub last_told-tell :
    (app to : Text) (w : ℕ) (ws : List ℕ) (state : State)
    → last_told app w (tell to ws state) ≡ (if to == app && member w ws then some state else none)
unfolding member
last_told-tell app to w [] state = ground arith
last_told-tell app to w (x ∷ ws) state = ground (arith, last_told-tell app to w ws state)

publish-IsUpToDate :
    (app : Text) (state : State) (r : K8sResolver) → IsUpToDate r → IsUpToDate (publish app state r)
unfolding publish IsUpToDate
publish-IsUpToDate app state r ok to w s watches known = grind (
  arith,
  last_told-append to w r.told (tell app (snapshot_watchers app r.table) state),
  last_told-tell to app w (snapshot_watchers app r.table) state,
  lookup-insert app to state r.states,
  text_beq_iff app to,
  ok to w s,
  watches,
  known,
)

joined_unknown :
    (app : Text) (watcher : ℕ) (r : K8sResolver)
    → lookup app r.states ≡ none
    → IsUpToDate r
    → IsUpToDate (record r { table = Table.add_watch app watcher r.table })
unfolding IsUpToDate
joined_unknown app watcher r unknown ok to w s watches known = grind (
  arith,
  watching-add_watch app to watcher w r.table,
  text_beq_iff app to,
  ok to w s,
  unknown,
  watches,
  known,
)

joined_known :
    (app : Text) (watcher : ℕ) (state : State) (r : K8sResolver)
    → lookup app r.states ≡ some state
    → IsUpToDate r
    → IsUpToDate (record r {
      table = Table.add_watch app watcher r.table;
      told = r.told ++ tell app (watcher ∷ []) state;
    })
unfolding IsUpToDate
joined_known app watcher state r held ok to w s watches known = grind (
  arith,
  last_told-append to w r.told (tell app (watcher ∷ []) state),
  watching-add_watch app to watcher w r.table,
  text_beq_iff app to,
  nat_beq_iff watcher w,
  ok to w s,
  held,
  watches,
  known,
)

add_watch-IsUpToDate :
    (app : Text) (watcher : ℕ) (r : K8sResolver)
    → IsUpToDate r
    → IsUpToDate (add_watch app watcher r).1
add_watch-IsUpToDate app watcher r ok =
    add_watch_either IsUpToDate app watcher r ok
      (λ unknown. joined_unknown app watcher r unknown ok)
      (λ state known. joined_known app watcher state r known ok)

-- The state of an app is kept, or forgotten.
left_IsUpToDate :
    (app : Text) (watcher : ℕ) (ws : List ℕ) (r : K8sResolver)
    → IsUpToDate r
    → IsUpToDate
        (record r { table = Table.del_watch app watcher r.table; states = forget app ws r.states })
unfolding IsUpToDate
left_IsUpToDate app watcher [] r ok to w s watches known = grind (
  arith,
  watching-del_watch app to watcher w r.table,
  lookup-erase app to r.states,
  ok to w s,
  watches,
  known,
)
left_IsUpToDate app watcher (x ∷ ws) r ok to w s watches known =
    grind (arith, watching-del_watch app to watcher w r.table, ok to w s, watches, known)

del_watch-IsUpToDate :
    (app : Text) (watcher : ℕ) (r : K8sResolver)
    → IsUpToDate r
    → IsUpToDate (del_watch app watcher r).1
del_watch-IsUpToDate app watcher r ok =
    del_watch_either IsUpToDate app watcher r ok
      (λ ws. left_IsUpToDate app watcher (without watcher ws) r ok)

call-IsUpToDate : (c : ResolverCall) (r : K8sResolver) → IsUpToDate r → IsUpToDate (call c r)
unfolding call
call-IsUpToDate (add_call app watcher) r ok = add_watch-IsUpToDate app watcher r ok
call-IsUpToDate (del_call app watcher) r ok = del_watch-IsUpToDate app watcher r ok
call-IsUpToDate (publish_call app state) r ok = publish-IsUpToDate app state r ok

calls_keep : (cs : List ResolverCall) (r : K8sResolver) → IsUpToDate r → IsUpToDate (calls cs r)
unfolding calls
calls_keep [] r ok = ok
calls_keep (c ∷ cs) r ok = calls_keep cs (call c r) (call-IsUpToDate c r ok)

-- After any calls and published states that do not overlap, each running from its start to its last
-- UpdateState before the next one starts, whoever watches an app has last been told, for that app, the
-- state that the resolver keeps for it, if it keeps one.
pub calls-IsUpToDate :
    (init_err : Option Text) (cs : List ResolverCall)
    → IsUpToDate (calls cs (new_resolver init_err))
unfolding new_resolver IsUpToDate lookup
calls-IsUpToDate init_err cs =
    calls_keep cs (new_resolver init_err) (λ app w state _ known. cc known)
