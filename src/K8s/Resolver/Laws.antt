-- ===== src/K8s/Resolver/Laws.antt =====
-- The watchers and loops of the resolver, and the states that it keeps for apps.
use yggdrasil_ecosystem.Prelude.{
  ℕ, ◌≡◌, refl, ap, sym, ◌∙◌, Bool, true, false, Option, none, some, List, [], ◌∷◌, ◌++◌, ◌==◌,
  if◌then◌else◌, if_either,
}
use yggdrasil_ecosystem.Prelude.Text.{Text, text_eq, codes}
use yggdrasil_ecosystem.Prelude.Dict.{lookup}
use yggdrasil_ecosystem.Discovery.Table as Table
use yggdrasil_ecosystem.Discovery.Table.{WatchTable, WatchCall, without, snapshot_watchers}
use yggdrasil_ecosystem.Discovery.Table.Laws.{IsOneLoop, calls-IsOneLoop}
use yggdrasil_ecosystem.K8s.Endpoints.{State}
use yggdrasil_ecosystem.K8s.Resolver.{
  K8sResolver, new_resolver, tell, tell_known, forget, joined, leave, unless_failed, add_watch,
  del_watch, publish, ResolverCall, add_call, del_call, publish_call, call, calls,
}

-- The calls that reach the table of watchers.
abbrev pub table_calls : List ResolverCall → List WatchCall
table_calls [] = []
table_calls (add_call app watcher ∷ cs) =
    let rest = table_calls cs in if app == [] then rest else WatchCall.add_call app watcher ∷ rest
table_calls (del_call app watcher ∷ cs) = WatchCall.del_call app watcher ∷ table_calls cs
table_calls (publish_call app state ∷ cs) = table_calls cs

del_watch_absent :
    (app : Text) (watcher : ℕ) (t : WatchTable)
    → lookup app t.watchers ≡ none
    → Table.del_watch app watcher t ≡ t
unfolding Table.del_watch
del_watch_absent app watcher t absent = rw (Table.del_watch, absent) refl

pub unless_failed_either :
    (P : K8sResolver → Type 0) (err : Option Text) (result : Option Text × K8sResolver)
    (r : K8sResolver)
    → P r
    → P result.1
    → P (unless_failed err result r).1
unfolding unless_failed
unless_failed_either P none result r before after = after
unless_failed_either P (some err) result r before after = before

tell_known_either :
    (P : K8sResolver → Type 0) (app : Text) (watcher : ℕ) (known : Option State) (r : K8sResolver)
    → (known ≡ none → P r)
    → ((state : State)
        → known ≡ some state
        → P (record r { told = r.told ++ tell app (watcher ∷ []) state }))
    → P (tell_known app watcher known r)
unfolding tell_known
tell_known_either P app watcher none r f g = f refl
tell_known_either P app watcher (some state) r f g = g state refl

-- What AddWatch may come to.
pub add_watch_either :
    (P : K8sResolver → Type 0) (app : Text) (watcher : ℕ) (r : K8sResolver)
    → P r
    → (lookup app r.states ≡ none → P (joined app watcher r))
    → ((state : State)
        → lookup app r.states ≡ some state
        → P (record (joined app watcher r) { told = r.told ++ tell app (watcher ∷ []) state }))
    → P (add_watch app watcher r).1
unfolding add_watch
add_watch_either P app watcher r same unknown known = unless_failed_either P r.init_err _ r same (
    if_either (λ (result : Option Text × K8sResolver). P result.1) _ _ _ (λ _. same)
      (λ _. tell_known_either P app watcher (lookup app r.states) _ unknown known))

leave_either :
    (P : K8sResolver → Type 0) (app : Text) (watcher : ℕ) (found : Option (List ℕ))
    (r : K8sResolver)
    → P r
    → ((ws : List ℕ)
        → found ≡ some ws
        → P (record r {
          table = Table.del_watch app watcher r.table;
          states = forget app (without watcher ws) r.states;
        }))
    → P (leave app watcher found r)
unfolding leave
leave_either P app watcher none r same left = same
leave_either P app watcher (some ws) r same left = left ws refl

-- What DelWatch may come to.
pub del_watch_either :
    (P : K8sResolver → Type 0) (app : Text) (watcher : ℕ) (r : K8sResolver)
    → P r
    → ((ws : List ℕ)
        → P (record r {
          table = Table.del_watch app watcher r.table;
          states = forget app (without watcher ws) r.states;
        }))
    → P (del_watch app watcher r).1
unfolding del_watch
del_watch_either P app watcher r same left =
    unless_failed_either P r.init_err _ r same
      (leave_either P app watcher (lookup app r.table.watchers) r same (λ ws _. left ws))

pub unless_failed_fine :
    (err : Option Text) (result : Option Text × K8sResolver) (r : K8sResolver)
    → err ≡ none
    → unless_failed err result r ≡ result
unfolding unless_failed
unless_failed_fine none result r fine = refl
unless_failed_fine (some err) result r fine = absurd (cc fine)

add_watch_fine :
    (app : Text) (watcher : ℕ) (r : K8sResolver)
    → r.init_err ≡ none
    → ((add_watch app watcher r).1.table
        ≡ (if app == [] then r.table else Table.add_watch app watcher r.table))
      × ((add_watch app watcher r).1.init_err ≡ r.init_err)
unfolding add_watch
add_watch_fine app watcher r fine = (
  ap (λ result. result.1.table) (unless_failed_fine r.init_err _ r fine) ∙ table_of (app == []) _,
  add_watch_either (λ r'. r'.init_err ≡ r.init_err) app watcher r refl (λ _. refl) (λ _ _. refl),
)
  where
    table_of :
        (b : Bool) (known : Option State)
        → (if◌then◌else◌ {A = Option Text × K8sResolver} b
            (some (codes "empty app name"), r)
            (none, tell_known app watcher known (joined app watcher r))).1.table
          ≡ (if b then r.table else Table.add_watch app watcher r.table)
    table_of true known = refl
    table_of false none = refl
    table_of false (some state) = refl

del_watch_fine :
    (app : Text) (watcher : ℕ) (r : K8sResolver)
    → r.init_err ≡ none
    → ((del_watch app watcher r).1.table ≡ Table.del_watch app watcher r.table)
      × ((del_watch app watcher r).1.init_err ≡ r.init_err)
unfolding del_watch leave
del_watch_fine app watcher r fine = (
  ap (λ result. result.1.table) (unless_failed_fine r.init_err _ r fine)
      ∙ leave_table (lookup app r.table.watchers) refl,
  del_watch_either (λ r'. r'.init_err ≡ r.init_err) app watcher r refl (λ _. refl),
)
  where
    leave_table :
        (found : Option (List ℕ))
        → lookup app r.table.watchers ≡ found
        → (leave app watcher found r).table ≡ Table.del_watch app watcher r.table
    leave_table none absent = sym (del_watch_absent app watcher r.table absent)
    leave_table (some ws) found = refl

table_calls_if :
    (b : Bool) (c : WatchCall) (cs : List WatchCall) (t : WatchTable)
    → Table.calls cs (if b then t else Table.call c t) ≡ Table.calls (if b then cs else c ∷ cs) t
unfolding Table.calls
table_calls_if true c cs t = refl
table_calls_if false c cs t = refl

table-calls :
    (cs : List ResolverCall) (r : K8sResolver)
    → r.init_err ≡ none
    → (calls cs r).table ≡ Table.calls (table_calls cs) r.table
unfolding calls call publish Table.calls Table.call
table-calls [] r h = refl
table-calls (add_call app watcher ∷ cs) r h =
    let (same, fine) = add_watch_fine app watcher r h in
    table-calls cs (call (add_call app watcher) r) (fine ∙ h)
    ∙ ap (Table.calls (table_calls cs)) same
    ∙ table_calls_if (app == []) (WatchCall.add_call app watcher) (table_calls cs) r.table
table-calls (del_call app watcher ∷ cs) r h =
    let (same, fine) = del_watch_fine app watcher r h in
    table-calls cs (call (del_call app watcher) r) (fine ∙ h)
    ∙ ap (Table.calls (table_calls cs)) same
table-calls (publish_call app state ∷ cs) r h = table-calls cs (publish app state r) h

-- A resolver without an initial error runs, after any calls and published states, exactly one loop
-- for an app with watchers, and none that is not cancelled for one without.
pub resolver_calls-IsOneLoop :
    (cs : List ResolverCall) (app : Text) → IsOneLoop app (calls cs (new_resolver none)).table
unfolding new_resolver
resolver_calls-IsOneLoop cs app =
    rw (table-calls cs (new_resolver none) refl) (calls-IsOneLoop (table_calls cs) app)
