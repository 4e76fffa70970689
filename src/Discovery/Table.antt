-- ===== src/Discovery/Table.antt =====
-- The watchers of a discovery resolver and the watch loops that it runs for them, as the resolvers of
-- modules/etcd/discovery/resolver.go and modules/k8s/discovery/resolver.go keep them. A watcher is a
-- number; a watch loop is the number of its context, which its cancel function cancels.
pub mod Loops
pub mod Paired
pub mod Laws
pub mod Watching
mod Tests
use yggdrasil_ecosystem.Prelude.{
  ℕ, ◌+◌, Bool, not, Option, none, some, List, [], ◌∷◌, ◌==◌, nat_eq, keep,
}
use yggdrasil_ecosystem.Prelude.Text.{Text, text_eq}
use yggdrasil_ecosystem.Prelude.Dict.{Dict, lookup, insert, erase, add}

pub record WatchTable : Type 0 where
  pub watchers : Dict Text (List ℕ)
  pub cancels : Dict Text ℕ
  -- The loops that have been started and the service of each, and those that have been cancelled.
  pub loops : Dict ℕ Text
  pub cancelled : List ℕ
  pub next_loop : ℕ

unfoldable pub new_table : WatchTable
new_table = record { watchers = []; cancels = []; loops = []; cancelled = []; next_loop = 0 }

-- snapshotWatchers: a service without watchers has the nil map.
unfoldable pub snapshot_watchers : Text → WatchTable → List ℕ
snapshot_watchers service t = elim (lookup service t.watchers) [ none ↦ [] | some ws ↦ ws ]

-- A new context with its cancel function, and the loop on it.
unfoldable pub start_loop : Text → WatchTable → WatchTable
start_loop service t = record t {
  cancels = insert service t.next_loop t.cancels;
  loops = insert t.next_loop service t.loops;
  next_loop = t.next_loop + 1;
}

unfoldable pub ensure_loop : Text → WatchTable → WatchTable
unfolding start_loop
ensure_loop service t = elim (lookup service t.cancels) [
  | none ↦ start_loop service t
  | some loop ↦ t
]

-- AddWatch under the lock.
unfoldable pub add_watch : Text → ℕ → WatchTable → WatchTable
unfolding snapshot_watchers ensure_loop
add_watch service watcher t =
    ensure_loop service (record t {
      watchers = insert service (add watcher (snapshot_watchers service t)) t.watchers;
    })

unfoldable pub cancel_loop : Text → WatchTable → WatchTable
cancel_loop service t = elim (lookup service t.cancels) [
  | none ↦ t
  | some loop ↦ record t { cancels = erase service t.cancels; cancelled = loop ∷ t.cancelled }
]

-- What DelWatch does with the watchers that are left.
unfoldable pub keep_watchers : Text → List ℕ → WatchTable → WatchTable
unfolding cancel_loop
keep_watchers service [] t = cancel_loop service (record t { watchers = erase service t.watchers })
keep_watchers service (w ∷ ws) t = record t { watchers = insert service (w ∷ ws) t.watchers }

-- delete(ws, watcher)
unfoldable pub without : ℕ → List ℕ → List ℕ
without watcher ws = keep (λ w. not (w == watcher)) ws

-- DelWatch under the lock.
unfoldable pub del_watch : Text → ℕ → WatchTable → WatchTable
unfolding without keep_watchers
del_watch service watcher t = elim (lookup service t.watchers) [
  | none ↦ t
  | some ws ↦ keep_watchers service (without watcher ws) t
]

-- The calls that change the table.
pub data WatchCall : Type 0 where
  add_call del_call : Text → ℕ → WatchCall

unfoldable pub call : WatchCall → WatchTable → WatchTable
call (add_call service watcher) t = add_watch service watcher t
call (del_call service watcher) t = del_watch service watcher t

unfoldable pub calls : List WatchCall → WatchTable → WatchTable
unfolding call
calls [] t = t
calls (c ∷ cs) t = calls cs (call c t)
