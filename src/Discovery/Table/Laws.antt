-- ===== src/Discovery/Table/Laws.antt =====
-- The loops of a table: one for each service that has a watcher, and no other that is not cancelled.
use yggdrasil_ecosystem.Prelude.{
  ℕ, ◌≡◌, ◌≢◌, inl, inr, true, false, some, List, [], arith, nat_eq, Option-cases,
}
use yggdrasil_ecosystem.Prelude.Text.{Text, text_eq}
use yggdrasil_ecosystem.Prelude.Dict.{lookup, member}
use yggdrasil_ecosystem.Discovery.Table.{WatchTable, new_table, snapshot_watchers, WatchCall, calls}
use yggdrasil_ecosystem.Discovery.Table.Loops.{IsTidy, calls-IsTidy, new_table-IsTidy}
use yggdrasil_ecosystem.Discovery.Table.Paired.{IsPaired, calls-IsPaired, new_table-IsPaired}

-- A service without watchers has no loop that is not cancelled; a service with watchers has just one.
pub data IsOneLoop (service : Text) (t : WatchTable) : Type 0 where
  idle :
      snapshot_watchers service t ≡ []
      → ((loop : ℕ) → lookup loop t.loops ≡ some service → member loop t.cancelled ≡ true)
      → IsOneLoop service t
  running :
      (loop : ℕ)
      → snapshot_watchers service t ≢ []
      → lookup loop t.loops ≡ some service
      → member loop t.cancelled ≡ false
      → ((other : ℕ)
          → lookup other t.loops ≡ some service
          → member other t.cancelled ≡ false
          → other ≡ loop)
      → IsOneLoop service t

tidy-IsOneLoop : (service : Text) (t : WatchTable) → IsTidy t → IsPaired t → IsOneLoop service t
unfolding snapshot_watchers
tidy-IsOneLoop service t ok pair = elim (Option-cases (lookup service t.cancels)) [
  | inl absent ↦
      idle (grind (arith, pair.paired service, absent))
        (λ loop started. grind (arith, ok.settled service loop started, absent))
  | inr (l, found) ↦
      running l (λ e. grind (arith, pair.paired service, pair.watched service, found, e))
        (ok.current service l found).0 (ok.current service l found).1
        (λ other started live. grind (arith, ok.settled service other started live, found))
]

-- After any calls a service without watchers has only cancelled loops, and a service with watchers
-- has exactly one loop that has been started and not cancelled.
pub calls-IsOneLoop :
    (cs : List WatchCall) (service : Text) → IsOneLoop service (calls cs new_table)
calls-IsOneLoop cs service =
    tidy-IsOneLoop service _ (calls-IsTidy cs new_table new_table-IsTidy)
      (calls-IsPaired cs new_table new_table-IsPaired)
