-- ===== src/Etcd/Registry/Loops.antt =====
-- The goroutines of modules/etcd/discovery/registry.go: keepAliveLoop and the wait without it, one
-- step at a time. An event that a goroutine does not wait for changes nothing.
pub mod Ending
use yggdrasil_ecosystem.Prelude.{
  ℕ, Bool, true, false, ◌||◌, Option, none, some, List, [], ◌∷◌, ◌==◌, nat_eq, if◌then◌else◌,
}
use yggdrasil_ecosystem.Prelude.Text.{Text, text_eq}
use yggdrasil_ecosystem.Prelude.Dict.{lookup, insert, erase, member, modify}
use yggdrasil_ecosystem.Etcd.Registry.{
  Registry, Goroutine, Phase, checking, granting, keeping, putting, storing, listening, waiting,
  plain, leaving, ended, grant_request, put_request, keep_alive_request, log, ttl_seconds,
  store_lease,
}

-- What a goroutine may be given: its turn, a done context or a closed registry, the retry timer, an
-- error or an answer of the client (with the lease of Grant), a keepalive response, with whether its
-- time to live is positive, and the end of the keepalive channel.
pub data Event : Type 0 where
  turn stop timer failed channel_closed : Event
  answered : ℕ → Event
  responded : Bool → Event

-- A select that sees the context or the registry done.
abbrev on_stop : Bool → Phase → Phase
on_stop stopped p = if stopped then leaving else p

unfoldable pub go_on : Bool → Event → Phase → Phase
go_on stopped event checking = elim event [
  | turn ↦ if stopped then leaving else granting
  | _ ↦ checking
]
go_on stopped event granting = elim event [
  | answered lease ↦ keeping lease
  | failed ↦ waiting
  | _ ↦ granting
]
go_on stopped event (keeping lease) = elim event [
  | answered n ↦ putting lease
  | failed ↦ waiting
  | _ ↦ keeping lease
]
go_on stopped event (putting lease) = elim event [
  | answered n ↦ storing lease
  | failed ↦ waiting
  | _ ↦ putting lease
]
go_on stopped event (storing lease) = elim event [ turn ↦ listening lease | _ ↦ storing lease ]
go_on stopped event (listening lease) = elim event [
  | stop ↦ on_stop stopped (listening lease)
  | responded positive ↦ if positive then listening lease else waiting
  | channel_closed ↦ waiting
  | _ ↦ listening lease
]
go_on stopped event waiting = elim event [
  | stop ↦ on_stop stopped waiting
  | timer ↦ checking
  | _ ↦ waiting
]
go_on stopped event plain = elim event [ stop ↦ on_stop stopped plain | _ ↦ plain ]
go_on stopped event leaving = elim event [ turn ↦ ended | _ ↦ leaving ]
go_on stopped event ended = ended

abbrev pub is_stopped : ℕ → Registry → Bool
is_stopped context r = r.is_closed || member context r.cancelled

-- What the step does to the registry and asks of the client.
unfoldable pub effect : ℕ → Goroutine → Event → Phase → Registry → Registry
effect context g event checking r = r
effect context g event granting r = elim event [
  | answered lease ↦ log (grant_request (ttl_seconds r)) r
  | failed ↦ log (grant_request (ttl_seconds r)) r
  | _ ↦ r
]
effect context g event (keeping lease) r = elim event [
  | answered n ↦ log (keep_alive_request lease) r
  | failed ↦ log (keep_alive_request lease) r
  | _ ↦ r
]
effect context g event (putting lease) r = elim event [
  | answered n ↦ log (put_request g.key g.value lease) r
  | failed ↦ log (put_request g.key g.value lease) r
  | _ ↦ r
]
effect context g event (storing lease) r = elim event [ turn ↦ store_lease g.key lease r | _ ↦ r ]
effect context g event (listening lease) r = r
effect context g event waiting r = r
effect context g event plain r = elim event [
  | stop ↦ if r.is_closed then record r { cancelled = context ∷ r.cancelled } else r
  | _ ↦ r
]
effect context g event leaving r = elim event [
  | turn ↦ record r { regs = erase g.key r.regs }
  | _ ↦ r
]
effect context g event ended r = r

unfoldable pub step_goroutine : ℕ → Event → Goroutine → Registry → Registry
unfolding effect go_on
step_goroutine context event g r =
    let r' = effect context g event g.phase r in
    record r' {
      goroutines =
          insert context (record g { phase = go_on (is_stopped context r) event g.phase })
            r'.goroutines;
    }

-- One step of the goroutine on a context.
unfoldable pub step : ℕ → Event → Registry → Registry
unfolding step_goroutine
step context event r = elim (lookup context r.goroutines) [
  | none ↦ r
  | some g ↦ step_goroutine context event g r
]
