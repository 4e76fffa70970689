-- ===== src/Discovery/Table/Watching.antt =====
-- The table as an abstract relation: who watches what.
use yggdrasil_ecosystem.Prelude.{
  ℕ, ◌≡◌, refl, ◌∙◌, inl, inr, Bool, not, ◌&&◌, ◌||◌, List, [], ◌∷◌, arith, ◌==◌, nat_eq,
  nat_beq_iff, if◌then◌else◌, Option-cases,
}
use yggdrasil_ecosystem.Prelude.Text.{Text, text_eq, text_beq_iff}
use yggdrasil_ecosystem.Prelude.Dict.{
  lookup, insert, erase, member, add, member-add, lookup-insert, lookup-erase,
}
use yggdrasil_ecosystem.Discovery.Table.{
  WatchTable, snapshot_watchers, add_watch, keep_watchers, without, del_watch, WatchCall, add_call,
  del_call, call, calls,
}
use yggdrasil_ecosystem.Discovery.Table.Paired.{watchers-ensure_loop, watchers-cancel_loop}

-- A relation of services and watchers.
abbrev pub Watching : Type 0
Watching = Text → ℕ → Bool

-- AddWatch puts a pair in, DelWatch takes it out.
abbrev pub watching_after : WatchCall → Watching → Watching
watching_after (add_call service watcher) rel s w = (service == s && watcher == w) || rel s w
watching_after (del_call service watcher) rel s w = not (service == s && watcher == w) && rel s w

abbrev pub watching_all : List WatchCall → Watching → Watching
watching_all [] rel = rel
watching_all (c ∷ cs) rel = watching_all cs (watching_after c rel)

-- The relation of a table.
abbrev pub watching : WatchTable → Watching
watching t service watcher = member watcher (snapshot_watchers service t)

member-without : (w x : ℕ) (ws : List ℕ) → member x (without w ws) ≡ (not (w == x) && member x ws)
unfolding without member
member-without w x [] = ground arith
member-without w x (y ∷ ws) =
    grind (arith, nat_beq_iff w x, nat_beq_iff y w, nat_beq_iff y x, member-without w x ws)

pub watching-add_watch :
    (service s : Text) (watcher w : ℕ) (t : WatchTable)
    → watching (add_watch service watcher t) s w
      ≡ watching_after (add_call service watcher) (watching t) s w
unfolding add_watch snapshot_watchers
watching-add_watch service s watcher w t =
    let ws = add watcher (snapshot_watchers service t) in
    let t' = record t { watchers = insert service ws t.watchers } in
    grind (
      arith,
      watchers-ensure_loop service t',
      lookup-insert service s ws t.watchers,
      member-add watcher w (snapshot_watchers service t),
      text_beq_iff service s,
    )

snapshot_watchers-keep_watchers :
    (service s : Text) (ws : List ℕ) (t : WatchTable)
    → snapshot_watchers s (keep_watchers service ws t)
      ≡ (if service == s then ws else snapshot_watchers s t)
unfolding snapshot_watchers keep_watchers
snapshot_watchers-keep_watchers service s [] t = grind (
  arith,
  watchers-cancel_loop service (record t { watchers = erase service t.watchers }),
  lookup-erase service s t.watchers,
)
snapshot_watchers-keep_watchers service s (w ∷ ws) t =
    grind (arith, lookup-insert service s (w ∷ ws) t.watchers)

pub watching-del_watch :
    (service s : Text) (watcher w : ℕ) (t : WatchTable)
    → watching (del_watch service watcher t) s w
      ≡ watching_after (del_call service watcher) (watching t) s w
unfolding snapshot_watchers del_watch member
watching-del_watch service s watcher w t = elim (Option-cases (lookup service t.watchers)) [
  | inl absent ↦ grind (arith, absent, text_beq_iff service s)
  | inr (ws, found) ↦
      rw (del_watch, found)
        (grind (
          arith,
          found,
          snapshot_watchers-keep_watchers service s (without watcher ws) t,
          member-without watcher w ws,
          text_beq_iff service s,
        ))
]

watching-call :
    (c : WatchCall) (s : Text) (w : ℕ) (t : WatchTable)
    → watching (call c t) s w ≡ watching_after c (watching t) s w
unfolding call
watching-call (add_call service watcher) s w t = watching-add_watch service s watcher w t
watching-call (del_call service watcher) s w t = watching-del_watch service s watcher w t

watching_after_eq :
    (c : WatchCall) (f g : Watching) (s : Text) (w : ℕ)
    → f s w ≡ g s w
    → watching_after c f s w ≡ watching_after c g s w
watching_after_eq (add_call service watcher) f g s w e = rw e refl
watching_after_eq (del_call service watcher) f g s w e = rw e refl

watching_all_eq :
    (cs : List WatchCall) (f g : Watching) (s : Text) (w : ℕ)
    → f s w ≡ g s w
    → watching_all cs f s w ≡ watching_all cs g s w
watching_all_eq [] f g s w e = e
watching_all_eq (c ∷ cs) f g s w e =
    watching_all_eq cs (watching_after c f) (watching_after c g) s w (watching_after_eq c f g s w e)

-- The calls of AddWatch and DelWatch refine the relation that they put pairs in and take them out of:
-- from any table, the watchers of every service are those that the relation has after the same calls.
pub watching-calls :
    (cs : List WatchCall) (t : WatchTable) (s : Text) (w : ℕ)
    → watching (calls cs t) s w ≡ watching_all cs (watching t) s w
unfolding calls
watching-calls [] t s w = refl
watching-calls (c ∷ cs) t s w =
    watching-calls cs (call c t) s w
    ∙ watching_all_eq cs (watching (call c t)) (watching_after c (watching t)) s w
        (watching-call c s w t)
