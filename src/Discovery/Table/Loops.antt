-- ===== src/Discovery/Table/Loops.antt =====
-- The cancel functions of a table and the loops that it has started.
use yggdrasil_ecosystem.Prelude.{
  ℕ, ◌≤◌, ◌<◌, ◌≡◌, inl, inr, refl, true, false, none, some, List, [], ◌∷◌, arith, nat_eq,
  Option-cases, nat_beq_iff,
}
use yggdrasil_ecosystem.Prelude.Text.{Text, text_eq, text_beq_iff}
use yggdrasil_ecosystem.Prelude.Dict.{
  Dict, lookup, insert, erase, member, add, lookup-insert, lookup-erase,
}
use yggdrasil_ecosystem.Discovery.Table.{
  WatchTable, new_table, snapshot_watchers, start_loop, ensure_loop, add_watch, cancel_loop,
  keep_watchers, without, del_watch, WatchCall, add_call, del_call, call, calls,
}

-- The cancel functions are those of the started loops that have not been cancelled, and the loops'
-- numbers are below the next one.
pub record IsTidy (t : WatchTable) : Type 0 where
  pub fresh : (loop : ℕ) → t.next_loop ≤ loop → lookup loop t.loops ≡ none
  pub fresh_cancelled : (loop : ℕ) → member loop t.cancelled ≡ true → loop < t.next_loop
  pub current :
      (service : Text) (loop : ℕ)
      → lookup service t.cancels ≡ some loop
      → (lookup loop t.loops ≡ some service) × (member loop t.cancelled ≡ false)
  pub settled :
      (service : Text) (loop : ℕ)
      → lookup loop t.loops ≡ some service
      → member loop t.cancelled ≡ false
      → lookup service t.cancels ≡ some loop

start_loop-IsTidy :
    (service : Text) (t : WatchTable)
    → lookup service t.cancels ≡ none
    → IsTidy t
    → IsTidy (start_loop service t)
unfolding start_loop
start_loop-IsTidy service t absent ok = record {
  fresh =
      λ loop above. grind (arith, lookup-insert t.next_loop loop service t.loops, ok.fresh loop);
  fresh_cancelled = λ loop c. omega (arith, ok.fresh_cancelled loop c);
  current = λ s loop found. grind (
    arith,
    lookup-insert service s t.next_loop t.cancels,
    lookup-insert t.next_loop loop service t.loops,
    text_beq_iff service s,
    nat_beq_iff t.next_loop loop,
    ok.fresh loop,
    ok.fresh_cancelled loop,
    absent,
    ok.current s loop,
    found,
  );
  settled = λ s loop started live. grind (
    arith,
    lookup-insert service s t.next_loop t.cancels,
    lookup-insert t.next_loop loop service t.loops,
    text_beq_iff service s,
    nat_beq_iff t.next_loop loop,
    ok.fresh loop,
    ok.fresh_cancelled loop,
    absent,
    ok.settled s loop,
    started,
    live,
  );
}

dropped-IsTidy :
    (service : Text) (l : ℕ) (t : WatchTable)
    → lookup service t.cancels ≡ some l
    → IsTidy t
    → IsTidy (record t { cancels = erase service t.cancels; cancelled = l ∷ t.cancelled })
unfolding member
dropped-IsTidy service l t held ok = record {
  fresh = ok.fresh;
  fresh_cancelled = λ loop c. grind (
    arith,
    nat_beq_iff l loop,
    ok.fresh loop,
    ok.fresh_cancelled loop,
    ok.current service l held,
    c,
  );
  current = λ s loop found. grind (
    arith,
    lookup-erase service s t.cancels,
    text_beq_iff service s,
    nat_beq_iff l loop,
    ok.current service l held,
    ok.current s loop,
    found,
  );
  settled = λ s loop started live. grind (
    arith,
    lookup-erase service s t.cancels,
    text_beq_iff service s,
    nat_beq_iff l loop,
    ok.current service l held,
    ok.settled s loop,
    started,
    live,
  );
}

cancel_loop-IsTidy : (service : Text) (t : WatchTable) → IsTidy t → IsTidy (cancel_loop service t)
unfolding cancel_loop
cancel_loop-IsTidy service t ok = elim (Option-cases (lookup service t.cancels)) [
  | inl absent ↦ rw (cancel_loop, absent) ok
  | inr (l, found) ↦ rw (cancel_loop, found) (dropped-IsTidy service l t found ok)
]

-- The watchers have no part in it.
watchers-IsTidy :
    (ws : Dict Text (List ℕ)) (t : WatchTable) → IsTidy t → IsTidy (record t { watchers = ws })
watchers-IsTidy ws t ok = record {
  fresh = ok.fresh;
  fresh_cancelled = ok.fresh_cancelled;
  current = ok.current;
  settled = ok.settled;
}

ensure_loop-IsTidy : (service : Text) (t : WatchTable) → IsTidy t → IsTidy (ensure_loop service t)
unfolding ensure_loop
ensure_loop-IsTidy service t ok = elim (Option-cases (lookup service t.cancels)) [
  | inl absent ↦ rw (ensure_loop, absent) (start_loop-IsTidy service t absent ok)
  | inr (l, found) ↦ rw (ensure_loop, found) ok
]

keep_watchers-IsTidy :
    (service : Text) (ws : List ℕ) (t : WatchTable) → IsTidy t → IsTidy (keep_watchers service ws t)
unfolding keep_watchers
keep_watchers-IsTidy service [] t ok =
    cancel_loop-IsTidy service _ (watchers-IsTidy (erase service t.watchers) t ok)
keep_watchers-IsTidy service (w ∷ ws) t ok =
    watchers-IsTidy (insert service (w ∷ ws) t.watchers) t ok

call-IsTidy : (c : WatchCall) (t : WatchTable) → IsTidy t → IsTidy (call c t)
unfolding call add_watch del_watch
call-IsTidy (add_call service w) t ok =
    ensure_loop-IsTidy service _
      (watchers-IsTidy (insert service (add w (snapshot_watchers service t)) t.watchers) t ok)
call-IsTidy (del_call service w) t ok = elim (Option-cases (lookup service t.watchers)) [
  | inl absent ↦ rw (del_watch, absent) ok
  | inr (ws, found) ↦ rw (del_watch, found) (keep_watchers-IsTidy service (without w ws) t ok)
]

pub calls-IsTidy : (cs : List WatchCall) (t : WatchTable) → IsTidy t → IsTidy (calls cs t)
unfolding calls
calls-IsTidy [] t ok = ok
calls-IsTidy (c ∷ cs) t ok = calls-IsTidy cs (call c t) (call-IsTidy c t ok)

pub new_table-IsTidy : IsTidy new_table
unfolding new_table member lookup
new_table-IsTidy = record {
  fresh = λ loop _. refl;
  fresh_cancelled = λ loop c. cc c;
  current = λ s loop found. cc found;
  settled = λ s loop found _. cc found;
}
