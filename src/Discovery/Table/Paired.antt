-- ===== src/Discovery/Table/Paired.antt =====
-- The watchers of a table and its cancel functions.
use yggdrasil_ecosystem.Prelude.{
  ℕ, ◌≡◌, ◌≢◌, inl, inr, refl, some, List, [], ◌∷◌, arith, ◌==◌, not, ◌&&◌, ◌||◌, nat_eq, is_some,
  Option-cases,
}
use yggdrasil_ecosystem.Prelude.Text.{Text, text_eq, text_beq_iff}
use yggdrasil_ecosystem.Prelude.Dict.{
  lookup, insert, erase, member, add, lookup-insert, lookup-erase,
}
use yggdrasil_ecosystem.Discovery.Table.{
  WatchTable, new_table, snapshot_watchers, start_loop, ensure_loop, add_watch, cancel_loop,
  keep_watchers, without, del_watch, WatchCall, add_call, del_call, call, calls,
}

-- A service has a cancel function exactly when it has watchers, and then at least one.
pub record IsPaired (t : WatchTable) : Type 0 where
  pub paired :
      (service : Text) → is_some (lookup service t.watchers) ≡ is_some (lookup service t.cancels)
  pub watched : (service : Text) → lookup service t.watchers ≢ some []

-- How the tables of watchers and of cancel functions move together.
cancels-ensure_loop :
    (service s : Text) (t : WatchTable)
    → is_some (lookup s (ensure_loop service t).cancels)
      ≡ (service == s || is_some (lookup s t.cancels))
unfolding ensure_loop start_loop
cancels-ensure_loop service s t =
    grind (arith, lookup-insert service s t.next_loop t.cancels, text_beq_iff service s)

pub watchers-ensure_loop :
    (service : Text) (t : WatchTable) → (ensure_loop service t).watchers ≡ t.watchers
unfolding ensure_loop start_loop
watchers-ensure_loop service t = ground arith

cancels-cancel_loop :
    (service s : Text) (t : WatchTable)
    → is_some (lookup s (cancel_loop service t).cancels)
      ≡ (not (service == s) && is_some (lookup s t.cancels))
unfolding cancel_loop
cancels-cancel_loop service s t =
    grind (arith, lookup-erase service s t.cancels, text_beq_iff service s)

pub watchers-cancel_loop :
    (service : Text) (t : WatchTable) → (cancel_loop service t).watchers ≡ t.watchers
unfolding cancel_loop
watchers-cancel_loop service t = ground arith

add-nonempty : (w : ℕ) (ws : List ℕ) → add w ws ≢ []
unfolding add member
add-nonempty w [] e = ground arith
add-nonempty w (x ∷ ws) e = ground arith

add_watch-IsPaired :
    (service : Text) (w : ℕ) (t : WatchTable) → IsPaired t → IsPaired (add_watch service w t)
unfolding add_watch
add_watch-IsPaired service w t ok =
    let ws = add w (snapshot_watchers service t) in
    let t' = record t { watchers = insert service ws t.watchers } in
    record {
      paired = λ s. grind (
        arith,
        cancels-ensure_loop service s t',
        watchers-ensure_loop service t',
        lookup-insert service s ws t.watchers,
        ok.paired s,
      );
      watched = λ s. grind (
        arith,
        watchers-ensure_loop service t',
        lookup-insert service s ws t.watchers,
        add-nonempty w (snapshot_watchers service t),
        ok.watched s,
      );
    }

keep_watchers-IsPaired :
    (service : Text) (before ws : List ℕ) (t : WatchTable)
    → lookup service t.watchers ≡ some before
    → IsPaired t
    → IsPaired (keep_watchers service ws t)
unfolding keep_watchers
keep_watchers-IsPaired service before [] t found ok =
    let t' = record t { watchers = erase service t.watchers } in
    record {
      paired = λ s. grind (
        arith,
        cancels-cancel_loop service s t',
        watchers-cancel_loop service t',
        lookup-erase service s t.watchers,
        ok.paired s,
      );
      watched = λ s.
          grind (
            arith,
            watchers-cancel_loop service t',
            lookup-erase service s t.watchers,
            ok.watched s,
          );
    }
keep_watchers-IsPaired service before (w ∷ ws) t found ok = record {
  paired = λ s. grind (
    arith,
    lookup-insert service s (w ∷ ws) t.watchers,
    text_beq_iff service s,
    found,
    ok.paired s,
  );
  watched = λ s. grind (arith, lookup-insert service s (w ∷ ws) t.watchers, ok.watched s);
}

call-IsPaired : (c : WatchCall) (t : WatchTable) → IsPaired t → IsPaired (call c t)
unfolding call del_watch
call-IsPaired (add_call service w) t ok = add_watch-IsPaired service w t ok
call-IsPaired (del_call service w) t ok = elim (Option-cases (lookup service t.watchers)) [
  | inl absent ↦ rw (del_watch, absent) ok
  | inr (ws, found) ↦
      rw (del_watch, found) (keep_watchers-IsPaired service ws (without w ws) t found ok)
]

pub calls-IsPaired : (cs : List WatchCall) (t : WatchTable) → IsPaired t → IsPaired (calls cs t)
unfolding calls
calls-IsPaired [] t ok = ok
calls-IsPaired (c ∷ cs) t ok = calls-IsPaired cs (call c t) (call-IsPaired c t ok)

pub new_table-IsPaired : IsPaired new_table
unfolding new_table lookup
new_table-IsPaired = record { paired = λ s. refl; watched = λ s e. cc e }
