-- ===== src/K8s/Resolver/Published.antt =====
-- What watchers are told when calls and published states overlap.
use yggdrasil_ecosystem.Prelude.{
  ℕ, zero, suc, ◌≡◌, refl, sym, ◌∙◌, inl, inr, true, Option, none, some, List, [], ◌∷◌, arith, ◌==◌,
  nat_eq, nat_beq_iff, All, All-append, subst, if_either, Bool-cases,
}
use yggdrasil_ecosystem.Prelude.Text.{Text, text_eq, text_beq_iff, codes}
use yggdrasil_ecosystem.Prelude.Dict.{lookup, insert, member, lookup-insert, lookup-erase}
use yggdrasil_ecosystem.Discovery.Table as Table
use yggdrasil_ecosystem.Discovery.Table.{WatchTable, new_table, snapshot_watchers, without}
use yggdrasil_ecosystem.Discovery.Table.Watching.{watching-add_watch, watching-del_watch}
use yggdrasil_ecosystem.K8s.Endpoints.{State}
use yggdrasil_ecosystem.K8s.Resolver.{
  K8sResolver, Told, tell, joined, forget, del_watch, new_resolver,
}
use yggdrasil_ecosystem.K8s.Resolver.Laws.{del_watch_either, unless_failed_either}
use yggdrasil_ecosystem.K8s.Resolver.Overlaps.{
  Running, Step, join_step, leave_step, store_step, read_step, snapshot_step, tell_step, pull, join,
  after_join, after_read, read, snapshot, update, step, steps, idle,
}

abbrev Pulled : {A : Type 0} → (A → Type 0) → Option (A × List A) → Type 0
Pulled P none = Unit
Pulled P (some (x, rest)) = P x × All P rest

All-pull : {A : Type 0} (P : A → Type 0) (n : ℕ) (xs : List A) → All P xs → Pulled P (pull n xs)
unfolding pull
All-pull P n [] h = tt
All-pull P zero (x ∷ xs) h = h
All-pull {A} P (suc n) (x ∷ xs) h = behind (pull n xs) (All-pull P n xs h.1)
  where
    behind :
        (o : Option (A × List A))
        → Pulled P o
        → Pulled P (elim o [ none ↦ none | some (y, rest) ↦ some (y, x ∷ rest) ])
    behind none k = tt
    behind (some (y, rest)) k = (k.0, (h.0, k.1))

All-member : (P : ℕ → Type 0) (ws : List ℕ) → ((w : ℕ) → member w ws ≡ true → P w) → All P ws
unfolding member
All-member P [] h = tt
All-member P (w ∷ ws) h =
    (h w (ground (arith, nat_beq_iff w w)), All-member P ws (λ x m. h x (ground (arith, m))))

module _ (Stored : Text → State → Type 0) (Joined : Text → ℕ → Type 0) where
  -- What a step adds: a stored state, or a watcher that joins.
  unfoldable pub IsKnown : Step → Type 0
  IsKnown (join_step app w) = Joined app w
  IsKnown (store_step app state) = Stored app state
  IsKnown (leave_step app w) = Unit
  IsKnown (read_step n) = Unit
  IsKnown (snapshot_step n) = Unit
  IsKnown (tell_step n) = Unit

  abbrev pub IsFair : Told → Type 0
  IsFair t = Stored t.app t.state × Joined t.app t.watcher

  -- The invariant: what is kept, and what threads hold, has been stored and has joined.
  pub record IsSound (s : Running) : Type 0 where
    pub kept :
        (app : Text) (state : State) → lookup app s.resolver.states ≡ some state → Stored app state
    pub watched :
        (app : Text) (w : ℕ)
        → member w (snapshot_watchers app s.resolver.table) ≡ true
        → Joined app w
    pub joining : All (λ x. Joined x.0 x.1) s.joining
    pub notifying : All (λ x. Stored x.0 x.1) s.notifying
    pub pending : All IsFair s.pending
    pub told : All IsFair s.resolver.told

  All-tell :
      (app : Text) (ws : List ℕ) (state : State)
      → Stored app state
      → All (Joined app) ws
      → All IsFair (tell app ws state)
  All-tell app [] state h hs = tt
  All-tell app (w ∷ ws) state h hs = ((h, hs.0), All-tell app ws state h hs.1)

  kept_insert :
      (app : Text) (state : State) (s : Running)
      → IsSound s
      → Stored app state
      → (to : Text) (known : State) → lookup to (insert app state s.resolver.states) ≡ some known
      → Stored to known
  kept_insert app state s h new to known m =
      let written = lookup-insert app to state s.resolver.states in
      elim (Bool-cases (app == to)) [
        | inl same ↦
            let e : some state ≡ some known = sym (written ∙ rw same refl) ∙ m in
            subst (Stored to) (cc e)
              (subst (λ k. Stored k state) ((text_beq_iff app to).0 same) new)
        | inr apart ↦ h.kept to known (sym (written ∙ rw apart refl) ∙ m)
      ]

  add_watched :
      (app : Text) (watcher : ℕ) (s : Running)
      → IsSound s
      → Joined app watcher
      → (to : Text) (w : ℕ)
      → member w (snapshot_watchers to (Table.add_watch app watcher s.resolver.table)) ≡ true
      → Joined to w
  add_watched app watcher s h new to w m =
      elim (Bool-cases (member w (snapshot_watchers to s.resolver.table))) [
        | inl there ↦ h.watched to w there
        | inr away ↦
            let same_app : app ≡ to = grind (
              arith,
              watching-add_watch app to watcher w s.resolver.table,
              text_beq_iff app to,
              m,
              away,
            ) in
            let same_watcher : watcher ≡ w = grind (
              arith,
              watching-add_watch app to watcher w s.resolver.table,
              nat_beq_iff watcher w,
              m,
              away,
            ) in
            subst (Joined to) same_watcher (subst (λ k. Joined k watcher) same_app new)
      ]

  after_join-IsSound :
      (app : Text) (w : ℕ) (s : Running) (err : Option Text) (r : K8sResolver)
      → Joined app w
      → IsSound s
      → IsSound (record s { resolver = r })
      → IsSound (after_join app w s (err, r))
  unfolding after_join
  after_join-IsSound app w s none r new h h' = record {
    kept = h'.kept;
    watched = h'.watched;
    joining = All-append _ s.joining ((app, w) ∷ []) h.joining (new, tt);
    notifying = h.notifying;
    pending = h.pending;
    told = h'.told;
  }
  after_join-IsSound app w s (some err) r new h h' = h'

  join-IsSound :
      (app : Text) (w : ℕ) (s : Running)
      → Joined app w
      → IsSound s
      → IsSound (record s { resolver = (join app w s.resolver).1 })
  unfolding join
  join-IsSound app w s new h =
      unless_failed_either (λ r. IsSound (record s { resolver = r })) s.resolver.init_err _
        s.resolver h
        (if_either
          (λ (result : Option Text × K8sResolver). IsSound (record s { resolver = result.1 }))
          (app == []) (some (codes "empty app name"), s.resolver) (none, joined app w s.resolver)
          (λ _. h)
          (λ _. record {
            kept = h.kept;
            watched = add_watched app w s h new;
            joining = h.joining;
            notifying = h.notifying;
            pending = h.pending;
            told = h.told;
          }))

  kept_forget :
      (app : Text) (ws : List ℕ) (s : Running)
      → IsSound s
      → (to : Text) (known : State) → lookup to (forget app ws s.resolver.states) ≡ some known
      → Stored to known
  kept_forget app [] s h to known m =
      h.kept to known (grind (arith, lookup-erase app to s.resolver.states, m))
  kept_forget app (x ∷ ws) s h to known m = h.kept to known m

  leave-IsSound :
      (app : Text) (w : ℕ) (s : Running)
      → IsSound s
      → IsSound (record s { resolver = (del_watch app w s.resolver).1 })
  leave-IsSound app w s h =
      del_watch_either (λ r. IsSound (record s { resolver = r })) app w s.resolver h
        (λ ws. record {
          kept = kept_forget app (without w ws) s h;
          watched = λ to x m.
              h.watched to x (ground (arith, watching-del_watch app to w x s.resolver.table, m));
          joining = h.joining;
          notifying = h.notifying;
          pending = h.pending;
          told = h.told;
        })

  after_read-IsSound :
      (app : Text) (w : ℕ) (s : Running) (known : Option State)
      → Joined app w
      → lookup app s.resolver.states ≡ known
      → IsSound s
      → IsSound (after_read app w s known)
  unfolding after_read
  after_read-IsSound app w s none new e h = h
  after_read-IsSound app w s (some state) new e h = record {
    kept = h.kept;
    watched = h.watched;
    joining = h.joining;
    notifying = h.notifying;
    pending = All-append _ s.pending _ h.pending ((h.kept app state e, new), tt);
    told = h.told;
  }

  read-IsSound :
      (s : Running) (o : Option ((Text × ℕ) × List (Text × ℕ)))
      → Pulled (λ x. Joined x.0 x.1) o
      → IsSound s
      → IsSound (read s o)
  unfolding read
  read-IsSound s none p h = h
  read-IsSound s (some ((app, w), rest)) p h =
      after_read-IsSound app w (record s { joining = rest }) (lookup app s.resolver.states) p.0 refl
        (record {
          kept = h.kept;
          watched = h.watched;
          joining = p.1;
          notifying = h.notifying;
          pending = h.pending;
          told = h.told;
        })

  snapshot-IsSound :
      (s : Running) (o : Option ((Text × State) × List (Text × State)))
      → Pulled (λ x. Stored x.0 x.1) o
      → IsSound s
      → IsSound (snapshot s o)
  unfolding snapshot
  snapshot-IsSound s none p h = h
  snapshot-IsSound s (some ((app, state), rest)) p h =
      let ws = snapshot_watchers app s.resolver.table in
      record {
        kept = h.kept;
        watched = h.watched;
        joining = h.joining;
        notifying = p.1;
        pending =
            All-append _ s.pending _ h.pending
              (All-tell app ws state p.0 (All-member (Joined app) ws (h.watched app)));
        told = h.told;
      }

  update-IsSound :
      (s : Running) (o : Option (Told × List Told))
      → Pulled IsFair o
      → IsSound s
      → IsSound (update s o)
  unfolding update
  update-IsSound s none p h = h
  update-IsSound s (some (told, rest)) p h = record {
    kept = h.kept;
    watched = h.watched;
    joining = h.joining;
    notifying = h.notifying;
    pending = p.1;
    told = All-append _ s.resolver.told (told ∷ []) h.told (p.0, tt);
  }

  step-IsSound : (x : Step) (s : Running) → IsKnown x → IsSound s → IsSound (step x s)
  unfolding step IsKnown
  step-IsSound (join_step app w) s new h =
      after_join-IsSound app w s _ _ new h (join-IsSound app w s new h)
  step-IsSound (leave_step app w) s new h = leave-IsSound app w s h
  step-IsSound (store_step app state) s new h = record {
    kept = kept_insert app state s h new;
    watched = h.watched;
    joining = h.joining;
    notifying = All-append _ s.notifying ((app, state) ∷ []) h.notifying (new, tt);
    pending = h.pending;
    told = h.told;
  }
  step-IsSound (read_step n) s new h = read-IsSound s _ (All-pull _ n s.joining h.joining) h
  step-IsSound (snapshot_step n) s new h =
      snapshot-IsSound s _ (All-pull _ n s.notifying h.notifying) h
  step-IsSound (tell_step n) s new h = update-IsSound s _ (All-pull IsFair n s.pending h.pending) h

  steps_keep : (xs : List Step) (s : Running) → All IsKnown xs → IsSound s → IsSound (steps xs s)
  unfolding steps
  steps_keep [] s new h = h
  steps_keep (x ∷ xs) s new h = steps_keep xs (step x s) new.1 (step-IsSound x s new.0 h)

  -- Calls and published states that overlap in any way: a watcher is only ever told a state that has been
  -- stored for an app for which it has been added. That is, what holds of every state that is stored and
  -- of every watcher that is added holds of all that is told.
  pub steps-IsFair :
      (init_err : Option Text) (xs : List Step)
      → All IsKnown xs
      → All IsFair (steps xs (idle (new_resolver init_err))).resolver.told
  unfolding new_resolver new_table snapshot_watchers lookup member
  steps-IsFair init_err xs new =
      (steps_keep xs (idle (new_resolver init_err)) new (record {
        kept = λ app state m. absurd (cc m);
        watched = λ app w m. absurd (cc m);
        joining = tt;
        notifying = tt;
        pending = tt;
        told = tt;
      })).told
