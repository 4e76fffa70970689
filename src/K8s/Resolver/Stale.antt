-- ===== src/K8s/Resolver/Stale.antt =====
-- An AddWatch that overlaps with a published state.
use mathlib.Core.List.{append_assoc}
use yggdrasil_ecosystem.Prelude.{
  ℕ, zero, suc, ◌≡◌, ◌≢◌, refl, ap, ◌∙◌, true, false, none, some, List, [], ◌∷◌, ◌++◌, arith, ◌==◌,
  nat_eq, nat_beq_iff, length,
}
use yggdrasil_ecosystem.Prelude.Text.{Text, text_eq, text_beq_iff}
use yggdrasil_ecosystem.Prelude.Dict.{lookup, insert, member, lookup-insert}
use yggdrasil_ecosystem.Discovery.Table.{snapshot_watchers}
use yggdrasil_ecosystem.Discovery.Table.Watching.{watching-add_watch}
use yggdrasil_ecosystem.K8s.Endpoints.{State}
use yggdrasil_ecosystem.K8s.Resolver.{K8sResolver, Told, tell, joined}
use yggdrasil_ecosystem.K8s.Resolver.Laws.{unless_failed_fine}
use yggdrasil_ecosystem.K8s.Resolver.Updates.{last_told, last_told-append, last_told-tell}
use yggdrasil_ecosystem.K8s.Resolver.Overlaps.{
  Running, Step, join_step, store_step, read_step, snapshot_step, tell_step, pull, join, after_join,
  after_read, read, snapshot, update, step, steps, idle,
}

-- The steps by which the updates of a snapshot are made, and then the one that was pending before.
abbrev pub tell_rest : ℕ → List Step
tell_rest zero = tell_step 0 ∷ []
tell_rest (suc n) = tell_step 1 ∷ tell_rest n

-- An AddWatch reads the kept state; a new state is stored and told to all watchers; then AddWatch tells
-- the state that it has read.
abbrev pub late_update : Text → ℕ → State → K8sResolver → List Step
late_update app w new r =
    join_step app w
    ∷ read_step 0
    ∷ store_step app new
    ∷ snapshot_step 0
    ∷ tell_rest (length (tell app (snapshot_watchers app (joined app w r).table) new))

pub join_fine :
    (app : Text) (w : ℕ) (r : K8sResolver)
    → r.init_err ≡ none
    → app ≢ []
    → join app w r ≡ (none, joined app w r)
unfolding join
join_fine app w r fine named =
    let filled : (app == []) ≡ false = ground (arith, named, text_beq_iff app []) in
    unless_failed_fine r.init_err _ r fine ∙ rw filled refl

-- Before the updates: the one of AddWatch, and those of the snapshot.
abbrev before_updates : Text → ℕ → State → State → K8sResolver → Running
before_updates app w old new r = record {
  resolver = record (joined app w r) { states = insert app new r.states };
  joining = [];
  notifying = [];
  pending = tell app (w ∷ []) old ++ tell app (snapshot_watchers app (joined app w r).table) new;
}

first_steps :
    (app : Text) (w : ℕ) (old new : State) (r : K8sResolver) (rest : List Step)
    → join app w r ≡ (none, joined app w r)
    → lookup app r.states ≡ some old
    → steps (join_step app w ∷ read_step 0 ∷ store_step app new ∷ snapshot_step 0 ∷ rest) (idle r)
      ≡ steps rest (before_updates app w old new r)
unfolding steps step after_join read snapshot pull after_read
first_steps app w old new r rest fine kept =
    ap
      (λ x.
        steps (read_step 0 ∷ store_step app new ∷ snapshot_step 0 ∷ rest)
          (after_join app w (idle r) x))
      fine
    ∙ ap
        (λ o.
          steps (store_step app new ∷ snapshot_step 0 ∷ rest)
            (after_read app w (idle (joined app w r)) o))
        kept

steps-tell_rest :
    (t : Told) (ts : List Told) (s : Running)
    → s.pending ≡ t ∷ ts
    → (steps (tell_rest (length ts)) s).resolver
      ≡ record s.resolver { told = s.resolver.told ++ (ts ++ (t ∷ [])) }
unfolding steps step update pull
steps-tell_rest t [] s e = ap (λ ps. (update s (pull 0 ps)).resolver) e
steps-tell_rest t (u ∷ ts) s e =
    ap (λ ps. (steps (tell_rest (length ts)) (update s (pull 1 ps))).resolver) e
    ∙ steps-tell_rest t ts (update s (some (u, t ∷ ts))) refl
    ∙ ap {A = List Told} (λ all. record s.resolver { told = all })
        (append_assoc s.resolver.told (u ∷ []) (ts ++ (t ∷ [])))

-- A watcher that stays behind: where an AddWatch reads the kept state before a new state is stored and
-- published, and tells what it has read after that, the watcher has last been told the old state,
-- although it watches the app and the resolver keeps the new one.
pub last_told-late_update :
    (app : Text) (w : ℕ) (old new : State) (r : K8sResolver)
    → r.init_err ≡ none
    → app ≢ []
    → lookup app r.states ≡ some old
    → (last_told app w (steps (late_update app w new r) (idle r)).resolver.told ≡ some old)
      × (lookup app (steps (late_update app w new r) (idle r)).resolver.states ≡ some new)
      × (member w (snapshot_watchers app (steps (late_update app w new r) (idle r)).resolver.table)
          ≡ true)
unfolding member
last_told-late_update app w old new r fine named kept =
    let ts = tell app (snapshot_watchers app (joined app w r).table) new in
    let final : (steps (late_update app w new r) (idle r)).resolver ≡ record (joined app w r) {
      states = insert app new r.states;
      told = r.told ++ (ts ++ tell app (w ∷ []) old);
    } =
      ap (λ s. s.resolver)
        (first_steps app w old new r (tell_rest (length ts)) (join_fine app w r fine named) kept)
      ∙ steps-tell_rest (record { app = app; watcher = w; state = old }) ts
          (before_updates app w old new r) refl in
    (
      ap (λ r'. last_told app w r'.told) final
          ∙ grind (
            arith,
            last_told-append app w r.told (ts ++ tell app (w ∷ []) old),
            last_told-append app w ts (tell app (w ∷ []) old),
            last_told-tell app app w (w ∷ []) old,
            text_beq_iff app app,
            nat_beq_iff w w,
          ),
      ap (λ r'. lookup app r'.states) final
          ∙ lookup-insert app app new r.states
          ∙ ground (arith, text_beq_iff app app),
      ap (λ r'. member w (snapshot_watchers app r'.table)) final
          ∙ grind (
            arith,
            watching-add_watch app app w w r.table,
            text_beq_iff app app,
            nat_beq_iff w w,
          ),
    )
