-- ===== src/K8s/Resolver/Alone.antt =====
-- A call or a published state that nothing overlaps with: its steps come to what it does in one go.
use mathlib.Core.List.{append_assoc, append-nil}
use yggdrasil_ecosystem.Prelude.{
  ℕ, zero, suc, ◌≡◌, ◌≢◌, refl, ap, sym, ◌∙◌, false, Option, none, some, List, [], ◌∷◌, ◌++◌, arith,
  ◌==◌, length,
}
use yggdrasil_ecosystem.Prelude.Text.{Text, text_eq, text_beq_iff}
use yggdrasil_ecosystem.Prelude.Dict.{lookup, insert}
use yggdrasil_ecosystem.Discovery.Table.{snapshot_watchers}
use yggdrasil_ecosystem.K8s.Endpoints.{State}
use yggdrasil_ecosystem.K8s.Resolver.{
  K8sResolver, Told, tell, tell_known, joined, add_watch, publish,
}
use yggdrasil_ecosystem.K8s.Resolver.Laws.{unless_failed_fine}
use yggdrasil_ecosystem.K8s.Resolver.Stale.{join_fine}
use yggdrasil_ecosystem.K8s.Resolver.Overlaps.{
  Running, Step, join_step, store_step, read_step, snapshot_step, tell_step, pull, after_join,
  after_read, read, snapshot, update, step, steps, idle,
}

add_watch_fine_result :
    (app : Text) (w : ℕ) (r : K8sResolver)
    → r.init_err ≡ none
    → app ≢ []
    → add_watch app w r ≡ (none, tell_known app w (lookup app r.states) (joined app w r))
unfolding add_watch
add_watch_fine_result app w r fine named =
    let filled : (app == []) ≡ false = ground (arith, named, text_beq_iff app []) in
    unless_failed_fine r.init_err _ r fine ∙ rw filled refl

tell_known-steps :
    (app : Text) (w : ℕ) (known : Option State) (r : K8sResolver)
    → (steps (tell_step 0 ∷ []) (after_read app w (idle r) known)).resolver
      ≡ tell_known app w known r
unfolding steps step update pull after_read tell_known
tell_known-steps app w none r = refl
tell_known-steps app w (some state) r = refl

-- An AddWatch alone.
pub add_watch-steps :
    (app : Text) (w : ℕ) (r : K8sResolver)
    → r.init_err ≡ none
    → app ≢ []
    → (steps (join_step app w ∷ read_step 0 ∷ tell_step 0 ∷ []) (idle r)).resolver
      ≡ (add_watch app w r).1
unfolding steps step after_join read pull
add_watch-steps app w r fine named =
    ap (λ x. (steps (read_step 0 ∷ tell_step 0 ∷ []) (after_join app w (idle r) x)).resolver)
      (join_fine app w r fine named)
    ∙ tell_known-steps app w (lookup app r.states) (joined app w r)
    ∙ sym (ap (λ result. result.1) (add_watch_fine_result app w r fine named))

-- The updates of a snapshot, one after the other.
abbrev pub tell_all : ℕ → List Step
tell_all zero = []
tell_all (suc n) = tell_step 0 ∷ tell_all n

steps-tell_all :
    (ts : List Told) (s : Running)
    → s.pending ≡ ts
    → (steps (tell_all (length ts)) s).resolver ≡ record s.resolver { told = s.resolver.told ++ ts }
unfolding steps step update pull
steps-tell_all [] s e =
    ap {A = List Told} (λ all. record s.resolver { told = all }) (sym (append-nil s.resolver.told))
steps-tell_all (t ∷ ts) s e =
    ap (λ ps. (steps (tell_all (length ts)) (update s (pull 0 ps))).resolver) e
    ∙ steps-tell_all ts (update s (some (t, ts))) refl
    ∙ ap {A = List Told} (λ all. record s.resolver { told = all })
        (append_assoc s.resolver.told (t ∷ []) ts)

-- A published state alone.
pub publish-steps :
    (app : Text) (state : State) (r : K8sResolver)
    → (steps
        (store_step app state
          ∷ snapshot_step 0
          ∷ tell_all (length (tell app (snapshot_watchers app r.table) state)))
        (idle r)).resolver
      ≡ publish app state r
unfolding steps step snapshot pull publish
publish-steps app state r =
    steps-tell_all (tell app (snapshot_watchers app r.table) state)
      (record {
        resolver = record r { states = insert app state r.states };
        joining = [];
        notifying = [];
        pending = tell app (snapshot_watchers app r.table) state;
      })
      refl
