-- ===== src/K8s/Resolver/Retries.antt =====
-- The delays and the retries of modules/k8s/discovery/backoff.go and of watchLoop.
use yggdrasil_ecosystem.Prelude.{
  ℕ, suc, ◌+◌, ◌≤◌, ◌<◌, ◌≡◌, ◌≢◌, refl, List, [], ◌∷◌, arith, length, nat_eq,
}
use yggdrasil_ecosystem.Prelude.Text.{Text}
use yggdrasil_ecosystem.K8s.Endpoints.{BackoffConfig}
use yggdrasil_ecosystem.K8s.Resolver.{
  Delays, backoff, K8sResolver, Watch, WatchEnd, cancelled, watch_error, list_error, going_on,
  watch, watch_loop, next_round,
}

-- After a first retry no delay is above the configured one.
pub backoff-le-max :
    {Float : Type 0} (delays : Delays Float) (cfg : BackoffConfig Float) (retry : ℕ)
    → 0 < retry
    → backoff delays cfg retry ≤ cfg.max_delay
unfolding backoff
backoff-le-max delays cfg retry pos = ground arith

-- No watch of the rounds ends with its context.
unfoldable pub IsUncancelled : Text → Text → List (List Watch × List Watch) → K8sResolver → Type 0
IsUncancelled mode app [] r = Unit
IsUncancelled mode app ((slices, endpoints) ∷ rounds) r =
    ((watch mode app slices endpoints r).0 ≢ cancelled)
    × IsUncancelled mode app rounds (watch mode app slices endpoints r).1

rounds_of :
    (retries n : ℕ) (r : K8sResolver) (rest : ℕ × K8sResolver) (end : WatchEnd)
    → end ≢ cancelled
    → rest.0 ≡ retries + 1 + n
    → (next_round end (retries, r) rest).0 ≡ retries + suc n
unfolding next_round
rounds_of retries n r rest cancelled other e = absurd (other refl)
rounds_of retries n r rest watch_error other e = omega (arith, e)
rounds_of retries n r rest list_error other e = omega (arith, e)
rounds_of retries n r rest going_on other e = omega (arith, e)

-- As long as the context is not done, watchLoop counts every round as a retry, also where the watches
-- of the round have been opened and have delivered: the delay between watches never falls again.
pub watch_loop_counts :
    (mode app : Text) (retries : ℕ) (rounds : List (List Watch × List Watch)) (r : K8sResolver)
    → IsUncancelled mode app rounds r
    → (watch_loop mode app retries rounds r).0 ≡ retries + length rounds
unfolding watch_loop IsUncancelled
watch_loop_counts mode app retries [] r h = omega arith
watch_loop_counts mode app retries ((slices, endpoints) ∷ rounds) r h =
    rounds_of retries (length rounds) _ _ (watch mode app slices endpoints r).0 h.0
      (watch_loop_counts mode app (retries + 1) rounds (watch mode app slices endpoints r).1 h.1)
