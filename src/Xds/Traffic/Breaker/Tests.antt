-- ===== src/Xds/Traffic/Breaker/Tests.antt =====
-- The circuit breaker's theorems at concrete breakers.
use yggdrasil_ecosystem.Prelude.{ℕ, ◌≤◌, ◌≡◌, refl, true, false, List, [], ◌∷◌, arith}
use yggdrasil_ecosystem.Xds.Resource.Model.{CircuitBreakerConfig}
use yggdrasil_ecosystem.Xds.Traffic.Breaker.{CircuitBreaker, request, try_acquire, release}
use yggdrasil_ecosystem.Xds.Traffic.Breaker.Laws.{IsWithin, release-try_acquire}
use yggdrasil_ecosystem.Xds.Traffic.Breaker.Threads.{outside, holding, run, holders, run_exact}

abbrev two_requests : CircuitBreakerConfig
two_requests = record {
  max_connections = 0;
  max_pending_requests = 0;
  max_requests = 2;
  max_retries = 3;
}

-- A breaker with one request under way.
abbrev one_taken : CircuitBreaker
one_taken = record {
  config = two_requests;
  active_connections = 0;
  pending_requests = 0;
  active_requests = 1;
  active_retries = 0;
  rejected_requests = 0;
  rejected_retries = 0;
}

abbrev all_taken : CircuitBreaker
all_taken = record one_taken { active_requests = 2 }

one_taken-IsWithin : IsWithin one_taken
one_taken-IsWithin = ground arith

second_request : (try_acquire request one_taken) ≡ (all_taken, true)
unfolding try_acquire
second_request = refl

third_request : (try_acquire request all_taken).1 ≡ false
unfolding try_acquire
third_request = refl

release-try_acquire_example : release request (try_acquire request one_taken).0 ≡ one_taken
release-try_acquire_example =
    release-try_acquire request one_taken one_taken-IsWithin (omega arith)
      (ap_second second_request)
  where
    ap_second :
        try_acquire request one_taken ≡ (all_taken, true) → (try_acquire request one_taken).1 ≡ true
    ap_second e = λ i. (e i).1

-- Two threads that load the same counter: one swaps, the other loads again and is refused.
abbrev race : List ℕ
race = 0 ∷ 1 ∷ 0 ∷ 1 ∷ 0 ∷ 1 ∷ 1 ∷ 1 ∷ []

race_lem : run 1 race 0 (outside ∷ outside ∷ []) ≡ (1, holding ∷ outside ∷ [])
unfolding run
race_lem = refl

run_exact_example :
    ((run 1 race 0 (outside ∷ outside ∷ [])).0 ≡ holders (run 1 race 0 (outside ∷ outside ∷ [])).1)
    × (holders (run 1 race 0 (outside ∷ outside ∷ [])).1 ≤ 1)
run_exact_example = run_exact 1 race (outside ∷ outside ∷ []) (omega arith) (omega arith) refl
