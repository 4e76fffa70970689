-- ===== src/Xds/Resolver/Ads/Retries.antt =====
-- modules/xds/internal/resolver/ads.go: the loop of run, which connects again and again. An outcome
-- of connect is an error, dialing or after any time on the stream, or nil, which connect returns only
-- when the client's context is done.
use yggdrasil_ecosystem.Prelude.{
  ℕ, zero, suc, ◌+◌, ◌*◌, ◌≤◌, ◌≡◌, refl, ap, ◌∙◌, Bool, true, false, Bool-cases, inl, inr, List,
  [], ◌∷◌, arith, ltb, leb, if◌then◌else◌,
}
use yggdrasil_ecosystem.Xds.Resolver.Ads.{max_ads_retries}

-- The wait after an error ends, or the context does.
pub data Outcome : Type 0 where
  fails_then_waits fails_then_done done : Outcome

pub record Runner : Type 0 where
  pub retries : ℕ
  pub max_retries : ℕ
  pub backoff : ℕ
  pub running : Bool

-- Nanoseconds.
abbrev pub second_ns : ℕ
second_ns = 1000000000

-- run at its start.
abbrev pub new_runner : ℕ → Runner
new_runner max = record { retries = 0; max_retries = max; backoff = second_ns; running = true }

-- One turn of the loop. After nil the context is done, so the next turn returns.
unfoldable pub turn : Outcome → Runner → Runner
turn fails_then_waits r =
    if ltb r.retries r.max_retries
    then record r { retries = r.retries + 1; backoff = (r.retries + 1) * second_ns }
    else record r { running = false }
turn fails_then_done r = record r { running = false }
turn done r = record r { retries = 0; backoff = second_ns; running = false }

unfoldable pub run : List Outcome → Runner → Runner
run [] r = r
run (o ∷ os) r = if r.running then run os (turn o r) else r

-- So many connections that end with an error.
abbrev pub failures : ℕ → List Outcome
failures zero = []
failures (suc n) = fails_then_waits ∷ failures n

run_stopped : (os : List Outcome) (r : Runner) → r.running ≡ false → run os r ≡ r
unfolding run
run_stopped [] r down = refl
run_stopped (o ∷ os) r down = ground arith

run_failing :
    (n : ℕ) (r : Runner)
    → r.running ≡ true
    → r.retries ≤ r.max_retries
    → (run (failures n) r).running ≡ leb (r.retries + n) r.max_retries
unfolding run turn
run_failing zero r up room = ground arith
run_failing (suc n) r up room =
    let next = record r { retries = r.retries + 1; backoff = (r.retries + 1) * second_ns } in
    elim (Bool-cases (ltb r.retries r.max_retries)) [
      | inl more ↦ ground (arith, run_failing n next up (ground arith))
      | inr last ↦ ground (arith, run_stopped (failures n) (record r { running = false }))
    ]

-- How many connections may fail: the configured number, or 10 where that is 0.
abbrev pub allowed_failures : ℕ → ℕ
allowed_failures zero = 10
allowed_failures (suc n) = suc n

-- The client keeps connecting as long as no more than max_retries connections have ended with an
-- error since the start of run, and has stopped for good after one more: none of them, however long
-- it lasted, takes the count back. A max_retries of 0 is no exception: it counts as 10.
pub run-failures :
    (n configured : ℕ)
    → (run (failures n) (new_runner (max_ads_retries configured))).running
      ≡ leb n (allowed_failures configured)
run-failures n configured =
    let max = max_ads_retries configured in
    run_failing n (new_runner max) refl (omega arith)
    ∙ ap (λ k. leb k max) (omega arith)
    ∙ ap (leb n) (max_ads_retries-allowed configured)
  where
    max_ads_retries-allowed : (m : ℕ) → max_ads_retries m ≡ allowed_failures m
    max_ads_retries-allowed zero = refl
    max_ads_retries-allowed (suc m) = ground arith
