-- ===== src/Xds/Traffic/Limiter/Laws.antt =====
-- The token bucket: what it holds, what it grants over time, and where its uint32 sum wraps.
use yggdrasil_ecosystem.Prelude.{
  ℕ, suc, ◌+◌, ◌-◌, ◌*◌, ◌≤◌, ◌<◌, ◌≡◌, refl, inl, inr, Bool, true, false, some, List, [], ◌∷◌,
  arith, u64, u32_mod, u64_mod, if◌then◌else◌, Bool-cases, ◌↔◌, ◌∙◌,
}
use yggdrasil_ecosystem.Xds.Resource.Model.{RateLimiterConfig}
use yggdrasil_ecosystem.Xds.Traffic.Limiter.{
  RateLimiter, running, panicked, new_rate_limiter, refill_tokens, allow, Event, request, tick,
  stops, serve, Pause, cancelled, elapsed, granted, WaitResult, refills, wait,
}

abbrev pub is_granted : WaitResult → Bool
is_granted granted = true
is_granted _ = false

-- The ticks of a history.
abbrev pub ticks : List Event → ℕ
ticks [] = 0
ticks (tick now ∷ es) = suc (ticks es)
ticks (_ ∷ es) = ticks es

-- The requests of a history.
abbrev pub requests : List Event → ℕ
requests [] = 0
requests (request ∷ es) = suc (requests es)
requests (_ ∷ es) = requests es

-- From a bucket that is not above its capacity, no history of requests, ticks and stops takes it
-- there, and none changes its configuration.
pub serve-capped :
    (es : List Event) (rl : RateLimiter)
    → rl.tokens ≤ rl.max_tokens
    → ((serve es rl).0.tokens ≤ rl.max_tokens) × ((serve es rl).0.config ≡ rl.config)
unfolding serve
serve-capped [] rl h = (h, refl)
serve-capped (request ∷ es) rl h = ground (arith, serve-capped es (allow rl).0)
serve-capped (tick now ∷ es) rl h = ground (arith, serve-capped es (refill_tokens now rl))
serve-capped (stops ∷ es) rl h = serve-capped es _ h

allow_budget :
    (rl : RateLimiter)
    → ((if (allow rl).1 then 1 else 0) + (allow rl).0.tokens ≡ rl.tokens)
      × ((allow rl).0.config ≡ rl.config)
unfolding allow
allow_budget rl = ground arith

refill_budget :
    (now : ℕ) (rl : RateLimiter)
    → ((refill_tokens now rl).tokens ≤ rl.tokens + rl.tokens_per_fill)
      × ((refill_tokens now rl).config ≡ rl.config)
      × ((refill_tokens now rl).allowed_count ≡ rl.allowed_count)
      × ((refill_tokens now rl).rejected_count ≡ rl.rejected_count)
unfolding refill_tokens
refill_budget now rl = ground arith

granted_within :
    (es : List Event) (rl : RateLimiter) (per : ℕ)
    → rl.tokens_per_fill ≡ per
    → (serve es rl).1 + (serve es rl).0.tokens ≤ rl.tokens + ticks es * per
unfolding serve
granted_within [] rl per e = omega arith
granted_within (request ∷ es) rl per e =
    ground (arith, allow_budget rl, granted_within es (allow rl).0 per)
granted_within (tick now ∷ es) rl per e =
    ground (arith, refill_budget now rl, granted_within es (refill_tokens now rl) per)
granted_within (stops ∷ es) rl per e = granted_within es _ per e

-- What any history grants is paid for by the tokens at its start and those of its ticks.
pub serve-granted :
    (es : List Event) (rl : RateLimiter)
    → (serve es rl).1 + (serve es rl).0.tokens ≤ rl.tokens + ticks es * rl.tokens_per_fill
serve-granted es rl = granted_within es rl rl.tokens_per_fill refl

allow_counted :
    (rl : RateLimiter)
    → ((allow rl).0.allowed_count
        ≡ (if (allow rl).1 then u64 (rl.allowed_count + 1) else rl.allowed_count))
      × ((allow rl).0.rejected_count
          ≡ (if (allow rl).1 then rl.rejected_count else u64 (rl.rejected_count + 1)))
unfolding allow
allow_counted rl = ground arith

-- From statistics that are uint64, the statistics count every request of a history once: the
-- granted ones as allowed, the others as rejected, both modulo 2 ^ 64.
pub serve-counted :
    (es : List Event) (rl : RateLimiter)
    → rl.allowed_count < u64_mod
    → rl.rejected_count < u64_mod
    → ((serve es rl).1 ≤ requests es)
      × ((serve es rl).0.allowed_count ≡ u64 (rl.allowed_count + (serve es rl).1))
      × ((serve es rl).0.rejected_count ≡ u64 (rl.rejected_count + (requests es - (serve es rl).1)))
unfolding serve
serve-counted [] rl a r = omega arith
serve-counted (request ∷ es) rl a r =
    ground (arith, allow_counted rl, serve-counted es (allow rl).0)
serve-counted (tick now ∷ es) rl a r =
    ground (arith, refill_budget now rl, serve-counted es (refill_tokens now rl))
serve-counted (stops ∷ es) rl a r = serve-counted es _ a r

-- With tokens and a fill that are uint32, a refill of a running limiter whose sum reaches 2 ^ 32
-- takes tokens away, though it is there to add some.
pub refill_tokens_wraps :
    (now : ℕ) (rl : RateLimiter)
    → rl.refiller ≡ running
    → rl.tokens < u32_mod
    → rl.tokens_per_fill < u32_mod
    → u32_mod ≤ rl.tokens + rl.tokens_per_fill
    → (refill_tokens now rl).tokens < rl.tokens
unfolding refill_tokens
refill_tokens_wraps now rl h t p w = ground arith

refills_counted :
    (ts : List ℕ) (rl : RateLimiter) → (refills ts rl).allowed_count ≡ rl.allowed_count
unfolding refills
refills_counted [] rl = refl
refills_counted (t ∷ ts) rl = refills_counted ts (refill_tokens t rl) ∙ (refill_budget t rl).2

-- Wait takes a token from the bucket exactly when it returns nil: then one more call is counted as
-- allowed, and none is when it returns the context's error or still waits.
pub wait-allowed_count :
    (ps : List Pause) (rl : RateLimiter)
    → rl.allowed_count < u64_mod
    → (wait ps rl).0.allowed_count
      ≡ (if is_granted (wait ps rl).1 then u64 (rl.allowed_count + 1) else rl.allowed_count)
unfolding wait
wait-allowed_count [] rl a = ground (arith, allow_counted rl)
wait-allowed_count (cancelled ∷ ps) rl a = ground (arith, allow_counted rl)
wait-allowed_count (elapsed ts ∷ ps) rl a = ground (
  arith,
  allow_counted rl,
  refills_counted ts (allow rl).0,
  wait-allowed_count ps (refills ts (allow rl).0),
)

-- A bucket that the ticker still fills, by a positive amount and with no uint32 overflow.
pub record IsFilling (rl : RateLimiter) : Type 0 where
  pub live : rl.refiller ≡ running
  pub room : 0 < rl.max_tokens
  pub adds : 0 < rl.tokens_per_fill
  pub capped : rl.tokens ≤ rl.max_tokens
  pub no_wrap : rl.max_tokens + rl.tokens_per_fill < u32_mod

refill-IsFilling :
    (now : ℕ) (rl : RateLimiter)
    → IsFilling rl
    → IsFilling (refill_tokens now rl) × (0 < (refill_tokens now rl).tokens)
unfolding refill_tokens
refill-IsFilling now rl f = ground arith

refills-IsFilling :
    (ts : List ℕ) (rl : RateLimiter) → IsFilling rl → 0 < rl.tokens → 0 < (refills ts rl).tokens
unfolding refills
refills-IsFilling [] rl f h = h
refills-IsFilling (t ∷ ts) rl f h =
    let (f', h') = refill-IsFilling t rl f in refills-IsFilling ts (refill_tokens t rl) f' h'

allow-IsFilling : (rl : RateLimiter) → IsFilling rl → (allow rl).1 ≡ false → IsFilling (allow rl).0
unfolding allow
allow-IsFilling rl f e = ground arith

wait_ready : (ps : List Pause) (rl : RateLimiter) → 0 < rl.tokens → (wait ps rl).1 ≡ granted
unfolding wait allow
wait_ready [] rl h = ground arith
wait_ready (cancelled ∷ ps) rl h = ground arith
wait_ready (elapsed ts ∷ ps) rl h = ground arith

-- A caller that waits through a pause with a tick in it is served, whatever comes after that pause,
-- where the ticker runs, the capacity and the fill are positive and their sum fits a uint32, and
-- the bucket is not above its capacity.
pub wait_served :
    (t : ℕ) (ts : List ℕ) (ps : List Pause) (rl : RateLimiter)
    → IsFilling rl
    → (wait (elapsed (t ∷ ts) ∷ ps) rl).1 ≡ granted
unfolding wait refills
wait_served t ts ps rl f = elim (Bool-cases (allow rl).1) [
  | inl done ↦ rw done
  | inr empty ↦
      let (f', h') = refill-IsFilling t (allow rl).0 (allow-IsFilling rl f empty) in
      rw empty (wait_ready ps _ (refills-IsFilling ts (refill_tokens t (allow rl).0) f' h'))
]

-- A limiter whose configuration has no fill interval dies with its process: its goroutine panics as
-- soon as the limiter is made.
pub new_rate_limiter_panics :
    (c : RateLimiterConfig) (now : ℕ)
    → ((new_rate_limiter (some c) now).refiller ≡ panicked) ↔ (c.fill_interval ≡ 0)
unfolding new_rate_limiter
new_rate_limiter_panics c now = ground arith
