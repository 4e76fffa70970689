-- ===== src/Xds/Traffic/Limiter.antt =====
-- modules/xds/traffic/rate_limiter.go. The mutex makes each call of Allow and each refill one step;
-- the ticker and the clock are events from outside.
pub mod Laws
mod Tests
use yggdrasil_ecosystem.Prelude.{
  ℕ, ◌+◌, ◌-◌, Bool, true, false, Option, none, some, List, [], ◌∷◌, ltb, ◌==◌, nat_eq,
  if◌then◌else◌, u32, u64, second,
}
use yggdrasil_ecosystem.Xds.Resource.Model.{RateLimiterConfig}

-- The goroutine that refills the bucket. time.NewTicker panics where the interval is not positive,
-- and a panic that nothing recovers ends the process.
pub data Refiller : Type 0 where
  running stopped panicked : Refiller

pub record RateLimiter : Type 0 where
  pub config : RateLimiterConfig
  pub open config use *
  pub tokens : ℕ
  pub last_fill_time : ℕ
  pub allowed_count : ℕ
  pub rejected_count : ℕ
  pub refiller : Refiller

abbrev pub default_config : RateLimiterConfig
default_config = record { max_tokens = 1000; tokens_per_fill = 100; fill_interval = second }

abbrev start_ticker : ℕ → Refiller
start_ticker interval = if interval == 0 then panicked else running

abbrev fresh : RateLimiterConfig → ℕ → RateLimiter
fresh config now = record {
  config = config;
  tokens = config.max_tokens;
  last_fill_time = now;
  allowed_count = 0;
  rejected_count = 0;
  refiller = start_ticker config.fill_interval;
}

unfoldable pub new_rate_limiter : Option RateLimiterConfig → ℕ → RateLimiter
new_rate_limiter none now = fresh default_config now
new_rate_limiter (some config) now = fresh config now

abbrev is_running : Refiller → Bool
is_running running = true
is_running _ = false

-- `current + TokensPerFill` in uint32, then capped.
abbrev filled : ℕ → ℕ → ℕ → ℕ
filled most per_fill current =
    let new_tokens = u32 (current + per_fill) in if ltb most new_tokens then most else new_tokens

-- One round of refillTokens, at a tick of the ticker.
unfoldable pub refill_tokens : ℕ → RateLimiter → RateLimiter
refill_tokens now rl =
    if is_running rl.refiller
    then record rl {
      tokens = filled rl.max_tokens rl.tokens_per_fill rl.tokens;
      last_fill_time = now;
    }
    else rl

unfoldable pub allow : RateLimiter → RateLimiter × Bool
allow rl =
    if ltb 0 rl.tokens
    then (record rl { tokens = rl.tokens - 1; allowed_count = u64 (rl.allowed_count + 1) }, true)
    else (record rl { rejected_count = u64 (rl.rejected_count + 1) }, false)

abbrev ended : Refiller → Refiller
ended panicked = panicked
ended _ = stopped

unfoldable pub stop : RateLimiter → RateLimiter
stop rl = record rl { refiller = ended rl.refiller }

-- What the limiter meets over time.
pub data Event : Type 0 where
  request : Event
  tick : ℕ → Event
  stops : Event

-- A history of events: the limiter after it, and how many requests were granted.
unfoldable pub serve : List Event → RateLimiter → RateLimiter × ℕ
unfolding allow refill_tokens stop
serve [] rl = (rl, 0)
serve (request ∷ es) rl =
    let (rl', granted) = allow rl in
    let (last, n) = serve es rl' in (last, if granted then n + 1 else n)
serve (tick now ∷ es) rl = serve es (refill_tokens now rl)
serve (stops ∷ es) rl = serve es (stop rl)

-- What ends a pause of Wait: the caller's context, or the time, with the ticks of the pause before it.
pub data Pause : Type 0 where
  cancelled : Pause
  elapsed : List ℕ → Pause

pub data WaitResult : Type 0 where
  granted : WaitResult
  context_error : WaitResult
  still_waiting : WaitResult

unfoldable pub refills : List ℕ → RateLimiter → RateLimiter
unfolding refill_tokens
refills [] rl = rl
refills (now ∷ rest) rl = refills rest (refill_tokens now rl)

-- The loop of Wait, over the pauses that it meets; it still waits when these are used up.
unfoldable pub wait : List Pause → RateLimiter → RateLimiter × WaitResult
unfolding allow refills
wait [] rl = let (rl', ok) = allow rl in if ok then (rl', granted) else (rl', still_waiting)
wait (cancelled ∷ ps) rl =
    let (rl', ok) = allow rl in if ok then (rl', granted) else (rl', context_error)
wait (elapsed ticks ∷ ps) rl =
    let (rl', ok) = allow rl in
    let again = wait ps (refills ticks rl') in if ok then (rl', granted) else again

pub record RateLimiterStats : Type 0 where
  pub current_tokens : ℕ
  pub max_tokens : ℕ
  pub allowed_count : ℕ
  pub rejected_count : ℕ

unfoldable pub get_stats : RateLimiter → RateLimiterStats
get_stats rl = record {
  current_tokens = rl.tokens;
  max_tokens = rl.max_tokens;
  allowed_count = rl.allowed_count;
  rejected_count = rl.rejected_count;
}
