-- ===== src/Xds/Traffic/Limiter/Tests.antt =====
-- The rate limiter's theorems at concrete limiters.
use yggdrasil_ecosystem.Prelude.{◌≤◌, ◌≡◌, refl, List, [], ◌∷◌, arith}
use yggdrasil_ecosystem.Xds.Resource.Model.{RateLimiterConfig}
use yggdrasil_ecosystem.Xds.Traffic.Limiter.{
  RateLimiter, running, Event, request, tick, stops, serve,
}
use yggdrasil_ecosystem.Xds.Traffic.Limiter.Laws.{serve-capped, IsFilling}

abbrev config : RateLimiterConfig
config = record { max_tokens = 2; tokens_per_fill = 1; fill_interval = 1000 }

-- A bucket of two tokens that is empty.
abbrev empty_bucket : RateLimiter
empty_bucket = record {
  config = config;
  tokens = 0;
  last_fill_time = 0;
  allowed_count = 2;
  rejected_count = 0;
  refiller = running;
}

abbrev history : List Event
history = request ∷ tick 1000 ∷ request ∷ request ∷ stops ∷ tick 2000 ∷ []

history_granted : (serve history empty_bucket).1 ≡ 1
unfolding serve
history_granted = refl

serve-capped_example :
    ((serve history empty_bucket).0.tokens ≤ 2) × ((serve history empty_bucket).0.config ≡ config)
serve-capped_example = serve-capped history empty_bucket (omega arith)

empty_bucket-IsFilling : IsFilling empty_bucket
empty_bucket-IsFilling = ground arith
