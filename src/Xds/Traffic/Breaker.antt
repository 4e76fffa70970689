-- ===== src/Xds/Traffic/Breaker.antt =====
-- modules/xds/traffic/circuit_breaker.go, one call at a time: no other thread runs between the load
-- and the compare-and-swap of a call, so its loop ends in the first round. Threads has the loop with
-- the other threads in between. The debug log is left out.
pub mod Laws
pub mod Threads
mod Tests
use yggdrasil_ecosystem.Prelude.{
  ℕ, ◌+◌, ◌-◌, Bool, true, false, Option, none, some, leb, ◌==◌, nat_eq, if◌then◌else◌, u32, u64,
  u32_mod,
}
use yggdrasil_ecosystem.Xds.Resource.Model.{CircuitBreakerConfig}

pub record CircuitBreaker : Type 0 where
  pub config : CircuitBreakerConfig
  pub open config use *
  pub active_connections : ℕ
  pub pending_requests : ℕ
  pub active_requests : ℕ
  pub active_retries : ℕ
  pub rejected_requests : ℕ
  pub rejected_retries : ℕ

abbrev pub default_config : CircuitBreakerConfig
default_config = record {
  max_connections = 1024;
  max_pending_requests = 1024;
  max_requests = 1024;
  max_retries = 3;
}

abbrev fresh : CircuitBreakerConfig → CircuitBreaker
fresh config = record {
  config = config;
  active_connections = 0;
  pending_requests = 0;
  active_requests = 0;
  active_retries = 0;
  rejected_requests = 0;
  rejected_retries = 0;
}

unfoldable pub new_circuit_breaker : Option CircuitBreakerConfig → CircuitBreaker
new_circuit_breaker none = fresh default_config
new_circuit_breaker (some config) = fresh config

-- A ResourceType is an int, so a call may pass a value that names no resource.
pub data ResourceType : Type 0 where
  connection pending_request request retry : ResourceType
  other : ℕ → ResourceType

-- atomic.AddUint32(&n, ^uint32(0))
abbrev pub decrement : ℕ → ℕ
decrement n = u32 (n + (u32_mod - 1))

try_acquire_connection : CircuitBreaker → CircuitBreaker × Bool
try_acquire_connection cb =
    if cb.max_connections == 0
    then (cb, true)
    else if leb cb.max_connections cb.active_connections
    then (cb, false)
    else (record cb { active_connections = u32 (cb.active_connections + 1) }, true)

try_acquire_pending_request : CircuitBreaker → CircuitBreaker × Bool
try_acquire_pending_request cb =
    if cb.max_pending_requests == 0
    then (cb, true)
    else if leb cb.max_pending_requests cb.pending_requests
    then (cb, false)
    else (record cb { pending_requests = u32 (cb.pending_requests + 1) }, true)

try_acquire_request : CircuitBreaker → CircuitBreaker × Bool
try_acquire_request cb =
    if cb.max_requests == 0
    then (cb, true)
    else if leb cb.max_requests cb.active_requests
    then (record cb { rejected_requests = u64 (cb.rejected_requests + 1) }, false)
    else (record cb { active_requests = u32 (cb.active_requests + 1) }, true)

try_acquire_retry : CircuitBreaker → CircuitBreaker × Bool
try_acquire_retry cb =
    if cb.max_retries == 0
    then (cb, true)
    else if leb cb.max_retries cb.active_retries
    then (record cb { rejected_retries = u64 (cb.rejected_retries + 1) }, false)
    else (record cb { active_retries = u32 (cb.active_retries + 1) }, true)

unfoldable pub try_acquire : ResourceType → CircuitBreaker → CircuitBreaker × Bool
unfolding try_acquire_connection try_acquire_pending_request try_acquire_request try_acquire_retry
try_acquire connection cb = try_acquire_connection cb
try_acquire pending_request cb = try_acquire_pending_request cb
try_acquire request cb = try_acquire_request cb
try_acquire retry cb = try_acquire_retry cb
try_acquire (other n) cb = (cb, false)

release_connection : CircuitBreaker → CircuitBreaker
release_connection cb = record cb { active_connections = decrement cb.active_connections }

release_pending_request : CircuitBreaker → CircuitBreaker
release_pending_request cb = record cb { pending_requests = decrement cb.pending_requests }

release_request : CircuitBreaker → CircuitBreaker
release_request cb = record cb { active_requests = decrement cb.active_requests }

release_retry : CircuitBreaker → CircuitBreaker
release_retry cb = record cb { active_retries = decrement cb.active_retries }

unfoldable pub release : ResourceType → CircuitBreaker → CircuitBreaker
unfolding release_connection release_pending_request release_request release_retry
release connection cb = release_connection cb
release pending_request cb = release_pending_request cb
release request cb = release_request cb
release retry cb = release_retry cb
release (other n) cb = cb

pub record CircuitBreakerStats : Type 0 where
  pub active_connections : ℕ
  pub pending_requests : ℕ
  pub active_requests : ℕ
  pub active_retries : ℕ
  pub rejected_requests : ℕ
  pub rejected_retries : ℕ

unfoldable pub get_stats : CircuitBreaker → CircuitBreakerStats
get_stats cb = record {
  active_connections = cb.active_connections;
  pending_requests = cb.pending_requests;
  active_requests = cb.active_requests;
  active_retries = cb.active_retries;
  rejected_requests = cb.rejected_requests;
  rejected_retries = cb.rejected_retries;
}
