-- ===== src/Xds/Traffic/Breaker/Laws.antt =====
-- What a call of the circuit breaker admits, and what it leaves behind.
use yggdrasil_ecosystem.Prelude.{ℕ, ◌-◌, ◌≤◌, ◌<◌, ◌≡◌, ◌↔◌, ◌⊎◌, true, false, arith, u32_mod}
use yggdrasil_ecosystem.Xds.Traffic.Breaker.{
  CircuitBreaker, ResourceType, connection, pending_request, request, retry, other, try_acquire,
  release,
}

-- The limit that a resource has, with 0 for none.
abbrev pub limit : ResourceType → CircuitBreaker → ℕ
limit connection cb = cb.max_connections
limit pending_request cb = cb.max_pending_requests
limit request cb = cb.max_requests
limit retry cb = cb.max_retries
limit (other n) cb = 0

-- The slots of a resource that are taken.
abbrev pub taken : ResourceType → CircuitBreaker → ℕ
taken connection cb = cb.active_connections
taken pending_request cb = cb.pending_requests
taken request cb = cb.active_requests
taken retry cb = cb.active_retries
taken (other n) cb = 0

abbrev pub IsKnown : ResourceType → Type 0
IsKnown (other n) = ⊥
IsKnown _ = Unit {0}

-- Every limit is a uint32, and no resource with a limit has more slots taken than that.
pub record IsWithin (cb : CircuitBreaker) : Type 0 where
  pub connections : cb.max_connections < u32_mod
  pub pending : cb.max_pending_requests < u32_mod
  pub requests : cb.max_requests < u32_mod
  pub retries : cb.max_retries < u32_mod
  pub connections_taken : 0 < cb.max_connections → cb.active_connections ≤ cb.max_connections
  pub pending_taken : 0 < cb.max_pending_requests → cb.pending_requests ≤ cb.max_pending_requests
  pub requests_taken : 0 < cb.max_requests → cb.active_requests ≤ cb.max_requests
  pub retries_taken : 0 < cb.max_retries → cb.active_retries ≤ cb.max_retries

-- A resource is granted exactly when it has no limit or a slot below the limit is free; a value
-- that names no resource is never granted.
pub try_acquire_admits :
    (r : ResourceType) (cb : CircuitBreaker)
    → ((try_acquire r cb).1 ≡ true) ↔ (IsKnown r × ((limit r cb ≡ 0) ⊎ (taken r cb < limit r cb)))
unfolding try_acquire
try_acquire_admits connection cb = ground arith
try_acquire_admits pending_request cb = ground arith
try_acquire_admits request cb = ground arith
try_acquire_admits retry cb = ground arith
try_acquire_admits (other n) cb = ground arith

-- From limits that are uint32 and counters within them, every call of TryAcquire keeps all counters
-- within their limits.
pub try_acquire-IsWithin :
    (r : ResourceType) (cb : CircuitBreaker) → IsWithin cb → IsWithin (try_acquire r cb).0
unfolding try_acquire
try_acquire-IsWithin connection cb v = ground arith
try_acquire-IsWithin pending_request cb v = ground arith
try_acquire-IsWithin request cb v = ground arith
try_acquire-IsWithin retry cb v = ground arith
try_acquire-IsWithin (other n) cb v = v

-- On a breaker within its limits, a release after a granted call on a limited resource gives the
-- breaker back as it was, with every counter and statistic.
pub release-try_acquire :
    (r : ResourceType) (cb : CircuitBreaker)
    → IsWithin cb
    → 0 < limit r cb
    → (try_acquire r cb).1 ≡ true
    → release r (try_acquire r cb).0 ≡ cb
unfolding try_acquire release
release-try_acquire connection cb v h e = ground arith
release-try_acquire pending_request cb v h e = ground arith
release-try_acquire request cb v h e = ground arith
release-try_acquire retry cb v h e = ground arith
release-try_acquire (other n) cb v h e = absurd (omega arith)

-- A refused call takes no slot of any resource.
pub try_acquire_refused :
    (r q : ResourceType) (cb : CircuitBreaker)
    → (try_acquire r cb).1 ≡ false
    → taken q (try_acquire r cb).0 ≡ taken q cb
unfolding try_acquire
try_acquire_refused connection q cb e = ground arith
try_acquire_refused pending_request q cb e = ground arith
try_acquire_refused request connection cb e = ground arith
try_acquire_refused request pending_request cb e = ground arith
try_acquire_refused request request cb e = ground arith
try_acquire_refused request retry cb e = ground arith
try_acquire_refused request (other n) cb e = ground arith
try_acquire_refused retry connection cb e = ground arith
try_acquire_refused retry pending_request cb e = ground arith
try_acquire_refused retry request cb e = ground arith
try_acquire_refused retry retry cb e = ground arith
try_acquire_refused retry (other n) cb e = ground arith
try_acquire_refused (other n) q cb e = ground arith

-- On a resource with no limit and no slot taken, a call is granted and takes no slot, but its
-- release gives one back: the counter wraps to the largest uint32.
pub release_unlimited_wraps :
    (r : ResourceType) (cb : CircuitBreaker)
    → IsKnown r
    → limit r cb ≡ 0
    → taken r cb ≡ 0
    → ((try_acquire r cb).1 ≡ true) × (taken r (release r (try_acquire r cb).0) ≡ u32_mod - 1)
unfolding try_acquire release
release_unlimited_wraps connection cb k l t = ground arith
release_unlimited_wraps pending_request cb k l t = ground arith
release_unlimited_wraps request cb k l t = ground arith
release_unlimited_wraps retry cb k l t = ground arith
release_unlimited_wraps (other n) cb k l t = absurd k
