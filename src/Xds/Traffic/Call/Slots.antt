-- ===== src/Xds/Traffic/Call/Slots.antt =====
-- A call takes a slot of its cluster's circuit breaker for as long as it runs.
use yggdrasil_ecosystem.Prelude.{
  ℕ, ◌<◌, ◌≡◌, ◌≢◌, ap, ◌∙◌, ◌⊎◌, inl, inr, Bool, true, Option, none, some, [], arith, ◌==◌, nat_eq,
  Bool-cases,
}
use yggdrasil_ecosystem.Prelude.Text.{Text, text_eq}
use yggdrasil_ecosystem.Prelude.Dict.{Dict, lookup, modify, lookup-modify}
use yggdrasil_ecosystem.Xds.Traffic.Breaker.{CircuitBreaker, request, try_acquire, release}
use yggdrasil_ecosystem.Xds.Traffic.Breaker.Laws.{IsWithin, release-try_acquire}
use yggdrasil_ecosystem.Xds.Traffic.Balancer.{XdsBalancer}
use yggdrasil_ecosystem.Xds.Traffic.Call.{
  PickError, circuit_breaker_open, PickResult, refused, picked, take_token, take_slot, release_at,
  pick_endpoint, pick_in_cluster, report,
}

module _ {Regexp : Type 0} where
  abbrev pub breakers_of : XdsBalancer Regexp → Dict ℕ CircuitBreaker
  breakers_of b = b.store.breakers

  -- The rate limiter's part leaves the circuit breakers alone.
  take_token_frame :
      (cluster : Text) (b : XdsBalancer Regexp)
      → (breakers_of (take_token cluster b).0 ≡ breakers_of b)
        × ((take_token cluster b).0.circuit_breakers ≡ b.circuit_breakers)
  unfolding take_token
  take_token_frame cluster b = ground arith

  -- From the endpoint on, a refusal releases the cluster's slot, and a pick keeps it for its report.
  pick_endpoint_refused :
      (ready : ℕ → Bool) (drawn : ℕ) (cluster : Text) (b : XdsBalancer Regexp) (e : PickError)
      → (pick_endpoint ready drawn cluster b).1 ≡ refused e
      → (breakers_of (pick_endpoint ready drawn cluster b).0
          ≡ breakers_of (release_at (lookup cluster b.circuit_breakers) b))
        × (e ≢ circuit_breaker_open)
  unfolding pick_endpoint
  pick_endpoint_refused ready drawn cluster b e h = ground arith

  pick_endpoint_picked :
      (ready : ℕ → Bool) (drawn : ℕ) (cluster : Text) (b : XdsBalancer Regexp) (p : PickResult)
      → (pick_endpoint ready drawn cluster b).1 ≡ picked p
      → (breakers_of (pick_endpoint ready drawn cluster b).0 ≡ breakers_of b)
        × (p.circuit_breaker ≡ lookup cluster b.circuit_breakers)
  unfolding pick_endpoint
  pick_endpoint_picked ready drawn cluster b p h = ground arith

  report_frame :
      (p : PickResult) (failed : Bool) (now : ℕ) (b : XdsBalancer Regexp)
      → breakers_of (report p failed now b) ≡ breakers_of (release_at p.circuit_breaker b)
  unfolding report
  report_frame p failed now b = ground arith

  -- The cluster has no circuit breaker, or one in the store that limits requests and is within its
  -- limits.
  abbrev pub HasSlots : Text → XdsBalancer Regexp → Type 0
  HasSlots cluster b =
      (lookup cluster b.circuit_breakers ≡ none)
      ⊎ ((a : ℕ) × (cb : CircuitBreaker) × (lookup cluster b.circuit_breakers ≡ some a)
          × (lookup a (breakers_of b) ≡ some cb)
          × IsWithin cb
          × (0 < cb.max_requests))

  -- Taking a slot and releasing it again leaves every breaker as it was.
  take_slot_release :
      (cluster : Text) (j : ℕ) (b : XdsBalancer Regexp)
      → HasSlots cluster b
      → (take_slot cluster b).1 ≡ true
      → (lookup j
            (breakers_of (release_at (lookup cluster b.circuit_breakers) (take_slot cluster b).0))
          ≡ lookup j (breakers_of b))
        × ((take_slot cluster b).0.circuit_breakers ≡ b.circuit_breakers)
  unfolding take_slot
  take_slot_release cluster j b (inl e) h = ground arith
  take_slot_release cluster j b (inr (a, cb, e, found, v, l)) h = ground (
    arith,
    release-try_acquire request cb v l,
    lookup-modify a j (λ _. (try_acquire request cb).0) (breakers_of b),
    lookup-modify a j (release request)
        (modify a (λ _. (try_acquire request cb).0) (breakers_of b)),
    nat_eq.equal_iff a j,
  )

  -- The breakers after a release depend on those before it alone.
  release_at_frame :
      (at : Option ℕ) (b b' : XdsBalancer Regexp)
      → breakers_of b ≡ breakers_of b'
      → breakers_of (release_at at b) ≡ breakers_of (release_at at b')
  release_at_frame none b b' e = e
  release_at_frame (some a) b b' e = ap (modify a (release request)) e

  HasSlots-take_token :
      (cluster : Text) (b : XdsBalancer Regexp)
      → HasSlots cluster b
      → HasSlots cluster (take_token cluster b).0
  HasSlots-take_token cluster b (inl e) =
      let (s, m) = take_token_frame cluster b in inl (ap (lookup cluster) m ∙ e)
  HasSlots-take_token cluster b (inr (a, cb, e, found, v, l)) =
      let (s, m) = take_token_frame cluster b in
      inr (a, cb, ap (lookup cluster) m ∙ e, ap (lookup a) s ∙ found, v, l)

  -- The balancer when the endpoint is selected.
  abbrev at_slot : Text → XdsBalancer Regexp → XdsBalancer Regexp × Bool
  at_slot cluster b = take_slot cluster (take_token cluster b).0

  at_slot_release :
      (cluster : Text) (j : ℕ) (b : XdsBalancer Regexp)
      → HasSlots cluster b
      → (at_slot cluster b).1 ≡ true
      → (lookup j (
            breakers_of (
              release_at
                (lookup cluster (at_slot cluster b).0.circuit_breakers)
                (at_slot cluster b).0))
          ≡ lookup j (breakers_of b))
  at_slot_release cluster j b slots acquired =
      let (s, m) = take_token_frame cluster b in
      let (back, same) =
        take_slot_release cluster j (take_token cluster b).0 (HasSlots-take_token cluster b slots)
          acquired in
      ap (λ c. lookup j (breakers_of (release_at (lookup cluster c) (at_slot cluster b).0))) same
      ∙ back
      ∙ ap (lookup j) s

  -- A request that is refused, unless the circuit breaker refuses it, holds no slot: every circuit
  -- breaker is as it was before the call. The cluster has no circuit breaker, or one in the store
  -- that is within its limits and limits requests.
  pub pick_in_cluster_refused :
      (ready : ℕ → Bool) (drawn : ℕ) (cluster : Text) (j : ℕ) (b : XdsBalancer Regexp)
      (e : PickError)
      → HasSlots cluster b
      → (pick_in_cluster ready drawn cluster b).1 ≡ refused e
      → e ≢ circuit_breaker_open
      → lookup j (breakers_of (pick_in_cluster ready drawn cluster b).0) ≡ lookup j (breakers_of b)
  unfolding pick_in_cluster
  pick_in_cluster_refused ready drawn cluster j b e slots h other =
      elim (Bool-cases (cluster == [])) [
        | inl no_cluster ↦ rw no_cluster
        | inr named ↦ elim (Bool-cases (take_token cluster b).1) [
          | inr limited ↦ rw (named, limited) (ap (lookup j) (take_token_frame cluster b).0)
          | inl allowed ↦ elim (Bool-cases (at_slot cluster b).1) [
            | inr full ↦ absurd (other (ground arith))
            | inl acquired ↦
                let (s, n) =
                  pick_endpoint_refused ready drawn cluster (at_slot cluster b).0 e
                    (ground arith) in
                rw (named, allowed, acquired)
                  (ap (lookup j) s ∙ at_slot_release cluster j b slots acquired)
          ]
        ]
      ]

  -- A request that is picked and reported has given its slot back: every circuit breaker is as it
  -- was before the call. The cluster has no circuit breaker, or one in the store that is within its
  -- limits and limits requests.
  pub report-pick_in_cluster :
      (ready : ℕ → Bool) (drawn : ℕ) (cluster : Text) (j : ℕ) (b : XdsBalancer Regexp)
      (p : PickResult) (failed : Bool) (now : ℕ)
      → HasSlots cluster b
      → (pick_in_cluster ready drawn cluster b).1 ≡ picked p
      → (lookup j (breakers_of (report p failed now (pick_in_cluster ready drawn cluster b).0))
          ≡ lookup j (breakers_of b))
  unfolding pick_in_cluster
  report-pick_in_cluster ready drawn cluster j b p failed now slots h =
      elim (Bool-cases (cluster == [])) [
        | inl no_cluster ↦ absurd (ground arith)
        | inr named ↦ elim (Bool-cases (take_token cluster b).1) [
          | inr limited ↦ absurd (ground arith)
          | inl allowed ↦ elim (Bool-cases (at_slot cluster b).1) [
            | inr full ↦ absurd (ground arith)
            | inl acquired ↦
                let after = at_slot cluster b in
                let (s, held) = pick_endpoint_picked ready drawn cluster after.0 p (ground arith) in
                let picked_at = (pick_endpoint ready drawn cluster after.0).0 in
                rw (named, allowed, acquired)
                  (ap (lookup j) (
                      report_frame p failed now picked_at
                      ∙ release_at_frame p.circuit_breaker picked_at after.0 s
                      ∙ ap (λ a. breakers_of (release_at a after.0)) held)
                    ∙ at_slot_release cluster j b slots acquired)
          ]
        ]
      ]
