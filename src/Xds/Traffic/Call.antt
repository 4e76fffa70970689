-- ===== src/Xds/Traffic/Call.antt =====
-- modules/xds/traffic/balancer_picker.go: the calls Next and Report. Each is one step: their locks
-- keep the updates of the balancer out of it. The log is left out.
pub mod Slots
pub mod Counters
use yggdrasil_ecosystem.Prelude.{
  ℕ, ◌+◌, ◌-◌, ◌^◌, Bool, true, false, not, ◌&&◌, Option, none, some, List, [], ◌∷◌, ltb, ◌==◌,
  nat_eq, if◌then◌else◌, u32, u32_mod,
}
use yggdrasil_ecosystem.Prelude.Text.{Text, text_eq, codes}
use yggdrasil_ecosystem.Prelude.Dict.{Dict, lookup, modify}
use yggdrasil_ecosystem.Xds.Resource.Model.{WeightedEndpoint}
use yggdrasil_ecosystem.Xds.Traffic.Breaker.{request, try_acquire, release, decrement}
use yggdrasil_ecosystem.Xds.Traffic.Limiter.{allow}
use yggdrasil_ecosystem.Xds.Traffic.Outlier.{report_result}
use yggdrasil_ecosystem.Xds.Traffic.Balancer.{Store, XdsBalancer}
use yggdrasil_ecosystem.Xds.Traffic.Picker.{
  object, endpoint_address, select_endpoint, select_cluster,
}

pub data PickError : Type 0 where
  no_available_instance rate_limit_exceeded circuit_breaker_open : PickError

-- The pickResult of the source; the circuit breaker and the detector are addresses in the store.
pub record PickResult : Type 0 where
  pub endpoint : ℕ
  pub inflight_key : Text
  pub circuit_breaker : Option ℕ
  pub outlier_detector : Option ℕ

pub data Pick : Type 0 where
  refused : PickError → Pick
  picked : PickResult → Pick

-- requestHeaders: the first value of each key of the outgoing metadata.
unfoldable pub request_headers : Dict Text (List Text) → Dict Text Text
request_headers [] = []
request_headers ((key, []) ∷ md) = request_headers md
request_headers ((key, value ∷ values) ∷ md) = (key, value) ∷ request_headers md

abbrev path_of : Text → Dict Text Text → Text
path_of method headers = elim (lookup (codes ":path") headers) [
  | none ↦ method
  | some path ↦ if path == [] then method else path
]

-- The client, if it is there and ready.
abbrev pub ready_client : (ℕ → Bool) → Option ℕ → Option ℕ
ready_client ready none = none
ready_client ready (some c) = if ready c then some c else none

-- The decrement of an int32 counter that is positive.
abbrev pub count_down : ℕ → ℕ
count_down n = if ltb 0 n && ltb n (2 ^ 31) then decrement n else n

module _ {Regexp : Type 0} where
  -- The rate limiter's part of Next.
  unfoldable pub take_token : Text → XdsBalancer Regexp → XdsBalancer Regexp × Bool
  take_token cluster b = elim (object b.rate_limiters b.store.limiters cluster) [
    | none ↦ (b, true)
    | some (a, rl) ↦
        let (rl', ok) = allow rl in
        (
          record b { store = record b.store { limiters = modify a (λ _. rl') b.store.limiters } },
          ok,
        )
  ]

  -- The circuit breaker's part of Next.
  unfoldable pub take_slot : Text → XdsBalancer Regexp → XdsBalancer Regexp × Bool
  take_slot cluster b = elim (object b.circuit_breakers b.store.breakers cluster) [
    | none ↦ (b, true)
    | some (a, cb) ↦
        let (cb', ok) = try_acquire request cb in
        (
          record b { store = record b.store { breakers = modify a (λ _. cb') b.store.breakers } },
          ok,
        )
  ]

  abbrev release_at : Option ℕ → XdsBalancer Regexp → XdsBalancer Regexp
  release_at none b = b
  release_at (some a) b = record b {
    store = record b.store { breakers = modify a (release request) b.store.breakers };
  }

  -- Next from the selection of the endpoint on.
  unfoldable pub pick_endpoint :
      (ℕ → Bool) → ℕ → Text → XdsBalancer Regexp → XdsBalancer Regexp × Pick
  pick_endpoint ready drawn cluster b =
      let (chosen, counters) = select_endpoint drawn b cluster in
      let breaker = lookup cluster b.circuit_breakers in
      let b' = record b { in_flight = counters } in
      elim chosen [
        | none ↦ (release_at breaker b', refused no_available_instance)
        | some e ↦ elim (ready_client ready (lookup (endpoint_address e) b'.remotes_client)) [
          | none ↦ (release_at breaker b', refused no_available_instance)
          | some c ↦ (
            b',
            picked (record {
              endpoint = c;
              inflight_key = endpoint_address e;
              circuit_breaker = breaker;
              outlier_detector = lookup cluster b'.outlier_detectors;
            }),
          )
        ]
      ]

  -- Next after the selection of the cluster.
  unfoldable pub pick_in_cluster :
      (ℕ → Bool) → ℕ → Text → XdsBalancer Regexp → XdsBalancer Regexp × Pick
  pick_in_cluster ready drawn cluster b =
      let (b₁, allowed) = take_token cluster b in
      let (b₂, acquired) = take_slot cluster b₁ in
      let rest = pick_endpoint ready drawn cluster b₂ in
      if cluster == []
      then (b, refused no_available_instance)
      else if not allowed
      then (b₁, refused rate_limit_exceeded)
      else if not acquired
      then (b₂, refused circuit_breaker_open)
      else rest

  -- The detector's part of Report: the status code stands for the error.
  abbrev report_at : Option ℕ → Text → Bool → ℕ → XdsBalancer Regexp → XdsBalancer Regexp
  report_at none key failed now b = b
  report_at (some a) key failed now b = record b {
    store = record b.store {
      detectors =
          modify a (report_result key failed (if failed then 500 else 200) now) b.store.detectors;
    };
  }

  unfoldable pub report : PickResult → Bool → ℕ → XdsBalancer Regexp → XdsBalancer Regexp
  report p failed now b =
      let b₁ = record b { in_flight = modify p.inflight_key count_down b.in_flight } in
      let b₂ = release_at p.circuit_breaker b₁ in
      report_at p.outlier_detector p.inflight_key failed now b₂

module _ (Regexp : Type 0) (match_string : Regexp → Text → Bool) where
  -- Next, for a request with a method and metadata; the two numbers are those it may draw.
  unfoldable pub next :
      (ℕ → Bool)
      → ℕ
      → ℕ
      → Text
      → Dict Text (List Text)
      → XdsBalancer Regexp
      → XdsBalancer Regexp × Pick
  next ready drawn drawn' method md b =
      let headers = request_headers md in
      let cluster = select_cluster Regexp match_string drawn b (path_of method headers) headers in
      pick_in_cluster ready drawn' cluster b
