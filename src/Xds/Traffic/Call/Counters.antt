-- ===== src/Xds/Traffic/Call/Counters.antt =====
-- modules/xds/traffic/balancer_picker.go: Next and Report on the counters of requests in flight.
use mathlib.Core.Option
use yggdrasil_ecosystem.Prelude.{
  ℕ, ◌+◌, ◌^◌, ◌<◌, ◌≡◌, ◌≢◌, refl, sym, ap, ◌∙◌, Bool, none, some, List, [], ◌∷◌, arith, ◌==◌,
  nat_eq, if◌then◌else◌, Bool-cases, inl, inr, ◌⊎◌, Option-cases, u32,
}
use yggdrasil_ecosystem.Prelude.Text.{Text, text_eq, text_beq, codes}
use yggdrasil_ecosystem.Prelude.Dict.{Dict, lookup, modify, lookup-modify}
use yggdrasil_ecosystem.Xds.Resource.Model.{WeightedEndpoint}
use yggdrasil_ecosystem.Xds.Traffic.Balancer.{XdsBalancer}
use yggdrasil_ecosystem.Xds.Traffic.Picker.{
  least_from, select_least_request, select_by_policy, select_endpoint, minus_one, endpoint_address,
  policy_of, filter_healthy_endpoints, first_group, priorities, detector_of, endpoints_of,
}
use yggdrasil_ecosystem.Xds.Traffic.Call.{
  no_available_instance, PickResult, refused, picked, ready_client, count_down, pick_endpoint,
  report,
}

-- The policy least_request counts the request on the endpoint that it selects.
select_least_request_counts :
    (counters counters' : Dict Text ℕ) (group : List WeightedEndpoint) (e : WeightedEndpoint)
    → select_least_request counters group ≡ (some e, counters')
    → counters' ≡ modify (endpoint_address e) (λ n. u32 (n + 1)) counters
unfolding select_least_request
select_least_request_counts counters counters' group e h =
    elim (Option-cases (least_from counters minus_one none group)) [
      | inl missed ↦ absurd (ground arith)
      | inr (x, found) ↦ ground arith
    ]

abbrev add_one : ℕ → ℕ
add_one n = u32 (n + 1)

count_down_lem : (n : ℕ) → n + 1 < 2 ^ 31 → count_down (add_one n) ≡ n
count_down_lem n h = ground arith

-- A counter that goes up and down again.
count_down-add_one :
    (k j : Text) (n : ℕ) (counters : Dict Text ℕ)
    → lookup k counters ≡ some n
    → n + 1 < 2 ^ 31
    → lookup j (modify k count_down (modify k add_one counters)) ≡ lookup j counters
count_down-add_one k j n counters found room =
    lookup-modify k j count_down (modify k add_one counters) ∙ back
  where
    back :
        (if k == j
          then Option.map count_down (lookup j (modify k add_one counters))
          else lookup j (modify k add_one counters))
        ≡ lookup j counters
    back = elim (Bool-cases (k == j)) [
      | inl same ↦
          let at_j = ap (λ i. lookup i counters) (sym ((text_eq.equal_iff k j).0 same)) ∙ found in
          rw (lookup-modify k j add_one counters, same, at_j, count_down_lem n room)
      | inr other ↦ rw (lookup-modify k j add_one counters, other)
    ]

least_request_policy :
    (policy : Text) (drawn : ℕ) (counters : Dict Text ℕ) (group : List WeightedEndpoint)
    → policy ≡ codes "least_request"
    → select_by_policy policy drawn counters group ≡ select_least_request counters group
unfolding select_by_policy text_beq
least_request_policy policy drawn counters group e = rw e

module _ {Regexp : Type 0} where
  select_endpoint_counts :
      (drawn : ℕ) (b : XdsBalancer Regexp) (cluster : Text) (e : WeightedEndpoint)
      (counters : Dict Text ℕ)
      → policy_of b cluster ≡ codes "least_request"
      → select_endpoint drawn b cluster ≡ (some e, counters)
      → counters ≡ modify (endpoint_address e) (λ n. u32 (n + 1)) b.in_flight
  unfolding select_endpoint
  select_endpoint_counts drawn b cluster e counters policy h = elim (List-cases group) [
    | inl empty ↦ absurd (ground arith)
    | inr (x, xs, full) ↦ select_least_request_counts b.in_flight counters (x ∷ xs) e (
        sym (least_request_policy (policy_of b cluster) drawn b.in_flight (x ∷ xs) policy)
        ∙ (rw (full, select_endpoint) at h))
  ]
    where
      group : List WeightedEndpoint
      group =
          first_group priorities 0
            (filter_healthy_endpoints (detector_of b cluster) (endpoints_of b cluster))

      List-cases :
          (es : List WeightedEndpoint)
          → (es ≡ []) ⊎ ((x : WeightedEndpoint) × (xs : List WeightedEndpoint) × (es ≡ x ∷ xs))
      List-cases [] = inl refl
      List-cases (x ∷ xs) = inr (x, xs, refl)

  select_endpoint_other :
      (drawn : ℕ) (b : XdsBalancer Regexp) (cluster : Text) (e : WeightedEndpoint)
      (counters : Dict Text ℕ)
      → policy_of b cluster ≢ codes "least_request"
      → select_endpoint drawn b cluster ≡ (some e, counters)
      → counters ≡ b.in_flight
  unfolding select_endpoint select_by_policy
  select_endpoint_other drawn b cluster e counters policy h =
      elim (Bool-cases (policy_of b cluster == codes "least_request")) [
        | inl same ↦
            absurd
              (policy ((text_eq.equal_iff (policy_of b cluster) (codes "least_request")).0 same))
        | inr other ↦ ground arith
      ]

  -- Under the policy least_request, a request whose selected endpoint has no ready client is
  -- refused and stays counted: the counter of the endpoint is one higher after the call, modulo 2 ^
  -- 32, with no report to lower it.
  pub pick_endpoint_unready :
      (ready : ℕ → Bool) (drawn : ℕ) (cluster : Text) (b : XdsBalancer Regexp)
      (e : WeightedEndpoint) (counters : Dict Text ℕ)
      → policy_of b cluster ≡ codes "least_request"
      → select_endpoint drawn b cluster ≡ (some e, counters)
      → ready_client ready (lookup (endpoint_address e) b.remotes_client) ≡ none
      → ((pick_endpoint ready drawn cluster b).1 ≡ refused no_available_instance)
        × ((pick_endpoint ready drawn cluster b).0.in_flight
            ≡ modify (endpoint_address e) (λ n. u32 (n + 1)) b.in_flight)
  unfolding pick_endpoint
  pick_endpoint_unready ready drawn cluster b e counters policy chosen unready =
      let counted = select_endpoint_counts drawn b cluster e counters policy chosen in ground arith

  -- What a pick tells of the endpoint selected.
  pick_endpoint_chosen :
      (ready : ℕ → Bool) (drawn : ℕ) (cluster : Text) (b : XdsBalancer Regexp) (p : PickResult)
      → (pick_endpoint ready drawn cluster b).1 ≡ picked p
      → (e : WeightedEndpoint) × (select_endpoint drawn b cluster
          ≡ (some e, (pick_endpoint ready drawn cluster b).0.in_flight))
        × (p.inflight_key ≡ endpoint_address e)
  unfolding pick_endpoint
  pick_endpoint_chosen ready drawn cluster b p h =
      elim (Option-cases (select_endpoint drawn b cluster).0) [
        | inl nothing ↦ absurd (ground arith)
        | inr (e, chosen) ↦ (e, ground arith, ground arith)
      ]

  report_in_flight :
      (p : PickResult) (failed : Bool) (now : ℕ) (b : XdsBalancer Regexp)
      → (report p failed now b).in_flight ≡ modify p.inflight_key count_down b.in_flight
  unfolding report
  report_in_flight p failed now b = ground arith

  -- Under the policy least_request, a request that is picked and reported leaves every counter as
  -- it was, provided its endpoint has a counter that is not negative and not the largest int32.
  pub report-pick_endpoint_least :
      (ready : ℕ → Bool) (drawn : ℕ) (cluster : Text) (j : Text) (b : XdsBalancer Regexp)
      (p : PickResult) (failed : Bool) (now : ℕ) (n : ℕ)
      → policy_of b cluster ≡ codes "least_request"
      → (pick_endpoint ready drawn cluster b).1 ≡ picked p
      → lookup p.inflight_key b.in_flight ≡ some n
      → n + 1 < 2 ^ 31
      → (lookup j (report p failed now (pick_endpoint ready drawn cluster b).0).in_flight
          ≡ lookup j b.in_flight)
  report-pick_endpoint_least ready drawn cluster j b p failed now n policy h found room =
      let after = (pick_endpoint ready drawn cluster b).0 in
      let (e, chosen, key) = pick_endpoint_chosen ready drawn cluster b p h in
      let counted = select_endpoint_counts drawn b cluster e after.in_flight policy chosen in
      ap (lookup j) (report_in_flight p failed now after)
      ∙ ap (λ k. lookup j (modify p.inflight_key count_down k))
          (counted ∙ ap (λ k. modify k add_one b.in_flight) (sym key))
      ∙ count_down-add_one p.inflight_key j n b.in_flight found room

  -- Under every other policy no request is counted, and yet the report of one lowers the counter of
  -- its endpoint, which a least_request cluster with the same endpoint relies on.
  pub report-pick_endpoint_other :
      (ready : ℕ → Bool) (drawn : ℕ) (cluster : Text) (b : XdsBalancer Regexp) (p : PickResult)
      (failed : Bool) (now : ℕ)
      → policy_of b cluster ≢ codes "least_request"
      → (pick_endpoint ready drawn cluster b).1 ≡ picked p
      → ((report p failed now (pick_endpoint ready drawn cluster b).0).in_flight
          ≡ modify p.inflight_key count_down b.in_flight)
  report-pick_endpoint_other ready drawn cluster b p failed now policy h =
      let after = (pick_endpoint ready drawn cluster b).0 in
      let (e, chosen, key) = pick_endpoint_chosen ready drawn cluster b p h in
      report_in_flight p failed now after
      ∙ ap (modify p.inflight_key count_down)
          (select_endpoint_other drawn b cluster e after.in_flight policy chosen)
