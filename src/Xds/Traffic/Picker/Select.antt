-- ===== src/Xds/Traffic/Picker/Select.antt =====
-- Which endpoint is selected: a healthy one, of the first priority that has any, up to 10.
use mathlib.Core.List.{Memᴰ}
use yggdrasil_ecosystem.Prelude.{
  ℕ, zero, suc, ◌+◌, ◌≤◌, ◌<◌, ◌≡◌, ◌≢◌, refl, sym, ap, subst, ◌∙◌, ◌⊎◌, inl, inr, false, Option,
  none, some, List, [], ◌∷◌, arith, ◌==◌, nat_eq, keep, All, not, ℕ_discrete,
}
use yggdrasil_ecosystem.Prelude.Text.{Text, text_eq}
use yggdrasil_ecosystem.Xds.Resource.Model.{WeightedEndpoint}
use yggdrasil_ecosystem.Xds.Traffic.Outlier.{OutlierDetector, is_ejected}
use yggdrasil_ecosystem.Xds.Traffic.Balancer.{XdsBalancer}
use yggdrasil_ecosystem.Xds.Traffic.Picker.{
  filter_healthy_endpoints, first_group, priorities, policy_of, endpoint_address, endpoints_of,
  detector_of, select_endpoint,
}
use yggdrasil_ecosystem.Xds.Traffic.Picker.Members.{keep-mem, mem-keep, All-mem, keep-nil}
use yggdrasil_ecosystem.Xds.Traffic.Picker.Picks.{policy-Picks}

abbrev group : ℕ → List WeightedEndpoint → List WeightedEndpoint
group q es = keep (λ e. e.priority == q) es

-- What the loop over the priorities finds: nothing, as all its groups are empty, or the first group
-- that is not.
abbrev Found : ℕ → ℕ → List WeightedEndpoint → Type 0
Found left p es =
    ((first_group left p es ≡ []) × ((q : ℕ) → p ≤ q → q < p + left → group q es ≡ []))
    ⊎ ((q : ℕ) × (q < p + left)
        × (first_group left p es ≡ group q es)
        × (group q es ≢ [])
        × ((r : ℕ) → p ≤ r → r < q → group r es ≡ []))

first_group_next :
    (left p : ℕ) (es : List WeightedEndpoint)
    → group p es ≡ []
    → first_group (suc left) p es ≡ first_group left (p + 1) es
unfolding first_group
first_group_next left p es e = ground arith

first_group_here :
    (left p : ℕ) (es : List WeightedEndpoint)
    → group p es ≢ []
    → first_group (suc left) p es ≡ group p es
unfolding first_group
first_group_here left p es e = ground arith

empty_from :
    (p : ℕ) (es : List WeightedEndpoint) {n : ℕ}
    → group p es ≡ []
    → ((q : ℕ) → p + 1 ≤ q → q < n → group q es ≡ [])
    → (q : ℕ) → p ≤ q
    → q < n
    → group q es ≡ []
empty_from p es now later q l u = elim (ℕ_discrete p q) [
  | yes e ↦ ap (λ k. group k es) (sym e) ∙ now
  | no d ↦ later q (omega arith) u
]

first_group_step :
    (left p : ℕ) (es g : List WeightedEndpoint)
    → group p es ≡ g
    → Found left (p + 1) es
    → Found (suc left) p es
first_group_step left p es [] e (inl (none_found, all_empty)) = inl (
  first_group_next left p es e ∙ none_found,
  λ q l u. empty_from p es {n = p + suc left} e (λ r l' u'. all_empty r l' (omega arith)) q l u,
)
first_group_step left p es [] e (inr (q, bound, found, some_there, before)) = inr (
  q,
  omega arith,
  first_group_next left p es e ∙ found,
  some_there,
  λ r l u. empty_from p es {n = q} e before r l u,
)
first_group_step left p es (x ∷ xs) e later = inr (
  p,
  omega arith,
  first_group_here left p es (λ n. cc),
  (λ n. cc),
  (λ r l u. absurd (omega arith)),
)

first_group_cases : (left p : ℕ) (es : List WeightedEndpoint) → Found left p es
unfolding first_group
first_group_cases zero p es = inl (refl, λ q l u. absurd (omega arith))
first_group_cases (suc left) p es =
    first_group_step left p es (group p es) refl (first_group_cases left (p + 1) es)

cons_of_ne :
    (es : List WeightedEndpoint)
    → es ≢ []
    → (x : WeightedEndpoint) × (xs : List WeightedEndpoint) × (es ≡ x ∷ xs)
cons_of_ne [] n = absurd (n refl)
cons_of_ne (x ∷ xs) n = (x, xs, refl)

-- A healthy endpoint is one of the given, and is not ejected.
healthy-mem :
    (od : Option OutlierDetector) (e : WeightedEndpoint) (es : List WeightedEndpoint)
    → Memᴰ e (filter_healthy_endpoints od es)
    → Memᴰ e es
unfolding filter_healthy_endpoints
healthy-mem none e es m = m
healthy-mem (some od) e es m = (keep-mem _ e es m).0

module _ {Regexp : Type 0} (b : XdsBalancer Regexp) (cluster : Text) where
  abbrev healthy : List WeightedEndpoint
  healthy = filter_healthy_endpoints (detector_of b cluster) (endpoints_of b cluster)

  -- An endpoint that the cluster's outlier detector, if it has one, has not ejected.
  unfoldable pub IsUp : WeightedEndpoint → Type 0
  IsUp e =
      (od : OutlierDetector)
      → detector_of b cluster ≡ some od
      → is_ejected (endpoint_address e) od ≡ false

  -- No endpoint of the cluster that is up has the priority.
  unfoldable pub IsEmptyAt : ℕ → Type 0
  IsEmptyAt r = (d : WeightedEndpoint) → Memᴰ d (endpoints_of b cluster) → IsUp d → d.priority ≢ r

  -- A selected endpoint is one of the cluster that is up, of the smallest priority among those, at most
  -- 10.
  pub record IsChoice (e : WeightedEndpoint) : Type 0 where
    pub listed : Memᴰ e (endpoints_of b cluster)
    pub is_up : IsUp e
    pub usable : e.priority < priorities
    pub first : (r : ℕ) → r < e.priority → IsEmptyAt r

  healthy-IsUp : (e : WeightedEndpoint) → Memᴰ e healthy → IsUp e
  unfolding IsUp filter_healthy_endpoints
  healthy-IsUp e m od at =
      let kept =
        keep-mem (λ d. not (is_ejected (endpoint_address d) od)) e (endpoints_of b cluster)
          (subst (λ o. Memᴰ e (filter_healthy_endpoints o (endpoints_of b cluster))) at m) in
      ground (arith, kept.1)

  IsUp-healthy : (e : WeightedEndpoint) → Memᴰ e (endpoints_of b cluster) → IsUp e → Memᴰ e healthy
  unfolding IsUp filter_healthy_endpoints
  IsUp-healthy e m up = up_in (detector_of b cluster) refl
    where
      up_in :
          (o : Option OutlierDetector)
          → detector_of b cluster ≡ o
          → Memᴰ e (filter_healthy_endpoints o (endpoints_of b cluster))
      up_in none at = m
      up_in (some od) at =
          mem-keep (λ d. not (is_ejected (endpoint_address d) od)) e (endpoints_of b cluster) m
            (ap not (up od at))

  empty-healthy : (r : ℕ) → All (λ d. (d.priority == r) ≡ false) healthy → IsEmptyAt r
  unfolding IsEmptyAt
  empty-healthy r none_at d m up same =
      let apart =
        All-mem (λ e. (e.priority == r) ≡ false) healthy none_at d (IsUp-healthy d m up) in
      ground (arith, apart, same)

  -- Either an endpoint of the cluster is selected that has not been ejected, of the smallest priority
  -- among those of the cluster and at most 10, or none is selected and every endpoint of the cluster
  -- that has not been ejected has a priority above 10.
  pub select_endpoint-IsChoice :
      (drawn : ℕ)
      → ((e : WeightedEndpoint) × ((select_endpoint drawn b cluster).0 ≡ some e) × IsChoice e)
        ⊎ (((select_endpoint drawn b cluster).0 ≡ none) × ((r : ℕ) → r < priorities → IsEmptyAt r))
  unfolding select_endpoint
  select_endpoint-IsChoice drawn = elim (first_group_cases priorities 0 healthy) [
    | inl (none_found, all_empty) ↦ inr (
      rw (none_found, select_endpoint),
      λ r u. empty-healthy r (keep-nil _ healthy (all_empty r (omega arith) u)),
    )
    | inr (q, bound, found, some_there, before) ↦
        let (x, xs, shape) = cons_of_ne (group q healthy) some_there in
        let (e, chosen, m) = policy-Picks (policy_of b cluster) drawn b.in_flight x xs in
        let (m', at_q) = keep-mem (λ d. d.priority == q) e healthy (subst (Memᴰ e) (sym shape) m) in
        inl (
          e,
          rw (found ∙ shape, select_endpoint) chosen,
          record {
            listed = healthy-mem (detector_of b cluster) e (endpoints_of b cluster) m';
            is_up = healthy-IsUp e m';
            usable = ground arith;
            first = λ r u.
                empty-healthy r
                  (keep-nil (λ d. d.priority == r) healthy (before r (omega arith) (ground arith)));
          },
        )
  ]
