-- ===== src/Xds/Traffic/Picker/Inflight.antt =====
-- modules/xds/traffic/balancer_picker.go: the requests in flight that selectLeastRequest compares.
use mathlib.Core.List.{Memᴰ}
use mathlib.Core.List.Memᴰ
use yggdrasil_ecosystem.Prelude.{
  ℕ, ◌+◌, ◌^◌, ◌≤◌, ◌<◌, ◌≡◌, refl, sym, subst, ◌∙◌, false, some, List, [], ◌∷◌, arith, ltb, ◌==◌,
  nat_eq, if◌then◌else◌, Bool-cases, inl, inr, u32,
}
use yggdrasil_ecosystem.Prelude.Text.{Text, text_eq}
use yggdrasil_ecosystem.Prelude.Dict.{Dict, modify}
use yggdrasil_ecosystem.Xds.Resource.Model.{WeightedEndpoint}
use yggdrasil_ecosystem.Xds.Traffic.Picker.{
  counter_of, least_from, select_least_request, minus_one, int32_lt, endpoint_address,
}
use yggdrasil_ecosystem.Xds.Traffic.Picker.Picks.{least_from_first}

-- The counters of the endpoints are positive int32 values, or zero.
abbrev pub AreCounts : Dict Text ℕ → List WeightedEndpoint → Type 0
AreCounts counters es = (e : WeightedEndpoint) → Memᴰ e es → counter_of counters e < 2 ^ 31

-- No endpoint of the list has a lower counter.
abbrev pub IsLeast : Dict Text ℕ → ℕ → List WeightedEndpoint → Type 0
IsLeast counters n es = (e : WeightedEndpoint) → Memᴰ e es → n ≤ counter_of counters e

-- The comparison of two counts.
int32_lt_lem : (a b : ℕ) → a < 2 ^ 31 → b < 2 ^ 31 → int32_lt a b ≡ ltb a b
int32_lt_lem a b h k = ground arith

no_count_is_minus_one : (b : ℕ) → b < 2 ^ 31 → (b == minus_one) ≡ false
no_count_is_minus_one b h = ground arith

least_from_step :
    (counters : Dict Text ℕ) (s e : WeightedEndpoint) (es : List WeightedEndpoint)
    → counter_of counters s < 2 ^ 31
    → counter_of counters e < 2 ^ 31
    → least_from counters (counter_of counters s) (some s) (e ∷ es) ≡ (
        if ltb (counter_of counters e) (counter_of counters s)
        then least_from counters (counter_of counters e) (some e) es
        else least_from counters (counter_of counters s) (some s) es)
unfolding least_from
least_from_step counters s e es h k =
    elim (Bool-cases (ltb (counter_of counters e) (counter_of counters s))) [
      | inl less ↦ rw (
        no_count_is_minus_one (counter_of counters s) h,
        int32_lt_lem (counter_of counters e) (counter_of counters s) k h,
        less,
      )
      | inr more ↦ rw (
        no_count_is_minus_one (counter_of counters s) h,
        int32_lt_lem (counter_of counters e) (counter_of counters s) k h,
        more,
      )
    ]

-- The loop keeps an endpoint whose counter is at most that of the endpoint it starts with and those
-- of the rest.
least_from-IsLeast :
    (counters : Dict Text ℕ) (s : WeightedEndpoint) (es : List WeightedEndpoint)
    → counter_of counters s < 2 ^ 31
    → AreCounts counters es
    → (x : WeightedEndpoint) × (least_from counters (counter_of counters s) (some s) es ≡ some x)
      × (counter_of counters x ≤ counter_of counters s)
      × IsLeast counters (counter_of counters x) es
unfolding least_from
least_from-IsLeast counters s [] h ok = (s, refl, omega arith, λ e m. absurd (Memᴰ.not-nil m))
least_from-IsLeast counters s (e ∷ es) h ok =
    elim (Bool-cases (ltb (counter_of counters e) (counter_of counters s))) [
      | inl less ↦
          let (x, found, low, rest) =
            least_from-IsLeast counters e es (ok e (Memᴰ.head refl)) (λ y m. ok y (Memᴰ.tail m)) in
          (
            x,
            least_from_step counters s e es h (ok e (Memᴰ.head refl)) ∙ rw less found,
            ground arith,
            IsLeast-cons x e es low rest,
          )
      | inr more ↦
          let (x, found, low, rest) =
            least_from-IsLeast counters s es h (λ y m. ok y (Memᴰ.tail m)) in
          (
            x,
            least_from_step counters s e es h (ok e (Memᴰ.head refl)) ∙ rw more found,
            low,
            IsLeast-cons x e es (ground arith) rest,
          )
    ]
  where
    IsLeast-cons :
        (x e : WeightedEndpoint) (es : List WeightedEndpoint)
        → counter_of counters x ≤ counter_of counters e
        → IsLeast counters (counter_of counters x) es
        → IsLeast counters (counter_of counters x) (e ∷ es)
    IsLeast-cons x e es h rest y m = elim (Memᴰ.cases_cons m) [
      | inl same ↦ subst (λ z. counter_of counters x ≤ counter_of counters z) (sym same) h
      | inr later ↦ rest y later
    ]

-- From a group whose counters have not passed the largest int32, selectLeastRequest takes an
-- endpoint with the fewest requests in flight, and adds one request to its counter alone.
pub select_least_request-IsLeast :
    (counters : Dict Text ℕ) (e : WeightedEndpoint) (es : List WeightedEndpoint)
    → AreCounts counters (e ∷ es)
    → (x : WeightedEndpoint) × (select_least_request counters (e ∷ es)
        ≡ (some x, modify (endpoint_address x) (λ n. u32 (n + 1)) counters))
      × IsLeast counters (counter_of counters x) (e ∷ es)
unfolding select_least_request
select_least_request-IsLeast counters e es ok =
    let (x, found, low, rest) =
      least_from-IsLeast counters e es (ok e (Memᴰ.head refl)) (λ y m. ok y (Memᴰ.tail m)) in
    (
      x,
      rw (least_from_first counters e es ∙ found, select_least_request),
      λ y m. elim (Memᴰ.cases_cons m) [
        | inl same ↦ subst (λ z. counter_of counters x ≤ counter_of counters z) (sym same) low
        | inr later ↦ rest y later
      ],
    )
