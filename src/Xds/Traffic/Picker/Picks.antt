-- ===== src/Xds/Traffic/Picker/Picks.antt =====
-- Every policy selects an endpoint of its group.
use mathlib.Core.List.{Memᴰ}
use native.Mathlib.Nat.{mod-lt}
use yggdrasil_ecosystem.Prelude.{
  ℕ, ◌%◌, ◌≡◌, refl, ◌∙◌, inl, inr, Bool, Option, none, some, List, [], ◌∷◌, arith, ◌==◌, nat_eq,
  length, Bool-cases, ◌||◌, Option-cases,
}
use yggdrasil_ecosystem.Prelude.Text.{Text, text_eq, codes}
use yggdrasil_ecosystem.Prelude.Dict.{Dict}
use yggdrasil_ecosystem.Xds.Resource.Model.{WeightedEndpoint}
use yggdrasil_ecosystem.Xds.Traffic.Picker.{
  weighted_from, total_from, minus_one, int32_lt, counter_of, select_round_robin, select_random,
  least_from, select_least_request, select_by_policy,
}
use yggdrasil_ecosystem.Xds.Traffic.Picker.Members.{weighted_from-mem, get_elem?-mem, get_elem?-lt}

-- A selection from a group: one of its endpoints.
abbrev pub Picks : List WeightedEndpoint → Option WeightedEndpoint → Type 0
Picks es r = (e : WeightedEndpoint) × (r ≡ some e) × Memᴰ e es

round_robin-Picks :
    (drawn : ℕ) (e : WeightedEndpoint) (es : List WeightedEndpoint)
    → Picks (e ∷ es) (select_round_robin drawn (e ∷ es))
unfolding select_round_robin
round_robin-Picks drawn e es = elim (Bool-cases (total_from 0 (e ∷ es) == 0)) [
  | inl zero_total ↦ (e, ground arith, Memᴰ.head refl)
  | inr weighted ↦
      elim (Option-cases (weighted_from weight (drawn % total_from 0 (e ∷ es)) 0 (e ∷ es))) [
        | inl missed ↦ (e, rw (weighted, missed), Memᴰ.head refl)
        | inr (x, found) ↦ (x, rw (weighted, found), weighted_from-mem weight _ 0 x (e ∷ es) found)
      ]
]
  where
    weight : WeightedEndpoint → ℕ
    weight e = e.weight

random-Picks :
    (drawn : ℕ) (e : WeightedEndpoint) (es : List WeightedEndpoint)
    → Picks (e ∷ es) (select_random drawn (e ∷ es))
unfolding select_random
random-Picks drawn e es =
    let (x, found) = get_elem?-lt (e ∷ es) (drawn % length (e ∷ es)) (mod-lt drawn (omega arith)) in
    (x, found, get_elem?-mem x (e ∷ es) _ found)

-- The loop's test, and the endpoint that it keeps.
abbrev better : Dict Text ℕ → ℕ → WeightedEndpoint → Bool
better counters least e = least == minus_one || int32_lt (counter_of counters e) least

least_from-Picks :
    (counters : Dict Text ℕ) (least : ℕ) (s : WeightedEndpoint) (all es : List WeightedEndpoint)
    → Memᴰ s all
    → ((x : WeightedEndpoint) → Memᴰ x es → Memᴰ x all)
    → Picks all (least_from counters least (some s) es)
unfolding least_from
least_from-Picks counters least s all [] m sub = (s, refl, m)
least_from-Picks counters least s all (e ∷ es) m sub = elim (Bool-cases (better counters least e)) [
  | inl yes_better ↦ rw yes_better (
      least_from-Picks counters (counter_of counters e) e all es (sub e (Memᴰ.head refl))
        (λ x k. sub x (Memᴰ.tail k)))
  | inr not_better ↦
      rw not_better (least_from-Picks counters least s all es m (λ x k. sub x (Memᴰ.tail k)))
]

pub least_from_first :
    (counters : Dict Text ℕ) (e : WeightedEndpoint) (es : List WeightedEndpoint)
    → least_from counters minus_one none (e ∷ es)
      ≡ least_from counters (counter_of counters e) (some e) es
unfolding least_from
least_from_first counters e es = refl

least_request-Picks :
    (counters : Dict Text ℕ) (e : WeightedEndpoint) (es : List WeightedEndpoint)
    → Picks (e ∷ es) (select_least_request counters (e ∷ es)).0
unfolding select_least_request
least_request-Picks counters e es =
    let (x, found, m) =
      least_from-Picks counters (counter_of counters e) e (e ∷ es) es (Memᴰ.head refl)
        (λ x k. Memᴰ.tail k) in
    (x, rw (least_from_first counters e es ∙ found, select_least_request), m)

-- Every policy selects an endpoint of the group.
pub policy-Picks :
    (policy : Text) (drawn : ℕ) (counters : Dict Text ℕ) (e : WeightedEndpoint)
    (es : List WeightedEndpoint)
    → Picks (e ∷ es) (select_by_policy policy drawn counters (e ∷ es)).0
unfolding select_by_policy
policy-Picks policy drawn counters e es = elim (Bool-cases (policy == codes "random")) [
  | inl random ↦ rw random (random-Picks drawn e es)
  | inr other ↦ elim (Bool-cases (policy == codes "least_request")) [
    | inl least ↦ rw (other, least) (least_request-Picks counters e es)
    | inr default_policy ↦ rw (other, default_policy) (round_robin-Picks drawn e es)
  ]
]
