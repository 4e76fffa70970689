-- ===== src/Xds/Traffic/Picker/Weighted.antt =====
-- How the weighted selections divide the random numbers.
use native.Mathlib.Nat.{zero-add, add-zero, suc-add, add_assoc, mod-eq_of_lt}
use yggdrasil_ecosystem.Prelude.{
  ℕ, zero, suc, ◌+◌, ◌≤◌, ◌<◌, ◌≡◌, ◌≢◌, refl, sym, ap, ◌∙◌, Bool, false, Option, none, some, List,
  [], ◌∷◌, arith, ltb, ◌==◌, nat_eq, if◌then◌else◌, sum_of, u32, u32_mod, Bool-cases, inl, inr,
  ltb→lt,
}
use yggdrasil_ecosystem.Prelude.Text.{Text, text_eq}
use yggdrasil_ecosystem.Xds.Resource.Model.{WeightedCluster, WeightedClusters, WeightedEndpoint}
use yggdrasil_ecosystem.Xds.Traffic.Picker.{
  weighted_from, select_weighted_cluster, select_round_robin, total_from,
}

-- How many of the `n` numbers from `start` on pass a test.
abbrev pub tally : (ℕ → Bool) → ℕ → ℕ → ℕ
tally f start zero = 0
tally f start (suc n) = (if f start then 1 else 0) + tally f (start + 1) n

tally-add :
    (f : ℕ → Bool) (m n start : ℕ) → tally f start (m + n) ≡ tally f start m + tally f (start + m) n
tally-add f zero n start = rw (zero-add, add-zero) (rw zero-add)
tally-add f (suc m) n start =
    let shift : start + suc m ≡ start + 1 + m = omega arith in
    rw (suc-add, shift)
      (ap (◌+◌ (if f start then 1 else 0)) (tally-add f m n (start + 1))
        ∙ sym (
            add_assoc (if f start then 1 else 0) (tally f (start + 1) m)
              (tally f (start + 1 + m) n)))

tally_const :
    (f : ℕ → Bool) (b : Bool) (n start : ℕ)
    → ((r : ℕ) → start ≤ r → r < start + n → f r ≡ b)
    → tally f start n ≡ (if b then n else 0)
tally_const f b zero start h = ground arith
tally_const f b (suc n) start h =
    ground
      (arith, h start, tally_const f b n (start + 1) (λ r l u. h r (omega arith) (omega arith)))

tally_eq :
    (f g : ℕ → Bool) (n start : ℕ)
    → ((r : ℕ) → start ≤ r → r < start + n → f r ≡ g r)
    → tally f start n ≡ tally g start n
tally_eq f g zero start h = refl
tally_eq f g (suc n) start h =
    ground (arith, h start, tally_eq f g n (start + 1) (λ r l u. h r (omega arith) (omega arith)))

module _ {ℓ} {A : Type ℓ} (weight : A → ℕ) (p : A → Bool) where
  abbrev pub chosen : Option A → Bool
  chosen none = false
  chosen (some x) = p x

  -- The weights of the elements that pass.
  abbrev pub share : List A → ℕ
  share [] = 0
  share (x ∷ xs) = (if p x then weight x else 0) + share xs

  no_wrap : (acc : ℕ) (x : A) → acc + weight x < u32_mod → u32 (acc + weight x) ≡ acc + weight x
  no_wrap acc x h = omega arith

  weighted_hit :
      (r acc : ℕ) (x : A) (xs : List A)
      → acc + weight x < u32_mod
      → r < acc + weight x
      → weighted_from weight r acc (x ∷ xs) ≡ some x
  unfolding weighted_from
  weighted_hit r acc x xs h l = ground (arith, no_wrap acc x)

  weighted_miss :
      (r acc : ℕ) (x : A) (xs : List A)
      → acc + weight x < u32_mod
      → acc + weight x ≤ r
      → weighted_from weight r acc (x ∷ xs) ≡ weighted_from weight r (acc + weight x) xs
  unfolding weighted_from
  weighted_miss r acc x xs h l = rw (no_wrap acc x h) (ground arith)

  weighted_share :
      (xs : List A) (acc : ℕ)
      → acc + sum_of weight xs < u32_mod
      → tally (λ r. chosen (weighted_from weight r acc xs)) acc (sum_of weight xs) ≡ share xs
  weighted_share [] acc h = refl
  weighted_share (x ∷ xs) acc h =
      let f = λ (r : ℕ). chosen (weighted_from weight r acc (x ∷ xs)) in
      let g = λ (r : ℕ). chosen (weighted_from weight r (acc + weight x) xs) in
      let here : tally f acc (weight x) ≡ (if p x then weight x else 0) =
        tally_const f (p x) (weight x) acc
          (λ r l u. ap chosen (weighted_hit r acc x xs (omega arith) u)) in
      let there : tally f (acc + weight x) (sum_of weight xs)
          ≡ tally g (acc + weight x) (sum_of weight xs) =
        tally_eq f g (sum_of weight xs) (acc + weight x)
          (λ r l _. ap chosen (weighted_miss r acc x xs (omega arith) l)) in
      tally-add f (weight x) (sum_of weight xs) acc
      ∙ omega (arith, here, there, weighted_share xs (acc + weight x) (omega arith))

  weighted_found :
      (xs : List A) (r acc : ℕ)
      → acc + sum_of weight xs < u32_mod
      → acc ≤ r
      → r < acc + sum_of weight xs
      → weighted_from weight r acc xs ≢ none
  weighted_found [] r acc h l u e = absurd (omega arith)
  weighted_found (x ∷ xs) r acc h l u none_found = elim (Bool-cases (ltb r (acc + weight x))) [
    | inl hit ↦ cc (weighted_hit r acc x xs (omega arith) (ltb→lt r _ hit), none_found)
    | inr miss ↦
        weighted_found xs r (acc + weight x) (omega arith) (ground arith) (omega arith)
          (sym (weighted_miss r acc x xs (omega arith) (ground arith)) ∙ none_found)
  ]

abbrev pub is_named : Text → WeightedCluster → Bool
is_named name c = c.name == name

-- Where the total is the sum of the weights and a uint32 that is not 0, a cluster name is selected
-- for exactly as many of the random numbers below the total as the weights of the clusters with
-- that name add up to.
pub select_weighted_cluster-share :
    (w : WeightedClusters) (name : Text)
    → 0 < w.total_weight
    → w.total_weight < u32_mod
    → sum_of (λ (c : WeightedCluster). c.weight) w.clusters ≡ w.total_weight
    → tally (λ r. select_weighted_cluster r w == name) 0 w.total_weight
      ≡ share (λ (c : WeightedCluster). c.weight) (is_named name) w.clusters
unfolding select_weighted_cluster
select_weighted_cluster-share w name pos small total =
    let weight = λ (c : WeightedCluster). c.weight in
    tally_eq (λ r. select_weighted_cluster r w == name)
      (λ r. chosen weight (is_named name) (weighted_from weight r 0 w.clusters)) w.total_weight 0
      (λ r _ u. pointwise r (omega arith))
    ∙ ((ap (tally (λ r. chosen weight (is_named name) (weighted_from weight r 0 w.clusters)) 0)
          (sym total)
        ∙ weighted_share weight (is_named name) w.clusters 0 (omega arith)))
  where
    pointwise :
        (r : ℕ)
        → r < w.total_weight
        → (select_weighted_cluster r w == name)
          ≡ chosen
              (λ (c : WeightedCluster). c.weight)
              (is_named name)
              (weighted_from (λ (c : WeightedCluster). c.weight) r 0 w.clusters)
    pointwise r u = ground (
      arith,
      mod-eq_of_lt u,
      weighted_found (λ (c : WeightedCluster). c.weight) (is_named name) w.clusters r 0
          (omega arith) (omega arith) (omega arith),
    )

-- Without a total weight the split is off: the first cluster is selected for every random number.
pub select_weighted_cluster_no_total :
    (drawn : ℕ) (c : WeightedCluster) (cs : List WeightedCluster)
    → select_weighted_cluster drawn (record { clusters = c ∷ cs; total_weight = 0 }) ≡ c.name
unfolding select_weighted_cluster
select_weighted_cluster_no_total drawn c cs = refl

total_from_sum :
    (acc : ℕ) (es : List WeightedEndpoint)
    → acc + sum_of (λ (e : WeightedEndpoint). e.weight) es < u32_mod
    → total_from acc es ≡ acc + sum_of (λ (e : WeightedEndpoint). e.weight) es
unfolding total_from
total_from_sum acc [] h = omega arith
total_from_sum acc (e ∷ es) h =
    let wrap : u32 (acc + e.weight) ≡ acc + e.weight = omega arith in
    rw wrap (total_from_sum (acc + e.weight) es (omega arith) ∙ omega arith)

-- Where the weights of a group add up to a uint32 that is not 0, the endpoints that pass any test are
-- selected for exactly as many of the random numbers below the sum as their weights add up to.
pub select_round_robin-share :
    (es : List WeightedEndpoint) (p : WeightedEndpoint → Bool)
    → 0 < sum_of (λ (e : WeightedEndpoint). e.weight) es
    → sum_of (λ (e : WeightedEndpoint). e.weight) es < u32_mod
    → tally
        (λ r. chosen (λ (e : WeightedEndpoint). e.weight) p (select_round_robin r es))
        0
        (sum_of (λ (e : WeightedEndpoint). e.weight) es)
      ≡ share (λ (e : WeightedEndpoint). e.weight) p es
unfolding select_round_robin
select_round_robin-share es p pos small =
    tally_eq (λ r. chosen (λ (e : WeightedEndpoint). e.weight) p (select_round_robin r es))
      (λ r.
        chosen (λ (e : WeightedEndpoint). e.weight) p
          (weighted_from (λ (e : WeightedEndpoint). e.weight) r 0 es))
      (sum_of (λ (e : WeightedEndpoint). e.weight) es) 0 (λ r _ u. pointwise r (omega arith))
    ∙ weighted_share (λ (e : WeightedEndpoint). e.weight) p es 0 (omega arith)
  where
    pointwise :
        (r : ℕ)
        → r < sum_of (λ (e : WeightedEndpoint). e.weight) es
        → chosen (λ (e : WeightedEndpoint). e.weight) p (select_round_robin r es)
          ≡ chosen
              (λ (e : WeightedEndpoint). e.weight)
              p
              (weighted_from (λ (e : WeightedEndpoint). e.weight) r 0 es)
    pointwise r u =
        let total : total_from 0 es ≡ sum_of (λ (e : WeightedEndpoint). e.weight) es =
          total_from_sum 0 es (omega arith) ∙ zero-add _ in
        ground (
          arith,
          total,
          mod-eq_of_lt u,
          weighted_found (λ (e : WeightedEndpoint). e.weight) p es r 0 (omega arith) (omega arith)
              (omega arith),
        )
