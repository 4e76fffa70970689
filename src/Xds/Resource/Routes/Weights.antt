-- ===== src/Xds/Resource/Routes/Weights.antt =====
-- Which clusters and paths a decoded route selects where the message leaves something out.
use yggdrasil_ecosystem.Prelude.{
  ℕ, ◌+◌, ◌<◌, ◌≡◌, refl, ap, ◌∙◌, Bool, true, Option, none, some, List, [], ◌∷◌, map, ◌==◌,
  if◌then◌else◌, sum_of, u32_mod,
}
use yggdrasil_ecosystem.Prelude.Text.{Text, text_eq, text_beq}
use yggdrasil_ecosystem.Xds.Resource.Model.{WeightedCluster}
use yggdrasil_ecosystem.Xds.Resource.Envoy.{ClusterWeight, ClusterWeights, safe_regex, get_value}
use yggdrasil_ecosystem.Xds.Resource.Match.{match_path}
use yggdrasil_ecosystem.Xds.Resource.Routes.{parse_weight, parse_weights, parse_path, compiled}
use yggdrasil_ecosystem.Xds.Traffic.Picker.{select_weighted_cluster}
use yggdrasil_ecosystem.Xds.Traffic.Picker.Weighted.{
  share, is_named, tally, select_weighted_cluster-share, select_weighted_cluster_no_total,
}

abbrev weight_of : WeightedCluster → ℕ
weight_of c = c.weight

sum_of-parse_weight :
    (cs : List ClusterWeight)
    → sum_of weight_of (map parse_weight cs) ≡ sum_of (λ c. get_value c.weight) cs
unfolding parse_weight
sum_of-parse_weight [] = refl
sum_of-parse_weight (c ∷ cs) = ap (◌+◌ (get_value c.weight)) (sum_of-parse_weight cs)

share-parse_weight :
    (name : Text) (cs : List ClusterWeight)
    → share weight_of (is_named name) (map parse_weight cs)
      ≡ share (λ c. get_value c.weight) (λ c. c.name == name) cs
unfolding parse_weight
share-parse_weight name [] = refl
share-parse_weight name (c ∷ cs) =
    ap (◌+◌ (if c.name == name then get_value c.weight else 0)) (share-parse_weight name cs)

-- For a message whose total weight is the sum of the weights and not 0, a cluster name is selected for
-- exactly as many of the random numbers below the total as the message's weights for it add up to.
pub select_weighted_cluster-parse_weights :
    (w : ClusterWeights) (name : Text)
    → 0 < get_value w.total_weight
    → get_value w.total_weight < u32_mod
    → sum_of (λ (c : ClusterWeight). get_value c.weight) w.clusters ≡ get_value w.total_weight
    → tally (λ r. select_weighted_cluster r (parse_weights w) == name) 0 (get_value w.total_weight)
      ≡ share
          (λ (c : ClusterWeight). get_value c.weight)
          (λ (c : ClusterWeight). c.name == name)
          w.clusters
unfolding parse_weights
select_weighted_cluster-parse_weights w name pos small total =
    select_weighted_cluster-share (parse_weights w) name pos small
      (sum_of-parse_weight w.clusters ∙ total)
    ∙ share-parse_weight name w.clusters

-- A message that leaves out the total weight makes the first cluster the selected one, whatever the
-- weights and the random number are.
pub select_weighted_cluster-parse_no_total :
    (drawn : ℕ) (w : ClusterWeights) (c : ClusterWeight) (cs : List ClusterWeight)
    → w.total_weight ≡ none
    → w.clusters ≡ c ∷ cs
    → select_weighted_cluster drawn (parse_weights w) ≡ c.name
unfolding parse_weights parse_weight
select_weighted_cluster-parse_no_total drawn w c cs absent first =
    rw (absent, first)
      (select_weighted_cluster_no_total drawn (parse_weight c) (map parse_weight cs))

module _ (Regexp : Type 0) (match_string : Regexp → Text → Bool)
    (compile : Text → Option Regexp) where
  -- A path rule whose regular expression does not compile matches every path.
  pub match_path_uncompiled :
      (regex path : Text)
      → compile regex ≡ none
      → match_path Regexp match_string (parse_path compile (some (safe_regex (some regex)))) path
        ≡ true
  unfolding match_path parse_path compiled text_beq
  match_path_uncompiled [] path fails = refl
  match_path_uncompiled (c ∷ regex) path fails = rw fails refl
