-- ===== src/Xds/Resolver/Names.antt =====
-- modules/xds/internal/resolver/state.go: which names are subscribed to, as the sets of
-- collectSubscriptionNames and clusterNamesForApp.
use yggdrasil_ecosystem.Prelude.{
  ◌≡◌, refl, Bool, false, not, ◌&&◌, ◌||◌, Option, none, some, List, [], ◌∷◌, arith, ◌==◌,
  Bool-cases, Option-cases, inl, inr, any,
}
use yggdrasil_ecosystem.Prelude.Text.{Text, text_eq}
use yggdrasil_ecosystem.Prelude.Dict.{Dict, lookup, member, add, member-add}
use yggdrasil_ecosystem.Xds.Resource.Model.{
  WeightedCluster, WeightedClusters, RouteAction, Route, VirtualHost, RouteSnapshot,
}
use yggdrasil_ecosystem.Xds.Resolver.State.{
  AppInfo, Resources, NameSets, add_weighted, add_clusters, add_action, add_routes, add_vhosts,
  add_all, route_cluster_names, route_name_for_listener, collect_listeners, collect_apps,
  collect_subscription_names,
}

-- A name that a route's action uses: its cluster, if it has one, or one of its weighted clusters.
abbrev pub weighs : Text → Option WeightedClusters → Bool
weighs n none = false
weighs n (some w) = any (λ c. c.name == n) w.clusters

abbrev pub action_uses : Text → Option RouteAction → Bool
action_uses n none = false
action_uses n (some a) = (not (a.cluster == []) && a.cluster == n) || weighs n a.weighted_clusters

member-add_weighted :
    (n : Text) (cs : List WeightedCluster) (set : List Text)
    → member n (add_weighted cs set) ≡ (any (λ c. c.name == n) cs || member n set)
member-add_weighted n [] set = refl
member-add_weighted n (c ∷ cs) set =
    grind (arith, member-add_weighted n cs (add c.name set), member-add c.name n set)

pub member-add_all :
    (n : Text) (ns set : List Text) → member n (add_all ns set) ≡ (member n ns || member n set)
unfolding member
member-add_all n [] set = refl
member-add_all n (m ∷ ns) set = grind (arith, member-add_all n ns (add m set), member-add m n set)

member-add_clusters :
    (n : Text) (w : Option WeightedClusters) (set : List Text)
    → member n (add_clusters w set) ≡ (weighs n w || member n set)
member-add_clusters n none set = refl
member-add_clusters n (some w) set = member-add_weighted n w.clusters set

member-add_action :
    (n : Text) (a : Option RouteAction) (set : List Text)
    → member n (add_action a set) ≡ (action_uses n a || member n set)
unfolding add_action
member-add_action n none set = refl
member-add_action n (some a) set = elim (Bool-cases (a.cluster == [])) [
  | inl unnamed ↦ rw unnamed (member-add_clusters n a.weighted_clusters set)
  | inr named ↦ rw named (
      grind (
        arith,
        member-add_clusters n a.weighted_clusters (add a.cluster set),
        member-add a.cluster n set,
      ))
]

-- A set after a loop over listeners.
abbrev Extends : (Text → Text → Bool) → Text → List Text → List Text → List Text → Type 0
Extends p n ls before after = member n after ≡ (any (p n) ls || member n before)

module _ {Regexp : Type 0} where
  abbrev pub vhost_uses : Text → VirtualHost Regexp → Bool
  vhost_uses n v = any (λ r. action_uses n r.action) v.routes

  abbrev pub uses : Text → Option (RouteSnapshot Regexp) → Bool
  uses n none = false
  uses n (some s) = any (vhost_uses n) s.vhosts

  member-add_routes :
      (n : Text) (rs : List (Route Regexp)) (set : List Text)
      → member n (add_routes rs set) ≡ (any (λ r. action_uses n r.action) rs || member n set)
  member-add_routes n [] set = refl
  member-add_routes n (r ∷ rs) set =
      grind
        (arith, member-add_routes n rs (add_action r.action set), member-add_action n r.action set)

  member-add_vhosts :
      (n : Text) (vs : List (VirtualHost Regexp)) (set : List Text)
      → member n (add_vhosts vs set) ≡ (any (vhost_uses n) vs || member n set)
  member-add_vhosts n [] set = refl
  member-add_vhosts n (v ∷ vs) set =
      grind
        (arith, member-add_vhosts n vs (add_routes v.routes set), member-add_routes n v.routes set)

  pub member-route_cluster_names :
      (n : Text) (s : Option (RouteSnapshot Regexp)) → member n (route_cluster_names s) ≡ uses n s
  unfolding route_cluster_names member
  member-route_cluster_names n none = refl
  member-route_cluster_names n (some s) = ground (arith, member-add_vhosts n s.vhosts [])

  -- What the resolver has to subscribe to: the route configuration that a listener names, and the
  -- clusters that the routes of that configuration use.
  abbrev pub listener_uses : Text → Resources Regexp → Text → Bool
  listener_uses n c l = elim (route_name_for_listener c.listeners l) [
    | none ↦ false
    | some r ↦ uses n (lookup r c.routes)
  ]

  abbrev pub listener_routes : Text → Resources Regexp → Text → Bool
  listener_routes n c l = elim (route_name_for_listener c.listeners l) [
    | none ↦ false
    | some r ↦ r == n
  ]

  collect_listeners_nil :
      (c : Resources Regexp) (sets : NameSets) → collect_listeners c [] sets ≡ sets
  unfolding collect_listeners
  collect_listeners_nil c sets = refl

  collect_listeners_unrouted :
      (c : Resources Regexp) (l : Text) (ls : List Text) (sets : NameSets)
      → route_name_for_listener c.listeners l ≡ none
      → collect_listeners c (l ∷ ls) sets
        ≡ collect_listeners c ls (record sets { lds = add l sets.lds })
  unfolding collect_listeners
  collect_listeners_unrouted c l ls sets e = rw (e, collect_listeners)

  -- The sets after a listener with a route configuration.
  abbrev routed : Resources Regexp → Text → Text → NameSets → NameSets
  routed c l r sets = record {
    lds = add l sets.lds;
    rds = add r sets.rds;
    cds = add_all (route_cluster_names (lookup r c.routes)) sets.cds;
  }

  collect_listeners-routed :
      (c : Resources Regexp) (l r : Text) (ls : List Text) (sets : NameSets)
      → route_name_for_listener c.listeners l ≡ some r
      → collect_listeners c (l ∷ ls) sets ≡ collect_listeners c ls (routed c l r sets)
  unfolding collect_listeners
  collect_listeners-routed c l r ls sets e = rw (e, collect_listeners)

  collect_listeners-Extends :
      (n : Text) (c : Resources Regexp) (ls : List Text) (sets : NameSets)
      → Extends (λ n l. l == n) n ls sets.lds (collect_listeners c ls sets).lds
        × Extends (λ n. listener_routes n c) n ls sets.rds (collect_listeners c ls sets).rds
        × Extends (λ n. listener_uses n c) n ls sets.cds (collect_listeners c ls sets).cds
  collect_listeners-Extends n c [] sets = rw (collect_listeners_nil c sets) (refl, refl, refl)
  collect_listeners-Extends n c (l ∷ ls) sets =
      elim (Option-cases (route_name_for_listener c.listeners l)) [
        | inl none_found ↦
            let step = collect_listeners_unrouted c l ls sets none_found in
            let (lds, rds, cds) =
              collect_listeners-Extends n c ls (record sets { lds = add l sets.lds }) in
            (
              rw step (grind (arith, lds, member-add l n sets.lds)),
              ground (arith, step, rds),
              ground (arith, step, cds),
            )
        | inr (r, found) ↦
            let step = collect_listeners-routed c l r ls sets found in
            let names = route_cluster_names (lookup r c.routes) in
            let (lds, rds, cds) = collect_listeners-Extends n c ls (routed c l r sets) in
            (
              rw step (grind (arith, lds, member-add l n sets.lds)),
              grind (arith, step, found, rds, member-add r n sets.rds),
              grind (
                arith,
                step,
                found,
                cds,
                member-add_all n names sets.cds,
                member-route_cluster_names n (lookup r c.routes),
              ),
            )
      ]

  collect_apps-Extends :
      (n : Text) (c : Resources Regexp) (apps : Dict Text AppInfo) (sets : NameSets)
      → (member n (collect_apps c apps sets).lds
          ≡ (any (λ a. any (λ l. l == n) a.1.listeners) apps || member n sets.lds))
        × (member n (collect_apps c apps sets).rds
            ≡ (any (λ a. any (listener_routes n c) a.1.listeners) apps || member n sets.rds))
        × (member n (collect_apps c apps sets).cds
            ≡ (any (λ a. any (listener_uses n c) a.1.listeners) apps || member n sets.cds))
  unfolding collect_apps
  collect_apps-Extends n c [] sets = (refl, refl, refl)
  collect_apps-Extends n c ((t, app) ∷ apps) sets =
      let (lds, rds, cds) = collect_listeners-Extends n c app.listeners sets in
      let (lds', rds', cds') =
        collect_apps-Extends n c apps (collect_listeners c app.listeners sets) in
      (grind (arith, lds, lds'), grind (arith, rds, rds'), grind (arith, cds, cds'))

  -- The names subscribed to are exactly those in use: the listeners of the apps, the route
  -- configurations that those listeners name, and the clusters of those configurations' routes.
  pub collect_subscription_names_exact :
      (n : Text) (c : Resources Regexp) (apps : Dict Text AppInfo)
      → (member n (collect_subscription_names c apps).lds
          ≡ any (λ a. any (λ l. l == n) a.1.listeners) apps)
        × (member n (collect_subscription_names c apps).rds
            ≡ any (λ a. any (listener_routes n c) a.1.listeners) apps)
        × (member n (collect_subscription_names c apps).cds
            ≡ any (λ a. any (listener_uses n c) a.1.listeners) apps)
  unfolding collect_subscription_names member
  collect_subscription_names_exact n c apps =
      let (lds, rds, cds) =
        collect_apps-Extends n c apps (record { lds = []; rds = []; cds = [] }) in
      (grind (arith, lds), grind (arith, rds), grind (arith, cds))
