-- ===== src/Xds/Resolver/AppNames.antt =====
-- modules/xds/internal/resolver/state.go: what an app is told of the clusters that it uses, compared
-- with what is subscribed to.
use yggdrasil_ecosystem.Prelude.{
  any, ◌≡◌, refl, ap, ◌∙◌, Bool, true, false, ◌||◌, none, some, List, [], ◌∷◌, arith, ◌==◌,
  if◌then◌else◌, Bool-cases, Option-cases, inl, inr,
}
use yggdrasil_ecosystem.Prelude.Text.{Text, text_eq}
use yggdrasil_ecosystem.Prelude.Dict.{Dict, lookup, insert, lookup-insert, member}
use yggdrasil_ecosystem.Xds.Resource.Model.{ClusterPolicy}
use yggdrasil_ecosystem.Xds.Resolver.State.{
  AppInfo, Resources, add_all, route_cluster_names, route_name_for_listener,
  collect_subscription_names, route_of_listener, cluster_names_from, cluster_names_for_app,
  cluster_policy, cluster_map_from, build_cluster_map,
}
use yggdrasil_ecosystem.Xds.Resolver.Names.{
  uses, listener_uses, member-add_all, member-route_cluster_names, collect_subscription_names_exact,
}

member_nil : (k : Text) → member k [] ≡ false
unfolding member
member_nil k = refl

module _ {Regexp : Type 0} where
  -- A listener's clusters, through the route configuration that it names.
  abbrev app_listener_uses : Text → Resources Regexp → Text → Bool
  app_listener_uses n c l = uses n (route_of_listener c l)

  member-cluster_names_from :
      (n : Text) (c : Resources Regexp) (ls set : List Text)
      → member n (cluster_names_from c ls set) ≡ (any (app_listener_uses n c) ls || member n set)
  unfolding cluster_names_from
  member-cluster_names_from n c [] set = refl
  member-cluster_names_from n c (l ∷ ls) set = elim (Option-cases (route_of_listener c l)) [
    | inl none_found ↦ rw (none_found, cluster_names_from) (member-cluster_names_from n c ls set)
    | inr (s, found) ↦
        rw (found, cluster_names_from)
          (grind (
            arith,
            member-cluster_names_from n c ls (add_all (route_cluster_names (some s)) set),
            member-add_all n (route_cluster_names (some s)) set,
            member-route_cluster_names n (some s),
          ))
  ]

  -- The resources hold no route configuration without a name.
  abbrev HasNames : Resources Regexp → Type 0
  HasNames c = lookup [] c.routes ≡ none

  -- The two ways to a listener's route configuration agree.
  listener_uses_lem :
      (n : Text) (c : Resources Regexp) (l : Text)
      → HasNames c
      → listener_uses n c l ≡ app_listener_uses n c l
  unfolding route_name_for_listener route_of_listener
  listener_uses_lem n c l h = elim (Option-cases (lookup l c.listeners)) [
    | inl none_found ↦ ground arith
    | inr (s, found) ↦ elim (Bool-cases (s.route == [])) [
      | inl unnamed ↦
          let nameless =
            ap (λ r. lookup r c.routes) ((text_eq.equal_iff s.route []).0 unnamed) ∙ h in
          ground arith
      | inr named ↦ ground arith
    ]
  ]

  cluster_map_from_lem :
      (n : Text) (c : Resources Regexp) (ns : List Text) (m : Dict Text ClusterPolicy)
      → lookup n (cluster_map_from c ns m)
        ≡ (if member n ns then some (cluster_policy c n) else lookup n m)
  unfolding cluster_map_from member
  cluster_map_from_lem n c [] m = refl
  cluster_map_from_lem n c (k ∷ ns) m = elim (Bool-cases (k == n)) [
    | inl same ↦ rw same (
        cluster_map_from_lem n c ns (insert k (cluster_policy c k) m)
        ∙ grind (arith, lookup-insert k n (cluster_policy c k) m, (text_eq.equal_iff k n).0 same))
    | inr other ↦ rw other (
        cluster_map_from_lem n c ns (insert k (cluster_policy c k) m)
        ∙ grind (arith, lookup-insert k n (cluster_policy c k) m))
  ]

  -- The cluster map of an app has a policy for exactly the clusters that the app's listeners use:
  -- that of the cluster's resource, or the zero policy where that resource has not come.
  pub lookup-build_cluster_map :
      (n : Text) (c : Resources Regexp) (app : AppInfo)
      → lookup n (build_cluster_map c app) ≡ (
          if any (λ l. uses n (route_of_listener c l)) app.listeners
          then some (cluster_policy c n)
          else none)
  unfolding build_cluster_map cluster_names_for_app member lookup
  lookup-build_cluster_map n c app =
      cluster_map_from_lem n c (cluster_names_from c app.listeners []) []
      ∙ rw (member-cluster_names_from n c app.listeners []) (grind arith)

  any_at :
      (n t : Text) (c : Resources Regexp) (apps : Dict Text AppInfo) (app : AppInfo)
      → lookup t apps ≡ some app
      → any (listener_uses n c) app.listeners ≡ true
      → any (λ a. any (listener_uses n c) a.1.listeners) apps ≡ true
  unfolding lookup
  any_at n t c [] app found h = absurd (ground arith)
  any_at n t c ((k, a) ∷ apps) app found h = elim (Bool-cases (k == t)) [
    | inl here ↦ ground arith
    | inr later ↦ ground (arith, any_at n t c apps app (rw later at found) h)
  ]

  any_same :
      (n : Text) (c : Resources Regexp) (ls : List Text)
      → HasNames c
      → any (listener_uses n c) ls ≡ any (app_listener_uses n c) ls
  any_same n c [] h = refl
  any_same n c (l ∷ ls) h = ground (arith, listener_uses_lem n c l h, any_same n c ls h)

  -- Every cluster of an app, whose endpoints and policy the app is told, is subscribed to, provided no
  -- route configuration without a name has come.
  pub cluster_names_for_app-subscribed :
      (n t : Text) (c : Resources Regexp) (apps : Dict Text AppInfo) (app : AppInfo)
      → lookup [] c.routes ≡ none
      → lookup t apps ≡ some app
      → member n (cluster_names_for_app c app) ≡ true
      → member n (collect_subscription_names c apps).cds ≡ true
  unfolding cluster_names_for_app
  cluster_names_for_app-subscribed n t c apps app names found h =
      let (lds, rds, cds) = collect_subscription_names_exact n c apps in
      cds
      ∙ any_at n t c apps app found (
          any_same n c app.listeners names
          ∙ grind (arith, member-cluster_names_from n c app.listeners [], member_nil n))
