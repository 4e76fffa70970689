-- ===== src/Xds/Resolver/Core/Watches.antt =====
-- modules/xds/internal/resolver/core.go: what holds of the resolver between its operations.
use yggdrasil_ecosystem.Prelude.{
  ℕ, ◌≡◌, refl, sym, ap, subst, ◌∙◌, ◌⊎◌, inl, inr, Option-cases, none, some, List, [], ◌∷◌, arith,
  nat_eq,
}
use yggdrasil_ecosystem.Prelude.Text.{Text, text_eq}
use yggdrasil_ecosystem.Prelude.Dict.{Dict, lookup, insert, erase, add}
use yggdrasil_ecosystem.Xds.Resource.Model.{DiscoveryEvent}
use yggdrasil_ecosystem.Xds.Resolver.State.{collect_subscription_names}
use yggdrasil_ecosystem.Xds.Resolver.Ads.{AdsClient, sorted_names}
use yggdrasil_ecosystem.Xds.Resolver.Ads.Sends.{update_subscriptions-sub}
use yggdrasil_ecosystem.Xds.Resolver.Core.{
  XdsResolver, Factory, factory_error, start_error, started, watchers_of, listener_name,
  subscriptions_of, add_listener, reconcile_subscriptions, add_watch, drop_target, del_watch,
  store_event, handle_discovery_event, new_resolver, Call, add_call, del_call, event_call, call,
  calls,
}

module _ {Regexp : Type 0} where
  -- The discovery client, if there is one, subscribes to what the apps and the resources ask for.
  abbrev pub IsSubscribed : XdsResolver Regexp → Type 0
  IsSubscribed r =
      (c : AdsClient)
      → r.ads ≡ some c
      → c.sub ≡ sorted_names (subscriptions_of (collect_subscription_names r.resources r.apps))

  reconcile_subscriptions-IsSubscribed :
      (r : XdsResolver Regexp) → IsSubscribed (reconcile_subscriptions r)
  unfolding reconcile_subscriptions
  reconcile_subscriptions-IsSubscribed r c h = elim (Option-cases r.ads) [
    | inl no_client ↦ absurd (ground arith)
    | inr (old, has) ↦
        let names = subscriptions_of (collect_subscription_names r.resources r.apps) in
        ground (arith, update_subscriptions-sub names old)
  ]

  abbrev Reconciled : XdsResolver Regexp → Type 0
  Reconciled r = (x : XdsResolver Regexp) × (r ≡ reconcile_subscriptions x)

  Reconciled-IsSubscribed : (r : XdsResolver Regexp) → Reconciled r → IsSubscribed r
  Reconciled-IsSubscribed r (x, e) =
      subst IsSubscribed (sym e) (reconcile_subscriptions-IsSubscribed x)

  unstarted-IsSubscribed : (r : XdsResolver Regexp) → r.ads ≡ none → IsSubscribed r
  unstarted-IsSubscribed r e c h = absurd (ground arith)

  -- The watch that AddWatch has entered, whatever comes of the discovery client.
  abbrev entered : Text → ℕ → XdsResolver Regexp → XdsResolver Regexp
  entered target client r = record r {
    watchers = insert target (add client (watchers_of r.watchers target)) r.watchers;
    apps = add_listener target (listener_name r.service_map target) r.apps;
  }

  add_watch_cases :
      (factory : Factory) (target : Text) (client : ℕ) (r : XdsResolver Regexp)
      → Reconciled (add_watch factory target client r).0
        ⊎ (((add_watch factory target client r).0 ≡ entered target client r) × (r.ads ≡ none))
  unfolding add_watch
  add_watch_cases factory target client r = elim (Option-cases r.ads) [
    | inr (old, has) ↦ inl (entered target client r, rw has)
    | inl no_client ↦ by_factory factory no_client
  ]
    where
      by_factory :
          (f : Factory)
          → r.ads ≡ none
          → Reconciled (add_watch f target client r).0
            ⊎ (((add_watch f target client r).0 ≡ entered target client r) × (r.ads ≡ none))
      by_factory factory_error e = inr (rw e, e)
      by_factory start_error e = inr (rw e, e)
      by_factory (started c) e = inl (record (entered target client r) { ads = some c }, rw e)

  add_watch-IsSubscribed :
      (factory : Factory) (target : Text) (client : ℕ) (r : XdsResolver Regexp)
      → IsSubscribed (add_watch factory target client r).0
  add_watch-IsSubscribed factory target client r = elim (add_watch_cases factory target client r) [
    | inl done ↦ Reconciled-IsSubscribed (add_watch factory target client r).0 done
    | inr (e, no_client) ↦
        unstarted-IsSubscribed (add_watch factory target client r).0
          (ap (λ (x : XdsResolver Regexp). x.ads) e ∙ no_client)
  ]

  drop_target-IsSubscribed :
      (target : Text) (r : XdsResolver Regexp) → IsSubscribed (drop_target target r)
  unfolding drop_target
  drop_target-IsSubscribed target r c h =
      let dropped = record r { apps = erase target r.apps } in
      ground (arith, reconcile_subscriptions-IsSubscribed dropped c)

  del_watch-IsSubscribed :
      (target : Text) (client : ℕ) (r : XdsResolver Regexp)
      → IsSubscribed r
      → IsSubscribed (del_watch target client r)
  unfolding del_watch
  del_watch-IsSubscribed target client r ok c h = elim (Option-cases (lookup target r.watchers)) [
    | inl unknown ↦ ground (arith, drop_target-IsSubscribed target r c)
    | inr (ws, found) ↦ ground (
      arith,
      ok c,
      drop_target-IsSubscribed target (record r { watchers = erase target r.watchers }) c,
    )
  ]

  handle_discovery_event-IsSubscribed :
      (name_of : Text → Text) (event : DiscoveryEvent Regexp) (r : XdsResolver Regexp)
      → IsSubscribed (handle_discovery_event name_of event r)
  unfolding handle_discovery_event
  handle_discovery_event-IsSubscribed name_of event r =
      reconcile_subscriptions-IsSubscribed (record r { resources = store_event event r.resources })

  call-IsSubscribed :
      (name_of : Text → Text) (o : Call Regexp) (r : XdsResolver Regexp)
      → IsSubscribed r
      → IsSubscribed (call name_of o r)
  call-IsSubscribed name_of (add_call factory target client) r ok =
      add_watch-IsSubscribed factory target client r
  call-IsSubscribed name_of (del_call target client) r ok =
      del_watch-IsSubscribed target client r ok
  call-IsSubscribed name_of (event_call event) r ok =
      handle_discovery_event-IsSubscribed name_of event r

  calls_keep :
      (name_of : Text → Text) (os : List (Call Regexp)) (r : XdsResolver Regexp)
      → IsSubscribed r
      → IsSubscribed (calls name_of os r)
  calls_keep name_of [] r ok = ok
  calls_keep name_of (o ∷ os) r ok =
      calls_keep name_of os (call name_of o r) (call-IsSubscribed name_of o r ok)

  -- After any calls of a new resolver, its discovery client, if there is one, subscribes to exactly
  -- the sorted names that the apps and the resources ask for.
  pub calls-IsSubscribed :
      (name_of : Text → Text) (os : List (Call Regexp)) (service_map : Dict Text Text)
      (c : AdsClient)
      → (calls name_of os (new_resolver service_map)).ads ≡ some c
      → c.sub
        ≡ sorted_names (
            subscriptions_of (
              collect_subscription_names
                (calls name_of os (new_resolver service_map)).resources
                (calls name_of os (new_resolver service_map)).apps))
  unfolding new_resolver
  calls-IsSubscribed name_of os service_map =
      calls_keep name_of os (new_resolver service_map)
        (unstarted-IsSubscribed (new_resolver service_map) refl)
