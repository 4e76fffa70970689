-- ===== src/Xds/Resolver/Core/Registered.antt =====
-- modules/xds/internal/resolver/core.go: the targets that are watched, and who is told of events.
use yggdrasil_ecosystem.Prelude.{
  ℕ, ◌≡◌, refl, inl, inr, true, false, not, ◌||◌, Option-cases, none, List, [], ◌∷◌, arith, ◌==◌,
  nat_eq, if◌then◌else◌, keep, is_some,
}
use yggdrasil_ecosystem.Prelude.Text.{Text, text_eq}
use yggdrasil_ecosystem.Prelude.Dict.{
  Dict, lookup, insert, erase, lookup-insert, lookup-erase, member, add, member-add,
}
use yggdrasil_ecosystem.Xds.Resource.Model.{DiscoveryEvent}
use yggdrasil_ecosystem.Xds.Resolver.State.{AppInfo}
use yggdrasil_ecosystem.Xds.Resolver.Core.{
  XdsResolver, Factory, start_error, watchers_of, listener_name, add_listener,
  reconcile_subscriptions, add_watch, drop_target, del_watch, store_event, handle_discovery_event,
  new_resolver, Call, add_call, del_call, event_call, call, calls,
}

is_some-add_listener :
    (t target listener : Text) (apps : Dict Text AppInfo)
    → is_some (lookup t (add_listener target listener apps))
      ≡ ((target == t) || is_some (lookup t apps))
unfolding add_listener
is_some-add_listener t target listener apps = elim (Option-cases (lookup target apps)) [
  | inl new ↦
      let app : AppInfo = record { listeners = listener ∷ [] } in
      ground (arith, lookup-insert target t app apps)
  | inr (old, found) ↦
      let app : AppInfo = record { listeners = add listener old.listeners } in
      ground (arith, lookup-insert target t app apps)
]

module _ {Regexp : Type 0} where
  reconcile_subscriptions_frame :
      (r : XdsResolver Regexp)
      → ((reconcile_subscriptions r).watchers ≡ r.watchers)
        × ((reconcile_subscriptions r).apps ≡ r.apps)
  unfolding reconcile_subscriptions
  reconcile_subscriptions_frame r = ground arith

  -- AddWatch enters the watcher and its app, whether it returns an error or not.
  add_watch_frame :
      (factory : Factory) (target : Text) (client : ℕ) (r : XdsResolver Regexp)
      → ((add_watch factory target client r).0.watchers
          ≡ insert target (add client (watchers_of r.watchers target)) r.watchers)
        × ((add_watch factory target client r).0.apps
            ≡ add_listener target (listener_name r.service_map target) r.apps)
  unfolding add_watch reconcile_subscriptions
  add_watch_frame factory target client r = ground arith

  drop_target_frame :
      (target : Text) (r : XdsResolver Regexp)
      → ((drop_target target r).watchers ≡ r.watchers)
        × ((drop_target target r).apps ≡ erase target r.apps)
  unfolding drop_target
  drop_target_frame target r =
      let frame = reconcile_subscriptions_frame (record r { apps = erase target r.apps }) in
      ground (arith, frame)

  -- A target has watchers exactly if it has an app.
  abbrev pub IsRegistered : XdsResolver Regexp → Type 0
  IsRegistered r = (t : Text) → is_some (lookup t r.watchers) ≡ is_some (lookup t r.apps)

  add_watch-IsRegistered :
      (factory : Factory) (target : Text) (client : ℕ) (r : XdsResolver Regexp)
      → IsRegistered r
      → IsRegistered (add_watch factory target client r).0
  add_watch-IsRegistered factory target client r ok t =
      let (ws, apps) = add_watch_frame factory target client r in
      ground (
        arith,
        ok t,
        ws,
        apps,
        lookup-insert target t (add client (watchers_of r.watchers target)) r.watchers,
        is_some-add_listener t target (listener_name r.service_map target) r.apps,
      )

  drop_target-IsRegistered :
      (target t : Text) (r : XdsResolver Regexp)
      → (is_some (lookup t r.watchers) ≡ (if target == t then false else is_some (lookup t r.apps)))
      → (is_some (lookup t (drop_target target r).watchers)
          ≡ is_some (lookup t (drop_target target r).apps))
  drop_target-IsRegistered target t r h =
      let (ws, apps) = drop_target_frame target r in
      ground (arith, ws, apps, lookup-erase target t r.apps)

  del_watch-IsRegistered :
      (target : Text) (client : ℕ) (r : XdsResolver Regexp)
      → IsRegistered r
      → IsRegistered (del_watch target client r)
  unfolding del_watch
  del_watch-IsRegistered target client r ok t = elim (Option-cases (lookup target r.watchers)) [
    | inl unknown ↦
        ground
          (arith, ok t, ok target, drop_target-IsRegistered target t r, text_eq.equal_iff target t)
    | inr (ws, found) ↦ ground (
      arith,
      ok t,
      ok target,
      drop_target-IsRegistered target t (record r { watchers = erase target r.watchers }),
      lookup-erase target t r.watchers,
      lookup-insert target t (keep (λ w. not (w == client)) ws) r.watchers,
      text_eq.equal_iff target t,
    )
  ]

  handle_discovery_event-IsRegistered :
      (name_of : Text → Text) (event : DiscoveryEvent Regexp) (r : XdsResolver Regexp)
      → IsRegistered r
      → IsRegistered (handle_discovery_event name_of event r)
  unfolding handle_discovery_event
  handle_discovery_event-IsRegistered name_of event r ok t =
      let (ws, apps) =
        reconcile_subscriptions_frame (record r { resources = store_event event r.resources }) in
      ground (arith, ws, apps, ok t)

  call-IsRegistered :
      (name_of : Text → Text) (o : Call Regexp) (r : XdsResolver Regexp)
      → IsRegistered r
      → IsRegistered (call name_of o r)
  call-IsRegistered name_of (add_call factory target client) r ok =
      add_watch-IsRegistered factory target client r ok
  call-IsRegistered name_of (del_call target client) r ok =
      del_watch-IsRegistered target client r ok
  call-IsRegistered name_of (event_call event) r ok =
      handle_discovery_event-IsRegistered name_of event r ok

  calls_keep :
      (name_of : Text → Text) (os : List (Call Regexp)) (r : XdsResolver Regexp)
      → IsRegistered r
      → IsRegistered (calls name_of os r)
  calls_keep name_of [] r ok = ok
  calls_keep name_of (o ∷ os) r ok =
      calls_keep name_of os (call name_of o r) (call-IsRegistered name_of o r ok)

  -- After any calls of a new resolver, a target has watchers exactly if it has an app, also where
  -- calls of AddWatch have failed.
  pub calls-IsRegistered :
      (name_of : Text → Text) (os : List (Call Regexp)) (service_map : Dict Text Text) (t : Text)
      → is_some (lookup t (calls name_of os (new_resolver service_map)).watchers)
        ≡ is_some (lookup t (calls name_of os (new_resolver service_map)).apps)
  unfolding new_resolver lookup
  calls-IsRegistered name_of os service_map =
      calls_keep name_of os (new_resolver service_map) (λ t. refl)

  add_watch_fails :
      (target : Text) (client : ℕ) (r : XdsResolver Regexp)
      → r.ads ≡ none
      → (add_watch start_error target client r).1 ≡ false
  unfolding add_watch
  add_watch_fails target client r h = ground arith

  -- AddWatch enters the watcher even when it returns an error, as no discovery client can be had: the
  -- watcher stays, and is told of what later calls bring.
  pub add_watch_failed :
      (target : Text) (client : ℕ) (r : XdsResolver Regexp)
      → r.ads ≡ none
      → ((add_watch start_error target client r).1 ≡ false)
        × (member client (watchers_of (add_watch start_error target client r).0.watchers target)
            ≡ true)
  add_watch_failed target client r h =
      let (ws, apps) = add_watch_frame start_error target client r in
      (
        add_watch_fails target client r h,
        ground (
          arith,
          ws,
          lookup-insert target target (add client (watchers_of r.watchers target)) r.watchers,
          member-add client client (watchers_of r.watchers target),
          (text_eq.equal_iff target target).1 refl,
          (nat_eq.equal_iff client client).1 refl,
        ),
      )
