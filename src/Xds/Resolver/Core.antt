-- ===== src/Xds/Resolver/Core.antt =====
-- modules/xds/internal/resolver/core.go: the resolver's watches and the resources that it keeps. The
-- watchers are clients of the framework, numbers here; a state told to one is an entry of `told`. The
-- discovery client is made by a factory that may fail, and so may its Start.
pub mod Watches
pub mod Registered
use yggdrasil_ecosystem.Prelude.{
  ℕ, ◌+◌, Bool, true, false, not, Option, none, some, List, [], ◌∷◌, ◌++◌, map, ◌==◌, nat_eq,
  if◌then◌else◌, keep,
}
use yggdrasil_ecosystem.Prelude.Text.{Text, text_eq}
use yggdrasil_ecosystem.Prelude.Dict.{Dict, lookup, insert, erase, member, add}
use yggdrasil_ecosystem.Xds.Resource.Model.{
  ListenerSnapshot, RouteSnapshot, ClusterSnapshot, EdsSnapshot, VirtualHost, ClusterPolicy,
  DiscoveryEvent, listener_added, route_added, cluster_added, endpoint_added,
}
use yggdrasil_ecosystem.Xds.Traffic.Balancer.{ResolverEndpoint}
use yggdrasil_ecosystem.Xds.Resolver.State.{
  AppInfo, Resources, NameSets, collect_subscription_names, build_resolver_endpoints,
  build_route_config, build_cluster_map,
}
use yggdrasil_ecosystem.Xds.Resolver.Ads.{AdsClient, Subscriptions, update_subscriptions}
use yggdrasil_ecosystem.Xds.Resolver.Ads as Ads

-- The state that notifyApps tells.
pub record ResolverState (Regexp : Type 0) : Type 0 where
  pub endpoints : List ResolverEndpoint
  pub routes : List (VirtualHost Regexp)
  pub clusters : Dict Text ClusterPolicy

pub record Told (Regexp : Type 0) : Type 0 where
  pub watcher : ℕ
  pub state : ResolverState Regexp

-- xdsResolver with its xdsCore.
pub record XdsResolver (Regexp : Type 0) : Type 0 where
  pub service_map : Dict Text Text
  pub watchers : Dict Text (List ℕ)
  pub apps : Dict Text AppInfo
  pub resources : Resources Regexp
  pub ads : Option AdsClient
  -- The clients that DelWatch has closed; their goroutines may still run.
  pub retired : List AdsClient
  pub told : List (Told Regexp)

-- What the factory and Start make of a new client.
pub data Factory : Type 0 where
  factory_error start_error : Factory
  started : AdsClient → Factory

abbrev pub watchers_of : Dict Text (List ℕ) → Text → List ℕ
watchers_of watchers target = elim (lookup target watchers) [ none ↦ [] | some ws ↦ ws ]

abbrev pub listener_name : Dict Text Text → Text → Text
listener_name service_map target = elim (lookup target service_map) [
  | none ↦ target
  | some name ↦ name
]

abbrev pub subscriptions_of : NameSets → Subscriptions
subscriptions_of names = record {
  lds = names.lds;
  rds = names.rds;
  cds = names.cds;
  eds = names.cds;
}

-- ensureAppLocked, and the listener that AddWatch adds to the app.
unfoldable pub add_listener : Text → Text → Dict Text AppInfo → Dict Text AppInfo
add_listener target listener apps = elim (lookup target apps) [
  | none ↦ insert target (record { listeners = listener ∷ [] }) apps
  | some app ↦ insert target (record { listeners = add listener app.listeners }) apps
]

module _ {Regexp : Type 0} where
  -- reconcileSubscriptions
  unfoldable pub reconcile_subscriptions : XdsResolver Regexp → XdsResolver Regexp
  reconcile_subscriptions r = elim r.ads [
    | none ↦ r
    | some c ↦ record r {
      ads = some (
          update_subscriptions (subscriptions_of (collect_subscription_names r.resources r.apps))
            c);
    }
  ]

  -- AddWatch: whether it returns an error, and the resolver after it.
  unfoldable pub add_watch : Factory → Text → ℕ → XdsResolver Regexp → XdsResolver Regexp × Bool
  add_watch factory target client r =
      let r' = record r {
        watchers = insert target (add client (watchers_of r.watchers target)) r.watchers;
        apps = add_listener target (listener_name r.service_map target) r.apps;
      } in
      elim r'.ads [
        | some c ↦ (reconcile_subscriptions r', true)
        | none ↦ elim factory [
          | factory_error ↦ (r', false)
          | start_error ↦ (r', false)
          | started c ↦ (reconcile_subscriptions (record r' { ads = some c }), true)
        ]
      ]

  -- DelWatch from the removal of the app on.
  unfoldable pub drop_target : Text → XdsResolver Regexp → XdsResolver Regexp
  drop_target target r =
      let r' = reconcile_subscriptions (record r { apps = erase target r.apps }) in
      elim r'.watchers [
        | w ∷ ws ↦ r'
        | [] ↦ elim r'.ads [
          | none ↦ r'
          | some c ↦ record r' { ads = none; retired = Ads.close c ∷ r'.retired }
        ]
      ]

  -- DelWatch, which returns no error.
  unfoldable pub del_watch : Text → ℕ → XdsResolver Regexp → XdsResolver Regexp
  del_watch target client r = elim (lookup target r.watchers) [
    | none ↦ drop_target target r
    | some ws ↦ elim (keep (λ w. not (w == client)) ws) [
      | [] ↦ drop_target target (record r { watchers = erase target r.watchers })
      | w ∷ ws' ↦ record r { watchers = insert target (w ∷ ws') r.watchers }
    ]
  ]

  -- notifyApps over the apps, each for all of its watchers.
  abbrev state_of : (Text → Text) → Resources Regexp → AppInfo → ResolverState Regexp
  state_of name_of c app = record {
    endpoints = build_resolver_endpoints name_of c app;
    routes = build_route_config c app.listeners;
    clusters = build_cluster_map c app;
  }

  unfoldable pub tell_apps :
      (Text → Text) → Resources Regexp → Dict Text (List ℕ) → Dict Text AppInfo → List (Told Regexp)
  tell_apps name_of c watchers [] = []
  tell_apps name_of c watchers ((target, app) ∷ apps) =
      map (λ w. record { watcher = w; state = state_of name_of c app })
        (watchers_of watchers target)
      ++ tell_apps name_of c watchers apps

  unfoldable pub store_event : DiscoveryEvent Regexp → Resources Regexp → Resources Regexp
  store_event (listener_added n l) c = record c { listeners = insert n l c.listeners }
  store_event (route_added n s) c = record c { routes = insert n s c.routes }
  store_event (cluster_added n s) c = record c { clusters = insert n s c.clusters }
  store_event (endpoint_added n s) c = record c { endpoints = insert n s c.endpoints }

  -- handleDiscoveryEvent
  unfoldable pub handle_discovery_event :
      (Text → Text) → DiscoveryEvent Regexp → XdsResolver Regexp → XdsResolver Regexp
  handle_discovery_event name_of event r =
      let r' = reconcile_subscriptions (record r { resources = store_event event r.resources }) in
      record r' { told = r'.told ++ tell_apps name_of r'.resources r'.watchers r'.apps }

  -- NewResolver
  unfoldable pub new_resolver : Dict Text Text → XdsResolver Regexp
  new_resolver service_map = record {
    service_map = service_map;
    watchers = [];
    apps = [];
    resources = record { listeners = []; routes = []; clusters = []; endpoints = [] };
    ads = none;
    retired = [];
    told = [];
  }

-- A call of the resolver by the framework or by its discovery client. Each holds the resolver's lock.
pub data Call (Regexp : Type 0) : Type 0 where
  add_call : Factory → Text → ℕ → Call Regexp
  del_call : Text → ℕ → Call Regexp
  event_call : DiscoveryEvent Regexp → Call Regexp

module _ {Regexp : Type 0} (name_of : Text → Text) where
  abbrev pub call : Call Regexp → XdsResolver Regexp → XdsResolver Regexp
  call (add_call factory target client) r = (add_watch factory target client r).0
  call (del_call target client) r = del_watch target client r
  call (event_call event) r = handle_discovery_event name_of event r

  abbrev pub calls : List (Call Regexp) → XdsResolver Regexp → XdsResolver Regexp
  calls [] r = r
  calls (o ∷ os) r = calls os (call o r)
