-- ===== src/Xds/Resolver/Tests.antt =====
-- The resolver's theorems at a small mesh: one app whose listener routes to one cluster.
use mathlib.Core.List.{Permᴰ}
use yggdrasil_ecosystem.Prelude.{
  any, ◌≡◌, refl, true, false, ◌==◌, nat_eq, Option, some, none, List, [], ◌∷◌, leb,
}
use yggdrasil_ecosystem.Prelude.Text.{Text, text_eq, text_beq, codes}
use yggdrasil_ecosystem.Prelude.Dict.{Dict, lookup, insert, member, add}
use yggdrasil_ecosystem.Xds.Resource.Model.{VirtualHost, listener_added, route_added}
use yggdrasil_ecosystem.Xds.Resolver.State.{
  AppInfo, Resources, collect_subscription_names, cluster_names_from, cluster_names_for_app,
  route_of_listener, route_cluster_names, add_action,
}
use yggdrasil_ecosystem.Xds.Resolver.Names.{
  listener_routes, listener_uses, collect_subscription_names_exact,
}
use yggdrasil_ecosystem.Xds.Resolver.Ads.{
  max_ads_retries, Subscriptions, TypeWatchState, open_queue, AdsClient, sort, texts_equal,
  sorted_names, subscriptions_equal, update_subscriptions,
}
use yggdrasil_ecosystem.Xds.Resolver.Ads.Retries.{
  run, failures, new_runner, allowed_failures, run-failures,
}
use yggdrasil_ecosystem.Xds.Resolver.Ads.Sends.{IsReordered, update_subscriptions_reordered}
use yggdrasil_ecosystem.Xds.Resolver.Core.{
  XdsResolver, started, subscriptions_of, add_watch, drop_target, new_resolver, Call, add_call,
  del_call, event_call, calls, reconcile_subscriptions, handle_discovery_event, del_watch,
}
use yggdrasil_ecosystem.Xds.Resolver.Core.Watches.{calls-IsSubscribed}

abbrev shop : Text
shop = codes "shop"

abbrev cart : Text
cart = codes "cart"

abbrev cart_vhost : VirtualHost Text
cart_vhost = record {
  name = shop;
  domains = codes "*" ∷ [];
  routes =
      record { match = none; action = some (record { cluster = cart; weighted_clusters = none }) }
      ∷ [];
}

abbrev mesh : Resources Text
mesh = record {
  listeners = (shop, record { route = codes "r" }) ∷ [];
  routes = (codes "r", record { vhosts = cart_vhost ∷ [] }) ∷ [];
  clusters = [];
  endpoints = [];
}

abbrev app : AppInfo
app = record { listeners = shop ∷ [] }

abbrev apps : Dict Text AppInfo
apps = (shop, app) ∷ []

collect_subscription_names_exact_example :
    (member cart (collect_subscription_names mesh apps).lds
      ≡ any (λ a. any (λ l. l == cart) a.1.listeners) apps)
    × (member cart (collect_subscription_names mesh apps).rds
        ≡ any (λ a. any (listener_routes cart mesh) a.1.listeners) apps)
    × (member cart (collect_subscription_names mesh apps).cds
        ≡ any (λ a. any (listener_uses cart mesh) a.1.listeners) apps)
collect_subscription_names_exact_example = collect_subscription_names_exact cart mesh apps

no_unnamed_route : lookup [] mesh.routes ≡ none
unfolding lookup text_beq
no_unnamed_route = refl

shop_is_known : lookup shop apps ≡ some app
unfolding lookup text_beq
shop_is_known = refl

cart_told : member cart (cluster_names_for_app mesh app) ≡ true
unfolding member add cluster_names_for_app cluster_names_from route_of_listener route_cluster_names
    add_action lookup text_beq
cart_told = refl

abbrev no_names : Subscriptions
no_names = record { lds = []; rds = []; cds = []; eds = [] }

abbrev no_watch_state : TypeWatchState
no_watch_state = record { version = []; nonce = [] }

abbrev new_client : AdsClient
new_client = record {
  sub = no_names;
  listener_state = no_watch_state;
  route_state = no_watch_state;
  cluster_state = no_watch_state;
  endpoint_state = no_watch_state;
  other_states = [];
  queue = open_queue [];
  retries = 0;
  max_retries = 10;
  is_closed = false;
}

abbrev shop_names : Subscriptions
shop_names = record { lds = shop ∷ cart ∷ []; rds = []; cds = []; eds = [] }

abbrev turned_names : Subscriptions
turned_names = record { lds = cart ∷ shop ∷ []; rds = []; cds = []; eds = [] }

shop_names_new : subscriptions_equal no_names (sorted_names shop_names) ≡ false
unfolding subscriptions_equal texts_equal sort text_beq
shop_names_new = refl

shop_names-IsReordered : IsReordered shop_names turned_names
shop_names-IsReordered = record {
  lds = Permᴰ.swap refl refl;
  rds = Permᴰ.nil;
  cds = Permᴰ.nil;
  eds = Permᴰ.nil;
}

update_subscriptions_reordered_example :
    update_subscriptions turned_names (update_subscriptions shop_names new_client)
    ≡ update_subscriptions shop_names new_client
update_subscriptions_reordered_example =
    update_subscriptions_reordered shop_names turned_names new_client shop_names-IsReordered

run-failures_example :
    (run (failures 11) (new_runner (max_ads_retries 0))).running ≡ leb 11 (allowed_failures 0)
run-failures_example = run-failures 11 0

-- A watch, a listener, and the watch of another target that fails to be one.
abbrev history : List (Call Text)
history =
    add_call (started new_client) shop 1
    ∷ event_call (listener_added shop (record { route = codes "r" }))
    ∷ event_call (route_added (codes "r") (record { vhosts = cart_vhost ∷ [] }))
    ∷ del_call cart 2
    ∷ []

abbrev itself : Text → Text
itself name = name

abbrev after : XdsResolver Text
after = calls itself history (new_resolver [])

-- The client that the calls leave.
abbrev client_after : Option AdsClient → AdsClient
client_after none = new_client
client_after (some c) = c

has_client : after.ads ≡ some (client_after after.ads)
unfolding add_watch del_watch drop_target handle_discovery_event reconcile_subscriptions
    new_resolver lookup insert text_beq
has_client = refl

calls-IsSubscribed_example :
    (client_after after.ads).sub
    ≡ sorted_names (subscriptions_of (collect_subscription_names after.resources after.apps))
calls-IsSubscribed_example =
    calls-IsSubscribed itself history [] (client_after after.ads) has_client
