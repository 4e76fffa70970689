-- ===== src/Xds/Resource/Match/Tests.antt =====
-- The matching theorems at concrete hosts and routes. The text of a regular expression stands for the
-- expression, and it matches where it is contained.
use yggdrasil_ecosystem.Prelude.{◌≡◌, ◌⊎◌, Bool, some, none, List, [], ◌∷◌, arith, All}
use yggdrasil_ecosystem.Prelude.Text.{Text, codes, contains, lower, is_space}
use yggdrasil_ecosystem.Prelude.Dict.{Dict}
use yggdrasil_ecosystem.Xds.Resource.Model.{RouteMatch, Route, VirtualHost, RouteAction}
use yggdrasil_ecosystem.Xds.Resource.Match.{
  select_virtual_host, request_host, match_route, virtual_host_score,
}
use yggdrasil_ecosystem.Xds.Resource.Match.Host.{IsHostByte, IsAddressByte}
use yggdrasil_ecosystem.Xds.Resource.Match.Laws.{
  IsBest, Serves, FirstHit, select_virtual_host-IsBest, match_route_sound,
}

abbrev shop : Text
shop = codes "shop"

abbrev port : Text
port = codes "80"

abbrev loopback : Text
loopback = codes "::1"

shop-IsHostByte : All IsHostByte shop
unfolding lower is_space
shop-IsHostByte = ground arith

port-IsHostByte : All IsHostByte port
unfolding lower is_space
port-IsHostByte = ground arith

loopback-IsAddressByte : All IsAddressByte loopback
unfolding lower is_space
loopback-IsAddressByte = ground arith

abbrev cart_match : RouteMatch Text
cart_match = record {
  prefix = codes "/cart";
  path = [];
  suffix = [];
  contains = [];
  regex = none;
  headers = [];
}

abbrev cart_action : RouteAction
cart_action = record { cluster = codes "cart"; weighted_clusters = none }

abbrev cart_route : Route Text
cart_route = record { match = some cart_match; action = some cart_action }

abbrev star_vhost : VirtualHost Text
star_vhost = record { name = codes "all"; domains = codes "*" ∷ []; routes = [] }

abbrev shop_vhost : VirtualHost Text
shop_vhost = record { name = shop; domains = shop ∷ []; routes = cart_route ∷ [] }

abbrev vhosts : List (VirtualHost Text)
vhosts = star_vhost ∷ shop_vhost ∷ []

abbrev headers : Dict Text Text
headers = (codes "host", codes "shop:80") ∷ []

abbrev regexp_contains : Text → Text → Bool
regexp_contains expression text = contains text expression

select_virtual_host-IsBest_example :
    ((select_virtual_host Text regexp_contains vhosts shop ≡ none)
      × All (λ w. virtual_host_score Text regexp_contains w shop ≡ 0) vhosts)
    ⊎ ((v : VirtualHost Text) × (select_virtual_host Text regexp_contains vhosts shop ≡ some v)
        × IsBest Text regexp_contains shop vhosts v)
select_virtual_host-IsBest_example = select_virtual_host-IsBest Text regexp_contains vhosts shop

match_route_sound_example :
    (v : VirtualHost Text) × Serves Text regexp_contains (request_host headers) vhosts v
    × FirstHit Text regexp_contains v.routes
        (codes "/cart/1")
        headers
        (match_route Text regexp_contains vhosts (codes "/cart/1") headers)
match_route_sound_example =
    match_route_sound Text regexp_contains vhosts (codes "/cart/1") headers (λ e. cc)
