-- ===== src/Xds/Resolver/Ads.antt =====
-- modules/xds/internal/resolver/ads.go: the client of the aggregated discovery stream. Its buffered
-- channel is a queue; a send on the channel after Close panics. The order of package slices on
-- strings is that of their bytes. The connection itself (gRPC, TLS) is not modelled.
pub mod Retries
pub mod Sends
use yggdrasil_ecosystem.Prelude.{
  ℕ, ◌+◌, ◌≤◌, Bool, true, false, not, ◌&&◌, ◌||◌, Option, none, some, List, [], ◌∷◌, ◌++◌, ltb,
  leb, ◌==◌, nat_eq, if◌then◌else◌, length,
}
use yggdrasil_ecosystem.Prelude.Text.{Text, text_eq}
use yggdrasil_ecosystem.Prelude.Dict.{Dict, lookup, insert}
use yggdrasil_ecosystem.Xds.Resource.Model.{DiscoveryEvent}
use yggdrasil_ecosystem.Xds.Resource.Decode.{Decoded, decode_error, decoded}

-- The type URLs that the client knows, and any other.
pub data TypeUrl : Type 0 where
  listener_type route_type cluster_type endpoint_type : TypeUrl
  other_type : Text → TypeUrl

pub record Subscriptions : Type 0 where
  pub lds : List Text
  pub rds : List Text
  pub cds : List Text
  pub eds : List Text

pub record TypeWatchState : Type 0 where
  pub version : Text
  pub nonce : Text

-- The fields of a DiscoveryRequest that differ between requests; the node is the same in all.
pub record DiscoveryRequest : Type 0 where
  pub type_url : TypeUrl
  pub resource_names : List Text
  pub version_info : Text
  pub response_nonce : Text
  pub error_detail : Option Text

pub data SendQueue : Type 0 where
  open_queue : List DiscoveryRequest → SendQueue
  closed panicked : SendQueue

pub record AdsClient : Type 0 where
  pub sub : Subscriptions
  pub listener_state : TypeWatchState
  pub route_state : TypeWatchState
  pub cluster_state : TypeWatchState
  pub endpoint_state : TypeWatchState
  pub other_states : Dict Text TypeWatchState
  pub queue : SendQueue
  pub retries : ℕ
  pub max_retries : ℕ
  pub is_closed : Bool

-- adsSendBufferSize
abbrev pub send_buffer_size : ℕ
send_buffer_size = 100

-- defaultADSMaxRetries
abbrev pub default_max_retries : ℕ
default_max_retries = 10

abbrev pub max_ads_retries : ℕ → ℕ
max_ads_retries n = if ltb 0 n then n else default_max_retries

-- A send with a default case: a full buffer drops the request.
unfoldable pub enqueue : DiscoveryRequest → SendQueue → SendQueue
enqueue r (open_queue rs) =
    if ltb (length rs) send_buffer_size then open_queue (rs ++ (r ∷ [])) else open_queue rs
enqueue r closed = panicked
enqueue r panicked = panicked

-- watchStateLocked: a type without a state has the empty one.
abbrev no_state : TypeWatchState
no_state = record { version = []; nonce = [] }

unfoldable pub watch_state : TypeUrl → AdsClient → TypeWatchState
watch_state listener_type c = c.listener_state
watch_state route_type c = c.route_state
watch_state cluster_type c = c.cluster_state
watch_state endpoint_type c = c.endpoint_state
watch_state (other_type t) c = elim (lookup t c.other_states) [ none ↦ no_state | some s ↦ s ]

unfoldable pub set_watch_state : TypeUrl → TypeWatchState → AdsClient → AdsClient
set_watch_state listener_type s c = record c { listener_state = s }
set_watch_state route_type s c = record c { route_state = s }
set_watch_state cluster_type s c = record c { cluster_state = s }
set_watch_state endpoint_type s c = record c { endpoint_state = s }
set_watch_state (other_type t) s c = record c { other_states = insert t s c.other_states }

-- resourceNamesLocked
unfoldable pub resource_names : TypeUrl → Subscriptions → List Text
resource_names listener_type sub = sub.lds
resource_names route_type sub = sub.rds
resource_names cluster_type sub = sub.cds
resource_names endpoint_type sub = sub.eds
resource_names (other_type t) sub = []

-- subscriptionTypeURLs
abbrev pub subscription_type_urls : List TypeUrl
subscription_type_urls = listener_type ∷ route_type ∷ cluster_type ∷ endpoint_type ∷ []

-- The request that sendSubscriptionRequestLocked sends.
abbrev pub subscription_request : TypeUrl → AdsClient → DiscoveryRequest
subscription_request t c = record {
  type_url = t;
  resource_names = resource_names t c.sub;
  version_info = (watch_state t c).version;
  response_nonce = (watch_state t c).nonce;
  error_detail = none;
}

unfoldable pub send_subscription_request : TypeUrl → AdsClient → AdsClient
send_subscription_request t c = record c { queue = enqueue (subscription_request t c) c.queue }

abbrev pub send_all : List TypeUrl → AdsClient → AdsClient
send_all [] c = c
send_all (t ∷ ts) c = send_all ts (send_subscription_request t c)

unfoldable pub resend_from : List TypeUrl → AdsClient → AdsClient
resend_from [] c = c
resend_from (t ∷ ts) c = elim (resource_names t c.sub) [
  | [] ↦ resend_from ts c
  | n ∷ ns ↦ resend_from ts (send_subscription_request t c)
]

-- resendSubscriptions
abbrev pub resend_subscriptions : AdsClient → AdsClient
resend_subscriptions c = resend_from subscription_type_urls c

-- The order of strings.
abbrev pub text_leb : Text → Text → Bool
text_leb [] b = true
text_leb (x ∷ a) [] = false
text_leb (x ∷ a) (y ∷ b) = ltb x y || (x == y && text_leb a b)

-- slices.Sort, which leaves equal strings as it found them, as no one can tell them apart.
abbrev pub put : Text → List Text → List Text
put n [] = n ∷ []
put n (m ∷ ms) = let rest = put n ms in if text_leb n m then n ∷ m ∷ ms else m ∷ rest

unfoldable pub sort : List Text → List Text
sort [] = []
sort (n ∷ ns) = put n (sort ns)

unfoldable pub texts_equal : List Text → List Text → Bool
texts_equal [] [] = true
texts_equal [] (y ∷ ys) = false
texts_equal (x ∷ xs) [] = false
texts_equal (x ∷ xs) (y ∷ ys) = x == y && texts_equal xs ys

unfoldable pub subscriptions_equal : Subscriptions → Subscriptions → Bool
subscriptions_equal a b =
    texts_equal a.lds b.lds
    && texts_equal a.rds b.rds
    && texts_equal a.cds b.cds
    && texts_equal a.eds b.eds

-- The names that UpdateSubscriptions has sorted.
abbrev pub sorted_names : Subscriptions → Subscriptions
sorted_names names = record {
  lds = sort names.lds;
  rds = sort names.rds;
  cds = sort names.cds;
  eds = sort names.eds;
}

-- UpdateSubscriptions
unfoldable pub update_subscriptions : Subscriptions → AdsClient → AdsClient
update_subscriptions names c =
    if subscriptions_equal c.sub (sorted_names names)
    then c
    else send_all subscription_type_urls (record c { sub = sorted_names names })

-- sendACK and sendNACK
abbrev pub answer : TypeUrl → Text → Text → Option Text → DiscoveryRequest
answer t version nonce error = record {
  type_url = t;
  resource_names = [];
  version_info = version;
  response_nonce = nonce;
  error_detail = error;
}

unfoldable pub send_ack : TypeUrl → Text → Text → AdsClient → AdsClient
send_ack t version nonce c = record c { queue = enqueue (answer t version nonce none) c.queue }

unfoldable pub send_nack : TypeUrl → Text → Text → Text → AdsClient → AdsClient
send_nack t version nonce message c = record c {
  queue = enqueue (answer t version nonce (some message)) c.queue;
}

-- Close, which runs once.
unfoldable pub close : AdsClient → AdsClient
close c = if c.is_closed then c else record c { queue = closed; is_closed = true }

pub record DiscoveryResponse (Regexp : Type 0) : Type 0 where
  pub type_url : TypeUrl
  pub version_info : Text
  pub nonce : Text
  -- What DecodeDiscoveryResponse returns for its resources.
  pub content : Decoded Regexp

-- The loop over the events, whose handler may subscribe through the client.
unfoldable pub handle_all {ℓ} :
    {Regexp : Type 0} {S : Type ℓ}
    → (DiscoveryEvent Regexp → S × AdsClient → S × AdsClient)
    → List (DiscoveryEvent Regexp)
    → S × AdsClient
    → S × AdsClient
handle_all handle [] s = s
handle_all handle (e ∷ es) s = handle_all handle es (handle e s)

-- handleResponse
unfoldable pub handle_response {ℓ} :
    {Regexp : Type 0} {S : Type ℓ}
    → (DiscoveryEvent Regexp → S × AdsClient → S × AdsClient)
    → DiscoveryResponse Regexp
    → S × AdsClient
    → S × AdsClient
handle_response handle resp (s, c) = elim resp.content [
  | decode_error message ↦ (s, send_nack resp.type_url resp.version_info resp.nonce message c)
  | decoded events ↦
      let (s', c') = handle_all handle events (s, c) in
      let seen =
        set_watch_state resp.type_url (record { version = resp.version_info; nonce = resp.nonce })
          c' in
      (s', send_ack resp.type_url resp.version_info resp.nonce seen)
]
