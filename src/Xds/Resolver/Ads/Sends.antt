-- ===== src/Xds/Resolver/Ads/Sends.antt =====
-- modules/xds/internal/resolver/ads.go: which requests are sent.
use mathlib.Core.List.{Permᴰ, append_assoc, append-nil}
use yggdrasil_ecosystem.Prelude.{
  ◌+◌, ◌≤◌, ◌<◌, ◌≡◌, refl, sym, ap, ◌∙◌, true, false, ◌||◌, Bool-cases, inl, inr, List, [], ◌∷◌,
  ◌++◌, map, arith, nat_eq, length, length-append,
}
use yggdrasil_ecosystem.Prelude.Text.{Text, text_eq}
use yggdrasil_ecosystem.Xds.Resolver.Ads.{
  AdsClient, DiscoveryRequest, TypeUrl, listener_type, route_type, cluster_type, endpoint_type,
  Subscriptions, SendQueue, open_queue, panicked, text_leb, put, sort, texts_equal, sorted_names,
  subscriptions_equal, update_subscriptions, send_ack, send_nack, close, enqueue,
  send_subscription_request, subscription_type_urls, send_all, other_type, watch_state,
  subscription_request, send_buffer_size,
}

text_leb_total : (a b : Text) → (text_leb a b || text_leb b a) ≡ true
text_leb_total [] b = refl
text_leb_total (x ∷ a) [] = refl
text_leb_total (x ∷ a) (y ∷ b) = ground (arith, text_leb_total a b)

text_leb_antisym : (a b : Text) → text_leb a b ≡ true → text_leb b a ≡ true → a ≡ b
text_leb_antisym [] [] h k = refl
text_leb_antisym [] (y ∷ b) h k = absurd (ground arith)
text_leb_antisym (x ∷ a) [] h k = absurd (ground arith)
text_leb_antisym (x ∷ a) (y ∷ b) h k =
    let same = text_leb_antisym a b (ground arith) (ground arith) in
    let first : x ≡ y = ground arith in ap (λ c. x ∷ c) same ∙ ap (λ z. z ∷ b) first

text_leb_trans : (a b c : Text) → text_leb a b ≡ true → text_leb b c ≡ true → text_leb a c ≡ true
text_leb_trans [] b c h k = refl
text_leb_trans (x ∷ a) [] c h k = absurd (ground arith)
text_leb_trans (x ∷ a) (y ∷ b) [] h k = absurd (ground arith)
text_leb_trans (x ∷ a) (y ∷ b) (z ∷ c) h k = ground (arith, text_leb_trans a b c)

put-put_lt :
    (a b : Text) (xs : List Text)
    → text_leb a b ≡ true
    → text_leb b a ≡ false
    → put a (put b xs) ≡ put b (put a xs)
put-put_lt a b [] h k = ground arith
put-put_lt a b (x ∷ xs) h k = ground (
  arith,
  put-put_lt a b xs h k,
  text_leb_trans a b x,
  text_leb_trans b x a,
  text_leb_trans x b a,
  text_leb_total b x,
  text_leb_total a x,
)

-- The order in which two names come does not matter.
put-put : (a b : Text) (xs : List Text) → put a (put b xs) ≡ put b (put a xs)
put-put a b xs = elim (Bool-cases (text_leb a b)) [
  | inr after ↦ sym (put-put_lt b a xs (ground (arith, text_leb_total a b)) after)
  | inl before ↦ elim (Bool-cases (text_leb b a)) [
    | inr strictly ↦ put-put_lt a b xs before strictly
    | inl both ↦
        let same = text_leb_antisym a b before both in
        ap (λ c. put a (put c xs)) (sym same) ∙ ap (λ c. put c (put a xs)) same
  ]
]

sort_perm : {xs ys : List Text} → Permᴰ xs ys → sort xs ≡ sort ys
unfolding sort
sort_perm Permᴰ.nil = refl
sort_perm (Permᴰ.cons {a = a} {l₂ = ys} e d) =
    ap (put a) (sort_perm d) ∙ ap (λ b. put b (sort ys)) e
sort_perm (Permᴰ.swap {a = a} {b = b} {a' = a'} {l = xs} e d) =
    put-put a b (sort xs)
    ∙ ap (λ c. put c (put a (sort xs))) d
    ∙ ap (λ c. put a' (put c (sort xs))) e
sort_perm (Permᴰ.trans d d') = sort_perm d ∙ sort_perm d'

texts_equal_refl : (xs : List Text) → texts_equal xs xs ≡ true
unfolding texts_equal
texts_equal_refl [] = refl
texts_equal_refl (x ∷ xs) = ground (arith, texts_equal_refl xs, (text_eq.equal_iff x x).1 refl)

subscriptions_equal_refl : (sub : Subscriptions) → subscriptions_equal sub sub ≡ true
unfolding subscriptions_equal
subscriptions_equal_refl sub = ground (
  arith,
  texts_equal_refl sub.lds,
  texts_equal_refl sub.rds,
  texts_equal_refl sub.cds,
  texts_equal_refl sub.eds,
)

texts_equal-eq : (xs ys : List Text) → texts_equal xs ys ≡ true → xs ≡ ys
unfolding texts_equal
texts_equal-eq [] [] h = refl
texts_equal-eq [] (y ∷ ys) h = absurd (ground arith)
texts_equal-eq (x ∷ xs) [] h = absurd (ground arith)
texts_equal-eq (x ∷ xs) (y ∷ ys) h =
    let first = (text_eq.equal_iff x y).0 (ground arith) in
    let rest = texts_equal-eq xs ys (ground arith) in
    ap (λ z. z ∷ xs) first ∙ ap (λ zs. y ∷ zs) rest

subscriptions_equal-eq : (a b : Subscriptions) → subscriptions_equal a b ≡ true → a ≡ b
unfolding subscriptions_equal
subscriptions_equal-eq a b h =
    let lds = texts_equal-eq a.lds b.lds (ground arith) in
    let rds = texts_equal-eq a.rds b.rds (ground arith) in
    let cds = texts_equal-eq a.cds b.cds (ground arith) in
    let eds = texts_equal-eq a.eds b.eds (ground arith) in cc

-- After an update the client's names are the sorted ones.
pub update_subscriptions-sub :
    (names : Subscriptions) (c : AdsClient)
    → (update_subscriptions names c).sub ≡ sorted_names names
unfolding update_subscriptions send_subscription_request
update_subscriptions-sub names c =
    elim (Bool-cases (subscriptions_equal c.sub (sorted_names names))) [
      | inl same ↦ rw same (subscriptions_equal-eq c.sub (sorted_names names) same)
      | inr new ↦ rw new
    ]

update_subscriptions_same :
    (names : Subscriptions) (c : AdsClient)
    → c.sub ≡ sorted_names names
    → update_subscriptions names c ≡ c
unfolding update_subscriptions
update_subscriptions_same names c h = ground (arith, subscriptions_equal_refl (sorted_names names))

-- The same names, each list in an order of its own.
pub record IsReordered (a b : Subscriptions) : Type 0 where
  pub lds : Permᴰ a.lds b.lds
  pub rds : Permᴰ a.rds b.rds
  pub cds : Permᴰ a.cds b.cds
  pub eds : Permᴰ a.eds b.eds

sorted_names_perm : (a b : Subscriptions) → IsReordered a b → sorted_names a ≡ sorted_names b
sorted_names_perm a b p =
    let lds = sort_perm p.lds in
    let rds = sort_perm p.rds in let cds = sort_perm p.cds in let eds = sort_perm p.eds in cc

-- After an update, one with the same names, each list in any order, changes nothing and sends
-- nothing.
pub update_subscriptions_reordered :
    (names names' : Subscriptions) (c : AdsClient)
    → IsReordered names names'
    → update_subscriptions names' (update_subscriptions names c) ≡ update_subscriptions names c
update_subscriptions_reordered names names' c p =
    update_subscriptions_same names' (update_subscriptions names c)
      (update_subscriptions-sub names c ∙ sorted_names_perm names names' p)

enqueue_room :
    (r : DiscoveryRequest) (rs : List DiscoveryRequest)
    → length rs < send_buffer_size
    → enqueue r (open_queue rs) ≡ open_queue (rs ++ (r ∷ []))
unfolding enqueue
enqueue_room r rs h = ground arith

enqueue_full :
    (r : DiscoveryRequest) (rs : List DiscoveryRequest)
    → send_buffer_size ≤ length rs
    → enqueue r (open_queue rs) ≡ open_queue rs
unfolding enqueue
enqueue_full r rs h = ground arith

-- The queue is no part of a request.
request_frame :
    (t : TypeUrl) (c : AdsClient) (q : SendQueue)
    → subscription_request t (record c { queue = q }) ≡ subscription_request t c
unfolding watch_state
request_frame listener_type c q = refl
request_frame route_type c q = refl
request_frame cluster_type c q = refl
request_frame endpoint_type c q = refl
request_frame (other_type t) c q = refl

requests_frame :
    (ts : List TypeUrl) (c : AdsClient) (q : SendQueue)
    → map (λ t. subscription_request t (record c { queue = q })) ts
      ≡ map (λ t. subscription_request t c) ts
requests_frame [] c q = refl
requests_frame (t ∷ ts) c q = ap2 (request_frame t c q) (requests_frame ts c q)
  where
    ap2 :
        {r r' : DiscoveryRequest} {rs rs' : List DiscoveryRequest}
        → r ≡ r'
        → rs ≡ rs'
        → r ∷ rs ≡ r' ∷ rs'
    ap2 e d = λ i. e i ∷ d i

send_all_full :
    (ts : List TypeUrl) (c : AdsClient) (rs : List DiscoveryRequest)
    → c.queue ≡ open_queue rs
    → send_buffer_size ≤ length rs
    → (send_all ts c).queue ≡ open_queue rs
unfolding send_subscription_request
send_all_full [] c rs q h = q
send_all_full (t ∷ ts) c rs q h =
    send_all_full ts (send_subscription_request t c) rs
      (ap (enqueue (subscription_request t c)) q ∙ enqueue_full (subscription_request t c) rs h) h

send_all_room :
    (ts : List TypeUrl) (c : AdsClient) (rs : List DiscoveryRequest)
    → c.queue ≡ open_queue rs
    → length rs + length ts ≤ send_buffer_size
    → (send_all ts c).queue ≡ open_queue (rs ++ map (λ t. subscription_request t c) ts)
unfolding send_subscription_request
send_all_room [] c rs q h = q ∙ ap open_queue (sym (append-nil rs))
send_all_room (t ∷ ts) c rs q h =
    let r = subscription_request t c in
    let here = ap (enqueue r) q ∙ enqueue_room r rs (omega arith) in
    send_all_room ts (send_subscription_request t c) (rs ++ (r ∷ [])) here
      (omega (arith, length-append rs (r ∷ [])))
    ∙ ap (λ later. open_queue ((rs ++ (r ∷ [])) ++ later)) (requests_frame ts c (enqueue r c.queue))
    ∙ ap open_queue (append_assoc rs (r ∷ []) (map (λ t. subscription_request t c) ts))

-- An update with new names sends a request for each of the four types, with the sorted names of the
-- type and its last version and nonce, provided the channel is open and its buffer has room for
-- four.
pub update_subscriptions_sends :
    (names : Subscriptions) (c : AdsClient) (rs : List DiscoveryRequest)
    → c.queue ≡ open_queue rs
    → length rs + 4 ≤ send_buffer_size
    → subscriptions_equal c.sub (sorted_names names) ≡ false
    → (update_subscriptions names c).queue
      ≡ open_queue (
          rs
          ++ map
              (λ t. subscription_request t (record c { sub = sorted_names names }))
              subscription_type_urls)
unfolding update_subscriptions
update_subscriptions_sends names c rs q room new = rw new (
    send_all_room subscription_type_urls (record c { sub = sorted_names names }) rs q (omega arith))

update_subscriptions_full :
    (names : Subscriptions) (c : AdsClient) (rs : List DiscoveryRequest)
    → c.queue ≡ open_queue rs
    → send_buffer_size ≤ length rs
    → (update_subscriptions names c).queue ≡ open_queue rs
unfolding update_subscriptions
update_subscriptions_full names c rs q full =
    elim (Bool-cases (subscriptions_equal c.sub (sorted_names names))) [
      | inl same ↦ rw same q
      | inr new ↦
          rw new
            (send_all_full subscription_type_urls (record c { sub = sorted_names names }) rs q full)
    ]

-- With an open channel whose buffer is full, an update sends nothing, and takes its names as sent:
-- the same update later, whatever the buffer then holds, sends nothing either.
pub update_subscriptions_dropped :
    (names : Subscriptions) (c : AdsClient) (rs rs' : List DiscoveryRequest)
    → c.queue ≡ open_queue rs
    → send_buffer_size ≤ length rs
    → ((update_subscriptions names c).queue ≡ open_queue rs)
      × (update_subscriptions names
            (record (update_subscriptions names c) { queue = open_queue rs' })
          ≡ record (update_subscriptions names c) { queue = open_queue rs' })
update_subscriptions_dropped names c rs rs' q full = (
  update_subscriptions_full names c rs q full,
  update_subscriptions_same names (record (update_subscriptions names c) { queue = open_queue rs' })
      (update_subscriptions-sub names c),
)

-- After Close of an open client, an answer to a response, positive or negative, is a send on a
-- closed channel, which panics.
pub close_answers :
    (t : TypeUrl) (version nonce message : Text) (c : AdsClient)
    → c.is_closed ≡ false
    → ((send_ack t version nonce (close c)).queue ≡ panicked)
      × ((send_nack t version nonce message (close c)).queue ≡ panicked)
unfolding send_ack send_nack close enqueue
close_answers t version nonce message c h = (rw h, rw h)
