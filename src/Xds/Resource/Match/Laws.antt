-- ===== src/Xds/Resource/Match/Laws.antt =====
-- Which virtual host and which route serve a request.
use yggdrasil_ecosystem.Prelude.{
  ℕ, ◌≤◌, ◌<◌, ◌≡◌, ◌≢◌, refl, ap, ◌⊎◌, inl, inr, Bool, true, false, Option, none, some, List, [],
  ◌∷◌, ◌++◌, arith, ltb, All, Bool-cases, ltb→lt, All-map,
}
use yggdrasil_ecosystem.Prelude.Text.{Text, text_eq}
use yggdrasil_ecosystem.Prelude.Dict.{Dict}
use yggdrasil_ecosystem.Xds.Resource.Model.{Route, VirtualHost, RouteAction}
use yggdrasil_ecosystem.Xds.Resource.Match.{
  virtual_host_score, select_from, select_virtual_host, request_host, matches, first_route,
  match_route,
}

module _ (Regexp : Type 0) (match_string : Regexp → Text → Bool) where
  abbrev score : VirtualHost Regexp → Text → ℕ
  score = virtual_host_score Regexp match_string

  -- A virtual host that no other beats, and that beats all before it in the list.
  pub record IsBest (host : Text) (vhosts : List (VirtualHost Regexp)) (v : VirtualHost Regexp)
      : Type 0 where
    pub before : List (VirtualHost Regexp)
    pub after : List (VirtualHost Regexp)
    pub place : vhosts ≡ before ++ v ∷ after
    pub positive : 0 < score v host
    pub beats : All (λ w. score w host < score v host) before
    pub unbeaten : All (λ w. score w host ≤ score v host) after

  -- What the loop of selectVirtualHost returns, from any best score so far.
  select_from_cases :
      (best : ℕ) (selected : Option (VirtualHost Regexp)) (vhosts : List (VirtualHost Regexp))
      (host : Text)
      → ((select_from Regexp match_string best selected vhosts host ≡ selected)
          × All (λ w. score w host ≤ best) vhosts)
        ⊎ ((v : VirtualHost Regexp) × (before after : List (VirtualHost Regexp)) × (select_from
                Regexp match_string best selected vhosts host
              ≡ some v)
            × (vhosts ≡ before ++ v ∷ after)
            × (best < score v host)
            × All (λ w. score w host < score v host) before
            × All (λ w. score w host ≤ score v host) after)
  unfolding select_from
  select_from_cases best selected [] host = inl (refl, tt)
  select_from_cases best selected (v ∷ vs) host = elim (Bool-cases (ltb best (score v host))) [
    | inl up ↦ rw up (elim (select_from_cases (score v host) (some v) vs host) [
      | inl (same, low) ↦ inr (v, [], vs, same, refl, ltb→lt best _ up, tt, low)
      | inr (u, before, after, found, place, more, beats, unbeaten) ↦ inr (
        u,
        v ∷ before,
        after,
        found,
        ap (◌∷◌ v) place,
        omega (arith, ltb→lt best (score v host) up),
        (more, beats),
        unbeaten,
      )
    ])
    | inr down ↦ rw down (elim (select_from_cases best selected vs host) [
      | inl (same, low) ↦ inl (same, (ground arith, low))
      | inr (u, before, after, found, place, more, beats, unbeaten) ↦
          inr (u, v ∷ before, after, found, ap (◌∷◌ v) place, more, (ground arith, beats), unbeaten)
    ])
  ]

  -- The selected virtual host is the first of the best score, and none is selected exactly when
  -- every score is 0.
  pub select_virtual_host-IsBest :
      (vhosts : List (VirtualHost Regexp)) (host : Text)
      → ((select_virtual_host Regexp match_string vhosts host ≡ none)
          × All (λ w. score w host ≡ 0) vhosts)
        ⊎ ((v : VirtualHost Regexp) × (select_virtual_host Regexp match_string vhosts host ≡ some v)
            × IsBest host vhosts v)
  unfolding select_virtual_host
  select_virtual_host-IsBest vhosts host = elim (select_from_cases 0 none vhosts host) [
    | inl (same, low) ↦ inl (same, All-map vhosts (λ w (h : score w host ≤ 0). omega arith) low)
    | inr (v, before, after, found, place, more, beats, unbeaten) ↦ inr (
      v,
      found,
      record {
        before = before;
        after = after;
        place = place;
        positive = more;
        beats = beats;
        unbeaten = unbeaten;
      },
    )
  ]

  -- The virtual host that serves a host name: the best, or the first where no domain matches.
  abbrev pub Serves : Text → List (VirtualHost Regexp) → VirtualHost Regexp → Type 0
  Serves host vhosts v =
      IsBest host vhosts v
      ⊎ (All (λ w. score w host ≡ 0) vhosts
          × ((rest : List (VirtualHost Regexp)) × (vhosts ≡ v ∷ rest)))

  abbrev hits : Text → Dict Text Text → Route Regexp → Bool
  hits path headers route = matches Regexp match_string route.match path headers

  -- The result of the first route that matches, or none where none does.
  abbrev pub FirstHit : List (Route Regexp) → Text → Dict Text Text → Option RouteAction → Type 0
  FirstHit routes path headers result =
      (All (λ r. hits path headers r ≡ false) routes × (result ≡ none))
      ⊎ ((route : Route Regexp) × (before after : List (Route Regexp)) × (routes
            ≡ before ++ route ∷ after)
          × All (λ r. hits path headers r ≡ false) before
          × (hits path headers route ≡ true)
          × (result ≡ route.action))

  first_route-FirstHit :
      (routes : List (Route Regexp)) (path : Text) (headers : Dict Text Text)
      → FirstHit routes path headers (first_route Regexp match_string routes path headers)
  unfolding first_route
  first_route-FirstHit [] path headers = inl (tt, refl)
  first_route-FirstHit (r ∷ rs) path headers = elim (Bool-cases (hits path headers r)) [
    | inl hit ↦ rw hit (inr (r, [], rs, refl, tt, hit, refl))
    | inr miss ↦ rw miss (elim (first_route-FirstHit rs path headers) [
      | inl (misses, e) ↦ inl ((refl, misses), e)
      | inr (route, before, after, place, misses, hit, e) ↦
          inr (route, r ∷ before, after, ap (◌∷◌ r) place, (miss, misses), hit, e)
    ])
  ]

  -- Where there are virtual hosts, a request is served by the one that its host name selects, or by
  -- the first where no domain matches, and there by the first route that matches its path and
  -- headers.
  pub match_route_sound :
      (vhosts : List (VirtualHost Regexp)) (path : Text) (headers : Dict Text Text)
      → vhosts ≢ []
      → (v : VirtualHost Regexp) × Serves (request_host headers) vhosts v
        × FirstHit v.routes path headers (match_route Regexp match_string vhosts path headers)
  unfolding match_route
  match_route_sound [] path headers n = absurd (n refl)
  match_route_sound (first ∷ vhosts) path headers n =
      elim (select_virtual_host-IsBest (first ∷ vhosts) (request_host headers)) [
        | inl (e, zero_score) ↦ (
          first,
          inr (zero_score, (vhosts, refl)),
          rw (e, match_route) (first_route-FirstHit first.routes path headers),
        )
        | inr (v, e, best) ↦
            (v, inl best, rw (e, match_route) (first_route-FirstHit v.routes path headers))
      ]
