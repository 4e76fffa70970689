-- ===== src/Xds/Resource/Match.antt =====
-- modules/xds/internal/resource/match.go. Regular expressions are those of package regexp, given by
-- their type and the result of MatchString. The pointers to virtual hosts and routes are not nil,
-- as the decoder makes them.
pub mod Host
pub mod Domains
pub mod Laws
mod Tests
use yggdrasil_ecosystem.Prelude.{
  ℕ, zero, suc, ◌+◌, Bool, true, false, not, ◌&&◌, ◌||◌, Option, none, some, List, [], ◌∷◌, ltb,
  ◌==◌, nat_eq, if◌then◌else◌,
}
use yggdrasil_ecosystem.Prelude.Text.{
  Text, text_eq, text_beq, codes, has_prefix, has_suffix, contains, count_byte, to_lower,
  trim_space, trim, cut, cut_last, has_byte,
}
use yggdrasil_ecosystem.Prelude.Dict.{Dict, lookup}
use yggdrasil_ecosystem.Xds.Resource.Model.{
  HeaderMatcher, RouteMatch, Route, VirtualHost, RouteAction,
}

-- What follows the bracket of `[host]:port`: a colon, and no colon or bracket after it.
ends_in_port : Text → Bool
ends_in_port [] = false
ends_in_port (c ∷ port) = c == b':' && (not (has_byte b':' port) && not (has_byte b']' port))

split_bracketed : Text → Option Text
unfolding ends_in_port
split_bracketed inner = elim (cut b']' inner) [
  | none ↦ none
  | some (host, after) ↦ if ends_in_port after && not (has_byte b'[' inner) then some host else none
]

split_plain : Text → Option Text
split_plain s = elim (cut_last b':' s) [
  | none ↦ none
  | some (host, port) ↦
      if not (has_byte b':' host) && (not (has_byte b'[' s) && not (has_byte b']' s))
      then some host
      else none
]

-- The host that net.SplitHostPort returns, or none for its error.
unfoldable pub split_host_port : Text → Option Text
unfolding split_bracketed split_plain
split_host_port [] = none
split_host_port (c ∷ s) = if c == b'[' then split_bracketed s else split_plain (c ∷ s)

abbrev pub is_bracket : ℕ → Bool
is_bracket c = c == b'[' || c == b']'

-- normalizeHost after the host has been lowered and trimmed.
abbrev pub strip_port : Text → Text
strip_port host = elim (split_host_port host) [
  | some parsed ↦ parsed
  | none ↦
      if count_byte b':' host == 1
      then elim (cut b':' host) [ none ↦ host | some (before, _) ↦ before ]
      else host
]

unfoldable pub normalize_host : Text → Text
normalize_host host =
    let trimmed = trim_space (to_lower host) in
    if trimmed == [] then [] else trim is_bracket (strip_port trimmed)

abbrev header_or_empty : Text → Dict Text Text → Text
header_or_empty key headers = elim (lookup key headers) [ none ↦ [] | some value ↦ value ]

unfoldable pub request_host : Dict Text Text → Text
request_host headers =
    let host = normalize_host (header_or_empty (codes ":authority") headers) in
    if host == [] then normalize_host (header_or_empty (codes "host") headers) else host

abbrev wildcard_prefix : Text
wildcard_prefix = codes "*."

abbrev wildcard_suffix : Text
wildcard_suffix = codes ".*"

-- s[1:]
abbrev rest_of : Text → Text
rest_of [] = []
rest_of (c ∷ s) = s

-- strings.TrimSuffix(s, "*")
abbrev trim_star : Text → Text
trim_star s = elim (cut_last b'*' s) [
  | none ↦ s
  | some (before, after) ↦ if after == [] then before else s
]

-- The switch of domainMatchScore, on a normalized domain.
unfoldable pub normalized_score : Text → Text → ℕ
normalized_score domain host =
    if domain == []
    then 0
    else if domain == codes "*"
    then 1
    else if host == []
    then 0
    else if domain == host
    then 4
    else if has_prefix domain wildcard_prefix
    then if has_suffix host (rest_of domain) && not (host == rest_of (rest_of domain)) then 3 else 0
    else if has_suffix domain wildcard_suffix
    then if has_prefix host (trim_star domain) then 2 else 0
    else 0

unfoldable pub domain_match_score : Text → Text → ℕ
unfolding normalized_score
domain_match_score domain host = normalized_score (normalize_host domain) host

-- The loop of virtualHostScore.
unfoldable pub best_domain : ℕ → List Text → Text → ℕ
best_domain best [] host = best
best_domain best (domain ∷ domains) host =
    let score = domain_match_score domain host in
    best_domain (if ltb best score then score else best) domains host

module _ (Regexp : Type 0) (match_string : Regexp → Text → Bool) where
  unfoldable pub virtual_host_score : VirtualHost Regexp → Text → ℕ
  unfolding best_domain
  virtual_host_score vhost host = elim vhost.domains [
    | [] ↦ if host == [] then 1 else 0
    | d ∷ ds ↦ best_domain 0 (d ∷ ds) host
  ]

  -- The loop of selectVirtualHost.
  unfoldable pub select_from :
      ℕ
      → Option (VirtualHost Regexp)
      → List (VirtualHost Regexp)
      → Text
      → Option (VirtualHost Regexp)
  select_from best selected [] host = selected
  select_from best selected (vhost ∷ vhosts) host =
      let score = virtual_host_score vhost host in
      select_from (if ltb best score then score else best)
        (if ltb best score then some vhost else selected) vhosts host

  unfoldable pub select_virtual_host :
      List (VirtualHost Regexp) → Text → Option (VirtualHost Regexp)
  select_virtual_host vhosts host = select_from 0 none vhosts host

  abbrev regex_ok : Option Regexp → Text → Bool
  regex_ok none value = true
  regex_ok (some r) value = match_string r value

  -- HeaderMatcher.matches, on a header that is there.
  abbrev pub value_matches : HeaderMatcher Regexp → Text → Bool
  value_matches h value =
      if h.present
      then true
      else if not (h.exact_match == []) && not (value == h.exact_match)
      then false
      else if not (h.prefix_match == []) && not (has_prefix value h.prefix_match)
      then false
      else if not (h.suffix_match == []) && not (has_suffix value h.suffix_match)
      then false
      else regex_ok h.regex_match value

  unfoldable pub header_matches : HeaderMatcher Regexp → Dict Text Text → Bool
  header_matches h headers = elim (lookup h.name headers) [
    | none ↦ false
    | some value ↦ value_matches h value
  ]

  unfoldable pub match_headers : List (HeaderMatcher Regexp) → Dict Text Text → Bool
  match_headers [] headers = true
  match_headers (h ∷ hs) headers = header_matches h headers && match_headers hs headers

  unfoldable pub match_path : RouteMatch Regexp → Text → Bool
  match_path m path =
      if not (m.path == [])
      then path == m.path
      else if not (m.prefix == [])
      then has_prefix path m.prefix
      else if not (m.suffix == [])
      then has_suffix path m.suffix
      else if not (m.contains == [])
      then contains path m.contains
      else regex_ok m.regex path

  unfoldable pub matches : Option (RouteMatch Regexp) → Text → Dict Text Text → Bool
  matches none path headers = true
  matches (some m) path headers = match_path m path && match_headers m.headers headers

  -- The loop of MatchRoute: the action of the first route that matches, which may be nil.
  unfoldable pub first_route : List (Route Regexp) → Text → Dict Text Text → Option RouteAction
  first_route [] path headers = none
  first_route (route ∷ routes) path headers =
      if matches route.match path headers then route.action else first_route routes path headers

  unfoldable pub match_route :
      List (VirtualHost Regexp) → Text → Dict Text Text → Option RouteAction
  match_route [] path headers = none
  match_route (first ∷ vhosts) path headers =
      elim (select_virtual_host (first ∷ vhosts) (request_host headers)) [
        | none ↦ first_route first.routes path headers
        | some vhost ↦ first_route vhost.routes path headers
      ]
