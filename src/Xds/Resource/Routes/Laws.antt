-- ===== src/Xds/Resource/Routes/Laws.antt =====
-- What a decoded route matches, and which cluster a decoded action selects.
use yggdrasil_ecosystem.Prelude.{
  ◌≡◌, ◌≢◌, refl, sym, ap, ◌∙◌, Bool, true, false, not, ◌&&◌, Option, none, some, List, [], ◌∷◌,
  arith, ◌==◌, All, map, Option-cases, inl, inr,
}
use yggdrasil_ecosystem.Prelude.Text.{Text, text_eq, text_beq, has_prefix, has_suffix}
use yggdrasil_ecosystem.Prelude.Dict.{Dict, lookup}
use yggdrasil_ecosystem.Xds.Resource.Model.{HeaderMatcher, RouteMatch}
use yggdrasil_ecosystem.Xds.Resource.Envoy.{
  PathSpecifier, prefix_path, exact_path, safe_regex, other_path, HeaderMatchSpecifier, exact_value,
  prefix_value, suffix_value, regex_value, present_value, other_value, HeaderRule, MatchRule,
}
use yggdrasil_ecosystem.Xds.Resource.Match.{
  matches, match_path, match_headers, header_matches, value_matches,
}
use yggdrasil_ecosystem.Xds.Resource.Routes.{
  compiled, parse_path, parse_header, parse_header_specifier, parse_route_match,
}

module _ (Regexp : Type 0) (match_string : Regexp → Text → Bool)
    (compile : Text → Option Regexp) where
  -- Whether a text matches a regular expression, which it does not where that does not compile.
  abbrev pub pattern_holds : Text → Text → Bool
  pattern_holds regex value = elim (compile regex) [ none ↦ false | some r ↦ match_string r value ]

  abbrev optional_holds : Option Text → Text → Bool
  optional_holds none value = false
  optional_holds (some regex) value = pattern_holds regex value

  -- What the variants of a path specifier mean. One that the decoder does not know has no meaning here.
  abbrev pub path_holds : Option PathSpecifier → Text → Bool
  path_holds none path = true
  path_holds (some (prefix_path p)) path = has_prefix path p
  path_holds (some (exact_path p)) path = path == p
  path_holds (some (safe_regex regex)) path = optional_holds regex path
  path_holds (some other_path) path = false

  -- What the variants of a header specifier mean for a header's value: a present match with false asks
  -- that the header is not there. A specifier that the decoder does not know has no meaning here.
  abbrev pub value_holds : HeaderMatchSpecifier → Text → Bool
  value_holds (exact_value v) value = value == v
  value_holds (prefix_value v) value = has_prefix value v
  value_holds (suffix_value v) value = has_suffix value v
  value_holds (regex_value regex) value = optional_holds regex value
  value_holds (present_value b) value = b
  value_holds other_value value = false

  -- What the variants mean where the header is missing.
  abbrev pub missing_holds : HeaderMatchSpecifier → Bool
  missing_holds (present_value b) = not b
  missing_holds _ = false

  abbrev pub header_holds : HeaderRule → Dict Text Text → Bool
  header_holds h headers = elim (lookup h.name headers) [
    | none ↦ missing_holds h.header_match_specifier
    | some value ↦ value_holds h.header_match_specifier value
  ]

  abbrev pub headers_hold : List HeaderRule → Dict Text Text → Bool
  headers_hold [] headers = true
  headers_hold (h ∷ hs) headers = header_holds h headers && headers_hold hs headers

  abbrev pub rule_holds : MatchRule → Text → Dict Text Text → Bool
  rule_holds m path headers = path_holds m.path_specifier path && headers_hold m.headers headers

  -- A regular expression that is given, not empty and compiles.
  unfoldable pub IsPattern : Option Text → Type 0
  IsPattern none = ⊥
  IsPattern (some regex) = (regex ≢ []) × (compile regex ≢ none)

  unfoldable pub IsPath : Option PathSpecifier → Type 0
  IsPath none = Unit
  IsPath (some (prefix_path p)) = Unit
  IsPath (some (exact_path p)) = p ≢ []
  IsPath (some (safe_regex regex)) = IsPattern regex
  IsPath (some other_path) = ⊥

  unfoldable pub IsValue : HeaderMatchSpecifier → Type 0
  IsValue (exact_value v) = v ≢ []
  IsValue (prefix_value v) = Unit
  IsValue (suffix_value v) = Unit
  IsValue (regex_value regex) = IsPattern regex
  IsValue (present_value b) = b ≡ true
  IsValue other_value = ⊥

  -- A rule without an empty exact value, whose regular expressions compile, whose present matches are
  -- true, and without a specifier that the decoder does not know.
  unfoldable pub IsRule : MatchRule → Type 0
  IsRule m = IsPath m.path_specifier × All (λ h. IsValue h.header_match_specifier) m.headers

  match_path-parse_path :
      (p : Option PathSpecifier) (path : Text)
      → IsPath p
      → match_path Regexp match_string (parse_path compile p) path ≡ path_holds p path
  unfolding match_path parse_path compiled text_beq has_prefix IsPath IsPattern
  match_path-parse_path none path ok = refl
  match_path-parse_path (some (prefix_path [])) path ok = refl
  match_path-parse_path (some (prefix_path (c ∷ p))) path ok = refl
  match_path-parse_path (some (exact_path [])) path ok = absurd (ok refl)
  match_path-parse_path (some (exact_path (c ∷ p))) path ok = refl
  match_path-parse_path (some (safe_regex none)) path ok = absurd ok
  match_path-parse_path (some (safe_regex (some []))) path ok = absurd (ok.0 refl)
  match_path-parse_path (some (safe_regex (some (c ∷ r)))) path ok = ground arith
  match_path-parse_path (some other_path) path ok = absurd ok

  -- The headers of a match have no part in its path.
  path_of :
      (m : RouteMatch Regexp) (hs : List (HeaderMatcher Regexp)) (path : Text)
      → match_path Regexp match_string (record m { headers = hs }) path
        ≡ match_path Regexp match_string m path
  unfolding match_path
  path_of m hs path = refl

  value_matches-parse_header :
      (name : Text) (s : HeaderMatchSpecifier) (value : Text)
      → IsValue s
      → value_matches Regexp match_string (parse_header_specifier compile name s) value
        ≡ value_holds s value
  unfolding parse_header_specifier compiled text_beq has_prefix has_suffix IsValue IsPattern
  value_matches-parse_header name (exact_value []) value ok = absurd (ok refl)
  value_matches-parse_header name (exact_value (c ∷ v)) value ok = ground arith
  value_matches-parse_header name (prefix_value []) value ok = refl
  value_matches-parse_header name (prefix_value (c ∷ v)) value ok = ground arith
  value_matches-parse_header name (suffix_value []) value ok = refl
  value_matches-parse_header name (suffix_value (c ∷ v)) value ok = ground arith
  value_matches-parse_header name (regex_value none) value ok = absurd ok
  value_matches-parse_header name (regex_value (some [])) value ok = absurd (ok.0 refl)
  value_matches-parse_header name (regex_value (some (c ∷ r))) value ok = ground arith
  value_matches-parse_header name (present_value true) value ok = refl
  value_matches-parse_header name (present_value false) value ok = absurd (cc ok)
  value_matches-parse_header name other_value value ok = absurd ok

  missing-IsValue : (s : HeaderMatchSpecifier) → IsValue s → missing_holds s ≡ false
  unfolding IsValue
  missing-IsValue (exact_value v) ok = refl
  missing-IsValue (prefix_value v) ok = refl
  missing-IsValue (suffix_value v) ok = refl
  missing-IsValue (regex_value regex) ok = refl
  missing-IsValue (present_value true) ok = refl
  missing-IsValue (present_value false) ok = absurd (cc ok)
  missing-IsValue other_value ok = refl

  name-parse_header :
      (name : Text) (s : HeaderMatchSpecifier) → (parse_header_specifier compile name s).name ≡ name
  unfolding parse_header_specifier
  name-parse_header name (exact_value v) = refl
  name-parse_header name (prefix_value v) = refl
  name-parse_header name (suffix_value v) = refl
  name-parse_header name (regex_value v) = refl
  name-parse_header name (present_value b) = refl
  name-parse_header name other_value = refl

  header_matches-lookup :
      (h : HeaderMatcher Regexp) (headers : Dict Text Text) (found : Option Text)
      → lookup h.name headers ≡ found
      → header_matches Regexp match_string h headers
        ≡ elim found [ none ↦ false | some value ↦ value_matches Regexp match_string h value ]
  unfolding header_matches
  header_matches-lookup h headers found e = rw (header_matches, e) refl

  header_matches-parse_header :
      (h : HeaderRule) (headers : Dict Text Text)
      → IsValue h.header_match_specifier
      → header_matches Regexp match_string (parse_header compile h) headers ≡ header_holds h headers
  unfolding parse_header
  header_matches-parse_header h headers ok =
      let named = ap (λ n. lookup n headers) (name-parse_header h.name h.header_match_specifier) in
      elim (Option-cases (lookup h.name headers)) [
        | inl missing ↦
            rw (header_holds, missing)
              (header_matches-lookup (parse_header compile h) headers none (named ∙ missing)
                ∙ sym (missing-IsValue h.header_match_specifier ok))
        | inr (value, found) ↦
            rw (header_holds, found)
              (header_matches-lookup (parse_header compile h) headers (some value) (named ∙ found)
                ∙ value_matches-parse_header h.name h.header_match_specifier value ok)
      ]

  match_headers-parse_header :
      (hs : List HeaderRule) (headers : Dict Text Text)
      → All (λ h. IsValue h.header_match_specifier) hs
      → match_headers Regexp match_string (map (parse_header compile) hs) headers
        ≡ headers_hold hs headers
  unfolding match_headers
  match_headers-parse_header [] headers ok = refl
  match_headers-parse_header (h ∷ hs) headers (ok, oks) =
      rw (header_matches-parse_header h headers ok, match_headers-parse_header hs headers oks) refl

  -- Where the regular expressions of a rule compile, its exact values are not empty, its present matches
  -- are true and it has no specifier that the decoder does not know, the decoded rule matches exactly
  -- the requests that the rule's path and header specifiers ask for.
  pub matches-parse_route_match :
      (m : MatchRule) (path : Text) (headers : Dict Text Text)
      → IsRule m
      → matches Regexp match_string (parse_route_match compile (some m)) path headers
        ≡ rule_holds m path headers
  unfolding matches parse_route_match IsRule
  matches-parse_route_match m path headers ok =
      let paths : match_path Regexp match_string
            (record (parse_path compile m.path_specifier) {
              headers = map (parse_header compile) m.headers;
            })
            path
          ≡ path_holds m.path_specifier path =
        rw⁻¹ (match_path-parse_path m.path_specifier path ok.0) (path_of _ _ path) in
      rw (match_headers-parse_header m.headers headers ok.1, paths) refl
