-- ===== src/Xds/Resource/Match/Domains.antt =====
-- What the scores of domainMatchScore mean.
use yggdrasil_ecosystem.Prelude.{
  ℕ, ◌≤◌, ◌≡◌, ◌≢◌, ◌↔◌, refl, sym, ap, ◌∙◌, true, [], ◌∷◌, ◌++◌, arith, length, length-append,
}
use yggdrasil_ecosystem.Prelude.Text.{Text, text_eq, text_beq_iff, codes, has_prefix, has_suffix}
use yggdrasil_ecosystem.Prelude.TextLaws.{has_prefix_iff, has_suffix_iff}
use yggdrasil_ecosystem.Xds.Resource.Match.{normalized_score, wildcard_prefix, rest_of}

-- The host is a name that the wildcard domain `*.base` covers: some label, a dot and the base.
abbrev pub Covers : Text → Text → Type 0
Covers domain host =
    (label base : Text) × (domain ≡ b'*' ∷ b'.' ∷ base) × (host ≡ label ++ b'.' ∷ base)

-- No score is more than 4, which is that of the host itself, and 1 is that of the star alone.
pub normalized_score_exact :
    (domain host : Text)
    → (normalized_score domain host ≤ 4)
      × ((normalized_score domain host ≡ 4)
          ↔ ((host ≢ []) × (domain ≢ codes "*") × (domain ≡ host)))
      × ((normalized_score domain host ≡ 1) ↔ (domain ≡ codes "*"))
unfolding normalized_score
normalized_score_exact domain host = grind (
  arith,
  text_beq_iff domain [],
  text_beq_iff domain (codes "*"),
  text_beq_iff host [],
  text_beq_iff domain host,
)

wildcard_tests :
    (domain host : Text)
    → normalized_score domain host ≡ 3
    → (has_prefix domain wildcard_prefix ≡ true)
      × (has_suffix host (rest_of domain) ≡ true)
      × (domain ≢ host)
unfolding normalized_score
wildcard_tests domain host h = grind (arith, text_beq_iff domain host)

append_ne_end : (l t : Text) (c : ℕ) → l ++ c ∷ t ≢ t
append_ne_end l t c e = absurd (omega (arith, ap length e, length-append l (c ∷ t)))

append_ne_nil : (l t : Text) (c : ℕ) → l ++ c ∷ t ≢ []
append_ne_nil [] t c e = cc
append_ne_nil (d ∷ l) t c e = cc

covered_score :
    (label base : Text)
    → wildcard_prefix ++ base ≢ label ++ b'.' ∷ base
    → normalized_score (wildcard_prefix ++ base) (label ++ b'.' ∷ base) ≡ 3
unfolding normalized_score
covered_score label base n = grind (
  arith,
  text_beq_iff (wildcard_prefix ++ base) [],
  text_beq_iff (wildcard_prefix ++ base) (codes "*"),
  text_beq_iff (label ++ b'.' ∷ base) [],
  text_beq_iff (wildcard_prefix ++ base) (label ++ b'.' ∷ base),
  text_beq_iff (label ++ b'.' ∷ base) base,
  append_ne_end label base b'.',
  append_ne_nil label base b'.',
  (has_prefix_iff (wildcard_prefix ++ base) wildcard_prefix).1 (base, refl),
  (has_suffix_iff (label ++ b'.' ∷ base) (b'.' ∷ base)).1 (label, refl),
)

-- The score 3 is that of a wildcard domain `*.base` that covers the host and is not the host itself.
pub normalized_score_wildcard :
    (domain host : Text)
    → (normalized_score domain host ≡ 3) ↔ (Covers domain host × (domain ≢ host))
normalized_score_wildcard domain host = (
  to,
  λ ((label, base, d, h), n). rw (d, h) (covered_score label base (λ e. n (d ∙ (e ∙ sym h)))),
)
  where
    to : normalized_score domain host ≡ 3 → Covers domain host × (domain ≢ host)
    to h =
        let (p, s, n) = wildcard_tests domain host h in
        let (base, d) = (has_prefix_iff domain wildcard_prefix).0 p in
        let (label, e) = (has_suffix_iff host (rest_of domain)).0 s in
        ((label, base, d, e ∙ ap (λ t. label ++ rest_of t) d), n)
