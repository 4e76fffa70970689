-- ===== src/Prelude/TextLaws.antt =====
-- What the operations on texts find.
use mathlib.Core.List.{reverse, reverse-append, reverse-reverse, reverse-cons}
use yggdrasil_ecosystem.Prelude.{
  All-append, ℕ, ◌≡◌, ◌≢◌, ◌↔◌, refl, sym, ap, ◌∙◌, Bool, true, false, ◌||◌, none, some, [], ◌∷◌,
  ◌++◌, arith, nat_eq, All,
}
use yggdrasil_ecosystem.Prelude.Text.{
  Text, has_prefix, has_suffix, trim_left, trim, cut, cut_last, has_byte, lower, to_lower,
}

has_prefix_sound : (s p : Text) → has_prefix s p ≡ true → (r : Text) × (s ≡ p ++ r)
unfolding has_prefix
has_prefix_sound s [] h = (s, refl)
has_prefix_sound [] (d ∷ p) h = absurd (ground arith)
has_prefix_sound (c ∷ s) (d ∷ p) h =
    let (r, e) = has_prefix_sound s p (ground arith) in (r, ground arith)

has_prefix_complete : (p r : Text) → has_prefix (p ++ r) p ≡ true
unfolding has_prefix
has_prefix_complete [] [] = refl
has_prefix_complete [] (c ∷ r) = refl
has_prefix_complete (d ∷ p) r = ground (arith, has_prefix_complete p r)

-- HasPrefix finds a beginning.
pub has_prefix_iff : (s p : Text) → (has_prefix s p ≡ true) ↔ ((r : Text) × (s ≡ p ++ r))
has_prefix_iff s p = (has_prefix_sound s p, λ (r, e). rw e (has_prefix_complete p r))

-- HasSuffix finds an end.
pub has_suffix_iff : (s p : Text) → (has_suffix s p ≡ true) ↔ ((l : Text) × (s ≡ l ++ p))
unfolding has_suffix
has_suffix_iff s p =
    (to, λ (l, e). rw (e, reverse-append l p) (has_prefix_complete (reverse p) (reverse l)))
  where
    to : has_prefix (reverse s) (reverse p) ≡ true → (l : Text) × (s ≡ l ++ p)
    to h =
        let (r, e) = has_prefix_sound (reverse s) (reverse p) h in
        (
          reverse r,
          sym (reverse-reverse s)
              ∙ (ap reverse e
                  ∙ (reverse-append (reverse p) r ∙ ap (◌++◌ (reverse r)) (reverse-reverse p))),
        )

pub has_byte-append : (c : ℕ) (s t : Text) → has_byte c (s ++ t) ≡ (has_byte c s || has_byte c t)
unfolding has_byte
has_byte-append c [] t = refl
has_byte-append c (d ∷ s) t = ground (arith, has_byte-append c s t)

-- Cut splits at the first byte.
pub cut_first : (c : ℕ) (s t : Text) → has_byte c s ≡ false → cut c (s ++ c ∷ t) ≡ some (s, t)
unfolding cut has_byte
cut_first c [] t h = ground arith
cut_first c (d ∷ s) t h = ground (arith, cut_first c s t)

pub cut_last-none : (c : ℕ) (s : Text) → has_byte c s ≡ false → cut_last c s ≡ none
unfolding cut_last has_byte
cut_last-none c [] h = refl
cut_last-none c (d ∷ s) h = ground (arith, cut_last-none c s)

pub cut_last_lem :
    (c : ℕ) (s t : Text) → has_byte c t ≡ false → cut_last c (s ++ c ∷ t) ≡ some (s, t)
unfolding cut_last
cut_last_lem c [] t h = ground (arith, cut_last-none c t h)
cut_last_lem c (d ∷ s) t h = ground (arith, cut_last_lem c s t h)

module _ (P : ℕ → Type 0) where
  All-reverse : (s : Text) → All P s → All P (reverse s)
  All-reverse [] h = tt
  All-reverse (c ∷ s) h =
      rw (reverse-cons c s) (All-append P (reverse s) (c ∷ []) (All-reverse s h.1) (h.0, tt))

trim_left_none : (p : ℕ → Bool) (s : Text) → All (λ c. p c ≡ false) s → trim_left p s ≡ s
unfolding trim_left
trim_left_none p [] h = refl
trim_left_none p (c ∷ s) h = ground arith

-- A text with no byte of a set is not trimmed.
pub trim_none : (p : ℕ → Bool) (s : Text) → All (λ c. p c ≡ false) s → trim p s ≡ s
unfolding trim
trim_none p s h =
    rw (trim_left_none p s h, trim_left_none p (reverse s) (All-reverse (λ c. p c ≡ false) s h))
      (reverse-reverse s)

pub has_byte_none : (c : ℕ) (s : Text) → All (λ d. d ≢ c) s → has_byte c s ≡ false
unfolding has_byte
has_byte_none c [] h = refl
has_byte_none c (d ∷ s) h = ground (arith, has_byte_none c s)

pub to_lower_none : (s : Text) → All (λ c. lower c ≡ c) s → to_lower s ≡ s
unfolding to_lower
to_lower_none [] h = refl
to_lower_none (c ∷ s) h = cc (h.0, to_lower_none s h.1)
