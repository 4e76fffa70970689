-- ===== src/Xds/Traffic/Picker/Members.antt =====
-- What the lists that the picker filters and searches have as members.
use mathlib.Core.List.{Memᴰ}
use mathlib.Core.List.Memᴰ
use yggdrasil_ecosystem.Prelude.{
  ℕ, zero, suc, ◌+◌, ◌<◌, ◌≡◌, refl, sym, ap, subst, ◌∙◌, inl, inr, Bool, true, false, some, List,
  [], ◌∷◌, arith, ltb, nat_eq, keep, get_elem?, length, All, Bool-cases, u32,
}
use yggdrasil_ecosystem.Prelude.Text.{text_eq}
use yggdrasil_ecosystem.Xds.Traffic.Picker.{weighted_from}

module _ {ℓ} {A : Type ℓ} where
  pub keep-mem :
      (p : A → Bool) (x : A) (xs : List A) → Memᴰ x (keep p xs) → Memᴰ x xs × (p x ≡ true)
  keep-mem p x [] m = absurd (Memᴰ.not-nil m)
  keep-mem p x (y ∷ ys) m = elim (Bool-cases (p y)) [
    | inl kept ↦ elim (Memᴰ.cases_cons (subst (Memᴰ x) (keep_kept kept) m)) [
      | inl e ↦ (Memᴰ.head e, ap p e ∙ kept)
      | inr m' ↦ let (rest, good) = keep-mem p x ys m' in (Memᴰ.tail rest, good)
    ]
    | inr dropped ↦
        let (rest, good) = keep-mem p x ys (subst (Memᴰ x) (keep_dropped dropped) m) in
        (Memᴰ.tail rest, good)
  ]
    where
      keep_kept : p y ≡ true → keep p (y ∷ ys) ≡ y ∷ keep p ys
      keep_kept e = rw e

      keep_dropped : p y ≡ false → keep p (y ∷ ys) ≡ keep p ys
      keep_dropped e = rw e

  pub mem-keep : (p : A → Bool) (x : A) (xs : List A) → Memᴰ x xs → p x ≡ true → Memᴰ x (keep p xs)
  mem-keep p x [] m h = absurd (Memᴰ.not-nil m)
  mem-keep p x (y ∷ ys) m h = elim (Memᴰ.cases_cons m) [
    | inl e ↦ rw (ap p (sym e) ∙ h) (Memᴰ.head e)
    | inr m' ↦ elim (Bool-cases (p y)) [
      | inl kept ↦ rw kept (Memᴰ.tail (mem-keep p x ys m' h))
      | inr dropped ↦ rw dropped (mem-keep p x ys m' h)
    ]
  ]

  pub All-mem : (P : A → Type 0) (xs : List A) → All P xs → (x : A) → Memᴰ x xs → P x
  All-mem P [] h x m = absurd (Memᴰ.not-nil m)
  All-mem P (y ∷ ys) h x m = elim (Memᴰ.cases_cons m) [
    | inl e ↦ subst P (sym e) h.0
    | inr m' ↦ All-mem P ys h.1 x m'
  ]

  pub keep-nil : (p : A → Bool) (xs : List A) → keep p xs ≡ [] → All (λ x. p x ≡ false) xs
  keep-nil p [] e = tt
  keep-nil p (x ∷ xs) e = ground (arith, keep-nil p xs)

  pub weighted_from-mem :
      (w : A → ℕ) (r acc : ℕ) (x : A) (xs : List A) → weighted_from w r acc xs ≡ some x → Memᴰ x xs
  unfolding weighted_from
  weighted_from-mem w r acc x [] e = absurd (ground arith)
  weighted_from-mem w r acc x (y ∷ ys) e = elim (Bool-cases (ltb r (u32 (acc + w y)))) [
    | inl hit ↦ Memᴰ.head (ground arith)
    | inr miss ↦ Memᴰ.tail (weighted_from-mem w r (u32 (acc + w y)) x ys (rw miss at e))
  ]

  pub get_elem?-mem : (x : A) (xs : List A) (i : ℕ) → get_elem? xs i ≡ some x → Memᴰ x xs
  get_elem?-mem x [] i e = absurd (ground arith)
  get_elem?-mem x (y ∷ ys) zero e = Memᴰ.head (ground arith)
  get_elem?-mem x (y ∷ ys) (suc i) e = Memᴰ.tail (get_elem?-mem x ys i e)

  pub get_elem?-lt : (xs : List A) (i : ℕ) → i < length xs → (x : A) × (get_elem? xs i ≡ some x)
  get_elem?-lt [] i h = absurd (omega arith)
  get_elem?-lt (y ∷ ys) zero h = (y, refl)
  get_elem?-lt (y ∷ ys) (suc i) h = get_elem?-lt ys i (omega arith)
