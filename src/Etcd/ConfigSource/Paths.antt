-- ===== src/Etcd/ConfigSource/Paths.antt =====
-- Which path a key without names in braces has, and which key panics.
use mathlib.Core.List.{append-nil}
use yggdrasil_ecosystem.Prelude.{
  ℕ, ◌≡◌, refl, ap, sym, ◌∙◌, inl, inr, false, none, some, List, [], ◌∷◌, ◌++◌, arith, ◌==◌, nat_eq,
  nat_beq_iff, All-map, All, Bool-cases,
}
use yggdrasil_ecosystem.Prelude.Text.{Text, text_eq, text_beq, text_beq_iff, codes, has_byte}
use yggdrasil_ecosystem.Etcd.ConfigSource.{
  emit, first_longer, scan, is_name_byte, split, fill_parts, split_config_path,
}

-- The parts with a dot between two of them.
unfoldable pub join_dots : List Text → Text
join_dots [] = []
join_dots (part ∷ []) = part
join_dots (part ∷ next ∷ parts) = part ++ (b'.' ∷ join_dots (next ∷ parts))

-- A text without an opening brace is passed over.
scan-plain :
    (key rest : Text)
    → has_byte b'{' key ≡ false
    → scan none (key ++ rest) ≡ emit key (scan none rest)
unfolding scan has_byte
scan-plain [] rest h = refl
scan-plain (c ∷ key) rest h = elim (Bool-cases (c == b'{')) [
  | inl brace ↦ absurd (ground (arith, brace, h))
  | inr plain ↦ rw plain (ap (emit (c ∷ [])) (scan-plain key rest (ground (arith, h))))
]

split-cons :
    (d : ℕ) (key : Text) → (part : Text) × (parts : List Text) × (split d key ≡ part ∷ parts)
unfolding split
split-cons d [] = ([], [], refl)
split-cons d (c ∷ key) = elim (Bool-cases (c == d)) [
  | inl here ↦ rw here ([], split d key, refl)
  | inr away ↦ let (part, parts, e) = split-cons d key in rw (away, e) (c ∷ part, parts, refl)
]

first_longer-append :
    (c : ℕ) (part : Text) (parts ps qs : List Text)
    → ps ≡ part ∷ parts
    → first_longer c (ps ++ qs) ≡ first_longer c ps ++ qs
first_longer-append c part parts [] qs e = absurd (cc e)
first_longer-append c part parts (p ∷ ps) qs e = refl

split-append :
    (key rest : Text) → split b'.' (key ++ (b'.' ∷ rest)) ≡ split b'.' key ++ split b'.' rest
unfolding split
split-append [] rest = refl
split-append (c ∷ key) rest = elim (Bool-cases (c == b'.')) [
  | inl here ↦ rw here (ap (λ ps. [] ∷ ps) (split-append key rest))
  | inr away ↦
      let (part, parts, e) = split-cons b'.' key in
      rw away (
        ap (first_longer c) (split-append key rest)
        ∙ first_longer-append c part parts (split b'.' key) (split b'.' rest) e)
]

join_dots-first_longer :
    (c : ℕ) (part : Text) (parts ps : List Text)
    → ps ≡ part ∷ parts
    → join_dots (first_longer c ps) ≡ c ∷ join_dots ps
unfolding join_dots
join_dots-first_longer c part parts [] e = absurd (cc e)
join_dots-first_longer c part parts (p ∷ []) e = refl
join_dots-first_longer c part parts (p ∷ q ∷ ps) e = refl

join_dots-empty :
    (part : Text) (parts ps : List Text)
    → ps ≡ part ∷ parts
    → join_dots ([] ∷ ps) ≡ b'.' ∷ join_dots ps
unfolding join_dots
join_dots-empty part parts [] e = absurd (cc e)
join_dots-empty part parts (p ∷ ps) e = refl

join_dots-split : (key : Text) → join_dots (split b'.' key) ≡ key
unfolding split join_dots
join_dots-split [] = refl
join_dots-split (c ∷ key) =
    let (part, parts, e) = split-cons b'.' key in
    elim (Bool-cases (c == b'.')) [
      | inl here ↦ rw here (
          join_dots-empty part parts (split b'.' key) e
          ∙ ap (λ k. b'.' ∷ k) (join_dots-split key)
          ∙ ap (λ d. d ∷ key) (sym ((nat_beq_iff c b'.').0 here)))
      | inr away ↦ rw away (
          join_dots-first_longer c part parts (split b'.' key) e
          ∙ ap (λ k. c ∷ k) (join_dots-split key))
    ]

-- A part without a dot and without an opening brace.
abbrev pub IsPart : Text → Type 0
IsPart part = (has_byte b'.' part ≡ false) × (has_byte b'{' part ≡ false)

IsPart-first_longer :
    (c : ℕ) (ps : List Text)
    → (c == b'.') ≡ false
    → (c == b'{') ≡ false
    → All IsPart ps
    → All IsPart (first_longer c ps)
unfolding has_byte
IsPart-first_longer c [] dot brace h = ((ground (arith, dot), ground (arith, brace)), tt)
IsPart-first_longer c (p ∷ ps) dot brace h =
    ((ground (arith, dot, h.0.0), ground (arith, brace, h.0.1)), h.1)

split_parts : (key : Text) → has_byte b'{' key ≡ false → All IsPart (split b'.' key)
unfolding split has_byte
split_parts [] h = ((refl, refl), tt)
split_parts (c ∷ key) h = elim (Bool-cases (c == b'.')) [
  | inl here ↦ rw here ((refl, refl), split_parts key (ground (arith, h)))
  | inr away ↦ rw away (
      IsPart-first_longer c (split b'.' key) away (ground (arith, h))
        (split_parts key (ground (arith, h))))
]

braces_differ : (part : Text) → has_byte b'{' part ≡ false → (part == codes "{}") ≡ false
unfolding has_byte
braces_differ part h = elim (Bool-cases (part == codes "{}")) [
  | inr apart ↦ apart
  | inl same ↦ absurd (cc (sym (ap (has_byte b'{') ((text_beq_iff part (codes "{}")).0 same)) ∙ h))
]

fill_parts-plain :
    (parts matches : List Text)
    → All (λ part. has_byte b'{' part ≡ false) parts
    → fill_parts parts matches ≡ some parts
unfolding fill_parts
fill_parts-plain [] matches h = refl
fill_parts-plain (part ∷ parts) [] h =
    rw (braces_differ part h.0, fill_parts-plain parts [] h.1) refl
fill_parts-plain (part ∷ parts) (m ∷ matches) h =
    rw (braces_differ part h.0, fill_parts-plain parts (m ∷ matches) h.1) refl

fill_parts-unnamed : (parts : List Text) → fill_parts (parts ++ (codes "{}" ∷ [])) [] ≡ none
unfolding fill_parts text_beq
fill_parts-unnamed [] = refl
fill_parts-unnamed (part ∷ parts) = rw (fill_parts-unnamed parts) (ground arith)

-- A key without an opening brace has its parts between dots as its path: joined with dots again they are
-- the key, and no part has a dot. The same key with one more part, a pair of braces with nothing between
-- them, panics.
pub split_config_path-plain :
    (key : Text)
    → has_byte b'{' key ≡ false
    → (parts : List Text) × (split_config_path key ≡ some parts)
      × (join_dots parts ≡ key)
      × All (λ part. has_byte b'.' part ≡ false) parts
      × (split_config_path (key ++ codes ".{}") ≡ none)
unfolding split_config_path scan split is_name_byte text_beq
split_config_path-plain key plain =
    let parts = split_parts key plain in
    let scanned : scan none key ≡ (key, []) =
      ap (scan none) (sym (append-nil key))
      ∙ scan-plain key [] plain
      ∙ ap (λ k. (k, [])) (append-nil key) in
    (
      split b'.' key,
      ap (λ s. fill_parts (split b'.' s.0) s.1) scanned
          ∙ fill_parts-plain (split b'.' key) [] (All-map (split b'.' key) (λ p h. h.1) parts),
      join_dots-split key,
      All-map (split b'.' key) (λ p h. h.0) parts,
      ap (λ s. fill_parts (split b'.' s.0) s.1) (scan-plain key (codes ".{}") plain)
          ∙ ap (λ ps. fill_parts ps []) (split-append key (codes "{}"))
          ∙ fill_parts-unnamed (split b'.' key),
    )
