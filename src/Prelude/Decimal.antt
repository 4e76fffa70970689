-- ===== src/Prelude/Decimal.antt =====
-- Decimal numbers as fmt writes them with %d and reads them back: a text that does not start with a
-- digit reads as 0, and what follows the digits is left. A sign or a space before them is not read.
use yggdrasil_ecosystem.Prelude.{
  ℕ, zero, suc, ◌+◌, ◌-◌, ◌*◌, ◌/◌, ◌%◌, ◌≤◌, ◌<◌, ◌≡◌, refl, ap, ◌∙◌, ◌&&◌, [], ◌∷◌, ◌++◌, arith,
  ltb, leb, if◌then◌else◌, All, All-append, inl, inr, Bool-cases, ltb→lt,
}
use yggdrasil_ecosystem.Prelude.Text.{Text}

decimal_from : ℕ → ℕ → Text
decimal_from zero n = []
decimal_from (suc fuel) n =
    let front = decimal_from fuel (n / 10) in
    if ltb n 10 then (48 + n) ∷ [] else front ++ (48 + n % 10) ∷ []

-- The digits of a number; n + 1 rounds are enough.
unfoldable pub decimal : ℕ → Text
unfolding decimal_from
decimal n = decimal_from (suc n) n

unfoldable pub scan_from : ℕ → Text → ℕ
scan_from acc [] = acc
scan_from acc (c ∷ s) =
    let rest = scan_from (acc * 10 + (c - 48)) s in if leb 48 c && leb c 57 then rest else acc

unfoldable pub scan_decimal : Text → ℕ
unfolding scan_from
scan_decimal s = scan_from 0 s

abbrev pub IsDigit : ℕ → Type 0
IsDigit c = (48 ≤ c) × (c ≤ 57)

scan-append :
    (acc : ℕ) (s t : Text) → All IsDigit s → scan_from acc (s ++ t) ≡ scan_from (scan_from acc s) t
unfolding scan_from
scan-append acc [] t h = refl
scan-append acc (c ∷ s) t h = ground (arith, h.0, scan-append (acc * 10 + (c - 48)) s t h.1)

decimal_digits : (fuel n : ℕ) → All IsDigit (decimal_from fuel n)
unfolding decimal_from
decimal_digits zero n = tt
decimal_digits (suc fuel) n = elim (Bool-cases (ltb n 10)) [
  | inl small ↦ rw small (ground arith, tt)
  | inr large ↦ rw large (
      All-append IsDigit (decimal_from fuel (n / 10)) ((48 + n % 10) ∷ [])
        (decimal_digits fuel (n / 10)) (omega arith, tt))
]

scan_digit : (acc d : ℕ) → d < 10 → scan_from acc ((48 + d) ∷ []) ≡ acc * 10 + d
unfolding scan_from
scan_digit acc d h = ground arith

scan_decimal_from : (fuel n : ℕ) → n < fuel → scan_from 0 (decimal_from fuel n) ≡ n
unfolding decimal_from
scan_decimal_from zero n h = absurd (omega arith)
scan_decimal_from (suc fuel) n h = elim (Bool-cases (ltb n 10)) [
  | inl small ↦ rw small (scan_digit 0 n (ltb→lt n 10 small) ∙ omega arith)
  | inr large ↦ rw large (
      scan-append 0 (decimal_from fuel (n / 10)) ((48 + n % 10) ∷ []) (decimal_digits fuel (n / 10))
      ∙ (ap (λ k. scan_from k ((48 + n % 10) ∷ [])) (scan_decimal_from fuel (n / 10) (ground arith))
          ∙ (scan_digit (n / 10) (n % 10) (omega arith) ∙ omega arith)))
]

-- A printed number reads back.
pub scan-decimal : (n : ℕ) → scan_decimal (decimal n) ≡ n
unfolding decimal scan_decimal
scan-decimal n = scan_decimal_from (suc n) n (omega arith)

pub decimal-IsDigit : (n : ℕ) → All IsDigit (decimal n)
unfolding decimal
decimal-IsDigit n = decimal_digits (suc n) n
