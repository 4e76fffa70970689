-- ===== src/Xds/Traffic/Outlier/Eject.antt =====
-- What ejectEndpoint does to the endpoints, one at a time and in a loop.
use yggdrasil_ecosystem.Prelude.{
  ℕ, ◌<◌, ◌≡◌, refl, ◌∙◌, ◌⊎◌, inl, Bool, true, none, some, List, [], ◌∷◌, arith, All, is_some,
  All-map,
}
use yggdrasil_ecosystem.Prelude.Text.{Text, text_eq, text_beq_iff}
use yggdrasil_ecosystem.Prelude.Dict.{lookup, lookup-modify, length-modify}
use yggdrasil_ecosystem.Xds.Traffic.Outlier.{
  OutlierDetector, max_ejected, ejected_count, eject, eject_endpoint, eject_all, is_ejected,
}

-- An endpoint may be ejected: there is no cap, or it is not reached.
abbrev pub HasRoom : OutlierDetector → Type 0
HasRoom od = (max_ejected od ≡ 0) ⊎ (ejected_count od.endpoints < max_ejected od)

abbrev pub present : Text → OutlierDetector → Bool
present key od = is_some (lookup key od.endpoints)

-- The consecutive server errors of an endpoint.
abbrev pub streak : Text → OutlierDetector → ℕ
streak key od = elim (lookup key od.endpoints) [ none ↦ 0 | some ep ↦ ep.consecutive_5xx ]

module _ (key j : Text) (now : ℕ) (od : OutlierDetector) where
  streak-eject_endpoint : streak j (eject_endpoint key now od) ≡ streak j od
  unfolding eject_endpoint
  streak-eject_endpoint = ground (arith, lookup-modify key j (eject od.config now) od.endpoints)

  present-eject_endpoint : present j (eject_endpoint key now od) ≡ present j od
  unfolding eject_endpoint
  present-eject_endpoint = ground (arith, lookup-modify key j (eject od.config now) od.endpoints)

  eject_endpoint-keeps : is_ejected j od ≡ true → is_ejected j (eject_endpoint key now od) ≡ true
  unfolding eject_endpoint is_ejected
  eject_endpoint-keeps h = ground (arith, lookup-modify key j (eject od.config now) od.endpoints)

  max_ejected-eject_endpoint : max_ejected (eject_endpoint key now od) ≡ max_ejected od
  unfolding eject_endpoint
  max_ejected-eject_endpoint = ground (arith, length-modify key (eject od.config now) od.endpoints)

-- With room, a known endpoint is ejected.
pub eject_endpoint_effective :
    (key : Text) (now : ℕ) (od : OutlierDetector)
    → present key od ≡ true
    → HasRoom od
    → is_ejected key (eject_endpoint key now od) ≡ true
unfolding eject_endpoint is_ejected
eject_endpoint_effective key now od p r =
    ground (arith, lookup-modify key key (eject od.config now) od.endpoints, text_beq_iff key key)

pub eject_all-keeps :
    (keys : List Text) (j : Text) (now : ℕ) (od : OutlierDetector)
    → is_ejected j od ≡ true
    → is_ejected j (eject_all keys now od) ≡ true
unfolding eject_all
eject_all-keeps [] j now od h = h
eject_all-keeps (key ∷ keys) j now od h =
    eject_all-keeps keys j now (eject_endpoint key now od) (eject_endpoint-keeps key j now od h)

pub streak-eject_all :
    (keys : List Text) (j : Text) (now : ℕ) (od : OutlierDetector)
    → streak j (eject_all keys now od) ≡ streak j od
unfolding eject_all
streak-eject_all [] j now od = refl
streak-eject_all (key ∷ keys) j now od =
    streak-eject_all keys j now (eject_endpoint key now od) ∙ streak-eject_endpoint key j now od

pub present-eject_all :
    (keys : List Text) (j : Text) (now : ℕ) (od : OutlierDetector)
    → present j (eject_all keys now od) ≡ present j od
unfolding eject_all
present-eject_all [] j now od = refl
present-eject_all (key ∷ keys) j now od =
    present-eject_all keys j now (eject_endpoint key now od) ∙ present-eject_endpoint key j now od

-- Where the share of the endpoints that may be ejected rounds down to none, there is no cap: of any
-- list of known endpoints, all are ejected.
pub eject_all_uncapped :
    (keys : List Text) (now : ℕ) (od : OutlierDetector)
    → max_ejected od ≡ 0
    → All (λ key. is_some (lookup key od.endpoints) ≡ true) keys
    → All (λ key. is_ejected key (eject_all keys now od) ≡ true) keys
unfolding eject_all
eject_all_uncapped [] now od m h = tt
eject_all_uncapped (key ∷ keys) now od m h =
    let od' = eject_endpoint key now od in
    (
      eject_all-keeps keys key now od' (eject_endpoint_effective key now od h.0 (inl m)),
      eject_all_uncapped keys now od' (max_ejected-eject_endpoint key key now od ∙ m)
          (All-map keys (λ k p. present-eject_endpoint key k now od ∙ p) h.1),
    )
