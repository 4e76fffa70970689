-- ===== src/Etcd/Resolver/Sorting.antt =====
-- The order of a fetched state's endpoints.
use yggdrasil_ecosystem.Prelude.{
  ◌≡◌, refl, ◌∙◌, inl, inr, true, false, ◌||◌, List, [], ◌∷◌, arith, nat_eq, All, All-map, count,
  Bool, Bool-cases,
}
use yggdrasil_ecosystem.Prelude.Text.{Text}
use yggdrasil_ecosystem.Etcd.Resolver.{
  StateEndpoint, text_ltb, endpoint_name, place, sort_endpoints,
}

text_ltb-asym : (a b : Text) → text_ltb a b ≡ true → text_ltb b a ≡ false
unfolding text_ltb
text_ltb-asym [] [] h = refl
text_ltb-asym [] (d ∷ b) h = refl
text_ltb-asym (c ∷ a) [] h = cc h
text_ltb-asym (c ∷ a) (d ∷ b) h = ground (arith, text_ltb-asym a b)

-- What lies between two texts is apart from one of them.
text_ltb_between : (a b c : Text) → text_ltb a c ≡ true → (text_ltb a b || text_ltb b c) ≡ true
unfolding text_ltb
text_ltb_between [] [] (z ∷ c) h = refl
text_ltb_between [] [] [] h = cc h
text_ltb_between [] (y ∷ b) [] h = refl
text_ltb_between [] (y ∷ b) (z ∷ c) h = refl
text_ltb_between (x ∷ a) b [] h = cc h
text_ltb_between (x ∷ a) [] (z ∷ c) h = ground arith
text_ltb_between (x ∷ a) (y ∷ b) (z ∷ c) h = ground (arith, text_ltb_between a b c)

module _ (name_of : Text → Text → Text) where
  -- No endpoint is before one that it follows.
  unfoldable pub IsOrdered : List StateEndpoint → Type 0
  IsOrdered [] = Unit
  IsOrdered (e ∷ es) =
      All (λ f. text_ltb (endpoint_name name_of f) (endpoint_name name_of e) ≡ false) es
      × IsOrdered es

  All-place :
      (P : StateEndpoint → Type 0) (e : StateEndpoint) (es : List StateEndpoint)
      → P e
      → All P es
      → All P (place name_of e es)
  unfolding place
  All-place P e [] h hs = (h, tt)
  All-place P e (f ∷ fs) h hs =
      elim (Bool-cases (text_ltb (endpoint_name name_of f) (endpoint_name name_of e))) [
        | inl before ↦ rw before (hs.0, All-place P e fs h hs.1)
        | inr after ↦ rw after (h, hs)
      ]

  pub All-sort_endpoints :
      (P : StateEndpoint → Type 0) (es : List StateEndpoint)
      → All P es
      → All P (sort_endpoints name_of es)
  unfolding sort_endpoints
  All-sort_endpoints P [] h = h
  All-sort_endpoints P (e ∷ es) h = All-place P e _ h.0 (All-sort_endpoints P es h.1)

  count-place :
      (p : StateEndpoint → Bool) (e : StateEndpoint) (es : List StateEndpoint)
      → count p (place name_of e es) ≡ count p (e ∷ es)
  unfolding place
  count-place p e [] = refl
  count-place p e (f ∷ fs) = ground (arith, count-place p e fs)

  -- Sorting leaves every endpoint as often as it was.
  pub count-sort_endpoints :
      (p : StateEndpoint → Bool) (es : List StateEndpoint)
      → count p (sort_endpoints name_of es) ≡ count p es
  unfolding sort_endpoints
  count-sort_endpoints p [] = refl
  count-sort_endpoints p (e ∷ es) =
      count-place p e (sort_endpoints name_of es) ∙ ground (arith, count-sort_endpoints p es)

  place-IsOrdered :
      (e : StateEndpoint) (es : List StateEndpoint) → IsOrdered es → IsOrdered (place name_of e es)
  unfolding place IsOrdered
  place-IsOrdered e [] h = (tt, tt)
  place-IsOrdered e (f ∷ fs) h =
      elim (Bool-cases (text_ltb (endpoint_name name_of f) (endpoint_name name_of e))) [
        | inl before ↦ rw before (
          All-place _ e fs
              (text_ltb-asym (endpoint_name name_of f) (endpoint_name name_of e) before) h.0,
          place-IsOrdered e fs h.1,
        )
        | inr after ↦ rw after (
          (
            after,
            All-map fs
                (λ g later. ground (
                  arith,
                  text_ltb_between (endpoint_name name_of g) (endpoint_name name_of f)
                      (endpoint_name name_of e),
                ))
                h.0,
          ),
          h,
        )
      ]

  pub sort_endpoints-IsOrdered : (es : List StateEndpoint) → IsOrdered (sort_endpoints name_of es)
  unfolding sort_endpoints IsOrdered
  sort_endpoints-IsOrdered [] = tt
  sort_endpoints-IsOrdered (e ∷ es) = place-IsOrdered e _ (sort_endpoints-IsOrdered es)
