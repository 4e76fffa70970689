-- ===== src/Xds/Resource/Decode/Parts.antt =====
-- How the resources of a response combine.
use mathlib.Core.List.{append_assoc, append-nil}
use yggdrasil_ecosystem.Prelude.{◌≡◌, refl, sym, ap, ◌∙◌, List, [], ◌∷◌, ◌++◌}
use yggdrasil_ecosystem.Prelude.Text.{Text}
use yggdrasil_ecosystem.Xds.Resource.Model.{DiscoveryEvent}
use yggdrasil_ecosystem.Xds.Resource.Decode.{
  Codec, Decoded, decode_error, decoded, decode_discovery_resource, decode_from,
  decode_discovery_response,
}

module _ {Any Regexp Number : Type 0} (codec : Codec Any Regexp Number) where
  -- The events of the first part before those of the second, and an error of the first part before
  -- anything of the second.
  abbrev pub then_decoded : Decoded Regexp → Decoded Regexp → Decoded Regexp
  then_decoded (decode_error err) d = decode_error err
  then_decoded (decoded events) (decode_error err) = decode_error err
  then_decoded (decoded events) (decoded more) = decoded (events ++ more)

  then_decoded_step :
      (d : Decoded Regexp) (before events : List (DiscoveryEvent Regexp))
      → then_decoded (decoded (before ++ events)) d
        ≡ then_decoded (decoded before) (then_decoded (decoded events) d)
  then_decoded_step (decode_error err) before events = refl
  then_decoded_step (decoded more) before events = ap decoded (append_assoc before events more)

  -- The events so far stay in front.
  decode_from-prefix :
      (type_url : Text) (items : List Any) (events : List (DiscoveryEvent Regexp))
      → decode_from codec events type_url items
        ≡ then_decoded (decoded events) (decode_from codec [] type_url items)
  unfolding decode_from
  decode_from-prefix type_url [] events = ap decoded (sym (append-nil events))
  decode_from-prefix type_url (item ∷ items) events =
      go (decode_discovery_resource codec type_url item)
        (λ more. decode_from-prefix type_url items (events ++ more))
        (λ more. decode_from-prefix type_url items more)
    where
      go :
          (d : Decoded Regexp)
          → ((more : List (DiscoveryEvent Regexp))
              → decode_from codec (events ++ more) type_url items
                ≡ then_decoded (decoded (events ++ more)) (decode_from codec [] type_url items))
          → ((more : List (DiscoveryEvent Regexp))
              → decode_from codec more type_url items
                ≡ then_decoded (decoded more) (decode_from codec [] type_url items))
          → elim d [
            | decode_error err ↦ decode_error err
            | decoded more ↦ decode_from codec (events ++ more) type_url items
          ]
            ≡ then_decoded (decoded events) (elim d [
              | decode_error err ↦ decode_error err
              | decoded more ↦ decode_from codec more type_url items
            ])
      go (decode_error err) l r = refl
      go (decoded more) l r =
          l more
          ∙ then_decoded_step (decode_from codec [] type_url items) events more
          ∙ ap (then_decoded (decoded events)) (sym (r more))

  decode_from-append :
      (type_url : Text) (xs ys : List Any) (events : List (DiscoveryEvent Regexp))
      → decode_from codec events type_url (xs ++ ys)
        ≡ then_decoded (decode_from codec events type_url xs) (decode_from codec [] type_url ys)
  unfolding decode_from
  decode_from-append type_url [] ys events = decode_from-prefix type_url ys events
  decode_from-append type_url (x ∷ xs) ys events =
      go (decode_discovery_resource codec type_url x)
        (λ more. decode_from-append type_url xs ys (events ++ more))
    where
      go :
          (d : Decoded Regexp)
          → ((more : List (DiscoveryEvent Regexp))
              → decode_from codec (events ++ more) type_url (xs ++ ys)
                ≡ then_decoded
                    (decode_from codec (events ++ more) type_url xs)
                    (decode_from codec [] type_url ys))
          → elim d [
            | decode_error err ↦ decode_error err
            | decoded more ↦ decode_from codec (events ++ more) type_url (xs ++ ys)
          ]
            ≡ then_decoded
                (elim d [
                  | decode_error err ↦ decode_error err
                  | decoded more ↦ decode_from codec (events ++ more) type_url xs
                ])
                (decode_from codec [] type_url ys)
      go (decode_error err) l = refl
      go (decoded more) l = l more

  -- A response of two parts decodes to the events of the first part and then those of the second; an
  -- error in the first part is the result, and so is one in the second where the first has none.
  pub decode_discovery_response-append :
      (type_url : Text) (xs ys : List Any)
      → decode_discovery_response codec type_url (xs ++ ys)
        ≡ then_decoded
            (decode_discovery_response codec type_url xs)
            (decode_discovery_response codec type_url ys)
  unfolding decode_discovery_response
  decode_discovery_response-append type_url xs ys = decode_from-append type_url xs ys []
