-- ===== src/K8s/ConfigSource/Laws.antt =====
-- What a watch sends.
use yggdrasil_ecosystem.Prelude.{◌≡◌, ◌⊎◌, inl, inr, false, List, [], ◌∷◌, ◌++◌, ◌==◌, Bool-cases}
use yggdrasil_ecosystem.Prelude.Text.{Text, text_eq}
use yggdrasil_ecosystem.Prelude.Dict.{Dict}
use yggdrasil_ecosystem.K8s.ConfigSource.{
  Parsers, Config, Payload, EventType, added, modified, deleted, other_event, content, offer,
  on_event, read, watched,
}

module _ {P : Type 0} (parsers : Parsers P) (bytes_of : Dict Text Text → Text) where
  -- Every payload differs in its content from the one before.
  unfoldable pub IsChanging : Text → List (Payload P) → Type 0
  IsChanging last [] = Unit
  IsChanging last (p ∷ ps) =
      ((content parsers bytes_of p == last) ≡ false) × IsChanging (content parsers bytes_of p) ps

  IsChanging-offer :
      (result : Text ⊎ Payload P) (last : Text) (rest : Text → List (Payload P))
      → ((next : Text) → IsChanging next (rest next))
      → IsChanging last
          ((offer parsers bytes_of result last).1 ++ rest (offer parsers bytes_of result last).0)
  unfolding IsChanging offer
  IsChanging-offer (inl err) last rest h = h last
  IsChanging-offer (inr p) last rest h = elim (Bool-cases (content parsers bytes_of p == last)) [
    | inl same ↦ rw same (h last)
    | inr new ↦ rw new (new, h (content parsers bytes_of p))
  ]

  -- Whatever the events and the answers are, each payload that a watch sends differs in its content from
  -- the one sent before it, and the first one from the content that the watch starts with.
  pub watched-IsChanging :
      (cfg : Config P) (events : List (EventType × (Text ⊎ Dict Text Text))) (last : Text)
      → IsChanging last (watched parsers bytes_of cfg events last)
  unfolding watched on_event IsChanging
  watched-IsChanging cfg [] last = tt
  watched-IsChanging cfg ((deleted, answer) ∷ events) last = tt
  watched-IsChanging cfg ((added, answer) ∷ events) last =
      IsChanging-offer (read parsers cfg answer) last (watched parsers bytes_of cfg events)
        (watched-IsChanging cfg events)
  watched-IsChanging cfg ((modified, answer) ∷ events) last =
      IsChanging-offer (read parsers cfg answer) last (watched parsers bytes_of cfg events)
        (watched-IsChanging cfg events)
  watched-IsChanging cfg ((other_event, answer) ∷ events) last = watched-IsChanging cfg events last
