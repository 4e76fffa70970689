-- ===== src/K8s/ConfigSource/Tests.antt =====
-- A watch of a ConfigMap with one file.
use yggdrasil_ecosystem.Prelude.{◌≡◌, refl, true, false, ◌⊎◌, inr, none, some, List, [], ◌∷◌}
use yggdrasil_ecosystem.Prelude.Text.{
  Text, text_eq, text_beq, codes, to_lower, lower, contains, has_prefix, cut_last, has_byte,
}
use yggdrasil_ecosystem.Prelude.Dict.{Dict, lookup}
use yggdrasil_ecosystem.K8s.ConfigSource.{
  Parsers, Config, bytes_payload, EventType, added, modified, deleted, watched, on_event, offer,
  read, payload, payload_at, fetched_parser, infer_parser, infer_key_from_data, config_key,
  is_config_key, ext, content,
}
use yggdrasil_ecosystem.K8s.ConfigSource.Laws.{IsChanging, watched-IsChanging}

abbrev parsers : Parsers Text
parsers = record { json = codes "json"; parse_parser = λ kind. some kind }

abbrev config : Config Text
config = record {
  namespace = codes "default";
  name = codes "app";
  key = [];
  merge_all_keys = false;
  format = none;
  watch = true;
}

abbrev holding : Text → Text ⊎ Dict Text Text
holding text = inr ((codes "app.yaml", text) ∷ [])

abbrev history : List (EventType × (Text ⊎ Dict Text Text))
history =
    (added, holding (codes "a"))
    ∷ (modified, holding (codes "a"))
    ∷ (modified, holding (codes "b"))
    ∷ (deleted, holding (codes "b"))
    ∷ []

-- A payload that has not changed is not sent again.
history_sent :
    watched parsers (λ _. []) config history []
    ≡ bytes_payload (codes "a") (some (codes "yaml"))
      ∷ bytes_payload (codes "b") (some (codes "yaml"))
      ∷ []
unfolding watched on_event offer content read payload payload_at fetched_parser infer_parser
    infer_key_from_data config_key is_config_key ext to_lower lower contains has_prefix cut_last
    has_byte text_beq lookup
history_sent = refl

watched-IsChanging_example :
    IsChanging parsers (λ _. []) [] (watched parsers (λ _. []) config history [])
watched-IsChanging_example = watched-IsChanging parsers (λ _. []) config history []
