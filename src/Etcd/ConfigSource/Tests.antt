-- ===== src/Etcd/ConfigSource/Tests.antt =====
-- Configuration keys and trees at concrete values.
use yggdrasil_ecosystem.Prelude.{ℕ, ◌≡◌, refl, inl, false, none, some, List, [], ◌∷◌, ◌++◌, All}
use yggdrasil_ecosystem.Prelude.Text.{Text, text_eq, text_beq, codes, has_byte}
use yggdrasil_ecosystem.Etcd.ConfigSource.{
  Tree, no_entries, with_value, with_map, get, put, set_nested, nested, split, scan, is_name_byte,
  fill_parts, split_config_path, entry_of,
}
use yggdrasil_ecosystem.Etcd.ConfigSource.Laws.{get_path, is_clear, get_path-set_nested}
use yggdrasil_ecosystem.Etcd.ConfigSource.Paths.{join_dots, split_config_path-plain}

abbrev db : Tree ℕ
db = with_map (codes "db") (with_value (codes "port") 1 no_entries) no_entries

get_path-set_nested_example :
    get_path
      (codes "db" ∷ codes "host" ∷ [])
      (set_nested (codes "db" ∷ codes "host" ∷ []) (inl 2) db)
    ≡ some (inl 2)
unfolding is_clear get text_beq
get_path-set_nested_example = get_path-set_nested (codes "db") (codes "host" ∷ []) (inl 2) db refl

split_config_path-plain_example :
    (parts : List Text) × (split_config_path (codes "a.b") ≡ some parts)
    × (join_dots parts ≡ codes "a.b")
    × All (λ part. has_byte b'.' part ≡ false) parts
    × (split_config_path (codes "a.b" ++ codes ".{}") ≡ none)
unfolding has_byte
split_config_path-plain_example = split_config_path-plain (codes "a.b") refl

-- A name in braces keeps its dots.
braced_path : split_config_path (codes "a.{b.c}") ≡ some (codes "a" ∷ codes "b.c" ∷ [])
unfolding split_config_path scan split fill_parts is_name_byte text_beq
braced_path = refl

-- The braces of a key that has none but {} panic.
empty_braces : split_config_path (codes "a.{}") ≡ none
unfolding split_config_path scan split fill_parts is_name_byte text_beq
empty_braces = refl

-- A value in the way is replaced: the new one stands at the shorter path.
blocked :
    set_nested {V = ℕ}
      (codes "db" ∷ codes "host" ∷ [])
      (inl 2)
      (with_value (codes "db") 1 no_entries)
    ≡ with_value (codes "db") 2 no_entries
unfolding set_nested nested get put entry_of text_beq
blocked = refl

-- A name that is taken out of a longer part fills a later pair of braces.
shifted_name : split_config_path (codes "{}.x{a}") ≡ some (codes "a" ∷ codes "x{}" ∷ [])
unfolding split_config_path scan split fill_parts is_name_byte text_beq
shifted_name = refl
