-- ===== src/Etcd/ConfigSource.antt =====
-- modules/etcd/configsource/config_source.go: reading a configuration from one key or from the keys
-- under a prefix. The answers of etcd and the parser are arguments; V are the values of a document that
-- are not maps. A map[string]any is a Tree, whose order means nothing. The expression of keyRegx,
-- {([\w.-]+)}, is written out as a scan. A panic is a result of its own.
pub mod Laws
pub mod Paths
mod Tests
use yggdrasil_ecosystem.Prelude.{
  ℕ, not, Bool, true, false, ◌&&◌, ◌||◌, ◌⊎◌, inl, inr, Option, none, some, List, [], ◌∷◌, ◌++◌,
  map, ◌==◌, nat_eq, leb, if◌then◌else◌,
}
use yggdrasil_ecosystem.Prelude.Text.{Text, text_eq, codes, has_prefix, trim_space}

pub data Tree (V : Type 0) : Type 0 where
  no_entries : Tree V
  with_value : Text → V → Tree V → Tree V
  with_map : Text → Tree V → Tree V → Tree V

module _ {V : Type 0} where
  unfoldable pub entry_of : Text → V ⊎ Tree V → Tree V → Tree V
  entry_of k (inl v) t = with_value k v t
  entry_of k (inr d) t = with_map k d t

  -- dst[k]
  unfoldable pub get : Text → Tree V → Option (V ⊎ Tree V)
  get k no_entries = none
  get k (with_value j v t) = if j == k then some (inl v) else get k t
  get k (with_map j d t) = if j == k then some (inr d) else get k t

  -- dst[k] = value
  unfoldable pub put : Text → V ⊎ Tree V → Tree V → Tree V
  unfolding entry_of
  put k x no_entries = entry_of k x no_entries
  put k x (with_value j v t) = if j == k then entry_of k x t else with_value j v (put k x t)
  put k x (with_map j d t) = if j == k then entry_of k x t else with_map j d (put k x t)

  -- What setNested puts at the head of a longer path, with the rest of the work on a map: a value that
  -- is not a map is replaced.
  unfoldable pub nested : V ⊎ Tree V → (Tree V → Tree V) → Option (V ⊎ Tree V) → V ⊎ Tree V
  nested value deeper none = inr (deeper no_entries)
  nested value deeper (some (inl v)) = value
  nested value deeper (some (inr child)) = inr (deeper child)

  unfoldable pub set_nested : List Text → V ⊎ Tree V → Tree V → Tree V
  unfolding nested
  set_nested [] value dst = dst
  set_nested (head ∷ []) value dst = put head value dst
  set_nested (head ∷ next ∷ tail) value dst =
      put head (nested value (set_nested (next ∷ tail) value) (get head dst)) dst

-- [\w.-]
unfoldable pub is_name_byte : ℕ → Bool
is_name_byte c =
    leb b'0' c && leb c b'9'
    || leb b'A' c && leb c b'Z'
    || leb b'a' c && leb c b'z'
    || c == b'_'
    || c == b'.'
    || c == b'-'

-- A text with the names that have been taken out of its braces.
abbrev pub Scanned : Type 0
Scanned = Text × List Text

abbrev emit : Text → Scanned → Scanned
emit s (key, matches) = (s ++ key, matches)

abbrev found : Text → Scanned → Scanned
found name (key, matches) = (codes "{}" ++ key, name ∷ matches)

-- ReplaceAllStringFunc: the names in braces are taken out, from the left. The state is none outside
-- braces, and the bytes of a name since the last opening brace inside.
unfoldable pub scan : Option Text → Text → Scanned
unfolding is_name_byte
scan none [] = ([], [])
scan (some name) [] = (b'{' ∷ name, [])
scan none (c ∷ key) =
    let inside = scan (some []) key in
    let outside = scan none key in if c == b'{' then inside else emit (c ∷ []) outside
scan (some name) (c ∷ key) =
    let inside = scan (some []) key in
    let outside = scan none key in
    let longer = scan (some (name ++ (c ∷ []))) key in
    if c == b'{'
    then emit (b'{' ∷ name) inside
    else if is_name_byte c
    then longer
    else if c == b'}' && not (name == [])
    then found name outside
    else emit (b'{' ∷ (name ++ (c ∷ []))) outside

abbrev first_longer : ℕ → List Text → List Text
first_longer c [] = (c ∷ []) ∷ []
first_longer c (part ∷ parts) = (c ∷ part) ∷ parts

-- strings.Split at one byte
unfoldable pub split : ℕ → Text → List Text
split d [] = [] ∷ []
split d (c ∷ s) = let rest = split d s in if c == d then [] ∷ rest else first_longer c rest

abbrev pub and_part : Text → Option (List Text) → Option (List Text)
and_part part none = none
and_part part (some parts) = some (part ∷ parts)

-- The loop of splitConfigPath: a part that is a pair of braces becomes the next name, and there is a
-- panic, none, where no name is left.
unfoldable pub fill_parts : List Text → List Text → Option (List Text)
fill_parts [] matches = some []
fill_parts (part ∷ parts) [] =
    let rest = fill_parts parts [] in if part == codes "{}" then none else and_part part rest
fill_parts (part ∷ parts) (m ∷ matches) =
    let filled = fill_parts parts matches in
    let kept = fill_parts parts (m ∷ matches) in
    if part == codes "{}" then and_part m filled else and_part part kept

unfoldable pub split_config_path : Text → Option (List Text)
unfolding scan split fill_parts
split_config_path key = let s = scan none key in fill_parts (split b'.' s.0) s.1

-- strings.TrimPrefix
unfoldable pub trim_prefix : Text → Text → Text
trim_prefix [] s = s
trim_prefix (c ∷ p) [] = []
trim_prefix (c ∷ p) (x ∷ s) = if has_prefix (c ∷ p) (x ∷ s) then trim_prefix p s else x ∷ s

abbrev dotted : ℕ → ℕ
dotted c = if c == b'/' then b'.' else c

-- The path of a key under the prefix, and what setNested then does; none is a panic.
unfoldable pub set_at : {V : Type 0} → Option (List Text) → V ⊎ Tree V → Tree V → Option (Tree V)
unfolding set_nested
set_at none value out = none
set_at (some path) value out = some (set_nested path value out)

pub record Config : Type 0 where
  pub key : Text
  pub prefix : Text
  pub mode : Text
  pub name : Text

pub data Read (V : Type 0) : Type 0 where
  read_error : Text → Read V
  panics : Read V
  bytes_data : Text → Read V
  map_data : Tree V → Read V

abbrev blank : Text → Bool
blank s = trim_space s == []

-- The mode of NewConfigSource.
unfoldable pub mode_of : Config → Text
mode_of cfg =
    if cfg.mode == []
    then if blank cfg.key && not (blank cfg.prefix) then codes "kv" else codes "blob"
    else cfg.mode

-- NewConfigSource before the client is made: the configuration with its mode and the source's name.
unfoldable pub new_config_source : Config → Text ⊎ Config
unfolding mode_of
new_config_source cfg =
    if blank cfg.key && blank cfg.prefix
    then inl (codes "empty etcd config key/prefix")
    else if blank cfg.key || blank cfg.prefix
    then inr (record cfg {
      mode = mode_of cfg;
      name =
          if blank cfg.name
          then if blank cfg.key then cfg.prefix else cfg.key
          else trim_space cfg.name;
    })
    else inl (codes "both etcd config key and prefix are set")

module _ {V : Type 0} (parse : Text → Option (V ⊎ Tree V)) (string : Text → V) where
  -- parseScalarOrDoc, with a parser that fails or gives a value.
  unfoldable pub parse_scalar_or_doc : Text → V ⊎ Tree V
  parse_scalar_or_doc bytes = elim (parse bytes) [ none ↦ inl (string bytes) | some out ↦ out ]

  -- The loop of readKV.
  unfoldable pub collect : Text → List (Text × Text) → Option (Tree V) → Option (Tree V)
  unfolding trim_prefix split_config_path set_at parse_scalar_or_doc
  collect prefix items none = none
  collect prefix [] (some out) = some out
  collect prefix ((key, value) ∷ items) (some out) =
      let rel = trim_prefix (codes "/") (trim_prefix prefix key) in
      collect prefix items (
        if rel == []
        then some out
        else set_at (split_config_path (map dotted rel)) (parse_scalar_or_doc value) out)

  abbrev collected : Option (Tree V) → Read V
  collected none = panics
  collected (some out) = map_data out

  unfoldable pub read_kv : (Text → Text ⊎ List (Text × Text)) → Config → Read V
  unfolding collect
  read_kv get_prefix cfg = elim (get_prefix cfg.prefix) [
    | inl err ↦ read_error err
    | inr items ↦ collected (collect cfg.prefix items (some no_entries))
  ]

  abbrev first_value : List (Text × Text) → Text
  first_value [] = []
  first_value ((key, value) ∷ items) = value

  unfoldable pub read_blob : (Text → Text ⊎ List (Text × Text)) → Config → Read V
  read_blob get_key cfg = elim (get_key cfg.key) [
    | inl err ↦ read_error err
    | inr items ↦ bytes_data (first_value items)
  ]

  -- Read
  unfoldable pub read :
      (Text → Text ⊎ List (Text × Text)) → (Text → Text ⊎ List (Text × Text)) → Config → Read V
  unfolding read_blob read_kv
  read get_key get_prefix cfg =
      if cfg.mode == codes "blob"
      then read_blob get_key cfg
      else if cfg.mode == codes "kv"
      then read_kv get_prefix cfg
      else read_error (codes "unknown etcd config source mode")

unfoldable pub watch_key : Config → Text
watch_key cfg = if blank cfg.key then cfg.prefix else cfg.key
