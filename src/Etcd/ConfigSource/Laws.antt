-- ===== src/Etcd/ConfigSource/Laws.antt =====
-- What is read back of a configuration tree.
use yggdrasil_ecosystem.Prelude.{
  ◌≡◌, refl, ap, ◌∙◌, ◌⊎◌, inl, inr, Bool, true, false, Option, none, some, List, [], ◌∷◌, arith,
  ◌==◌, if◌then◌else◌,
}
use yggdrasil_ecosystem.Prelude.Text.{Text, text_eq, text_beq_iff}
use yggdrasil_ecosystem.Etcd.ConfigSource.{
  Tree, no_entries, with_value, with_map, entry_of, get, put, nested, set_nested,
}

module _ {V : Type 0} where
  get-entry_of :
      (k j : Text) (x : V ⊎ Tree V) (t : Tree V)
      → get j (entry_of k x t) ≡ (if k == j then some x else get j t)
  unfolding get entry_of
  get-entry_of k j (inl v) t = refl
  get-entry_of k j (inr d) t = refl

  get-put :
      (k j : Text) (x : V ⊎ Tree V) (t : Tree V)
      → get j (put k x t) ≡ (if k == j then some x else get j t)
  unfolding get put
  get-put k j x no_entries = get-entry_of k j x no_entries
  get-put k j x (with_value i v t) = grind (
    arith,
    get-put k j x t,
    get-entry_of k j x t,
    text_beq_iff i k,
    text_beq_iff i j,
    text_beq_iff k j,
  )
  get-put k j x (with_map i d t) = grind (
    arith,
    get-put k j x t,
    get-entry_of k j x t,
    text_beq_iff i k,
    text_beq_iff i j,
    text_beq_iff k j,
  )

  abbrev pub below : (Tree V → Option (V ⊎ Tree V)) → Option (V ⊎ Tree V) → Option (V ⊎ Tree V)
  below f none = none
  below f (some (inl v)) = none
  below f (some (inr child)) = f child

  -- What a path leads to.
  unfoldable pub get_path : List Text → Tree V → Option (V ⊎ Tree V)
  get_path [] t = some (inr t)
  get_path (head ∷ []) t = get head t
  get_path (head ∷ next ∷ tail) t = below (get_path (next ∷ tail)) (get head t)

  abbrev pub clear_below : (Tree V → Bool) → Option (V ⊎ Tree V) → Bool
  clear_below f none = true
  clear_below f (some (inl v)) = false
  clear_below f (some (inr child)) = f child

  -- Whether no value that is not a map stands in the way of a path.
  unfoldable pub is_clear : List Text → Tree V → Bool
  is_clear [] t = true
  is_clear (head ∷ []) t = true
  is_clear (head ∷ next ∷ tail) t = clear_below (is_clear (next ∷ tail)) (get head t)

is_clear-no_entries : (V : Type 0) (path : List Text) → is_clear {V = V} path no_entries ≡ true
unfolding is_clear get
is_clear-no_entries V [] = refl
is_clear-no_entries V (head ∷ []) = refl
is_clear-no_entries V (head ∷ next ∷ tail) = refl

module _ {V : Type 0} where
  get-put_at : (k : Text) (x : V ⊎ Tree V) (t : Tree V) → get k (put k x t) ≡ some x
  get-put_at k x t = get-put k k x t ∙ ground (arith, text_beq_iff k k)

  below-nested :
      (tail : List Text) (value : V ⊎ Tree V) (deeper : Tree V → Tree V) (o : Option (V ⊎ Tree V))
      → ((child : Tree V) → is_clear tail child ≡ true → get_path tail (deeper child) ≡ some value)
      → clear_below (is_clear tail) o ≡ true
      → below (get_path tail) (some (nested value deeper o)) ≡ some value
  unfolding nested
  below-nested tail value deeper none h c = h no_entries (is_clear-no_entries V tail)
  below-nested tail value deeper (some (inl v)) h c = absurd (cc c)
  below-nested tail value deeper (some (inr child)) h c = h child c

  -- Where no value stands in its way, what is set at a path is read back there.
  pub get_path-set_nested :
      (head : Text) (path : List Text) (value : V ⊎ Tree V) (t : Tree V)
      → is_clear (head ∷ path) t ≡ true
      → get_path (head ∷ path) (set_nested (head ∷ path) value t) ≡ some value
  unfolding get_path set_nested is_clear
  get_path-set_nested head [] value t c = get-put_at head value t
  get_path-set_nested head (next ∷ tail) value t c =
      ap (below (get_path (next ∷ tail)))
        (get-put_at head (nested value (set_nested (next ∷ tail) value) (get head t)) t)
      ∙ below-nested (next ∷ tail) value (set_nested (next ∷ tail) value) (get head t)
          (λ child clear. get_path-set_nested next tail value child clear) c
