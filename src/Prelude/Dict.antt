-- ===== src/Prelude/Dict.antt =====
-- Go maps as association lists. An iteration goes through the list in its order, and a theorem
-- about every list is one about every order.
use Prim.Native.Nat.{ℕ, ◌+◌, ◌≤◌}
use mathlib.Core.Path.{◌≡◌, refl}
use mathlib.Core.Bool.{Bool, true, false, ◌||◌}
use mathlib.Core.Option
use mathlib.Core.Option.{Option, none, some}
use mathlib.Core.List.{List, [], ◌∷◌}
use native.Mathlib.Omega.{arith}
use yggdrasil_ecosystem.Prelude.Tests.{Comparable, ◌==◌, if◌then◌else◌}
use yggdrasil_ecosystem.Prelude.Lists.{length, count}

abbrev pub Dict {ℓ κ} : Type κ → Type ℓ → Type (ℓ ⊔ κ)
Dict K V = List (K × V)

module _ {ℓ κ} {K : Type κ} {V : Type ℓ} ⦃e : Comparable K⦄ where
  unfoldable pub lookup : K → Dict K V → Option V
  lookup k [] = none
  lookup k ((j, v) ∷ m) = if j == k then some v else lookup k m

  -- delete(m, k)
  unfoldable pub erase : K → Dict K V → Dict K V
  erase k [] = []
  erase k ((j, w) ∷ m) = let rest = erase k m in if j == k then rest else (j, w) ∷ rest

  -- A write through the pointer that the map holds at k.
  unfoldable pub modify : K → (V → V) → Dict K V → Dict K V
  modify k f [] = []
  modify k f ((j, v) ∷ m) = if j == k then (j, f v) ∷ m else (j, v) ∷ modify k f m

  unfoldable pub insert : K → V → Dict K V → Dict K V
  insert k v [] = (k, v) ∷ []
  insert k v ((j, w) ∷ m) = if j == k then (k, v) ∷ m else (j, w) ∷ insert k v m

  pub lookup-erase :
      (k j : K) (m : Dict K V) → lookup j (erase k m) ≡ (if k == j then none else lookup j m)
  unfolding lookup erase
  lookup-erase k j [] = ground arith
  lookup-erase k j ((i, w) ∷ m) =
      ground (arith, e.equal_iff k j, e.equal_iff i k, e.equal_iff i j, lookup-erase k j m)

  pub lookup-modify :
      (k j : K) (f : V → V) (m : Dict K V)
      → lookup j (modify k f m) ≡ (if k == j then Option.map f (lookup j m) else lookup j m)
  unfolding lookup modify
  lookup-modify k j f [] = ground arith
  lookup-modify k j f ((i, w) ∷ m) =
      ground (arith, e.equal_iff k j, e.equal_iff i k, e.equal_iff i j, lookup-modify k j f m)

  -- A write is read at its key, and nowhere else.
  pub lookup-insert :
      (key at_key : K) (x : V) (d : Dict K V)
      → lookup at_key (insert key x d) ≡ (if key == at_key then some x else lookup at_key d)
  unfolding lookup insert
  lookup-insert key at_key x [] = refl
  lookup-insert key at_key x (entry ∷ d) = grind (
    arith,
    lookup-insert key at_key x d,
    e.equal_iff entry.0 key,
    e.equal_iff entry.0 at_key,
    e.equal_iff key at_key,
  )

  pub length-modify : (k : K) (f : V → V) (m : Dict K V) → length (modify k f m) ≡ length m
  unfolding modify
  length-modify k f [] = refl
  length-modify k f ((i, w) ∷ m) = ground (arith, length-modify k f m)

  pub length-insert_new :
      (k : K) (v : V) (m : Dict K V) → lookup k m ≡ none → length (insert k v m) ≡ length m + 1
  unfolding lookup insert
  length-insert_new k v [] h = omega arith
  length-insert_new k v ((i, w) ∷ m) h = ground (arith, length-insert_new k v m)

-- The values that pass a test.
abbrev pub count_values {ℓ κ} : {K : Type κ} {V : Type ℓ} → (V → Bool) → Dict K V → ℕ
count_values p m = count (λ b. p b.1) m

-- A loop that writes to every value.
unfoldable pub map_values {ℓ κ} : {K : Type κ} {V : Type ℓ} → (V → V) → Dict K V → Dict K V
map_values f [] = []
map_values f ((k, v) ∷ m) = (k, f v) ∷ map_values f m

module _ {ℓ κ} {K : Type κ} {V : Type ℓ} ⦃e : Comparable K⦄ where
  pub lookup-map_values :
      (f : V → V) (k : K) (m : Dict K V) → lookup k (map_values f m) ≡ Option.map f (lookup k m)
  unfolding lookup map_values
  lookup-map_values f k [] = refl
  lookup-map_values f k ((j, v) ∷ m) = ground (arith, lookup-map_values f k m)

  -- A write adds at most one value that passes.
  pub count_values-modify_le :
      (p : V → Bool) (k : K) (f : V → V) (m : Dict K V)
      → count_values p (modify k f m) ≤ count_values p m + 1
  unfolding modify
  count_values-modify_le p k f [] = omega arith
  count_values-modify_le p k f ((i, w) ∷ m) = ground (arith, count_values-modify_le p k f m)

  -- A write that keeps the test's answer keeps the count.
  pub count_values-modify_at :
      (p : V → Bool) (k : K) (f : V → V) (v : V) (m : Dict K V)
      → lookup k m ≡ some v
      → p (f v) ≡ p v
      → count_values p (modify k f m) ≡ count_values p m
  unfolding lookup modify
  count_values-modify_at p k f v [] h q = refl
  count_values-modify_at p k f v ((i, w) ∷ m) h q = ground (arith, count_values-modify_at p k f v m)

  pub count_values-insert_new :
      (p : V → Bool) (k : K) (v : V) (m : Dict K V)
      → lookup k m ≡ none
      → p v ≡ false
      → count_values p (insert k v m) ≡ count_values p m
  unfolding lookup insert
  count_values-insert_new p k v [] h q = ground arith
  count_values-insert_new p k v ((i, w) ∷ m) h q = ground (arith, count_values-insert_new p k v m)

module _ {ℓ κ} {K : Type κ} {V : Type ℓ} where
  pub length-map_values : (f : V → V) (m : Dict K V) → length (map_values f m) ≡ length m
  unfolding map_values
  length-map_values f [] = refl
  length-map_values f ((k, v) ∷ m) = omega (arith, length-map_values f m)

  pub count_values-map_values_le :
      (p : V → Bool) (f : V → V) (m : Dict K V)
      → ((v : V) → p (f v) ≡ true → p v ≡ true)
      → count_values p (map_values f m) ≤ count_values p m
  unfolding map_values
  count_values-map_values_le p f [] h = omega arith
  count_values-map_values_le p f ((k, v) ∷ m) h =
      ground (arith, h v, count_values-map_values_le p f m h)

module _ {κ} {K : Type κ} ⦃e : Comparable K⦄ where
  unfoldable pub member : K → List K → Bool
  member k [] = false
  member k (j ∷ js) = j == k || member k js

  -- A Go set, map[K]struct{}, as the list of its keys.
  unfoldable pub add : K → List K → List K
  unfolding member
  add k js = if member k js then js else k ∷ js

  pub member-add : (k j : K) (js : List K) → member j (add k js) ≡ (k == j || member j js)
  unfolding add member
  member-add k j js = grind (arith, e.equal_iff k j)
