-- ===== src/Etcd/Records/Keys.antt =====
-- The keys of a service's instances, and the prefix that its resolver reads.
use mathlib.Core.List.{append_assoc}
use yggdrasil_ecosystem.Prelude.{
  ℕ, false, ◌≡◌, ◌≢◌, refl, sym, ap, ◌∙◌, true, Option, none, some, [], ◌∷◌, ◌++◌, arith, ◌==◌,
}
use yggdrasil_ecosystem.Prelude.Text.{Text, text_eq, text_beq, text_beq_iff, has_prefix}
use yggdrasil_ecosystem.Prelude.TextLaws.{has_prefix_iff}
use yggdrasil_ecosystem.Etcd.Records.{
  InstanceRecord, join, key_parts, build_key_value, service_prefix,
}

pub nonempty : (t : Text) → t ≢ [] → (t == []) ≡ false
nonempty t h = ground (arith, h, text_beq_iff t [])

append_parts :
    (p n m t : Text) (c : ℕ) → p ++ (c ∷ (n ++ (c ∷ (m ++ t)))) ≡ (p ++ c ∷ (n ++ c ∷ m)) ++ t
append_parts p n m t c =
    ap (λ u. p ++ c ∷ u) (sym (append_assoc n (c ∷ m) t))
    ∙ sym (append_assoc p (c ∷ (n ++ c ∷ m)) t)

module _ (marshal : InstanceRecord → Option Text) (sha1_hex : Text → Text) where
  key_of_parts :
      (prefix sum : Text) (inst : InstanceRecord)
      → inst.namespace ≢ []
      → inst.name ≢ []
      → join (key_parts prefix inst sum)
        ≡ prefix ++ (b'/' ∷ (inst.namespace ++ (b'/' ∷ (inst.name ++ (b'/' ∷ sum)))))
  unfolding join key_parts text_beq
  key_of_parts prefix sum inst ns name =
      rw (nonempty inst.namespace ns, nonempty inst.name name) refl

  built_from :
      (prefix : Text) (inst : InstanceRecord) (key value : Text)
      → build_key_value marshal sha1_hex prefix inst ≡ some (key, value)
      → (key ≡ join (key_parts prefix inst (sha1_hex value))) × (marshal inst ≡ some value)
  unfolding build_key_value
  built_from prefix inst key value = go (marshal inst)
    where
      go :
          (m : Option Text)
          → ◌≡◌ {A = Option (Text × Text)}
              (elim m [
                | none ↦ none
                | some payload ↦ some (join (key_parts prefix inst (sha1_hex payload)), payload)
              ])
              (some (key, value))
          → (key ≡ join (key_parts prefix inst (sha1_hex value))) × (m ≡ some value)
      go none built = absurd (cc built)
      go (some payload) built = (cc built, cc built)

  -- The key of an instance that has a namespace and a name starts with the prefix that the resolver of
  -- the same namespace reads for its name, and the value is the instance's JSON text.
  pub service_prefix-build_key_value :
      (prefix : Text) (inst : InstanceRecord) (key value : Text)
      → inst.namespace ≢ []
      → inst.name ≢ []
      → build_key_value marshal sha1_hex prefix inst ≡ some (key, value)
      → (has_prefix key (service_prefix prefix inst.namespace inst.name) ≡ true)
        × (marshal inst ≡ some value)
  unfolding service_prefix join
  service_prefix-build_key_value prefix inst key value ns name built =
      let (is_key, is_value) = built_from prefix inst key value built in
      let sum = sha1_hex value in
      (
        (has_prefix_iff key (service_prefix prefix inst.namespace inst.name)).1 (
          b'/' ∷ sum,
          is_key
              ∙ key_of_parts prefix sum inst ns name
              ∙ append_parts prefix inst.namespace inst.name (b'/' ∷ sum) b'/',
        ),
        is_value,
      )
