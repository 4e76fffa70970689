-- ===== src/Etcd/Resolver/Registered.antt =====
-- What a resolver finds of the instances that a registry of the same prefix has written.
use yggdrasil_ecosystem.Prelude.{
  ◌≡◌, ◌≢◌, refl, ap, ◌∙◌, inl, inr, Bool, true, Option, none, some, List, [], ◌∷◌, arith, All, Any,
  any,
}
use yggdrasil_ecosystem.Prelude.Text.{Text, text_eq, text_beq, text_beq_iff, has_prefix}
use yggdrasil_ecosystem.Prelude.Dict.{member}
use yggdrasil_ecosystem.Etcd.Records.{
  EndpointRecord, InstanceRecord, build_key_value, service_prefix,
}
use yggdrasil_ecosystem.Etcd.Records.Keys.{service_prefix-build_key_value}
use yggdrasil_ecosystem.Etcd.Resolver.{
  ResolverConfig, Found, is_allowed, instance_key, collect, add_instance, normalize_config,
}
use yggdrasil_ecosystem.Etcd.Resolver.Found.{has_key, wants_key, member-collect}

any_at :
    {A : Type 0} (p : A → Bool) (x : A) (xs : List A)
    → Any (λ y. y ≡ x) xs
    → p x ≡ true
    → any p xs ≡ true
any_at p x [] at h = absurd at
any_at p x (y ∷ ys) (inl e) h = rw (ap p e, h) refl
any_at p x (y ∷ ys) (inr at) h = ground (arith, any_at p x ys at h)

module _ (marshal : InstanceRecord → Option Text) (sha1_hex : Text → Text)
    (decode : Text → Option InstanceRecord) where
  -- The entry that the registry writes for an instance with a namespace and a name stands under the
  -- prefix that a resolver of that namespace, with the registry's prefix, reads for the name; and
  -- where decoding gives the instance back, the key of each of its endpoints of an allowed protocol
  -- is among those that the resolver finds in any values that have the entry's.
  pub member-build_key_value :
      (cfg : ResolverConfig) (inst : InstanceRecord) (key value : Text) (e : EndpointRecord)
      (values : List Text)
      → inst.namespace ≢ []
      → inst.name ≢ []
      → inst.namespace ≡ cfg.namespace
      → build_key_value marshal sha1_hex cfg.prefix inst ≡ some (key, value)
      → decode value ≡ some inst
      → Any (λ f. f ≡ e) inst.endpoints
      → is_allowed cfg.protocols e.scheme ≡ true
      → Any (λ v. v ≡ value) values
      → (has_prefix key (service_prefix cfg.prefix cfg.namespace inst.name) ≡ true)
        × (member (instance_key inst e) (collect decode cfg inst.name values ([], [])).0 ≡ true)
  unfolding member
  member-build_key_value cfg inst key value e values spaced named same built back listed allowed
        at =
      let wanted : wants_key cfg.protocols cfg.namespace inst.name (instance_key inst e)
            (decode value)
          ≡ true =
        rw back (
          ground (
            arith,
            text_beq_iff inst.name inst.name,
            text_beq_iff inst.namespace cfg.namespace,
            same,
            any_at (has_key cfg.protocols (instance_key inst e) inst) e inst.endpoints listed
                (ground (arith, allowed, text_beq_iff (instance_key inst e) (instance_key inst e))),
          )) in
      (
        rw⁻¹ same (
            (service_prefix-build_key_value marshal sha1_hex cfg.prefix inst key value spaced named
              built).0),
        member-collect decode cfg inst.name (instance_key inst e) values [] []
            ∙ ground (
              arith,
              any_at
                  (λ v.
                    wants_key cfg.protocols cfg.namespace inst.name (instance_key inst e)
                      (decode v))
                  value values at wanted,
            ),
      )

-- The namespace of a normalized configuration is not empty.
normalized_namespace : (cfg : ResolverConfig) → (normalize_config cfg).namespace ≢ []
unfolding normalize_config text_beq
normalized_namespace cfg h = ground (arith, text_beq_iff cfg.namespace [], h)

add_unspaced :
    (protocols : List Text) (namespace service : Text) (found : Option InstanceRecord)
    (so_far : Found)
    → namespace ≢ []
    → ((rec : InstanceRecord) → found ≡ some rec → rec.namespace ≡ [])
    → add_instance protocols namespace service found so_far ≡ so_far
unfolding add_instance
add_unspaced protocols namespace service none so_far full h = refl
add_unspaced protocols namespace service (some rec) so_far full h =
    ground (arith, h rec refl, text_beq_iff rec.namespace namespace, full)

module _ (decode : Text → Option InstanceRecord) where
  -- No value is of an instance with a namespace.
  unfoldable pub IsUnspaced : Text → Type 0
  IsUnspaced value = (rec : InstanceRecord) → decode value ≡ some rec → rec.namespace ≡ []

  -- Under a normalized configuration the instances that have been registered without a namespace are
  -- in no state: from such values alone no endpoint is found.
  pub collect_unspaced :
      (cfg : ResolverConfig) (service : Text) (values : List Text)
      → All IsUnspaced values
      → (collect decode (normalize_config cfg) service values ([], [])).1 ≡ []
  unfolding collect IsUnspaced
  collect_unspaced cfg service [] h = refl
  collect_unspaced cfg service (v ∷ values) h =
      ap (λ found. (collect decode (normalize_config cfg) service values found).1)
        (add_unspaced (normalize_config cfg).protocols (normalize_config cfg).namespace service
          (decode v) ([], []) (normalized_namespace cfg) h.0)
      ∙ collect_unspaced cfg service values h.1
