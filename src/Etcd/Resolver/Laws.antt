-- ===== src/Etcd/Resolver/Laws.antt =====
-- Which endpoints a fetched state has.
use yggdrasil_ecosystem.Prelude.{
  ◌≡◌, refl, inl, inr, true, Option, none, some, List, [], ◌∷◌, ◌==◌, All, Any, All-append,
  Bool-cases,
}
use yggdrasil_ecosystem.Prelude.Text.{Text, text_eq, text_beq_iff}
use yggdrasil_ecosystem.Prelude.Dict.{member}
use yggdrasil_ecosystem.Etcd.Records.{EndpointRecord, InstanceRecord}
use yggdrasil_ecosystem.Etcd.Resolver.{
  ResolverConfig, StateEndpoint, is_allowed, state_endpoint, instance_key, add_endpoint,
  add_endpoints, add_instance, collect,
}

-- The instance of a service that a value holds and one of its endpoints, of an allowed protocol.
pub record IsWanted (decode : Text → Option InstanceRecord) (cfg : ResolverConfig) (service : Text)
    (values : List Text) (x : StateEndpoint) : Type 0 where
  pub value : Text
  pub rec : InstanceRecord
  pub endpoint : EndpointRecord
  pub stored : Any (λ v. v ≡ value) values
  pub decodes : decode value ≡ some rec
  pub listed : Any (λ e. e ≡ endpoint) rec.endpoints
  pub is_service : rec.name ≡ service
  pub is_namespace : rec.namespace ≡ cfg.namespace
  pub allowed : is_allowed cfg.protocols endpoint.scheme ≡ true
  pub shown : state_endpoint rec endpoint ≡ x

add_endpoint-All :
    (P : StateEndpoint → Type 0) (protocols : List Text) (rec : InstanceRecord) (e : EndpointRecord)
    (seen : List Text) (shown : List StateEndpoint)
    → (is_allowed protocols e.scheme ≡ true → P (state_endpoint rec e))
    → All P shown
    → All P (add_endpoint protocols rec e (seen, shown)).1
unfolding add_endpoint
add_endpoint-All P protocols rec e seen shown ok h =
    elim (Bool-cases (is_allowed protocols e.scheme)) [
      | inr refused ↦ rw refused h
      | inl allowed ↦ rw allowed (elim (Bool-cases (member (instance_key rec e) seen)) [
        | inl dup ↦ rw dup h
        | inr new ↦ rw new (All-append P shown (state_endpoint rec e ∷ []) h (ok allowed, tt))
      ])
    ]

add_endpoints-All :
    (P : StateEndpoint → Type 0) (protocols : List Text) (rec : InstanceRecord)
    (es : List EndpointRecord) (seen : List Text) (shown : List StateEndpoint)
    → ((e : EndpointRecord)
        → Any (λ f. f ≡ e) es
        → is_allowed protocols e.scheme ≡ true
        → P (state_endpoint rec e))
    → All P shown
    → All P (add_endpoints protocols rec es (seen, shown)).1
unfolding add_endpoints
add_endpoints-All P protocols rec [] seen shown ok h = h
add_endpoints-All P protocols rec (e ∷ es) seen shown ok h =
    add_endpoints-All P protocols rec es _ _ (λ f at. ok f (inr at))
      (add_endpoint-All P protocols rec e seen shown (ok e (inl refl)) h)

-- An instance of the service, with its place in the values.
add_instance-All :
    (decode : Text → Option InstanceRecord) (cfg : ResolverConfig) (service : Text)
    (values : List Text) (value : Text) (found : Option InstanceRecord) (seen : List Text)
    (shown : List StateEndpoint)
    → Any (λ v. v ≡ value) values
    → decode value ≡ found
    → All (IsWanted decode cfg service values) shown
    → All
        (IsWanted decode cfg service values)
        (add_instance cfg.protocols cfg.namespace service found (seen, shown)).1
unfolding add_instance
add_instance-All decode cfg service values value none seen shown at is h = h
add_instance-All decode cfg service values value (some rec) seen shown at is h =
    elim (Bool-cases (rec.name == service)) [
      | inr refused ↦ rw refused h
      | inl named ↦ rw named (elim (Bool-cases (rec.namespace == cfg.namespace)) [
        | inr refused ↦ rw refused h
        | inl spaced ↦ rw spaced (
            add_endpoints-All (IsWanted decode cfg service values) cfg.protocols rec rec.endpoints
              seen shown
              (λ e listed allowed. record {
                value = value;
                rec = rec;
                endpoint = e;
                stored = at;
                decodes = is;
                listed = listed;
                is_service = (text_beq_iff rec.name service).0 named;
                is_namespace = (text_beq_iff rec.namespace cfg.namespace).0 spaced;
                allowed = allowed;
                shown = refl;
              })
              h)
      ])
    ]

pub collect-All :
    (decode : Text → Option InstanceRecord) (cfg : ResolverConfig) (service : Text)
    (all values : List Text) (seen : List Text) (shown : List StateEndpoint)
    → ((value : Text) → Any (λ v. v ≡ value) values → Any (λ v. v ≡ value) all)
    → All (IsWanted decode cfg service all) shown
    → All (IsWanted decode cfg service all) (collect decode cfg service values (seen, shown)).1
unfolding collect
collect-All decode cfg service all [] seen shown within h = h
collect-All decode cfg service all (value ∷ values) seen shown within h =
    collect-All decode cfg service all values _ _ (λ v at. within v (inr at))
      (add_instance-All decode cfg service all value (decode value) seen shown
        (within value (inl refl)) refl h)
