-- ===== src/Etcd/Resolver/Found.antt =====
-- The endpoints that fetchState finds: one for each key of an allowed endpoint of the service.
use yggdrasil_ecosystem.Prelude.{
  ℕ, ◌≡◌, refl, ◌∙◌, inl, inr, Bool, false, ◌&&◌, ◌||◌, Option, none, some, List, [], ◌∷◌, ◌++◌,
  arith, ◌⊎◌, true, All, Any, ◌==◌, any, count, map, ap, Bool-cases,
}
use yggdrasil_ecosystem.Prelude.Text.{Text, text_eq, text_beq_iff}
use yggdrasil_ecosystem.Prelude.Dict.{member, add, member-add}
use yggdrasil_ecosystem.Etcd.Records.{EndpointRecord, InstanceRecord}
use yggdrasil_ecosystem.Etcd.Resolver.{
  ResolverConfig, StateEndpoint, State, fetch_state, Found, is_allowed, state_endpoint,
  instance_key, add_endpoint, add_endpoints, add_instance, collect,
}
use yggdrasil_ecosystem.Etcd.Resolver.Laws.{IsWanted, collect-All}
use yggdrasil_ecosystem.Etcd.Resolver.Sorting.{
  IsOrdered, All-sort_endpoints, count-sort_endpoints, sort_endpoints-IsOrdered,
}

-- An endpoint of an allowed protocol with the key.
abbrev pub has_key : List Text → Text → InstanceRecord → EndpointRecord → Bool
has_key protocols key rec e = is_allowed protocols e.scheme && instance_key rec e == key

-- A value that holds an instance of the service with such an endpoint.
abbrev pub wants_key : List Text → Text → Text → Text → Option InstanceRecord → Bool
wants_key protocols namespace service key none = false
wants_key protocols namespace service key (some rec) =
    (rec.name == service && rec.namespace == namespace)
    && any (has_key protocols key rec) rec.endpoints

member-add_endpoints :
    (protocols : List Text) (rec : InstanceRecord) (key : Text) (es : List EndpointRecord)
    (seen : List Text) (shown : List StateEndpoint)
    → member key (add_endpoints protocols rec es (seen, shown)).0
      ≡ (any (has_key protocols key rec) es || member key seen)
unfolding add_endpoints add_endpoint
member-add_endpoints protocols rec key [] seen shown = refl
member-add_endpoints protocols rec key (e ∷ es) seen shown = grind (
  arith,
  member-add_endpoints protocols rec key es seen shown,
  member-add_endpoints protocols rec key es (add (instance_key rec e) seen)
      (shown ++ (state_endpoint rec e ∷ [])),
  member-add (instance_key rec e) key seen,
  text_beq_iff (instance_key rec e) key,
)

member-add_instance :
    (protocols : List Text) (namespace service key : Text) (rec : Option InstanceRecord)
    (seen : List Text) (shown : List StateEndpoint)
    → member key (add_instance protocols namespace service rec (seen, shown)).0
      ≡ (wants_key protocols namespace service key rec || member key seen)
unfolding add_instance
member-add_instance protocols namespace service key none seen shown = refl
member-add_instance protocols namespace service key (some rec) seen shown =
    grind (arith, member-add_endpoints protocols rec key rec.endpoints seen shown)

-- Keys without repetition.
unfoldable pub IsDistinct : List Text → Type 0
IsDistinct [] = Unit
IsDistinct (k ∷ ks) = (member k ks ≡ false) × IsDistinct ks

-- An endpoint of an instance, by its key.
abbrev pub Entry : Type 0
Entry = InstanceRecord × EndpointRecord

abbrev pub key_of : Entry → Text
key_of x = instance_key x.0 x.1

abbrev pub shown_of : Entry → StateEndpoint
shown_of x = state_endpoint x.0 x.1

-- Keys without repetition, one for each of some entries, and the endpoints of the same entries.
unfoldable pub IsKeyed : (Entry → Type 0) → List Text → List StateEndpoint → Type 0
IsKeyed P keys shown =
    (entries : List Entry) × (map key_of entries ≡ keys)
    × IsDistinct keys
    × All P entries
    × ((p : StateEndpoint → Bool) → count p shown ≡ count p (map shown_of entries))

count-append_one :
    (p : StateEndpoint → Bool) (es : List StateEndpoint) (e : StateEndpoint)
    → count p (es ++ (e ∷ [])) ≡ count p (e ∷ es)
count-append_one p [] e = refl
count-append_one p (x ∷ es) e = ground (arith, count-append_one p es e)

module _ (P : Entry → Type 0) (protocols : List Text) (rec : InstanceRecord) where
  add_endpoint-IsKeyed :
      (e : EndpointRecord) (seen : List Text) (shown : List StateEndpoint)
      → (is_allowed protocols e.scheme ≡ true → P (rec, e))
      → IsKeyed P seen shown
      → IsKeyed P
          (add_endpoint protocols rec e (seen, shown)).0
          (add_endpoint protocols rec e (seen, shown)).1
  unfolding add_endpoint IsKeyed IsDistinct add
  add_endpoint-IsKeyed e seen shown ok (entries, keyed, apart, good, counted) =
      elim (Bool-cases (is_allowed protocols e.scheme)) [
        | inr refused ↦ rw refused (entries, keyed, apart, good, counted)
        | inl allowed ↦ rw allowed (elim (Bool-cases (member (instance_key rec e) seen)) [
          | inl dup ↦ rw dup (entries, keyed, apart, good, counted)
          | inr new ↦ rw new (
            (rec, e) ∷ entries,
            ap (λ ks. instance_key rec e ∷ ks) keyed,
            (new, apart),
            (ok allowed, good),
            λ p. count-append_one p shown (state_endpoint rec e) ∙ ground (arith, counted p),
          )
        ])
      ]

  add_endpoints-IsKeyed :
      (es : List EndpointRecord) (seen : List Text) (shown : List StateEndpoint)
      → ((e : EndpointRecord)
          → Any (λ f. f ≡ e) es
          → is_allowed protocols e.scheme ≡ true
          → P (rec, e))
      → IsKeyed P seen shown
      → IsKeyed P
          (add_endpoints protocols rec es (seen, shown)).0
          (add_endpoints protocols rec es (seen, shown)).1
  unfolding add_endpoints
  add_endpoints-IsKeyed [] seen shown ok h = h
  add_endpoints-IsKeyed (e ∷ es) seen shown ok h =
      add_endpoints-IsKeyed es _ _ (λ f at. ok f (inr at))
        (add_endpoint-IsKeyed e seen shown (ok e (inl refl)) h)

module _ (decode : Text → Option InstanceRecord) (cfg : ResolverConfig) (service : Text) where
  pub member-collect :
      (key : Text) (values seen : List Text) (shown : List StateEndpoint)
      → member key (collect decode cfg service values (seen, shown)).0 ≡ (
          any (λ v. wants_key cfg.protocols cfg.namespace service key (decode v)) values
          || member key seen)
  unfolding collect
  member-collect key [] seen shown = refl
  member-collect key (v ∷ values) seen shown =
      let found = add_instance cfg.protocols cfg.namespace service (decode v) (seen, shown) in
      ground (
        arith,
        member-collect key values found.0 found.1,
        member-add_instance cfg.protocols cfg.namespace service key (decode v) seen shown,
      )

  -- An endpoint, of an allowed protocol, of an instance of the service that a value holds.
  pub record IsServed (values : List Text) (x : Entry) : Type 0 where
    pub value : Text
    pub stored : Any (λ v. v ≡ value) values
    pub decodes : decode value ≡ some x.0
    pub listed : Any (λ e. e ≡ x.1) x.0.endpoints
    pub is_service : x.0.name ≡ service
    pub is_namespace : x.0.namespace ≡ cfg.namespace
    pub allowed : is_allowed cfg.protocols x.1.scheme ≡ true

  add_instance-IsKeyed :
      (all : List Text) (value : Text) (decoded : Option InstanceRecord) (found : Found)
      → Any (λ v. v ≡ value) all
      → decode value ≡ decoded
      → IsKeyed (IsServed all) found.0 found.1
      → IsKeyed
          (IsServed all)
          (add_instance cfg.protocols cfg.namespace service decoded found).0
          (add_instance cfg.protocols cfg.namespace service decoded found).1
  unfolding add_instance
  add_instance-IsKeyed all value none found at is h = h
  add_instance-IsKeyed all value (some rec) found at is h =
      elim (Bool-cases (rec.name == service)) [
        | inr refused ↦ rw refused h
        | inl named ↦ rw named (elim (Bool-cases (rec.namespace == cfg.namespace)) [
          | inr refused ↦ rw refused h
          | inl spaced ↦ rw spaced (
              add_endpoints-IsKeyed (IsServed all) cfg.protocols rec rec.endpoints found.0 found.1
                (λ e listed allowed. record {
                  value = value;
                  stored = at;
                  decodes = is;
                  listed = listed;
                  is_service = (text_beq_iff rec.name service).0 named;
                  is_namespace = (text_beq_iff rec.namespace cfg.namespace).0 spaced;
                  allowed = allowed;
                })
                h)
        ])
      ]

  collect-IsKeyed :
      (all values : List Text) (found : Found)
      → ((value : Text) → Any (λ v. v ≡ value) values → Any (λ v. v ≡ value) all)
      → IsKeyed (IsServed all) found.0 found.1
      → IsKeyed
          (IsServed all)
          (collect decode cfg service values found).0
          (collect decode cfg service values found).1
  unfolding collect
  collect-IsKeyed all [] found within h = h
  collect-IsKeyed all (v ∷ values) found within h =
      collect-IsKeyed all values _ (λ x at. within x (inr at))
        (add_instance-IsKeyed all v (decode v) found (within v (inl refl)) refl h)

module _ (name_of : Text → Text → Text) (decode : Text → Option InstanceRecord)
    (cfg : ResolverConfig) (service : Text) where
  -- What a fetched state is made of.
  pub record IsFetched (revision : ℕ) (values : List Text) (state : State) : Type 0 where
    pub is_service : state.service ≡ service
    pub is_namespace : state.namespace ≡ cfg.namespace
    pub is_revision : state.revision ≡ revision
    pub keys : List Text
    pub keyed : IsKeyed (IsServed decode cfg service values) keys state.endpoints
    pub wanted :
        (key : Text)
        → member key keys
          ≡ any (λ v. wants_key cfg.protocols cfg.namespace service key (decode v)) values
    pub sound : All (IsWanted decode cfg service values) state.endpoints
    pub ordered : IsOrdered name_of state.endpoints

  -- A fetched state has the revision that was read, and its endpoints, in the order of their names, are
  -- allowed endpoints of the service's instances among the values: for each key that such an endpoint
  -- has, there is exactly one, made of such an endpoint with that key. A failed read gives no state.
  pub fetch_state-IsFetched :
      (answer : Option (ℕ × List Text))
      → ((answer ≡ none) × (fetch_state name_of decode cfg service answer ≡ none))
        ⊎ ((revision : ℕ) × (values : List Text) × (state : State) × (answer
              ≡ some (revision, values))
            × (fetch_state name_of decode cfg service answer ≡ some state)
            × IsFetched revision values state)
  unfolding fetch_state IsKeyed IsDistinct member
  fetch_state-IsFetched none = inl (refl, refl)
  fetch_state-IsFetched (some (revision, values)) =
      let found = collect decode cfg service values ([], []) in
      let (entries, keyed, apart, good, counted) =
        collect-IsKeyed decode cfg service values values ([], []) (λ v at. at)
          ([], refl, tt, tt, λ p. refl) in
      inr (
        revision,
        values,
        _,
        refl,
        refl,
        record {
          is_service = refl;
          is_namespace = refl;
          is_revision = refl;
          keys = found.0;
          keyed = (
            entries,
            keyed,
            apart,
            good,
            λ p. count-sort_endpoints name_of p found.1 ∙ counted p,
          );
          wanted = λ key. ground (arith, member-collect decode cfg service key values [] []);
          sound =
              All-sort_endpoints name_of _ found.1
                (collect-All decode cfg service values values [] [] (λ v at. at) tt);
          ordered = sort_endpoints-IsOrdered name_of found.1;
        },
      )
