-- ===== src/Polaris/Resolver/Laws.antt =====
-- What the balancer makes of a state that the resolver has fetched.
use mathlib.Core.List.{append_assoc, append-nil}
use yggdrasil_ecosystem.Prelude.{
  ℕ, ◌≡◌, refl, sym, ap, ◌∙◌, inl, inr, Bool, true, false, ◌||◌, Option, none, some, List, [], ◌∷◌,
  ◌++◌, map, arith, ◌==◌, any, keep, Option-cases, Bool-cases,
}
use yggdrasil_ecosystem.Prelude.Text.{Text, text_eq, text_beq, text_beq_iff, codes}
use yggdrasil_ecosystem.Prelude.Dict.{Dict, lookup, insert, lookup-insert}
use yggdrasil_ecosystem.Polaris.Balancer as Balancer
use yggdrasil_ecosystem.Polaris.Balancer.{
  PolarisBalancer, NextRemotes, no_remotes, insert_instance, enter, next_remote, next_remotes,
  update_open, update_from, update_state,
}
use yggdrasil_ecosystem.Polaris.Balancer.Laws.{client_from, client_for}
use yggdrasil_ecosystem.Polaris.Resolver.{
  ResolverConfig, Instance, Response, Attribute, text_value, number_value, StateEndpoint, State,
  copy_metadata, instance_attributes, instance_endpoint, is_wanted, endpoints_from, state_of,
}

-- The attribute instance_id as the balancer reads it, where it is a string.
abbrev pub text_of : Option Attribute → Option Text
text_of none = none
text_of (some (text_value v)) = some v
text_of (some (number_value n)) = none

module _ (name_of : Text → Text → Text) where
  -- An endpoint of the resolver as the balancer sees it, with the name that the framework makes of the
  -- protocol and the address.
  unfoldable pub seen_endpoint : StateEndpoint → Balancer.StateEndpoint
  seen_endpoint e = record {
    name = name_of e.protocol e.address;
    instance_id = text_of (lookup (codes "instance_id") e.attributes);
  }

  unfoldable pub seen_state : State → Balancer.State
  unfolding seen_endpoint
  seen_state s = record {
    endpoints = map seen_endpoint s.endpoints;
    polaris_instances_response =
        some (record { instances = map (λ i. some i.id) s.response.instances });
  }

neither : (a b : Bool) → (a || b) ≡ false → (a ≡ false) × (b ≡ false)
neither false b h = (refl, h)
neither true b h = absurd (cc h)

lookup-copy_metadata :
    (k : Text) (metadata : Dict Text Text) (attrs : Dict Text Attribute)
    → lookup k metadata ≡ none
    → lookup k (copy_metadata metadata attrs) ≡ lookup k attrs
unfolding copy_metadata lookup
lookup-copy_metadata k [] attrs h = refl
lookup-copy_metadata k ((j, v) ∷ metadata) attrs h = grind (
  arith,
  lookup-copy_metadata k metadata (insert j (text_value v) attrs),
  lookup-insert j k (text_value v) attrs,
)

-- The loop appends, in the order of the instances, the endpoints of those that are wanted.
pub endpoints_from-keep :
    (cfg : ResolverConfig) (so_far : List StateEndpoint) (is : List Instance)
    → endpoints_from cfg so_far is ≡ so_far ++ map instance_endpoint (keep (is_wanted cfg) is)
unfolding endpoints_from
endpoints_from-keep cfg so_far [] = sym (append-nil so_far)
endpoints_from-keep cfg so_far (i ∷ is) = elim (Bool-cases (is_wanted cfg i)) [
  | inl wanted ↦ rw wanted (
      endpoints_from-keep cfg (so_far ++ (instance_endpoint i ∷ [])) is
      ∙ append_assoc so_far (instance_endpoint i ∷ [])
          (map instance_endpoint (keep (is_wanted cfg) is)))
  | inr unwanted ↦ rw unwanted (endpoints_from-keep cfg so_far is)
]

next_remotes-append :
    (new_client : Balancer.StateEndpoint → Option ℕ) (old : Dict Text ℕ)
    (es fs : List Balancer.StateEndpoint) (so_far : NextRemotes)
    → next_remotes new_client old (es ++ fs) so_far
      ≡ next_remotes new_client old fs (next_remotes new_client old es so_far)
unfolding next_remotes
next_remotes-append new_client old [] fs so_far = refl
next_remotes-append new_client old (e ∷ es) fs so_far =
    next_remotes-append new_client old es fs (next_remote new_client old e so_far)

-- Whether the balancer enters an endpoint under an identifier.
abbrev pub names_instance : Text → Option Text → Bool
names_instance id none = false
names_instance id (some other) = other == id

lookup-insert_instance :
    (id : Text) (named : Option Text) (client : ℕ) (remotes : Dict Text ℕ)
    → names_instance id named ≡ false
    → lookup id (insert_instance named client remotes) ≡ lookup id remotes
unfolding insert_instance
lookup-insert_instance id none client remotes h = refl
lookup-insert_instance id (some other) client remotes h =
    ground (arith, lookup-insert other id client remotes)

lookup-next_remote :
    (new_client : Balancer.StateEndpoint → Option ℕ) (old : Dict Text ℕ) (id : Text)
    (e : Balancer.StateEndpoint) (so_far : NextRemotes)
    → names_instance id e.instance_id ≡ false
    → lookup id (next_remote new_client old e so_far).by_instance ≡ lookup id so_far.by_instance
unfolding next_remote enter
lookup-next_remote new_client old id e so_far h = elim (Option-cases (lookup e.name old)) [
  | inr (c, found) ↦
      rw (next_remote, found) (lookup-insert_instance id e.instance_id c so_far.by_instance h)
  | inl absent ↦ elim (Option-cases (new_client e)) [
    | inl unmade ↦ rw (next_remote, absent, unmade) refl
    | inr (c, made) ↦
        rw (next_remote, absent, made)
          (lookup-insert_instance id e.instance_id c so_far.by_instance h)
  ]
]

lookup-next_remotes :
    (new_client : Balancer.StateEndpoint → Option ℕ) (old : Dict Text ℕ) (id : Text)
    (es : List Balancer.StateEndpoint) (so_far : NextRemotes)
    → any (λ e. names_instance id e.instance_id) es ≡ false
    → lookup id (next_remotes new_client old es so_far).by_instance ≡ lookup id so_far.by_instance
unfolding next_remotes
lookup-next_remotes new_client old id [] so_far h = refl
lookup-next_remotes new_client old id (e ∷ es) so_far h =
    lookup-next_remotes new_client old id es (next_remote new_client old e so_far) (neither _ _ h).1
    ∙ lookup-next_remote new_client old id e so_far (neither _ _ h).0

-- The endpoints that the balancer sees of instances.
abbrev seen : (Text → Text → Text) → ResolverConfig → List Instance → List Balancer.StateEndpoint
seen name_of cfg is = map (seen_endpoint name_of) (map instance_endpoint (keep (is_wanted cfg) is))

seen-append_wanted :
    (name_of : Text → Text → Text) (cfg : ResolverConfig) (before after : List Instance)
    (i : Instance)
    → is_wanted cfg i ≡ true
    → seen name_of cfg (before ++ i ∷ after)
      ≡ seen name_of cfg before
        ++ seen_endpoint name_of (instance_endpoint i) ∷ seen name_of cfg after
seen-append_wanted name_of cfg [] after i h = rw h refl
seen-append_wanted name_of cfg (j ∷ before) after i h = elim (Bool-cases (is_wanted cfg j)) [
  | inl wanted ↦ rw wanted (
      ap (λ es. seen_endpoint name_of (instance_endpoint j) ∷ es)
        (seen-append_wanted name_of cfg before after i h))
  | inr unwanted ↦ rw unwanted (seen-append_wanted name_of cfg before after i h)
]

-- The identifier that an instance's endpoint carries.
abbrev pub carried_id : Instance → Option Text
carried_id i = text_of (lookup (codes "instance_id") (instance_attributes i))

any-seen :
    (name_of : Text → Text → Text) (cfg : ResolverConfig) (id : Text) (is : List Instance)
    → any (λ i. names_instance id (carried_id i)) is ≡ false
    → any (λ e. names_instance id e.instance_id) (seen name_of cfg is) ≡ false
unfolding seen_endpoint instance_endpoint
any-seen name_of cfg id [] h = refl
any-seen name_of cfg id (i ∷ is) h = elim (Bool-cases (is_wanted cfg i)) [
  | inl wanted ↦
      rw (wanted, (neither (names_instance id (carried_id i)) _ h).0)
        (any-seen name_of cfg id is (neither _ _ h).1)
  | inr unwanted ↦ rw unwanted (any-seen name_of cfg id is (neither _ _ h).1)
]

lookup-insert_instance_at :
    (id : Text) (named : Option Text) (client : ℕ) (remotes : Dict Text ℕ)
    → (id == []) ≡ false
    → named ≡ some id
    → lookup id (insert_instance named client remotes) ≡ some client
unfolding insert_instance
lookup-insert_instance_at id named client remotes filled carried =
    ap (λ o. lookup id (insert_instance o client remotes)) carried
    ∙ rw filled (lookup-insert id id client remotes ∙ ground (arith, text_beq_iff id id))

-- An endpoint with an identifier is entered under it.
lookup-next_remote_at :
    (new_client : Balancer.StateEndpoint → Option ℕ) (old : Dict Text ℕ) (id : Text) (client : ℕ)
    (e : Balancer.StateEndpoint) (so_far : NextRemotes)
    → (id == []) ≡ false
    → e.instance_id ≡ some id
    → client_for new_client old e ≡ some client
    → lookup id (next_remote new_client old e so_far).by_instance ≡ some client
unfolding next_remote enter
lookup-next_remote_at new_client old id client e so_far filled carried made =
    elim (Option-cases (lookup e.name old)) [
      | inr (c, found) ↦
          rw (next_remote, found)
            (lookup-insert_instance_at id e.instance_id c so_far.by_instance filled carried
              ∙ sym (ap (λ o. client_from o (new_client e)) found)
              ∙ made)
      | inl absent ↦ elim (Option-cases (new_client e)) [
        | inl unmade ↦
            absurd (cc (sym (ap (λ o. client_from o (new_client e)) absent ∙ unmade) ∙ made))
        | inr (c, fresh) ↦
            rw (next_remote, absent, fresh)
              (lookup-insert_instance_at id e.instance_id c so_far.by_instance filled carried
                ∙ sym (ap (λ o. client_from o (new_client e)) absent ∙ fresh)
                ∙ made)
      ]
    ]

lookup-next_remotes_at :
    (new_client : Balancer.StateEndpoint → Option ℕ) (old : Dict Text ℕ) (id : Text) (client : ℕ)
    (before after : List Balancer.StateEndpoint) (e : Balancer.StateEndpoint) (so_far : NextRemotes)
    → (id == []) ≡ false
    → e.instance_id ≡ some id
    → client_for new_client old e ≡ some client
    → any (λ f. names_instance id f.instance_id) after ≡ false
    → lookup id (next_remotes new_client old (before ++ e ∷ after) so_far).by_instance ≡ some client
unfolding next_remotes
lookup-next_remotes_at new_client old id client before after e so_far filled carried made last =
    let next = next_remotes new_client old before so_far in
    ap (λ r. lookup id r.by_instance) (next_remotes-append new_client old before (e ∷ after) so_far)
    ∙ lookup-next_remotes new_client old id after (next_remote new_client old e next) last
    ∙ lookup-next_remote_at new_client old id client e next filled carried made

seen-state_of :
    (name_of : Text → Text → Text) (cfg : ResolverConfig) (app : Text) (resp : Response)
    → (seen_state name_of (state_of cfg app resp)).endpoints ≡ seen name_of cfg resp.instances
unfolding seen_state state_of
seen-state_of name_of cfg app resp =
    ap (map (seen_endpoint name_of)) (endpoints_from-keep cfg [] resp.instances)

-- Routing over what the resolver found: after an update of the balancer with a fetched state, the
-- identifier of a wanted instance leads to the client of the instance's endpoint. The instance's
-- metadata has no instance_id, its identifier is not empty, no later instance carries it, and the
-- balancer is open and has, or can make, the client.
pub update_state-state_of :
    (name_of : Text → Text → Text) (new_client : Balancer.StateEndpoint → Option ℕ)
    (ready : ℕ → Bool) (cfg : ResolverConfig) (app : Text) (resp : Response) (old : Dict Text ℕ)
    (b : PolarisBalancer) (before after : List Instance) (i : Instance) (client : ℕ)
    → b.remote_by_name ≡ some old
    → resp.instances ≡ before ++ i ∷ after
    → is_wanted cfg i ≡ true
    → lookup (codes "instance_id") i.metadata ≡ none
    → (i.id == []) ≡ false
    → any (λ j. names_instance i.id (carried_id j)) after ≡ false
    → client_for new_client old (seen_endpoint name_of (instance_endpoint i)) ≡ some client
    → lookup i.id
        (update_state new_client ready
          (seen_state name_of (state_of cfg app resp))
          b).remote_by_instance
      ≡ some client
unfolding update_state update_from update_open seen_endpoint instance_endpoint instance_attributes
    lookup text_beq
update_state-state_of name_of new_client ready cfg app resp old b before after i client is_open
      split wanted plain named last made =
    let state = seen_state name_of (state_of cfg app resp) in
    ap (λ o. lookup i.id (update_from new_client ready state o b).remote_by_instance) is_open
    ∙ ap (λ es. lookup i.id (next_remotes new_client old es no_remotes).by_instance)
        (seen-state_of name_of cfg app resp
          ∙ ap (seen name_of cfg) split
          ∙ seen-append_wanted name_of cfg before after i wanted)
    ∙ lookup-next_remotes_at new_client old i.id client (seen name_of cfg before)
        (seen name_of cfg after) (seen_endpoint name_of (instance_endpoint i)) no_remotes named
        (ap text_of (lookup-copy_metadata (codes "instance_id") i.metadata _ plain)) made
        (any-seen name_of cfg i.id after last)
