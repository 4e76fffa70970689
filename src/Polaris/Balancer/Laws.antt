-- ===== src/Polaris/Balancer/Laws.antt =====
-- Which clients a balancer picks, keeps and closes.
use yggdrasil_ecosystem.Prelude.{
  ℕ, ◌≡◌, ◌≢◌, refl, sym, ap, subst, ◌∙◌, inl, inr, Bool, true, false, Option, none, some, nat_eq,
  nat_beq_iff, All, List, [], ◌∷◌, ◌++◌, arith, ◌==◌, if◌then◌else◌, any, Any, Option-cases,
  Bool-cases,
}
use yggdrasil_ecosystem.Prelude.Text.{Text, text_eq, text_beq_iff}
use yggdrasil_ecosystem.Prelude.Dict.{Dict, lookup, insert, lookup-insert}
use yggdrasil_ecosystem.Polaris.Picker.{Sdk, RpcInfo, next}
use yggdrasil_ecosystem.Polaris.Picker.Laws.{IsReady, next-IsSafe}
use yggdrasil_ecosystem.Polaris.Balancer.{
  PolarisBalancer, StateEndpoint, State, NextRemotes, no_remotes, clients, names_of, ready_entries,
  build_picker, close, enter, next_remote, next_remotes, update_open, update_from, update_state,
}

keep_step :
    (ready : ℕ → Bool) (k : Text) (c : ℕ) (d : Dict Text ℕ)
    → ready c ≡ false
    → ready_entries ready ((k, c) ∷ d) ≡ ready_entries ready d
unfolding ready_entries
keep_step ready k c d idle = rw (ready_entries, idle) refl

kept_step :
    (ready : ℕ → Bool) (k : Text) (c : ℕ) (d : Dict Text ℕ)
    → ready c ≡ true
    → ready_entries ready ((k, c) ∷ d) ≡ (k, c) ∷ ready_entries ready d
unfolding ready_entries
kept_step ready k c d up = rw (ready_entries, up) refl

Any-ready_entries :
    (ready : ℕ → Bool) (client : ℕ) (d : Dict Text ℕ)
    → Any (λ c. c ≡ client) (clients (ready_entries ready d))
    → ready client ≡ true
unfolding ready_entries
Any-ready_entries ready client [] h = absurd h
Any-ready_entries ready client ((k, c) ∷ d) h = elim (Bool-cases (ready c)) [
  | inr idle ↦ Any-ready_entries ready client d (
      subst (λ (es : Dict Text ℕ). Any (λ x. x ≡ client) (clients es)) (keep_step ready k c d idle)
        h)
  | inl up ↦
      elim (subst (λ (es : Dict Text ℕ). Any (λ x. x ≡ client) (clients es))
        (kept_step ready k c d up) h) [
          | inl same ↦ ap ready (sym same) ∙ up
          | inr later ↦ Any-ready_entries ready client d later
        ]
]

lookup-ready_entries :
    (ready : ℕ → Bool) (client : ℕ) (id : Text) (d : Dict Text ℕ)
    → lookup id (ready_entries ready d) ≡ some client
    → ready client ≡ true
unfolding ready_entries lookup
lookup-ready_entries ready client id [] h = absurd (cc h)
lookup-ready_entries ready client id ((k, c) ∷ d) h =
    ground (arith, h, lookup-ready_entries ready client id d)

-- A client that is picked was ready when the balancer built its picker.
pub next-build_picker :
    (ready : ℕ → Bool) (b : PolarisBalancer) (sdk : Sdk) (ri : RpcInfo) (client : ℕ)
    → (next sdk (build_picker ready b) ri).0 ≡ inr client
    → ready client ≡ true
unfolding build_picker IsReady
next-build_picker ready b sdk ri client h =
    elim ((next-IsSafe sdk (build_picker ready b) ri).is_ready client h) [
      | inl among ↦ Any-ready_entries ready client (names_of b.remote_by_name) among
      | inr (id, at) ↦ lookup-ready_entries ready client id b.remote_by_instance at
    ]

lookup-next_remote :
    (new_client : StateEndpoint → Option ℕ) (old : Dict Text ℕ) (name : Text) (client : ℕ)
    (e : StateEndpoint) (so_far : NextRemotes)
    → lookup name old ≡ some client
    → lookup name (next_remote new_client old e so_far).by_name
      ≡ (if e.name == name then some client else lookup name so_far.by_name)
unfolding next_remote enter
lookup-next_remote new_client old name client e so_far held =
    elim (Option-cases (lookup e.name old)) [
      | inr (c, found) ↦
          rw (next_remote, found)
            (grind (
              arith,
              found,
              held,
              lookup-insert e.name name c so_far.by_name,
              text_beq_iff e.name name,
            ))
      | inl absent ↦ elim (Option-cases (new_client e)) [
        | inl unmade ↦
            rw (next_remote, absent, unmade) (grind (arith, absent, held, text_beq_iff e.name name))
        | inr (c, made) ↦
            rw (next_remote, absent, made)
              (grind (
                arith,
                absent,
                held,
                lookup-insert e.name name c so_far.by_name,
                text_beq_iff e.name name,
              ))
      ]
    ]

-- An update keeps the client of every name that it had one for.
lookup-next_remotes :
    (new_client : StateEndpoint → Option ℕ) (old : Dict Text ℕ) (name : Text) (client : ℕ)
    (es : List StateEndpoint) (so_far : NextRemotes)
    → lookup name old ≡ some client
    → lookup name (next_remotes new_client old es so_far).by_name
      ≡ (if any (λ e. e.name == name) es then some client else lookup name so_far.by_name)
unfolding next_remotes
lookup-next_remotes new_client old name client [] so_far held = refl
lookup-next_remotes new_client old name client (e ∷ es) so_far held =
    lookup-next_remotes new_client old name client es (next_remote new_client old e so_far) held
    ∙ ground (arith, lookup-next_remote new_client old name client e so_far held)

-- The client that is there, or a new one.
abbrev pub client_from : Option ℕ → Option ℕ → Option ℕ
client_from (some client) made = some client
client_from none made = made

abbrev pub client_for : (StateEndpoint → Option ℕ) → Dict Text ℕ → StateEndpoint → Option ℕ
client_for new_client old e = client_from (lookup e.name old) (new_client e)

-- Whether a client is among the entries of a map.
abbrev pub holds : ℕ → Dict Text ℕ → Bool
holds client remotes = any (λ c. c == client) (clients remotes)

holds-insert :
    (client c : ℕ) (name : Text) (d : Dict Text ℕ)
    → (c == client) ≡ false
    → holds client d ≡ false
    → holds client (insert name c d) ≡ false
unfolding insert
holds-insert client c name [] apart h = ground (arith, apart)
holds-insert client c name ((j, w) ∷ d) apart h =
    ground (arith, apart, holds-insert client c name d apart)

holds-next_remote :
    (new_client : StateEndpoint → Option ℕ) (old : Dict Text ℕ) (client : ℕ) (e : StateEndpoint)
    (so_far : NextRemotes)
    → client_for new_client old e ≢ some client
    → holds client so_far.by_name ≡ false
    → holds client (next_remote new_client old e so_far).by_name ≡ false
unfolding next_remote enter
holds-next_remote new_client old client e so_far away h =
    let other : (c : ℕ) → client_for new_client old e ≡ some c → (c == client) ≡ false = λ c is.
      elim (Bool-cases (c == client)) [
        | inr apart ↦ apart
        | inl same ↦ absurd (away (is ∙ ap some ((nat_beq_iff c client).0 same)))
      ] in
    elim (Option-cases (lookup e.name old)) [
      | inr (c, found) ↦
          rw (next_remote, found)
            (holds-insert client c e.name so_far.by_name
              (other c (ap (λ o. client_from o (new_client e)) found)) h)
      | inl absent ↦ elim (Option-cases (new_client e)) [
        | inl unmade ↦ rw (next_remote, absent, unmade) h
        | inr (c, made) ↦
            rw (next_remote, absent, made)
              (holds-insert client c e.name so_far.by_name
                (other c (ap (λ o. client_from o (new_client e)) absent ∙ made)) h)
      ]
    ]

holds-next_remotes :
    (new_client : StateEndpoint → Option ℕ) (old : Dict Text ℕ) (client : ℕ)
    (es : List StateEndpoint) (so_far : NextRemotes)
    → All (λ e. client_for new_client old e ≢ some client) es
    → holds client so_far.by_name ≡ false
    → holds client (next_remotes new_client old es so_far).by_name ≡ false
unfolding next_remotes
holds-next_remotes new_client old client [] so_far away h = h
holds-next_remotes new_client old client (e ∷ es) so_far away h =
    holds-next_remotes new_client old client es (next_remote new_client old e so_far) away.1
      (holds-next_remote new_client old client e so_far away.0 h)

any-append_none : (p : ℕ → Bool) (xs ys : List ℕ) → any p ys ≡ false → any p (xs ++ ys) ≡ any p xs
any-append_none p [] ys h = h
any-append_none p (x ∷ xs) ys h = ground (arith, any-append_none p xs ys h)

-- An update and a Close: an open balancer keeps its client for every endpoint that is still there, and
-- Close closes exactly the clients of the last update, so that a client that an update has for none
-- of its endpoints is closed neither by it nor by Close. An update after Close changes nothing.
pub close-update_state :
    (new_client : StateEndpoint → Option ℕ) (ready : ℕ → Bool) (state : State) (old : Dict Text ℕ)
    (b : PolarisBalancer)
    → b.remote_by_name ≡ some old
    → ((name : Text) (client : ℕ)
        → lookup name old ≡ some client
        → any (λ e. e.name == name) state.endpoints ≡ true
        → lookup name (names_of (update_state new_client ready state b).remote_by_name)
          ≡ some client)
      × ((close ready (update_state new_client ready state b)).closed
          ≡ b.closed ++ clients (names_of (update_state new_client ready state b).remote_by_name))
      × ((client : ℕ)
          → All (λ e. client_for new_client old e ≢ some client) state.endpoints
          → any (λ c. c == client) (close ready (update_state new_client ready state b)).closed
            ≡ any (λ c. c == client) b.closed)
      × (update_state new_client ready state (close ready (update_state new_client ready state b))
          ≡ close ready (update_state new_client ready state b))
unfolding update_open update_state update_from close lookup
close-update_state new_client ready state old b is_open =
    let same = ap (λ o. update_from new_client ready state o b) is_open in
    let left_out : (client : ℕ)
        → All (λ e. client_for new_client old e ≢ some client) state.endpoints
        → any (λ c. c == client) (close ready (update_state new_client ready state b)).closed
          ≡ any (λ c. c == client) b.closed =
      λ client away.
        ap (λ b'. any (λ c. c == client) (b'.closed ++ clients (names_of b'.remote_by_name))) same
        ∙ any-append_none (λ c. c == client) b.closed _
            (holds-next_remotes new_client old client state.endpoints no_remotes away refl) in
    let opened = ap (λ o. update_from new_client ready state o b) is_open in
    (
      (λ name client held there.
          ap (λ b'. lookup name (names_of b'.remote_by_name)) opened
          ∙ lookup-next_remotes new_client old name client state.endpoints no_remotes held
          ∙ rw there refl),
      ap
          (λ b'.
            b'.closed ++ clients (names_of (update_state new_client ready state b).remote_by_name))
          opened,
      left_out,
      refl,
    )
