-- ===== src/Etcd/Registry/Laws.antt =====
-- What Register and Deregister do, and a registration that Deregister does not end.
use yggdrasil_ecosystem.Prelude.{
  ℕ, ◌≡◌, ◌≢◌, ◌⊎◌, ◌&&◌, is_some, ap, refl, ◌∙◌, inl, inr, Bool, true, false, none, some, ◌∷◌,
  arith, nat_eq, nat_beq_iff, Option-cases, Bool-cases,
}
use yggdrasil_ecosystem.Prelude.Text.{Text, text_eq, text_beq_iff}
use yggdrasil_ecosystem.Prelude.Dict.{
  Dict, lookup, insert, erase, member, lookup-insert, lookup-erase,
}
use yggdrasil_ecosystem.Etcd.Registry.{
  Registry, RegistryEntry, Goroutine, Answers, leaving, ended, first_phase, no_entry, log,
  ttl_seconds, grant_request, Others, entry_at, drop_entry, begin_register, store_lease, put_once,
  finish_register, register_at, deregister_at,
}
use yggdrasil_ecosystem.Etcd.Registry.Loops.{turn, is_stopped, effect, go_on, step_goroutine, step}

pub leave_step :
    (old : ℕ) (g : Goroutine) (r : Registry)
    → lookup old r.goroutines ≡ some g
    → g.phase ≡ leaving
    → step old turn r ≡ record r {
      regs = erase g.key r.regs;
      goroutines = insert old (record g { phase = ended }) r.goroutines;
    }
unfolding step step_goroutine effect go_on
leave_step old g r at out = rw (step, at, step_goroutine, out) refl

pub drop_missing : (key : Text) (r : Registry) → lookup key r.regs ≡ none → drop_entry key r ≡ r
unfolding drop_entry
drop_missing key r absent = rw (drop_entry, absent) refl

-- A goroutine that leaves deletes the entry at its key, whichever registration that is of: a newer
-- registration of the key is then not ended by Deregister, and its goroutine goes on.
pub deregister_at_stale :
    (old new : ℕ) (g h : Goroutine) (r : Registry)
    → lookup old r.goroutines ≡ some g
    → g.phase ≡ leaving
    → lookup new r.goroutines ≡ some h
    → h.key ≡ g.key
    → old ≢ new
    → is_stopped new r ≡ false
    → (lookup new (deregister_at h.key (step old turn r)).goroutines ≡ some h)
      × (is_stopped new (deregister_at h.key (step old turn r)) ≡ false)
unfolding deregister_at
deregister_at_stale old new g h r at out at' same apart live =
    let left = record r {
      regs = erase g.key r.regs;
      goroutines = insert old (record g { phase = ended }) r.goroutines;
    } in
    let gone : lookup h.key left.regs ≡ none =
      grind (arith, lookup-erase g.key h.key r.regs, text_beq_iff g.key h.key, same) in
    rw (leave_step old g r at out, drop_missing h.key left gone)
      (
        grind (
          arith,
          lookup-insert old new (record g { phase = ended }) r.goroutines,
          nat_beq_iff old new,
          at',
        ),
        live,
      )

goroutines-drop_entry : (key : Text) (r : Registry) → (drop_entry key r).goroutines ≡ r.goroutines
unfolding drop_entry
goroutines-drop_entry key r = ground arith

-- A registration on its context that Deregister of its key ends.
pub record IsRegistered (key value : Text) (context : ℕ) (r : Registry) : Type 0 where
  pub entered :
      (entry : RegistryEntry) × (lookup key r.regs ≡ some entry) × (entry.cancel ≡ some context)
  pub started :
      lookup context r.goroutines
      ≡ some (record { key = key; value = value; phase = first_phase r.cfg })
  pub ends : is_stopped context (deregister_at key r) ≡ true
  pub leaves : lookup key (deregister_at key r).regs ≡ none

-- A registration that has failed.
pub record IsRefused (key : Text) (context : ℕ) (before r : Registry) : Type 0 where
  pub absent : lookup key r.regs ≡ none
  pub stopped : is_stopped context r ≡ true
  pub unstarted : lookup context r.goroutines ≡ lookup context before.goroutines

-- Something that leaves the key's entry and the context alone: its goroutine, and that it has been
-- cancelled.
pub record IsAside (key : Text) (context : ℕ) (f : Registry → Registry) : Type 0 where
  pub entry : (r : Registry) → lookup key (f r).regs ≡ lookup key r.regs
  pub goroutine : (r : Registry) → lookup context (f r).goroutines ≡ lookup context r.goroutines
  pub stopped : (r : Registry) → is_stopped context r ≡ true → is_stopped context (f r) ≡ true

drop_found :
    (key : Text) (context : ℕ) (entry : RegistryEntry) (r : Registry)
    → lookup key r.regs ≡ some entry
    → entry.cancel ≡ some context
    → drop_entry key r ≡ record r { cancelled = context ∷ r.cancelled; regs = erase key r.regs }
unfolding drop_entry
drop_found key context entry r found held = rw (drop_entry, found, held) refl

pub lookup-insert_same :
    {V : Type 0} (key : Text) (x : V) (d : Dict Text V) → lookup key (insert key x d) ≡ some x
lookup-insert_same key x d = grind (arith, lookup-insert key key x d, text_beq_iff key key)

pub lookup-erase_same :
    {V : Type 0} (key : Text) (d : Dict Text V) → lookup key (erase key d) ≡ none
lookup-erase_same key d = grind (arith, lookup-erase key key d, text_beq_iff key key)

-- Where an entry and a goroutine are there, Deregister ends the goroutine.
IsRegistered-started :
    (key value : Text) (context : ℕ) (entry : RegistryEntry) (r : Registry)
    → lookup key r.regs ≡ some entry
    → entry.cancel ≡ some context
    → lookup context r.goroutines
      ≡ some (record { key = key; value = value; phase = first_phase r.cfg })
    → IsRegistered key value context r
unfolding deregister_at member
IsRegistered-started key value context entry r found held started = record {
  entered = (entry, found, held);
  started = started;
  ends =
      rw (drop_found key context entry r found held) (ground (arith, nat_beq_iff context context));
  leaves = rw (drop_found key context entry r found held) (lookup-erase_same key r.regs);
}

-- Whether the lease is granted and the value is put.
abbrev pub is_accepted : Answers → Bool
is_accepted answers = is_some answers.granted && answers.is_put

-- The registry after putOnce has succeeded, and after it has failed.
put_once_cases :
    (meanwhile : Registry → Registry) (answers : Answers) (key value : Text) (context : ℕ)
    (r : Registry)
    → IsAside key context meanwhile
    → ((is_accepted answers ≡ true)
        × ((put_once meanwhile answers key value r).0 ≡ true)
        × (lease : ℕ) × (lookup key (put_once meanwhile answers key value r).1.regs
            ≡ some (record (entry_at key r.regs) { lease = lease })))
      ⊎ ((is_accepted answers ≡ false)
          × ((put_once meanwhile answers key value r).0 ≡ false)
          × (lookup context (put_once meanwhile answers key value r).1.goroutines
              ≡ lookup context r.goroutines))
unfolding put_once store_lease
put_once_cases meanwhile answers key value context r aside =
    let asked = log (grant_request (ttl_seconds r)) r in
    elim (Option-cases answers.granted) [
      | inl refused ↦ rw (put_once, refused) (inr (refl, refl, aside.goroutine asked))
      | inr (lease, granted) ↦ elim (Bool-cases answers.is_put) [
        | inl put ↦
            rw (put_once, granted, put)
              (inl (
                refl,
                refl,
                lease,
                lookup-insert_same key _ (meanwhile asked).regs
                    ∙ ap
                        (λ o. some (record (elim o [ none ↦ no_entry | some entry ↦ entry ]) {
                          lease = lease;
                        }))
                        (aside.entry asked),
              ))
        | inr unput ↦ rw (put_once, granted, unput) (inr (refl, refl, aside.goroutine asked))
      ]
    ]

finish_register-IsRefused :
    (meanwhile : Registry → Registry) (context : ℕ) (key value : Text) (b : Bool)
    (before r : Registry)
    → IsAside key context meanwhile
    → b ≡ false
    → lookup context r.goroutines ≡ lookup context before.goroutines
    → ((finish_register meanwhile context key value (b, r)).0 ≡ false)
      × IsRefused key context before (finish_register meanwhile context key value (b, r)).1
unfolding finish_register member
finish_register-IsRefused meanwhile context key value true before r aside h same = absurd (cc h)
finish_register-IsRefused meanwhile context key value false before r aside h same =
    let ending = record r { cancelled = context ∷ r.cancelled } in
    (
      refl,
      record {
        absent = lookup-erase_same key (meanwhile ending).regs;
        stopped = aside.stopped ending (ground (arith, nat_beq_iff context context));
        unstarted = aside.goroutine ending ∙ same;
      },
    )

finish_register-IsRegistered :
    (meanwhile : Registry → Registry) (context : ℕ) (key value : Text) (b : Bool)
    (entry : RegistryEntry) (r : Registry)
    → IsAside key context meanwhile
    → b ≡ true
    → lookup key r.regs ≡ some entry
    → entry.cancel ≡ some context
    → ((finish_register meanwhile context key value (b, r)).0 ≡ true)
      × IsRegistered key value context (finish_register meanwhile context key value (b, r)).1
unfolding finish_register
finish_register-IsRegistered meanwhile context key value false entry r aside h found held =
    absurd (cc h)
finish_register-IsRegistered meanwhile context key value true entry r aside h found held = (
  refl,
  IsRegistered-started key value context entry _ (aside.entry r ∙ found) held (
      lookup-insert context context
        (record { key = key; value = value; phase = first_phase (meanwhile r).cfg })
        (meanwhile r).goroutines
      ∙ ground (arith, nat_beq_iff context context)),
)

begin_entry :
    (key : Text) (r : Registry)
    → lookup key (begin_register key r).regs
      ≡ some (record { cancel = some r.next_context; lease = 0 })
unfolding begin_register
begin_entry key r = lookup-insert_same key _ (drop_entry key r).regs

entry_cancel :
    (key : Text) (r : Registry)
    → (entry_at key (begin_register key r).regs).cancel ≡ some r.next_context
entry_cancel key r = rw (entry_at, begin_entry key r) refl

begin_goroutines : (key : Text) (r : Registry) → (begin_register key r).goroutines ≡ r.goroutines
unfolding begin_register
begin_goroutines key r = goroutines-drop_entry key r

-- Where others leave the key's entry and the new context alone while Register runs, it returns without
-- an error where the lease is granted and the value is put: then the key's entry can cancel the new
-- context, whose goroutine has started, and a Deregister that follows cancels it and deletes the
-- entry. Otherwise it returns an error: there is no entry at the key, no goroutine has started on the
-- context, and the context is cancelled.
pub register_at_cases :
    (others : Others) (answers : Answers) (key value : Text) (r : Registry)
    → IsAside key r.next_context others.while_putting
    → IsAside key r.next_context others.after_putting
    → ((is_accepted answers ≡ true)
        × ((register_at others answers key value r).0 ≡ true)
        × IsRegistered key value r.next_context (register_at others answers key value r).1)
      ⊎ ((is_accepted answers ≡ false)
          × ((register_at others answers key value r).0 ≡ false)
          × IsRefused key r.next_context r (register_at others answers key value r).1)
unfolding register_at
register_at_cases others answers key value r first last =
    let begun = begin_register key r in
    let done = put_once others.while_putting answers key value begun in
    elim (put_once_cases others.while_putting answers key value r.next_context begun first) [
      | inl (accepted, ok, lease, entered) ↦
          let (returned, registered) =
            finish_register-IsRegistered others.after_putting r.next_context key value done.0
              (record (entry_at key begun.regs) { lease = lease }) done.1 last ok entered
              (entry_cancel key r) in
          inl (accepted, returned, registered)
      | inr (refused, failed, goroutines) ↦
          let (returned, left) =
            finish_register-IsRefused others.after_putting r.next_context key value done.0 r done.1
              last failed (goroutines ∙ ap (lookup r.next_context) (begin_goroutines key r)) in
          inr (refused, returned, left)
    ]
