-- ===== src/Etcd/Registry/Races.antt =====
-- A Register during which the goroutine of an earlier registration leaves.
use yggdrasil_ecosystem.Prelude.{
  ℕ, ◌+◌, ◌≡◌, refl, ap, ◌∙◌, true, false, none, some, arith, nat_eq, nat_beq_iff, Option-cases,
  inl, inr,
}
use yggdrasil_ecosystem.Prelude.Text.{Text, text_eq}
use yggdrasil_ecosystem.Prelude.Dict.{lookup, insert, erase, lookup-insert}
use yggdrasil_ecosystem.Etcd.Registry.{
  Registry, RegistryEntry, Goroutine, Others, Answers, leaving, ended, first_phase, log,
  ttl_seconds, grant_request, put_request, entry_at, drop_entry, begin_register, store_lease,
  put_once, finish_register, start, register_at, deregister_at,
}
use yggdrasil_ecosystem.Etcd.Registry.Loops.{turn, is_stopped, step}
use yggdrasil_ecosystem.Etcd.Registry.Laws.{
  is_accepted, leave_step, drop_missing, lookup-insert_same, lookup-erase_same,
}

-- A turn of the goroutine on a context while Register puts the value, and nothing else.
abbrev pub turn_of : ℕ → Others
turn_of old = record { while_putting = step old turn; after_putting = λ r. r }

-- The first critical section where the key has no entry, and then the turn.
abbrev begun : Text → Registry → Registry
begun key r = record r {
  regs = insert key (record { cancel = some r.next_context; lease = 0 }) r.regs;
  next_context = r.next_context + 1;
}

abbrev raced : Text → ℕ → Goroutine → Registry → Registry
raced key old g r = record (log (grant_request (ttl_seconds r)) (begun key r)) {
  regs = erase g.key (begun key r).regs;
  goroutines = insert old (record g { phase = ended }) r.goroutines;
}

begin_missing :
    (key : Text) (r : Registry) → lookup key r.regs ≡ none → begin_register key r ≡ begun key r
unfolding begin_register
begin_missing key r absent =
    ap {A = Registry}
      (λ r'. record r' {
        regs = insert key (record { cancel = some r.next_context; lease = 0 }) r'.regs;
        next_context = r.next_context + 1;
      })
      (drop_missing key r absent)

put_once-raced :
    (answers : Answers) (key value : Text) (old : ℕ) (g : Goroutine) (r : Registry)
    → is_accepted answers ≡ true
    → lookup old r.goroutines ≡ some g
    → g.phase ≡ leaving
    → (lease : ℕ) × (put_once (step old turn) answers key value (begun key r)
        ≡ (true, store_lease key lease (log (put_request key value lease) (raced key old g r))))
unfolding put_once
put_once-raced answers key value old g r accepted at out = elim (Option-cases answers.granted) [
  | inl refused ↦ absurd (ground (arith, refused, accepted))
  | inr (lease, granted) ↦
      let put : answers.is_put ≡ true = ground (arith, granted, accepted) in
      (
        lease,
        rw (put_once, granted, put)
            (ap (λ x. (true, store_lease key lease (log (put_request key value lease) x)))
              (leave_step old g (log (grant_request (ttl_seconds r)) (begun key r)) at out)),
      )
]

-- The entry that is left has no cancel function.
drop_uncancelled :
    (key : Text) (entry : RegistryEntry) (r : Registry)
    → lookup key r.regs ≡ some entry
    → entry.cancel ≡ none
    → drop_entry key r ≡ r
unfolding drop_entry
drop_uncancelled key entry r found held = rw (drop_entry, found, held) refl

-- What Register leaves: an entry without a cancel function, and its goroutine.
abbrev pub left_at : Text → Text → ℕ → ℕ → Goroutine → Registry → Registry
left_at key value lease old g r =
    start r.next_context key value
      (store_lease key lease (log (put_request key value lease) (raced key old g r)))

register_at-left :
    (answers : Answers) (key value : Text) (old : ℕ) (g : Goroutine) (r : Registry)
    → is_accepted answers ≡ true
    → lookup key r.regs ≡ none
    → lookup old r.goroutines ≡ some g
    → g.phase ≡ leaving
    → (lease : ℕ) × (register_at (turn_of old) answers key value r
        ≡ (true, left_at key value lease old g r))
unfolding register_at finish_register
register_at-left answers key value old g r accepted absent at out =
    let (lease, put) = put_once-raced answers key value old g r accepted at out in
    (
      lease,
      ap
            (λ b.
              finish_register (λ x. x) r.next_context key value
                (put_once (step old turn) answers key value b))
            (begin_missing key r absent)
          ∙ ap (finish_register (λ x. x) r.next_context key value) put,
    )

drop_left :
    (key value : Text) (lease old : ℕ) (g : Goroutine) (r : Registry)
    → g.key ≡ key
    → drop_entry key (left_at key value lease old g r) ≡ left_at key value lease old g r
unfolding store_lease
drop_left key value lease old g r same =
    let erased : lookup key (erase g.key (begun key r).regs) ≡ none =
      ap (λ k. lookup key (erase k (begun key r).regs)) same
      ∙ lookup-erase_same key (begun key r).regs in
    drop_uncancelled key (record (entry_at key (erase g.key (begun key r).regs)) { lease = lease })
      (left_at key value lease old g r) (lookup-insert_same key _ (erase g.key (begun key r).regs))
      (rw (entry_at, erased) refl)

-- A registration that cannot be ended: the goroutine of an earlier one of the same key, which has been
-- deregistered, leaves while Register puts the value, and deletes the new entry. Where the lease is
-- granted and the value is put, Register returns without an error and its goroutine has started, but
-- a Deregister that follows does not stop it.
pub register_at_raced :
    (answers : Answers) (key value : Text) (old : ℕ) (g : Goroutine) (r : Registry)
    → is_accepted answers ≡ true
    → lookup key r.regs ≡ none
    → lookup old r.goroutines ≡ some g
    → g.phase ≡ leaving
    → g.key ≡ key
    → is_stopped r.next_context r ≡ false
    → ((register_at (turn_of old) answers key value r).0 ≡ true)
      × (lookup r.next_context
            (deregister_at key (register_at (turn_of old) answers key value r).1).goroutines
          ≡ some (record { key = key; value = value; phase = first_phase r.cfg }))
      × (is_stopped r.next_context
            (deregister_at key (register_at (turn_of old) answers key value r).1)
          ≡ false)
unfolding deregister_at store_lease
register_at_raced answers key value old g r accepted absent at out same live =
    let (lease, done) = register_at-left answers key value old g r accepted absent at out in
    rw (done, drop_left key value lease old g r same)
      (
        refl,
        lookup-insert r.next_context r.next_context
              (record { key = key; value = value; phase = first_phase r.cfg })
              (insert old (record g { phase = ended }) r.goroutines)
            ∙ ground (arith, nat_beq_iff r.next_context r.next_context),
        live,
      )
