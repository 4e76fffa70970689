-- ===== src/Etcd/Registry/Loops/Ending.antt =====
-- A goroutine whose context is done, or whose registry is closed, ends.
use yggdrasil_ecosystem.Prelude.{
  ℕ, ◌+◌, ◌≤◌, ◌<◌, ◌≡◌, ◌≢◌, ap, ◌⊎◌, inl, inr, refl, true, List, [], ◌∷◌, suc, ◌∙◌, nat_eq,
  nat_beq_iff, some, ltb, if◌then◌else◌, arith,
}
use yggdrasil_ecosystem.Etcd.Registry.{
  Registry, Goroutine, store_lease, Phase, checking, granting, keeping, putting, storing, listening,
  waiting, plain, leaving, ended,
}
use yggdrasil_ecosystem.Etcd.Registry.Loops.{
  Event, turn, stop, failed, go_on, is_stopped, effect, step_goroutine, step,
}
use yggdrasil_ecosystem.Prelude.Dict.{lookup, member, lookup-insert}

-- How many steps are left at most.
abbrev pub rank : Phase → ℕ
rank granting = 8
rank (keeping lease) = 7
rank (putting lease) = 6
rank (storing lease) = 5
rank (listening lease) = 4
rank waiting = 3
rank checking = 2
rank plain = 2
rank leaving = 1
rank ended = 0

go_on-rank :
    (event : Event) (p : Phase) → (go_on true event p ≡ p) ⊎ (rank (go_on true event p) < rank p)
unfolding go_on
go_on-rank event checking = ground arith
go_on-rank event granting = ground arith
go_on-rank event (keeping lease) = ground arith
go_on-rank event (putting lease) = ground arith
go_on-rank event (storing lease) = ground arith
go_on-rank event (listening lease) = ground arith
go_on-rank event waiting = ground arith
go_on-rank event plain = ground arith
go_on-rank event leaving = ground arith
go_on-rank event ended = ground arith

rank_bound : (p : Phase) → rank p ≤ 8
rank_bound checking = omega arith
rank_bound granting = omega arith
rank_bound (keeping lease) = omega arith
rank_bound (putting lease) = omega arith
rank_bound (storing lease) = omega arith
rank_bound (listening lease) = omega arith
rank_bound waiting = omega arith
rank_bound plain = omega arith
rank_bound leaving = omega arith
rank_bound ended = omega arith

-- The phase of a stopped goroutine after events, and how many of them have moved it.
abbrev pub run_phase : List Event → Phase → Phase
run_phase [] p = p
run_phase (e ∷ es) p = run_phase es (go_on true e p)

abbrev pub moves : List Event → Phase → ℕ
moves [] p = 0
moves (e ∷ es) p =
    let rest = moves es (go_on true e p) in
    if ltb (rank (go_on true e p)) (rank p) then suc rest else rest

moves-le-rank : (es : List Event) (p : Phase) → moves es p + rank (run_phase es p) ≤ rank p
moves-le-rank [] p = omega arith
moves-le-rank (e ∷ es) p = elim (go_on-rank e p) [
  | inl same ↦ rw same (grind (arith, moves-le-rank es p))
  | inr lower ↦ grind (arith, moves-le-rank es (go_on true e p))
]

-- An event that moves a goroutine that has not ended.
abbrev pub mover : Phase → Event
mover checking = turn
mover granting = failed
mover (keeping lease) = failed
mover (putting lease) = failed
mover (storing lease) = turn
mover (listening lease) = stop
mover waiting = stop
mover plain = stop
mover leaving = turn
mover ended = turn

go_on-mover : (p : Phase) → p ≢ ended → rank (go_on true (mover p) p) < rank p
unfolding go_on
go_on-mover ended h = absurd (h refl)
go_on-mover checking h = omega arith
go_on-mover granting h = omega arith
go_on-mover (keeping lease) h = omega arith
go_on-mover (putting lease) h = omega arith
go_on-mover (storing lease) h = omega arith
go_on-mover (listening lease) h = omega arith
go_on-mover waiting h = omega arith
go_on-mover plain h = omega arith
go_on-mover leaving h = omega arith

-- The registry's goroutine goes through these phases.
abbrev pub steps : ℕ → List Event → Registry → Registry
steps context [] r = r
steps context (e ∷ es) r = steps context es (step context e r)

is_stopped-effect :
    (context : ℕ) (g : Goroutine) (e : Event) (p : Phase) (r : Registry)
    → is_stopped context r ≡ true
    → is_stopped context (effect context g e p r) ≡ true
unfolding effect store_lease member
is_stopped-effect context g e checking r h = ground arith
is_stopped-effect context g e granting r h = ground arith
is_stopped-effect context g e (keeping lease) r h = ground arith
is_stopped-effect context g e (putting lease) r h = ground arith
is_stopped-effect context g e (storing lease) r h = ground arith
is_stopped-effect context g e (listening lease) r h = ground arith
is_stopped-effect context g e waiting r h = ground arith
is_stopped-effect context g e plain r h = ground arith
is_stopped-effect context g e leaving r h = ground arith
is_stopped-effect context g e ended r h = ground arith

goroutines-effect :
    (context : ℕ) (g : Goroutine) (e : Event) (p : Phase) (r : Registry)
    → (effect context g e p r).goroutines ≡ r.goroutines
unfolding effect store_lease
goroutines-effect context g e checking r = ground arith
goroutines-effect context g e granting r = ground arith
goroutines-effect context g e (keeping lease) r = ground arith
goroutines-effect context g e (putting lease) r = ground arith
goroutines-effect context g e (storing lease) r = ground arith
goroutines-effect context g e (listening lease) r = ground arith
goroutines-effect context g e waiting r = ground arith
goroutines-effect context g e plain r = ground arith
goroutines-effect context g e leaving r = ground arith
goroutines-effect context g e ended r = ground arith

step_at :
    (context : ℕ) (e : Event) (g : Goroutine) (r : Registry)
    → lookup context r.goroutines ≡ some g
    → step context e r ≡ step_goroutine context e g r
unfolding step
step_at context e g r at = rw (step, at) refl

goroutine_step :
    (context : ℕ) (e : Event) (g : Goroutine) (r : Registry)
    → is_stopped context r ≡ true
    → lookup context (step_goroutine context e g r).goroutines
      ≡ some (record g { phase = go_on true e g.phase })
unfolding step_goroutine
goroutine_step context e g r h = rw h (
    lookup-insert context context (record g { phase = go_on true e g.phase })
      (effect context g e g.phase r).goroutines
    ∙ grind (arith, nat_beq_iff context context))

is_stopped-step :
    (context : ℕ) (e : Event) (g : Goroutine) (r : Registry)
    → is_stopped context r ≡ true
    → is_stopped context (step_goroutine context e g r) ≡ true
unfolding step_goroutine
is_stopped-step context e g r h = is_stopped-effect context g e g.phase r h

goroutine_after :
    (context : ℕ) (es : List Event) (g : Goroutine) (r : Registry)
    → lookup context r.goroutines ≡ some g
    → is_stopped context r ≡ true
    → lookup context (steps context es r).goroutines
      ≡ some (record g { phase = run_phase es g.phase })
goroutine_after context [] g r at h = at
goroutine_after context (e ∷ es) g r at h =
    ap (λ s. lookup context (steps context es s).goroutines) (step_at context e g r at)
    ∙ goroutine_after context es (record g { phase = go_on true e g.phase })
        (step_goroutine context e g r) (goroutine_step context e g r h)
        (is_stopped-step context e g r h)

-- The goroutine of a cancelled context, or of a closed registry, ends: the events that move it are at
-- most as many as its rank, which is at most 8, less the rank it comes to; and as long as it has not
-- ended, there is an event that moves it.
pub steps-rank :
    (context : ℕ) (es : List Event) (g : Goroutine) (r : Registry)
    → lookup context r.goroutines ≡ some g
    → is_stopped context r ≡ true
    → (h : Goroutine) × (lookup context (steps context es r).goroutines ≡ some h)
      × (moves es g.phase + rank h.phase ≤ rank g.phase)
      × (rank g.phase ≤ 8)
      × (h.phase ≢ ended → rank (go_on true (mover h.phase) h.phase) < rank h.phase)
steps-rank context es g r at h = (
  record g { phase = run_phase es g.phase },
  goroutine_after context es g r at h,
  moves-le-rank es g.phase,
  rank_bound g.phase,
  go_on-mover (run_phase es g.phase),
)
