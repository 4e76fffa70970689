-- ===== src/Xds/Traffic/Breaker/Threads.antt =====
-- The compare-and-swap loop of tryAcquireRequest (that of the other resources is the same) run by
-- any number of threads that share one counter. A thread's step is one atomic operation, so a
-- schedule of thread numbers is an interleaving of the threads' loads, swaps and releases. The
-- counter of rejected requests, which no decision reads, is left out.
use yggdrasil_ecosystem.Prelude.{
  ℕ, zero, suc, ◌+◌, ◌≤◌, ◌<◌, ◌≡◌, List, [], ◌∷◌, arith, leb, ◌==◌, nat_eq, if◌then◌else◌, u32,
  u32_mod,
}
use yggdrasil_ecosystem.Xds.Traffic.Breaker.{decrement}

pub data Thread : Type 0 where
  -- Not in a call and without a slot.
  outside : Thread
  -- In the loop, before the load.
  trying : Thread
  -- In the loop, with the value that it loaded, before the test and the swap.
  loaded : ℕ → Thread
  -- With a slot, before the release.
  holding : Thread

-- One atomic step of a thread under the limit `most`: the counter and the thread after it. With no
-- limit a call returns before the loop and counts nothing. A swap
-- fails when the counter is not the loaded value any more; then the loop starts again.
advance : ℕ → ℕ → Thread → ℕ × Thread
advance most counter outside = if most == 0 then (counter, holding) else (counter, trying)
advance most counter trying = (counter, loaded counter)
advance most counter (loaded v) =
    if leb most v
    then (counter, outside)
    else if counter == v
    then (u32 (v + 1), holding)
    else (counter, trying)
advance most counter holding = (decrement counter, outside)

-- The step of the thread with a number; a number of no thread changes nothing.
step : ℕ → ℕ → ℕ → List Thread → ℕ × List Thread
step most i counter [] = (counter, [])
step most zero counter (t ∷ ts) = let (counter', t') = advance most counter t in (counter', t' ∷ ts)
step most (suc i) counter (t ∷ ts) =
    let (counter', ts') = step most i counter ts in (counter', t ∷ ts')

unfoldable pub run : ℕ → List ℕ → ℕ → List Thread → ℕ × List Thread
unfolding step advance
run most [] counter ts = (counter, ts)
run most (i ∷ is) counter ts =
    let (counter', ts') = step most i counter ts in run most is counter' ts'

abbrev slots : Thread → ℕ
slots holding = 1
slots _ = 0

-- How many threads hold a slot.
abbrev pub holders : List Thread → ℕ
holders [] = 0
holders (t ∷ ts) = slots t + holders ts

-- The counter is the number of slots that are held, `k` of them by threads not in the list.
abbrev Exact : ℕ → ℕ → ℕ → List Thread → Type 0
Exact most k counter ts = (counter ≡ k + holders ts) × (counter ≤ most)

advance-Exact :
    (most k counter : ℕ) (t : Thread)
    → 0 < most
    → most < u32_mod
    → (counter ≡ k + slots t) × (counter ≤ most)
    → ((advance most counter t).0 ≡ k + slots (advance most counter t).1)
      × ((advance most counter t).0 ≤ most)
unfolding advance
advance-Exact most k counter outside l m h = ground arith
advance-Exact most k counter trying l m h = ground arith
advance-Exact most k counter (loaded v) l m h = ground arith
advance-Exact most k counter holding l m h = ground arith

step-Exact :
    (most i k counter : ℕ) (ts : List Thread)
    → 0 < most
    → most < u32_mod
    → Exact most k counter ts
    → Exact most k (step most i counter ts).0 (step most i counter ts).1
unfolding step
step-Exact most i k counter [] l m h = h
step-Exact most zero k counter (t ∷ ts) l m h =
    omega (arith, advance-Exact most (k + holders ts) counter t l m (omega arith, h.1))
step-Exact most (suc i) k counter (t ∷ ts) l m h =
    omega (arith, step-Exact most i (k + slots t) counter ts l m (omega arith, h.1))

run-Exact :
    (most counter : ℕ) (is : List ℕ) (ts : List Thread)
    → 0 < most
    → most < u32_mod
    → Exact most 0 counter ts
    → Exact most 0 (run most is counter ts).0 (run most is counter ts).1
unfolding run
run-Exact most counter [] ts l m h = h
run-Exact most counter (i ∷ is) ts l m h =
    run-Exact most (step most i counter ts).0 is (step most i counter ts).1 l m
      (step-Exact most i 0 counter ts l m h)

-- Under a positive limit that is a uint32 and in every interleaving, from threads of which none holds a slot
-- and a counter of 0: the counter is the number of threads that hold a slot, and never passes the
-- limit.
pub run_exact :
    (most : ℕ) (is : List ℕ) (ts : List Thread)
    → 0 < most
    → most < u32_mod
    → holders ts ≡ 0
    → ((run most is 0 ts).0 ≡ holders (run most is 0 ts).1) × (holders (run most is 0 ts).1 ≤ most)
run_exact most is ts l m h = omega (arith, run-Exact most 0 is ts l m (omega arith))
