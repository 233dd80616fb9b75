-- ===== src/Shared/Feed/Turns.antt =====
-- What the turns of the threads do to the generation and to a thread that waits.
use bc3_online_miner.Common.{
  ℕ, ◌+◌, ◌%◌, ◌≤◌, ◌<◌, Option, none, some, List, [], ◌∷◌, ◌==◌, u64_mod, ◌≡◌, refl, subst, arith,
  length, suc, if_cases,
}
use bc3_online_miner.Shared.Job.{MinerJob}
use bc3_online_miner.Shared.Feed.{
  Feed, Waiter, looking, asleep, returned, looked, run_waiter, wake_spuriously, Turn, store, notify,
  clear, count_up, nudged, waiter_runs, spurious, feed_turn, waiter_turn, turns, publish_turns,
  clear_turns, nudge_turns, told_turns, notify_if, store_job, notify_all, publish_job, clear_job,
  drop_job, bump, nudge, nudge_at, look_after,
}

-- Without a turn in between, the turns of an operation are the operation.
turns-publish_job :
    (seen : ℕ) (job : MinerJob) (now : ℕ) (f : Feed) (w : Waiter)
    → turns seen (publish_turns job now) (f, w) ≡ (publish_job job now f, w)
unfolding turns publish_job
turns-publish_job seen job now f w = refl

turns-clear_job :
    (seen : ℕ) (f : Feed) (w : Waiter) → turns seen clear_turns (f, w) ≡ (clear_job f, w)
unfolding turns clear_job
turns-clear_job seen f w = refl

told_turns-notify_if :
    (seen : ℕ) (j : Option MinerJob) (f : Feed) (w : Waiter)
    → turns seen (told_turns j) (f, w) ≡ (notify_if j f, w)
unfolding turns
told_turns-notify_if seen none f w = refl
told_turns-notify_if seen (some job) f w = refl

turns-nudge :
    (seen : ℕ) (f : Feed) (w : Waiter) → turns seen (nudge_turns f.job) (f, w) ≡ (nudge f, w)
unfolding turns nudge
turns-nudge seen f w = told_turns-notify_if seen f.job (nudge_at f.job f) w

-- At least `low` and at most `high` steps of a 64-bit counter.
abbrev pub Ahead : ℕ → ℕ → ℕ → ℕ → Type 0
Ahead low high from to = (n : ℕ) × (low ≤ n) × (n ≤ high) × (to ≡ (from + n) % u64_mod)

pub Ahead-then :
    (low high from mid to : ℕ)
    → Ahead low high from mid
    → Ahead 0 1 mid to
    → Ahead low (suc high) from to
Ahead-then low high from mid to (n, l, h, e) (k, l', h', e') =
    (n + k, omega (arith, l), omega (arith, h, h'), omega (arith, e, e'))

nudge-Ahead :
    (f : Feed) (job : Option MinerJob)
    → f.generation < u64_mod
    → Ahead 0 1 f.generation (nudge_at job f).generation
nudge-Ahead f none small = (0, omega arith, omega arith, omega (arith, small))
nudge-Ahead f (some job) small = (1, omega arith, omega arith, refl)

pub turn-Ahead :
    (t : Turn) (f : Feed)
    → f.generation < u64_mod
    → Ahead 0 1 f.generation (feed_turn t f).generation
unfolding drop_job bump
turn-Ahead (store job now) f small = (1, omega arith, omega arith, refl)
turn-Ahead notify f small = (0, omega arith, omega arith, omega (arith, small))
turn-Ahead clear f small = (0, omega arith, omega arith, omega (arith, small))
turn-Ahead count_up f small = (1, omega arith, omega arith, refl)
turn-Ahead nudged f small = nudge-Ahead f f.job small
turn-Ahead waiter_runs f small = (0, omega arith, omega arith, omega (arith, small))
turn-Ahead spurious f small = (0, omega arith, omega arith, omega (arith, small))

pub Ahead-small : (low high from to : ℕ) → Ahead low high from to → to < u64_mod
Ahead-small low high from to (n, l, h, e) = omega (arith, e)

-- The threads but the one that publishes: it alone also takes jobs away.
abbrev pub IsOther : Turn → Type 0
IsOther (store job now) = ⊥
IsOther clear = ⊥
IsOther count_up = ⊥
IsOther notify = Unit
IsOther nudged = Unit
IsOther waiter_runs = Unit
IsOther spurious = Unit

abbrev pub IsReturned : Waiter → Type 0
IsReturned looking = ⊥
IsReturned (asleep since) = ⊥
IsReturned (returned g j) = Unit

-- It fell asleep no later than now; or before the last notification.
abbrev pub Slept : Feed → Waiter → Type 0
Slept f looking = Unit
Slept f (asleep since) = since ≤ f.notified
Slept f (returned g j) = Unit

abbrev pub Notified : Feed → Waiter → Type 0
Notified f looking = Unit
Notified f (asleep since) = since < f.notified
Notified f (returned g j) = Unit

looked-Slept : (f : Feed) (r : Option (ℕ × MinerJob)) → Slept f (looked f r)
looked-Slept f none = omega arith
looked-Slept f (some r) = tt

pub run_waiter-Slept :
    (seen : ℕ) (f : Feed) (w : Waiter) → Slept f w → Slept f (run_waiter seen f w)
run_waiter-Slept seen f looking h = looked-Slept f (look_after seen f)
run_waiter-Slept seen f (asleep since) h =
    if_cases (Slept f) (f.notified == since) (λ _. h) (λ _. looked-Slept f (look_after seen f))
run_waiter-Slept seen f (returned g j) h = tt

pub Slept-more : (f g : Feed) (w : Waiter) → f.notified ≤ g.notified → Slept f w → Slept g w
Slept-more f g looking le h = tt
Slept-more f g (asleep since) le h = omega (arith, le, h)
Slept-more f g (returned x j) le h = tt

pub Notified-more :
    (f g : Feed) (w : Waiter) → f.notified ≤ g.notified → Notified f w → Notified g w
Notified-more f g looking le h = tt
Notified-more f g (asleep since) le h = omega (arith, le, h)
Notified-more f g (returned x j) le h = tt

pub spurious-Notified : (f : Feed) (w : Waiter) → Notified f w → Notified f (wake_spuriously w)
spurious-Notified f looking h = tt
spurious-Notified f (asleep since) h = tt
spurious-Notified f (returned g j) h = tt

-- A notification reaches whoever sleeps.
pub notify-Notified : (f : Feed) (w : Waiter) → Slept f w → Notified (notify_all f) w
notify-Notified f looking h = tt
notify-Notified f (asleep since) h = omega (arith, h)
notify-Notified f (returned x j) h = tt

pub spurious-Slept : (f : Feed) (w : Waiter) → Slept f w → Slept f (wake_spuriously w)
spurious-Slept f looking h = tt
spurious-Slept f (asleep since) h = tt
spurious-Slept f (returned g j) h = tt

pub nudge-notified : (f : Feed) (j : Option MinerJob) → (nudge_at j f).notified ≡ f.notified
nudge-notified f none = refl
nudge-notified f (some job) = refl

pub turn-Slept :
    (seen : ℕ) (t : Turn) (f : Feed) (w : Waiter)
    → Slept f w
    → Slept (feed_turn t f) (waiter_turn seen t f w)
unfolding drop_job bump
turn-Slept seen (store job now) f w h = Slept-more f (store_job job now f) w (omega arith) h
turn-Slept seen notify f w h = Slept-more f (notify_all f) w (omega arith) h
turn-Slept seen clear f w h = Slept-more f (drop_job f) w (omega arith) h
turn-Slept seen count_up f w h = Slept-more f (bump f) w (omega arith) h
turn-Slept seen nudged f w h =
    Slept-more f (nudge_at f.job f) w (omega (arith, nudge-notified f f.job)) h
turn-Slept seen waiter_runs f w h = run_waiter-Slept seen f w h
turn-Slept seen spurious f w h = spurious-Slept f w h

-- Any turns: the counter has moved on by no more than their number.
abbrev pub Before : ℕ → ℕ → Feed × Waiter → Type 0
Before seen n s = Ahead 0 n seen s.0.generation × Slept s.0 s.1

pub turns-Before :
    (seen n : ℕ) (ts : List Turn) (f : Feed) (w : Waiter)
    → Before seen n (f, w)
    → Before seen (n + length ts) (turns seen ts (f, w))
unfolding turns
turns-Before seen n [] f w h = subst (λ k. Before seen k (f, w)) (omega arith) h
turns-Before seen n (t ∷ ts) f w h =
    let small = Ahead-small 0 n seen f.generation h.0 in
    subst (λ k. Before seen k (turns seen ts (feed_turn t f, waiter_turn seen t f w))) (omega arith)
      (turns-Before seen (suc n) ts (feed_turn t f) (waiter_turn seen t f w) (
        Ahead-then 0 n seen f.generation (feed_turn t f).generation h.0 (turn-Ahead t f small),
        turn-Slept seen t f w h.1,
      ))
