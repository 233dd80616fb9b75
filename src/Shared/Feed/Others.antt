-- ===== src/Shared/Feed/Others.antt =====
-- What is so from the moment at which a new job is stored, whatever the other threads do.
use bc3_online_miner.Common.{
  ℕ, ◌<◌, Option, none, some, ◌==◌, u64_mod, ◌≡◌, ◌≢◌, refl, ◌∙◌, ap, subst, sym, arith, suc, false,
  if_cases,
}
use bc3_online_miner.Shared.Job.{MinerJob}
use bc3_online_miner.Shared.Feed.{
  Feed, Waiter, looking, asleep, returned, looked, run_waiter, wake_spuriously, Turn, store, notify,
  clear, count_up, nudged, waiter_runs, spurious, feed_turn, waiter_turn, notify_all, nudge_at,
  look_after,
}
use bc3_online_miner.Shared.Feed.Turns.{
  Ahead, Ahead-then, Ahead-small, turn-Ahead, Notified, IsOther, nudge-notified, Notified-more,
  spurious-Notified,
}

look_after-fresh :
    (seen : ℕ) (f : Feed) (job : MinerJob)
    → f.generation ≢ seen
    → f.job ≡ some job
    → look_after seen f ≡ some (f.generation, job)
unfolding look_after
look_after-fresh seen f job new here =
    let other : (f.generation == seen) ≡ false = ground (arith, new) in rw (other, here) refl

nudge-job : (f : Feed) (job : Option MinerJob) → (nudge_at job f).job ≡ f.job
nudge-job f none = refl
nudge-job f (some job) = refl

module _ (seen : ℕ) (small_seen : seen < u64_mod) (job : MinerJob) where
  -- A thread that has returned has the job, with another generation than `seen`.
  abbrev pub HasJob : Waiter → Type 0
  HasJob looking = Unit
  HasJob (asleep since) = Unit
  HasJob (returned g j) = (g ≢ seen) × (j ≡ job)

  -- The job is there, `n` steps of the counter at most from `seen`.
  abbrev pub Here : ℕ → Feed → Type 0
  Here n f = (f.job ≡ some job) × Ahead 1 n seen f.generation

  Here-new : (n : ℕ) (f : Feed) → n < u64_mod → Here n f → f.generation ≢ seen
  Here-new n f few (at, (k, l, h, e)) = λ same. omega (arith, same, e, l, h, few, small_seen)

  pub other-Here :
      (n : ℕ) (t : Turn) (f : Feed) → IsOther t → Here n f → Here (suc n) (feed_turn t f)
  other-Here n (store j now) f h (at, a) = absurd h
  other-Here n clear f h (at, a) = absurd h
  other-Here n count_up f h (at, a) = absurd h
  other-Here n notify f h (at, a) = (
    at,
    Ahead-then 1 n seen f.generation f.generation a
        (turn-Ahead notify f (Ahead-small 1 n seen f.generation a)),
  )
  other-Here n nudged f h (at, a) = (
    nudge-job f f.job ∙ at,
    Ahead-then 1 n seen f.generation (nudge_at f.job f).generation a
        (turn-Ahead nudged f (Ahead-small 1 n seen f.generation a)),
  )
  other-Here n waiter_runs f h (at, a) = (
    at,
    Ahead-then 1 n seen f.generation f.generation a
        (turn-Ahead waiter_runs f (Ahead-small 1 n seen f.generation a)),
  )
  other-Here n spurious f h (at, a) = (
    at,
    Ahead-then 1 n seen f.generation f.generation a
        (turn-Ahead spurious f (Ahead-small 1 n seen f.generation a)),
  )

  looks :
      (n : ℕ) (f : Feed)
      → n < u64_mod
      → Here n f
      → looked f (look_after seen f) ≡ returned f.generation job
  looks n f few here = ap (looked f) (look_after-fresh seen f job (Here-new n f few here) here.0)

  -- What a run of the waiting thread comes to once the job is there.
  run-HasJob :
      (n : ℕ) (f : Feed) (w : Waiter)
      → n < u64_mod
      → Here n f
      → HasJob w
      → HasJob (run_waiter seen f w)
  run-HasJob n f looking few here h =
      subst HasJob (sym (looks n f few here)) (Here-new n f few here, refl)
  run-HasJob n f (asleep since) few here h =
      if_cases HasJob (f.notified == since) (λ _. tt)
        (λ _. subst HasJob (sym (looks n f few here)) (Here-new n f few here, refl))
  run-HasJob n f (returned g j) few here h = h

  pub run-returns :
      (n : ℕ) (f : Feed) (w : Waiter)
      → n < u64_mod
      → Here n f
      → HasJob w
      → Notified f w
      → (g : ℕ) × (run_waiter seen f w ≡ returned g job) × (g ≢ seen)
  run-returns n f looking few here h told =
      (f.generation, looks n f few here, Here-new n f few here)
  run-returns n f (asleep since) few here h told =
      let woken : (f.notified == since) ≡ false = ground (arith, told) in
      (f.generation, rw woken (looks n f few here), Here-new n f few here)
  run-returns n f (returned g j) few here h told = (g, ap (returned g) h.1, h.0)

  spurious-HasJob : (w : Waiter) → HasJob w → HasJob (wake_spuriously w)
  spurious-HasJob looking h = tt
  spurious-HasJob (asleep since) h = tt
  spurious-HasJob (returned g j) h = h

  pub other-HasJob :
      (n : ℕ) (t : Turn) (f : Feed) (w : Waiter)
      → n < u64_mod
      → IsOther t
      → Here n f
      → HasJob w
      → HasJob (waiter_turn seen t f w)
  other-HasJob n (store j now) f w few o here h = absurd o
  other-HasJob n clear f w few o here h = absurd o
  other-HasJob n count_up f w few o here h = absurd o
  other-HasJob n notify f w few o here h = h
  other-HasJob n nudged f w few o here h = h
  other-HasJob n waiter_runs f w few o here h = run-HasJob n f w few here h
  other-HasJob n spurious f w few o here h = spurious-HasJob w h

  pub other-Notified :
      (n : ℕ) (t : Turn) (f : Feed) (w : Waiter)
      → n < u64_mod
      → IsOther t
      → Here n f
      → HasJob w
      → Notified f w
      → Notified (feed_turn t f) (waiter_turn seen t f w)
  other-Notified n (store j now) f w few o here h told = absurd o
  other-Notified n clear f w few o here h told = absurd o
  other-Notified n count_up f w few o here h told = absurd o
  other-Notified n notify f w few o here h told =
      Notified-more f (notify_all f) w (omega arith) told
  other-Notified n nudged f w few o here h told =
      Notified-more f (nudge_at f.job f) w (omega (arith, nudge-notified f f.job)) told
  other-Notified n waiter_runs f w few o here h told =
      subst (Notified f) (sym (run-returns n f w few here h told).1) tt
  other-Notified n spurious f w few o here h told = spurious-Notified f w told
