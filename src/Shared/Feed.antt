-- ===== src/Shared/Feed.antt =====
-- src/shared.rs: the current job and its generation - `publish_job`, `clear_job`, `nudge` and
-- `wait_for_job_after`, with the condition variable on which the workers wait. What a thread does
-- under the lock of the job is one turn, and so is a notification; an interleaving is a sequence of
-- turns. Of `note_pow` the current PoW is modelled here, the best share in Best; what is only
-- printed is left out. Times are microseconds.
pub mod Turns
mod Others
pub mod Latest
use bc3_online_miner.Common.{
  ℕ, ◌+◌, ◌%◌, Option, none, some, List, [], ◌∷◌, ◌++◌, ◌==◌, if◌then◌else◌, u32_mod, u64_mod,
}
use bc3_online_miner.Consensus.Pow.{PowAlgo}
use bc3_online_miner.Shared.Job.{MinerJob}

pub record Feed : Type 0 where
  pub job : Option MinerJob
  pub generation : ℕ
  pub job_since : ℕ
  pub algo : Option PowAlgo
  pub network_bits : ℕ
  pub job_height : ℕ
  -- calls of `job_cv.notify_all`, each of which wakes the threads that wait by then
  pub notified : ℕ

-- `generation.fetch_add(1)`
abbrev pub bumped : ℕ → ℕ
bumped generation = (generation + 1) % u64_mod

abbrev since_of : Option MinerJob → ℕ → ℕ → ℕ
since_of none now since = now
since_of (some job) now since = since

abbrev height_of : Option ℕ → ℕ → ℕ
height_of none height = height
height_of (some h) height = h

-- `publish_job` up to the end of its lock, and its notification.
abbrev pub store_job : MinerJob → ℕ → Feed → Feed
store_job job now f = record {
  job = some job;
  generation = bumped f.generation;
  job_since = since_of f.job now f.job_since;
  algo = some job.algo;
  network_bits = job.bits;
  job_height = height_of job.height f.job_height;
  notified = f.notified;
}

abbrev pub notify_all : Feed → Feed
notify_all f = record f { notified = f.notified + 1 }

unfoldable pub publish_job : MinerJob → ℕ → Feed → Feed
publish_job job now f = notify_all (store_job job now f)

-- The two halves of `clear_job`.
unfoldable pub drop_job : Feed → Feed
drop_job f = record f { job = none }

unfoldable pub bump : Feed → Feed
bump f = record f { generation = bumped f.generation }

unfoldable pub clear_job : Feed → Feed
unfolding drop_job bump
clear_job f = bump (drop_job f)

-- What `nudge` does under the lock: nothing without a job.
abbrev pub nudge_at : Option MinerJob → Feed → Feed
nudge_at none f = f
nudge_at (some job) f = record f { generation = bumped f.generation }

abbrev pub notify_if : Option MinerJob → Feed → Feed
notify_if none f = f
notify_if (some job) f = notify_all f

unfoldable pub nudge : Feed → Feed
nudge f = notify_if f.job (nudge_at f.job f)

abbrev with_generation : ℕ → Option MinerJob → Option (ℕ × MinerJob)
with_generation generation none = none
with_generation generation (some job) = some (generation, job)

-- One look of `wait_for_job_after` under the lock: what it returns, or nothing.
unfoldable pub look_after : ℕ → Feed → Option (ℕ × MinerJob)
look_after seen f = if f.generation == seen then none else with_generation f.generation f.job

-- A thread in `wait_for_job_after`: about to look, asleep since so many notifications, or back with a
-- generation and a job.
pub data Waiter : Type 0 where
  looking : Waiter
  asleep : (since : ℕ) → Waiter
  returned : ℕ → MinerJob → Waiter

-- After a look without a result `job_cv.wait` gives up the lock and sleeps at once.
abbrev pub looked : Feed → Option (ℕ × MinerJob) → Waiter
looked f none = asleep f.notified
looked f (some (generation, job)) = returned generation job

-- The waiting thread gets to run: asleep, it goes on only once it has been notified.
abbrev pub run_waiter : ℕ → Feed → Waiter → Waiter
run_waiter seen f looking = looked f (look_after seen f)
run_waiter seen f (asleep since) =
    if f.notified == since then asleep since else looked f (look_after seen f)
run_waiter seen f (returned generation job) = returned generation job

-- A wait may end without a notification.
abbrev pub wake_spuriously : Waiter → Waiter
wake_spuriously (asleep since) = looking
wake_spuriously w = w

-- What any thread does next: the steps of `publish_job`, of `clear_job` and of `nudge`, a run of the
-- waiting thread, and a wake-up of it for no reason.
pub data Turn : Type 0 where
  store : MinerJob → ℕ → Turn
  notify : Turn
  clear : Turn
  count_up : Turn
  nudged : Turn
  waiter_runs : Turn
  spurious : Turn

abbrev pub feed_turn : Turn → Feed → Feed
feed_turn (store job now) f = store_job job now f
feed_turn notify f = notify_all f
feed_turn clear f = drop_job f
feed_turn count_up f = bump f
feed_turn nudged f = nudge_at f.job f
feed_turn waiter_runs f = f
feed_turn spurious f = f

abbrev pub waiter_turn : ℕ → Turn → Feed → Waiter → Waiter
waiter_turn seen waiter_runs f w = run_waiter seen f w
waiter_turn seen spurious f w = wake_spuriously w
waiter_turn seen _ f w = w

unfoldable pub turns : ℕ → List Turn → Feed × Waiter → Feed × Waiter
unfolding drop_job bump look_after
turns seen [] s = s
turns seen (t ∷ ts) (f, w) = turns seen ts (feed_turn t f, waiter_turn seen t f w)

-- The turns of the operations.
abbrev pub publish_turns : MinerJob → ℕ → List Turn
publish_turns job now = store job now ∷ notify ∷ []

abbrev pub clear_turns : List Turn
clear_turns = clear ∷ count_up ∷ []

abbrev pub told_turns : Option MinerJob → List Turn
told_turns none = []
told_turns (some job) = notify ∷ []

abbrev pub nudge_turns : Option MinerJob → List Turn
nudge_turns job = nudged ∷ told_turns job

-- The turns of one thread, each with those of the others that come after it.
abbrev pub weave : List Turn → List (List Turn) → List Turn
weave [] gaps = []
weave (t ∷ own) [] = t ∷ own
weave (t ∷ own) (gap ∷ gaps) = t ∷ (gap ++ weave own gaps)
