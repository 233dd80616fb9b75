-- ===== src/Shared/Examples.antt =====
-- src/shared.rs: two cards, one of which has stopped.
use bc3_online_miner.Common.{◌<◌}
use bc3_online_miner.Common.{
  List, ◌⊎◌, naturals, ◌-◌, ◌^◌, ◌++◌, ◌≢◌, none, replicate, ℕ, true, false, Bool, some, [], ◌∷◌,
  ◌≡◌, refl, arith, ◌↔◌,
}
use bc3_online_miner.Consensus.Pow.{PowAlgo, PowFn, bc3_hash, sha256d, sha3t, algo_eq}
use bc3_online_miner.Shared.Job.{MinerJob}
use bc3_online_miner.Worker.Role.{ready, cpu_supports}
use bc3_online_miner.Shared.Plan.{plan_cpu, plan_of, status, devices_for, auto}
use bc3_online_miner.Shared.Plan.Told.{CpuMines, status-CpuMines}
use bc3_online_miner.Shared.Best.{PowTurn, job_of_pow, share_found, pow_after, best_difficulty}
use bc3_online_miner.Shared.Best.Maximum.{IsStrict, IsBest, since, pow_after-IsBest}
use bc3_online_miner.Shared.Feed.{
  Feed, turns, Turn, clear, count_up, nudged, notify, spurious, waiter_runs, weave, publish_turns,
  looking, asleep, returned, run_waiter, look_after, drop_job, bump,
}
use bc3_online_miner.Shared.Feed.Turns.{IsReturned}
use bc3_online_miner.Shared.Feed.Latest.{run_waiter-publish}
use bc3_online_miner.Shared.Claims.{Slot, Gpus, set, gpus_mine, check_gpu_stalls}
use bc3_online_miner.Shared.Claims.Counts.{IsCounted, IsHeld, set-IsCounted}
use bc3_online_miner.Shared.Claims.Stalls.{Idle, check_gpu_stalls-releases}

abbrev only_bc3 : PowAlgo → Bool
only_bc3 sha256d = false
only_bc3 sha3t = false
only_bc3 bc3_hash = true

abbrev one_if_bc3 : PowAlgo → ℕ
one_if_bc3 sha256d = 0
one_if_bc3 sha3t = 0
one_if_bc3 bc3_hash = 1

abbrev idle_slot : Slot
idle_slot = record { claims = only_bc3; claimed_at = 10; stalled = 0; stamp = 500 }

abbrev free_slot : Slot
free_slot = record { claims = λ _. false; claimed_at = 0; stalled = 0; stamp = 0 }

abbrev two_cards : Gpus
two_cards = record { capable = one_if_bc3; slots = idle_slot ∷ free_slot ∷ [] }

two_cards-IsCounted : IsCounted two_cards
two_cards-IsCounted sha256d = refl
two_cards-IsCounted sha3t = refl
two_cards-IsCounted bc3_hash = refl

set-IsCounted_example :
    let r = set bc3_hash true 1 700 ((λ _. false), two_cards) in IsCounted r.1 × IsHeld 1 r
set-IsCounted_example =
    set-IsCounted bc3_hash true 1 700 (λ _. false) two_cards (omega arith) two_cards-IsCounted
      (free_slot, refl, λ a. refl)

idle_slot-Idle : Idle bc3_hash 0 1000 100 idle_slot
idle_slot-Idle = record { no_sign = λ _. omega arith; not_back = λ h. absurd (h refl) }

free_slot-Idle : Idle bc3_hash 0 1000 100 free_slot
free_slot-Idle = record { no_sign = λ _. omega arith; not_back = λ h. absurd (h refl) }

check_gpu_stalls-releases_example :
    gpus_mine (check_gpu_stalls (some bc3_hash) true 0 1000 100 two_cards).0 bc3_hash ≡ false
check_gpu_stalls-releases_example =
    check_gpu_stalls-releases bc3_hash 0 1000 100 two_cards two_cards-IsCounted
      (idle_slot-Idle, (free_slot-Idle, tt))

abbrev a_job : MinerJob
a_job = record {
  job_id = "a";
  extranonce1 = [];
  extranonce2_size = 4;
  coinb1 = [];
  coinb2 = [];
  merkle_steps = [];
  version = 0x20000800;
  prev_hash = replicate 32 6;
  bits = 0x1d00ffff;
  ntime = 1700000000;
  share_target = replicate 32 255;
  height = some 59342;
  algo = bc3_hash;
}

-- The last generation of 64 bits, and no job.
abbrev before_wrap : Feed
before_wrap = record {
  job = none;
  generation = 2 ^ 64 - 1;
  job_since = 0;
  algo = none;
  network_bits = 0;
  job_height = 0;
  notified = 0;
}

-- The worker falls asleep without a job, and again between the two halves of a publication, where a
-- nudge comes in; it is notified twice.
abbrev sleeps_first : List Turn
sleeps_first = waiter_runs ∷ clear ∷ count_up ∷ []

abbrev in_between : List Turn
in_between = spurious ∷ nudged ∷ []

run_waiter-publish_example :
    let seen = 2 ^ 64 - 1 in
    let own = weave (publish_turns a_job 5) (in_between ∷ (notify ∷ []) ∷ []) in
    let s = turns seen (sleeps_first ++ own) (before_wrap, looking) in
    IsReturned (turns seen sleeps_first (before_wrap, looking)).1
    ⊎ ((g : ℕ) × (run_waiter seen s.0 s.1 ≡ returned g a_job) × (g ≢ seen))
run_waiter-publish_example =
    run_waiter-publish before_wrap a_job 5 sleeps_first in_between (notify ∷ []) (omega arith)
      (tt, (tt, tt)) (tt, tt) (omega arith)

-- That worker is asleep when the job comes.
asleep_then : (turns (2 ^ 64 - 1) sleeps_first (before_wrap, looking)).1 ≡ asleep 0
unfolding turns look_after drop_job bump
asleep_then = refl

-- A share of another PoW, which does not count, after two of the current one.
abbrev some_turns : List (PowTurn naturals)
some_turns =
    share_found sha3t 90 0x1d00ffff false 4
    ∷ share_found bc3_hash 5 0x1d00ffff false 3
    ∷ share_found bc3_hash 7 0x1d00ffff true 2
    ∷ job_of_pow bc3_hash
    ∷ share_found bc3_hash 50 0x1d00ffff true 1
    ∷ job_of_pow sha3t
    ∷ []

ltb-IsStrict : IsStrict naturals
ltb-IsStrict = ((λ a. ground arith), λ a b c ab bc. ground arith)

pow_after-IsBest_example :
    ((pow_after naturals some_turns).algo ≡ some bc3_hash)
    × IsBest naturals (pow_after naturals some_turns).best (since naturals some_turns)
pow_after-IsBest_example = pow_after-IsBest naturals ltb-IsStrict some_turns

best_of_three : best_difficulty naturals (pow_after naturals some_turns).best ≡ 7
unfolding pow_after algo_eq
best_of_three = refl

-- In a build with the hash, on a machine with one GPU and twenty cores.
abbrev some_hash : PowFn
some_hash bytes = bytes

abbrev has_bc3_kernel : PowAlgo → Bool
has_bc3_kernel = only_bc3

-- Two GPUs in auto, one of them open, and 20 cores, with a GPU kernel for BC3Hash alone.
status-CpuMines_example :
    let plan = plan_of 2 has_bc3_kernel (plan_cpu auto 2 none 20) in
    let by_cpu =
      (cpu_supports (some some_hash) ready bc3_hash ≡ true) × CpuMines auto 2 none 20 false in
    (((devices_for (some some_hash) ready plan bc3_hash false).cpu ≡ true) ↔ by_cpu)
    × (((status (some some_hash) ready plan 1 bc3_hash false).0 ≡ true)
        ↔ ((false ≡ true) ⊎ ((has_bc3_kernel bc3_hash ≡ true) × (1 < 2)) ⊎ by_cpu))
status-CpuMines_example =
    status-CpuMines (some some_hash) ready has_bc3_kernel auto 2 none 20 1 bc3_hash false
