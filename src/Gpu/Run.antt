-- ===== src/Gpu/Run.antt =====
-- src/gpu_worker.rs: `Worker`, `JobRun` and the launch loop of one job. The device is a
-- parameter: what it answers, and what the other threads have done, at the k-th time it is asked.
pub mod Loop
pub mod Launches
pub mod Chain
pub mod Coverage
pub mod Resume
pub mod Ends
pub mod Returns
pub mod Honest
use Prim.Native.String.{String}
use bc3_online_miner.Common.{
  ℕ, ◌+◌, ◌-◌, max, Bool, true, false, Option, none, some, List, [], ◌∷◌, ◌++◌, ◌==◌, ◌&&◌, not,
  if◌then◌else◌, take, ltb, leb, ◌/◌,
}
use bc3_online_miner.Consensus.Pow.{PowAlgo, PowFn, sha256d, sha3t, bc3_hash}
use bc3_online_miner.Consensus.Header.{BlockHeader, serialize}
use bc3_online_miner.Shared.Job.{MinerJob}
use bc3_online_miner.Worker.Extranonce.{encode_extranonce2}
use bc3_online_miner.Worker.Mine.{Find, header_of}
use bc3_online_miner.Gpu.Budget.{HitBudget, overflowed}
use bc3_online_miner.Gpu.Autotune.{autotune, bc3_target_launch, min_batch, max_batch}
use bc3_online_miner.Gpu.Cursor.{Cursor}
use bc3_online_miner.Gpu.Hits.{sort_unstable, dedup, verify_hits}

abbrev pub max_scan_errors : ℕ
max_scan_errors = 5

pub data JobEnd : Type 0 where
  changed exhausted device_gone : JobEnd

-- One kernel launch, as the backend gets it.
pub record Launch : Type 0 where
  pub algo : PowAlgo
  pub header76 : List ℕ
  pub start : ℕ
  pub count : ℕ
  pub target : List ℕ

-- What one launch found; durations are nanoseconds.
pub record Scan : Type 0 where
  pub hits : List ℕ
  pub reported : ℕ
  pub busy : Option ℕ

-- The outside at its k-th turn: whether the generation has moved on or a window switch is wanted,
-- what `enqueue` and `collect` return (an error is false, and none), and the clock.
pub record Outside : Type 0 where
  pub has_changed : ℕ → Bool
  pub enqueue : ℕ → Launch → Bool
  pub collect : ℕ → Option Scan
  pub clock : ℕ → ℕ
  -- `elapsed.mul_f64(batch / count)`
  pub project : ℕ → ℕ → ℕ → ℕ

-- A launch in flight; the header has nonce 0.
pub record InFlight : Type 0 where
  pub en2 : ℕ
  pub extranonce2 : List ℕ
  pub header : BlockHeader
  pub start : ℕ
  pub count : ℕ
  pub queued : ℕ

pub record En2Header : Type 0 where
  pub en2 : ℕ
  pub extranonce2 : List ℕ
  pub header : BlockHeader
  pub header76 : List ℕ

-- The counters of one card in the shared state.
pub record SlotStats : Type 0 where
  pub slot_hashes : ℕ
  pub slot_stamp : ℕ
  pub slot_busy : ℕ

-- What `tune.launched` is told: the window, the nonces and the time.
pub record Launched : Type 0 where
  pub window : ℕ
  pub nonces : ℕ
  pub took : ℕ

-- What stays the same while a job runs.
pub record Setup : Type 0 where
  pub job : MinerJob
  pub algo : PowAlgo
  pub verify : PowFn
  pub stride : ℕ
  pub depth : ℕ
  -- `backend.launch_granule(algo).max(1)`
  pub granule : ℕ
  pub window : ℕ

-- The worker and its run of a job, as far as the loop changes them, and what it has done.
pub record State : Type 0 where
  pub cursor : Cursor
  pub batch : ℕ
  pub budget : HitBudget
  pub errors : ℕ
  pub collected : ℕ
  pub last_collect : Option ℕ
  pub said_hashing : Bool
  pub inflight : List InFlight
  pub ending : Option JobEnd
  pub header : Option En2Header
  -- the shares submitted, the hashes counted, the slot's counters, the tuning's measurements
  pub finds : List Find
  pub hashes : ℕ
  pub slot : Option SlotStats
  pub tuned : List Launched
  -- the launches that came back, oldest first: `finish` has been called for each
  pub finished : List InFlight
  -- how often the outside has been asked
  pub turns : ℕ

module _ (sha256 : List ℕ → List ℕ) where
  unfoldable pub en2_header : MinerJob → ℕ → En2Header
  unfolding header_of
  en2_header job en2 =
      let extranonce2 = encode_extranonce2 en2 job.extranonce2_size in
      let header = header_of sha256 job extranonce2 0 in
      record {
        en2 = en2;
        extranonce2 = extranonce2;
        header = header;
        header76 = take 76 (serialize header);
      }

  abbrev pub header_or_new : MinerJob → ℕ → Option En2Header → En2Header
  header_or_new job en2 none = en2_header job en2
  header_or_new job en2 (some h) = if h.en2 == en2 then h else en2_header job en2

-- `self.last_collect.map_or(queued, |t| t.max(queued))`
abbrev started_at : Option ℕ → ℕ → ℕ
started_at none queued = queued
started_at (some t) queued = max t queued

abbrev busy_or : Option ℕ → ℕ → ℕ
busy_or none host = host
busy_or (some busy) host = busy

abbrev add_busy : Option ℕ → ℕ → ℕ
add_busy none total = total
add_busy (some busy) total = total + busy / 1000

-- The stamp and the busy time of a slot are microseconds.
abbrev count_slot : Option SlotStats → ℕ → Option ℕ → ℕ → Option SlotStats
count_slot none now busy count = none
count_slot (some s) now busy count = some (record {
  slot_hashes = s.slot_hashes + count;
  slot_stamp = now / 1000;
  slot_busy = add_busy busy s.slot_busy;
})

-- `algo == PowAlgo::Bc3Hash`
abbrev is_bc3 : PowAlgo → Bool
is_bc3 sha256d = false
is_bc3 sha3t = false
is_bc3 bc3_hash = true

module _ (hex_encode : List ℕ → String) (outside : Outside) (setup : Setup) where
  -- How long the launch ran.
  unfoldable pub elapsed_of : State → InFlight → Scan → ℕ
  elapsed_of s done scan =
      busy_or scan.busy (outside.clock s.turns - started_at s.last_collect done.queued)

  unfoldable pub finish : State → InFlight → Scan → State
  unfolding elapsed_of
  finish s done scan =
      let now = outside.clock s.turns in
      let elapsed = elapsed_of s done scan in
      let hits = dedup (sort_unstable scan.hits) in
      let found =
        verify_hits hex_encode setup.verify setup.job done.extranonce2 done.header done.start
          done.count hits in
      let projected = outside.project elapsed s.batch (max done.count 1) in
      record s {
        last_collect = some now;
        collected = s.collected + 1;
        budget = (overflowed s.budget done.count scan.reported).0;
        finds = s.finds ++ found;
        hashes = s.hashes + done.count;
        slot = count_slot s.slot now scan.busy done.count;
        batch =
            autotune s.batch projected bc3_target_launch setup.granule (min_batch setup.granule)
              (max_batch setup.granule);
        tuned =
            if is_bc3 setup.algo && not (setup.window == 0)
            then s.tuned
              ++ (record { window = setup.window; nonces = done.count; took = elapsed } ∷ [])
            else s.tuned;
        finished = s.finished ++ (done ∷ []);
        turns = s.turns + 1;
      }
