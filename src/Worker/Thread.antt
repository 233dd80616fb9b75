-- ===== src/Worker/Thread.antt =====
-- src/worker.rs: `run_worker`, the loop of one CPU thread over the jobs. What it is woken with is a
-- round's input; the claims of the GPUs are those of Shared/Claims, and the status of the C++ hash
-- is the `bc3hash` crate's.
pub mod Lane
use Prim.Native.String.{String}
use bc3_online_miner.Common.{
  ℕ, ◌+◌, Bool, true, false, Option, none, some, List, [], ◌∷◌, ◌++◌, if◌then◌else◌, ◌==◌,
}
use bc3_online_miner.Consensus.Pow.{PowAlgo, PowFn, hash_fn}
use bc3_online_miner.Shared.Job.{MinerJob}
use bc3_online_miner.Shared.Gate.{AlgoGate, Checked, check, open_gate}
use bc3_online_miner.Worker.Role.{HashStatus, CpuRole, takes, cpu_supports, start_on}
use bc3_online_miner.Worker.Mine.{
  Find, Progress, Outcome, exhausted, interrupted, out_of_fuel, mine_job,
}

-- What the thread keeps between jobs, and the shares it has queued.
pub record Thread : Type 0 where
  pub prev : Option MinerJob
  pub en2 : ℕ
  pub nonce : ℕ
  pub gate : AlgoGate
  pub sat_out : Option ℕ
  pub finds : List Find

abbrev pub new_thread : ℕ → Thread
new_thread thread_id = record {
  prev = none;
  en2 = thread_id;
  nonce = 0;
  gate = open_gate;
  sat_out = none;
  finds = [];
}

-- The input of one round: the job and its generation, whether the GPUs mine its PoW, the status of
-- the hash, and at which checks the job has changed.
pub record JobRound : Type 0 where
  pub generation : ℕ
  pub job : MinerJob
  pub gpus_mine : Bool
  pub status : HashStatus
  pub changed : ℕ → Bool

abbrev pub sleeps : ℕ → Thread → Thread
sleeps generation t = record {
  prev = t.prev;
  en2 = t.en2;
  nonce = t.nonce;
  gate = t.gate;
  sat_out = some generation;
  finds = t.finds;
}

abbrev pub gate_kept : AlgoGate → Thread → Thread
gate_kept gate t = record {
  prev = t.prev;
  en2 = t.en2;
  nonce = t.nonce;
  gate = gate;
  sat_out = none;
  finds = t.finds;
}

abbrev pub is_exhausted : Outcome → Bool
is_exhausted exhausted = true
is_exhausted interrupted = false
is_exhausted out_of_fuel = false

module _ (sha256 : List ℕ → List ℕ) (hex_encode : List ℕ → String) (build : Option PowFn)
    (role : CpuRole) (thread_id num_threads batch fuel rounds : ℕ) where
  -- After `mine_job`.
  abbrev pub mined_job : JobRound → Progress → Thread → Thread
  mined_job r p t = record {
    prev = some r.job;
    en2 = p.en2;
    nonce = p.nonce;
    gate = t.gate;
    sat_out = if is_exhausted p.outcome then some r.generation else none;
    finds = t.finds ++ p.finds;
  }

  abbrev pub with_pow : JobRound → Thread → Option PowFn → Thread
  with_pow r t none = sleeps r.generation t
  with_pow r t (some pow) =
      let from = start_on t.prev r.job thread_id (t.en2, t.nonce) in
      mined_job r
        (mine_job hex_encode pow r.job sha256 r.changed batch num_threads fuel rounds from.0 from.1
          0)
        t

  abbrev pub hash_of : Option PowAlgo → Option PowFn
  hash_of none = none
  hash_of (some algo) = hash_fn build algo

  abbrev pub gate_taken : JobRound → Thread → Checked → Thread
  gate_taken r t c = with_pow r (gate_kept c.gate t) (hash_of c.passed)

  unfoldable pub one_job : Thread → JobRound → Thread
  unfolding start_on mine_job hash_fn check takes
  one_job t r =
      if takes role r.gpus_mine
      then gate_taken r t (check t.gate r.job.algo (thread_id == 0) (cpu_supports build r.status))
      else sleeps r.generation t

  unfoldable pub run_worker : Thread → List JobRound → Thread
  unfolding one_job
  run_worker t [] = t
  run_worker t (r ∷ rs) = run_worker (one_job t r) rs
