-- ===== src/Worker/Role.antt =====
-- src/worker.rs: which jobs a CPU thread takes, and where it starts on one. Whether the C++ hash
-- has initialized is the `bc3hash` crate's: a parameter.
pub mod Start
use bc3_online_miner.Common.{ℕ, Bool, true, false, not, Option, none, some, ◌&&◌, if◌then◌else◌}
use bc3_online_miner.Consensus.Pow.{PowAlgo, sha256d, sha3t, bc3_hash, PowFn, hash_fn}
use bc3_online_miner.Shared.Job.{MinerJob, same_search_space}

-- `::bc3hash::status()`: unknown while it is being set up; `initialize()` waits for the answer.
pub data HashStatus : Type 0 where
  not_ready ready broken : HashStatus

pub data Unavailable : Type 0 where
  version_lacks_bit_11 no_bc3hash_in_build self_test_failed : Unavailable

-- With the `bc3hash` feature the status decides; without it the build has no hash.
unfoldable pub bc3hash_unavailable : Option PowFn → HashStatus → Option Unavailable
bc3hash_unavailable none status = some no_bc3hash_in_build
bc3hash_unavailable (some f) not_ready = none
bc3hash_unavailable (some f) ready = none
bc3hash_unavailable (some f) broken = some self_test_failed

unfoldable pub cpu_unavailable : Option PowFn → HashStatus → PowAlgo → Option Unavailable
unfolding bc3hash_unavailable
cpu_unavailable build status sha256d = some version_lacks_bit_11
cpu_unavailable build status sha3t = some version_lacks_bit_11
cpu_unavailable build status bc3_hash = bc3hash_unavailable build status

abbrev pub is_some {ℓ} : {A : Type ℓ} → Option A → Bool
is_some none = false
is_some (some a) = true

-- `cpu_may_support`, and after waiting (`status` is then not `not_ready`) `cpu_supports`.
unfoldable pub cpu_supports : Option PowFn → HashStatus → PowAlgo → Bool
unfolding cpu_unavailable hash_fn
cpu_supports build status algo =
    is_some (hash_fn build algo) && not (is_some (cpu_unavailable build status algo))

pub data CpuRole : Type 0 where
  all_jobs gpu_fallback : CpuRole

unfoldable pub takes : CpuRole → Bool → Bool
takes all_jobs gpus_mine = true
takes gpu_fallback gpus_mine = not gpus_mine

-- Continue where the thread stopped if the job before covers the same space, else start anew.
unfoldable pub start_on : Option MinerJob → MinerJob → ℕ → ℕ × ℕ → ℕ × ℕ
start_on none job thread_id point = (thread_id, 0)
start_on (some prev) job thread_id point =
    if same_search_space prev job then point else (thread_id, 0)
