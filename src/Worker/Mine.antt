-- ===== src/Worker/Mine.antt =====
-- src/worker.rs: `mine_job`. Outside the repository, and so parameters: SHA-256, the hex encoder
-- of a displayed hash, the proof of work of the job; and, from the other threads, whether the
-- job had changed at the k-th check of the generation.
pub mod Search
pub mod Batch
pub mod Sweep
pub mod Looks
pub mod Refines
pub mod Shares
use Prim.Native.String.{String}
use bc3_online_miner.Common.{
  ℕ, zero, suc, ◌+◌, ◌%◌, Bool, true, false, Option, none, some, List, [], ◌∷◌, ◌++◌, ◌==◌,
  if◌then◌else◌, u32_mod, u64_mod,
}
use bc3_online_miner.Consensus.Pow.{PowFn}
use bc3_online_miner.Consensus.Header.{BlockHeader, serialize, set_nonce}
use bc3_online_miner.Consensus.Merkle.{sha256d, root_from_steps, hash_to_display}
use bc3_online_miner.Consensus.Target.{compact_to_target, hash_meets_target}
use bc3_online_miner.Shared.Job.{MinerJob, FoundShare}
use bc3_online_miner.Worker.Extranonce.{en2_fits, encode_extranonce2, resume_point}

-- A hash that met the share target, and the share submitted for it. `record_share` gets the
-- job's algorithm and bits, the difficulty of `hash`, and `share.is_block_candidate`.
pub record Find : Type 0 where
  pub hash : List ℕ
  pub share : FoundShare

pub data Outcome : Type 0 where
  -- every extranonce2 of the size has been searched: the source returns true
  exhausted : Outcome
  -- the job changed: the source returns false
  interrupted : Outcome
  -- the model's fuel ran out
  out_of_fuel : Outcome

pub record Progress : Type 0 where
  pub outcome : Outcome
  pub finds : List Find
  -- added to `stats.hashes` and `stats.cpu_hashes`
  pub hashes : ℕ
  -- where the caller resumes
  pub en2 : ℕ
  pub nonce : ℕ
  -- how often the generation has been checked
  pub checks : ℕ

unfoldable pub coinbase : MinerJob → List ℕ → List ℕ
coinbase job extranonce2 = job.coinb1 ++ (job.extranonce1 ++ (extranonce2 ++ job.coinb2))

module _ (sha256 : List ℕ → List ℕ) where
  unfoldable pub header_of : MinerJob → List ℕ → ℕ → BlockHeader
  unfolding coinbase
  header_of job extranonce2 nonce = record {
    version = job.version;
    prev_hash = job.prev_hash;
    merkle_root =
        root_from_steps sha256 (sha256d sha256 (coinbase job extranonce2)) job.merkle_steps;
    time = job.ntime;
    bits = job.bits;
    nonce = nonce;
  }

-- `block_target.map(|t| hash_meets_target(&hash, &t)).unwrap_or(false)`
unfoldable pub is_block : Option (List ℕ) → List ℕ → Bool
is_block none hash = false
is_block (some target) hash = hash_meets_target hash target

module _ (hex_encode : List ℕ → String) (pow : PowFn) (job : MinerJob) where
  -- What one hash yields: a share, or nothing.
  unfoldable pub check_hash : List ℕ → ℕ → List ℕ → List Find
  check_hash extranonce2 nonce hash =
      if hash_meets_target hash job.share_target
      then (record {
        hash = hash;
        share = record {
          job_id = job.job_id;
          extranonce2 = extranonce2;
          ntime = job.ntime;
          nonce = nonce;
          hash_display = hash_to_display hex_encode hash;
          is_block_candidate = is_block (compact_to_target job.bits) hash;
        };
      })
        ∷ []
      else []

  -- `while done < batch`, with `left` rounds to go: finds, hashes done and the next nonce.
  unfoldable pub run_batch : List ℕ → List ℕ → ℕ → ℕ → List Find × ℕ × ℕ
  unfolding check_hash
  run_batch extranonce2 header zero nonce = ([], 0, nonce)
  run_batch extranonce2 header (suc left) nonce =
      let found = check_hash extranonce2 nonce (pow (set_nonce nonce header)) in
      let next = (nonce + 1) % u32_mod in
      let rest = run_batch extranonce2 header left next in
      -- the nonce wrapped: exhausted for this extranonce2
      if next == 0 then (found, 1, 0) else (found ++ rest.0, rest.1 + 1, rest.2)

  module _ (sha256 : List ℕ → List ℕ) (changed : ℕ → Bool) (batch num_threads : ℕ) where
    -- The batches of one extranonce2, from `nonce`; out of fuel only if the fuel is too small.
    unfoldable pub sweep : ℕ → List ℕ → List ℕ → ℕ → ℕ → ℕ → Progress
    unfolding run_batch resume_point
    sweep zero extranonce2 header en2 nonce checks = record {
      outcome = out_of_fuel;
      finds = [];
      hashes = 0;
      en2 = en2;
      nonce = nonce;
      checks = checks;
    }
    sweep (suc fuel) extranonce2 header en2 nonce checks =
        let (found, done, next) = run_batch extranonce2 header batch nonce in
        let point = resume_point en2 next (next == 0) num_threads in
        let rest = sweep fuel extranonce2 header en2 next (checks + 1) in
        if changed checks
        then record {
          outcome = interrupted;
          finds = found;
          hashes = done;
          en2 = point.0;
          nonce = point.1;
          checks = checks + 1;
        }
        else if next == 0
        then record {
          outcome = exhausted;
          finds = found;
          hashes = done;
          en2 = (en2 + num_threads) % u64_mod;
          nonce = 0;
          checks = checks + 1;
        }
        else record rest { finds = found ++ rest.finds; hashes = done + rest.hashes }

    -- The outer loop, `rounds` extranonce2 values at most; each is swept with `fuel`.
    unfoldable pub mine_job : ℕ → ℕ → ℕ → ℕ → ℕ → Progress
    unfolding sweep header_of
    mine_job fuel zero en2 nonce checks = record {
      outcome = out_of_fuel;
      finds = [];
      hashes = 0;
      en2 = en2;
      nonce = nonce;
      checks = checks;
    }
    mine_job fuel (suc rounds) en2 nonce checks =
        let extranonce2 = encode_extranonce2 en2 job.extranonce2_size in
        let header = serialize (header_of sha256 job extranonce2 0) in
        let swept = sweep fuel extranonce2 header en2 nonce checks in
        let rest = mine_job fuel rounds swept.en2 swept.nonce swept.checks in
        let onward = record rest {
          finds = swept.finds ++ rest.finds;
          hashes = swept.hashes + rest.hashes;
        } in
        if en2_fits en2 job.extranonce2_size
        then (elim swept.outcome [ exhausted ↦ onward | interrupted ↦ swept | out_of_fuel ↦ swept ])
        else record {
          outcome = exhausted;
          finds = [];
          hashes = 0;
          en2 = en2;
          nonce = nonce;
          checks = checks;
        }
