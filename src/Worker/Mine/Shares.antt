-- ===== src/Worker/Mine/Shares.antt =====
-- Every share stands for a header whose hash meets the target.
use Prim.Native.String.{String}
use bc3_online_miner.Common.{
  ℕ, zero, suc, ◌+◌, ◌*◌, ◌≤◌, ◌<◌, Bool, true, List, u32_mod, u64_mod, ◌≡◌, refl, All, All-append,
  inl, inr, Bool-cases,
}
use bc3_online_miner.Consensus.Pow.{PowFn}
use bc3_online_miner.Consensus.Header.{serialize}
use bc3_online_miner.Consensus.Target.{hash_meets_target, compact_to_target}
use bc3_online_miner.Shared.Job.{MinerJob}
use bc3_online_miner.Worker.Extranonce.{encode_extranonce2}
use bc3_online_miner.Worker.Mine.{Find, check_hash, header_of, is_block, mine_job}
use bc3_online_miner.Worker.Mine.Search.{Position, next, find_at, finds_along}
use bc3_online_miner.Worker.Mine.Batch.{IsJob, GivesHashes}
use bc3_online_miner.Worker.Mine.Refines.{mine_job-IsMined}

module _ (sha256 : List ℕ → List ℕ) (pow : PowFn) (job : MinerJob) where
  -- The share names the job, and the header rebuilt from the job and the share alone has the
  -- hash, which meets the share target; it is a block candidate as the job's bits say.
  pub record IsShare (f : Find) : Type 0 where
    pub names_job : f.share.job_id ≡ job.job_id
    pub keeps_time : f.share.ntime ≡ job.ntime
    pub rebuilt : f.hash ≡ pow (serialize (header_of sha256 job f.share.extranonce2 f.share.nonce))
    pub meets : hash_meets_target f.hash job.share_target ≡ true
    pub candidate : f.share.is_block_candidate ≡ is_block (compact_to_target job.bits) f.hash

  module _ (hex_encode : List ℕ → String) where
    -- Whatever the extranonce2 and the nonce, a hash of their header that passes is a share.
    pub check_hash-IsShare :
        (extranonce2 : List ℕ) (nonce : ℕ)
        → All IsShare (
            check_hash hex_encode pow job extranonce2 nonce
              (pow (serialize (header_of sha256 job extranonce2 nonce))))
    unfolding check_hash
    check_hash-IsShare extranonce2 nonce =
        let hash = pow (serialize (header_of sha256 job extranonce2 nonce)) in
        elim (Bool-cases (hash_meets_target hash job.share_target)) [
          | inl m ↦ rw m (
            record {
              names_job = refl;
              keeps_time = refl;
              rebuilt = refl;
              meets = m;
              candidate = refl;
            },
            tt,
          )
          | inr m ↦ rw m tt
        ]

    find_at-IsShare : (p : Position) → All IsShare (find_at sha256 hex_encode pow job p)
    unfolding find_at
    find_at-IsShare p = check_hash-IsShare (encode_extranonce2 p.en2 job.extranonce2_size) p.nonce

    finds_along-IsShare :
        (stride n : ℕ) (p : Position)
        → All IsShare (finds_along sha256 hex_encode pow job stride n p)
    unfolding finds_along
    finds_along-IsShare stride zero p = tt
    finds_along-IsShare stride (suc n) p =
        All-append IsShare (find_at sha256 hex_encode pow job p) _ (find_at-IsShare p)
          (finds_along-IsShare stride n (next stride p))

-- With SHA-256 giving 32 bytes, a job of the right widths, at least one hash a batch and room in
-- 64 bits for the extranonce2 counter, every share that `mine_job` submits, wherever it starts and
-- whenever the job changes, names the job and stands for a header whose hash meets the target.
pub mine_job-IsShare :
    (sha256 : List ℕ → List ℕ) (hex_encode : List ℕ → String) (pow : PowFn) (job : MinerJob)
    (hashes : GivesHashes sha256) (fits : IsJob job) (changed : ℕ → Bool)
    (batch stride fuel rounds en2 nonce checks : ℕ)
    → 0 < batch
    → u32_mod ≤ fuel
    → nonce < u32_mod
    → en2 + rounds * stride < u64_mod
    → All
        (IsShare sha256 pow job)
        (mine_job hex_encode pow job sha256 changed batch stride fuel rounds en2 nonce checks).finds
mine_job-IsShare sha256 hex_encode pow job hashes fits changed batch stride fuel rounds en2 nonce
      checks working enough small room =
    let mined =
      mine_job-IsMined sha256 hex_encode pow job hashes fits changed batch stride working fuel
        enough rounds en2 nonce checks small room in
    rw mined.searches.finds
      (finds_along-IsShare sha256 pow job hex_encode stride _ (record { en2 = en2; nonce = nonce }))
