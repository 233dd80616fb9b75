-- ===== src/Gpu/Hits/Verified.antt =====
-- Whatever nonces a launch reports, only shares are submitted.
use Prim.Native.String.{String}
use bc3_online_miner.Common.{ℕ, List, [], ◌∷◌, All, All-append, if_either}
use bc3_online_miner.Consensus.Pow.{PowFn}
use bc3_online_miner.Shared.Job.{MinerJob}
use bc3_online_miner.Worker.Mine.{header_of}
use bc3_online_miner.Worker.Mine.Shares.{IsShare, check_hash-IsShare}
use bc3_online_miner.Gpu.Hits.{in_range, verify_hit, verify_hits}

module _ (sha256 : List ℕ → List ℕ) (hex_encode : List ℕ → String) (verify : PowFn) (job : MinerJob)
    (extranonce2 : List ℕ) where
  verify_hit-IsShare :
      (start count nonce : ℕ)
      → All (IsShare sha256 verify job) (
          verify_hit hex_encode verify job extranonce2
            (header_of sha256 job extranonce2 0)
            start
            count
            nonce)
  unfolding verify_hit header_of
  verify_hit-IsShare start count nonce =
      if_either (All (IsShare sha256 verify job)) (in_range start count nonce)
        (check_hash-IsShare sha256 verify job hex_encode extranonce2 nonce) tt

  pub verify_hits-IsShare :
      (start count : ℕ) (hits : List ℕ)
      → All (IsShare sha256 verify job) (
          verify_hits hex_encode verify job extranonce2
            (header_of sha256 job extranonce2 0)
            start
            count
            hits)
  unfolding verify_hits
  verify_hits-IsShare start count [] = tt
  verify_hits-IsShare start count (nonce ∷ hits) =
      All-append (IsShare sha256 verify job) _ _ (verify_hit-IsShare start count nonce)
        (verify_hits-IsShare start count hits)
