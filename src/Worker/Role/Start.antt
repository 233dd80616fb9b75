-- ===== src/Worker/Role/Start.antt =====
-- Jobs of one search space have the same headers, so a retarget needs no new search; and what a
-- thread takes.
use bc3_online_miner.Common.{ℕ, List, true, Option, ◌≡◌, ◌↔◌, ◌≢◌, arith}
use bc3_online_miner.Consensus.Pow.{PowAlgo, bc3_hash, PowFn}
use bc3_online_miner.Shared.Job.{MinerJob, same_search_space, bytes_eq_iff, steps_eq_iff}
use bc3_online_miner.Worker.Extranonce.{encode_extranonce2}
use bc3_online_miner.Worker.Mine.{header_of}
use bc3_online_miner.Worker.Role.{HashStatus, broken, is_some, cpu_supports}

same_fields :
    (a b : MinerJob)
    → same_search_space a b ≡ true
    → (a.extranonce1 ≡ b.extranonce1)
      × (a.extranonce2_size ≡ b.extranonce2_size)
      × (a.coinb1 ≡ b.coinb1)
      × (a.coinb2 ≡ b.coinb2)
      × (a.merkle_steps ≡ b.merkle_steps)
      × (a.version ≡ b.version)
      × (a.prev_hash ≡ b.prev_hash)
      × (a.bits ≡ b.bits)
      × (a.ntime ≡ b.ntime)
unfolding same_search_space
same_fields a b h = ground (
  arith,
  bytes_eq_iff a.extranonce1 b.extranonce1,
  bytes_eq_iff a.coinb1 b.coinb1,
  bytes_eq_iff a.coinb2 b.coinb2,
  steps_eq_iff a.merkle_steps b.merkle_steps,
  bytes_eq_iff a.prev_hash b.prev_hash,
)

-- Jobs that `same_search_space` takes for one have the same header at every extranonce2 counter
-- and nonce, whatever their ids and targets.
pub same_search_space-header_of :
    (sha256 : List ℕ → List ℕ) (a b : MinerJob)
    → same_search_space a b ≡ true
    → (en2 nonce : ℕ)
    → header_of sha256 a (encode_extranonce2 en2 a.extranonce2_size) nonce
      ≡ header_of sha256 b (encode_extranonce2 en2 b.extranonce2_size) nonce
unfolding header_of
same_search_space-header_of sha256 a b h en2 nonce = ground (arith, same_fields a b h)

-- A CPU hashes exactly the BC3Hash jobs, in a build that has the hash and while its self-test
-- has not failed.
pub cpu_supports_iff :
    (build : Option PowFn) (status : HashStatus) (algo : PowAlgo)
    → (cpu_supports build status algo ≡ true)
      ↔ ((algo ≡ bc3_hash) × (is_some build ≡ true) × (status ≢ broken))
unfolding cpu_supports
cpu_supports_iff build status algo = (ground arith, ground arith)
