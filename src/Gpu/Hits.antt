-- ===== src/Gpu/Hits.antt =====
-- src/gpu_worker.rs: what `finish` does with the nonces that a launch reported.
pub mod Sorted
pub mod Along
pub mod Verified
use Prim.Native.String.{String}
use bc3_online_miner.Common.{
  ℕ, ◌+◌, ◌-◌, ◌%◌, Bool, List, [], ◌∷◌, ◌++◌, leb, ◌==◌, if◌then◌else◌, u32_mod,
}
use bc3_online_miner.Consensus.Pow.{PowFn}
use bc3_online_miner.Consensus.Header.{BlockHeader, serialize}
use bc3_online_miner.Shared.Job.{MinerJob}
use bc3_online_miner.Worker.Mine.{Find, check_hash}

-- `hits.sort_unstable()`: numbers that compare equal are the same, so any sort will do.
unfoldable pub insert : ℕ → List ℕ → List ℕ
insert n [] = n ∷ []
insert n (x ∷ xs) = let rest = insert n xs in if leb n x then n ∷ x ∷ xs else x ∷ rest

unfoldable pub sort_unstable : List ℕ → List ℕ
unfolding insert
sort_unstable [] = []
sort_unstable (x ∷ xs) = insert x (sort_unstable xs)

-- `hits.dedup()`: of a run of equal numbers, the first; `last` is the one kept before.
unfoldable pub dedup_after : ℕ → List ℕ → List ℕ
dedup_after last [] = []
dedup_after last (x ∷ xs) =
    let same = dedup_after last xs in
    let other = dedup_after x xs in if x == last then same else x ∷ other

unfoldable pub dedup : List ℕ → List ℕ
unfolding dedup_after
dedup [] = []
dedup (x ∷ xs) = x ∷ dedup_after x xs

-- `nonce.wrapping_sub(start) < count`
unfoldable pub in_range : ℕ → ℕ → ℕ → Bool
in_range start count nonce =
    let off = (nonce + u32_mod - start) % u32_mod in if leb count off then Bool.false else Bool.true

module _ (hex_encode : List ℕ → String) (verify : PowFn) (job : MinerJob) where
  -- The body of the loop: a nonce of the range is hashed again on the CPU.
  unfoldable pub verify_hit : List ℕ → BlockHeader → ℕ → ℕ → ℕ → List Find
  unfolding in_range
  verify_hit extranonce2 header start count nonce =
      if in_range start count nonce
      then check_hash hex_encode verify job extranonce2 nonce
          (verify (serialize (record header { nonce = nonce })))
      else []

  unfoldable pub verify_hits : List ℕ → BlockHeader → ℕ → ℕ → List ℕ → List Find
  unfolding verify_hit
  verify_hits extranonce2 header start count [] = []
  verify_hits extranonce2 header start count (nonce ∷ hits) =
      verify_hit extranonce2 header start count nonce
      ++ verify_hits extranonce2 header start count hits
