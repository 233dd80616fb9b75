-- ===== src/Wasm.antt =====
-- src/wasm/src/lib.rs: the search that the web miner calls. Memory is what the pointers point at;
-- a null pointer is none.
pub mod First
use bc3_online_miner.Common.{
  ℕ, zero, suc, ◌+◌, ◌%◌, Bool, true, false, not, ◌&&◌, ◌||◌, Option, none, some, List, ◌==◌,
  if◌then◌else◌, ◌>>=◌, require, u32_mod,
}
use bc3_online_miner.Consensus.Pow.{
  PowAlgo, PowFn, sha256d, sha3t, bc3_hash, for_version, hash_fn, algo_eq,
}
use bc3_online_miner.Consensus.Header.{BlockHeader, serialize, set_nonce}
use bc3_online_miner.Consensus.Target.{hash_meets_target}
use bc3_online_miner.Worker.Role.{is_some}

unfoldable pub algo_id : PowAlgo → ℕ
algo_id sha256d = 0
algo_id sha3t = 1
algo_id bc3_hash = 2

-- What `bc3hash_init` returns: 1, 0, -1 and -2.
pub data InitStatus : Type 0 where
  ready no_tables wrong_result no_feature : InitStatus

abbrev pub is_ready : InitStatus → Bool
is_ready ready = true
is_ready no_tables = false
is_ready wrong_result = false
is_ready no_feature = false

-- What a search returns: a nonce, -1 and -2.
pub data Found : Type 0 where
  nonce : ℕ → Found
  nothing : Found
  cannot_hash : Found

-- The loop over the nonces, `left` of them.
unfoldable pub search_with : PowFn → List ℕ → List ℕ → ℕ → ℕ → Found
search_with pow header target start zero = nothing
search_with pow header target start (suc left) =
    let rest = search_with pow header target ((start + 1) % u32_mod) left in
    if hash_meets_target (pow (set_nonce start header)) target then nonce start else rest

module _ (build : Option PowFn) (init : InitStatus) where
  -- The first algorithm of the id that the build can hash, and BC3Hash only once it is ready.
  unfoldable pub algo_from_id : ℕ → Option PowAlgo
  unfolding algo_id hash_fn
  algo_from_id id =
      let can = λ (a : PowAlgo). (algo_id a == id) && is_some (hash_fn build a) in
      let found =
        if can sha256d
        then some sha256d
        else if can sha3t
        then some sha3t
        else if can bc3_hash
        then some bc3_hash
        else none in
      (do a ← found; require (not (algo_eq a bc3_hash) || is_ready init) (some a))

  -- The id of the job's algorithm; none is -1.
  unfoldable pub job_pow_algo : ℕ → Option ℕ
  unfolding algo_id hash_fn
  job_pow_algo version =
      let algo = for_version version in
      if is_some (hash_fn build algo) then some (algo_id algo) else none

  abbrev search_by : Option PowFn → List ℕ → List ℕ → ℕ → ℕ → Found
  search_by none header target start count = cannot_hash
  search_by (some pow) header target start count = search_with pow header target start count

  unfoldable pub search_algo : ℕ → Option (List ℕ) → Option (List ℕ) → ℕ → ℕ → Found
  unfolding search_with algo_from_id hash_fn
  search_algo algo none target start count = nothing
  search_algo algo (some header) none start count = nothing
  search_algo algo (some header) (some target) start count =
      search_by (do a ← algo_from_id algo; hash_fn build a) header target start count

  -- The original export: an algorithm that is no longer hashed.
  unfoldable pub search : Option (List ℕ) → Option (List ℕ) → ℕ → ℕ → Found
  unfolding search_algo algo_id
  search header target start count = search_algo (algo_id sha3t) header target start count

  -- The hash that is written, if one is; `null_out` if there is no place for it.
  unfoldable pub hash_header_algo : ℕ → Option (List ℕ) → Bool → Option (List ℕ)
  unfolding algo_from_id hash_fn
  hash_header_algo algo header null_out = do
    bytes ← header
    a ← algo_from_id algo
    pow ← hash_fn build a
    require (not null_out) (some (pow bytes))

-- The header of the page's values, if it is written.
unfoldable pub build_header : ℕ → Option (List ℕ) → Option (List ℕ) → ℕ → ℕ → Bool → Option (List ℕ)
unfolding serialize
build_header version prev merkle time bits null_out = do
  prev_hash ← prev
  merkle_root ← merkle
  require (not null_out) (
      some (
        serialize (record {
          version = version;
          prev_hash = prev_hash;
          merkle_root = merkle_root;
          time = time;
          bits = bits;
          nonce = 0;
        })))
