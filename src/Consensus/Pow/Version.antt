-- ===== src/Consensus/Pow/Version.antt =====
-- The version bits that decide the proof of work, as digits of the version.
use bc3_online_miner.Common.{
  ℕ, some, ◌≡◌, ◌/◌, ◌%◌, ◌^◌, arith, bit_and_single, get_elem?, refl, true, ◌↔◌,
}
use bc3_online_miner.Consensus.Pow.{
  PowAlgo, sha256d, sha3t, bc3_hash, for_version, index, all, hash_fn, PowFn, algo_eq,
}

-- Bit `k` of a word.
abbrev pub bit : ℕ → ℕ → ℕ
bit k w = w / 2 ^ k % 2

-- What the node's rule says of a version: bit 11 first, then bit 12.
pub record Rule (version : ℕ) (algo : PowAlgo) : Type 0 where
  pub to_bc3_hash : bit 11 version ≡ 1 → algo ≡ bc3_hash
  pub to_sha3t : bit 11 version ≡ 0 → bit 12 version ≡ 1 → algo ≡ sha3t
  pub to_sha256d : bit 11 version ≡ 0 → bit 12 version ≡ 0 → algo ≡ sha256d

-- For every version, bit 11 alone selects BC3Hash, else bit 12 selects SHA3-256t, else SHA256d.
pub for_version-Rule : (version : ℕ) → Rule version (for_version version)
unfolding for_version
for_version-Rule version = record {
  to_bc3_hash = λ h. ground (arith, bit_and_single 11 version, bit_and_single 12 version);
  to_sha3t = λ h k. ground (arith, bit_and_single 11 version, bit_and_single 12 version);
  to_sha256d = λ h k. ground (arith, bit_and_single 11 version, bit_and_single 12 version);
}

-- A job is hashed exactly when its version has bit 11, whatever the other bits are.
pub hash_fn-for_version :
    (f : PowFn) (version : ℕ)
    → (hash_fn (some f) (for_version version) ≡ some f) ↔ (bit 11 version ≡ 1)
unfolding for_version hash_fn
hash_fn-for_version f version = (
  (λ h. ground (arith, bit_and_single 11 version, bit_and_single 12 version)),
  λ h. ground (arith, bit_and_single 11 version, bit_and_single 12 version),
)

-- `index` is the position in `all`.
pub get_elem?-index : (a : PowAlgo) → get_elem? all (index a) ≡ some a
unfolding index
get_elem?-index sha256d = refl
get_elem?-index sha3t = refl
get_elem?-index bc3_hash = refl

pub algo_eq_iff : (a b : PowAlgo) → (algo_eq a b ≡ true) ↔ (a ≡ b)
unfolding algo_eq index
algo_eq_iff a b = ground arith
