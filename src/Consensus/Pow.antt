-- ===== src/Consensus/Pow.antt =====
-- src/consensus.rs: `PowAlgo` and what the version bits decide.
pub mod Version
use Prim.Native.String.{String}
use bc3_online_miner.Common.{
  ℕ, Bool, List, [], ◌∷◌, Option, none, some, bit_and, ◌==◌, if◌then◌else◌, not,
}

abbrev pub sha3_vbit : ℕ
sha3_vbit = 0x1000

abbrev pub bc3hash_vbit : ℕ
bc3hash_vbit = 0x800

pub data PowAlgo : Type 0 where
  sha256d sha3t bc3_hash : PowAlgo

abbrev pub all : List PowAlgo
all = sha256d ∷ sha3t ∷ bc3_hash ∷ []

unfoldable pub index : PowAlgo → ℕ
index sha256d = 0
index sha3t = 1
index bc3_hash = 2

unfoldable pub name : PowAlgo → String
name sha256d = "SHA256d"
name sha3t = "SHA3-256t"
name bc3_hash = "BC3Hash"

unfoldable pub for_version : ℕ → PowAlgo
for_version version =
    if not (bit_and version bc3hash_vbit == 0)
    then bc3_hash
    else if not (bit_and version sha3_vbit == 0)
    then sha3t
    else sha256d

-- A hash over one serialized header.
abbrev pub PowFn : Type 0
PowFn = List ℕ → List ℕ

-- `bc3hash` is what the build has: the C++ function with the feature, `none` without.
unfoldable pub hash_fn : Option PowFn → PowAlgo → Option PowFn
hash_fn bc3hash sha256d = none
hash_fn bc3hash sha3t = none
hash_fn bc3hash bc3_hash = bc3hash

pub PowAlgo-discrete : Discrete PowAlgo
PowAlgo-discrete = hlevel

unfoldable pub algo_eq : PowAlgo → PowAlgo → Bool
unfolding index
algo_eq a b = index a == index b
