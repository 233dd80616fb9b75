-- ===== src/Consensus/Merkle.antt =====
-- src/consensus.rs: `root_from_steps`, `swab32` and the byte order of a displayed hash.
-- SHA-256 is the `sha2` crate's: a parameter.
pub mod Tree
pub mod Swab
use bc3_online_miner.Common.{ℕ, zero, suc, List, [], ◌∷◌, ◌++◌, reverse, take, drop}

-- `sha256d` hashes twice.
unfoldable pub sha256d : (List ℕ → List ℕ) → List ℕ → List ℕ
sha256d sha256 bytes = sha256 (sha256 bytes)

unfoldable pub root_from_steps : (List ℕ → List ℕ) → List ℕ → List (List ℕ) → List ℕ
unfolding sha256d
root_from_steps sha256 acc [] = acc
root_from_steps sha256 acc (step ∷ steps) =
    root_from_steps sha256 (sha256d sha256 (acc ++ step)) steps

-- `chunks(4)` with each chunk reversed, `n` chunks.
unfoldable pub swab_chunks : ℕ → List ℕ → List ℕ
swab_chunks zero bytes = []
swab_chunks (suc n) bytes = reverse (take 4 bytes) ++ swab_chunks n (drop 4 bytes)

unfoldable pub swab32 : List ℕ → List ℕ
unfolding swab_chunks
swab32 bytes = swab_chunks 8 bytes

-- The text of a hash, with the `hex` crate's encoder.
unfoldable pub hash_to_display : {Text : Type 0} → (List ℕ → Text) → List ℕ → Text
hash_to_display hex_encode hash = hex_encode (reverse hash)
