-- ===== src/Consensus/Merkle/Swab.antt =====
-- The word swap of the `prevhash` field undoes itself.
use bc3_online_miner.Common.{ℕ, zero, suc, ◌*◌, List, [], ◌∷◌, ◌≡◌, refl, ap, length, arith}
use bc3_online_miner.Consensus.Merkle.{swab_chunks, swab32}

swab_chunks-involutive :
    (n : ℕ) (bytes : List ℕ) → length bytes ≡ n * 4 → swab_chunks n (swab_chunks n bytes) ≡ bytes
unfolding swab_chunks
swab_chunks-involutive zero [] e = refl
swab_chunks-involutive zero (a ∷ bytes) e = absurd (omega arith)
swab_chunks-involutive (suc n) (a ∷ b ∷ c ∷ d ∷ bytes) e =
    ap (λ l. a ∷ b ∷ c ∷ d ∷ l) (swab_chunks-involutive n bytes (omega arith))
swab_chunks-involutive (suc n) [] e = absurd (omega arith)
swab_chunks-involutive (suc n) (a ∷ []) e = absurd (omega arith)
swab_chunks-involutive (suc n) (a ∷ b ∷ []) e = absurd (omega arith)
swab_chunks-involutive (suc n) (a ∷ b ∷ c ∷ []) e = absurd (omega arith)

pub length-swab_chunks :
    (n : ℕ) (bytes : List ℕ) → length bytes ≡ n * 4 → length (swab_chunks n bytes) ≡ n * 4
unfolding swab_chunks
length-swab_chunks zero bytes e = omega arith
length-swab_chunks (suc n) (a ∷ b ∷ c ∷ d ∷ bytes) e =
    omega (arith, length-swab_chunks n bytes (omega arith))
length-swab_chunks (suc n) [] e = absurd (omega arith)
length-swab_chunks (suc n) (a ∷ []) e = absurd (omega arith)
length-swab_chunks (suc n) (a ∷ b ∷ []) e = absurd (omega arith)
length-swab_chunks (suc n) (a ∷ b ∷ c ∷ []) e = absurd (omega arith)

-- On 32 bytes the swap keeps the length and undoes itself.
pub swab32-involutive :
    (bytes : List ℕ)
    → length bytes ≡ 32
    → (length (swab32 bytes) ≡ 32) × (swab32 (swab32 bytes) ≡ bytes)
unfolding swab32
swab32-involutive bytes e = (length-swab_chunks 8 bytes e, swab_chunks-involutive 8 bytes e)
