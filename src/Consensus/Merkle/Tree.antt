-- ===== src/Consensus/Merkle/Tree.antt =====
-- Folding the branch of the first leaf gives the root of the tree.
use bc3_online_miner.Common.{ℕ, List, [], ◌∷◌, ◌++◌, ◌≡◌, refl, ap, ◌∙◌}
use bc3_online_miner.Consensus.Merkle.{sha256d, root_from_steps}

-- A Merkle tree over transaction ids.
pub data Tree : Type 0 where
  txid : List ℕ → Tree
  pair : Tree → Tree → Tree

pub root : (List ℕ → List ℕ) → Tree → List ℕ
root sha256 (txid t) = t
root sha256 (pair l r) = sha256d sha256 (root sha256 l ++ root sha256 r)

-- The first transaction, the coinbase.
pub first_leaf : Tree → List ℕ
first_leaf (txid t) = t
first_leaf (pair l r) = first_leaf l

-- The roots beside the path from the first leaf up.
pub branch : (List ℕ → List ℕ) → Tree → List (List ℕ)
branch sha256 (txid t) = []
branch sha256 (pair l r) = branch sha256 l ++ (root sha256 r ∷ [])

root_from_steps-append :
    (sha256 : List ℕ → List ℕ) (acc : List ℕ) (steps : List (List ℕ)) (last : List ℕ)
    → root_from_steps sha256 acc (steps ++ (last ∷ []))
      ≡ sha256d sha256 (root_from_steps sha256 acc steps ++ last)
unfolding root_from_steps
root_from_steps-append sha256 acc [] last = refl
root_from_steps-append sha256 acc (s ∷ steps) last =
    root_from_steps-append sha256 (sha256d sha256 (acc ++ s)) steps last

-- For every tree and hash function, folding the branch of the coinbase over its id gives the
-- Merkle root of the whole tree.
pub root_from_steps-branch :
    (sha256 : List ℕ → List ℕ) (t : Tree)
    → root_from_steps sha256 (first_leaf t) (branch sha256 t) ≡ root sha256 t
unfolding root_from_steps root first_leaf branch
root_from_steps-branch sha256 (txid t) = refl
root_from_steps-branch sha256 (pair l r) =
    root_from_steps-append sha256 (first_leaf l) (branch sha256 l) (root sha256 r)
    ∙ ap (λ x. sha256d sha256 (x ++ root sha256 r)) (root_from_steps-branch sha256 l)
