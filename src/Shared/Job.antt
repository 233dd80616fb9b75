-- ===== src/Shared/Job.antt =====
-- src/shared.rs: `MinerJob`, `FoundShare` and `same_search_space`.
use Prim.Native.String.{String}
use bc3_online_miner.Common.{
  ℕ, Bool, true, false, Option, List, [], ◌∷◌, ◌&&◌, ◌==◌, ◌≡◌, ◌↔◌, refl, arith,
}
use bc3_online_miner.Consensus.Pow.{PowAlgo}

pub record MinerJob : Type 0 where
  pub job_id : String
  pub extranonce1 : List ℕ
  pub extranonce2_size : ℕ
  pub coinb1 : List ℕ
  pub coinb2 : List ℕ
  pub merkle_steps : List (List ℕ)
  pub version : ℕ
  pub prev_hash : List ℕ
  pub bits : ℕ
  pub ntime : ℕ
  pub share_target : List ℕ
  pub height : Option ℕ
  pub algo : PowAlgo

pub record FoundShare : Type 0 where
  pub job_id : String
  pub extranonce2 : List ℕ
  pub ntime : ℕ
  pub nonce : ℕ
  pub hash_display : String
  pub is_block_candidate : Bool

-- `==` on byte vectors, and on vectors of them.
unfoldable pub bytes_eq : List ℕ → List ℕ → Bool
bytes_eq [] [] = true
bytes_eq [] (b ∷ ys) = false
bytes_eq (a ∷ xs) [] = false
bytes_eq (a ∷ xs) (b ∷ ys) = a == b && bytes_eq xs ys

unfoldable pub steps_eq : List (List ℕ) → List (List ℕ) → Bool
steps_eq [] [] = true
steps_eq [] (b ∷ ys) = false
steps_eq (a ∷ xs) [] = false
steps_eq (a ∷ xs) (b ∷ ys) = bytes_eq a b && steps_eq xs ys

unfoldable pub same_search_space : MinerJob → MinerJob → Bool
same_search_space a b =
    bytes_eq a.extranonce1 b.extranonce1
    && (a.extranonce2_size == b.extranonce2_size)
    && bytes_eq a.coinb1 b.coinb1
    && bytes_eq a.coinb2 b.coinb2
    && steps_eq a.merkle_steps b.merkle_steps
    && (a.version == b.version)
    && bytes_eq a.prev_hash b.prev_hash
    && (a.bits == b.bits)
    && (a.ntime == b.ntime)

pub bytes_eq_iff : (a b : List ℕ) → (bytes_eq a b ≡ true) ↔ (a ≡ b)
unfolding bytes_eq
bytes_eq_iff [] [] = ((λ _. refl), λ _. refl)
bytes_eq_iff [] (b ∷ ys) = ((λ e. cc), λ e. cc)
bytes_eq_iff (a ∷ xs) [] = ((λ e. cc), λ e. cc)
bytes_eq_iff (a ∷ xs) (b ∷ ys) = ground (arith, bytes_eq_iff xs ys)

pub steps_eq_iff : (a b : List (List ℕ)) → (steps_eq a b ≡ true) ↔ (a ≡ b)
unfolding steps_eq
steps_eq_iff [] [] = ((λ _. refl), λ _. refl)
steps_eq_iff [] (b ∷ ys) = ((λ e. cc), λ e. cc)
steps_eq_iff (a ∷ xs) [] = ((λ e. cc), λ e. cc)
steps_eq_iff (a ∷ xs) (b ∷ ys) = ground (arith, bytes_eq_iff a b, steps_eq_iff xs ys)
