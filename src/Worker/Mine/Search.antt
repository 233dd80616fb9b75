-- ===== src/Worker/Mine/Search.antt =====
-- The search without batches: one position after another, an extranonce2 and a nonce.
use bc3_online_miner.Common.{
  ℕ, zero, suc, ◌+◌, List, [], ◌++◌, ◌==◌, if◌then◌else◌, u32_mod, ◌≡◌, ap, sym, ◌∙◌, arith,
}
use Prim.Native.String.{String}
use mathlib.Core.List.{append_assoc}
use bc3_online_miner.Consensus.Pow.{PowFn}
use bc3_online_miner.Consensus.Header.{serialize}
use bc3_online_miner.Shared.Job.{MinerJob}
use bc3_online_miner.Worker.Extranonce.{encode_extranonce2}
use bc3_online_miner.Worker.Mine.{Find, check_hash, header_of}

pub record Position : Type 0 where
  pub en2 : ℕ
  pub nonce : ℕ

module _ (stride : ℕ) where
  unfoldable pub next : Position → Position
  next p =
      if suc p.nonce == u32_mod
      then record { en2 = p.en2 + stride; nonce = 0 }
      else record { en2 = p.en2; nonce = suc p.nonce }

  unfoldable pub advance : ℕ → Position → Position
  advance zero p = p
  advance (suc n) p = advance n (next p)

  pub advance-add : (m n : ℕ) (p : Position) → advance (m + n) p ≡ advance n (advance m p)
  unfolding advance
  advance-add zero n p = let e : 0 + n ≡ n = omega arith in ap (λ k. advance k p) e
  advance-add (suc m) n p =
      let e : suc m + n ≡ suc (m + n) = omega arith in
      ap (λ k. advance k p) e ∙ advance-add m n (next p)

module _ (sha256 : List ℕ → List ℕ) (hex_encode : List ℕ → String) (pow : PowFn)
    (job : MinerJob) where
  -- The header of a position is serialized as a whole and hashed.
  unfoldable pub find_at : Position → List Find
  find_at p =
      let extranonce2 = encode_extranonce2 p.en2 job.extranonce2_size in
      check_hash hex_encode pow job extranonce2 p.nonce
        (pow (serialize (header_of sha256 job extranonce2 p.nonce)))

  unfoldable pub finds_along : ℕ → ℕ → Position → List Find
  finds_along stride zero p = []
  finds_along stride (suc n) p = find_at p ++ finds_along stride n (next stride p)

  pub finds_along-add :
      (stride m n : ℕ) (p : Position)
      → finds_along stride (m + n) p
        ≡ finds_along stride m p ++ finds_along stride n (advance stride m p)
  unfolding finds_along advance
  finds_along-add stride zero n p =
      let e : 0 + n ≡ n = omega arith in ap (λ k. finds_along stride k p) e
  finds_along-add stride (suc m) n p =
      let e : suc m + n ≡ suc (m + n) = omega arith in
      ap (λ k. finds_along stride k p) e
      ∙ ap (◌++◌ (find_at p)) (finds_along-add stride m n (next stride p))
      ∙ sym (append_assoc (find_at p) _ _)
