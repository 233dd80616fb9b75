-- ===== src/Consensus/Examples.antt =====
-- src/consensus.rs: the rules at small inputs.
use bc3_online_miner.Common.{
  ℕ, ◌*◌, ◌/◌, ◌^◌, ◌≤◌, true, none, some, List, [], ◌∷◌, replicate, length, ◌≡◌, ◌↔◌, refl, arith,
  le_value, be_value, naturals, ◌⊎◌,
}
use bc3_online_miner.Consensus.Pow.{PowFn}
use bc3_online_miner.Consensus.Header.{BlockHeader, serialize, set_nonce}
use bc3_online_miner.Consensus.Header.Layout.{IsHeader, parse, parse-serialize, nonce_overwrite}
use bc3_online_miner.Consensus.Target.{
  hash_meets_target, compact_to_target, place, target_for_difficulty, divisor_for,
}
use bc3_online_miner.Consensus.Target.Meets.{hash_meets_target_iff}
use bc3_online_miner.Consensus.Target.Compact.{
  compact_to_target-cases, sign, exponent, mantissa, Fits, IsTarget,
}
use bc3_online_miner.Consensus.Target.Difficulty.{MaxOneTruncates, target_for_difficulty_exact}
use bc3_online_miner.Consensus.Merkle.{root_from_steps}
use bc3_online_miner.Consensus.Merkle.Tree.{
  txid, pair, root, first_leaf, branch, root_from_steps-branch,
}

abbrev same_bytes : PowFn
same_bytes bytes = bytes

abbrev a_header : BlockHeader
a_header = record {
  version = 0x20000800;
  prev_hash = replicate 32 6;
  merkle_root = replicate 32 7;
  time = 1700000000;
  bits = 0x1d00ffff;
  nonce = 5;
}

a_header-IsHeader : IsHeader a_header
a_header-IsHeader = record {
  version_fits = omega arith;
  prev_hash_fits = refl;
  merkle_root_fits = refl;
  time_fits = omega arith;
  bits_fits = omega arith;
  nonce_fits = omega arith;
}

parse-serialize_example : parse (serialize a_header) ≡ a_header
parse-serialize_example = parse-serialize a_header a_header-IsHeader

nonce_overwrite_example :
    set_nonce 77 (serialize a_header) ≡ serialize (record a_header { nonce = 77 })
nonce_overwrite_example = nonce_overwrite a_header a_header-IsHeader 77 (omega arith)

hash_meets_target_iff_example :
    (hash_meets_target (replicate 32 3) (replicate 32 4) ≡ true)
    ↔ (le_value (replicate 32 3) ≤ be_value (replicate 32 4))
hash_meets_target_iff_example =
    hash_meets_target_iff (replicate 32 3) (replicate 32 4) refl refl (omega arith) (omega arith)

compact_to_target-cases_example :
    ((compact_to_target 0x2100ffff ≡ none)
      × ¬ ((sign 0x2100ffff ≡ 0) × Fits (exponent 0x2100ffff) (mantissa 0x2100ffff)))
    ⊎ ((t : List ℕ) × (compact_to_target 0x2100ffff ≡ some t)
        × (sign 0x2100ffff ≡ 0)
        × Fits (exponent 0x2100ffff) (mantissa 0x2100ffff)
        × IsTarget (exponent 0x2100ffff) (mantissa 0x2100ffff) t)
compact_to_target-cases_example = compact_to_target-cases 0x2100ffff

-- A number whose value, `0xffff * 256^30`, takes 32 bytes is refused.
wide_is_refused : compact_to_target 0x2100ffff ≡ none
unfolding compact_to_target place
wide_is_refused = refl

naturals-MaxOneTruncates : MaxOneTruncates naturals
naturals-MaxOneTruncates x = omega arith

target_for_difficulty_exact_example :
    (length (target_for_difficulty naturals 4096) ≡ 32)
    × (be_value (target_for_difficulty naturals 4096)
        ≡ 0xffff * 2 ^ 239 / divisor_for naturals 4096)
target_for_difficulty_exact_example =
    target_for_difficulty_exact naturals naturals-MaxOneTruncates 4096

root_from_steps-branch_example :
    root_from_steps same_bytes
      (first_leaf (pair (pair (txid (1 ∷ [])) (txid (2 ∷ []))) (txid (3 ∷ []))))
      (branch same_bytes (pair (pair (txid (1 ∷ [])) (txid (2 ∷ []))) (txid (3 ∷ []))))
    ≡ root same_bytes (pair (pair (txid (1 ∷ [])) (txid (2 ∷ []))) (txid (3 ∷ [])))
root_from_steps-branch_example =
    root_from_steps-branch same_bytes (pair (pair (txid (1 ∷ [])) (txid (2 ∷ []))) (txid (3 ∷ [])))
