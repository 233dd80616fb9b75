-- ===== src/Consensus/Target/Difficulty.antt =====
-- The target of a share difficulty is the exact quotient the pool computes.
use bc3_online_miner.Common.{
  ◌*◌, ◌/◌, ◌^◌, ◌≤◌, ◌<◌, some, ◌≡◌, refl, ap, ◌∙◌, length, IsBytes, be_value, arith, Float,
}
use bc3_online_miner.Consensus.Target.{
  compact_to_target, place, diff1, shl, scale_bits, divisor_for, target_for_difficulty,
}
use bc3_online_miner.Consensus.Target.Division.{be_value-divide, length-divide}

-- The `expect` on difficulty 1 does not fail.
pub diff1_lem : compact_to_target 0x1d00ffff ≡ some diff1
unfolding compact_to_target diff1 place
diff1_lem = refl

-- The dividend, `diff1 << 31`, still fits in 256 bits.
dividend-value : be_value (shl diff1 scale_bits) ≡ 0xffff * 2 ^ 239
unfolding be_value shl diff1
dividend-value = refl

dividend-length : length (shl diff1 scale_bits) ≡ 32
unfolding shl diff1
dividend-length = refl

dividend-IsBytes : IsBytes (shl diff1 scale_bits)
unfolding shl diff1
dividend-IsBytes = omega arith

module _ (float : Float) where
  open float use {F64, of_nat, mul, fmax, to_u128}

  -- What the code relies on: a number that is at least 1 does not truncate to 0.
  abbrev pub MaxOneTruncates : Type 0
  MaxOneTruncates = (x : F64) → 1 ≤ to_u128 (fmax x (of_nat 1))

  module _ (truncates : MaxOneTruncates) (difficulty : F64) where
    divisor_pos : 0 < divisor_for float difficulty
    unfolding divisor_for
    divisor_pos = omega (arith, truncates (mul difficulty (of_nat (2 ^ scale_bits))))

    divisor_fits : divisor_for float difficulty < 2 ^ 120
    unfolding divisor_for
    divisor_fits = omega arith

    -- If a float that is at least 1 does not truncate to 0, the target of a share difficulty has
    -- 32 bytes and is the exact quotient of `0xffff << 239` (difficulty 1 shifted by 31 bits) by
    -- the scaled difficulty.
    pub target_for_difficulty_exact :
        (length (target_for_difficulty float difficulty) ≡ 32)
        × (be_value (target_for_difficulty float difficulty)
            ≡ 0xffff * 2 ^ 239 / divisor_for float difficulty)
    unfolding target_for_difficulty
    target_for_difficulty_exact =
        let d = divisor_for float difficulty in
        (
          length-divide d divisor_pos divisor_fits (shl diff1 scale_bits) ∙ dividend-length,
          be_value-divide d divisor_pos divisor_fits (shl diff1 scale_bits) dividend-IsBytes
              ∙ ap (λ n. n / d) dividend-value,
        )
