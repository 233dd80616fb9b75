-- ===== src/Consensus/Difficulty.antt =====
-- src/consensus.rs: `difficulty_of_hash` and `difficulty_of_bits`, on floating-point numbers.
use bc3_online_miner.Common.{ℕ, Option, none, some, List, [], ◌∷◌, reverse, if◌then◌else◌, Float}
use bc3_online_miner.Consensus.Target.{compact_to_target}

module _ (float : Float) where
  open float use {F64, of_nat, add, mul, div, feq, infinity}

  -- The value of big-endian bytes: `x = x * 256.0 + b as f64` for each of them.
  unfoldable pub f64_from : F64 → List ℕ → F64
  f64_from x [] = x
  f64_from x (b ∷ bytes) = f64_from (add (mul x (of_nat 256)) (of_nat b)) bytes

  -- `compact_to_target(0x1d00ffff).unwrap()` is not `None`.
  abbrev diff1_of : Option (List ℕ) → F64
  diff1_of none = of_nat 0
  diff1_of (some target) = f64_from (of_nat 0) target

  unfoldable pub diff1_f64 : F64
  unfolding f64_from compact_to_target
  diff1_f64 = diff1_of (compact_to_target 0x1d00ffff)

  unfoldable pub difficulty_of_hash : List ℕ → F64
  unfolding f64_from diff1_f64
  difficulty_of_hash hash =
      let h = f64_from (of_nat 0) (reverse hash) in
      if feq h (of_nat 0) then infinity else div diff1_f64 h

  abbrev difficulty_of : F64 → F64
  difficulty_of target = if feq target (of_nat 0) then of_nat 0 else div diff1_f64 target

  abbrev difficulty_at : Option (List ℕ) → F64
  difficulty_at none = of_nat 0
  difficulty_at (some target) = difficulty_of (f64_from (of_nat 0) target)

  unfoldable pub difficulty_of_bits : ℕ → F64
  unfolding f64_from diff1_f64 compact_to_target
  difficulty_of_bits bits = difficulty_at (compact_to_target bits)
