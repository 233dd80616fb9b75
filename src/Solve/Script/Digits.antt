-- ===== src/Solve/Script/Digits.antt =====
-- The bytes of a `u32` below 2^31, by its size.
use bc3_online_miner.Common.{
  ℕ, zero, suc, ◌/◌, ◌%◌, ◌^◌, ◌≤◌, ◌<◌, ◌≡◌, List, length, bit_and_single, le_value, arith,
  IsBytes, false,
}
use native.Mathlib.Nat.{pow-suc}
use bc3_online_miner.Solve.Script.{num_bytes, last_byte, has_top_bit, script_num}

-- `fuel` rounds are enough for `fuel` bytes: nothing of the number is left.
pub le_value-num_bytes : (fuel h : ℕ) → h < 256 ^ fuel → le_value (num_bytes fuel h) ≡ h
unfolding num_bytes le_value
le_value-num_bytes zero h small = omega arith
le_value-num_bytes (suc fuel) h small =
    ground (arith, pow-suc 256 fuel, le_value-num_bytes fuel (h / 256))

-- A pushed script number: up to four bytes, the last with a clear top bit.
pub record IsPush (height : ℕ) (num : List ℕ) : Type 0 where
  pub not_empty : 0 < length num
  pub short : length num ≤ 4
  pub bytes : IsBytes num
  pub value : le_value num ≡ height
  pub positive : has_top_bit (last_byte num) ≡ false

pub script_num-IsPush :
    (height : ℕ) → 16 < height → height < 2 ^ 31 → IsPush height (script_num height)
unfolding script_num le_value
script_num-IsPush height low high = record {
  not_empty = ground arith;
  short = ground (arith, bit_and_single 7 (height / 256 / 256 / 256 % 256));
  bytes = ground arith;
  value = ground arith;
  positive = ground (
    arith,
    bit_and_single 7 (height % 256),
    bit_and_single 7 (height / 256 % 256),
    bit_and_single 7 (height / 256 / 256 % 256),
    bit_and_single 7 (height / 256 / 256 / 256 % 256),
  );
}
