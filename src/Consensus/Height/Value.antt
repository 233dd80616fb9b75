-- ===== src/Consensus/Height/Value.antt =====
-- The bytes of a pushed height, joined by `|`, are its little-endian value.
use bc3_online_miner.Common.{
  ℕ, ◌+◌, ◌*◌, ◌^◌, ◌%◌, ◌≤◌, ◌<◌, ◌≡◌, ap, ◌∙◌, List, [], ◌∷◌, length, IsBytes, le_value, bit_or,
  bit_or_comm, bit_or_fields, pow-add, arith,
}
use native.Mathlib.Nat.{mod-eq_of_lt, pow-le-pow_right}
use bc3_online_miner.Consensus.Height.{height_from}

scaled : (b p : ℕ) → b < 256 → 0 < p → b * p < p * 256
scaled b p h pos = grind arith

grown : (b p x q : ℕ) → b < 256 → x < p → q ≡ p * 256 → b * p + x < q
grown b p x q h small e = grind arith

pub height_from_lem :
    (height i : ℕ) (bytes : List ℕ)
    → height < 2 ^ (8 * i)
    → i + length bytes ≤ 4
    → IsBytes bytes
    → height_from height i bytes ≡ height + le_value bytes * 2 ^ (8 * i)
unfolding height_from le_value
height_from_lem height i [] small short h = omega arith
height_from_lem height i (b ∷ bs) small short h =
    let p = 2 ^ (8 * i) in
    let wider : 2 ^ (8 * (i + 1)) ≡ p * 256 =
      ap (λ k. 2 ^ k) (let e : 8 * (i + 1) ≡ 8 * i + 8 = omega arith in e) ∙ pow-add 2 (8 * i) 8 in
    let room : 2 ^ (8 * (i + 1)) ≤ 2 ^ 32 =
      pow-le-pow_right {n = 2} (omega arith) {i = 8 * (i + 1)} {j = 32} (omega arith) in
    let below : b * p < p * 256 = scaled b p h.0 (omega arith) in
    let fits : b * p % 2 ^ 32 ≡ b * p = mod-eq_of_lt {n = b * p} {m = 2 ^ 32} (omega arith) in
    let joined : bit_or height (b * p % 2 ^ 32) ≡ b * p + height =
      ap (bit_or height) fits ∙ bit_or_comm height (b * p) ∙ bit_or_fields (8 * i) b height small in
    rw joined (
      height_from_lem (b * p + height) (i + 1) bs
        (grown b p height (2 ^ (8 * (i + 1))) h.0 small wider) (omega arith) h.1
      ∙ omega (arith, ap (λ t. le_value bs * t) wider))

-- Up to four bytes.
pub height_from-le_value :
    (bytes : List ℕ) → length bytes ≤ 4 → IsBytes bytes → height_from 0 0 bytes ≡ le_value bytes
height_from-le_value bytes short h =
    height_from_lem 0 0 bytes (omega arith) (omega arith) h ∙ omega arith
