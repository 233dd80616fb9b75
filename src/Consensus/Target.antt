-- ===== src/Consensus/Target.antt =====
-- src/consensus.rs: compact targets, the target test, the target of a share difficulty and the
-- 256-bit shift. A target is 32 big-endian bytes, a hash 32 little-endian bytes.
pub mod Meets
pub mod Division
pub mod Compact
pub mod Difficulty
use mathlib.Core.Option.{get_or as unwrap_or}
use bc3_online_miner.Common.{
  ℕ, zero, suc, ◌+◌, ◌-◌, ◌*◌, ◌/◌, ◌%◌, ◌^◌, min, bit_and, bit_or, Bool, true, false, not, ◌||◌,
  Option, none, some, List, [], ◌∷◌, get_or, set, replicate, ltb, leb, ◌==◌, if◌then◌else◌, Float,
}

-- The loop over the three mantissa bytes, at byte `i`.
unfoldable pub place : ℕ → ℕ → List ℕ → List ℕ → Option (List ℕ)
place exponent i [] out = some out
place exponent i (b ∷ bs) out =
    let pos = 32 - exponent + i in
    let placed = place exponent (i + 1) bs (set out pos b) in
    let skipped = place exponent (i + 1) bs out in
    -- `32usize.checked_sub(exponent)?`
    if ltb 32 exponent
    then none
    else if ltb pos 32
    then placed
    else if b == 0
    then skipped
    else none

unfoldable pub mantissa_of : ℕ → ℕ
mantissa_of bits = bit_and bits 0x7fffff

unfoldable pub compact_to_target : ℕ → Option (List ℕ)
unfolding mantissa_of
compact_to_target bits =
    let exponent = bits / 2 ^ 24 in
    let mantissa = mantissa_of bits in
    let bytes = (mantissa / 2 ^ 16 % 256) ∷ (mantissa / 2 ^ 8 % 256) ∷ (mantissa % 256) ∷ [] in
    if not (bit_and bits 0x800000 == 0) || ltb 34 exponent
    then none
    else place exponent 0 bytes (replicate 32 0)

-- `for i in (0..32).rev()`, with `i` rounds left.
unfoldable pub meets_from : List ℕ → List ℕ → ℕ → Bool
meets_from hash target zero = true
meets_from hash target (suc i) =
    let h = get_or hash i 0 in
    let t = get_or target (31 - i) 0 in
    if ltb h t then true else if ltb t h then false else meets_from hash target i

unfoldable pub hash_meets_target : List ℕ → List ℕ → Bool
unfolding meets_from
hash_meets_target hash target = meets_from hash target 32

-- Byte `i` of `x << (8 * bytes + bits)`; `u8 << bits` drops the bits past the top.
unfoldable pub shl_byte : List ℕ → ℕ → ℕ → ℕ → ℕ
shl_byte x bytes bits i =
    if bits == 0
    then get_or x (i + bytes) 0
    else bit_or (get_or x (i + bytes) 0 * 2 ^ bits % 256)
        (get_or x (i + bytes + 1) 0 / 2 ^ (8 - bits))

-- The bytes from index `i`, with `left` of the 32 to go.
unfoldable pub shl_from : List ℕ → ℕ → ℕ → ℕ → ℕ → List ℕ
unfolding shl_byte
shl_from x bytes bits i zero = []
shl_from x bytes bits i (suc left) = shl_byte x bytes bits i ∷ shl_from x bytes bits (i + 1) left

unfoldable pub shl : List ℕ → ℕ → List ℕ
unfolding shl_from
shl x n = shl_from x (n / 8) (n % 8) 0 32

-- Long division over the big-endian bytes; the remainder is a `u128`, the quotient a `u8`.
unfoldable pub divide : ℕ → ℕ → List ℕ → List ℕ
divide divisor rem [] = []
divide divisor rem (d ∷ ds) =
    let rem' = bit_or (rem * 2 ^ 8 % 2 ^ 128) d in
    (rem' / divisor % 256) ∷ divide divisor (rem' % divisor) ds

abbrev pub scale_bits : ℕ
scale_bits = 31

-- `compact_to_target(0x1d00ffff).expect(…)`; `diff1_lem` shows that the `expect` does not fail.
unfoldable pub diff1 : List ℕ
unfolding compact_to_target place
diff1 = unwrap_or (compact_to_target 0x1d00ffff) []

module _ (float : Float) where
  open float use {F64, of_nat, mul, fmax, to_u128}

  unfoldable pub divisor_for : F64 → ℕ
  divisor_for difficulty =
      min (to_u128 (fmax (mul difficulty (of_nat (2 ^ scale_bits))) (of_nat 1))) (2 ^ 120 - 1)

  unfoldable pub target_for_difficulty : F64 → List ℕ
  unfolding divisor_for divide shl diff1
  target_for_difficulty difficulty = divide (divisor_for difficulty) 0 (shl diff1 scale_bits)
