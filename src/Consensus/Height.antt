-- ===== src/Consensus/Height.antt =====
-- src/consensus.rs: `bip34_height`, the block height read from the coinbase script.
pub mod Value
use bc3_online_miner.Common.{
  ℕ, ◌+◌, ◌-◌, ◌*◌, ◌^◌, ◌%◌, Bool, true, false, not, ◌&&◌, ◌||◌, Option, none, some, List, [], ◌∷◌,
  bit_and, bit_or, length, get_elem?, get_or, take, drop, leb, ltb, ◌==◌, if◌then◌else◌, ◌>>=◌,
}

-- `bytes.get(from..from + len)`
unfoldable pub get_range : ℕ → ℕ → List ℕ → Option (List ℕ)
get_range from len bytes =
    if leb (from + len) (length bytes) then some (take len (drop from bytes)) else none

-- The width of the script length, a varint with first byte `first`.
unfoldable pub varint_width : ℕ → ℕ
varint_width first =
    if first == 0xfd then 3 else if first == 0xfe then 5 else if first == 0xff then 9 else 1

-- `height |= (*b as u32) << (8 * i)`, from byte `i` on.
unfoldable pub height_from : ℕ → ℕ → List ℕ → ℕ
height_from height i [] = height
height_from height i (b ∷ bs) = height_from (bit_or height (b * 2 ^ (8 * i) % 2 ^ 32)) (i + 1) bs

-- A push of `op` bytes at `pos`, little-endian with the sign in the top bit.
unfoldable pub pushed_height : ℕ → ℕ → List ℕ → Option ℕ
unfolding get_range height_from
pushed_height op pos coinb1 = if op == 0 || ltb 4 op then none else (do
  bytes ← get_range (pos + 1) op coinb1
  if not (bit_and (get_or bytes (op - 1) 0) 0x80 == 0) then none else some (height_from 0 0 bytes))

unfoldable pub bip34_height : List ℕ → Option ℕ
unfolding varint_width pushed_height
bip34_height coinb1 = do
  first ← get_elem? coinb1 (4 + 1 + 36)
  let pos = 4 + 1 + 36 + varint_width first
  op ← get_elem? coinb1 pos
  if op == 0
      then some 0
      else if leb 0x51 op && leb op 0x60
      then some (op - 0x50)
      else pushed_height op pos coinb1
