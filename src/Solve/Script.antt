-- ===== src/Solve/Script.antt =====
-- src/solve.rs: `push_varint` and the encoder `bip34_height`.
pub mod Digits
pub mod RoundTrip
use bc3_online_miner.Common.{
  ℕ, zero, suc, ◌*◌, ◌/◌, ◌%◌, ◌^◌, Bool, not, List, [], ◌∷◌, ◌++◌, Option, none, some, bit_and,
  length, leb, ◌==◌, if◌then◌else◌, to_le_bytes,
}
use bc3_online_miner.Common.Results.{Result, ok, err}

pub data ParseError : Type 0 where
  not_job_file not_number not_hex bad_bits not_32_bytes height_too_low script_length no_payouts
        total_overflows :
      ParseError

-- Bitcoin's CompactSize: the bytes that are pushed.
unfoldable pub push_varint : ℕ → List ℕ
push_varint n =
    if leb n 0xfc
    then (n % 256) ∷ []
    else if leb n 0xffff
    then 0xfd ∷ to_le_bytes 2 n
    else if leb n 0xffff_ffff
    then 0xfe ∷ to_le_bytes 4 n
    else 0xff ∷ to_le_bytes 8 n

-- `while h > 0 { num.push(h as u8); h >>= 8; }`, with fuel: four rounds empty a `u32`.
unfoldable pub num_bytes : ℕ → ℕ → List ℕ
num_bytes zero h = []
num_bytes (suc fuel) h =
    let rest = num_bytes fuel (h / 2 ^ 8) in if h == 0 then [] else (h % 256) ∷ rest

-- `num.last()`
unfoldable pub last_byte : List ℕ → Option ℕ
last_byte [] = none
last_byte (b ∷ []) = some b
last_byte (b ∷ c ∷ bs) = last_byte (c ∷ bs)

unfoldable pub has_top_bit : Option ℕ → Bool
has_top_bit none = Bool.false
has_top_bit (some b) = not (bit_and b 0x80 == 0)

-- The height as a minimal script number; a set top bit would make it negative.
unfoldable pub script_num : ℕ → List ℕ
unfolding num_bytes last_byte has_top_bit
script_num height =
    let num = num_bytes 4 height in if has_top_bit (last_byte num) then num ++ (0 ∷ []) else num

unfoldable pub bip34_height : ℕ → Result ParseError (List ℕ)
bip34_height height =
    if leb height 16
    then err height_too_low
    else ok ((length (script_num height) % 256) ∷ script_num height)
