-- ===== src/Stratum/Messages.antt =====
-- src/stratum.rs: `parse_difficulty`, `parse_extranonce1` and `parse_notify`. The JSON values of
-- `serde_json` and the decoders of `hex` and of the standard library are an interface.
pub mod Jobs
use Prim.Native.String.{String, compare as compare_text}
use Prim.Native.Nat.{Ordering}
use bc3_online_miner.Common.{
  ℕ, Bool, true, false, Option, none, some, List, [], ◌∷◌, ◌==◌, ◌&&◌, leb, length, get_elem?,
  require, Float,
}
use bc3_online_miner.Consensus.Pow.{for_version}
use bc3_online_miner.Consensus.Target.{target_for_difficulty}
use bc3_online_miner.Consensus.Height.{bip34_height}
use bc3_online_miner.Consensus.Merkle.{swab32}
use bc3_online_miner.Shared.Job.{MinerJob}

pub record Json (F64 : Type 0) : Type 1 where
  pub Value : Type 0
  -- `serde_json::from_str` of a line; none where it is not JSON
  pub from_line : List ℕ → Option Value
  -- `v["key"]` and `v[i]`: null where there is no such value
  pub key : Value → String → Value
  pub at : Value → ℕ → Value
  pub as_u64 : Value → Option ℕ
  pub as_f64 : Value → Option F64
  pub as_str : Value → Option String
  pub as_array : Value → Option (List Value)
  pub is_null : Value → Bool
  -- `v == json!(n)`, `v == json!(true)` and `v == json!(false)`
  pub is_number : Value → ℕ → Bool
  pub is_true : Value → Bool
  pub is_false : Value → Bool
  -- the bytes of `v.to_string()`
  pub to_text : Value → List ℕ
  -- `hex::decode` and `u32::from_str_radix(_, 16)`
  pub hex_decode : String → Option (List ℕ)
  pub from_hex_u32 : String → Option ℕ

infixl 5 ◌>>=◌
-- `?` on an option.
unfoldable pub ◌>>=◌ {ℓ κ} : {A : Type ℓ} {B : Type κ} → Option A → (A → Option B) → Option B
none >>= f = none
some a >>= f = f a

abbrev pub text_eq : String → String → Bool
text_eq a b = elim (compare_text a b) [ Ordering.eq ↦ true | _ ↦ false ]

abbrev pub max_extranonce1 : ℕ
max_extranonce1 = 32

-- `<[u8; 32]>::try_from(v).ok()`
unfoldable pub bytes_32 : List ℕ → Option (List ℕ)
bytes_32 bytes = require (length bytes == 32) (some bytes)

abbrev or_empty : Option String → String
or_empty none = ""
or_empty (some text) = text

module _ (float : Float) (json : Json float.F64) where
  open float use {F64, of_nat, flt, is_finite}
  open json use {Value, as_f64, as_str, as_array, hex_decode, from_hex_u32}

  unfoldable pub parse_difficulty : Value → Option F64
  parse_difficulty v = do d ← as_f64 v; require (is_finite d && flt (of_nat 0) d) (some d)

  unfoldable pub parse_extranonce1 : Value → Option (List ℕ)
  parse_extranonce1 v = do
    text ← as_str v
    bytes ← hex_decode text
    require (leb (length bytes) max_extranonce1) (some bytes)

  -- `collect::<Option<Vec<_>>>`: all the steps, or nothing.
  unfoldable pub parse_steps : List Value → Option (List (List ℕ))
  unfolding bytes_32
  parse_steps [] = some []
  parse_steps (v ∷ vs) =
      let rest = parse_steps vs in
      (do
        bytes ← hex_decode (or_empty (as_str v))
        step ← bytes_32 bytes
        steps ← rest
        some (step ∷ steps))

  -- The text of a parameter. `session` has counted the parameters before.
  abbrev pub text_at : List Value → ℕ → Option String
  text_at p i = do v ← get_elem? p i; as_str v

  unfoldable pub parse_notify : List Value → List ℕ → ℕ → F64 → Option MinerJob
  unfolding parse_steps bytes_32
  parse_notify p extranonce1 extranonce2_size difficulty = do
    prev_text ← text_at p 1
    prev_bytes ← hex_decode prev_text
    prev_swab ← bytes_32 prev_bytes
    coinb1_text ← text_at p 2
    coinb1 ← hex_decode coinb1_text
    version_text ← text_at p 5
    version ← from_hex_u32 version_text
    steps_value ← get_elem? p 4
    steps_array ← as_array steps_value
    steps ← parse_steps steps_array
    job_id ← text_at p 0
    coinb2_text ← text_at p 3
    coinb2 ← hex_decode coinb2_text
    bits_text ← text_at p 6
    bits ← from_hex_u32 bits_text
    ntime_text ← text_at p 7
    ntime ← from_hex_u32 ntime_text
    some (record {
      job_id = job_id;
      extranonce1 = extranonce1;
      extranonce2_size = extranonce2_size;
      coinb1 = coinb1;
      coinb2 = coinb2;
      merkle_steps = steps;
      version = version;
      prev_hash = swab32 prev_swab;
      bits = bits;
      ntime = ntime;
      share_target = target_for_difficulty float difficulty;
      height = bip34_height coinb1;
      algo = for_version version;
    })
