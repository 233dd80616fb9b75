-- ===== src/Solve/Template.antt =====
-- src/solve.rs: `Template` and `assemble`. The JSON decoder and the number and hex parsers of text
-- are parameters.
pub mod Block
use Prim.Native.String.{String}
use bc3_online_miner.Common.{
  ℕ, ◌+◌, ◌*◌, ◌%◌, Bool, true, false, ◌&&◌, not, Option, none, some, List, [], ◌∷◌, ◌++◌, ◌==◌,
  leb, ltb, length, replicate, reverse, if◌then◌else◌, to_le_bytes, u64_mod, Float,
}
use bc3_online_miner.Common.Results.{Result, ok, err}
use bc3_online_miner.Consensus.Pow.{PowAlgo, for_version}
use bc3_online_miner.Consensus.Header.{serialize}
use bc3_online_miner.Consensus.Merkle.{sha256d}
use bc3_online_miner.Consensus.Target.{compact_to_target, target_for_difficulty}
use bc3_online_miner.Shared.Job.{MinerJob, FoundShare}
use bc3_online_miner.Solve.Script.{
  ParseError, not_job_file, not_number, not_hex, bad_bits, not_32_bytes, script_length, no_payouts,
  total_overflows, push_varint, bip34_height,
}

-- Bytes of the extranonces in the scriptSig, and the limits of its length.
abbrev pub extranonce1_bytes : ℕ
extranonce1_bytes = 4

abbrev pub extranonce2_bytes : ℕ
extranonce2_bytes = 4

abbrev pub min_script_sig : ℕ
min_script_sig = 2

abbrev pub max_script_sig : ℕ
max_script_sig = 100

pub record Payout : Type 0 where
  pub script_pub_key : String
  pub satoshis : ℕ

pub record JobFile : Type 0 where
  pub network : Option String
  pub height : ℕ
  pub n_version : String
  pub hash_prev_block : String
  pub n_time : ℕ
  pub n_bits : String
  pub script_sig_data : String
  pub payouts : List Payout

-- The text of the scriptSig stays bytes here.
pub record Template : Type 0 where
  pub network : Option String
  pub height : ℕ
  pub version : ℕ
  pub prev_hash : List ℕ
  pub time : ℕ
  pub bits : ℕ
  pub coinb1 : List ℕ
  pub coinb2 : List ℕ
  pub script_sig_text : List ℕ
  pub outputs : ℕ
  pub payout_total : ℕ

-- What the source takes from `serde_json`, `hex` and the standard library.
pub record Decoders : Type 0 where
  pub job_file : String → Option JobFile
  pub trim : String → String
  -- `strip_prefix("0x").or_else(|| strip_prefix("0X"))`
  pub strip_0x : String → Option String
  pub from_hex_u32 : String → Option ℕ
  pub from_decimal_u32 : String → Option ℕ
  pub hex_decode : String → Option (List ℕ)

infixl 5 ◌>>=◌
-- `?` on a result.
unfoldable pub ◌>>=◌ :
    {A B : Type 0} → Result ParseError A → (A → Result ParseError B) → Result ParseError B
err e >>= f = err e
ok a >>= f = f a

-- `ok_or` and `map_err`
abbrev pub or_error : {A : Type 0} → ParseError → Option A → Result ParseError A
or_error e none = err e
or_error e (some a) = ok a

-- Goes on if the test holds.
abbrev pub check : Bool → ParseError → Result ParseError Unit
check true e = ok tt
check false e = err e

-- `compact_to_target(bits).is_none()` is an error.
abbrev pub valid_bits : Option (List ℕ) → Result ParseError Unit
valid_bits none = err bad_bits
valid_bits (some target) = ok tt

abbrev is_empty : {A : Type 0} → List A → Bool
is_empty [] = true
is_empty (x ∷ xs) = false

-- The coinbase up to the extranonce.
unfoldable pub coinbase_start : ℕ → List ℕ → List ℕ → List ℕ
coinbase_start script_sig_len height text =
    to_le_bytes 4 2
    ++ (1 ∷ [])
    ++ replicate 32 0
    ++ replicate 4 0xff
    ++ push_varint script_sig_len
    ++ height
    ++ text

module _ (decoders : Decoders) where
  open decoders use {job_file, trim, strip_0x, from_hex_u32, from_decimal_u32, hex_decode}

  abbrev number_of : Option String → String → Option ℕ
  number_of (some digits) text = from_hex_u32 digits
  number_of none text = from_decimal_u32 text

  unfoldable pub parse_u32 : String → Result ParseError ℕ
  parse_u32 s = or_error not_number (number_of (strip_0x (trim s)) (trim s))

  unfoldable pub unhex : String → Result ParseError (List ℕ)
  unhex s = or_error not_hex (hex_decode (trim s))

  -- The outputs, one after another, and the sum of what they pay.
  unfoldable pub push_outputs : List Payout → List ℕ → ℕ → Result ParseError (List ℕ × ℕ)
  unfolding unhex
  push_outputs [] out total = ok (out, total)
  push_outputs (p ∷ ps) out total = do
    script ← unhex p.script_pub_key
    _ ← check (ltb (total + p.satoshis) u64_mod) total_overflows
    push_outputs ps (out ++ (to_le_bytes 8 p.satoshis ++ (push_varint (length script) ++ script)))
        (total + p.satoshis)

  -- `Template::parse`, behind the JSON decoder.
  unfoldable pub parse_file : JobFile → Result ParseError Template
  unfolding parse_u32 unhex push_outputs coinbase_start
  parse_file f = do
    version ← parse_u32 f.n_version
    bits ← parse_u32 f.n_bits
    _ ← valid_bits (compact_to_target bits)
    prev ← unhex f.hash_prev_block
    _ ← check (length prev == 32) not_32_bytes
    text ← unhex f.script_sig_data
    height ← bip34_height f.height
    let script_sig_len = length height + length text + extranonce1_bytes + extranonce2_bytes
    _ ← check (leb min_script_sig script_sig_len && leb script_sig_len max_script_sig) script_length
    _ ← check (not (is_empty f.payouts)) no_payouts
    (outputs, total) ← push_outputs f.payouts (replicate 4 0xff ++ push_varint (length f.payouts)) 0
    ok (record {
      network = f.network;
      height = f.height;
      version = version;
      prev_hash = reverse prev;
      time = f.n_time;
      bits = bits;
      coinb1 = coinbase_start script_sig_len height text;
      coinb2 = outputs ++ to_le_bytes 4 0;
      script_sig_text = text;
      outputs = length f.payouts;
      payout_total = total;
    })

  unfoldable pub parse : String → Result ParseError Template
  unfolding parse_file
  parse json = do f ← or_error not_job_file (job_file json); parse_file f

unfoldable pub algo : Template → PowAlgo
algo t = for_version t.version

-- The job of a template; its id is numbered by the caller.
module _ (float : Float) where
  unfoldable pub job_of : Template → String → List ℕ → float.F64 → MinerJob
  unfolding algo
  job_of t job_id extranonce1 difficulty = record {
    job_id = job_id;
    extranonce1 = extranonce1;
    extranonce2_size = extranonce2_bytes;
    coinb1 = t.coinb1;
    coinb2 = t.coinb2;
    merkle_steps = [];
    version = t.version;
    prev_hash = t.prev_hash;
    bits = t.bits;
    ntime = t.time;
    share_target = target_for_difficulty float difficulty;
    height = some t.height;
    algo = algo t;
  }

-- The header of a share, and the block of it.
unfoldable pub assemble : (List ℕ → List ℕ) → MinerJob → FoundShare → List ℕ × List ℕ
assemble sha256 job share =
    let coinbase = job.coinb1 ++ (job.extranonce1 ++ (share.extranonce2 ++ job.coinb2)) in
    let header = serialize (record {
      version = job.version;
      prev_hash = job.prev_hash;
      merkle_root = sha256d sha256 coinbase;
      time = share.ntime;
      bits = job.bits;
      nonce = share.nonce;
    }) in
    (header, header ++ (push_varint 1 ++ coinbase))
