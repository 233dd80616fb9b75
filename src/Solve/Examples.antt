-- ===== src/Solve/Examples.antt =====
-- src/solve.rs: the script of one height.
use bc3_online_miner.Common.Results.{ok}
use bc3_online_miner.Consensus.Pow.{PowFn}
use bc3_online_miner.Consensus.Target.{
  hash_meets_target, meets_from, target_for_difficulty, divisor_for, divide, shl, diff1,
  compact_to_target, place, mantissa_of,
}
use bc3_online_miner.Worker.Mine.{Find, is_block, coinbase}
use bc3_online_miner.Worker.Mine.Shares.{IsShare}
use bc3_online_miner.Solve.Dates.{chrono_utc}
use bc3_online_miner.Solve.Dates.Calendar.{IsDate, seconds_of}
use bc3_online_miner.Solve.Dates.Civil.{seconds_of-chrono_utc}
use bc3_online_miner.Solve.Script
use bc3_online_miner.Solve.Template
use bc3_online_miner.Solve.Template.{
  Decoders, JobFile, Template, parse_file, parse_u32, unhex, push_outputs, coinbase_start, job_of,
  assemble,
}
use bc3_online_miner.Solve.Template.Block.{IsParsed, assemble-IsShare}
use bc3_online_miner.Common.{
  ℕ, none, true, naturals, ◌%◌, to_le_bytes, some, ◌∷◌, ◌++◌, replicate, length, ◌≡◌, refl, arith,
  [],
}
use bc3_online_miner.Consensus.Height.{bip34_height}
use bc3_online_miner.Solve.Script.{push_varint, script_num, num_bytes, last_byte, has_top_bit}
use bc3_online_miner.Solve.Script.RoundTrip.{bip34_height-script_num}

bip34_height-script_num_example :
    bip34_height (
      replicate 41 1
      ++ (push_varint 20 ++ (length (script_num 59342) ∷ script_num 59342 ++ (0 ∷ []))))
    ≡ some 59342
bip34_height-script_num_example =
    bip34_height-script_num 59342 20 (replicate 41 1) (0 ∷ []) (omega arith) (omega arith) refl

abbrev zero_hash : PowFn
zero_hash bytes = replicate 32 0

-- Every number of the file is this one, and every hex text 32 sevens.
abbrev decoders : Decoders
decoders = record {
  job_file = λ json. none;
  trim = λ s. s;
  strip_0x = λ s. none;
  from_hex_u32 = λ s. none;
  from_decimal_u32 = λ s. some 0x1d00ffff;
  hex_decode = λ s. some (replicate 32 7);
}

abbrev a_file : JobFile
a_file = record {
  network = none;
  height = 59342;
  n_version = "";
  hash_prev_block = "";
  n_time = 1700000000;
  n_bits = "";
  script_sig_data = "";
  payouts = record { script_pub_key = ""; satoshis = 5000 } ∷ [];
}

abbrev a_template : Template
a_template = record {
  network = none;
  height = 59342;
  version = 0x1d00ffff;
  prev_hash = replicate 32 7;
  time = 1700000000;
  bits = 0x1d00ffff;
  coinb1 =
      coinbase_start 44 ((length (script_num 59342) % 256) ∷ script_num 59342) (replicate 32 7);
  coinb2 =
      (replicate 4 0xff ++ push_varint 1)
      ++ (to_le_bytes 8 5000 ++ (push_varint 32 ++ replicate 32 7))
      ++ to_le_bytes 4 0;
  script_sig_text = replicate 32 7;
  outputs = 1;
  payout_total = 5000;
}

parses : parse_file decoders a_file ≡ ok a_template
unfolding parse_file parse_u32 unhex push_outputs Template.◌>>=◌ compact_to_target place mantissa_of
    Script.bip34_height script_num num_bytes last_byte has_top_bit
parses = refl

abbrev found : Find
found = record {
  hash = replicate 32 0;
  share = record {
    job_id = "solve-1";
    extranonce2 = 1 ∷ 2 ∷ 3 ∷ 4 ∷ [];
    ntime = 1700000000;
    nonce = 7;
    hash_display = "";
    is_block_candidate = is_block (compact_to_target 0x1d00ffff) (replicate 32 0);
  };
}

found_meets : hash_meets_target (replicate 32 0) (target_for_difficulty naturals 1) ≡ true
unfolding hash_meets_target meets_from target_for_difficulty divisor_for divide shl diff1
found_meets = refl

found-IsShare :
    IsShare zero_hash zero_hash (job_of naturals a_template "solve-1" (9 ∷ 9 ∷ 9 ∷ 9 ∷ []) 1) found
unfolding job_of
found-IsShare = record {
  names_job = refl;
  keeps_time = refl;
  rebuilt = refl;
  meets = found_meets;
  candidate = refl;
}

assemble-IsShare_example :
    let job = job_of naturals a_template "solve-1" (9 ∷ 9 ∷ 9 ∷ 9 ∷ []) 1 in
    let (header, block) = assemble zero_hash job found.share in
    let transaction = coinbase job (1 ∷ 2 ∷ 3 ∷ 4 ∷ []) in
    (zero_hash header ≡ replicate 32 0)
    × (hash_meets_target (replicate 32 0) job.share_target ≡ true)
    × (block ≡ header ++ (1 ∷ transaction))
    × (bip34_height transaction ≡ some 59342)
    × IsParsed a_file a_template
assemble-IsShare_example =
    assemble-IsShare zero_hash zero_hash decoders naturals a_file a_template "solve-1"
      (9 ∷ 9 ∷ 9 ∷ 9 ∷ []) 1 found parses (omega arith) found-IsShare

-- "2026-10-12 01:24:02 UTC"
abbrev an_evening : ℕ
an_evening = 1791768242

chrono_utc_test :
    chrono_utc an_evening
    ≡ record { year = 2026; month = 10; day = 12; hour = 1; minute = 24; second = 2 }
unfolding chrono_utc
chrono_utc_test = refl

seconds_of-chrono_utc_example :
    IsDate (chrono_utc an_evening) × (seconds_of (chrono_utc an_evening) ≡ an_evening)
seconds_of-chrono_utc_example = seconds_of-chrono_utc an_evening
