-- ===== src/Worker/Examples.antt =====
-- src/worker.rs: the search at one job, with stand-ins for the hash functions.
use Prim.Native.String.{String}
use bc3_online_miner.Common.{
  ℕ, inr, ◌%◌, Bool, true, false, some, List, [], ◌∷◌, replicate, ◌≡◌, ◌≢◌, refl, arith, All,
  u32_mod, leb,
}
use bc3_online_miner.Consensus.Pow.{PowFn, bc3_hash}
use bc3_online_miner.Shared.Job.{MinerJob, same_search_space, bytes_eq, steps_eq}
use bc3_online_miner.Worker.Extranonce.{encode_extranonce2, en2_fits}
use bc3_online_miner.Worker.Extranonce.Encoding.{encode_extranonce2-injective}
use bc3_online_miner.Worker.Mine.{mine_job, exhausted, out_of_fuel, header_of}
use bc3_online_miner.Worker.Mine.Batch.{IsJob, GivesHashes}
use bc3_online_miner.Worker.Mine.Sweep.{Searches}
use bc3_online_miner.Worker.Mine.Refines.{mine_job-Searches, mine_job-ends}
use bc3_online_miner.Worker.Mine.Shares.{IsShare, mine_job-IsShare}
use bc3_online_miner.Worker.Role.{ready, gpu_fallback}
use bc3_online_miner.Worker.Thread.{JobRound, new_thread, run_worker}
use bc3_online_miner.Worker.Thread.Lane.{run_worker-en2}
use bc3_online_miner.Worker.Role.Start.{same_search_space-header_of}

-- 32 zero bytes, whatever is hashed.
abbrev zero_hash : PowFn
zero_hash bytes = replicate 32 0

abbrev no_hex : List ℕ → String
no_hex bytes = ""

abbrev job_named : String → MinerJob
job_named name = record {
  job_id = name;
  extranonce1 = 1 ∷ 2 ∷ 3 ∷ 4 ∷ [];
  extranonce2_size = 1;
  coinb1 = 9 ∷ 9 ∷ [];
  coinb2 = 8 ∷ [];
  merkle_steps = replicate 32 7 ∷ [];
  version = 0x20000800;
  prev_hash = replicate 32 6;
  bits = 0x1d00ffff;
  ntime = 1700000000;
  share_target = replicate 32 255;
  height = some 59342;
  algo = bc3_hash;
}

abbrev a_job : MinerJob
a_job = job_named "a"

a_job-IsJob : IsJob a_job
a_job-IsJob = record {
  version_fits = omega arith;
  prev_hash_fits = refl;
  bits_fits = omega arith;
  ntime_fits = omega arith;
}

zero_hash-GivesHashes : GivesHashes zero_hash
zero_hash-GivesHashes bytes = refl

-- A new job at the third look.
abbrev third_look : ℕ → Bool
third_look checks = leb 3 checks

mine_job-Searches_example :
    let r = mine_job no_hex zero_hash a_job zero_hash third_look 1024 2 u32_mod 130 5 77 0 in
    Searches zero_hash no_hex zero_hash a_job zero_hash-GivesHashes a_job-IsJob third_look 1024 2
      (omega arith)
      (record { en2 = 5; nonce = 77 })
      r
    × (r.outcome ≡ exhausted → en2_fits r.en2 1 ≡ false)
mine_job-Searches_example =
    mine_job-Searches zero_hash no_hex zero_hash a_job zero_hash-GivesHashes a_job-IsJob third_look
      1024 2 (omega arith) u32_mod (omega arith) 130 5 77 0 (omega arith) (omega arith)

-- An extranonce2 of 8 bytes, which the counter never outgrows; the job changes at the third look.
abbrev wide_job : MinerJob
wide_job = record a_job { extranonce2_size = 8 }

wide_job-IsJob : IsJob wide_job
wide_job-IsJob = record {
  version_fits = omega arith;
  prev_hash_fits = refl;
  bits_fits = omega arith;
  ntime_fits = omega arith;
}

mine_job-ends_example :
    (mine_job no_hex zero_hash wide_job zero_hash third_look 1024 2 u32_mod 130 5 77 0).outcome
    ≢ out_of_fuel
mine_job-ends_example =
    mine_job-ends zero_hash no_hex zero_hash wide_job zero_hash-GivesHashes wide_job-IsJob
      third_look 1024 2 (omega arith) u32_mod (omega arith) 130 5 77 0 (omega arith) (omega arith)
      (inr (3, omega arith, refl, omega arith))

mine_job-IsShare_example :
    All
      (IsShare zero_hash zero_hash a_job)
      (mine_job no_hex zero_hash a_job zero_hash third_look 1024 2 u32_mod 130 5 77 0).finds
mine_job-IsShare_example =
    mine_job-IsShare zero_hash no_hex zero_hash a_job zero_hash-GivesHashes a_job-IsJob third_look
      1024 2 u32_mod 130 5 77 0 (omega arith) (omega arith) (omega arith) (omega arith)

same_space : same_search_space a_job (job_named "b") ≡ true
unfolding same_search_space bytes_eq steps_eq
same_space = refl

same_search_space-header_of_example :
    header_of zero_hash a_job (encode_extranonce2 5 1) 77
    ≡ header_of zero_hash (job_named "b") (encode_extranonce2 5 1) 77
same_search_space-header_of_example =
    same_search_space-header_of zero_hash a_job (job_named "b") same_space 5 77

fits_200 : en2_fits 200 1 ≡ true
unfolding en2_fits
fits_200 = refl

encode_extranonce2-injective_example : ◌≡◌ {A = ℕ} 200 200
encode_extranonce2-injective_example =
    encode_extranonce2-injective 200 200 1 (omega arith) (omega arith) fits_200 fits_200 refl

abbrev job_round : ℕ → JobRound
job_round generation = record {
  generation = generation;
  job = a_job;
  gpus_mine = false;
  status = ready;
  changed = third_look;
}

run_worker-en2_example :
    ◌≡◌ {A = ℕ}
      ((run_worker zero_hash no_hex
          (some zero_hash)
          gpu_fallback
          1
          2
          1024
          u32_mod
          130
          (new_thread 1)
          (job_round 4 ∷ job_round 6 ∷ [])).en2
        % 2)
      1
run_worker-en2_example =
    run_worker-en2 zero_hash no_hex (some zero_hash) gpu_fallback 1 2 1024 u32_mod 130
      (job_round 4 ∷ job_round 6 ∷ []) (omega arith)
      ((omega arith, omega arith), ((omega arith, omega arith), tt))
