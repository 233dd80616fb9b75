-- ===== src/Gpu/Examples.antt =====
-- src/gpu_worker.rs: a job on a card that answers every launch, with stand-ins for the hashes.
use Prim.Native.String.{String}
use bc3_online_miner.Common.{
  ℕ, Bool, ◌+◌, ◌≢◌, ◌⊎◌, inr, true, false, none, some, List, [], ◌∷◌, ◌++◌, replicate, ◌≡◌, refl,
  ◌<◌, arith, inl, leb,
}
use bc3_online_miner.Consensus.Pow.{PowFn, bc3_hash}
use bc3_online_miner.Shared.Job.{MinerJob}
use bc3_online_miner.Worker.Extranonce.{encode_extranonce2, en2_fits}
use bc3_online_miner.Worker.Mine.{header_of}
use bc3_online_miner.Worker.Mine.Search.{finds_along}
use bc3_online_miner.Gpu.Devices.{
  GpuDevice, cuda, opencl, pick_opencl_for_cuda, by_rank, by_elimination, rank_from, positions,
}
use bc3_online_miner.Gpu.Devices.Picks.{IsEquivalence, pick_opencl_for_cuda-distinct}
use bc3_online_miner.Gpu.Budget.{no_limit}
use bc3_online_miner.Gpu.Autotune.{
  autotune, first_batch, min_batch, max_batch, bc3_start_batch, bc3_target_launch,
}
use bc3_online_miner.Gpu.Autotune.Waves.{IsWhole, first_batch-autotune-IsWhole}
use bc3_online_miner.Gpu.Run.{Outside, Setup, State, Scan, InFlight, JobEnd, finish}
use bc3_online_miner.Gpu.Run.Loop.{ended, begin, mine_job}
use bc3_online_miner.Gpu.Run.Chain.{IsLaunch}
use bc3_online_miner.Gpu.Run.Resume.{IsFresh, Accounts, mine_job-Accounts}
use bc3_online_miner.Gpu.Run.Returns.{mine_job-Returns}
use bc3_online_miner.Gpu.Run.Honest.{IsComplete, finish_complete}

-- 32 zero bytes, whatever is hashed.
abbrev zero_hash : PowFn
zero_hash bytes = replicate 32 0

abbrev no_hex : List ℕ → String
no_hex bytes = ""

abbrev card_job : MinerJob
card_job = record {
  job_id = "card";
  extranonce1 = 1 ∷ 2 ∷ [];
  extranonce2_size = 1;
  coinb1 = 9 ∷ 9 ∷ [];
  coinb2 = 8 ∷ [];
  merkle_steps = [];
  version = 0x20000800;
  prev_hash = replicate 32 6;
  bits = 0x1d00ffff;
  ntime = 1700000000;
  share_target = replicate 32 255;
  height = none;
  algo = bc3_hash;
}

abbrev setup : Setup
setup = record {
  job = card_job;
  algo = bc3_hash;
  verify = zero_hash;
  stride = 2;
  depth = 2;
  granule = 96;
  window = 0;
}

abbrev one_hit : Scan
one_hit = record { hits = 77 ∷ 77 ∷ 5 ∷ []; reported = 3; busy = some 1000 }

-- A new job at the fourth turn.
abbrev outside : Outside
outside = record {
  has_changed = leb 4;
  enqueue = λ turn launch. true;
  collect = λ turn. some one_hit;
  clock = λ turn. turn;
  project = λ took batch count. took;
}

abbrev idle : State
idle = record {
  cursor = record { en2 = 1; nonce = 0 };
  batch = bc3_start_batch;
  budget = no_limit;
  errors = 0;
  collected = 0;
  last_collect = none;
  said_hashing = false;
  inflight = [];
  ending = none;
  header = none;
  finds = [];
  hashes = 0;
  slot = none;
  tuned = [];
  finished = [];
  turns = 0;
}

idle-IsFresh : IsFresh idle
idle-IsFresh = record {
  within = omega arith;
  no_launches = refl;
  no_finds = refl;
  no_hashes = refl;
}

mine_job-Accounts_example :
    Accounts zero_hash setup
      (begin setup none 1 idle).cursor
      (mine_job zero_hash no_hex outside setup 9 none 1 idle)
mine_job-Accounts_example =
    mine_job-Accounts zero_hash no_hex outside setup 9 none 1 idle idle-IsFresh

after_four : (t : ℕ) → 4 < t + 1 → outside.has_changed t ≡ true
after_four t late = ground arith

mine_job-Returns_example :
    (e : JobEnd) × (s : State) × (mine_job zero_hash no_hex outside setup 9 none 1 idle ≡ ended e s)
mine_job-Returns_example =
    mine_job-Returns zero_hash no_hex outside setup 4 (λ t late. after_four t (omega arith)) 9 none
      1 idle (omega arith) (omega arith)

abbrev launch : InFlight
launch = record {
  en2 = 5;
  extranonce2 = encode_extranonce2 5 1;
  header = header_of zero_hash card_job (encode_extranonce2 5 1) 0;
  start = 77;
  count = 1;
  queued = 0;
}

fits_5 : en2_fits 5 1 ≡ true
unfolding en2_fits
fits_5 = refl

launch-IsLaunch : IsLaunch zero_hash card_job launch
launch-IsLaunch = record {
  encodes = refl;
  heads = refl;
  fits = fits_5;
  some_nonces = omega arith;
  within = omega arith;
}

one_hit-IsComplete : IsComplete zero_hash no_hex zero_hash card_job launch one_hit
one_hit-IsComplete = record {
  words = (omega arith, (omega arith, (omega arith, tt)));
  complete = λ n low high meets. inl (omega arith);
}

finish_complete_example :
    ((finish no_hex outside setup idle launch one_hit).finds
      ≡ [] ++ finds_along zero_hash no_hex zero_hash card_job 2 1 (record { en2 = 5; nonce = 77 }))
    × ((finish no_hex outside setup idle launch one_hit).hashes ≡ 0 + 1)
finish_complete_example =
    finish_complete zero_hash no_hex outside setup idle launch one_hit launch-IsLaunch
      one_hit-IsComplete

first_batch-autotune-IsWhole_example :
    IsWhole 96 (min_batch 96) (max_batch 96) (first_batch 96 bc3_start_batch)
    × ((batch : ℕ)
        → IsWhole 96 (min_batch 96) (max_batch 96) batch
        → IsWhole 96
            (min_batch 96)
            (max_batch 96)
            (autotune batch 1000 bc3_target_launch 96 (min_batch 96) (max_batch 96)))
first_batch-autotune-IsWhole_example =
    first_batch-autotune-IsWhole 96 bc3_start_batch 1000 bc3_target_launch (omega arith)
      (omega arith)

-- A comparison under which all names are alike.
abbrev any_name : String → String → Bool
any_name a b = true

any_name-IsEquivalence : IsEquivalence any_name
any_name-IsEquivalence = record { symmetric = λ a b. refl; transitive = λ a b e c. refl }

abbrev two_cards : List GpuDevice
two_cards = cuda 0 "A" ∷ cuda 2 "A" ∷ []

abbrev two_devices : List GpuDevice
two_devices = opencl 0 0 "A" "N" ∷ opencl 0 1 "A" "N" ∷ []

pick_0 : pick_opencl_for_cuda any_name (λ v. true) two_cards two_devices 0 "A" ≡ some 0
unfolding pick_opencl_for_cuda by_rank rank_from positions
pick_0 = refl

pick_2 : pick_opencl_for_cuda any_name (λ v. true) two_cards two_devices 2 "A" ≡ some 1
unfolding pick_opencl_for_cuda by_rank rank_from positions
pick_2 = refl

pick_opencl_for_cuda-distinct_example : ◌≢◌ {A = ℕ} 0 1
pick_opencl_for_cuda-distinct_example =
    pick_opencl_for_cuda-distinct any_name (λ v. true) any_name-IsEquivalence two_cards two_devices
      0 1 0 2 "A" "A" 0 1 refl refl (λ e. omega arith) pick_0 pick_2

-- With the first of two cards gone from both lists, both workers get the device of the second.
vanished_card :
    (index : ℕ)
    → (index ≡ 0) ⊎ (index ≡ 1)
    → pick_opencl_for_cuda any_name
        (λ v. true)
        (cuda 1 "A" ∷ [])
        (opencl 0 0 "A" "N" ∷ [])
        index
        "A"
      ≡ some 0
unfolding pick_opencl_for_cuda by_rank by_elimination rank_from positions
vanished_card index (inl e) = rw e refl
vanished_card index (inr e) = rw e refl
