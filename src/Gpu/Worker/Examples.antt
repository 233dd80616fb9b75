-- ===== src/Gpu/Worker/Examples.antt =====
-- src/gpu_worker.rs: a card with room for window 20 in the place of a device.
use bc3_online_miner.Common.{
  ℕ, ◌+◌, Bool, true, false, Option, none, some, List, [], ◌∷◌, ◌^◌, ◌*◌, ◌≡◌, refl, arith, leb,
  if_cases, if◌then◌else◌, replicate, naturals,
}
use bc3_online_miner.Consensus.Pow.{bc3_hash, algo_eq}
use bc3_online_miner.Shared.Claims.{Gpus}
use bc3_online_miner.Gpu.Run.{JobEnd, changed, device_gone}
use bc3_online_miner.Gpu.Tune.{
  Card, Report, launch, switch_made, begin, new_tune, want, reports, tune_launched, tune_switched,
}
use bc3_online_miner.Tuning.Tuner.{start, get_ready, switched}
use bc3_online_miner.Tuning.Layout.{largest_fitting}
use bc3_online_miner.Gpu.Tune.Settled.{AgreesAlong, reports-AgreesAlong}
use bc3_online_miner.Gpu.Tune.Suits.{SuitsAlong, room, reports-SuitsAlong}
use bc3_online_miner.Gpu.Worker.{
  Backend, PreparesWindow, State, Mining, Round, make_ready, switch_all, run_gpu_worker, opened,
  Next, goes, stops,
}
use bc3_online_miner.Gpu.Worker.Slot.{IsSound, Ready, SlotSays, make_ready-Ready}
use bc3_online_miner.Gpu.Worker.Exits.{NextSound, run_gpu_worker-Sound}
use bc3_online_miner.Gpu.Worker.Reopens.{Counts, gone, run_gpu_worker-Counts}
use bc3_online_miner.Gpu.Worker.Switches.{switch_all-ends}

-- A device is the window of its kernel.
abbrev card_of_8_gib : Backend
card_of_8_gib = record {
  Device = Option ℕ;
  has_kernel = λ d a. algo_eq a bc3_hash;
  supports = λ d a. elim d [ none ↦ false | some w ↦ algo_eq a bc3_hash ];
  bc3hash_window = λ d. d;
  memory = λ d. some (8 * 2 ^ 30, 8 * 2 ^ 30);
  compiles_ahead = λ d. true;
  prepare = λ window d. if leb window 20 then (some window, true) else (none, false);
}

prepares : PreparesWindow card_of_8_gib
prepares window d =
    if_cases (λ (r : Option ℕ × Bool). r.1 ≡ true → r.0 ≡ some window) (leb window 20) (λ e h. refl)
      (λ e h. cc)

abbrev slots : Gpus
slots = record {
  capable = λ a. 0;
  slots = record { claims = λ a. false; claimed_at = 0; stalled = 0; stamp = 0 } ∷ [];
}

abbrev worker : State naturals card_of_8_gib 0
worker = opened naturals card_of_8_gib 0 16 (λ a. true) 7 slots none

abbrev mining : JobEnd → ℕ → List (Report naturals) → Mining naturals card_of_8_gib 0
mining end collected told = record {
  end = end;
  collected = collected;
  device_after = λ d. d;
  told = told;
}

abbrev round_of : Mining naturals card_of_8_gib 0 → Round naturals card_of_8_gib 0
round_of m = record {
  algo = bc3_hash;
  generation = 3;
  has_hash_fn = λ a. true;
  cpu_may = λ a. true;
  cpu_ready = true;
  by_hand = none;
  recalled = some (record { window = 20; start_rate = 5; tried = 20; tried_rate = 6 });
  now = 9;
  mining = m;
  reopened = some none;
}

-- The remembered window 20 is ready, and the card has switched to it.
abbrev recalling : List (Round naturals card_of_8_gib 0)
recalling =
    round_of (mining changed 1 (launch 16 100 (10 ^ 9) false ∷ []))
    ∷ round_of (mining changed 4 [])
    ∷ []

abbrev dying : List (Round naturals card_of_8_gib 0)
dying = replicate 6 (round_of (mining device_gone 0 []))

abbrev shows : Next naturals card_of_8_gib 0 → Option ℕ
shows (goes did s) = some s.slot_bc3
shows (stops did reason caps) = none

recalled_window : shows (run_gpu_worker naturals card_of_8_gib 0 worker recalling) ≡ some 20
unfolding run_gpu_worker algo_eq want reports tune_launched begin start largest_fitting get_ready
    tune_switched switched
recalled_window = refl

given_up : shows (run_gpu_worker naturals card_of_8_gib 0 worker dying) ≡ none
unfolding run_gpu_worker algo_eq want reports begin start largest_fitting
given_up = refl

abbrev card : Card naturals
card = record {
  bc3hash_window = some 16;
  memory = some (8 * 2 ^ 30, 8 * 2 ^ 30);
  compiles_ahead = true;
  recalled = none;
}

abbrev told : List (Report naturals)
told =
    launch 16 100 (95 * 10 ^ 9) false ∷ launch 16 100 (65 * 10 ^ 9) false ∷ switch_made false ∷ []

reports-AgreesAlong_example :
    AgreesAlong naturals (begin naturals none card (new_tune naturals 16)).0 told
reports-AgreesAlong_example = reports-AgreesAlong naturals none card told

reports-SuitsAlong_example :
    SuitsAlong naturals
      (room (some (8 * 2 ^ 30, 8 * 2 ^ 30)))
      (begin naturals none card (new_tune naturals 16)).0
      told
reports-SuitsAlong_example = reports-SuitsAlong naturals card none told

abbrev first_round : Round naturals card_of_8_gib 0
first_round = round_of (mining changed 1 [])

make_ready-Ready_example :
    let s' = make_ready naturals card_of_8_gib 0 first_round worker in
    IsSound naturals card_of_8_gib 0 s'
    × Ready naturals card_of_8_gib 0 s' (want naturals s'.tune none)
make_ready-Ready_example =
    make_ready-Ready naturals card_of_8_gib 0 prepares first_round worker
      (SlotSays.nothing refl, tt)

run_gpu_worker-Sound_example :
    NextSound naturals card_of_8_gib 0 (run_gpu_worker naturals card_of_8_gib 0 worker recalling)
run_gpu_worker-Sound_example =
    run_gpu_worker-Sound naturals card_of_8_gib 0 recalling 16 7 (λ a. true) slots none prepares
      ((λ d. refl), ((λ d. refl), tt))

run_gpu_worker-Counts_example :
    Counts naturals card_of_8_gib 0
      (gone naturals card_of_8_gib 0 worker dying + 0)
      (run_gpu_worker naturals card_of_8_gib 0 worker dying)
run_gpu_worker-Counts_example =
    run_gpu_worker-Counts naturals card_of_8_gib 0 dying worker
      (refl, (refl, (refl, (refl, (refl, (refl, tt)))))) (omega arith)

switch_all-ends_example : (switch_all naturals card_of_8_gib 0 1 worker).tune.switch_to ≡ none
switch_all-ends_example = switch_all-ends naturals card_of_8_gib 0 worker
