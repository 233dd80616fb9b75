-- ===== src/Tuning/Examples.antt =====
-- src/tuning.rs: the tuning of a card with 12 GiB free.
use bc3_online_miner.Common.{
  ℕ, ◌*◌, ◌^◌, ◌≤◌, ◌<◌, false, none, some, List, [], ◌∷◌, ◌≡◌, refl, arith, naturals, ◌⊎◌, inr,
  All,
}
use bc3_online_miner.Tuning.Layout.{Row, rows, largest_fitting, table_bytes}
use bc3_online_miner.Tuning.Layout.Cover.{Cut, rows-Cut, HasRoom}
use bc3_online_miner.Tuning.Tuner.{
  Tuner, Event, launch, target_ready, switch_over, warm_up, build, start, actions,
}
use bc3_online_miner.Tuning.Tuner.Windows.{actions-start, ActionSuits}
use bc3_online_miner.Tuning.Tuner.Progress.{effective-bounded, effective, left}

abbrev free_12_gib : ℕ
free_12_gib = 12 * 2 ^ 30

rows-Cut_example :
    ((rows 22 ≡ none) × ((22 < 2) ⊎ (◌≡◌ {A = ℕ} 22 21) ⊎ (◌≡◌ {A = ℕ} 22 23) ⊎ (24 < 22)))
    ⊎ ((rs : List Row) × (rows 22 ≡ some rs) × Cut 0 rs)
rows-Cut_example = rows-Cut 22

abbrev first_tuner : Tuner naturals
first_tuner = record { target = 22; fallback = 20 ∷ 19 ∷ 18 ∷ []; ready = false; phase = warm_up 0 }

starts : start naturals (largest_fitting free_12_gib) none ≡ some (first_tuner, build 22)
unfolding start largest_fitting
starts = refl

-- Ready, warmed up, measured; the switch to 22 fails.
abbrev failing : List Event
failing =
    target_ready
    ∷ launch 16 1000 (90 * 10 ^ 9)
    ∷ launch 16 1000 (60 * 10 ^ 9)
    ∷ switch_over 22 false
    ∷ []

fits_22 : HasRoom free_12_gib 22
unfolding table_bytes
fits_22 = omega arith

actions-start_example :
    ActionSuits naturals free_12_gib (build 22)
    × All (ActionSuits naturals free_12_gib) (actions naturals first_tuner failing)
actions-start_example =
    actions-start naturals free_12_gib none first_tuner (build 22) failing starts
      (tt, (tt, (tt, (inr fits_22, tt))))

effective-bounded_example : effective naturals first_tuner failing ≤ left naturals first_tuner
effective-bounded_example = effective-bounded naturals first_tuner failing
