-- ===== src/Shared/Best.antt =====
-- src/shared.rs: the best share of the current PoW - `BestShare`, `PowState`, `record_share` and
-- the part of `note_pow` that changes it, each under one lock; and `submit`. A time is a number.
pub mod Maximum
use bc3_online_miner.Common.{
  ℕ, ◌+◌, ◌%◌, Bool, true, false, not, Option, none, some, List, [], ◌∷◌, ◌++◌, length, ltb, ◌==◌,
  if◌then◌else◌, Float, u64_mod,
}
use bc3_online_miner.Consensus.Pow.{PowAlgo, algo_eq}
use bc3_online_miner.Consensus.Difficulty.{difficulty_of_bits}

module _ (float : Float) where
  open float use {F64, of_nat, flt}

  pub record BestShare : Type 0 where
    pub difficulty : F64
    pub network_difficulty : F64
    pub found : ℕ

  -- `PowState`, and the counter of blocks.
  pub record PowState : Type 0 where
    pub algo : Option PowAlgo
    pub best : Option BestShare
    pub blocks : ℕ

  abbrev pub no_pow : PowState
  no_pow = record { algo = none; best = none; blocks = 0 }

  -- A share counts while no PoW is known, or if it is of the current one.
  abbrev pub is_current : Option PowAlgo → PowAlgo → Bool
  is_current none algo = true
  is_current (some current) algo = algo_eq current algo

  abbrev pub best_difficulty : Option BestShare → F64
  best_difficulty none = of_nat 0
  best_difficulty (some b) = b.difficulty

  abbrev pub take_share : PowState → F64 → ℕ → Bool → ℕ → PowState
  take_share s difficulty bits is_block now = record {
    algo = s.algo;
    best =
        if flt (best_difficulty s.best) difficulty
        then some (record {
          difficulty = difficulty;
          network_difficulty = difficulty_of_bits float bits;
          found = now;
        })
        else s.best;
    blocks = if is_block then (s.blocks + 1) % u64_mod else s.blocks;
  }

  unfoldable pub record_share : PowAlgo → F64 → ℕ → Bool → ℕ → PowState → PowState
  record_share algo difficulty bits is_block now s =
      if is_current s.algo algo then take_share s difficulty bits is_block now else s

  abbrev pub noted : Option PowAlgo → PowAlgo → PowState → PowState
  noted none algo s = record { algo = some algo; best = s.best; blocks = s.blocks }
  noted (some current) algo s =
      if algo_eq current algo
      then s
      else record { algo = some algo; best = none; blocks = s.blocks }

  unfoldable pub note_pow : PowAlgo → PowState → PowState
  note_pow algo s = noted s.algo algo s

  -- What the threads do to it, one after another.
  pub data PowTurn : Type 0 where
    job_of_pow : PowAlgo → PowTurn
    share_found :
        (algo : PowAlgo) (difficulty : F64) (bits : ℕ) (is_block : Bool) (now : ℕ) → PowTurn

  abbrev pub pow_turn : PowTurn → PowState → PowState
  pow_turn (job_of_pow algo) s = note_pow algo s
  pow_turn (share_found algo difficulty bits is_block now) s =
      record_share algo difficulty bits is_block now s

  -- The state after the turns of a list, the latest of them first.
  unfoldable pub pow_after : List PowTurn → PowState
  unfolding record_share note_pow
  pow_after [] = no_pow
  pow_after (turn ∷ before) = pow_turn turn (pow_after before)

-- `submit`: the queue of the shares for the client, which holds `capacity`, and the count of those
-- dropped; whether the warning is printed.
unfoldable pub submit {ℓ} : {A : Type ℓ} → ℕ → A → List A × ℕ → List A × ℕ × Bool
submit capacity share (queue, dropped) =
    if ltb (length queue) capacity
    then (queue ++ (share ∷ []), dropped, false)
    else (queue, (dropped + 1) % u64_mod, dropped == 0)
