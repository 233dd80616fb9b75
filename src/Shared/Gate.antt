-- ===== src/Shared/Gate.antt =====
-- src/shared.rs: `AlgoGate`, in front of every worker's hashing loop.
use bc3_online_miner.Common.{Bool, false, Option, none, some, if◌then◌else◌}
use bc3_online_miner.Consensus.Pow.{PowAlgo, algo_eq}

-- `warned`: the PoW the worker last said it cannot hash.
pub record AlgoGate : Type 0 where
  pub warned : Option PowAlgo

abbrev pub open_gate : AlgoGate
open_gate = record { warned = none }

abbrev pub is_algo : Option PowAlgo → PowAlgo → Bool
is_algo none algo = false
is_algo (some a) algo = algo_eq a algo

-- What `check` leaves, returns, and whether it prints the warning; `named`: the worker has a name
-- to say it under.
pub record Checked : Type 0 where
  pub gate : AlgoGate
  pub passed : Option PowAlgo
  pub said : Bool

abbrev refuse : AlgoGate → PowAlgo → Bool → Checked
refuse gate algo named =
    if is_algo gate.warned algo
    then record { gate = gate; passed = none; said = false }
    else record { gate = record { warned = some algo }; passed = none; said = named }

unfoldable pub check : AlgoGate → PowAlgo → Bool → (PowAlgo → Bool) → Checked
check gate algo named supports =
    if supports algo
    then record { gate = open_gate; passed = some algo; said = false }
    else refuse gate algo named
