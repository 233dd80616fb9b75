-- ===== src/Stratum/Report.antt =====
-- src/stratum.rs: `HashrateReport`, the miner's own hashrate for the pool.
pub mod Windows
use bc3_online_miner.Common.{
  ℕ, ◌-◌, ◌*◌, Bool, true, false, not, ◌||◌, Option, none, some, ltb, if◌then◌else◌, Float,
}

abbrev pub hashrate_report_every : ℕ
hashrate_report_every = 60000

pub record HashrateReport : Type 0 where
  -- when the current interval started, and the hash count then
  pub since : Option (ℕ × ℕ)
  pub refused : Bool

unfoldable pub new : HashrateReport
new = record { since = none; refused = false }

unfoldable pub start : ℕ → ℕ → HashrateReport → HashrateReport
start now hashes r = if not r.refused then record r { since = some (now, hashes) } else r

-- The hashes of an interval that is over, and its length; the rate is their quotient (`rate`).
unfoldable pub due_since : Option (ℕ × ℕ) → ℕ → ℕ → HashrateReport → Option (ℕ × ℕ) × HashrateReport
due_since none now hashes r = (none, r)
due_since (some (t0, h0)) now hashes r =
    if ltb (now - t0) hashrate_report_every
    then (none, r)
    else (some (hashes - h0, now - t0), record r { since = some (now, hashes) })

unfoldable pub due : ℕ → ℕ → HashrateReport → Option (ℕ × ℕ) × HashrateReport
unfolding due_since
due now hashes r = due_since r.since now hashes r

-- Hashes per second; the interval is in milliseconds.
module _ (float : Float) where
  open float use {F64, of_nat, div}

  unfoldable pub rate : ℕ × ℕ → F64
  rate (hashes, millis) = div (of_nat hashes) (div (of_nat millis) (of_nat 1000))

-- `failed`: the answer has an error, or its result is `false`.
unfoldable pub answer : Bool → HashrateReport → Bool × HashrateReport
answer failed r =
    if not failed || r.refused then (false, r) else (true, record { since = none; refused = true })
