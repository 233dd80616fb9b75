-- ===== src/Gpu/Budget.antt =====
-- src/backend/mod.rs: `HitBudget`, which keeps a launch inside the kernel's hit buffer.
pub mod Limits
use bc3_online_miner.Common.{
  ℕ, ◌+◌, ◌*◌, ◌/◌, min, max, Bool, true, false, Option, none, some, ltb, leb, if◌then◌else◌, not,
  u32_mod,
}

abbrev pub max_hits : ℕ
max_hits = 64

abbrev pub recover_after : ℕ
recover_after = 64

pub record HitBudget : Type 0 where
  -- none until an overflow has been seen
  pub limit : Option ℕ
  pub logged : Bool
  pub clean_runs : ℕ

abbrev pub no_limit : HitBudget
no_limit = record { limit = none; logged = false; clean_runs = 0 }

abbrev limited : Option ℕ → ℕ → ℕ
limited none remaining = remaining
limited (some limit) remaining = min limit remaining

unfoldable pub chunk : HitBudget → ℕ → ℕ
chunk b remaining = limited b.limit remaining

-- `limit.checked_mul(2)`
unfoldable pub checked_double : ℕ → Option ℕ
checked_double limit = if ltb (limit * 2) u32_mod then some (limit * 2) else none

-- What a launch that fitted does to a limit.
abbrev clean : HitBudget → Option ℕ → ℕ → HitBudget
clean b none reported = b
clean b (some limit) reported =
    if leb (reported * 4) max_hits
    then (if leb recover_after (b.clean_runs + 1)
        then record b { limit = checked_double limit; clean_runs = 0 }
        else record b { clean_runs = b.clean_runs + 1 })
    else record b { clean_runs = 0 }

-- The new budget, and whether the warning is returned.
unfoldable pub overflowed : HitBudget → ℕ → ℕ → HitBudget × Bool
unfolding chunk checked_double
overflowed b size reported = if leb reported max_hits then (clean b b.limit reported, false) else (
  record { limit = some (max ((chunk b size + 1) / 2) 1); logged = true; clean_runs = 0 },
  not b.logged,
)
