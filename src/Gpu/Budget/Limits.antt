-- ===== src/Gpu/Budget/Limits.antt =====
-- A limit is never 0, and an overflow really makes the launches smaller.
use bc3_online_miner.Common.{ℕ, ◌*◌, ◌≤◌, ◌<◌, Option, none, some, ltb, u32_mod, arith, if_cases}
use bc3_online_miner.Gpu.Budget.{HitBudget, chunk, checked_double, limited}

-- The limit, where there is one, is at least 1.
abbrev pub Floored : Option ℕ → Type 0
Floored none = Unit
Floored (some limit) = 0 < limit

abbrev pub IsBudget : HitBudget → Type 0
IsBudget b = Floored b.limit

limited_pos :
    (limit : Option ℕ) (remaining : ℕ) → Floored limit → 0 < remaining → 0 < limited limit remaining
limited_pos none remaining floored some_left = some_left
limited_pos (some limit) remaining floored some_left = omega arith

limited_le : (limit : Option ℕ) (remaining : ℕ) → limited limit remaining ≤ remaining
limited_le none remaining = omega arith
limited_le (some limit) remaining = omega arith

pub chunk_pos : (b : HitBudget) (remaining : ℕ) → IsBudget b → 0 < remaining → 0 < chunk b remaining
unfolding chunk
chunk_pos b remaining floored some_left = limited_pos b.limit remaining floored some_left

pub chunk_le : (b : HitBudget) (remaining : ℕ) → chunk b remaining ≤ remaining
unfolding chunk
chunk_le b remaining = limited_le b.limit remaining

checked_double-Floored : (limit : ℕ) → 0 < limit → Floored (checked_double limit)
unfolding checked_double
checked_double-Floored limit floored =
    if_cases Floored (ltb (limit * 2) u32_mod) (λ _. omega arith) (λ _. tt)
