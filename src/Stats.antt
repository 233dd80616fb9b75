-- ===== src/Stats.antt =====
-- src/stats.rs: the shares a minute of the report (`ShareRate`), `format_duration` and what
-- `format_shares` counts. A time is a number of nanoseconds, a difference of times stops at 0 as
-- `duration_since` does, and the texts around the numbers are left out.
pub mod Rates
mod Examples
use bc3_online_miner.Common.{
  ℕ, ◌+◌, ◌-◌, ◌*◌, ◌/◌, ◌%◌, ◌^◌, ◌++◌, Bool, Option, none, some, List, [], ◌∷◌, ltb, leb,
  if◌then◌else◌, Float,
}

-- `SHARE_RATE_WINDOW`
abbrev pub share_rate_window : ℕ
share_rate_window = 60 * 10 ^ 9

-- A report: when it was, and the shares accepted by then.
abbrev pub Sample : Type 0
Sample = ℕ × ℕ

-- `samples`: never empty, the oldest first.
pub record ShareRate : Type 0 where
  pub first : Sample
  pub later : List Sample

unfoldable pub new : ℕ → ℕ → ShareRate
new start accepted = record { first = (start, accepted); later = [] }

-- `while self.samples.len() > 1 && ..  { self.samples.pop_front(); }`
unfoldable pub forget : ℕ → Sample → List Sample → ShareRate
forget now first [] = record { first = first; later = [] }
forget now first (next ∷ later) =
    let shorter = forget now next later in
    if leb share_rate_window (now - next.0)
    then shorter
    else record { first = first; later = next ∷ later }

unfoldable pub push : ℕ → ℕ → ShareRate → ShareRate
unfolding forget
push now accepted r = forget now r.first (r.later ++ ((now, accepted) ∷ []))

module _ (float : Float) where
  open float use {F64, of_nat, add, mul, div, fle}

  -- `as_secs_f64`
  unfoldable pub as_secs_f64 : ℕ → F64
  as_secs_f64 d = add (of_nat (d / 10 ^ 9)) (div (of_nat (d % 10 ^ 9)) (of_nat (10 ^ 9)))

  abbrev rate_since : ℕ → ℕ → Sample → F64
  rate_since now accepted first =
      let span = as_secs_f64 (now - first.0) in
      if fle span (of_nat 0)
      then of_nat 0
      else div (mul (of_nat (accepted - first.1)) (of_nat 60)) span

  unfoldable pub per_minute : ℕ → ℕ → ShareRate → ShareRate × F64
  unfolding push as_secs_f64
  per_minute now accepted r =
      let after = push now accepted r in (after, rate_since now accepted after.first)

-- `format_duration`: its two numbers and their units, of whole seconds.
pub data Shown : Type 0 where
  seconds : ℕ → Shown
  minutes : ℕ → ℕ → Shown
  hours : ℕ → ℕ → Shown
  days : ℕ → ℕ → Shown

unfoldable pub show_duration : ℕ → Shown
show_duration s =
    if ltb s 60
    then seconds s
    else if ltb s 3600
    then minutes (s / 60) (s % 60)
    else if ltb s 86400
    then hours (s / 3600) (s % 3600 / 60)
    else days (s / 86400) (s % 86400 / 3600)

-- The shares that `format_shares` calls rejected.
unfoldable pub other_rejects : ℕ → ℕ → ℕ
other_rejects rejected stale = rejected - stale
