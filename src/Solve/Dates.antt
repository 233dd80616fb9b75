-- ===== src/Solve/Dates.antt =====
-- src/solve.rs: `chrono_utc`, the date and time of a number of seconds since 1970. The argument is a
-- `u32`, so no intermediate value of the source's `i64` is negative, and every division is one of
-- natural numbers. The format string pads with zeros; its numbers are modelled.
pub mod Calendar
pub mod Civil
use bc3_online_miner.Common.{ℕ, ◌+◌, ◌-◌, ◌*◌, ◌/◌, ◌%◌, Bool, ltb, leb, if◌then◌else◌}

pub record DateTime : Type 0 where
  pub year : ℕ
  pub month : ℕ
  pub day : ℕ
  pub hour : ℕ
  pub minute : ℕ
  pub second : ℕ

-- `(doe - doe / 1460 + doe / 36_524 - doe / 146_096) / 365`
unfoldable pub year_of_era : ℕ → ℕ
year_of_era doe = (doe - doe / 1460 + doe / 36524 - doe / 146096) / 365

-- `doe - (365 * yoe + yoe / 4 - yoe / 100)`
unfoldable pub day_of_year : ℕ → ℕ → ℕ
day_of_year doe yoe = doe - (365 * yoe + yoe / 4 - yoe / 100)

unfoldable pub month_of : ℕ → ℕ
month_of mp = if ltb mp 10 then mp + 3 else mp - 9

unfoldable pub chrono_utc : ℕ → DateTime
unfolding year_of_era day_of_year month_of
chrono_utc unix =
    let days = unix / 86400 in
    let rem = unix % 86400 in
    let z = days + 719468 in
    let era = z / 146097 in
    let doe = z % 146097 in
    let yoe = year_of_era doe in
    let doy = day_of_year doe yoe in
    let mp = (5 * doy + 2) / 153 in
    let m = month_of mp in
    record {
      year = if leb m 2 then yoe + era * 400 + 1 else yoe + era * 400;
      month = m;
      day = doy - (153 * mp + 2) / 5 + 1;
      hour = rem / 3600;
      minute = rem % 3600 / 60;
      second = rem % 60;
    }
