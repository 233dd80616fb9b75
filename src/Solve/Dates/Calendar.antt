-- ===== src/Solve/Dates/Calendar.antt =====
-- The Gregorian calendar, counted from the year 1, and what it has to do with years that begin in
-- March.
use bc3_online_miner.Common.{
  ℕ, lt→ltb, ◌+◌, ◌-◌, ◌*◌, ◌/◌, ◌%◌, ◌≤◌, ◌<◌, ◌≡◌, refl, arith, not, ◌&&◌, ◌||◌, ltb, ◌==◌,
  if◌then◌else◌,
}
use bc3_online_miner.Solve.Dates.{DateTime}

-- 1 in a leap year
unfoldable pub leap_day : ℕ → ℕ
leap_day y = if ((y % 4 == 0) && not (y % 100 == 0)) || (y % 400 == 0) then 1 else 0

-- The days of a common year before its `m`-th month, and before its end for 13.
unfoldable pub before_month : ℕ → ℕ
before_month m =
    if m == 1
    then 0
    else if m == 2
    then 31
    else if m == 3
    then 59
    else if m == 4
    then 90
    else if m == 5
    then 120
    else if m == 6
    then 151
    else if m == 7
    then 181
    else if m == 8
    then 212
    else if m == 9
    then 243
    else if m == 10
    then 273
    else if m == 11
    then 304
    else if m == 12
    then 334
    else 365

unfoldable pub days_before_month : ℕ → ℕ → ℕ
unfolding leap_day before_month
days_before_month y m = before_month m + (if ltb 2 m then leap_day y else 0)

-- The days of the years 1 to y - 1.
unfoldable pub days_before_year : ℕ → ℕ
days_before_year y = 365 * (y - 1) + (y - 1) / 4 - (y - 1) / 100 + (y - 1) / 400

-- The days before 1970.
abbrev pub days_before_1970 : ℕ
days_before_1970 = 719162

-- A date of the calendar and a time of the day.
pub record IsDate (t : DateTime) : Type 0 where
  pub month_in : (1 ≤ t.month) × (t.month ≤ 12)
  pub day_in :
      (1 ≤ t.day)
      × (days_before_month t.year t.month + t.day ≤ days_before_month t.year (t.month + 1))
  pub time_in : (t.hour < 24) × (t.minute < 60) × (t.second < 60)

unfoldable pub day_number : ℕ → ℕ → ℕ → ℕ
unfolding days_before_year days_before_month
day_number y m d = days_before_year y + days_before_month y m + (d - 1)

-- The seconds from the beginning of 1970 on.
unfoldable pub seconds_of : DateTime → ℕ
unfolding day_number
seconds_of t =
    (day_number t.year t.month t.day - days_before_1970) * 86400
    + t.hour * 3600
    + t.minute * 60
    + t.second

pub from_march : (mp : ℕ) → mp ≤ 10 → before_month (mp + 3) ≡ 59 + (153 * mp + 2) / 5
unfolding before_month
from_march mp h = ground arith

pub from_january : (mp : ℕ) → 10 ≤ mp → mp ≤ 11 → before_month (mp - 9) + 306 ≡ (153 * mp + 2) / 5
unfolding before_month
from_january mp l h = ground arith

-- The year that began in March, in days before the next January.
pub march_years :
    (era yoe : ℕ)
    → yoe < 400
    → let y = yoe + era * 400 in
      days_before_year (y + 1) ≡ era * 146097 + (365 * yoe + yoe / 4 - yoe / 100)
unfolding days_before_year
march_years era yoe h = omega arith

pub year_length : (y : ℕ) → 1 ≤ y → days_before_year (y + 1) ≡ days_before_year y + 365 + leap_day y
unfolding days_before_year leap_day
year_length y h = ground arith

pub leap_day_again : (x era : ℕ) → leap_day (x + era * 400) ≡ leap_day x
unfolding leap_day
leap_day_again x era =
    let by_4 : (x + era * 400) % 4 ≡ x % 4 = omega arith in
    let by_100 : (x + era * 400) % 100 ≡ x % 100 = omega arith in
    let by_400 : (x + era * 400) % 400 ≡ x % 400 = omega arith in rw (by_4, by_100, by_400) refl

pub march_length :
    (yoe : ℕ)
    → yoe < 400
    → 365 * (yoe + 1) + (yoe + 1) / 4 - (yoe + 1) / 100 + (yoe + 1) / 400
      ≡ 365 * yoe + yoe / 4 - yoe / 100 + 365 + leap_day (yoe + 1)
unfolding leap_day
march_length yoe h = ground arith

pub after_february : (y m : ℕ) → 2 < m → days_before_month y m ≡ before_month m + leap_day y
unfolding days_before_month
after_february y m h = rw (lt→ltb 2 m h) refl

pub till_february : (y m : ℕ) → m ≤ 2 → days_before_month y m ≡ before_month m
unfolding days_before_month
till_february y m h = ground (arith, h)

pub month_ends : (before_month 1 ≡ 0) × (before_month 2 ≡ 31) × (before_month 3 ≡ 59)
unfolding before_month
month_ends = (refl, refl, refl)

pub leap_day-le : (y : ℕ) → leap_day y ≤ 1
unfolding leap_day
leap_day-le y = ground arith
