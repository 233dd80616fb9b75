-- ===== src/Solve/Dates/Civil.antt =====
-- The dates of `chrono_utc` are those of the calendar.
use bc3_online_miner.Common.{
  ℕ, ltb→lt, ltb-false, Bool-cases, inl, inr, if_cases, ap, ◌∙◌, ◌+◌, ◌-◌, ◌*◌, ◌/◌, ◌%◌, true,
  false, ◌≤◌, ◌<◌, ◌≡◌, arith, ltb, leb, if◌then◌else◌,
}
use bc3_online_miner.Solve.Dates.{year_of_era, day_of_year, month_of, chrono_utc}
use bc3_online_miner.Solve.Dates.Calendar.{
  leap_day, before_month, days_before_month, days_before_year, days_before_1970, IsDate, day_number,
  seconds_of, from_march, from_january, year_length, leap_day_again, leap_day-le, after_february,
  till_february, month_ends, march_years, march_length,
}

-- The year of an era that starts in March, and the days of it that have passed.
year_of_era-range :
    (doe : ℕ)
    → doe < 146097
    → let yoe = year_of_era doe in
      (yoe < 400)
      × (365 * yoe + yoe / 4 - yoe / 100 ≤ doe)
      × (doe < 365 * (yoe + 1) + (yoe + 1) / 4 - (yoe + 1) / 100 + (yoe + 1) / 400)
unfolding year_of_era
year_of_era-range doe h = omega arith

-- The months from March on start on the days (153 * mp + 2) / 5.
months :
    (doy : ℕ)
    → doy < 366
    → let mp = (5 * doy + 2) / 153 in
      (mp < 12) × ((153 * mp + 2) / 5 ≤ doy) × (doy < (153 * (mp + 1) + 2) / 5)
months doy h = omega arith

-- A day of a year that begins in March, by the days `q` of the months before its own.
module _ (y mp doy q : ℕ) (starts : q ≤ doy) where
  spring_number :
      1 ≤ y
      → before_month (mp + 3) ≡ 59 + q
      → day_number y (mp + 3) (doy - q + 1) + 306 ≡ days_before_year (y + 1) + doy
  unfolding day_number
  spring_number h e = omega (arith, e, year_length y h, after_february y (mp + 3) (omega arith))

  winter_number :
      mp ≤ 11
      → before_month (mp - 9) + 306 ≡ q
      → day_number (y + 1) (mp - 9) (doy - q + 1) + 306 ≡ days_before_year (y + 1) + doy
  unfolding day_number
  winter_number h e = omega (arith, e, till_february (y + 1) (mp - 9) (omega arith))

  spring_ends :
      before_month (mp + 3) ≡ 59 + q
      → doy + 59 < before_month (mp + 3 + 1)
      → days_before_month y (mp + 3) + (doy - q + 1) ≤ days_before_month y (mp + 3 + 1)
  spring_ends e l = omega (
    arith,
    e,
    after_february y (mp + 3) (omega arith),
    after_february y (mp + 3 + 1) (omega arith),
  )

january_ends : (y d : ℕ) → d ≤ 31 → days_before_month y 1 + d ≤ days_before_month y 2
january_ends y d h =
    omega (arith, month_ends, till_february y 1 (omega arith), till_february y 2 (omega arith))

february_ends : (y d : ℕ) → d ≤ 28 + leap_day y → days_before_month y 2 + d ≤ days_before_month y 3
february_ends y d h =
    omega (arith, month_ends, till_february y 2 (omega arith), after_february y 3 (omega arith))

winter_ends :
    (y mp doy : ℕ)
    → 10 ≤ mp
    → mp ≤ 11
    → doy < (153 * (mp + 1) + 2) / 5
    → doy < 365 + leap_day y
    → days_before_month y (mp - 9) + (doy - (153 * mp + 2) / 5 + 1)
      ≤ days_before_month y (mp - 9 + 1)
winter_ends y mp doy l h e f = elim (Bool-cases (ltb mp 11)) [
  | inl is_january ↦
      let at : mp ≡ 10 = omega (arith, ltb→lt mp 11 is_january) in
      rw at (january_ends y (doy - 306 + 1) (omega (arith, e, at)))
  | inr is_february ↦
      let at : mp ≡ 11 = omega (arith, ltb-false mp 11 is_february) in
      rw at (february_ends y (doy - 337 + 1) (omega (arith, f)))
]

-- A day of the calendar that has `n` days before it.
abbrev IsDay : ℕ → ℕ → ℕ → ℕ → Type 0
IsDay y m d n =
    (1 ≤ m)
    × (m ≤ 12)
    × (days_before_month y m + d ≤ days_before_month y (m + 1))
    × (day_number y m d + 306 ≡ n)

month-IsDay :
    (y mp doy : ℕ)
    → 1 ≤ y
    → mp < 12
    → (153 * mp + 2) / 5 ≤ doy
    → doy < (153 * (mp + 1) + 2) / 5
    → doy < 365 + leap_day (y + 1)
    → let m = month_of mp in
      IsDay
        (if leb m 2 then y + 1 else y)
        m
        (doy - (153 * mp + 2) / 5 + 1)
        (days_before_year (y + 1) + doy)
unfolding month_of
month-IsDay y mp doy h l starts ends fits =
    if_cases
      (λ m.
        IsDay (if leb m 2 then y + 1 else y) m (doy - (153 * mp + 2) / 5 + 1)
          (days_before_year (y + 1) + doy))
      (ltb mp 10)
      (λ spring.
        let small : mp < 10 = ltb→lt mp 10 spring in
        let later : leb (mp + 3) 2 ≡ false = ground arith in
        let first = from_march mp (omega arith) in
        let next : before_month (mp + 3 + 1) ≡ 59 + (153 * (mp + 1) + 2) / 5 =
          ap before_month (omega arith) ∙ from_march (mp + 1) (omega arith) in
        rw later (
          omega arith,
          omega arith,
          spring_ends y mp doy ((153 * mp + 2) / 5) starts first (omega (arith, next, ends)),
          spring_number y mp doy ((153 * mp + 2) / 5) starts h first,
        ))
      (λ winter.
        let large : 10 ≤ mp = ltb-false mp 10 winter in
        let early : leb (mp - 9) 2 ≡ true = ground arith in
        rw early (
          omega arith,
          omega arith,
          winter_ends (y + 1) mp doy large (omega arith) ends fits,
          winter_number y mp doy ((153 * mp + 2) / 5) starts (omega arith)
              (from_january mp large (omega arith)),
        ))

-- The day `doy` of the year `yoe` of an era; both begin in March.
era-IsDay :
    (era yoe doy : ℕ)
    → 1 ≤ era
    → yoe < 400
    → doy < 365 + leap_day (yoe + 1)
    → let y = yoe + era * 400 in
      let mp = (5 * doy + 2) / 153 in
      let m = month_of mp in
      IsDay
        (if leb m 2 then y + 1 else y)
        m
        (doy - (153 * mp + 2) / 5 + 1)
        (era * 146097 + (365 * yoe + yoe / 4 - yoe / 100) + doy)
era-IsDay era yoe doy after_1 in_era fits =
    let y = yoe + era * 400 in
    let mp = (5 * doy + 2) / 153 in
    let m = month_of mp in
    let in_months = months doy (omega (arith, leap_day-le (yoe + 1), fits)) in
    let same : yoe + era * 400 + 1 ≡ yoe + 1 + era * 400 = omega arith in
    let again : leap_day (yoe + era * 400 + 1) ≡ leap_day (yoe + 1) =
      ap leap_day same ∙ leap_day_again (yoe + 1) era in
    let day =
      month-IsDay y mp doy (omega arith) in_months.0 in_months.1 in_months.2
        (omega (arith, again, fits)) in
    (day.0, day.1, day.2, day.3 ∙ ap (λ n. n + doy) (march_years era yoe in_era))

-- The day `doe` of an era.
doe-IsDay :
    (era doe : ℕ)
    → 1 ≤ era
    → doe < 146097
    → let yoe = year_of_era doe in
      let y = yoe + era * 400 in
      let doy = day_of_year doe yoe in
      let mp = (5 * doy + 2) / 153 in
      let m = month_of mp in
      IsDay (if leb m 2 then y + 1 else y) m (doy - (153 * mp + 2) / 5 + 1) (era * 146097 + doe)
unfolding day_of_year
doe-IsDay era doe after_1 in_era =
    let (few, starts, ends) = year_of_era-range doe in_era in
    whole (year_of_era doe) few starts ends
  where
    whole :
        (yoe : ℕ)
        → yoe < 400
        → 365 * yoe + yoe / 4 - yoe / 100 ≤ doe
        → doe < 365 * (yoe + 1) + (yoe + 1) / 4 - (yoe + 1) / 100 + (yoe + 1) / 400
        → let y = yoe + era * 400 in
          let doy = day_of_year doe yoe in
          let mp = (5 * doy + 2) / 153 in
          let m = month_of mp in
          IsDay (if leb m 2 then y + 1 else y) m (doy - (153 * mp + 2) / 5 + 1) (era * 146097 + doe)
    whole yoe few starts ends =
        let doy = day_of_year doe yoe in
        let day =
          era-IsDay era yoe doy after_1 few (omega (arith, march_length yoe few, ends, starts)) in
        (day.0, day.1, day.2, day.3 ∙ omega (arith, starts))

-- The seconds of a day and of a time of the day.
seconds_in :
    (unix days : ℕ)
    → days ≡ unix / 86400
    → let rem = unix % 86400 in
      days * 86400 + rem / 3600 * 3600 + rem % 3600 / 60 * 60 + rem % 60 ≡ unix
seconds_in unix days e = omega arith

offset :
    (n days : ℕ)
    → n + 306 ≡ (days + 719468) / 146097 * 146097 + (days + 719468) % 146097
    → n - days_before_1970 ≡ days
offset n days e = omega (arith, e)

-- For every number of seconds since 1970, `chrono_utc` gives a date of the Gregorian calendar and a
-- time of the day, and the days from 1970 to that date with that time are the seconds it was given.
pub seconds_of-chrono_utc :
    (unix : ℕ) → IsDate (chrono_utc unix) × (seconds_of (chrono_utc unix) ≡ unix)
unfolding chrono_utc seconds_of
seconds_of-chrono_utc unix =
    let z = unix / 86400 + 719468 in
    let rem = unix % 86400 in
    let (first, last, inside, number) =
      doe-IsDay (z / 146097) (z % 146097) (omega arith) (omega arith) in
    (
      record {
        month_in = (first, last);
        day_in = (omega arith, inside);
        time_in = (omega arith, omega arith, omega arith);
      },
      seconds_in unix _ (offset _ (unix / 86400) number),
    )
