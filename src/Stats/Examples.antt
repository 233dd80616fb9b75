-- ===== src/Stats/Examples.antt =====
-- src/stats.rs: reports half a minute apart, and durations.
use bc3_online_miner.Common.{ℕ, ◌*◌, ◌^◌, List, [], ◌∷◌, ◌≡◌, refl, arith, naturals}
use bc3_online_miner.Stats.{Sample, new, push, per_minute, show_duration, hours}
use bc3_online_miner.Stats.Rates.{CountsFrom, push-CountsFrom}

abbrev second : ℕ → ℕ
second n = n * 10 ^ 9

abbrev some_reports : List Sample
some_reports = (second 30, 10) ∷ (second 60, 20) ∷ (second 90, 40) ∷ []

push-CountsFrom_example : CountsFrom (0, 4) (new 0 4) [] some_reports
push-CountsFrom_example =
    push-CountsFrom 0 4 some_reports (omega arith, (omega arith, (omega arith, tt)))

-- 40 - 10 shares in a minute
third_rate :
    (per_minute naturals (second 90) 40 (push (second 60) 20 (push (second 30) 10 (new 0 4)))).1
    ≡ 30
unfolding per_minute push new
third_rate = refl

an_hour : show_duration 3700 ≡ hours 1 1
unfolding show_duration
an_hour = refl
