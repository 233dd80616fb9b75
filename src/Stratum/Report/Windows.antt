-- ===== src/Stratum/Report/Windows.antt =====
-- The reports of a session cover its hashes once, a minute at least each.
use bc3_online_miner.Common.{
  ℕ, ◌+◌, ◌≤◌, ◌≡◌, arith, Option, none, some, List, [], ◌∷◌, All, true, false,
}
use bc3_online_miner.Stratum.Report.{HashrateReport, start, due, answer, hashrate_report_every}

-- The reports given at a row of times, with the hash count at each.
unfoldable pub reports : List (ℕ × ℕ) → HashrateReport → List (ℕ × ℕ) × HashrateReport
reports [] r = ([], r)
reports ((now, hashes) ∷ rest) r =
    let (report, r') = due now hashes r in
    let later = reports rest r' in (elim report [ none ↦ later.0 | some x ↦ x ∷ later.0 ], later.1)

abbrev pub total : List (ℕ × ℕ) → ℕ
total [] = 0
total ((hashes, dt) ∷ rest) = hashes + total rest

-- The counter only grows.
abbrev pub Grows : ℕ → List (ℕ × ℕ) → Type 0
Grows h [] = Unit
Grows h ((now, hashes) ∷ rest) = (h ≤ hashes) × Grows hashes rest

abbrev pub count_of : Option (ℕ × ℕ) → ℕ
count_of none = 0
count_of (some (t, h)) = h

Grows-mono : (a b : ℕ) (ticks : List (ℕ × ℕ)) → a ≤ b → Grows b ticks → Grows a ticks
Grows-mono a b [] h g = tt
Grows-mono a b ((now, hashes) ∷ rest) h g = (omega (arith, g.0), g.1)

-- A session under way, its counter read at a row of times: the reported hashes are together those
-- between the start and the start of the interval still open, so none is reported twice or lost,
-- and every reported interval lasts at least a minute.
pub reports-cover :
    (ticks : List (ℕ × ℕ)) (t h : ℕ)
    → Grows h ticks
    → let r = reports ticks (record { since = some (t, h); refused = false }) in
      (total r.0 + h ≡ count_of r.1.since) × All (λ x. hashrate_report_every ≤ x.1) r.0
unfolding reports due
reports-cover [] t h g = (omega arith, tt)
reports-cover ((now, hashes) ∷ rest) t h g = ground (
  arith,
  reports-cover rest t h (Grows-mono h hashes rest g.0 g.1),
  reports-cover rest now hashes g.1,
)

-- Where no report has been refused before, a refusal is said once and ends the reports for the
-- rest of the session, also after another authorization.
pub refused_stays :
    (r : HashrateReport) (now hashes later count : ℕ)
    → r.refused ≡ false
    → ((answer true r).0 ≡ true)
      × ((answer true (answer true r).1).0 ≡ false)
      × ((due later count (start now hashes (answer true r).1)).0 ≡ none)
unfolding answer start due
refused_stays r now hashes later count h = ground arith
