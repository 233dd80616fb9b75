-- ===== src/Stratum/Rejects.antt =====
-- src/stratum.rs: `RejectLog` and `is_stale`. A reason is the bytes of its text.
pub mod Account
use bc3_online_miner.Common.{
  ℕ, ◌+◌, ◌-◌, ◌/◌, Option, none, some, Bool, List, [], ◌∷◌, ◌++◌, ltb, ◌==◌, if◌then◌else◌,
}
use bc3_online_miner.Shared.Job.{bytes_eq}

abbrev pub reject_summary_every : ℕ
reject_summary_every = 10000

-- A window: its reason, when it started, and the rejects held back in it.
pub record Window : Type 0 where
  pub reason : List ℕ
  pub since : ℕ
  pub held : ℕ

-- What is printed: a first reject, or how many more there were in how many seconds.
pub data Line : Type 0 where
  rejected : List ℕ → Line
  rejected_more : List ℕ → ℕ → ℕ → Line

-- The open window of the reason counts one more, if there is one.
unfoldable pub count_in : List ℕ → List Window → Option (List Window)
count_in reason [] = none
count_in reason (w ∷ ws) =
    if bytes_eq w.reason reason
    then some (record w { held = w.held + 1 } ∷ ws)
    else (elim (count_in reason ws) [ none ↦ none | some ws' ↦ some (w ∷ ws') ])

unfoldable pub reject : List ℕ → ℕ → List Window → Option Line × List Window
unfolding count_in
reject reason now ws = elim (count_in reason ws) [
  | some ws' ↦ (none, ws')
  | none ↦ (some (rejected reason), ws ++ (record { reason = reason; since = now; held = 0 } ∷ []))
]

-- `retain_mut` over the windows: the lines, and the windows that stay.
unfoldable pub due : ℕ → List Window → List Line × List Window
due now [] = ([], [])
due now (w ∷ ws) =
    let rest = due now ws in
    let window = now - w.since in
    if ltb window reject_summary_every
    then (rest.0, w ∷ rest.1)
    else if w.held == 0
    then rest
    else (
      rejected_more w.reason w.held (window / 1000) ∷ rest.0,
      record w { since = now; held = 0 } ∷ rest.1,
    )
