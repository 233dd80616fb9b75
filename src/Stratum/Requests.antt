-- ===== src/Stratum/Requests.antt =====
-- src/stratum.rs: `Outstanding`, the requests the pool has not answered yet.
pub mod Timing
use bc3_online_miner.Common.{
  ℕ, ◌-◌, ◌++◌, Option, none, some, List, [], ◌∷◌, ltb, ◌==◌, if◌then◌else◌, ◌>>=◌,
}

abbrev pub outstanding_max_age : ℕ
outstanding_max_age = 120000

-- An id, and when its request was sent; oldest first.
abbrev pub Outstanding : Type 0
Outstanding = List (ℕ × ℕ)

-- `while let Some((_, t)) = self.sent.front()`
unfoldable pub forget_old : ℕ → Outstanding → Outstanding
forget_old now [] = []
forget_old now ((id, t) ∷ rest) =
    if ltb outstanding_max_age (now - t) then forget_old now rest else (id, t) ∷ rest

unfoldable pub sent : ℕ → ℕ → Outstanding → Outstanding
unfolding forget_old
sent id now o = forget_old now o ++ ((id, now) ∷ [])

-- `position` and `remove` of the first request with this id: when it was sent, and the others.
unfoldable pub take_out : ℕ → Outstanding → Option (ℕ × Outstanding)
take_out id [] = none
take_out id ((i, t) ∷ rest) =
    if i == id
    then some (t, rest)
    else (do (t', rest') ← take_out id rest; some (t', (i, t) ∷ rest'))

-- The round trip, if the request is still known, and what is outstanding then.
unfoldable pub answered : ℕ → ℕ → Outstanding → Option ℕ × Outstanding
unfolding take_out
answered id now o = elim (take_out id o) [
  | none ↦ (none, o)
  | some (t, rest) ↦ (some (now - t), rest)
]
