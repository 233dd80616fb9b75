-- ===== src/Stratum/Requests/Timing.antt =====
-- An answer is timed against the request it answers, once.
use bc3_online_miner.Common.{
  ℕ, ◌+◌, ◌-◌, ◌≤◌, ◌≡◌, ◌≢◌, refl, arith, none, some, [], ◌∷◌, ◌++◌, All, All-append,
}
use bc3_online_miner.Stratum.Requests.{
  Outstanding, outstanding_max_age, forget_old, sent, take_out, answered,
}

-- No request has this id.
abbrev pub IsFresh : ℕ → Outstanding → Type 0
IsFresh id = All λ r. r.0 ≢ id

-- Sent in this order.
abbrev pub IsOrdered : ℕ → Outstanding → Type 0
IsOrdered since [] = Unit
IsOrdered since ((i, t) ∷ rest) = (since ≤ t) × IsOrdered t rest

forget_old-IsFresh : (id now : ℕ) (o : Outstanding) → IsFresh id o → IsFresh id (forget_old now o)
unfolding forget_old
forget_old-IsFresh id now [] f = tt
forget_old-IsFresh id now ((i, t) ∷ o) f = ground (arith, forget_old-IsFresh id now o f.1)

take_out-fresh : (id : ℕ) (o : Outstanding) → IsFresh id o → take_out id o ≡ none
unfolding take_out
take_out-fresh id [] f = refl
take_out-fresh id ((i, t) ∷ o) f = ground (arith, take_out-fresh id o f.1)

take_out-append :
    (id t : ℕ) (o : Outstanding) → IsFresh id o → take_out id (o ++ ((id, t) ∷ [])) ≡ some (t, o)
unfolding take_out
take_out-append id t [] f = ground arith
take_out-append id t ((i, s) ∷ o) f = ground (arith, take_out-append id t o f.1)

-- A request under a fresh id is timed from the moment it was sent, and only once: a second answer
-- to it finds nothing. The others stay as they were, less those forgotten when it was sent.
pub answered-sent :
    (id at now later : ℕ) (o : Outstanding)
    → IsFresh id o
    → (answered id now (sent id at o) ≡ (some (now - at), forget_old at o))
      × (answered id later (forget_old at o) ≡ (none, forget_old at o))
unfolding answered sent
answered-sent id at now later o f =
    let fresh = forget_old-IsFresh id at o f in
    (
      rw (take_out-append id at (forget_old at o) fresh, answered),
      rw (take_out-fresh id (forget_old at o) fresh, answered),
    )

-- Everything still known was sent within the last two minutes.
abbrev pub IsRecent : ℕ → Outstanding → Type 0
IsRecent now = All λ r. now ≤ r.1 + outstanding_max_age

ordered-IsRecent :
    (now since : ℕ) (o : Outstanding)
    → now ≤ since + outstanding_max_age
    → IsOrdered since o
    → IsRecent now o
ordered-IsRecent now since [] h ord = tt
ordered-IsRecent now since ((i, t) ∷ o) h ord =
    (omega (arith, ord.0), ordered-IsRecent now t o (omega (arith, ord.0)) ord.1)

forget_old-IsRecent :
    (now since : ℕ) (o : Outstanding) → IsOrdered since o → IsRecent now (forget_old now o)
unfolding forget_old
forget_old-IsRecent now since [] ord = tt
forget_old-IsRecent now since ((i, t) ∷ o) ord =
    ground (arith, forget_old-IsRecent now t o ord.1, ordered-IsRecent now t o)

-- Where the requests were sent in order, a new one forgets every request older than two minutes:
-- what the list holds then is recent, so a pool that never answers does not make it grow for ever.
pub sent-IsRecent :
    (id now since : ℕ) (o : Outstanding) → IsOrdered since o → IsRecent now (sent id now o)
unfolding sent
sent-IsRecent id now since o ord =
    All-append (λ r. now ≤ r.1 + outstanding_max_age) (forget_old now o) ((id, now) ∷ [])
      (forget_old-IsRecent now since o ord) (omega arith)
