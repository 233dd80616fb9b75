-- ===== src/Stratum/Rejects/Account.antt =====
-- Every reject is said, counted in a line, or still held back.
use bc3_online_miner.Common.{
  ℕ, suc, ◌+◌, ◌≡◌, refl, arith, Option, none, some, List, [], ◌∷◌, ◌++◌, Option-cases, inl, inr,
}
use bc3_online_miner.Stratum.Rejects.{Window, Line, rejected, rejected_more, count_in, reject, due}

-- The rejects that stand for nothing but a count so far.
abbrev pub held : List Window → ℕ
held [] = 0
held (w ∷ ws) = w.held + held ws

-- The rejects that a line tells of.
abbrev pub told : List Line → ℕ
told [] = 0
told (rejected r ∷ ls) = suc (told ls)
told (rejected_more r n secs ∷ ls) = n + told ls

abbrev lines_of : Option Line → List Line
lines_of none = []
lines_of (some l) = l ∷ []

-- What happens to the log, in order.
pub data Event : Type 0 where
  rejects : List ℕ → ℕ → Event
  dues : ℕ → Event

-- The lines printed over a history, and the windows open after it.
unfoldable pub run : List Event → List Window → List Line × List Window
run [] ws = ([], ws)
run (rejects reason now ∷ es) ws =
    let (line, ws') = reject reason now ws in
    let rest = run es ws' in (lines_of line ++ rest.0, rest.1)
run (dues now ∷ es) ws =
    let (lines, ws') = due now ws in let rest = run es ws' in (lines ++ rest.0, rest.1)

abbrev pub reject_count : List Event → ℕ
reject_count [] = 0
reject_count (rejects r now ∷ es) = suc (reject_count es)
reject_count (dues now ∷ es) = reject_count es

held-append : (xs ys : List Window) → held (xs ++ ys) ≡ held xs + held ys
held-append [] ys = omega arith
held-append (x ∷ xs) ys = omega (arith, held-append xs ys)

told-append : (xs ys : List Line) → told (xs ++ ys) ≡ told xs + told ys
told-append [] ys = omega arith
told-append (rejected r ∷ xs) ys = omega (arith, told-append xs ys)
told-append (rejected_more r n s ∷ xs) ys = omega (arith, told-append xs ys)

held-count_in :
    (reason : List ℕ) (ws ws' : List Window)
    → count_in reason ws ≡ some ws'
    → held ws' ≡ suc (held ws)
unfolding count_in
held-count_in reason [] ws' e = cc
held-count_in reason (w ∷ ws) ws' e = elim (Option-cases (count_in reason ws)) [
  | inl n ↦ ground arith
  | inr (vs, s) ↦ ground (arith, held-count_in reason ws vs s)
]

reject-account :
    (reason : List ℕ) (now : ℕ) (ws : List Window)
    → told (lines_of (reject reason now ws).0) + held (reject reason now ws).1 ≡ suc (held ws)
unfolding reject
reject-account reason now ws = elim (Option-cases (count_in reason ws)) [
  | inl n ↦
      rw (n, reject)
        (omega (arith, held-append ws (record { reason = reason; since = now; held = 0 } ∷ [])))
  | inr (vs, s) ↦ rw (s, reject) (omega (arith, held-count_in reason ws vs s))
]

due-account : (now : ℕ) (ws : List Window) → told (due now ws).0 + held (due now ws).1 ≡ held ws
unfolding due
due-account now [] = refl
due-account now (w ∷ ws) = ground (arith, due-account now ws)

-- Over any history of rejects and summaries, every reject is told in a line or still held back,
-- and none twice.
pub run-account :
    (es : List Event) (ws : List Window)
    → told (run es ws).0 + held (run es ws).1 ≡ reject_count es + held ws
unfolding run
run-account [] ws = refl
run-account (rejects reason now ∷ es) ws =
    let r = reject reason now ws in
    omega (
      arith,
      told-append (lines_of r.0) (run es r.1).0,
      run-account es r.1,
      reject-account reason now ws,
    )
run-account (dues now ∷ es) ws =
    let d = due now ws in
    omega (arith, told-append d.0 (run es d.1).0, run-account es d.1, due-account now ws)
