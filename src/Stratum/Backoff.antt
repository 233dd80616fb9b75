-- ===== src/Stratum/Backoff.antt =====
-- src/stratum.rs: `Backoff`, the waits between reconnects.
use bc3_online_miner.Common.{
  ℕ, zero, suc, ◌+◌, ◌*◌, ◌^◌, min, Bool, true, false, List, [], ◌∷◌, ◌++◌, if◌then◌else◌, ◌≡◌,
  refl, arith, replicate,
}
use native.Mathlib.Nat.{pow-suc}

pub record Backoff : Type 0 where
  pub next : ℕ

abbrev pub max_secs : ℕ
max_secs = 60

unfoldable pub new : Backoff
new = record { next = 1 }

-- The wait before the next attempt, and the ladder after it.
unfoldable pub after : Backoff → Bool → ℕ × Backoff
after b healthy =
    let next = if healthy then 1 else b.next in (next, record { next = min (next * 2) max_secs })

-- The ladder after sessions that were healthy or not, oldest first.
unfoldable pub after_all : Backoff → List Bool → Backoff
unfolding after
after_all b [] = b
after_all b (healthy ∷ rest) = after_all (after b healthy).1 rest

-- Sessions that failed before they were healthy.
abbrev pub fails : ℕ → List Bool
fails n = replicate n false

-- The ladder after `n` failures in a row, from a rung `2^k`.
climb :
    (n : ℕ) (b : Backoff) (k : ℕ)
    → b.next ≡ min (2 ^ k) max_secs
    → (after_all b (fails n)).next ≡ min (2 ^ (k + n)) max_secs
unfolding after_all after
climb zero b k e = let z : k + 0 ≡ k = omega arith in rw z e
climb (suc n) b k e =
    let s : k + suc n ≡ suc k + n = omega arith in
    rw s
      (climb n (record { next = min (b.next * 2) max_secs }) (suc k) (omega (arith, pow-suc 2 k)))

after_all-append :
    (b : Backoff) (xs ys : List Bool) → after_all b (xs ++ ys) ≡ after_all (after_all b xs) ys
unfolding after_all
after_all-append b [] ys = refl
after_all-append b (x ∷ xs) ys = after_all-append (after b x).1 xs ys

-- Whatever came before, after a healthy session and `n` more failures the wait doubles from one
-- second: the next wait is `2^(n+1)` seconds, but at most a minute.
pub after-healthy :
    (b : Backoff) (past : List Bool) (n : ℕ)
    → (after (after_all b (past ++ (true ∷ fails n))) false).0 ≡ min (2 ^ suc n) max_secs
unfolding after after_all
after-healthy b past n =
    let e : suc n ≡ 1 + n = omega arith in
    rw (after_all-append b past (true ∷ fails n), e) (climb n (record { next = 2 }) 1 refl)
