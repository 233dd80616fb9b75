-- ===== src/Stats/Rates.antt =====
-- What the shares a minute are counted over.
use bc3_online_miner.Common.{
  ℕ, ◌-◌, ◌≤◌, ◌<◌, ◌≡◌, ◌++◌, refl, sym, ◌∙◌, ap, arith, true, false, List, [], ◌∷◌, leb,
  leb-false, if◌then◌else◌, All, All-append, inl, inr, Bool-cases, Bool,
}
use bc3_online_miner.Stats.{Sample, ShareRate, new, push, forget, share_rate_window}

abbrev pub is_old : ℕ → Sample → Bool
is_old now x = leb share_rate_window (now - x.0)

-- The last of the samples that is a window old, or else `first`.
abbrev pub last_old : ℕ → Sample → List Sample → Sample
last_old now first [] = first
last_old now first (x ∷ xs) = last_old now (if is_old now x then x else first) xs

-- Samples whose times do not fall, from a time on.
abbrev pub InOrder : ℕ → List Sample → Type 0
InOrder from [] = Unit
InOrder from (x ∷ xs) = (from ≤ x.0) × InOrder x.0 xs

InOrder-append :
    (from : ℕ) (xs : List Sample) (x : Sample)
    → InOrder from xs
    → from ≤ x.0
    → All (λ y. y.0 ≤ x.0) xs
    → InOrder from (xs ++ (x ∷ []))
InOrder-append from [] x h le below = (le, tt)
InOrder-append from (y ∷ xs) x h le below = (h.0, InOrder-append y.0 xs x h.1 below.0 below.1)

last_old-append :
    (now : ℕ) (first : Sample) (xs : List Sample) (x : Sample)
    → last_old now first (xs ++ (x ∷ [])) ≡ (if is_old now x then x else last_old now first xs)
last_old-append now first [] x = refl
last_old-append now first (y ∷ xs) x = last_old-append now (if is_old now y then y else first) xs x

-- A sample that is a window old stays so.
old_later : (now later : ℕ) (x : Sample) → now ≤ later → is_old now x ≡ true → is_old later x ≡ true
old_later now later x le h = ground arith

-- Forgetting does not change what a later count starts from.
forget-last_old :
    (now later : ℕ) (first : Sample) (xs : List Sample)
    → now ≤ later
    → let r = forget now first xs in last_old later r.first r.later ≡ last_old later first xs
unfolding forget
forget-last_old now later first [] le = refl
forget-last_old now later first (x ∷ xs) le = elim (Bool-cases (is_old now x)) [
  | inl old ↦ rw (old, old_later now later x le old) (forget-last_old now later x xs le)
  | inr young ↦ rw young refl
]

all_young :
    (now from : ℕ) (first : Sample) (xs : List Sample)
    → InOrder from xs
    → now - from < share_rate_window
    → last_old now first xs ≡ first
all_young now from first [] h young = refl
all_young now from first (x ∷ xs) h young =
    let young_x : is_old now x ≡ false = ground (arith, h.0, young) in
    rw young_x (all_young now x.0 first xs h.1 (omega (arith, h.0, young)))

-- After forgetting, the first sample is what the count starts from.
forget-first :
    (now : ℕ) (first : Sample) (xs : List Sample)
    → InOrder first.0 xs
    → (forget now first xs).first ≡ last_old now first xs
unfolding forget
forget-first now first [] h = refl
forget-first now first (x ∷ xs) h = elim (Bool-cases (is_old now x)) [
  | inl old ↦ rw old (forget-first now x xs h.1)
  | inr young ↦
      rw young
        (sym (all_young now x.0 first xs h.1 (leb-false share_rate_window (now - x.0) young)))
]

-- The samples kept are in order and none is later than `clock`.
abbrev IsKept : ℕ → ShareRate → Type 0
IsKept clock r = InOrder r.first.0 r.later × (r.first.0 ≤ clock) × All (λ y. y.0 ≤ clock) r.later

forget-IsKept :
    (now clock : ℕ) (first : Sample) (xs : List Sample)
    → InOrder first.0 xs
    → first.0 ≤ clock
    → All (λ y. y.0 ≤ clock) xs
    → IsKept clock (forget now first xs)
unfolding forget
forget-IsKept now clock first [] h le below = (tt, le, tt)
forget-IsKept now clock first (x ∷ xs) h le below = elim (Bool-cases (is_old now x)) [
  | inl old ↦ rw old (forget-IsKept now clock x xs h.1 below.0 below.1)
  | inr young ↦ rw young (h, le, below)
]

All-later :
    (clock later : ℕ) (xs : List Sample)
    → clock ≤ later
    → All (λ y. y.0 ≤ clock) xs
    → All (λ y. y.0 ≤ later) xs
All-later clock later [] le h = tt
All-later clock later (x ∷ xs) le h = (omega arith, All-later clock later xs le h.1)

module _ (start : Sample) where
  -- A state in which every later count starts where it would with all samples kept.
  abbrev Follows : ℕ → ShareRate → List Sample → Type 0
  Follows clock r xs =
      IsKept clock r
      × ((later : ℕ) → clock ≤ later → last_old later r.first r.later ≡ last_old later start xs)

  push-Follows :
      (clock : ℕ) (r : ShareRate) (xs : List Sample) (x : Sample)
      → clock ≤ x.0
      → Follows clock r xs
      → Follows x.0 (push x.0 x.1 r) (xs ++ (x ∷ []))
  unfolding push
  push-Follows clock r xs x le h =
      let below = All-later clock x.0 r.later le h.0.2 in
      let all_below : All (λ y. y.0 ≤ x.0) (r.later ++ (x ∷ [])) =
        All-append (λ y. y.0 ≤ x.0) r.later (x ∷ []) below (omega arith, tt) in
      (
        forget-IsKept x.0 x.0 r.first (r.later ++ (x ∷ []))
            (InOrder-append r.first.0 r.later x h.0.0 (omega (arith, h.0.1, le)) below)
            (omega (arith, h.0.1, le)) all_below,
        λ later after.
            forget-last_old x.0 later r.first (r.later ++ (x ∷ [])) after
            ∙ last_old-append later r.first r.later x
            ∙ ap (λ z. if is_old later x then x else z) (h.1 later (omega (arith, le, after)))
            ∙ sym (last_old-append later start xs x),
      )

  push-first :
      (clock : ℕ) (r : ShareRate) (xs : List Sample) (x : Sample)
      → clock ≤ x.0
      → Follows clock r xs
      → (push x.0 x.1 r).first ≡ last_old x.0 start (xs ++ (x ∷ []))
  unfolding push
  push-first clock r xs x le h =
      forget-first x.0 r.first (r.later ++ (x ∷ [])) (
        InOrder-append r.first.0 r.later x h.0.0 (omega (arith, h.0.1, le))
          (All-later clock x.0 r.later le h.0.2))
      ∙ last_old-append x.0 r.first r.later x
      ∙ ap (λ z. if is_old x.0 x then x else z) (h.1 x.0 le)
      ∙ sym (last_old-append x.0 start xs x)

  -- At each of the reports `xs`, made after the reports `before`, the shares are counted from the
  -- newest of all the reports that are a window old, or else from the start.
  abbrev pub CountsFrom : ShareRate → List Sample → List Sample → Type 0
  CountsFrom r before [] = Unit
  CountsFrom r before (x ∷ xs) =
      ((push x.0 x.1 r).first ≡ last_old x.0 start (before ++ (x ∷ [])))
      × CountsFrom (push x.0 x.1 r) (before ++ (x ∷ [])) xs

  counts_from :
      (clock : ℕ) (r : ShareRate) (before xs : List Sample)
      → Follows clock r before
      → InOrder clock xs
      → CountsFrom r before xs
  counts_from clock r before [] h order = tt
  counts_from clock r before (x ∷ xs) h order = (
    push-first clock r before x order.0 h,
    counts_from x.0 (push x.0 x.1 r) (before ++ (x ∷ [])) xs
        (push-Follows clock r before x order.0 h) order.1,
  )

-- With reports whose times do not fall, from the start on: at each of them the shares a minute are
-- counted from the newest of all the reports so far that is at least a window old, or from the start
-- while none is, though only the samples from there on are kept.
pub push-CountsFrom :
    (start accepted : ℕ) (reports : List Sample)
    → InOrder start reports
    → CountsFrom (start, accepted) (new start accepted) [] reports
unfolding new
push-CountsFrom start accepted reports order =
    counts_from (start, accepted) start (new start accepted) [] reports
      ((tt, omega arith, tt), λ later le. refl) order
