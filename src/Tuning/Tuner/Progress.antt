-- ===== src/Tuning/Tuner/Progress.antt =====
-- Every launch that counts brings the tuning closer to its end, and a failed switch does too.
use bc3_online_miner.Common.{
  ℕ, ◌+◌, ◌-◌, ◌*◌, ◌^◌, if_cases, if_either, ◌≤◌, true, false, ◌&&◌, List, [], ◌∷◌, ◌≡◌, refl, ap,
  arith, leb, ltb, ◌==◌, if◌then◌else◌, inl, inr, Bool-cases, Float, length, leb-false, ltb→lt,
}
use bc3_online_miner.Tuning.Layout.{start_window}
use bc3_online_miner.Tuning.Tuner.{
  Event, launch, target_ready, switch_over, step, get_ready, Tuner, Action, Phase, warm_up,
  measure_start, settle, measure_target, settle_back, measure_back, return, recalled, finished,
  launched, switched, expects, counted, in_phase, gives_up, settle_at, failed, succeeded, decide,
  start_rate_of, faster, per_second, add_launch, measure, warm_up_time, settle_time,
}

module _ (float : Float) where
  open float use {F64}

  -- More than any single phase lasts.
  abbrev span : ℕ
  span = 10 ^ 12

  -- What is left of a phase and the phases after it, in nanoseconds of mining at most; a fallback
  -- window can start the settling again.
  abbrev pub left_of : Phase float → ℕ
  left_of (warm_up mined) = 6 * span + (warm_up_time - mined)
  left_of (measure_start rate) = 5 * span + (measure - rate.busy)
  left_of (settle before mined) = 4 * span + (settle_time - mined)
  left_of (measure_target before rate) = 3 * span + (measure - rate.busy)
  left_of (settle_back before tried mined) = 2 * span + (settle_time - mined)
  left_of (measure_back before tried rate) = 1 * span + (measure - rate.busy)
  left_of (return choice remember) = 1
  left_of (recalled window) = 1
  left_of finished = 0

  abbrev pub left : Tuner float → ℕ
  left t = length t.fallback * span + left_of t.phase

  -- The tuner that results has at least `n` less left than `m`.
  abbrev Ends : ℕ → ℕ → Tuner float × Action float → Type 0
  Ends n m r = left r.0 + n ≤ m

  decide-left :
      (t : Tuner float) (n rest : ℕ) (before tried after : F64)
      → n ≤ 1
      → Ends n (length t.fallback * span + (span + rest)) (decide float t before tried after)
  decide-left t n rest before tried after l =
      let m = length t.fallback * span + (span + rest) in
      if_either (Ends n m) (faster float (start_rate_of float before after) tried)
        (omega (arith, l)) (omega (arith, l))

  counted-left :
      (p : Phase float) (t : Tuner float) (window hashes busy n : ℕ)
      → expects float p t window ≡ true
      → n ≤ busy
      → n ≤ 1
      → Ends n (length t.fallback * span + left_of p) (counted float p t hashes busy)
  unfolding expects
  counted-left (warm_up mined) t window hashes busy n h b l =
      if_cases (Ends n (length t.fallback * span + left_of (warm_up mined)))
        (leb warm_up_time (mined + busy)) (λ over. omega (arith, l))
        (λ not_over. omega (arith, b, l, leb-false warm_up_time (mined + busy) not_over))
  counted-left (measure_start rate) t window hashes busy n h b l =
      if_cases (Ends n (length t.fallback * span + left_of (measure_start rate)))
        (ltb (rate.busy + busy) measure)
        (λ under. omega (arith, b, l, ltb→lt (rate.busy + busy) measure under))
        (λ not_under. omega (arith, l))
  counted-left (settle before mined) t window hashes busy n h b l =
      if_cases (Ends n (length t.fallback * span + left_of (settle before mined)))
        (leb settle_time (mined + busy)) (λ over. omega (arith, l))
        (λ not_over. omega (arith, b, l, leb-false settle_time (mined + busy) not_over))
  counted-left (measure_target before rate) t window hashes busy n h b l =
      if_cases (Ends n (length t.fallback * span + left_of (measure_target before rate)))
        (ltb (rate.busy + busy) measure)
        (λ under. omega (arith, b, l, ltb→lt (rate.busy + busy) measure under))
        (λ not_under. omega (arith, l))
  counted-left (settle_back before tried mined) t window hashes busy n h b l =
      if_cases (Ends n (length t.fallback * span + left_of (settle_back before tried mined)))
        (leb settle_time (mined + busy)) (λ over. omega (arith, l))
        (λ not_over. omega (arith, b, l, leb-false settle_time (mined + busy) not_over))
  counted-left (measure_back before tried rate) t window hashes busy n h b l =
      if_cases (Ends n (length t.fallback * span + left_of (measure_back before tried rate)))
        (ltb (rate.busy + busy) measure)
        (λ under. omega (arith, b, l, ltb→lt (rate.busy + busy) measure under))
        (λ not_under.
          decide-left t n (measure - rate.busy) before tried
            (per_second float (add_launch float rate hashes busy)) l)
  counted-left (return choice remember) t window hashes busy n h b l = ground (arith, h)
  counted-left (recalled window') t window hashes busy n h b l = ground (arith, h)
  counted-left finished t window hashes busy n h b l = ground (arith, h)

  gives_up-left :
      (t : Tuner float) (window n m : ℕ)
      → length t.fallback * span + n ≤ m
      → Ends n m (gives_up float t window)
  gives_up-left t window n m h =
      if_either (Ends n m) (window == start_window) (omega (arith, h)) (omega (arith, h))

  abbrev unfinished : Phase float → ℕ
  unfinished finished = 0
  unfinished _ = 1

  settle_at-left :
      (before : F64) (ws : List ℕ) (t : Tuner float) (window mined : ℕ)
      → t.fallback ≡ ws
      → Ends 1
          (left_of (settle before mined) + length ws * span)
          (settle_at float before ws t window)
  settle_at-left before [] t window mined e =
      gives_up-left t window 1 (left_of (settle before mined) + 0)
        (let none_left : length t.fallback ≡ 0 = ap length e in rw none_left (omega arith))
  settle_at-left before (w ∷ ws) t window mined e = omega arith

  failed-left :
      (p : Phase float) (t : Tuner float) (window : ℕ)
      → Ends (unfinished p) (length t.fallback * span + left_of p) (failed float p t window)
  failed-left (settle before mined) t window =
      let m = length t.fallback * span + left_of (settle before mined) in
      if_either (Ends 1 m) (window == t.target)
        (omega (arith, settle_at-left before t.fallback t window mined refl))
        (gives_up-left t window 1 m (omega arith))
  failed-left (recalled w) t window = gives_up-left t window _ _ (omega arith)
  failed-left (warm_up mined) t window = gives_up-left t window _ _ (omega arith)
  failed-left (measure_start rate) t window = gives_up-left t window _ _ (omega arith)
  failed-left (measure_target before rate) t window = gives_up-left t window _ _ (omega arith)
  failed-left (settle_back before tried mined) t window = gives_up-left t window _ _ (omega arith)
  failed-left (measure_back before tried rate) t window = gives_up-left t window _ _ (omega arith)
  failed-left (return choice remember) t window = gives_up-left t window _ _ (omega arith)
  failed-left finished t window = gives_up-left t window _ _ (omega arith)

  succeeded-left :
      (p : Phase float) (t : Tuner float) (window : ℕ)
      → Ends 0
          (length t.fallback * span + left_of p)
          (succeeded float p (in_phase float t p) window)
  succeeded-left (return choice remember) t window =
      if_either (Ends 0 (length t.fallback * span + 1)) (window == t.target) (omega arith)
        (omega arith)
  succeeded-left (settle before mined) t window = omega arith
  succeeded-left (recalled w) t window = omega arith
  succeeded-left (warm_up mined) t window = omega arith
  succeeded-left (measure_start rate) t window = omega arith
  succeeded-left (measure_target before rate) t window = omega arith
  succeeded-left (settle_back before tried mined) t window = omega arith
  succeeded-left (measure_back before tried rate) t window = omega arith
  succeeded-left finished t window = omega arith

  -- A launch that the phase expects and that took time, or a failed switch before the end.
  abbrev pub counts : Tuner float → Event → ℕ
  counts t (launch window hashes busy) =
      if expects float t.phase t window && ltb 0 busy then 1 else 0
  counts t target_ready = 0
  counts t (switch_over window true) = 0
  counts t (switch_over window false) = unfinished t.phase

  launched-left :
      (t : Tuner float) (window hashes busy : ℕ)
      → Ends (counts t (launch window hashes busy)) (left t) (launched float t window hashes busy)
  unfolding launched
  launched-left t window hashes busy = elim (Bool-cases (expects float t.phase t window)) [
    | inl expected ↦ rw expected (
        counted-left t.phase t window hashes busy (if ltb 0 busy then 1 else 0) expected
          (if_cases (λ n. n ≤ busy) (ltb 0 busy) (ltb→lt 0 busy) (λ _. omega arith))
          (if_either (λ n. n ≤ 1) (ltb 0 busy) (omega arith) (omega arith)))
    | inr unexpected ↦ rw unexpected (omega arith)
  ]

  step-left : (t : Tuner float) (e : Event) → Ends (counts t e) (left t) (step float t e)
  unfolding get_ready switched
  step-left t (launch window hashes busy) = launched-left t window hashes busy
  step-left t target_ready = omega arith
  step-left t (switch_over window true) = succeeded-left t.phase t window
  step-left t (switch_over window false) = failed-left t.phase t window

  abbrev pub effective : Tuner float → List Event → ℕ
  effective t [] = 0
  effective t (e ∷ es) = counts t e + effective (step float t e).0 es

  -- Whatever is reported, in whatever order: the launches that the phase expects and that took
  -- time, and the failed switches before the end, are at most what the measure `left` of the tuner
  -- is at the beginning, so that a tuning comes to its end.
  pub effective-bounded : (t : Tuner float) (es : List Event) → effective t es ≤ left t
  effective-bounded t [] = omega arith
  effective-bounded t (e ∷ es) =
      omega (arith, step-left t e, effective-bounded (step float t e).0 es)
