-- ===== src/Gpu/Tune/Follows.antt =====
-- Where each phase of a tuning has the card, and the window it ends with.
use bc3_online_miner.Common.{
  ℕ, ◌+◌, ◌&&◌, Option, none, some, List, [], ◌∷◌, ◌≡◌, refl, leb, ltb, ◌==◌, if_either, if_cases,
  Float,
}
use bc3_online_miner.Tuning.Layout.{start_window}
use bc3_online_miner.Tuning.Tuner.{
  Tuner, Action, switch, done, Phase, warm_up, measure_start, settle, measure_target, settle_back,
  measure_back, return, recalled, finished, Choice, start, launched, get_ready, expects, counted,
  to_recalled, gives_up, settle_at, failed, succeeded, decide, start_rate_of, faster, per_second,
  add_launch, measure, warm_up_time, settle_time,
}

module _ (float : Float) where
  open float use {F64}

  -- Where a phase has the card, of which the tuner wants `target` and the worker `want`.
  abbrev pub PhaseFollows : Phase float → ℕ → ℕ → Type 0
  PhaseFollows (warm_up mined) target want = want ≡ start_window
  PhaseFollows (measure_start rate) target want = want ≡ start_window
  PhaseFollows (settle before mined) target want = want ≡ target
  PhaseFollows (measure_target before rate) target want = want ≡ target
  PhaseFollows (settle_back before tried mined) target want = want ≡ start_window
  PhaseFollows (measure_back before tried rate) target want = want ≡ start_window
  PhaseFollows (return choice keep) target want = (want ≡ target) × (choice.window ≡ target)
  PhaseFollows (recalled window) target want = Unit
  PhaseFollows finished target want = Unit

  abbrev pub wanted : ℕ → Action float → ℕ
  wanted want (switch w) = w
  wanted want _ = want

  abbrev pub Ends : ℕ → Action float → Type 0
  Ends want (done choice keep) = choice.window ≡ want
  Ends want _ = Unit

  abbrev pub Out : ℕ → Tuner float × Action float → Type 0
  Out want r = PhaseFollows r.0.phase r.0.target (wanted want r.1) × Ends want r.1

  decide-Follows :
      (t : Tuner float) (before tried after : F64) (want : ℕ)
      → want ≡ start_window
      → Out want (decide float t before tried after)
  decide-Follows t before tried after want h =
      let start_rate = start_rate_of float before after in
      if_cases (Out want) (faster float start_rate tried) (λ e. ((refl, rw e refl), tt))
        (λ e. (tt, rw (e, h) refl))

  counted-Follows :
      (phase : Phase float) (t : Tuner float) (hashes busy want : ℕ)
      → PhaseFollows phase t.target want
      → PhaseFollows t.phase t.target want
      → Out want (counted float phase t hashes busy)
  counted-Follows (warm_up mined) t hashes busy want h k =
      if_either (Out want) (leb warm_up_time (mined + busy)) (h, tt) (h, tt)
  counted-Follows (measure_start rate) t hashes busy want h k =
      if_either (Out want) (ltb (rate.busy + busy) measure) (h, tt) (refl, tt)
  counted-Follows (settle before mined) t hashes busy want h k =
      if_either (Out want) (leb settle_time (mined + busy)) (h, tt) (h, tt)
  counted-Follows (measure_target before rate) t hashes busy want h k =
      if_either (Out want) (ltb (rate.busy + busy) measure) (h, tt) (refl, tt)
  counted-Follows (settle_back before tried mined) t hashes busy want h k =
      if_either (Out want) (leb settle_time (mined + busy)) (h, tt) (h, tt)
  counted-Follows (measure_back before tried rate) t hashes busy want h k =
      if_either (Out want) (ltb (rate.busy + busy) measure) (h, tt)
        (decide-Follows t before tried (per_second float (add_launch float rate hashes busy)) want
          h)
  counted-Follows (return choice keep) t hashes busy want h k = (k, tt)
  counted-Follows (recalled window) t hashes busy want h k = (k, tt)
  counted-Follows finished t hashes busy want h k = (k, tt)

  pub launched-Follows :
      (t : Tuner float) (window hashes busy want : ℕ)
      → PhaseFollows t.phase t.target want
      → Out want (launched float t window hashes busy)
  unfolding launched
  launched-Follows t window hashes busy want h =
      if_either (Out want) (expects float t.phase t window)
        (counted-Follows t.phase t hashes busy want h h) (h, tt)

  gives_up-Follows : (t : Tuner float) (window : ℕ) → Out start_window (gives_up float t window)
  gives_up-Follows t window =
      if_either (Out start_window) (window == start_window) (tt, refl) (tt, refl)

  settle_at-Follows :
      (before : F64) (ws : List ℕ) (t : Tuner float) (window : ℕ)
      → Out start_window (settle_at float before ws t window)
  settle_at-Follows before [] t window = gives_up-Follows t window
  settle_at-Follows before (w ∷ ws) t window = (refl, tt)

  pub failed-Follows :
      (p : Phase float) (t : Tuner float) (window : ℕ) → Out start_window (failed float p t window)
  failed-Follows (settle before mined) t window =
      if_either (Out start_window) (window == t.target)
        (settle_at-Follows before t.fallback t window) (gives_up-Follows t window)
  failed-Follows (recalled w) t window = gives_up-Follows t window
  failed-Follows (warm_up mined) t window = gives_up-Follows t window
  failed-Follows (measure_start rate) t window = gives_up-Follows t window
  failed-Follows (measure_target before rate) t window = gives_up-Follows t window
  failed-Follows (settle_back before tried mined) t window = gives_up-Follows t window
  failed-Follows (measure_back before tried rate) t window = gives_up-Follows t window
  failed-Follows (return choice keep) t window = gives_up-Follows t window
  failed-Follows finished t window = gives_up-Follows t window

  pub succeeded-Follows :
      (p : Phase float) (t : Tuner float) (window : ℕ)
      → PhaseFollows p t.target window
      → PhaseFollows t.phase t.target window
      → Out window (succeeded float p t window)
  succeeded-Follows (return choice keep) t window h k =
      if_either (Out window) (window == t.target) (tt, rw (h.1, h.0) refl) (k, tt)
  succeeded-Follows (recalled w) t window h k = (tt, refl)
  succeeded-Follows (settle before mined) t window h k = (k, tt)
  succeeded-Follows (warm_up mined) t window h k = (k, tt)
  succeeded-Follows (measure_start rate) t window h k = (k, tt)
  succeeded-Follows (measure_target before rate) t window h k = (k, tt)
  succeeded-Follows (settle_back before tried mined) t window h k = (k, tt)
  succeeded-Follows (measure_back before tried rate) t window h k = (k, tt)
  succeeded-Follows finished t window h k = (k, tt)

  pub to_recalled-Follows :
      (t : Tuner float) (want : ℕ)
      → PhaseFollows t.phase t.target want
      → Out want (get_ready float t)
  unfolding get_ready
  to_recalled-Follows t want h = to_recalled-Out t.phase h
    where
      to_recalled-Out :
          (p : Phase float)
          → PhaseFollows p t.target want
          → PhaseFollows p t.target (wanted want (to_recalled float p))
            × Ends want (to_recalled float p)
      to_recalled-Out (recalled w) h = (tt, tt)
      to_recalled-Out (warm_up mined) h = (h, tt)
      to_recalled-Out (measure_start rate) h = (h, tt)
      to_recalled-Out (settle before mined) h = (h, tt)
      to_recalled-Out (measure_target before rate) h = (h, tt)
      to_recalled-Out (settle_back before tried mined) h = (h, tt)
      to_recalled-Out (measure_back before tried rate) h = (h, tt)
      to_recalled-Out (return choice keep) h = (h, tt)
      to_recalled-Out finished h = (h, tt)

  abbrev pub StartFollows : Option (Tuner float × Action float) → Type 0
  StartFollows none = Unit
  StartFollows (some r) = PhaseFollows r.0.phase r.0.target start_window

  pub start-Follows :
      (fitting : Option ℕ) (c : Option (Choice float)) → StartFollows (start float fitting c)
  unfolding start
  start-Follows none c = tt
  start-Follows (some fitting) (some c) =
      if_either StartFollows (ltb start_window c.window && leb c.window fitting) tt tt
  start-Follows (some fitting) none = refl
