-- ===== src/Tuning/Tuner/Windows.antt =====
-- The windows a tuning asks for, from its start on, over any sequence of reports.
use bc3_online_miner.Common.{
  ℕ, ◌+◌, ◌≤◌, ◌<◌, ◌&&◌, Option, none, some, List, [], ◌∷◌, ◌≡◌, refl, subst, arith, leb, ltb,
  ◌==◌, if◌then◌else◌, ◌⊎◌, inl, inr, Bool-cases, if_either, All, Float, ltb→lt, leb→le,
}
use bc3_online_miner.Tuning.Layout.{
  bigger, start_window, largest_fitting, first_fitting, table_bytes, vram_spare,
}
use bc3_online_miner.Tuning.Layout.Cover.{HasRoom}
use bc3_online_miner.Tuning.Layout.Sizes.{Tops, Tops-le, bigger-Tops}
use bc3_online_miner.Tuning.Tuner.{
  Event, launch, target_ready, switch_over, step, actions, recall, Tuner, Action, wait, build,
  switch, done, Phase, warm_up, measure_start, settle, measure_target, settle_back, measure_back,
  return, recalled, finished, Choice, start, launched, get_ready, switched, below, expects, counted,
  to_recalled, gives_up, settle_at, failed, succeeded, decide, start_rate_of, faster, per_second,
  add_launch, measure, warm_up_time, settle_time,
}

module _ (float : Float) (free_vram : ℕ) where
  open float use {F64}

  -- The start window, or one the card has room for.
  abbrev pub Suits : ℕ → Type 0
  Suits w = (w ≡ start_window) ⊎ HasRoom free_vram w

  abbrev pub PhaseSuits : Phase float → Type 0
  PhaseSuits (return choice remember) = Suits choice.window
  PhaseSuits (recalled window) = Suits window
  PhaseSuits _ = Unit

  abbrev pub TunerSuits : Tuner float → Type 0
  TunerSuits t = Suits t.target × All Suits t.fallback × PhaseSuits t.phase

  abbrev pub ActionSuits : Action float → Type 0
  ActionSuits wait = Unit
  ActionSuits (build w) = Suits w
  ActionSuits (switch w) = Suits w
  ActionSuits (done choice remember) = Suits choice.window

  abbrev pub Out : Tuner float × Action float → Type 0
  Out r = TunerSuits r.0 × ActionSuits r.1

  decide-Suits :
      (t : Tuner float) (before tried after : F64)
      → TunerSuits t
      → Out (decide float t before tried after)
  decide-Suits t before tried after h =
      let start_rate = start_rate_of float before after in
      let keeps = faster float start_rate tried in
      let suits : Suits (if keeps then t.target else start_window) =
        if_either Suits keeps h.0 (inl refl) in
      if_either Out keeps ((h.0, h.1, suits), h.0) ((h.0, h.1, tt), suits)

  counted-Suits :
      (phase : Phase float) (t : Tuner float) (hashes busy : ℕ)
      → TunerSuits t
      → Out (counted float phase t hashes busy)
  counted-Suits (warm_up mined) t hashes busy h =
      if_either Out (leb warm_up_time (mined + busy)) ((h.0, h.1, tt), tt) ((h.0, h.1, tt), tt)
  counted-Suits (measure_start rate) t hashes busy h =
      if_either Out (ltb (rate.busy + busy) measure) ((h.0, h.1, tt), tt) ((h.0, h.1, tt), h.0)
  counted-Suits (settle before mined) t hashes busy h =
      if_either Out (leb settle_time (mined + busy)) ((h.0, h.1, tt), tt) ((h.0, h.1, tt), tt)
  counted-Suits (measure_target before rate) t hashes busy h =
      if_either Out (ltb (rate.busy + busy) measure) ((h.0, h.1, tt), tt) ((h.0, h.1, tt), inl refl)
  counted-Suits (settle_back before tried mined) t hashes busy h =
      if_either Out (leb settle_time (mined + busy)) ((h.0, h.1, tt), tt) ((h.0, h.1, tt), tt)
  counted-Suits (measure_back before tried rate) t hashes busy h =
      if_either Out (ltb (rate.busy + busy) measure) ((h.0, h.1, tt), tt)
        (decide-Suits t before tried (per_second float (add_launch float rate hashes busy)) h)
  counted-Suits (return choice remember) t hashes busy h = (h, tt)
  counted-Suits (recalled window) t hashes busy h = (h, tt)
  counted-Suits finished t hashes busy h = (h, tt)

  launched-Suits :
      (t : Tuner float) (window hashes busy : ℕ)
      → TunerSuits t
      → Out (launched float t window hashes busy)
  unfolding launched
  launched-Suits t window hashes busy h =
      if_either Out (expects float t.phase t window) (counted-Suits t.phase t hashes busy h) (h, tt)

  to_recalled-Suits : (p : Phase float) → PhaseSuits p → ActionSuits (to_recalled float p)
  to_recalled-Suits (recalled window) h = h
  to_recalled-Suits (warm_up mined) h = tt
  to_recalled-Suits (measure_start rate) h = tt
  to_recalled-Suits (settle before mined) h = tt
  to_recalled-Suits (measure_target before rate) h = tt
  to_recalled-Suits (settle_back before tried mined) h = tt
  to_recalled-Suits (measure_back before tried rate) h = tt
  to_recalled-Suits (return choice remember) h = tt
  to_recalled-Suits finished h = tt

  gives_up-Suits : (t : Tuner float) (window : ℕ) → TunerSuits t → Out (gives_up float t window)
  gives_up-Suits t window h =
      if_either Out (window == start_window) ((h.0, h.1, tt), inl refl) ((h.0, h.1, tt), inl refl)

  settle_at-Suits :
      (before : F64) (ws : List ℕ) (t : Tuner float) (window : ℕ)
      → TunerSuits t
      → All Suits ws
      → Out (settle_at float before ws t window)
  settle_at-Suits before [] t window h k = gives_up-Suits t window h
  settle_at-Suits before (w ∷ ws) t window h k = ((k.0, k.1, tt), k.0)

  failed-Suits :
      (p : Phase float) (t : Tuner float) (window : ℕ)
      → TunerSuits t
      → Out (failed float p t window)
  failed-Suits (settle before mined) t window h =
      if_either Out (window == t.target) (settle_at-Suits before t.fallback t window h h.1)
        (gives_up-Suits t window h)
  failed-Suits (recalled w) t window h = gives_up-Suits t window h
  failed-Suits (warm_up mined) t window h = gives_up-Suits t window h
  failed-Suits (measure_start rate) t window h = gives_up-Suits t window h
  failed-Suits (measure_target before rate) t window h = gives_up-Suits t window h
  failed-Suits (settle_back before tried mined) t window h = gives_up-Suits t window h
  failed-Suits (measure_back before tried rate) t window h = gives_up-Suits t window h
  failed-Suits (return choice remember) t window h = gives_up-Suits t window h
  failed-Suits finished t window h = gives_up-Suits t window h

  succeeded-Suits :
      (p : Phase float) (t : Tuner float) (window : ℕ)
      → Suits window
      → TunerSuits t
      → PhaseSuits p
      → Out (succeeded float p t window)
  succeeded-Suits (return choice remember) t window s h p =
      if_either Out (window == t.target) ((h.0, h.1, tt), p) (h, tt)
  succeeded-Suits (recalled w) t window s h p = ((h.0, h.1, tt), s)
  succeeded-Suits (settle before mined) t window s h p = (h, tt)
  succeeded-Suits (warm_up mined) t window s h p = (h, tt)
  succeeded-Suits (measure_start rate) t window s h p = (h, tt)
  succeeded-Suits (measure_target before rate) t window s h p = (h, tt)
  succeeded-Suits (settle_back before tried mined) t window s h p = (h, tt)
  succeeded-Suits (measure_back before tried rate) t window s h p = (h, tt)
  succeeded-Suits finished t window s h p = (h, tt)

  -- A card reports a switch only to the start window or to one it has room for.
  abbrev pub Reported : Event → Type 0
  Reported (launch window hashes busy) = Unit
  Reported target_ready = Unit
  Reported (switch_over window ok) = Suits window

  pub step-Suits : (t : Tuner float) (e : Event) → Reported e → TunerSuits t → Out (step float t e)
  unfolding get_ready switched
  step-Suits t (launch window hashes busy) r h = launched-Suits t window hashes busy h
  step-Suits t target_ready r h = (h, to_recalled-Suits t.phase h.2)
  step-Suits t (switch_over window ok) r h =
      if_either Out ok (succeeded-Suits t.phase t window r h h.2) (failed-Suits t.phase t window h)

  actions-Suits :
      (t : Tuner float) (es : List Event)
      → TunerSuits t
      → All Reported es
      → All ActionSuits (actions float t es)
  unfolding actions
  actions-Suits t [] h k = tt
  actions-Suits t (e ∷ es) h k =
      let r = step-Suits t e k.0 h in (r.1, actions-Suits (step float t e).0 es r.0 k.1)

  smaller-HasRoom :
      (fitting w : ℕ)
      → Tops fitting
      → HasRoom free_vram fitting
      → start_window < w
      → w ≤ fitting
      → HasRoom free_vram w
  smaller-HasRoom fitting w t room l u = omega (arith, Tops-le fitting w t l u, room)

  abbrev pub Started : Option (Tuner float × Action float) → Type 0
  Started none = Unit
  Started (some r) = Out r

  abbrev Fitting : Option ℕ → Type 0
  Fitting none = Unit
  Fitting (some w) = Tops w × HasRoom free_vram w

  first_fitting-Fitting : (ws : List ℕ) → All Tops ws → Fitting (first_fitting free_vram ws)
  unfolding first_fitting
  first_fitting-Fitting [] h = tt
  first_fitting-Fitting (w ∷ ws) h =
      elim (Bool-cases (leb (table_bytes w + vram_spare) free_vram)) [
        | inl fits ↦ rw fits (h.0, leb→le (table_bytes w + vram_spare) free_vram fits)
        | inr not_fits ↦ rw not_fits (first_fitting-Fitting ws h.1)
      ]

  pub largest_fitting-Fitting : Fitting (largest_fitting free_vram)
  unfolding largest_fitting
  largest_fitting-Fitting = first_fitting-Fitting bigger bigger-Tops

  below-Suits :
      (fitting : ℕ) (ws : List ℕ)
      → Tops fitting
      → HasRoom free_vram fitting
      → All (λ w. start_window < w) ws
      → All Suits (below fitting ws)
  unfolding below
  below-Suits fitting [] t room above = tt
  below-Suits fitting (w ∷ ws) t room above = elim (Bool-cases (ltb w fitting)) [
    | inl smaller ↦ rw smaller (
      inr (smaller-HasRoom fitting w t room above.0 (omega (arith, ltb→lt w fitting smaller))),
      below-Suits fitting ws t room above.1,
    )
    | inr not_smaller ↦ rw not_smaller (below-Suits fitting ws t room above.1)
  ]

  recall-Suits :
      (fitting : ℕ) (c : Choice float)
      → Tops fitting
      → HasRoom free_vram fitting
      → Started (recall float fitting c)
  recall-Suits fitting c t room =
      elim (Bool-cases (ltb start_window c.window && leb c.window fitting)) [
        | inl fits ↦
            let suits : Suits c.window = inr (
              smaller-HasRoom fitting c.window t room (ground (arith, fits))
                (ground (arith, fits))) in
            rw fits ((suits, tt, suits), suits)
        | inr not_fits ↦ rw not_fits tt
      ]

  pub start-Suits :
      (fitting : Option ℕ) (c : Option (Choice float))
      → Fitting fitting
      → Started (start float fitting c)
  unfolding start
  start-Suits none c h = tt
  start-Suits (some fitting) (some c) h = recall-Suits fitting c h.0 h.1
  start-Suits (some fitting) none h =
      ((inr h.1, below-Suits fitting bigger h.0 h.1 (omega arith), tt), inr h.1)

  -- The tuning of a card with `free_vram` bytes free, whatever was chosen for it before and
  -- whatever is reported to it, if a switch is reported only to the start window or to one the
  -- card has room for: every window it asks to build, to switch to or to stay at is the start
  -- window or has room on the card.
  pub actions-start :
      (before : Option (Choice float)) (t : Tuner float) (first : Action float) (es : List Event)
      → start float (largest_fitting free_vram) before ≡ some (t, first)
      → All Reported es
      → ActionSuits first × All ActionSuits (actions float t es)
  actions-start before t first es h reported =
      let out : Out (t, first) =
        subst Started h
          (start-Suits (largest_fitting free_vram) before (largest_fitting-Fitting)) in
      (out.1, actions-Suits t es out.0 reported)
