-- ===== src/Gpu/Worker/Switches.antt =====
-- The loop of the switches a tuning asks for ends.
use bc3_online_miner.Common.{
  ℕ, zero, suc, ◌≤◌, ◌<◌, Bool, true, false, Option, none, some, List, [], ◌∷◌, ◌≡◌, refl, arith,
  length, ◌==◌, if_either, Float,
}
use bc3_online_miner.Tuning.Tuner.{
  Tuner, Action, wait, build, switch, done, Phase, warm_up, measure_start, settle, measure_target,
  settle_back, measure_back, return, recalled, finished, switched, failed, gives_up, settle_at,
  succeeded,
}
use bc3_online_miner.Gpu.Tune.{
  Tune, act, act_after, tune_switched, switched_with, back_to_start, switch_taken,
}
use bc3_online_miner.Gpu.Worker.{Backend, State, switch_bc3, switch_once, switch_all, fallbacks}

module _ (float : Float) where
  -- The switches a tuning may still ask for: none, or one and its tuner's fallbacks.
  abbrev pub asked : Option ℕ → Option (Tuner float) → ℕ
  asked none t = 0
  asked (some w) none = 1
  asked (some w) (some t) = suc (length t.fallback)

  abbrev Fewer : ℕ → Tune float → Type 0
  Fewer n tune = asked tune.switch_to tune.tuner ≤ n

  -- A switch asked for after a failure has used up a fallback.
  abbrev Uses : ℕ → Tuner float × Action float → Type 0
  Uses n (t, switch w) = length t.fallback < n
  Uses n (t, wait) = Unit
  Uses n (t, build w) = Unit
  Uses n (t, done choice keep) = Unit

  act-Fewer :
      (tune : Tune float) (t : Tuner float) (a : Action float) (n : ℕ)
      → tune.switch_to ≡ none
      → Uses n (t, a)
      → Fewer n (act_after float tune (t, a)).0
  unfolding act
  act-Fewer tune t wait n e h = rw e (omega arith)
  act-Fewer tune t (build w) n e h = rw e (omega arith)
  act-Fewer tune t (switch w) n e h = h
  act-Fewer tune t (done choice keep) n e h = rw e (omega arith)

  gives_up-Uses : (t : Tuner float) (window n : ℕ) → Uses n (gives_up float t window)
  gives_up-Uses t window n = ground arith

  settle_at-Uses :
      (before : float.F64) (ws : List ℕ) (t : Tuner float) (window : ℕ)
      → Uses (length ws) (settle_at float before ws t window)
  settle_at-Uses before [] t window = gives_up-Uses t window 0
  settle_at-Uses before (w ∷ ws) t window = omega arith

  failed-Uses :
      (p : Phase float) (t : Tuner float) (window : ℕ)
      → Uses (length t.fallback) (failed float p t window)
  failed-Uses (settle before mined) t window =
      if_either (Uses (length t.fallback)) (window == t.target)
        (settle_at-Uses before t.fallback t window) (gives_up-Uses t window _)
  failed-Uses (recalled w) t window = gives_up-Uses t window _
  failed-Uses (warm_up mined) t window = gives_up-Uses t window _
  failed-Uses (measure_start rate) t window = gives_up-Uses t window _
  failed-Uses (measure_target before rate) t window = gives_up-Uses t window _
  failed-Uses (settle_back before tried mined) t window = gives_up-Uses t window _
  failed-Uses (measure_back before tried rate) t window = gives_up-Uses t window _
  failed-Uses (return choice keep) t window = gives_up-Uses t window _
  failed-Uses finished t window = gives_up-Uses t window _

  succeeded-Uses :
      (p : Phase float) (t : Tuner float) (window n : ℕ) → Uses n (succeeded float p t window)
  succeeded-Uses (return choice keep) t window n = if_either (Uses n) (window == t.target) tt tt
  succeeded-Uses (recalled w) t window n = tt
  succeeded-Uses (settle before mined) t window n = tt
  succeeded-Uses (warm_up mined) t window n = tt
  succeeded-Uses (measure_start rate) t window n = tt
  succeeded-Uses (measure_target before rate) t window n = tt
  succeeded-Uses (settle_back before tried mined) t window n = tt
  succeeded-Uses (measure_back before tried rate) t window n = tt
  succeeded-Uses finished t window n = tt

  switched-Uses :
      (t : Tuner float) (window : ℕ) (ok : Bool)
      → Uses (length t.fallback) (switched float t window ok)
  unfolding switched
  switched-Uses t window true = succeeded-Uses t.phase t window (length t.fallback)
  switched-Uses t window false = failed-Uses t.phase t window

  switched-Fewer :
      (window n : ℕ) (ok : Bool) (t : Option (Tuner float)) (tune : Tune float)
      → tune.tuner ≡ t
      → tune.switch_to ≡ none
      → asked (some window) t ≤ suc n
      → Fewer n (switched_with float window ok t tune).0
  switched-Fewer window n ok none tune same e h = rw e (omega arith)
  switched-Fewer window n ok (some t) tune same e h =
      let r = switched float t window ok in
      act-Fewer (back_to_start float ok tune) r.0 r.1 n e
        (uses_more r (length t.fallback) n (omega arith) (switched-Uses t window ok))
    where
      uses_more : (r : Tuner float × Action float) (m n : ℕ) → m ≤ n → Uses m r → Uses n r
      uses_more (t, switch w) m n le h = omega arith
      uses_more (t, wait) m n le h = tt
      uses_more (t, build w) m n le h = tt
      uses_more (t, done choice keep) m n le h = tt

module _ (float : Float) (backend : Backend) (slot : ℕ) where
  switch_once-Fewer :
      (w : Option ℕ) (n : ℕ) (s : State float backend slot)
      → s.tune.switch_to ≡ w
      → asked float w s.tune.tuner ≤ suc n
      → asked float
          (switch_once float backend slot w s).tune.switch_to
          (switch_once float backend slot w s).tune.tuner
        ≤ n
  unfolding tune_switched
  switch_once-Fewer none n s e h = rw e (omega arith)
  switch_once-Fewer (some w) n s e h =
      switched-Fewer float w n (switch_bc3 float backend slot w s.device s.slot_bc3).2 s.tune.tuner
        (switch_taken float s.tune) refl refl h

  asked-none : (w : Option ℕ) (t : Option (Tuner float)) → asked float w t ≤ 0 → w ≡ none
  asked-none none t h = refl
  asked-none (some w) none h = absurd (omega arith)
  asked-none (some w) (some t) h = absurd (omega arith)

  switch_all-none :
      (n : ℕ) (s : State float backend slot)
      → asked float s.tune.switch_to s.tune.tuner ≤ n
      → (switch_all float backend slot n s).tune.switch_to ≡ none
  unfolding switch_all
  switch_all-none zero s h = asked-none s.tune.switch_to s.tune.tuner h
  switch_all-none (suc n) s h =
      switch_all-none n (switch_once float backend slot s.tune.switch_to s)
        (switch_once-Fewer s.tune.switch_to n s refl h)

  asked-le :
      (w : Option ℕ) (t : Option (Tuner float))
      → asked float w t ≤ suc (fallbacks float backend slot t)
  asked-le none t = omega arith
  asked-le (some w) none = omega arith
  asked-le (some w) (some t) = omega arith

  -- The loop of the switches ends: however each of them goes, after the one asked for and as many
  -- more as the tuner has fallbacks, no switch is asked for.
  pub switch_all-ends :
      (s : State float backend slot)
      → (switch_all float backend slot
          (suc (fallbacks float backend slot s.tune.tuner))
          s).tune.switch_to
        ≡ none
  switch_all-ends s = switch_all-none _ s (asked-le s.tune.switch_to s.tune.tuner)
