-- ===== src/Gpu/Tune/Suits.antt =====
-- The windows a card is asked to be at, along everything its worker reports.
use bc3_online_miner.Common.{
  ℕ, ◌+◌, ◌&&◌, ◌||◌, not, Bool, true, false, Option, none, some, List, [], ◌∷◌, refl,
  if◌then◌else◌, if_either, inl, Float,
}
use bc3_online_miner.Tuning.Layout.{start_window, table_bytes, largest_fitting}
use bc3_online_miner.Tuning.Tuner.{
  Tuner, Action, wait, build, switch, done, start, launched, get_ready, switched, target_ready,
  switch_over, Event,
}
use bc3_online_miner.Tuning.Tuner
use bc3_online_miner.Tuning.Tuner.Windows.{
  Suits, TunerSuits, Out, Started, step-Suits, start-Suits, largest_fitting-Fitting,
}
use bc3_online_miner.Gpu.Tune.{
  Tune, new_tune, Card, Effect, begin, begin_on, begin_with, act, act_after, first_action, prepared,
  ready_or_launched, launched_with, tune_launched, tune_switched, switched_with, back_to_start,
  Report, launch, switch_made, report, make_switch, switch_taken, at_start_window, is_set,
}

module _ (float : Float) (free_vram : ℕ) where
  abbrev TunerFits : Option (Tuner float) → Type 0
  TunerFits none = Unit
  TunerFits (some t) = TunerSuits float free_vram t

  abbrev SwitchFits : Option ℕ → Type 0
  SwitchFits none = Unit
  SwitchFits (some w) = Suits float free_vram w

  abbrev Fits : Tune float → Type 0
  Fits tune =
      Suits float free_vram tune.window_wanted × TunerFits tune.tuner × SwitchFits tune.switch_to

  act-Fits :
      (tune : Tune float) (t : Tuner float) (a : Action float)
      → Suits float free_vram tune.window_wanted
      → SwitchFits tune.switch_to
      → Out float free_vram (t, a)
      → Fits (act_after float tune (t, a)).0
  unfolding act
  act-Fits tune t wait w s h = (w, h.0, s)
  act-Fits tune t (build window) w s h = (w, h.0, s)
  act-Fits tune t (switch window) w s h = (h.1, h.0, h.1)
  act-Fits tune t (done choice keep) w s h = (w, tt, s)

  ready-Out :
      (window hashes busy : ℕ) (r : Tuner float × Action float)
      → Out float free_vram r
      → Out float free_vram (ready_or_launched float window hashes busy r)
  ready-Out window hashes busy (t, wait) h =
      step-Suits float free_vram t (Tuner.launch window hashes busy) tt h.0
  ready-Out window hashes busy (t, build w) h = h
  ready-Out window hashes busy (t, switch w) h = h
  ready-Out window hashes busy (t, done choice keep) h = h

  launched-Fits :
      (window hashes busy : ℕ) (running : Bool) (t : Option (Tuner float)) (tune : Tune float)
      → TunerFits t
      → Fits tune
      → Fits (launched_with float window hashes busy running t tune).0
  launched-Fits window hashes busy running none tune h k = k
  launched-Fits window hashes busy running (some t) tune h k =
      if_either (λ (r : Tune float × List (Effect float)). Fits r.0)
        (tune.preparing && not (tune.jit && running))
        (act-Fits (prepared float tune) _ _ k.0 k.2 (
          ready-Out window hashes busy (get_ready float t)
            (step-Suits float free_vram t target_ready tt h)))
        (act-Fits tune _ _ k.0 k.2
          (step-Suits float free_vram t (Tuner.launch window hashes busy) tt h))

  start-Suited :
      (ok : Bool) (want : ℕ)
      → Suits float free_vram want
      → Suits float free_vram (if ok then want else start_window)
  start-Suited true want h = h
  start-Suited false want h = inl refl

  switched-Fits :
      (window : ℕ) (ok : Bool) (t : Option (Tuner float)) (tune : Tune float)
      → Suits float free_vram window
      → TunerFits t
      → Fits tune
      → Fits (switched_with float window ok t (switch_taken float tune)).0
  switched-Fits window ok none tune s h k = (k.0, k.1, tt)
  switched-Fits window ok (some t) tune s h k =
      act-Fits (back_to_start float ok (switch_taken float tune)) _ _
        (start-Suited ok tune.window_wanted k.0) tt
        (step-Suits float free_vram t (switch_over window ok) s h)

  make_switch-Fits :
      (w : Option ℕ) (ok : Bool) (tune : Tune float)
      → SwitchFits w
      → Fits tune
      → Fits (make_switch float w ok tune).0
  unfolding tune_switched
  make_switch-Fits none ok tune s h = h
  make_switch-Fits (some w) ok tune s h = switched-Fits w ok tune.tuner tune s h.1 h

  pub report-Fits :
      (tune : Tune float) (r : Report float) → Fits tune → Fits (report float tune r).0
  unfolding tune_launched
  report-Fits tune (launch window hashes busy running) h =
      launched-Fits window hashes busy running tune.tuner tune h.1 h
  report-Fits tune (switch_made ok) h = make_switch-Fits tune.switch_to ok tune h.2 h

  -- The windows a card is wanted at after each of a sequence of reports, and those it is to switch
  -- to, suit the card.
  abbrev pub SuitsAlong : Tune float → List (Report float) → Type 0
  SuitsAlong tune [] = Suits float free_vram tune.window_wanted × SwitchFits tune.switch_to
  SuitsAlong tune (r ∷ rs) =
      Suits float free_vram tune.window_wanted
      × SwitchFits tune.switch_to
      × SuitsAlong (report float tune r).0 rs

  reports-Fit : (tune : Tune float) (rs : List (Report float)) → Fits tune → SuitsAlong tune rs
  reports-Fit tune [] h = (h.0, h.2)
  reports-Fit tune (r ∷ rs) h =
      (h.0, h.2, reports-Fit (report float tune r).0 rs (report-Fits tune r h))

  first-Fits :
      (tune : Tune float) (card : Card float) (t : Tuner float) (a : Action float)
      → Fits tune
      → TunerSuits float free_vram t
      → Fits (first_action float tune card t a).0
  first-Fits tune card t wait h k = (h.0, k, h.2)
  first-Fits tune card t (build w) h k = (h.0, k, h.2)
  first-Fits tune card t (switch w) h k = (h.0, k, h.2)
  first-Fits tune card t (done choice keep) h k = (h.0, k, h.2)

  begun-Fits :
      (card : Card float) (r : Option (Tuner float × Action float))
      → Started float free_vram r
      → Fits (begin_with float (new_tune float start_window) card r).0
  begun-Fits card none h = (inl refl, tt, tt)
  begun-Fits card (some r) h =
      first-Fits (new_tune float start_window) card r.0 r.1 (inl refl, tt, tt) h.0

-- The memory a card has for tables while it is at the start window; without an answer, none.
abbrev pub room : Option (ℕ × ℕ) → ℕ
room none = 0
room (some (free, total)) = free + table_bytes start_window

module _ (float : Float) (card : Card float) where
  begin_on-Fits :
      (memory : Option (ℕ × ℕ))
      → Fits float (room memory) (begin_on float (new_tune float start_window) card memory).0
  begin_on-Fits none = (inl refl, tt, tt)
  begin_on-Fits (some memory) =
      let free = memory.0 + table_bytes start_window in
      begun-Fits float free card (start float (largest_fitting free) card.recalled) (
        start-Suits float free (largest_fitting free) card.recalled
          (largest_fitting-Fitting float free))

  begin-Fits :
      (by_hand : Option ℕ)
      → Fits float (room card.memory) (begin float by_hand card (new_tune float start_window)).0
  unfolding begin
  begin-Fits by_hand =
      if_either (λ (r : Tune float × List (Effect float)). Fits float (room card.memory) r.0)
        (is_set float by_hand || not (at_start_window float card.bc3hash_window)) (inl refl, tt, tt)
        (begin_on-Fits card.memory)

  -- The tuning of a card that starts at the start window, whatever was chosen for the card before
  -- and whatever launches and switches are reported to it: at every moment the window it wants the
  -- card at, and the one it wants a switch to, is the start window or one whose tables have room,
  -- with the spare memory, in what the card had free at the start window.
  pub reports-SuitsAlong :
      (by_hand : Option ℕ) (rs : List (Report float))
      → SuitsAlong float
          (room card.memory)
          (begin float by_hand card (new_tune float start_window)).0
          rs
  reports-SuitsAlong by_hand rs = reports-Fit float (room card.memory) _ rs (begin-Fits by_hand)
