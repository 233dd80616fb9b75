-- ===== src/Gpu/Tune/Settled.antt =====
-- What a card's tuning puts on file and tells the GUI, against the window the card is then wanted
-- at.
use bc3_online_miner.Common.{
  ℕ, ◌+◌, ◌/◌, ◌^◌, ◌&&◌, ◌||◌, not, Bool, true, false, Option, none, some, List, [], ◌∷◌, ◌≡◌,
  refl, if_either, All, Float,
}
use bc3_online_miner.Tuning.Layout.{start_window, table_bytes, largest_fitting}
use bc3_online_miner.Tuning.Tuner.{
  Tuner, Action, wait, build, switch, done, launched, get_ready, switched,
}
use bc3_online_miner.Gpu.Tune.{
  Tune, new_tune, Card, Effect, compile_ahead, remember, tables, begin, begin_on, begin_with, act,
  act_after, first_action, prepared, ready_or_launched, launched_with, tune_launched, tune_switched,
  switched_with, back_to_start, Report, launch, switch_made, report, make_switch, switch_taken,
  at_start_window, is_set, emit,
}
use bc3_online_miner.Gpu.Tune.Follows.{
  PhaseFollows, Out, launched-Follows, to_recalled-Follows, failed-Follows, succeeded-Follows,
  StartFollows, start-Follows,
}

module _ (float : Float) where
  open float use {F64}

  abbrev TunerFollows : Option (Tuner float) → ℕ → Type 0
  TunerFollows none want = Unit
  TunerFollows (some t) want = PhaseFollows float t.phase t.target want

  abbrev SwitchFollows : Option ℕ → ℕ → Type 0
  SwitchFollows none want = Unit
  SwitchFollows (some w) want = w ≡ want

  abbrev Follows : Tune float → Type 0
  Follows tune =
      TunerFollows tune.tuner tune.window_wanted × SwitchFollows tune.switch_to tune.window_wanted

  -- A choice put on file has the window the card is wanted at from then on, and the tuning is over;
  -- the GUI is told that window and the size of its tables.
  abbrev pub Agrees : Tune float → Effect float → Type 0
  Agrees tune (compile_ahead w) = Unit
  Agrees tune (remember choice) = (choice.window ≡ tune.window_wanted) × (tune.tuner ≡ none)
  Agrees tune (tables window mib tuning measured) =
      (window ≡ tune.window_wanted) × (mib ≡ table_bytes window / 2 ^ 20)

  abbrev Good : Tune float × List (Effect float) → Type 0
  Good r = Follows r.0 × All (Agrees r.0) r.1

  act-Good :
      (tune : Tune float) (t : Tuner float) (a : Action float)
      → SwitchFollows tune.switch_to tune.window_wanted
      → Out float tune.window_wanted (t, a)
      → Good (act_after float tune (t, a))
  unfolding act emit
  act-Good tune t wait s h = ((h.0, s), tt)
  act-Good tune t (build w) s h = ((h.0, s), tt)
  act-Good tune t (switch w) s h = ((h.0, refl), tt)
  act-Good tune t (done choice true) s h = ((tt, s), ((h.1, refl), ((refl, refl), tt)))
  act-Good tune t (done choice false) s h = ((tt, s), ((refl, refl), tt))

  ready-Follows :
      (want window hashes busy : ℕ) (t : Tuner float) (a : Action float)
      → Out float want (t, a)
      → Out float want (ready_or_launched float window hashes busy (t, a))
  ready-Follows want window hashes busy t wait h =
      launched-Follows float t window hashes busy want h.0
  ready-Follows want window hashes busy t (build w) h = h
  ready-Follows want window hashes busy t (switch w) h = h
  ready-Follows want window hashes busy t (done choice keep) h = h

  launched-Good :
      (window hashes busy : ℕ) (running : Bool) (t : Option (Tuner float)) (tune : Tune float)
      → TunerFollows t tune.window_wanted
      → Follows tune
      → Good (launched_with float window hashes busy running t tune)
  launched-Good window hashes busy running none tune h k = (k, tt)
  launched-Good window hashes busy running (some t) tune h k =
      let ready = get_ready float t in
      let after = ready_or_launched float window hashes busy ready in
      let next = launched float t window hashes busy in
      if_either Good (tune.preparing && not (tune.jit && running))
        (act-Good (prepared float tune) after.0 after.1 k.1 (
          ready-Follows tune.window_wanted window hashes busy ready.0 ready.1
            (to_recalled-Follows float t tune.window_wanted h)))
        (act-Good tune next.0 next.1 k.1
          (launched-Follows float t window hashes busy tune.window_wanted h))

  switched-Good :
      (ok : Bool) (t : Option (Tuner float)) (tune : Tune float)
      → TunerFollows t tune.window_wanted
      → Follows tune
      → Good (switched_with float tune.window_wanted ok t (switch_taken float tune))
  unfolding switched
  switched-Good ok none tune h k = ((k.0, tt), tt)
  switched-Good true (some t) tune h k =
      act-Good (switch_taken float tune) _ _ tt
        (succeeded-Follows float t.phase t tune.window_wanted h h)
  switched-Good false (some t) tune h k =
      act-Good (back_to_start float false (switch_taken float tune)) _ _ tt
        (failed-Follows float t.phase t tune.window_wanted)

  make_switch-Good :
      (w : Option ℕ) (ok : Bool) (tune : Tune float)
      → SwitchFollows w tune.window_wanted
      → Follows tune
      → Good (make_switch float w ok tune)
  unfolding tune_switched
  make_switch-Good none ok tune s h = (h, tt)
  make_switch-Good (some w) ok tune s h = rw s (switched-Good ok tune.tuner tune h.0 h)

  report-Good : (tune : Tune float) (r : Report float) → Follows tune → Good (report float tune r)
  unfolding tune_launched
  report-Good tune (launch window hashes busy running) h =
      launched-Good window hashes busy running tune.tuner tune h.0 h
  report-Good tune (switch_made ok) h = make_switch-Good tune.switch_to ok tune h.1 h

  first-Follows :
      (tune : Tune float) (card : Card float) (t : Tuner float) (a : Action float)
      → Follows tune
      → PhaseFollows float t.phase t.target tune.window_wanted
      → Follows (first_action float tune card t a).0
  first-Follows tune card t wait h k = (k, h.1)
  first-Follows tune card t (build w) h k = (k, h.1)
  first-Follows tune card t (switch w) h k = (k, h.1)
  first-Follows tune card t (done choice keep) h k = (k, h.1)

  begun-Follows :
      (card : Card float) (r : Option (Tuner float × Action float))
      → StartFollows float r
      → Follows (begin_with float (new_tune float start_window) card r).0
  begun-Follows card none h = (tt, tt)
  begun-Follows card (some r) h =
      first-Follows (new_tune float start_window) card r.0 r.1 (tt, tt) h

  begin_on-Follows :
      (card : Card float) (memory : Option (ℕ × ℕ))
      → Follows (begin_on float (new_tune float start_window) card memory).0
  begin_on-Follows card none = (tt, tt)
  begin_on-Follows card (some memory) =
      begun-Follows card _
        (start-Follows float (largest_fitting (memory.0 + table_bytes start_window)) card.recalled)

  begin-Follows :
      (by_hand : Option ℕ) (card : Card float)
      → Follows (begin float by_hand card (new_tune float start_window)).0
  unfolding begin
  begin-Follows by_hand card =
      if_either (λ (r : Tune float × List (Effect float)). Follows r.0)
        (is_set float by_hand || not (at_start_window float card.bc3hash_window)) (tt, tt)
        (begin_on-Follows card card.memory)

  -- Every effect of a sequence of reports agrees with the tuning right after the report that had it.
  abbrev pub AgreesAlong : Tune float → List (Report float) → Type 0
  AgreesAlong tune [] = Unit
  AgreesAlong tune (r ∷ rs) =
      let one = report float tune r in All (Agrees one.0) one.1 × AgreesAlong one.0 rs

  reports-Agree :
      (tune : Tune float) (rs : List (Report float)) → Follows tune → AgreesAlong tune rs
  reports-Agree tune [] h = tt
  reports-Agree tune (r ∷ rs) h =
      let one = report-Good tune r h in (one.1, reports-Agree (report float tune r).0 rs one.0)

  -- The tuning of a card that starts at the start window, whatever the card has and remembers,
  -- and whatever launches and switches are reported to it from then on: a choice is put on file
  -- only when the tuning is over and with the window the card is wanted at from then on, also when
  -- a switch has failed; and every window the GUI is told is the one the card is wanted at, with
  -- the size of its tables.
  pub reports-AgreesAlong :
      (by_hand : Option ℕ) (card : Card float) (rs : List (Report float))
      → AgreesAlong (begin float by_hand card (new_tune float start_window)).0 rs
  reports-AgreesAlong by_hand card rs = reports-Agree _ rs (begin-Follows by_hand card)
