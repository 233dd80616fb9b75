-- ===== src/Gpu/Tune.antt =====
-- src/gpu_worker.rs: `Tune`, what the worker of one card keeps of its window tuning and how it
-- passes what happens on to the tuner. The card's name and the key its choice is filed under are
-- left out: they are only printed, and handed to `recall` and `remember`.
pub mod Suits
pub mod Follows
pub mod Settled
use bc3_online_miner.Common.{
  ℕ, ◌+◌, ◌*◌, ◌/◌, ◌^◌, ◌-◌, Bool, true, false, not, ◌&&◌, ◌||◌, Option, none, some, List, [], ◌∷◌,
  ◌++◌, ◌==◌, if◌then◌else◌, Float,
}
use bc3_online_miner.Tuning.Layout.{start_window, table_bytes, largest_fitting}
use bc3_online_miner.Tuning.Tuner.{
  Tuner, Choice, Action, wait, build, switch, done, start, launched, get_ready, switched,
}

module _ (float : Float) where
  open float use {F64, of_nat, sub, mul, div, flt}

  -- What a tuning does besides changing its own state: a compile ahead, a choice put on file, the
  -- event `Tables` for the GUI with the window, its tables in MiB, whether the card is tuning, and
  -- the window tried with its gain in percent.
  pub data Effect : Type 0 where
    compile_ahead : (window : ℕ) → Effect
    remember : Choice float → Effect
    tables : (window mib : ℕ) (tuning : Bool) (measured : Option (ℕ × F64)) → Effect

  pub record Tune : Type 0 where
    pub window_wanted : ℕ
    pub tuner : Option (Tuner float)
    pub begun : Bool
    pub preparing : Bool
    -- whether the receiver of a compile ahead is held
    pub jit : Bool
    pub switch_to : Option ℕ

  -- `Tune::new`, from the window all cards start at
  abbrev pub new_tune : ℕ → Tune
  new_tune shared_window = record {
    window_wanted = shared_window;
    tuner = none;
    begun = false;
    preparing = false;
    jit = false;
    switch_to = none;
  }

  -- The window set by hand in the shared state, if one is.
  unfoldable pub want : Tune → Option ℕ → ℕ
  want tune none = tune.window_wanted
  want tune (some by_hand) = by_hand

  -- `emit`
  unfoldable pub emit : Tune → Bool → Option (ℕ × F64) → Effect
  emit tune tuning measured =
      tables tune.window_wanted (table_bytes tune.window_wanted / 2 ^ 20) tuning measured

  -- What `begin` asks the backend and the file of choices: the window of the kernel in use, the
  -- free and total memory, whether a compile ahead can be waited for, and `recall`.
  pub record Card : Type 0 where
    pub bc3hash_window : Option ℕ
    pub memory : Option (ℕ × ℕ)
    pub compiles_ahead : Bool
    pub recalled : Option (Choice float)

  abbrev pub at_start_window : Option ℕ → Bool
  at_start_window none = false
  at_start_window (some window) = window == start_window

  abbrev pub is_set : Option ℕ → Bool
  is_set none = false
  is_set (some window) = true

  abbrev was_recalled : Option (Choice float) → Bool
  was_recalled none = false
  was_recalled (some c) = true

  abbrev pub mark_begun : Tune → Tune
  mark_begun tune = record {
    window_wanted = tune.window_wanted;
    tuner = tune.tuner;
    begun = true;
    preparing = tune.preparing;
    jit = tune.jit;
    switch_to = tune.switch_to;
  }

  -- The end of `begin`: the tuner is kept, and what it asks for first is compiled ahead.
  abbrev pub first_action : Tune → Card → Tuner float → Action float → Tune × List Effect
  first_action tune card tuner (build w) = (
    record {
      window_wanted = tune.window_wanted;
      tuner = some tuner;
      begun = true;
      preparing = true;
      jit = card.compiles_ahead;
      switch_to = tune.switch_to;
    },
    emit tune (not (was_recalled card.recalled)) none ∷ compile_ahead w ∷ [],
  )
  first_action tune card tuner _ = (
    record {
      window_wanted = tune.window_wanted;
      tuner = some tuner;
      begun = true;
      preparing = tune.preparing;
      jit = tune.jit;
      switch_to = tune.switch_to;
    },
    emit tune (not (was_recalled card.recalled)) none ∷ [],
  )

  abbrev pub begin_with : Tune → Card → Option (Tuner float × Action float) → Tune × List Effect
  begin_with tune card none = (mark_begun tune, emit tune false none ∷ [])
  begin_with tune card (some r) = first_action tune card r.0 r.1

  abbrev pub begin_on : Tune → Card → Option (ℕ × ℕ) → Tune × List Effect
  begin_on tune card none = (mark_begun tune, emit tune false none ∷ [])
  begin_on tune card (some memory) =
      begin_with tune card
        (start float (largest_fitting (memory.0 + table_bytes start_window)) card.recalled)

  unfoldable pub begin : Option ℕ → Card → Tune → Tune × List Effect
  unfolding emit
  begin by_hand card tune =
      if tune.begun || is_set by_hand || not (at_start_window card.bc3hash_window)
      then (tune, [])
      else begin_on tune card card.memory

  abbrev pub measured_of : Choice float → Option (ℕ × F64)
  measured_of c =
      if flt (of_nat 0) c.start_rate && flt (of_nat 0) c.tried_rate
      then some (c.tried, mul (sub (div c.tried_rate c.start_rate) (of_nat 1)) (of_nat 100))
      else none

  -- `act`
  unfoldable pub act : Tune → Action float → Tune × List Effect
  unfolding emit
  act tune wait = (tune, [])
  act tune (build w) = (tune, [])
  act tune (switch w) = (
    record {
      window_wanted = w;
      tuner = tune.tuner;
      begun = tune.begun;
      preparing = tune.preparing;
      jit = tune.jit;
      switch_to = some w;
    },
    [],
  )
  act tune (done choice keep) = (
    record {
      window_wanted = tune.window_wanted;
      tuner = none;
      begun = tune.begun;
      preparing = false;
      jit = false;
      switch_to = tune.switch_to;
    },
    (if keep then remember choice ∷ [] else []) ++ (emit tune false (measured_of choice) ∷ []),
  )

  -- The tuner as it is after a report.
  abbrev pub with_tuner : Tune → Tuner float → Tune
  with_tuner tune t = record {
    window_wanted = tune.window_wanted;
    tuner = some t;
    begun = tune.begun;
    preparing = tune.preparing;
    jit = tune.jit;
    switch_to = tune.switch_to;
  }

  abbrev pub prepared : Tune → Tune
  prepared tune = record {
    window_wanted = tune.window_wanted;
    tuner = tune.tuner;
    begun = tune.begun;
    preparing = false;
    jit = false;
    switch_to = tune.switch_to;
  }

  abbrev pub act_after : Tune → Tuner float × Action float → Tune × List Effect
  act_after tune r = act (with_tuner tune r.0) r.1

  abbrev pub ready_or_launched : ℕ → ℕ → ℕ → Tuner float × Action float → Tuner float × Action float
  ready_or_launched window hashes busy (t, wait) = launched float t window hashes busy
  ready_or_launched window hashes busy (t, build w) = (t, build w)
  ready_or_launched window hashes busy (t, switch w) = (t, switch w)
  ready_or_launched window hashes busy (t, done choice keep) = (t, done choice keep)

  abbrev pub launched_with : ℕ → ℕ → ℕ → Bool → Option (Tuner float) → Tune → Tune × List Effect
  launched_with window hashes busy running none tune = (tune, [])
  launched_with window hashes busy running (some t) tune =
      if tune.preparing && not (tune.jit && running)
      then act_after (prepared tune) (ready_or_launched window hashes busy (get_ready float t))
      else act_after tune (launched float t window hashes busy)

  -- `running`: the compile ahead has not ended (`try_recv` is `Empty`).
  unfoldable pub tune_launched : ℕ → ℕ → ℕ → Bool → Tune → Tune × List Effect
  unfolding act
  tune_launched window hashes busy running tune =
      launched_with window hashes busy running tune.tuner tune

  abbrev pub back_to_start : Bool → Tune → Tune
  back_to_start ok tune = record {
    window_wanted = if ok then tune.window_wanted else start_window;
    tuner = tune.tuner;
    begun = tune.begun;
    preparing = tune.preparing;
    jit = tune.jit;
    switch_to = tune.switch_to;
  }

  abbrev pub switched_with : ℕ → Bool → Option (Tuner float) → Tune → Tune × List Effect
  switched_with window ok none tune = (tune, [])
  switched_with window ok (some t) tune =
      act_after (back_to_start ok tune) (switched float t window ok)

  unfoldable pub tune_switched : ℕ → Bool → Tune → Tune × List Effect
  unfolding act
  tune_switched window ok tune = switched_with window ok tune.tuner tune

  -- What the worker passes to the tuning: a launch that came back, and how a switch that was asked
  -- for went (`switch_to.take()`, then `switched`).
  pub data Report : Type 0 where
    launch : (window hashes busy : ℕ) (running : Bool) → Report
    switch_made : Bool → Report

  abbrev pub switch_taken : Tune → Tune
  switch_taken tune = record {
    window_wanted = tune.window_wanted;
    tuner = tune.tuner;
    begun = tune.begun;
    preparing = tune.preparing;
    jit = tune.jit;
    switch_to = none;
  }

  abbrev pub make_switch : Option ℕ → Bool → Tune → Tune × List Effect
  make_switch none ok tune = (tune, [])
  make_switch (some window) ok tune = tune_switched window ok (switch_taken tune)

  abbrev pub report : Tune → Report → Tune × List Effect
  report tune (launch window hashes busy running) = tune_launched window hashes busy running tune
  report tune (switch_made ok) = make_switch tune.switch_to ok tune

  -- The tuning after a sequence of reports, and all it did.
  unfoldable pub reports : Tune → List Report → Tune × List Effect
  reports tune [] = (tune, [])
  reports tune (r ∷ rs) =
      let one = report tune r in let rest = reports one.0 rs in (rest.0, one.1 ++ rest.1)
