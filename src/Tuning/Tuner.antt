-- ===== src/Tuning/Tuner.antt =====
-- src/tuning.rs: `Choice`, `Action`, `Phase`, `Rate` and `Tuner`. A `Duration` is a number of
-- nanoseconds; `f64` is a parameter.
pub mod Windows
pub mod Progress
use bc3_online_miner.Common.{
  ℕ, zero, suc, ◌+◌, ◌*◌, ◌/◌, ◌%◌, ◌^◌, Bool, true, false, ◌&&◌, Option, none, some, List, [], ◌∷◌,
  leb, ltb, ◌==◌, if◌then◌else◌, Float,
}
use bc3_online_miner.Tuning.Layout.{bigger, start_window}

abbrev pub secs : ℕ → ℕ
secs n = n * 10 ^ 9

abbrev pub measure : ℕ
measure = secs 60

abbrev pub warm_up_time : ℕ
warm_up_time = secs 90

abbrev pub settle_time : ℕ
settle_time = secs 30

-- The windows of `bigger` below the one that fits.
unfoldable pub below : ℕ → List ℕ → List ℕ
below fitting [] = []
below fitting (w ∷ ws) = if ltb w fitting then w ∷ below fitting ws else below fitting ws

-- What the worker reports to the tuner.
pub data Event : Type 0 where
  launch : (window hashes busy : ℕ) → Event
  target_ready : Event
  switch_over : (window : ℕ) → Bool → Event

module _ (float : Float) where
  open float use {F64, of_nat, add, sub, mul, div, abs, fmax, flt, fle}

  abbrev pub min_gain : F64
  min_gain = div (of_nat 5) (of_nat 1000)

  abbrev pub max_drift : F64
  max_drift = div (of_nat 5) (of_nat 100)

  pub record Choice : Type 0 where
    pub window : ℕ
    pub start_rate : F64
    pub tried : ℕ
    pub tried_rate : F64

  pub data Action : Type 0 where
    wait : Action
    build : ℕ → Action
    switch : ℕ → Action
    done : Choice → Bool → Action

  pub record Rate : Type 0 where
    pub hashes : ℕ
    pub busy : ℕ

  pub data Phase : Type 0 where
    warm_up : ℕ → Phase
    measure_start : Rate → Phase
    settle : F64 → ℕ → Phase
    measure_target : F64 → Rate → Phase
    settle_back : F64 → F64 → ℕ → Phase
    measure_back : F64 → F64 → Rate → Phase
    return : Choice → Bool → Phase
    recalled : ℕ → Phase
    finished : Phase

  abbrev pub no_rate : Rate
  no_rate = record { hashes = 0; busy = 0 }

  -- `Rate::add`
  abbrev pub add_launch : Rate → ℕ → ℕ → Rate
  add_launch rate hashes busy = record { hashes = rate.hashes + hashes; busy = rate.busy + busy }

  -- `Duration::as_secs_f64`
  unfoldable as_secs : ℕ → F64
  as_secs d = add (of_nat (d / 10 ^ 9)) (div (of_nat (d % 10 ^ 9)) (of_nat (10 ^ 9)))

  unfoldable pub per_second : Rate → F64
  unfolding as_secs
  per_second rate =
      div (of_nat rate.hashes) (fmax (as_secs rate.busy) (div (of_nat 1) (of_nat (10 ^ 9))))

  pub record Tuner : Type 0 where
    pub target : ℕ
    pub fallback : List ℕ
    pub ready : Bool
    pub phase : Phase

  abbrev pub in_phase : Tuner → Phase → Tuner
  in_phase t phase = record {
    target = t.target;
    fallback = t.fallback;
    ready = t.ready;
    phase = phase;
  }

  abbrev pub recall : ℕ → Choice → Option (Tuner × Action)
  recall fitting c =
      if ltb start_window c.window && leb c.window fitting
      then some (
        record { target = c.window; fallback = []; ready = false; phase = recalled c.window },
        build c.window,
      )
      else none

  unfoldable pub start : Option ℕ → Option Choice → Option (Tuner × Action)
  unfolding below
  start none choice = none
  start (some fitting) (some c) = recall fitting c
  start (some fitting) none = some (
    record { target = fitting; fallback = below fitting bigger; ready = false; phase = warm_up 0 },
    build fitting,
  )

  -- The choice when the start window has been measured a second time, and whether it is kept.
  abbrev pub start_rate_of : F64 → F64 → F64
  start_rate_of before after = div (add before after) (of_nat 2)

  abbrev pub faster : F64 → F64 → Bool
  faster start_rate tried = flt (mul start_rate (add (of_nat 1) min_gain)) tried

  abbrev pub chosen : Tuner → F64 → F64 → Choice
  chosen t start_rate tried = record {
    window = if faster start_rate tried then t.target else start_window;
    start_rate = start_rate;
    tried = t.target;
    tried_rate = tried;
  }

  abbrev pub steady : F64 → F64 → F64 → Bool
  steady before after start_rate = fle (abs (sub before after)) (mul start_rate max_drift)

  abbrev pub decide : Tuner → F64 → F64 → F64 → Tuner × Action
  decide t before tried after =
      let start_rate = start_rate_of before after in
      let remember = steady before after start_rate in
      let choice = chosen t start_rate tried in
      if faster start_rate tried
      then (in_phase t (return choice remember), switch t.target)
      else (in_phase t finished, done choice remember)

  -- The branches of `launched` once the window is the one the phase expects.
  abbrev pub counted : Phase → Tuner → ℕ → ℕ → Tuner × Action
  counted (warm_up mined) t hashes busy =
      if leb warm_up_time (mined + busy)
      then (in_phase t (measure_start no_rate), wait)
      else (in_phase t (warm_up (mined + busy)), wait)
  counted (measure_start rate) t hashes busy =
      let rate' = add_launch rate hashes busy in
      if ltb rate'.busy measure
      then (in_phase t (measure_start rate'), wait)
      else (in_phase t (settle (per_second rate') 0), switch t.target)
  counted (settle before mined) t hashes busy =
      if leb settle_time (mined + busy)
      then (in_phase t (measure_target before no_rate), wait)
      else (in_phase t (settle before (mined + busy)), wait)
  counted (measure_target before rate) t hashes busy =
      let rate' = add_launch rate hashes busy in
      if ltb rate'.busy measure
      then (in_phase t (measure_target before rate'), wait)
      else (in_phase t (settle_back before (per_second rate') 0), switch start_window)
  counted (settle_back before tried mined) t hashes busy =
      if leb settle_time (mined + busy)
      then (in_phase t (measure_back before tried no_rate), wait)
      else (in_phase t (settle_back before tried (mined + busy)), wait)
  counted (measure_back before tried rate) t hashes busy =
      let rate' = add_launch rate hashes busy in
      if ltb rate'.busy measure
      then (in_phase t (measure_back before tried rate'), wait)
      else decide t before tried (per_second rate')
  counted (return choice remember) t hashes busy = (t, wait)
  counted (recalled window) t hashes busy = (t, wait)
  counted finished t hashes busy = (t, wait)

  -- The guards of `launched`.
  unfoldable pub expects : Phase → Tuner → ℕ → Bool
  expects (warm_up mined) t window = (window == start_window) && t.ready
  expects (measure_start rate) t window = window == start_window
  expects (settle before mined) t window = window == t.target
  expects (measure_target before rate) t window = window == t.target
  expects (settle_back before tried mined) t window = window == start_window
  expects (measure_back before tried rate) t window = window == start_window
  expects (return choice remember) t window = false
  expects (recalled window') t window = false
  expects finished t window = false

  unfoldable pub launched : Tuner → ℕ → ℕ → ℕ → Tuner × Action
  unfolding expects per_second
  launched t window hashes busy =
      if expects t.phase t window then counted t.phase t hashes busy else (t, wait)

  abbrev pub to_recalled : Phase → Action
  to_recalled (recalled window) = switch window
  to_recalled _ = wait

  unfoldable pub get_ready : Tuner → Tuner × Action
  get_ready t = (
    record { target = t.target; fallback = t.fallback; ready = true; phase = t.phase },
    to_recalled t.phase,
  )

  abbrev pub unmeasured : ℕ → ℕ → Choice
  unmeasured window tried = record {
    window = window;
    start_rate = of_nat 0;
    tried = tried;
    tried_rate = of_nat 0;
  }

  abbrev pub succeeded : Phase → Tuner → ℕ → Tuner × Action
  succeeded (return choice remember) t window =
      if window == t.target then (in_phase t finished, done choice remember) else (t, wait)
  succeeded (recalled _) t window = (in_phase t finished, done (unmeasured window window) false)
  succeeded _ t window = (t, wait)

  -- A failure with no smaller window to try.
  abbrev pub gives_up : Tuner → ℕ → Tuner × Action
  gives_up t window =
      if window == start_window
      then (in_phase t finished, done (unmeasured start_window t.target) false)
      else (in_phase t finished, done (unmeasured start_window window) true)

  abbrev pub settle_at : F64 → List ℕ → Tuner → ℕ → Tuner × Action
  settle_at before [] t window = gives_up t window
  settle_at before (w ∷ ws) t window =
      (record { target = w; fallback = ws; ready = t.ready; phase = settle before 0 }, switch w)

  abbrev pub failed : Phase → Tuner → ℕ → Tuner × Action
  failed (settle before mined) t window =
      if window == t.target then settle_at before t.fallback t window else gives_up t window
  failed _ t window = gives_up t window

  unfoldable pub switched : Tuner → ℕ → Bool → Tuner × Action
  switched t window ok = if ok then succeeded t.phase t window else failed t.phase t window

  -- One report, and the actions asked for along a sequence of them.
  abbrev pub step : Tuner → Event → Tuner × Action
  step t (launch window hashes busy) = launched t window hashes busy
  step t target_ready = get_ready t
  step t (switch_over window ok) = switched t window ok

  unfoldable pub actions : Tuner → List Event → List Action
  actions t [] = []
  actions t (e ∷ es) = let r = step t e in r.1 ∷ actions r.0 es
