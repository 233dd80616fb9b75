-- ===== src/Gpu/Worker.antt =====
-- src/gpu_worker.rs: `run_gpu_worker`, the outer loop of one card's worker, with `switch_bc3` and
-- `prepare_bc3`; of src/shared.rs the drop of `GpuCapability`. The device is a parameter with the
-- operations of `MiningBackend`; what `mine_job` (Gpu/Run) returns is part of a round's input, as
-- are the job and whether the device reopens.
pub mod Slot
pub mod Exits
mod Examples
pub mod Switches
pub mod Reopens
use bc3_online_miner.Common.{
  ℕ, zero, suc, ◌+◌, Bool, true, false, not, ◌&&◌, ◌||◌, Option, none, some, List, [], ◌∷◌, ◌≡◌,
  ltb, length, ◌==◌, if◌then◌else◌, Float,
}
use bc3_online_miner.Consensus.Pow.{PowAlgo, sha256d, sha3t, bc3_hash, algo_eq}
use bc3_online_miner.Shared.Claims.{Gpus, set}
use bc3_online_miner.Shared.Gate.{AlgoGate, Checked, check, open_gate}
use bc3_online_miner.Tuning.Tuner.{Tuner, Choice}
use bc3_online_miner.Gpu.Run.{JobEnd, changed, exhausted, device_gone}
use bc3_online_miner.Gpu.Tune.{
  Tune, Card, Report, want, begin, tune_switched, switch_taken, reports, new_tune,
}

abbrev pub max_reopens : ℕ
max_reopens = 5

abbrev pub bc3_slot_failed : ℕ
bc3_slot_failed = 1

-- The operations of `MiningBackend` that the loop calls; `prepare` is `prepare_bc3hash` and whether
-- it was `Ok`, `compiles_ahead` whether `compile_bc3hash_ahead` has something to wait for.
pub record Backend : Type 1 where
  pub Device : Type 0
  pub has_kernel : Device → PowAlgo → Bool
  pub supports : Device → PowAlgo → Bool
  pub bc3hash_window : Device → Option ℕ
  pub memory : Device → Option (ℕ × ℕ)
  pub compiles_ahead : Device → Bool
  pub prepare : ℕ → Device → Device × Bool

-- A kernel that was made ready is the one in use.
abbrev pub PreparesWindow : Backend → Type 0
PreparesWindow backend =
    (window : ℕ) (d : backend.Device)
    → (backend.prepare window d).1 ≡ true
    → backend.bc3hash_window (backend.prepare window d).0 ≡ some window

abbrev pub Caps : Type 0
Caps = (PowAlgo → Bool) × Gpus

abbrev pub is_window : Option ℕ → ℕ → Bool
is_window none window = false
is_window (some w) window = w == window

-- `claim`: what the card can mine as far as anyone can tell.
unfoldable pub claim : (PowAlgo → Bool) → ℕ → ℕ → Caps → Caps
claim mines slot now caps =
    set bc3_hash (mines bc3_hash) slot now
      (set sha3t (mines sha3t) slot now (set sha256d (mines sha256d) slot now caps))

-- `drop` of `GpuCapability`
unfoldable pub drop_caps : ℕ → ℕ → Caps → Caps
unfolding claim
drop_caps slot now caps = claim (λ _. false) slot now caps

module _ (float : Float) (backend : Backend) (slot : ℕ) where
  open backend use {Device}

  -- What the loop changes; `slot_bc3` is the card's entry of `gpu_slot_bc3`.
  pub record State : Type 0 where
    pub device : Device
    pub tune : Tune float
    pub caps : Caps
    pub slot_bc3 : ℕ
    pub failed : Option ℕ
    pub gate : AlgoGate
    pub sat_out : Option ℕ
    pub reopens : ℕ

  -- What `mine_job` did: how it ended, the launches collected, the device after it, and what the
  -- tuning was told.
  pub record Mining : Type 0 where
    pub end : JobEnd
    pub collected : ℕ
    pub device_after : Device → Device
    pub told : List (Report float)

  -- The input of one round: the job, whether the CPU has each hash (`hash_fn`), may have it
  -- (`cpu_may_support`) and has BC3Hash after waiting, the window set by hand, the choice on file,
  -- the clock, and what mining and reopening would do.
  pub record Round : Type 0 where
    pub algo : PowAlgo
    pub generation : ℕ
    pub has_hash_fn : PowAlgo → Bool
    pub cpu_may : PowAlgo → Bool
    pub cpu_ready : Bool
    pub by_hand : Option ℕ
    pub recalled : Option (Choice float)
    pub now : ℕ
    pub mining : Mining
    pub reopened : Option Device

  -- `switch_bc3`: the device, the slot's entry, and whether the card is at the window.
  unfoldable pub switch_bc3 : ℕ → Device → ℕ → Device × ℕ × Bool
  switch_bc3 window device slot_bc3 =
      if is_window (backend.bc3hash_window device) window then (device, slot_bc3, true) else (
        (backend.prepare window device).0,
        (if (backend.prepare window device).1 then window else 0),
        (backend.prepare window device).1,
      )

  abbrev pub after_switch : State → Tune float → ℕ → State
  after_switch s tune window =
      let r = switch_bc3 window s.device s.slot_bc3 in
      record {
        device = r.0;
        tune = (tune_switched float window r.2 tune).0;
        caps = s.caps;
        slot_bc3 = r.1;
        failed = s.failed;
        gate = s.gate;
        sat_out = s.sat_out;
        reopens = s.reopens;
      }

  abbrev pub switch_once : Option ℕ → State → State
  switch_once none s = s
  switch_once (some window) s = after_switch s (switch_taken float s.tune) window

  -- `while let Some(window) = w.tune.switch_to.take()`, at most `fuel` times.
  unfoldable pub switch_all : ℕ → State → State
  unfolding switch_bc3
  switch_all zero s = s
  switch_all (suc fuel) s = switch_all fuel (switch_once s.tune.switch_to s)

  abbrev pub mark_slot : State → ℕ → State
  mark_slot s value = record {
    device = s.device;
    tune = s.tune;
    caps = s.caps;
    slot_bc3 = value;
    failed = s.failed;
    gate = s.gate;
    sat_out = s.sat_out;
    reopens = s.reopens;
  }

  abbrev pub is_ready : State → Device → ℕ → ℕ → State
  is_ready s device window now = record {
    device = device;
    tune = s.tune;
    caps = set bc3_hash true slot now s.caps;
    slot_bc3 = window;
    failed = none;
    gate = s.gate;
    sat_out = s.sat_out;
    reopens = s.reopens;
  }

  abbrev pub is_unusable : State → Device → ℕ → ℕ → State
  is_unusable s device window now = record {
    device = device;
    tune = s.tune;
    caps = set bc3_hash false slot now s.caps;
    slot_bc3 = bc3_slot_failed;
    failed = some window;
    gate = s.gate;
    sat_out = s.sat_out;
    reopens = s.reopens;
  }

  -- `prepare_bc3` for the window `window`
  unfoldable pub prepare_bc3 : Bool → ℕ → ℕ → State → State
  prepare_bc3 cpu_ready window now s =
      if is_window (backend.bc3hash_window s.device) window
      then mark_slot s window
      else if is_window s.failed window
      then mark_slot s bc3_slot_failed
      else if not cpu_ready
      then is_unusable s s.device window now
      else if (backend.prepare window s.device).1
      then is_ready s (backend.prepare window s.device).0 window now
      else is_unusable s (backend.prepare window s.device).0 window now

  abbrev pub fallbacks : Option (Tuner float) → ℕ
  fallbacks none = 0
  fallbacks (some t) = length t.fallback

  abbrev pub begin_tuning : Round → State → State
  begin_tuning r s =
      let card : Card float = record {
        bc3hash_window = backend.bc3hash_window s.device;
        memory = backend.memory s.device;
        compiles_ahead = backend.compiles_ahead s.device;
        recalled = r.recalled;
      } in
      record {
        device = s.device;
        tune = (begin float r.by_hand card s.tune).0;
        caps = s.caps;
        slot_bc3 = s.slot_bc3;
        failed = s.failed;
        gate = s.gate;
        sat_out = s.sat_out;
        reopens = s.reopens;
      }

  -- What the loop does before its gate, for a job the device has a BC3Hash kernel for; the switches
  -- asked for are at most those of the tuner's fallbacks and one more (Gpu/Worker/Switches).
  unfoldable pub make_ready : Round → State → State
  unfolding switch_all prepare_bc3
  make_ready r s =
      let switched = switch_all (suc (fallbacks s.tune.tuner)) s in
      begin_tuning r (prepare_bc3 r.cpu_ready (want float switched.tune r.by_hand) r.now switched)

  pub data Did : Type 0 where
    slept : Did
    mined : PowAlgo → Device → JobEnd → Did

  pub data Reason : Type 0 where
    gave_up not_reopened : Reason

  pub data Next : Type 0 where
    goes : Did → State → Next
    stops : Did → Reason → Caps → Next

  -- After `mine_job`: the tuning has been told of the launches, and a collected one clears the
  -- count of reopenings.
  abbrev pub after_mining : Mining → State → State
  after_mining m s = record {
    device = m.device_after s.device;
    tune = (reports float s.tune m.told).0;
    caps = s.caps;
    slot_bc3 = s.slot_bc3;
    failed = s.failed;
    gate = s.gate;
    sat_out = s.sat_out;
    reopens = if ltb 0 m.collected then 0 else s.reopens;
  }

  abbrev pub sits_out : ℕ → State → State
  sits_out generation s = record {
    device = s.device;
    tune = s.tune;
    caps = s.caps;
    slot_bc3 = s.slot_bc3;
    failed = s.failed;
    gate = s.gate;
    sat_out = some generation;
    reopens = s.reopens;
  }

  -- The device is gone for the `reopens`-th time, and opened again unless that was once too often.
  abbrev pub open_again : Round → Did → State → ℕ → Option Device → Next
  open_again r did s reopens none =
      stops did not_reopened (drop_caps slot r.now (set bc3_hash false slot r.now s.caps))
  open_again r did s reopens (some device) = goes did (record {
    device = device;
    tune = s.tune;
    caps =
        claim (λ a. backend.has_kernel device a && r.cpu_may a) slot r.now
          (set bc3_hash false slot r.now s.caps);
    slot_bc3 = 0;
    failed = none;
    gate = s.gate;
    sat_out = s.sat_out;
    reopens = reopens;
  })

  abbrev pub reopen : Round → Did → State → Next
  reopen r did s =
      if ltb max_reopens (s.reopens + 1)
      then stops did gave_up (drop_caps slot r.now s.caps)
      else open_again r did s (s.reopens + 1) r.reopened

  abbrev pub at_end : Round → Did → JobEnd → State → Next
  at_end r did changed s = goes did s
  at_end r did exhausted s = goes did (sits_out r.generation s)
  at_end r did device_gone s = reopen r did s

  abbrev pub with_gate : State → AlgoGate → State
  with_gate s gate = record {
    device = s.device;
    tune = s.tune;
    caps = s.caps;
    slot_bc3 = s.slot_bc3;
    failed = s.failed;
    gate = gate;
    sat_out = s.sat_out;
    reopens = s.reopens;
  }

  abbrev pub past_gate : Round → State → Option PowAlgo → Next
  past_gate r s none = goes slept (sits_out r.generation s)
  past_gate r s (some algo) =
      at_end r (mined algo s.device r.mining.end) r.mining.end (after_mining r.mining s)

  abbrev pub can_mine : Round → State → PowAlgo → Bool
  can_mine r s algo = backend.supports s.device algo && r.has_hash_fn algo

  abbrev pub gated : Round → State → Next
  gated r s =
      let c = check s.gate r.algo true (can_mine r s) in past_gate r (with_gate s c.gate) c.passed

  -- `sat_out.take()`: the job of the round is the one waited for.
  abbrev pub woken : State → State
  woken s = record {
    device = s.device;
    tune = s.tune;
    caps = s.caps;
    slot_bc3 = s.slot_bc3;
    failed = s.failed;
    gate = s.gate;
    sat_out = none;
    reopens = s.reopens;
  }

  unfoldable pub round : State → Round → Next
  unfolding make_ready check
  round s r =
      let ready = make_ready r (woken s) in
      if algo_eq r.algo bc3_hash && backend.has_kernel s.device bc3_hash
      then gated r ready
      else gated r (woken s)

  -- The worker once its device is open.
  abbrev pub opened : ℕ → (PowAlgo → Bool) → ℕ → Gpus → Device → State
  opened shared_window cpu_may now gpus device = record {
    device = device;
    tune = new_tune float shared_window;
    caps = claim (λ a. backend.has_kernel device a && cpu_may a) slot now (λ _. false, gpus);
    slot_bc3 = 0;
    failed = none;
    gate = open_gate;
    sat_out = none;
    reopens = 0;
  }

  -- A worker's rounds, as long as it goes on.
  abbrev pub then_run : Next → (State → Next) → Next
  then_run (goes did s) f = f s
  then_run (stops did reason caps) f = stops did reason caps

  unfoldable pub run_gpu_worker : State → List Round → Next
  unfolding round
  run_gpu_worker s [] = goes slept s
  run_gpu_worker s (r ∷ rs) = then_run (round s r) (λ next. run_gpu_worker next rs)
