-- ===== src/Gpu/Worker/Slot.antt =====
-- What the card's slot, the worker's record of a failed window and its claim say of the device.
use bc3_online_miner.Common.{
  ℕ, zero, suc, ◌+◌, Bool, true, false, not, ◌||◌, Option, none, some, ◌≡◌, refl, sym, ap, ◌∙◌,
  subst, arith, if_either, if_cases, Float,
}
use bc3_online_miner.Consensus.Pow.{PowAlgo, sha256d, sha3t, bc3_hash, algo_eq}
use bc3_online_miner.Shared.Claims.{set, store}
use bc3_online_miner.Tuning.Layout.{start_window, table_bytes, largest_fitting}
use bc3_online_miner.Tuning.Tuner
use bc3_online_miner.Tuning.Tuner.{Tuner, Choice, Action, start}
use bc3_online_miner.Gpu.Tune.{
  Tune, Card, want, begin, begin_on, begin_with, first_action, is_set, at_start_window,
}
use bc3_online_miner.Gpu.Worker.{
  Backend, PreparesWindow, Caps, is_window, bc3_slot_failed, State, Round, switch_bc3, switch_once,
  switch_all, prepare_bc3, is_unusable, fallbacks, begin_tuning, make_ready,
}

-- After `set` a worker holds what was set.
pub set-held :
    (algo : PowAlgo) (capable : Bool) (slot now : ℕ) (caps : Caps)
    → (set algo capable slot now caps).0 algo ≡ capable
unfolding set store algo_eq
set-held sha256d capable slot now caps = ground arith
set-held sha3t capable slot now caps = ground arith
set-held bc3_hash capable slot now caps = ground arith

is_window-eq : (o : Option ℕ) (w : ℕ) → is_window o w ≡ true → o ≡ some w
is_window-eq none w h = cc
is_window-eq (some x) w h = ap some (ground arith)

module _ (float : Float) (backend : Backend) (slot : ℕ) where
  open backend use {Device}

  -- What the entry of `gpu_slot_bc3` says: nothing, that the window last tried is unusable, or the
  -- window of the kernel in use.
  pub data SlotSays (device : Device) (value : ℕ) (failed : Option ℕ) : Type 0 where
    nothing : value ≡ 0 → SlotSays device value failed
    unusable : (w : ℕ) → value ≡ bc3_slot_failed → failed ≡ some w → SlotSays device value failed
    in_use : backend.bc3hash_window device ≡ some value → SlotSays device value failed

  -- With a failed window on record the card does not hold BC3Hash.
  abbrev pub Withdrawn : Option ℕ → Caps → Type 0
  Withdrawn none caps = Unit
  Withdrawn (some w) caps = caps.0 bc3_hash ≡ false

  abbrev pub IsSound : State float backend slot → Type 0
  IsSound s = SlotSays s.device s.slot_bc3 s.failed × Withdrawn s.failed s.caps

  -- The card's kernel is at the window, as its slot says; or the window is on record as failed, the
  -- slot says so, and BC3Hash is left to others.
  pub data Ready (s : State float backend slot) (window : ℕ) : Type 0 where
    at_window : backend.bc3hash_window s.device ≡ some window → s.slot_bc3 ≡ window → Ready s window
    handed_over :
        s.failed ≡ some window
        → s.slot_bc3 ≡ bc3_slot_failed
        → s.caps.0 bc3_hash ≡ false
        → Ready s window

  Withdrawn-held :
      (failed : Option ℕ) (caps : Caps) (w : ℕ)
      → failed ≡ some w
      → Withdrawn failed caps
      → caps.0 bc3_hash ≡ false
  Withdrawn-held none caps w e h = cc
  Withdrawn-held (some x) caps w e h = h

  module _ (law : PreparesWindow backend) where
    switch_bc3-Says :
        (window : ℕ) (device : Device) (value : ℕ) (failed : Option ℕ)
        → SlotSays device value failed
        → let r = switch_bc3 float backend slot window device value in SlotSays r.0 r.1 failed
    unfolding switch_bc3
    switch_bc3-Says window device value failed h =
        if_cases (λ (r : Device × ℕ × Bool). SlotSays r.0 r.1 failed)
          (is_window (backend.bc3hash_window device) window) (λ _. h)
          (λ _.
            if_cases (λ v. SlotSays (backend.prepare window device).0 v failed)
              (backend.prepare window device).1 (λ ok. in_use (law window device ok))
              (λ _. nothing refl))

    switch_once-Sound :
        (w : Option ℕ) (s : State float backend slot)
        → IsSound s
        → IsSound (switch_once float backend slot w s)
    switch_once-Sound none s h = h
    switch_once-Sound (some w) s h = (switch_bc3-Says w s.device s.slot_bc3 s.failed h.0, h.1)

    switch_all-Sound :
        (fuel : ℕ) (s : State float backend slot)
        → IsSound s
        → IsSound (switch_all float backend slot fuel s)
    unfolding switch_all
    switch_all-Sound zero s h = h
    switch_all-Sound (suc fuel) s h =
        switch_all-Sound fuel _ (switch_once-Sound s.tune.switch_to s h)

    abbrev Prepared : Tune float → ℕ → State float backend slot → Type 0
    Prepared tune window s = IsSound s × Ready s window × (s.tune ≡ tune)

    unusable-Prepared :
        (s : State float backend slot) (device : Device) (window now : ℕ)
        → Prepared s.tune window (is_unusable float backend slot s device window now)
    unusable-Prepared s device window now =
        let withdrawn = set-held bc3_hash false slot now s.caps in
        ((unusable window refl refl, withdrawn), handed_over refl refl withdrawn, refl)

    prepare_bc3-Prepared :
        (cpu_ready : Bool) (window now : ℕ) (s : State float backend slot)
        → IsSound s
        → Prepared s.tune window (prepare_bc3 float backend slot cpu_ready window now s)
    unfolding prepare_bc3
    prepare_bc3-Prepared cpu_ready window now s h =
        if_cases (Prepared s.tune window) (is_window (backend.bc3hash_window s.device) window)
          (λ here.
            let at = is_window-eq (backend.bc3hash_window s.device) window here in
            ((in_use at, h.1), at_window at refl, refl))
          (λ _.
            if_cases (Prepared s.tune window) (is_window s.failed window)
              (λ known.
                let failed = is_window-eq s.failed window known in
                (
                  (unusable window refl failed, h.1),
                  handed_over failed refl (Withdrawn-held s.failed s.caps window failed h.1),
                  refl,
                ))
              (λ _.
                if_cases (Prepared s.tune window) (not cpu_ready)
                  (λ _. unusable-Prepared s s.device window now)
                  (λ _.
                    if_cases (Prepared s.tune window) (backend.prepare window s.device).1
                      (λ ok.
                        let at = law window s.device ok in
                        ((in_use at, tt), at_window at refl, refl))
                      (λ _. unusable-Prepared s (backend.prepare window s.device).0 window now))))

  module _ (card : Card float) (tune : Tune float) where
    first-wanted :
        (t : Tuner float) (a : Action float)
        → (first_action float tune card t a).0.window_wanted ≡ tune.window_wanted
    first-wanted t Tuner.wait = refl
    first-wanted t (Tuner.build w) = refl
    first-wanted t (Tuner.switch w) = refl
    first-wanted t (Tuner.done choice keep) = refl

    begun-wanted :
        (r : Option (Tuner float × Action float))
        → (begin_with float tune card r).0.window_wanted ≡ tune.window_wanted
    begun-wanted none = refl
    begun-wanted (some r) = first-wanted r.0 r.1

    begin_on-wanted :
        (memory : Option (ℕ × ℕ))
        → (begin_on float tune card memory).0.window_wanted ≡ tune.window_wanted
    begin_on-wanted none = refl
    begin_on-wanted (some memory) =
        begun-wanted
          (start float (largest_fitting (memory.0 + table_bytes start_window)) card.recalled)

    begin-want :
        (by_hand : Option ℕ)
        → want float tune by_hand ≡ want float (begin float by_hand card tune).0 by_hand
    unfolding want begin
    begin-want (some w) = refl
    begin-want none =
        if_either (λ (r : Tune float × _). tune.window_wanted ≡ r.0.window_wanted)
          (tune.begun || (is_set float none) || not (at_start_window float card.bc3hash_window))
          refl (sym (begin_on-wanted card.memory))

  module _ (law : PreparesWindow backend) where
    begun-Ready :
        (r : Round float backend slot) (s : State float backend slot) (window : ℕ)
        → Ready s window
        → Ready (begin_tuning float backend slot r s) window
    begun-Ready r s window (at_window w v) = at_window w v
    begun-Ready r s window (handed_over f v c) = handed_over f v c

    -- For a job that the device has a BC3Hash kernel for, when the slot's entry is true and a
    -- failed window goes with a withdrawn claim: when the loop comes to its gate, the card's kernel
    -- is at the window the tuning - or the window set by hand - wants, and the slot says so; or
    -- that window is on record as failed, the slot says that, and the card no longer holds
    -- BC3Hash, so that the CPU threads take it over. The device's kernel is at a window that it
    -- was made ready for.
    pub make_ready-Ready :
        (r : Round float backend slot) (s : State float backend slot)
        → IsSound s
        → let s' = make_ready float backend slot r s in
          IsSound s' × Ready s' (want float s'.tune r.by_hand)
    unfolding make_ready
    make_ready-Ready r s h =
        let fuel = suc (fallbacks float backend slot s.tune.tuner) in
        let switched = switch_all float backend slot fuel s in
        let window = want float switched.tune r.by_hand in
        let prepared = prepare_bc3 float backend slot r.cpu_ready window r.now switched in
        let (sound, ready, same) =
          prepare_bc3-Prepared law r.cpu_ready window r.now switched
            (switch_all-Sound law fuel s h) in
        let wanted : window
            ≡ want float (begin_tuning float backend slot r prepared).tune r.by_hand =
          ap (λ t. want float t r.by_hand) (sym same) ∙ begin-want _ prepared.tune r.by_hand in
        (
          sound,
          subst (Ready (begin_tuning float backend slot r prepared)) wanted
              (begun-Ready r prepared window ready),
        )
