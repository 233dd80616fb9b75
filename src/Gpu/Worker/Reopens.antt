-- ===== src/Gpu/Worker/Reopens.antt =====
-- How often a worker opens its device again.
use bc3_online_miner.Common.{
  ℕ, zero, suc, ◌+◌, ◌≤◌, Bool, true, not, ◌&&◌, Option, none, some, List, [], ◌∷◌, ◌≡◌, refl,
  subst, ◌∙◌, arith, ltb, ltb-false, if_either, if_cases, All, Float,
}
use bc3_online_miner.Consensus.Pow.{PowAlgo, bc3_hash, algo_eq}
use bc3_online_miner.Shared.Gate.{check}
use bc3_online_miner.Gpu.Run.{JobEnd, changed, exhausted, device_gone}
use bc3_online_miner.Gpu.Tune.{want}
use bc3_online_miner.Gpu.Worker.{
  Backend, max_reopens, State, Round, is_window, switch_once, switch_all, prepare_bc3, fallbacks,
  make_ready, Did, Next, goes, stops, after_mining, at_end, open_again, past_gate, gated, can_mine,
  woken, with_gate, round, run_gpu_worker, then_run, slept, mined,
}

module _ (float : Float) (backend : Backend) (slot : ℕ) where
  open backend use {Device}

  -- Rounds whose mining ended because the device was gone.
  abbrev pub gone_did : Did float backend slot → ℕ
  gone_did slept = 0
  gone_did (mined algo device changed) = 0
  gone_did (mined algo device exhausted) = 0
  gone_did (mined algo device device_gone) = 1

  abbrev pub gone_next : Next float backend slot → (State float backend slot → ℕ) → ℕ
  gone_next (goes did s) f = gone_did did + f s
  gone_next (stops did reason caps) f = gone_did did

  abbrev pub gone : State float backend slot → List (Round float backend slot) → ℕ
  gone s [] = 0
  gone s (r ∷ rs) = gone_next (round float backend slot s r) (λ next. gone next rs)

  -- A worker that goes on has counted `k` losses of its device, five at most.
  abbrev pub Counts : ℕ → Next float backend slot → Type 0
  Counts k (goes did s) = (s.reopens ≡ k) × (k ≤ max_reopens)
  Counts k (stops did reason caps) = k ≤ suc max_reopens

  abbrev CountsAfter : ℕ → Next float backend slot → Type 0
  CountsAfter k next = Counts (gone_next next (λ s. 0) + k) next

  abbrev SameCount : State float backend slot → State float backend slot → Type 0
  SameCount s s' = s'.reopens ≡ s.reopens

  switch_once-SameCount :
      (w : Option ℕ) (s : State float backend slot)
      → SameCount s (switch_once float backend slot w s)
  switch_once-SameCount none s = refl
  switch_once-SameCount (some w) s = refl

  switch_all-SameCount :
      (fuel : ℕ) (s : State float backend slot) → SameCount s (switch_all float backend slot fuel s)
  unfolding switch_all
  switch_all-SameCount zero s = refl
  switch_all-SameCount (suc fuel) s =
      switch_all-SameCount fuel _ ∙ switch_once-SameCount s.tune.switch_to s

  prepare_bc3-SameCount :
      (cpu_ready : Bool) (window now : ℕ) (s : State float backend slot)
      → SameCount s (prepare_bc3 float backend slot cpu_ready window now s)
  unfolding prepare_bc3
  prepare_bc3-SameCount cpu_ready window now s =
      if_either (SameCount s) (is_window (backend.bc3hash_window s.device) window) refl (
        if_either (SameCount s) (is_window s.failed window) refl (
          if_either (SameCount s) (not cpu_ready) refl
            (if_either (SameCount s) (backend.prepare window s.device).1 refl refl)))

  make_ready-SameCount :
      (r : Round float backend slot) (s : State float backend slot)
      → SameCount s (make_ready float backend slot r s)
  unfolding make_ready
  make_ready-SameCount r s =
      let fuel = suc (fallbacks float backend slot s.tune.tuner) in
      let switched = switch_all float backend slot fuel s in
      prepare_bc3-SameCount r.cpu_ready (want float switched.tune r.by_hand) r.now switched
      ∙ switch_all-SameCount fuel s

  -- No launch of the round came back.
  abbrev pub CollectsNone : Round float backend slot → Type 0
  CollectsNone r = r.mining.collected ≡ 0

  open_again-Counts :
      (r : Round float backend slot) (algo : PowAlgo) (d : Device) (s : State float backend slot)
      (n : ℕ) (device : Option Device)
      → n ≤ max_reopens
      → Counts n (open_again float backend slot r (mined algo d device_gone) s n device)
  open_again-Counts r algo d s n none h = omega arith
  open_again-Counts r algo d s n (some device) h = (refl, h)

  at_end-Counts :
      (r : Round float backend slot) (algo : PowAlgo) (d : Device) (end : JobEnd)
      (s : State float backend slot)
      → s.reopens ≤ max_reopens
      → CountsAfter s.reopens (at_end float backend slot r (mined algo d end) end s)
  at_end-Counts r algo d changed s h = (omega arith, omega arith)
  at_end-Counts r algo d exhausted s h = (omega arith, omega arith)
  at_end-Counts r algo d device_gone s h =
      if_cases (CountsAfter s.reopens) (ltb max_reopens (s.reopens + 1)) (λ e. omega arith)
        (λ e. open_again-CountsAfter s.reopens (s.reopens + 1) r.reopened (omega arith) (
          open_again-Counts r algo d s (s.reopens + 1) r.reopened
            (ltb-false max_reopens (s.reopens + 1) e)))
    where
      open_again-CountsAfter :
          (k n : ℕ) (device : Option Device)
          → n ≡ 1 + k
          → Counts n (open_again float backend slot r (mined algo d device_gone) s n device)
          → CountsAfter k (open_again float backend slot r (mined algo d device_gone) s n device)
      open_again-CountsAfter k n none e h = omega arith
      open_again-CountsAfter k n (some device) e h = (omega arith, omega arith)

  past_gate-Counts :
      (r : Round float backend slot) (s : State float backend slot) (passed : Option PowAlgo)
      → CollectsNone r
      → s.reopens ≤ max_reopens
      → CountsAfter s.reopens (past_gate float backend slot r s passed)
  past_gate-Counts r s none e h = (omega arith, omega arith)
  past_gate-Counts r s (some algo) e h =
      let after = after_mining float backend slot r.mining s in
      let same : after.reopens ≡ s.reopens = rw e refl in
      let next =
        at_end float backend slot r (mined algo s.device r.mining.end) r.mining.end after in
      subst (λ k. CountsAfter k next) same
        (at_end-Counts r algo s.device r.mining.end after (omega arith))

  gated-Counts :
      (r : Round float backend slot) (s : State float backend slot)
      → CollectsNone r
      → s.reopens ≤ max_reopens
      → CountsAfter s.reopens (gated float backend slot r s)
  gated-Counts r s e h =
      let c = check s.gate r.algo true (can_mine float backend slot r s) in
      past_gate-Counts r (with_gate float backend slot s c.gate) c.passed e h

  round-Counts :
      (r : Round float backend slot) (s : State float backend slot)
      → CollectsNone r
      → s.reopens ≤ max_reopens
      → CountsAfter s.reopens (round float backend slot s r)
  unfolding round
  round-Counts r s e h =
      let ready = make_ready float backend slot r (woken float backend slot s) in
      let same : ready.reopens ≡ s.reopens = make_ready-SameCount r (woken float backend slot s) in
      if_either (CountsAfter s.reopens)
        (algo_eq r.algo bc3_hash && backend.has_kernel s.device bc3_hash)
        (subst (λ k. CountsAfter k (gated float backend slot r ready)) same
          (gated-Counts r ready e (omega arith)))
        (gated-Counts r (woken float backend slot s) e h)

  then-Counts :
      (next : Next float backend slot) (f : State float backend slot → Next float backend slot)
      (g : State float backend slot → ℕ) (k : ℕ)
      → CountsAfter k next
      → ((s : State float backend slot) → s.reopens ≤ max_reopens → Counts (g s + s.reopens) (f s))
      → Counts (gone_next next g + k) (then_run float backend slot next f)
  then-Counts (goes did s) f g k h rest =
      let total : g s + s.reopens ≡ gone_did did + g s + k = omega arith in
      subst (λ n. Counts n (f s)) total (rest s (omega arith))
  then-Counts (stops did reason caps) f g k h rest = h

  -- A worker none of whose launches comes back, over any jobs, switches and ends of mining: while
  -- it goes on, its count of reopenings has grown by one for each time its device was gone, and is
  -- at most five; when it stops, the device has been gone six times at most. So the sixth loss in
  -- a row, whether the device opens again or not, ends the worker.
  pub run_gpu_worker-Counts :
      (rs : List (Round float backend slot)) (s : State float backend slot)
      → All CollectsNone rs
      → s.reopens ≤ max_reopens
      → Counts (gone s rs + s.reopens) (run_gpu_worker float backend slot s rs)
  unfolding run_gpu_worker
  run_gpu_worker-Counts [] s none_come h = (omega arith, omega arith)
  run_gpu_worker-Counts (r ∷ rs) s none_come h =
      then-Counts (round float backend slot s r) (λ next. run_gpu_worker float backend slot next rs)
        (λ next. gone next rs) s.reopens (round-Counts r s none_come.0 h)
        (λ next few. run_gpu_worker-Counts rs next none_come.1 few)
