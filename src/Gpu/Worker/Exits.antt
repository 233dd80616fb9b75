-- ===== src/Gpu/Worker/Exits.antt =====
-- The card's slot and claims over all rounds of its worker, its exits included.
use bc3_online_miner.Common.{
  ℕ, ◌+◌, Bool, true, false, ◌&&◌, Option, none, some, List, [], ◌∷◌, ◌≡◌, refl, ◌∙◌, arith, ltb,
  if_either, All, Float,
}
use bc3_online_miner.Consensus.Pow.{PowAlgo, sha256d, sha3t, bc3_hash, algo_eq}
use bc3_online_miner.Shared.Claims.{Gpus, set, store}
use bc3_online_miner.Shared.Gate.{check}
use bc3_online_miner.Gpu.Run.{JobEnd, changed, exhausted, device_gone}
use bc3_online_miner.Gpu.Worker.{
  Backend, PreparesWindow, Caps, claim, drop_caps, max_reopens, State, Round, make_ready, Did, Next,
  goes, stops, after_mining, at_end, open_again, past_gate, gated, can_mine, woken, with_gate,
  round, run_gpu_worker, opened, mined, then_run,
}
use bc3_online_miner.Gpu.Worker.Slot.{
  set-held, SlotSays, nothing, unusable, in_use, IsSound, make_ready-Ready,
}

-- What is not held is not held after another claim is withdrawn.
set-false :
    (a b : PowAlgo) (slot now : ℕ) (caps : Caps)
    → caps.0 a ≡ false
    → (set b false slot now caps).0 a ≡ false
unfolding set store algo_eq
set-false a sha256d slot now caps h = ground arith
set-false a sha3t slot now caps h = ground arith
set-false a bc3_hash slot now caps h = ground arith

drop_caps-false : (slot now : ℕ) (caps : Caps) (a : PowAlgo) → (drop_caps slot now caps).0 a ≡ false
unfolding drop_caps claim
drop_caps-false slot now caps sha256d =
    set-false sha256d bc3_hash slot now _
      (set-false sha256d sha3t slot now _ (set-held sha256d false slot now caps))
drop_caps-false slot now caps sha3t =
    set-false sha3t bc3_hash slot now _ (set-held sha3t false slot now _)
drop_caps-false slot now caps bc3_hash = set-held bc3_hash false slot now _

module _ (float : Float) (backend : Backend) (slot : ℕ) where
  open backend use {Device}

  -- Mining leaves the kernel of the device in place.
  abbrev pub KeepsKernel : Round float backend slot → Type 0
  KeepsKernel r =
      (d : Device) → backend.bc3hash_window (r.mining.device_after d) ≡ backend.bc3hash_window d

  -- A worker that goes on has a slot that tells the truth; one that ends holds nothing.
  abbrev pub NextSound : Next float backend slot → Type 0
  NextSound (goes did s) = IsSound float backend slot s
  NextSound (stops did reason caps) = (a : PowAlgo) → caps.0 a ≡ false

  mined-Says :
      (r : Round float backend slot) (device : Device) (value : ℕ) (failed : Option ℕ)
      → KeepsKernel r
      → SlotSays float backend slot device value failed
      → SlotSays float backend slot (r.mining.device_after device) value failed
  mined-Says r device value failed keeps (nothing e) = nothing e
  mined-Says r device value failed keeps (unusable w e f) = unusable w e f
  mined-Says r device value failed keeps (in_use e) = in_use (keeps device ∙ e)

  open_again-Sound :
      (r : Round float backend slot) (did : Did float backend slot) (s : State float backend slot)
      (n : ℕ) (device : Option Device)
      → NextSound (open_again float backend slot r did s n device)
  open_again-Sound r did s n none = drop_caps-false slot r.now _
  open_again-Sound r did s n (some device) = (nothing refl, tt)

  at_end-Sound :
      (r : Round float backend slot) (did : Did float backend slot) (end : JobEnd)
      (s : State float backend slot)
      → IsSound float backend slot s
      → NextSound (at_end float backend slot r did end s)
  at_end-Sound r did changed s h = h
  at_end-Sound r did exhausted s h = h
  at_end-Sound r did device_gone s h =
      if_either NextSound (ltb max_reopens (s.reopens + 1)) (drop_caps-false slot r.now s.caps)
        (open_again-Sound r did s (s.reopens + 1) r.reopened)

  past_gate-Sound :
      (r : Round float backend slot) (s : State float backend slot) (passed : Option PowAlgo)
      → KeepsKernel r
      → IsSound float backend slot s
      → NextSound (past_gate float backend slot r s passed)
  past_gate-Sound r s none keeps h = h
  past_gate-Sound r s (some algo) keeps h =
      at_end-Sound r (mined algo s.device r.mining.end) r.mining.end
        (after_mining float backend slot r.mining s)
        (mined-Says r s.device s.slot_bc3 s.failed keeps h.0, h.1)

  gated-Sound :
      (r : Round float backend slot) (s : State float backend slot)
      → KeepsKernel r
      → IsSound float backend slot s
      → NextSound (gated float backend slot r s)
  gated-Sound r s keeps h =
      let c = check s.gate r.algo true (can_mine float backend slot r s) in
      past_gate-Sound r (with_gate float backend slot s c.gate) c.passed keeps h

  round-Sound :
      (r : Round float backend slot) (s : State float backend slot)
      → PreparesWindow backend
      → KeepsKernel r
      → IsSound float backend slot s
      → NextSound (round float backend slot s r)
  unfolding round
  round-Sound r s law keeps h =
      let ready = make_ready float backend slot r (woken float backend slot s) in
      if_either NextSound (algo_eq r.algo bc3_hash && backend.has_kernel s.device bc3_hash)
        (gated-Sound r ready keeps
          (make_ready-Ready float backend slot law r (woken float backend slot s) h).0)
        (gated-Sound r (woken float backend slot s) keeps h)

  then-Sound :
      (next : Next float backend slot) (f : State float backend slot → Next float backend slot)
      → NextSound next
      → ((s : State float backend slot) → IsSound float backend slot s → NextSound (f s))
      → NextSound (then_run float backend slot next f)
  then-Sound (goes did s) f h k = k s h
  then-Sound (stops did reason caps) f h k = h

  run-Sound :
      (rs : List (Round float backend slot)) (s : State float backend slot)
      → PreparesWindow backend
      → All KeepsKernel rs
      → IsSound float backend slot s
      → NextSound (run_gpu_worker float backend slot s rs)
  unfolding run_gpu_worker
  run-Sound [] s law keeps h = h
  run-Sound (r ∷ rs) s law keeps h =
      then-Sound (round float backend slot s r) (λ s'. run_gpu_worker float backend slot s' rs)
        (round-Sound r s law keeps.0 h) (λ s' h'. run-Sound rs s' law keeps.1 h')

  -- A worker of a card whose kernel is the one it was last made ready for, and that mining leaves
  -- alone, from the device's opening on, over any jobs, ends of mining, failed preparations,
  -- switches and reopenings: as long as it goes on, its slot says nothing, or the window of the
  -- kernel in use, or that a window failed that the worker has on record, and with a failed window
  -- on record it does not hold BC3Hash; once it has stopped, for good or for a device that did not
  -- reopen, it holds no claim at all.
  pub run_gpu_worker-Sound :
      (rs : List (Round float backend slot)) (shared_window now : ℕ) (cpu_may : PowAlgo → Bool)
      (gpus : Gpus) (device : Device)
      → PreparesWindow backend
      → All KeepsKernel rs
      → NextSound (
          run_gpu_worker float backend slot
            (opened float backend slot shared_window cpu_may now gpus device)
            rs)
  run_gpu_worker-Sound rs shared_window now cpu_may gpus device law keeps =
      run-Sound rs _ law keeps (nothing refl, tt)
