-- ===== src/Worker/Thread/Lane.antt =====
-- The extranonce2 values that a CPU thread comes to.
use Prim.Native.String.{String}
use native.Mathlib.Nat.{add-mod_right, mod-eq_of_lt}
use bc3_online_miner.Common.{
  ℕ, zero, suc, ◌+◌, ◌*◌, ◌^◌, ◌%◌, ◌<◌, ◌≡◌, refl, sym, ◌∙◌, subst, arith, Bool, true, false,
  Option, none, some, List, [], ◌∷◌, ◌++◌, ◌==◌, ◌⊎◌, inl, inr, if_cases, if_either, All, u64_mod,
}
use bc3_online_miner.Consensus.Pow.{PowFn}
use bc3_online_miner.Shared.Job.{MinerJob, same_search_space}
use bc3_online_miner.Shared.Gate.{check, Checked}
use bc3_online_miner.Worker.Role.{CpuRole, takes, cpu_supports, start_on}
use bc3_online_miner.Worker.Extranonce.{resume_point, saturating_add, en2_fits, encode_extranonce2}
use bc3_online_miner.Consensus.Header.{serialize}
use bc3_online_miner.Worker.Mine.{
  Progress, Outcome, exhausted, interrupted, out_of_fuel, run_batch, sweep, mine_job, header_of,
}
use bc3_online_miner.Worker.Thread.{
  Thread, new_thread, JobRound, with_pow, hash_of, gate_kept, gate_taken, one_job, run_worker,
}

-- The counters of one of `num_threads` threads: its id, and steps of `num_threads` from there.
pub data InLane (thread_id num_threads : ℕ) : ℕ → Type 0 where
  at_start : InLane thread_id num_threads thread_id
  onward :
      {en2 : ℕ}
      → InLane thread_id num_threads en2
      → InLane thread_id num_threads (en2 + num_threads)

-- The counters of the job's extranonce2 fit 64 bits with a step to spare.
abbrev pub IsNarrow : ℕ → MinerJob → Type 0
IsNarrow num_threads job =
    (job.extranonce2_size < 8) × (2 ^ (8 * job.extranonce2_size) + num_threads < u64_mod)

module _ (hex_encode : List ℕ → String) (pow : PowFn) (job : MinerJob) (sha256 : List ℕ → List ℕ)
    (changed : ℕ → Bool) (batch num_threads : ℕ) where
  abbrev StaysOrSteps : ℕ → Progress → Type 0
  StaysOrSteps en2 p = (p.en2 ≡ en2) ⊎ (p.en2 ≡ en2 + num_threads)

  resumed :
      (en2 next : ℕ) (wrapped : Bool)
      → en2 + num_threads < u64_mod
      → let point = resume_point en2 next wrapped num_threads in
        (point.0 ≡ en2) ⊎ (point.0 ≡ en2 + num_threads)
  unfolding resume_point saturating_add
  resumed en2 next true room = inr (omega arith)
  resumed en2 next false room = inl refl

  sweep-StaysOrSteps :
      (fuel : ℕ) (extranonce2 header : List ℕ) (en2 nonce checks : ℕ)
      → en2 + num_threads < u64_mod
      → StaysOrSteps en2 (
          sweep hex_encode pow job sha256 changed batch num_threads fuel extranonce2 header en2
            nonce checks)
  unfolding sweep
  sweep-StaysOrSteps zero extranonce2 header en2 nonce checks room = inl refl
  sweep-StaysOrSteps (suc fuel) extranonce2 header en2 nonce checks room =
      let next = (run_batch hex_encode pow job extranonce2 header batch nonce).2 in
      if_either (StaysOrSteps en2) (changed checks) (resumed en2 next (next == 0) room) (
        if_either (StaysOrSteps en2) (next == 0) (inr (omega arith))
          (sweep-StaysOrSteps fuel extranonce2 header en2 next (checks + 1) room))

  fits_room :
      (en2 : ℕ)
      → IsNarrow num_threads job
      → en2_fits en2 job.extranonce2_size ≡ true
      → en2 + num_threads < u64_mod
  unfolding en2_fits
  fits_room en2 narrow h = ground (arith, narrow.0, narrow.1, h)

  module _ (thread_id : ℕ) where
    lane_on :
        (en2 : ℕ) (p : Progress)
        → InLane thread_id num_threads en2
        → StaysOrSteps en2 p
        → InLane thread_id num_threads p.en2
    lane_on en2 p lane (inl e) = subst (InLane thread_id num_threads) (sym e) lane
    lane_on en2 p lane (inr e) = subst (InLane thread_id num_threads) (sym e) (onward lane)

    mine_job-InLane :
        (fuel rounds en2 nonce checks : ℕ)
        → IsNarrow num_threads job
        → InLane thread_id num_threads en2
        → InLane thread_id num_threads
            (mine_job hex_encode pow job sha256 changed batch num_threads fuel rounds en2 nonce
              checks).en2
    unfolding mine_job
    mine_job-InLane fuel zero en2 nonce checks narrow lane = lane
    mine_job-InLane fuel (suc rounds) en2 nonce checks narrow lane =
        let extranonce2 = encode_extranonce2 en2 job.extranonce2_size in
        let header = serialize (header_of sha256 job extranonce2 0) in
        let swept : Progress =
          sweep hex_encode pow job sha256 changed batch num_threads fuel extranonce2 header en2
            nonce checks in
        if_cases (λ (p : Progress). InLane thread_id num_threads p.en2)
          (en2_fits en2 job.extranonce2_size)
          (λ fits.
            let on = lane_on en2 swept lane (
              sweep-StaysOrSteps fuel extranonce2 header en2 nonce checks
                (fits_room en2 narrow fits)) in
            by_outcome swept.outcome swept
              (mine_job hex_encode pow job sha256 changed batch num_threads fuel rounds swept.en2
                swept.nonce swept.checks)
              on (mine_job-InLane fuel rounds swept.en2 swept.nonce swept.checks narrow on))
          (λ _. lane)
      where
        by_outcome :
            (o : Outcome) (swept rest : Progress)
            → InLane thread_id num_threads swept.en2
            → InLane thread_id num_threads rest.en2
            → let r : Progress = elim o [
              | exhausted ↦ record rest {
                finds = swept.finds ++ rest.finds;
                hashes = swept.hashes + rest.hashes;
              }
              | interrupted ↦ swept
              | out_of_fuel ↦ swept
            ] in
              InLane thread_id num_threads r.en2
        by_outcome exhausted swept rest h k = k
        by_outcome interrupted swept rest h k = h
        by_outcome out_of_fuel swept rest h k = h

module _ (sha256 : List ℕ → List ℕ) (hex_encode : List ℕ → String) (build : Option PowFn)
    (role : CpuRole) (thread_id num_threads batch fuel rounds : ℕ) where
  abbrev InThreadLane : Thread → Type 0
  InThreadLane t = InLane thread_id num_threads t.en2

  start_on-Lane :
      (prev : Option MinerJob) (job : MinerJob) (en2 nonce : ℕ)
      → InLane thread_id num_threads en2
      → InLane thread_id num_threads (start_on prev job thread_id (en2, nonce)).0
  unfolding start_on
  start_on-Lane none job en2 nonce h = at_start
  start_on-Lane (some prev) job en2 nonce h =
      if_either (λ (p : ℕ × ℕ). InLane thread_id num_threads p.0) (same_search_space prev job) h
        at_start

  with_pow-Lane :
      (r : JobRound) (t : Thread) (pow : Option PowFn)
      → IsNarrow num_threads r.job
      → InThreadLane t
      → InThreadLane
          (with_pow sha256 hex_encode build role thread_id num_threads batch fuel rounds r t pow)
  with_pow-Lane r t none narrow h = h
  with_pow-Lane r t (some pow) narrow h =
      let from = start_on t.prev r.job thread_id (t.en2, t.nonce) in
      mine_job-InLane hex_encode pow r.job sha256 r.changed batch num_threads thread_id fuel rounds
        from.0 from.1 0 narrow (start_on-Lane t.prev r.job t.en2 t.nonce h)

  gate_taken-Lane :
      (r : JobRound) (t : Thread) (c : Checked)
      → IsNarrow num_threads r.job
      → InThreadLane t
      → InThreadLane
          (gate_taken sha256 hex_encode build role thread_id num_threads batch fuel rounds r t c)
  gate_taken-Lane r t c narrow h =
      with_pow-Lane r (gate_kept c.gate t)
        (hash_of sha256 hex_encode build role thread_id num_threads batch fuel rounds c.passed)
        narrow h

  one_job-Lane :
      (r : JobRound) (t : Thread)
      → IsNarrow num_threads r.job
      → InThreadLane t
      → InThreadLane
          (one_job sha256 hex_encode build role thread_id num_threads batch fuel rounds t r)
  unfolding one_job
  one_job-Lane r t narrow h =
      if_either InThreadLane (takes role r.gpus_mine)
        (gate_taken-Lane r t
          (check t.gate r.job.algo (thread_id == 0) (cpu_supports build r.status)) narrow h)
        h

  run_worker-Lane :
      (rs : List JobRound) (t : Thread)
      → All (λ r. IsNarrow num_threads r.job) rs
      → InThreadLane t
      → InThreadLane
          (run_worker sha256 hex_encode build role thread_id num_threads batch fuel rounds t rs)
  unfolding run_worker
  run_worker-Lane [] t narrow h = h
  run_worker-Lane (r ∷ rs) t narrow h =
      run_worker-Lane rs
        (one_job sha256 hex_encode build role thread_id num_threads batch fuel rounds t r) narrow.1
        (one_job-Lane r t narrow.0 h)

InLane-mod :
    (thread_id num_threads : ℕ) {en2 : ℕ}
    → InLane thread_id num_threads en2
    → en2 % num_threads ≡ thread_id % num_threads
InLane-mod thread_id num_threads at_start = refl
InLane-mod thread_id num_threads (onward {en2} lane) =
    add-mod_right en2 num_threads ∙ InLane-mod thread_id num_threads lane

-- A CPU thread of `num_threads`, for jobs whose extranonce2 is less than 8 bytes and leaves room for
-- a step, over any jobs, whether the GPUs have them, the hash is ready or the thread's job changes:
-- the extranonce2 counter at which it goes on is its own id modulo the number of threads. So it is
-- never the counter of another thread, for which the remainder is another.
pub run_worker-en2 :
    (sha256 : List ℕ → List ℕ) (hex_encode : List ℕ → String) (build : Option PowFn)
    (role : CpuRole) (thread_id num_threads batch fuel rounds : ℕ) (rs : List JobRound)
    → thread_id < num_threads
    → All (λ r. IsNarrow num_threads r.job) rs
    → (run_worker sha256 hex_encode build role thread_id num_threads batch fuel rounds
          (new_thread thread_id)
          rs).en2
        % num_threads
      ≡ thread_id
run_worker-en2 sha256 hex_encode build role thread_id num_threads batch fuel rounds rs few narrow =
    InLane-mod thread_id num_threads (
      run_worker-Lane sha256 hex_encode build role thread_id num_threads batch fuel rounds rs
        (new_thread thread_id) narrow at_start)
    ∙ mod-eq_of_lt few
