-- ===== src/Worker/Mine/Looks.antt =====
-- A job change that `mine_job` looks for is seen.
use Prim.Native.String.{String}
use bc3_online_miner.Common.{
  ℕ, zero, suc, ◌+◌, ◌≤◌, ◌<◌, ◌≡◌, ◌≢◌, arith, Bool, true, false, Bool-cases, inl, inr, List, ◌==◌,
  ap, ◌∙◌,
}
use bc3_online_miner.Consensus.Pow.{PowFn}
use bc3_online_miner.Shared.Job.{MinerJob}
use bc3_online_miner.Worker.Mine.{run_batch, sweep, exhausted}

module _ (hex_encode : List ℕ → String) (pow : PowFn) (job : MinerJob) (sha256 : List ℕ → List ℕ)
    (changed : ℕ → Bool) (batch stride : ℕ) where
  not_now :
      (checks last : ℕ)
      → changed last ≡ true
      → changed checks ≡ false
      → checks ≤ last
      → checks < last
  not_now checks last there here le =
      let other : checks ≢ last = λ e. let t : changed checks ≡ true = ap changed e ∙ there in cc in
      omega (arith, other, le)

  -- When the job changes at the look `last`, a sweep that runs through has looked at least once, and
  -- not as far as `last`.
  pub sweep-looks :
      (fuel : ℕ) (extranonce2 header : List ℕ) (en2 nonce checks last : ℕ)
      → checks ≤ last
      → changed last ≡ true
      → let r =
          sweep hex_encode pow job sha256 changed batch stride fuel extranonce2 header en2 nonce
            checks in
        r.outcome ≡ exhausted → (checks < r.checks) × (r.checks ≤ last)
  unfolding sweep
  sweep-looks zero extranonce2 header en2 nonce checks last le there = λ e. cc
  sweep-looks (suc fuel) extranonce2 header en2 nonce checks last le there =
      let next : ℕ = (run_batch hex_encode pow job extranonce2 header batch nonce).2 in
      elim (Bool-cases (changed checks)) [
        | inl c ↦ rw c (λ e. cc)
        | inr c ↦
            let later = not_now checks last there c le in
            let rest =
              sweep-looks fuel extranonce2 header en2 next (checks + 1) last (omega arith) there in
            elim (Bool-cases (next == 0)) [
              | inl wrapped ↦ rw (c, wrapped) (λ e. (omega arith, omega arith))
              | inr more ↦ rw (c, more) (λ e. let l = rest e in (omega (arith, l.0), l.1))
            ]
      ]
