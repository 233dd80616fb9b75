-- ===== src/Worker/Mine/Sweep.antt =====
-- The batches of one extranonce2 end, and visit its nonces one after another.
use Prim.Native.String.{String}
use bc3_online_miner.Common.{
  ℕ, zero, suc, ◌+◌, ◌%◌, ◌≤◌, ◌<◌, Bool, List, ◌++◌, ◌==◌, if◌then◌else◌, u32_mod, u64_mod, ◌≡◌,
  ◌≢◌, refl, ap, ap₂, sym, ◌∙◌, arith, inl, inr, Bool-cases,
}
use bc3_online_miner.Consensus.Pow.{PowFn}
use bc3_online_miner.Consensus.Header.{serialize}
use bc3_online_miner.Shared.Job.{MinerJob}
use bc3_online_miner.Worker.Extranonce.{encode_extranonce2, resume_point}
use bc3_online_miner.Worker.Mine.{
  Find, Progress, exhausted, out_of_fuel, header_of, run_batch, sweep,
}
use bc3_online_miner.Worker.Mine.Search.{
  Position, advance, finds_along, advance-add, finds_along-add,
}
use bc3_online_miner.Worker.Mine.Batch.{
  IsJob, GivesHashes, run_batch-IsBatch, advance-within, advance-over,
}

-- Where a run of the search stands.
abbrev pub position : Progress → Position
position r = record { en2 = r.en2; nonce = r.nonce }

module _ (sha256 : List ℕ → List ℕ) (hex_encode : List ℕ → String) (pow : PowFn) (job : MinerJob)
    (hashes : GivesHashes sha256) (fits : IsJob job) (changed : ℕ → Bool) (batch stride : ℕ)
    (working : 0 < batch) where
  -- `r` searched the positions from `start` on, one after another, and stands behind them.
  pub record Searches (start : Position) (r : Progress) : Type 0 where
    pub finds : r.finds ≡ finds_along sha256 hex_encode pow job stride r.hashes start
    pub resumes : position r ≡ advance stride r.hashes start

  -- A search, continued from where it stands.
  pub Searches-then :
      (start mid : Position) (m : ℕ) (found : List Find) (rest : Progress)
      → found ≡ finds_along sha256 hex_encode pow job stride m start
      → advance stride m start ≡ mid
      → Searches mid rest
      → Searches start (record rest { finds = found ++ rest.finds; hashes = m + rest.hashes })
  Searches-then start mid m found rest f e s = record {
    finds =
        ap₂ ◌++◌ f (s.finds ∙ ap (finds_along sha256 hex_encode pow job stride rest.hashes) (sym e))
        ∙ sym (finds_along-add sha256 hex_encode pow job stride m rest.hashes start);
    resumes =
        s.resumes
        ∙ ap (advance stride rest.hashes) (sym e)
        ∙ sym (advance-add stride m rest.hashes start);
  }

  pub record IsSweep (start : Position) (r : Progress) : Type 0 where
    pub searches : Searches start r
    pub ends : r.outcome ≢ out_of_fuel
    pub moves_on : r.outcome ≡ exhausted → (r.en2 ≡ start.en2 + stride) × (r.nonce ≡ 0)

  module _ (en2 : ℕ) (room : en2 + stride < u64_mod) where
    abbrev extranonce2 : List ℕ
    extranonce2 = encode_extranonce2 en2 job.extranonce2_size

    abbrev header : List ℕ
    header = serialize (header_of sha256 job extranonce2 0)

    abbrev at : ℕ → Position
    at nonce = record { en2 = en2; nonce = nonce }

    abbrev after_batch : ℕ → Position
    after_batch next = if next == 0 then record { en2 = en2 + stride; nonce = 0 } else at next

    abbrev run : ℕ → List Find × ℕ × ℕ
    run nonce = run_batch hex_encode pow job extranonce2 header batch nonce

    batch_position :
        (nonce : ℕ)
        → nonce < u32_mod
        → advance stride (run nonce).1 (at nonce) ≡ after_batch (run nonce).2
    batch_position nonce small =
        let b =
          run_batch-IsBatch sha256 hex_encode pow job hashes fits stride en2 batch nonce small in
        ground (
          arith,
          b.done,
          b.next_nonce,
          advance-within stride (run nonce).1 en2 nonce,
          advance-over stride (run nonce).1 en2 nonce,
        )

    resume_position :
        (next : ℕ)
        → let p = resume_point en2 next (next == 0) stride in
          ◌≡◌ {A = Position} (record { en2 = p.0; nonce = p.1 }) (after_batch next)
    unfolding resume_point
    resume_position next = ground arith

    pub sweep-IsSweep :
        (fuel nonce checks : ℕ)
        → nonce < u32_mod
        → u32_mod ≤ nonce + fuel
        → IsSweep (at nonce) (
            sweep hex_encode pow job sha256 changed batch stride fuel extranonce2 header en2 nonce
              checks)
    unfolding sweep
    sweep-IsSweep zero nonce checks small enough = absurd (omega arith)
    sweep-IsSweep (suc fuel) nonce checks small enough =
        let b =
          run_batch-IsBatch sha256 hex_encode pow job hashes fits stride en2 batch nonce small in
        let moved = batch_position nonce small in
        let next : ℕ = (run nonce).2 in
        elim (Bool-cases (changed checks)) [
          | inl c ↦ rw c (record {
            searches = record { finds = b.finds; resumes = resume_position next ∙ sym moved };
            ends = λ e. cc;
            moves_on = λ e. cc;
          })
          | inr c ↦ elim (Bool-cases (next == 0)) [
            | inl wrapped ↦
                let there : after_batch next ≡ record { en2 = en2 + stride; nonce = 0 } =
                  rw wrapped in
                let whole : (en2 + stride) % u64_mod ≡ en2 + stride = omega arith in
                rw (c, wrapped)
                  (record {
                    searches = record {
                      finds = b.finds;
                      resumes = ap (λ e. record { en2 = e; nonce = 0 }) whole ∙ sym (moved ∙ there);
                    };
                    ends = λ e. cc;
                    moves_on = λ e. (whole, refl);
                  })
            | inr more ↦
                let there : after_batch next ≡ at next = rw more in
                let rest =
                  sweep-IsSweep fuel next (checks + 1) (omega (arith, b.next_nonce))
                    (ground (arith, b.done, b.next_nonce)) in
                rw (c, more)
                  (record {
                    searches =
                        Searches-then (at nonce) (at next) (run nonce).1 (run nonce).0 _ b.finds
                          (moved ∙ there) rest.searches;
                    ends = rest.ends;
                    moves_on = rest.moves_on;
                  })
          ]
        ]
