-- ===== src/Worker/Mine/Batch.antt =====
-- A batch visits the positions one after another and stops at the end of the nonces.
use Prim.Native.String.{String}
use mathlib.Core.List.{append-nil}
use bc3_online_miner.Common.{
  ℕ, zero, suc, ◌+◌, ◌-◌, ◌%◌, ◌<◌, min, false, List, [], ◌∷◌, ◌++◌, ◌==◌, u32_mod, ◌≡◌, refl, ap,
  ap₂, sym, ◌∙◌, arith, length, inl, inr, Bool-cases,
}
use bc3_online_miner.Consensus.Pow.{PowFn}
use bc3_online_miner.Consensus.Header.{serialize, set_nonce}
use bc3_online_miner.Consensus.Header.Layout.{IsHeader, nonce_overwrite}
use bc3_online_miner.Consensus.Merkle.{sha256d, root_from_steps}
use bc3_online_miner.Shared.Job.{MinerJob}
use bc3_online_miner.Worker.Extranonce.{encode_extranonce2}
use bc3_online_miner.Worker.Mine.{Find, check_hash, header_of, coinbase, run_batch}
use bc3_online_miner.Worker.Mine.Search.{Position, next, advance, find_at, finds_along}

-- The widths of the source's types.
pub record IsJob (job : MinerJob) : Type 0 where
  pub version_fits : job.version < u32_mod
  pub prev_hash_fits : length job.prev_hash ≡ 32
  pub bits_fits : job.bits < u32_mod
  pub ntime_fits : job.ntime < u32_mod

-- SHA-256 gives 32 bytes.
abbrev pub GivesHashes : (List ℕ → List ℕ) → Type 0
GivesHashes sha256 = (bytes : List ℕ) → length (sha256 bytes) ≡ 32

length-root_from_steps :
    (sha256 : List ℕ → List ℕ)
    → GivesHashes sha256
    → (acc : List ℕ) (steps : List (List ℕ)) → length acc ≡ 32
    → length (root_from_steps sha256 acc steps) ≡ 32
unfolding root_from_steps sha256d
length-root_from_steps sha256 hashes acc [] e = e
length-root_from_steps sha256 hashes acc (s ∷ steps) e =
    length-root_from_steps sha256 hashes (sha256 (sha256 (acc ++ s))) steps (hashes _)

-- The header of a job has the widths of its type.
pub header_of-IsHeader :
    (sha256 : List ℕ → List ℕ) (job : MinerJob) (extranonce2 : List ℕ) (nonce : ℕ)
    → GivesHashes sha256
    → IsJob job
    → nonce < u32_mod
    → IsHeader (header_of sha256 job extranonce2 nonce)
unfolding header_of sha256d
header_of-IsHeader sha256 job extranonce2 nonce hashes fits small = record {
  version_fits = fits.version_fits;
  prev_hash_fits = fits.prev_hash_fits;
  merkle_root_fits =
      length-root_from_steps sha256 hashes (sha256 (sha256 (coinbase job extranonce2)))
        job.merkle_steps (hashes _);
  time_fits = fits.ntime_fits;
  bits_fits = fits.bits_fits;
  nonce_fits = small;
}

module _ (stride : ℕ) where
  -- Positions of one extranonce2.
  pub advance-within :
      (n en2 nonce : ℕ)
      → nonce + n < u32_mod
      → advance stride n (record { en2 = en2; nonce = nonce })
        ≡ record { en2 = en2; nonce = nonce + n }
  unfolding advance next
  advance-within zero en2 nonce h = ground arith
  advance-within (suc n) en2 nonce h = ground (arith, advance-within n en2 (suc nonce))

  -- The last nonce leads to the next extranonce2.
  pub advance-over :
      (n en2 nonce : ℕ)
      → nonce < u32_mod
      → nonce + n ≡ u32_mod
      → advance stride n (record { en2 = en2; nonce = nonce })
        ≡ record { en2 = en2 + stride; nonce = 0 }
  unfolding advance next
  advance-over zero en2 nonce h e = absurd (omega arith)
  advance-over (suc zero) en2 nonce h e = ground arith
  advance-over (suc (suc n)) en2 nonce h e = ground (arith, advance-over (suc n) en2 (suc nonce))

module _ (sha256 : List ℕ → List ℕ) (hex_encode : List ℕ → String) (pow : PowFn) (job : MinerJob)
    (hashes : GivesHashes sha256) (fits : IsJob job) (stride en2 : ℕ) where
  abbrev extranonce2 : List ℕ
  extranonce2 = encode_extranonce2 en2 job.extranonce2_size

  abbrev header : List ℕ
  header = serialize (header_of sha256 job extranonce2 0)

  -- Writing the nonce into the serialized header is as good as serializing the header anew.
  check_hash-find_at :
      (nonce : ℕ)
      → nonce < u32_mod
      → check_hash hex_encode pow job extranonce2 nonce (pow (set_nonce nonce header))
        ≡ find_at sha256 hex_encode pow job (record { en2 = en2; nonce = nonce })
  unfolding find_at header_of
  check_hash-find_at nonce small =
      ap (λ bytes. check_hash hex_encode pow job extranonce2 nonce (pow bytes))
        (nonce_overwrite (header_of sha256 job extranonce2 0)
          (header_of-IsHeader sha256 job extranonce2 0 hashes fits (omega arith)) nonce small)

  -- What a batch of `left` rounds does from `nonce`.
  pub record IsBatch (left nonce : ℕ) (result : List Find × ℕ × ℕ) : Type 0 where
    pub done : result.1 ≡ min left (u32_mod - nonce)
    pub finds :
        result.0
        ≡ finds_along sha256 hex_encode pow job stride result.1
            (record { en2 = en2; nonce = nonce })
    pub next_nonce : result.2 ≡ (nonce + result.1) % u32_mod

  abbrev at : ℕ → Position
  at nonce = record { en2 = en2; nonce = nonce }

  -- One position, and then the next nonce.
  finds_along-step :
      (k nonce : ℕ)
      → suc nonce < u32_mod
      → finds_along sha256 hex_encode pow job stride (k + 1) (at nonce)
        ≡ find_at sha256 hex_encode pow job (at nonce)
          ++ finds_along sha256 hex_encode pow job stride k (at (suc nonce))
  unfolding finds_along next
  finds_along-step k nonce small =
      let one : k + 1 ≡ suc k = omega arith in
      let test : (suc nonce == u32_mod) ≡ false = ground arith in rw (one, test)

  finds_along-one :
      (nonce : ℕ)
      → finds_along sha256 hex_encode pow job stride 1 (at nonce)
        ≡ find_at sha256 hex_encode pow job (at nonce)
  unfolding finds_along
  finds_along-one nonce = append-nil (find_at sha256 hex_encode pow job (at nonce))

  pub run_batch-IsBatch :
      (left nonce : ℕ)
      → nonce < u32_mod
      → IsBatch left nonce (run_batch hex_encode pow job extranonce2 header left nonce)
  unfolding run_batch finds_along
  run_batch-IsBatch zero nonce small = record {
    done = omega arith;
    finds = refl;
    next_nonce = omega arith;
  }
  run_batch-IsBatch (suc left) nonce small = elim (Bool-cases ((nonce + 1) % u32_mod == 0)) [
    | inl wrapped ↦ rw wrapped (record {
      done = ground arith;
      finds = check_hash-find_at nonce small ∙ sym (finds_along-one nonce);
      next_nonce = ground arith;
    })
    | inr more ↦
        let small' : suc nonce < u32_mod = ground arith in
        let up : (nonce + 1) % u32_mod ≡ suc nonce = omega arith in
        let rest = run_batch-IsBatch left (suc nonce) small' in
        let count : ℕ = (run_batch hex_encode pow job extranonce2 header left (suc nonce)).1 in
        rw (more, up)
          (record {
            done = omega (arith, rest.done);
            finds =
                ap₂ ◌++◌ (check_hash-find_at nonce small) rest.finds
                ∙ sym (finds_along-step count nonce small');
            next_nonce = omega (arith, rest.next_nonce);
          })
  ]
