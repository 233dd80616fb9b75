-- ===== src/Gpu/Run/Honest.antt =====
-- A kernel that reports every hash that meets the target makes the card as good as a CPU thread.
use Prim.Native.String.{String}
use bc3_online_miner.Common.{
  ℕ, zero, suc, ◌+◌, ◌≤◌, ◌<◌, List, [], ◌∷◌, ◌++◌, ◌==◌, ◌≡◌, refl, ap, ap₂, ◌∙◌, arith, true,
  false, Bool-cases, All, ◌⊎◌, inl, inr, u32_mod, leb, leb→le, leb-false,
}
use bc3_online_miner.Consensus.Pow.{PowFn}
use bc3_online_miner.Consensus.Header.{serialize}
use bc3_online_miner.Consensus.Target.{hash_meets_target}
use bc3_online_miner.Shared.Job.{MinerJob}
use bc3_online_miner.Worker.Extranonce.{encode_extranonce2}
use bc3_online_miner.Worker.Mine.{Find, check_hash, header_of}
use bc3_online_miner.Worker.Mine.Search.{next, find_at, finds_along}
use bc3_online_miner.Gpu.Hits.{in_range, verify_hit, verify_hits, sort_unstable, dedup}
use bc3_online_miner.Gpu.Hits.Sorted.{Has, hits-Ascends, hits-Has}
use bc3_online_miner.Gpu.Hits.Along.{gather, along, gather-along, along-skip}
use bc3_online_miner.Gpu.Run.{Outside, Setup, State, InFlight, Scan, finish}
use bc3_online_miner.Gpu.Run.Chain.{IsLaunch}

in_range-inside :
    (start count n : ℕ)
    → start ≤ n
    → n < start + count
    → start + count ≤ u32_mod
    → in_range start count n ≡ true
unfolding in_range
in_range-inside start count n low high fits = ground arith

in_range-outside :
    (start count n : ℕ)
    → start + count ≤ u32_mod
    → n < u32_mod
    → (n < start) ⊎ (start + count ≤ n)
    → in_range start count n ≡ false
unfolding in_range
in_range-outside start count n fits word (inl low) = ground arith
in_range-outside start count n fits word (inr high) = ground arith

module _ (sha256 : List ℕ → List ℕ) (hex_encode : List ℕ → String) (pow : PowFn)
    (job : MinerJob) where
  -- The hash of one nonce of an extranonce2.
  unfoldable pub hash_at : List ℕ → ℕ → List ℕ
  hash_at extranonce2 nonce = pow (serialize (header_of sha256 job extranonce2 nonce))

  check_hash-none :
      (extranonce2 : List ℕ) (nonce : ℕ) (hash : List ℕ)
      → hash_meets_target hash job.share_target ≡ false
      → check_hash hex_encode pow job extranonce2 nonce hash ≡ []
  unfolding check_hash
  check_hash-none extranonce2 nonce hash fails = rw fails refl

  -- The scan has every nonce of the launch whose hash meets the target, in any order and as often
  -- as it likes, whatever else it has.
  pub record IsComplete (l : InFlight) (scan : Scan) : Type 0 where
    pub words : All (λ n. n < u32_mod) scan.hits
    pub complete :
        (n : ℕ)
        → l.start ≤ n
        → n < l.start + l.count
        → hash_meets_target (hash_at l.extranonce2 n) job.share_target ≡ true
        → Has n scan.hits

  -- What one reported nonce of a launch leads to.
  abbrev v : List ℕ → ℕ → ℕ → ℕ → List Find
  v extranonce2 start count =
      verify_hit hex_encode pow job extranonce2 (header_of sha256 job extranonce2 0) start count

  module _ (extranonce2 : List ℕ) (start count : ℕ) (fits : start + count ≤ u32_mod) where
    verify_hits-gather :
        (hits : List ℕ)
        → verify_hits hex_encode pow job extranonce2
            (header_of sha256 job extranonce2 0)
            start
            count
            hits
          ≡ gather (v extranonce2 start count) hits
    unfolding verify_hits
    verify_hits-gather [] = refl
    verify_hits-gather (x ∷ xs) = ap (◌++◌ (v extranonce2 start count x)) (verify_hits-gather xs)

    v-inside :
        (n : ℕ)
        → start ≤ n
        → n < start + count
        → v extranonce2 start count n
          ≡ check_hash hex_encode pow job extranonce2 n (hash_at extranonce2 n)
    unfolding verify_hit hash_at header_of
    v-inside n low high = rw (in_range-inside start count n low high fits) refl

    v-outside :
        (n : ℕ) → n < u32_mod → (n < start) ⊎ (start + count ≤ n) → v extranonce2 start count n ≡ []
    unfolding verify_hit
    v-outside n word out = rw (in_range-outside start count n fits word out) refl

    -- A nonce that leads to something is one whose hash meets the target.
    v-or_hit :
        (hits : List ℕ)
        → ((n : ℕ)
            → start ≤ n
            → n < start + count
            → hash_meets_target (hash_at extranonce2 n) job.share_target ≡ true
            → Has n hits)
        → (n : ℕ) → n < start + count
        → (v extranonce2 start count n ≡ []) ⊎ Has n hits
    v-or_hit hits complete n high = elim (Bool-cases (leb start n)) [
      | inl low ↦
          let at = leb→le start n low in
          elim (Bool-cases (hash_meets_target (hash_at extranonce2 n) job.share_target)) [
            | inl meets ↦ inr (complete n at high meets)
            | inr fails ↦
                inl
                  (v-inside n at high ∙ check_hash-none extranonce2 n (hash_at extranonce2 n) fails)
          ]
      | inr below ↦ inl (v-outside n (omega arith) (inl (leb-false start n below)))
    ]

  -- The shares of a complete scan, in the order of the nonces.
  verify_hits-along :
      (l : InFlight) (scan : Scan)
      → IsLaunch sha256 job l
      → IsComplete l scan
      → verify_hits hex_encode pow job l.extranonce2 l.header l.start l.count
          (dedup (sort_unstable scan.hits))
        ≡ along (v l.extranonce2 l.start l.count) l.start l.count
  verify_hits-along l scan launch honest =
      let x = l.extranonce2 in
      let hits = dedup (sort_unstable scan.hits) in
      let fits = launch.within in
      let from : 0 + l.start ≡ l.start = omega arith in
      ap (λ h. verify_hits hex_encode pow job x h l.start l.count hits) launch.heads
      ∙ verify_hits-gather x l.start l.count fits hits
      ∙ gather-along (v x l.start l.count) (l.start + l.count) 0 hits
          (hits-Ascends scan.hits honest.words)
          (λ n low high.
            v-or_hit x l.start l.count fits hits
              (λ k from to meets. hits-Has k scan.hits (honest.complete k from to meets)) n
              (omega arith))
          (λ n low word. v-outside x l.start l.count fits n word (inr (omega arith)))
      ∙ along-skip (v x l.start l.count) l.start 0 l.count
          (λ n low high. v-outside x l.start l.count fits n (omega arith) (inl (omega arith)))
      ∙ ap (λ k. along (v x l.start l.count) k l.count) from

  -- What the CPU's search finds at the positions from a nonce on.
  along-finds :
      (stride en2 start count : ℕ) (fits : start + count ≤ u32_mod) (c n : ℕ)
      → start ≤ n
      → n + c ≤ start + count
      → along (v (encode_extranonce2 en2 job.extranonce2_size) start count) n c
        ≡ finds_along sha256 hex_encode pow job stride c (record { en2 = en2; nonce = n })
  unfolding finds_along find_at next hash_at
  along-finds stride en2 start count fits zero n low high = refl
  along-finds stride en2 start count fits (suc zero) n low high =
      ap (λ l. l ++ [])
        (v-inside (encode_extranonce2 en2 job.extranonce2_size) start count fits n low
          (omega arith))
  along-finds stride en2 start count fits (suc (suc c)) n low high =
      let test : (suc n == u32_mod) ≡ false = ground arith in
      rw test (
        ap₂ ◌++◌
          (v-inside (encode_extranonce2 en2 job.extranonce2_size) start count fits n low
            (omega arith))
          (along-finds stride en2 start count fits (suc c) (suc n) (omega arith) (omega arith)))

-- If the scan of a launch of the job has every nonce of the launch's range whose hash meets the
-- target, in whatever order, however often and whatever else it reports, then `finish` submits
-- exactly the shares, in the same order, that the CPU's search finds at the launch's positions one
-- after another, and counts as many hashes.
pub finish_complete :
    (sha256 : List ℕ → List ℕ) (hex_encode : List ℕ → String) (outside : Outside) (setup : Setup)
    (s : State) (l : InFlight) (scan : Scan)
    → IsLaunch sha256 setup.job l
    → IsComplete sha256 hex_encode setup.verify setup.job l scan
    → ((finish hex_encode outside setup s l scan).finds
        ≡ s.finds
          ++ finds_along sha256 hex_encode setup.verify setup.job setup.stride l.count
              (record { en2 = l.en2; nonce = l.start }))
      × ((finish hex_encode outside setup s l scan).hashes ≡ s.hashes + l.count)
unfolding finish
finish_complete sha256 hex_encode outside setup s l scan launch honest = (
  ap (◌++◌ s.finds) (
      verify_hits-along sha256 hex_encode setup.verify setup.job l scan launch honest
      ∙ ap
          (λ x.
            along (v sha256 hex_encode setup.verify setup.job x l.start l.count) l.start l.count)
          launch.encodes
      ∙ along-finds sha256 hex_encode setup.verify setup.job setup.stride l.en2 l.start l.count
          launch.within l.count l.start (omega arith) (omega arith)),
  refl,
)
