-- ===== src/Wasm/First.antt =====
-- The search returns the first nonce of its range that meets the target.
use bc3_online_miner.Common.{
  ℕ, zero, suc, ◌+◌, ◌%◌, ◌<◌, Bool, true, false, List, ◌≡◌, ap, sym, ◌∙◌, arith, if_cases, u32_mod,
}
use bc3_online_miner.Consensus.Pow.{PowFn}
use bc3_online_miner.Consensus.Header.{set_nonce}
use bc3_online_miner.Consensus.Target.{hash_meets_target}
use bc3_online_miner.Wasm.{Found, nonce, nothing, cannot_hash, search_with}

module _ (pow : PowFn) (header target : List ℕ) where
  -- The nonce at an offset of the range, which is circular, and whether its hash passes.
  abbrev pub at : ℕ → ℕ → ℕ
  at start i = (start + i) % u32_mod

  abbrev pub passes : ℕ → Bool
  passes n = hash_meets_target (pow (set_nonce n header)) target

  -- The first nonce that passes, or none of the range does.
  abbrev pub IsFirst : ℕ → ℕ → Found → Type 0
  IsFirst start count (nonce n) =
      (i : ℕ) × (i < count)
      × (n ≡ at start i)
      × (passes n ≡ true)
      × ((k : ℕ) → k < i → passes (at start k) ≡ false)
  IsFirst start count nothing = (k : ℕ) → k < count → passes (at start k) ≡ false
  IsFirst start count cannot_hash = ⊥

  shift : (start k : ℕ) → start < u32_mod → at ((start + 1) % u32_mod) k ≡ at start (suc k)
  shift start k small = omega arith

  earlier :
      (start count : ℕ)
      → start < u32_mod
      → passes start ≡ false
      → ((k : ℕ) → k < count → passes (at ((start + 1) % u32_mod) k) ≡ false)
      → (k : ℕ) → k < suc count
      → passes (at start k) ≡ false
  earlier start count small fails later zero low =
      let same : at start 0 ≡ start = omega arith in ap passes same ∙ fails
  earlier start count small fails later (suc k) low =
      ap passes (sym (shift start k small)) ∙ later k (omega arith)

  -- A nonce that fails in front of the others.
  not_here :
      (start left : ℕ) (r : Found)
      → start < u32_mod
      → passes start ≡ false
      → IsFirst ((start + 1) % u32_mod) left r
      → IsFirst start (suc left) r
  not_here start left (nonce n) small fails (i, low, place, good, before) = (
    suc i,
    omega arith,
    place ∙ shift start i small,
    good,
    λ k low'. earlier start i small fails before k low',
  )
  not_here start left nothing small fails none_good =
      λ k low'. earlier start left small fails none_good k low'
  not_here start left cannot_hash small fails h = h

  -- For a range that starts at a 32-bit nonce, `search_with` returns the first nonce of the range
  -- whose hash meets the target, and nothing only if none does.
  pub search_with-IsFirst :
      (start count : ℕ)
      → start < u32_mod
      → IsFirst start count (search_with pow header target start count)
  unfolding search_with
  search_with-IsFirst start zero small = λ k low. absurd (omega arith)
  search_with-IsFirst start (suc left) small =
      if_cases (IsFirst start (suc left)) (passes start)
        (λ good. (zero, omega arith, omega arith, good, λ k low. absurd (omega arith)))
        (λ fails.
          not_here start left _ small fails
            (search_with-IsFirst ((start + 1) % u32_mod) left (omega arith)))
