-- ===== src/Shared/Best/Maximum.antt =====
-- The best share is the best of the current PoW's.
use bc3_online_miner.Common.{
  ℕ, Bool, true, false, Option, none, some, List, [], ◌∷◌, ◌≡◌, refl, ap, ◌∙◌, subst, if◌then◌else◌,
  if_cases, if_either, Bool-cases, All, Float, ◌⊎◌, inl, inr,
}
use bc3_online_miner.Consensus.Pow.{PowAlgo, sha256d, sha3t, bc3_hash, index, algo_eq}
use bc3_online_miner.Consensus.Difficulty.{difficulty_of_bits}
use bc3_online_miner.Shared.Best.{
  BestShare, PowState, is_current, best_difficulty, take_share, record_share, noted, note_pow,
  PowTurn, job_of_pow, share_found, pow_turn, pow_after,
}

algo_eq-eq : (a b : PowAlgo) → algo_eq a b ≡ true → a ≡ b
unfolding algo_eq index
algo_eq-eq sha256d sha256d e = refl
algo_eq-eq sha256d sha3t e = cc
algo_eq-eq sha256d bc3_hash e = cc
algo_eq-eq sha3t sha256d e = cc
algo_eq-eq sha3t sha3t e = refl
algo_eq-eq sha3t bc3_hash e = cc
algo_eq-eq bc3_hash sha256d e = cc
algo_eq-eq bc3_hash sha3t e = cc
algo_eq-eq bc3_hash bc3_hash e = refl

module _ (float : Float) where
  open float use {F64, of_nat, flt}

  -- A share by its difficulty and the nBits of its job.
  pub record Reached : Type 0 where
    pub reached : F64
    pub bits : ℕ

  -- The PoW of the latest job.
  abbrev pub current : List (PowTurn float) → Option PowAlgo
  current [] = none
  current (job_of_pow algo ∷ before) = some algo
  current (share_found algo difficulty bits is_block now ∷ before) = current before

  abbrev pub kept {ℓ} : {A : Type ℓ} → Option PowAlgo → PowAlgo → List A → List A
  kept none algo shares = shares
  kept (some a) algo shares = if algo_eq a algo then shares else []

  -- The shares that the best one is to be the best of: those of the current PoW, or found before
  -- any, since the PoW last changed.
  abbrev pub since : List (PowTurn float) → List Reached
  since [] = []
  since (job_of_pow algo ∷ before) = kept (current before) algo (since before)
  since (share_found algo difficulty bits is_block now ∷ before) =
      if is_current float (current before) algo
      then record { reached = difficulty; bits = bits } ∷ since before
      else since before

  -- The share is one of the list.
  abbrev pub IsOneOf : BestShare float → List Reached → Type 0
  IsOneOf b [] = ⊥
  IsOneOf b (s ∷ shares) =
      ((b.difficulty ≡ s.reached) × (b.network_difficulty ≡ difficulty_of_bits float s.bits))
      ⊎ IsOneOf b shares

  abbrev NotAbove : F64 → Reached → Type 0
  NotAbove d s = flt d s.reached ≡ false

  -- No share is above the best one, which is one of them and above zero; without it, none is above
  -- zero.
  abbrev pub IsBest : Option (BestShare float) → List Reached → Type 0
  IsBest none shares = All (NotAbove (of_nat 0)) shares
  IsBest (some b) shares =
      (flt (of_nat 0) b.difficulty ≡ true) × IsOneOf b shares × All (NotAbove b.difficulty) shares

  -- `<` of IEEE 754, also where a NaN is compared.
  abbrev pub IsStrict : Type 0
  IsStrict =
      ((a : F64) → flt a a ≡ false)
      × ((a b c : F64) → flt a b ≡ true → flt b c ≡ true → flt a c ≡ true)

  module _ (strict : IsStrict) where
    not_below : (a b c : F64) → flt a b ≡ true → flt a c ≡ false → flt b c ≡ false
    not_below a b c ab ac = elim (Bool-cases (flt b c)) [
      | inl bc ↦ let t = strict.1 a b c ab bc in cc
      | inr e ↦ e
    ]

    All-NotAbove :
        (a b : F64) (shares : List Reached)
        → flt a b ≡ true
        → All (NotAbove a) shares
        → All (NotAbove b) shares
    All-NotAbove a b [] ab h = tt
    All-NotAbove a b (s ∷ shares) ab h =
        (not_below a b s.reached ab h.0, All-NotAbove a b shares ab h.1)

    above_zero :
        (best : Option (BestShare float)) (shares : List Reached) (d : F64)
        → IsBest best shares
        → flt (best_difficulty float best) d ≡ true
        → (flt (of_nat 0) d ≡ true) × All (NotAbove d) shares
    above_zero none shares d h e = (e, All-NotAbove (of_nat 0) d shares e h)
    above_zero (some b) shares d h e =
        (strict.1 (of_nat 0) b.difficulty d h.0 e, All-NotAbove b.difficulty d shares e h.2)

    not_above :
        (best : Option (BestShare float)) (shares : List Reached) (s : Reached)
        → IsBest best shares
        → flt (best_difficulty float best) s.reached ≡ false
        → IsBest best (s ∷ shares)
    not_above none shares s h e = (e, h)
    not_above (some b) shares s h e = (h.0, inr h.1, (e, h.2))

    take_share-Best :
        (s : PowState float) (shares : List Reached) (d : F64) (bits : ℕ) (is_block : Bool)
        (now : ℕ)
        → IsBest s.best shares
        → IsBest
            (take_share float s d bits is_block now).best
            (record { reached = d; bits = bits } ∷ shares)
    take_share-Best s shares d bits is_block now h =
        let found : Reached = record { reached = d; bits = bits } in
        if_cases (λ (b : Option (BestShare float)). IsBest b (found ∷ shares))
          (flt (best_difficulty float s.best) d)
          (λ e.
            let above = above_zero s.best shares d h e in
            (above.0, inl (refl, refl), (strict.0 d, above.1)))
          (λ e. not_above s.best shares found h e)

    abbrev Follows : PowState float → List (PowTurn float) → Type 0
    Follows s turns = (s.algo ≡ current turns) × IsBest s.best (since turns)

    noted-Follows :
        (a : Option PowAlgo) (algo : PowAlgo) (s : PowState float) (shares : List Reached)
        → s.algo ≡ a
        → IsBest s.best shares
        → let s' = noted float a algo s in
          (s'.algo ≡ some algo) × IsBest s'.best (kept a algo shares)
    noted-Follows none algo s shares e h = (refl, h)
    noted-Follows (some a) algo s shares e h = elim (Bool-cases (algo_eq a algo)) [
      | inl same ↦ rw same (e ∙ ap some (algo_eq-eq a algo same), h)
      | inr other ↦ rw other (refl, tt)
    ]

    share-Follows :
        (of_current : Bool) (d : F64) (bits : ℕ) (is_block : Bool) (now : ℕ) (s : PowState float)
        (shares : List Reached)
        → IsBest s.best shares
        → IsBest
            (if of_current then take_share float s d bits is_block now else s).best
            (if of_current then record { reached = d; bits = bits } ∷ shares else shares)
    share-Follows true d bits is_block now s shares h =
        take_share-Best s shares d bits is_block now h
    share-Follows false d bits is_block now s shares h = h

    turn-Follows :
        (turn : PowTurn float) (s : PowState float) (before : List (PowTurn float))
        → Follows s before
        → Follows (pow_turn float turn s) (turn ∷ before)
    unfolding note_pow record_share
    turn-Follows (job_of_pow algo) s before h =
        let (now_of, best_of) = noted-Follows s.algo algo s (since before) refl h.1 in
        (
          now_of,
          subst (λ a. IsBest (noted float s.algo algo s).best (kept a algo (since before))) h.0
              best_of,
        )
    turn-Follows (share_found algo d bits is_block now) s before h =
        let found : Reached = record { reached = d; bits = bits } in
        let after : PowState float = record_share float algo d bits is_block now s in
        (
          if_either (λ (x : PowState float). x.algo ≡ current before) (is_current float s.algo algo)
              h.0 h.0,
          subst
              (λ a.
                IsBest after.best
                  (if is_current float a algo then found ∷ since before else since before))
              h.0
              (share-Follows (is_current float s.algo algo) d bits is_block now s (since before)
                h.1),
        )

    -- With `<` transitive and never true of one number twice, over any jobs and shares of any
    -- PoWs: the PoW is the latest job's, and the best share is one of the shares found with it
    -- since it became the current one - its difficulty that of the share, its network difficulty
    -- that of the share's own job - above zero and below none of them; and without a best share,
    -- none of them is above zero. A share of another PoW, also one that comes late, does not count.
    pub pow_after-IsBest :
        (turns : List (PowTurn float))
        → ((pow_after float turns).algo ≡ current turns)
          × IsBest (pow_after float turns).best (since turns)
    unfolding pow_after
    pow_after-IsBest [] = (refl, tt)
    pow_after-IsBest (turn ∷ before) =
        turn-Follows turn (pow_after float before) before (pow_after-IsBest before)
