-- ===== src/Shared/Claims/Stalls.antt =====
-- The stall check: it leaves the claims as they are, and sets aside every card that is idle.
use bc3_online_miner.Common.{
  ℕ, ◌+◌, ◌-◌, ◌≤◌, ◌<◌, Bool, true, false, ◌&&◌, ◌||◌, Option, none, some, List, [], ◌∷◌, ltb,
  ◌==◌, ◌≡◌, ◌≢◌, refl, ap, sym, ◌∙◌, arith, inl, inr, if_cases, if_either, All, Bool-cases,
}
use mathlib.Core.Bool.{false≢true}
use bc3_online_miner.Consensus.Pow.{PowAlgo, sha256d, sha3t, bc3_hash}
use bc3_online_miner.Shared.Claims.{
  Slot, Gpus, gpus_mine, check_slot, check_slots, check_gpu_stalls, no_claims, GpuStall, last_sign,
}
use bc3_online_miner.Shared.Claims.Counts.{IsCounted, Hashes, claimants, claimed, gpus_mine_iff}

-- Of a slot that is checked, the claims stay.
abbrev SameClaims : Slot → Slot × List GpuStall → Type 0
SameClaims s r = r.0.claims ≡ s.claims

check_slot-SameClaims :
    (algo : Option PowAlgo) (has_job : Bool) (job_since now limit slot : ℕ) (s : Slot)
    → SameClaims s (check_slot algo has_job job_since now limit slot s)
unfolding check_slot
check_slot-SameClaims none has_job job_since now limit slot s =
    if_either (SameClaims s) (s.stalled == 0) refl
      (if_either (SameClaims s) (ltb s.stalled s.stamp || no_claims s.claims) refl refl)
check_slot-SameClaims (some a) has_job job_since now limit slot s =
    if_either (SameClaims s) (s.stalled == 0)
      (if_either (SameClaims s) (has_job && s.claims a && ltb limit (now - last_sign job_since s))
        refl refl)
      (if_either (SameClaims s) (ltb s.stalled s.stamp || no_claims s.claims) refl refl)

check_slots-claimants :
    (b : PowAlgo) (algo : Option PowAlgo) (has_job : Bool) (job_since now limit slot : ℕ)
    (slots : List Slot)
    → claimants b (check_slots algo has_job job_since now limit slot slots).0 ≡ claimants b slots
unfolding check_slots
check_slots-claimants b algo has_job job_since now limit slot [] = refl
check_slots-claimants b algo has_job job_since now limit slot (s ∷ slots) = omega (
  arith,
  ap (λ c. claimed (c b)) (check_slot-SameClaims algo has_job job_since now limit slot s),
  check_slots-claimants b algo has_job job_since now limit (slot + 1) slots,
)

-- A slot that, if it claims the PoW, has shown no sign for longer than the limit, and that has
-- not finished a launch since it was set aside, if it was.
pub record Idle (algo : PowAlgo) (job_since now limit : ℕ) (s : Slot) : Type 0 where
  pub no_sign : s.claims algo ≡ true → limit < now - last_sign job_since s
  pub not_back : s.stalled ≢ 0 → s.stamp ≤ s.stalled

-- Set aside, or without a claim on the PoW.
abbrev Aside : PowAlgo → Slot × List GpuStall → Type 0
Aside algo r = r.0.stalled ≡ 0 → r.0.claims algo ≡ false

no_claims-false :
    (algo : PowAlgo) (claims : PowAlgo → Bool) → no_claims claims ≡ true → claims algo ≡ false
unfolding no_claims
no_claims-false sha256d claims h = ground (arith, h)
no_claims-false sha3t claims h = ground (arith, h)
no_claims-false bc3_hash claims h = ground (arith, h)

unclaimed :
    (claims : Bool) (limit idle : ℕ)
    → (claims ≡ true → limit < idle)
    → (true && claims && ltb limit idle) ≡ false
    → claims ≡ false
unclaimed false limit idle h signs = refl
unclaimed true limit idle h signs = ground (arith, h refl, signs)

still_aside :
    (stalled stamp : ℕ) (empty : Bool)
    → stamp ≤ stalled
    → (ltb stalled stamp || empty) ≡ true
    → empty ≡ true
still_aside stalled stamp empty h over = ground (arith, h, over)

check_slot-Aside :
    (algo : PowAlgo) (job_since now limit slot : ℕ) (s : Slot)
    → Idle algo job_since now limit s
    → Aside algo (check_slot (some algo) true job_since now limit slot s)
unfolding check_slot
check_slot-Aside algo job_since now limit slot s idle =
    if_cases (Aside algo) (s.stalled == 0)
      (λ counts.
        if_cases (Aside algo) (true && s.claims algo && ltb limit (now - last_sign job_since s))
          (λ _ zero. absurd (omega arith))
          (λ signs _.
            unclaimed (s.claims algo) limit (now - last_sign job_since s) idle.no_sign signs))
      (λ aside.
        if_cases (Aside algo) (ltb s.stalled s.stamp || no_claims s.claims)
          (λ over _. no_claims-false algo s.claims (
            still_aside s.stalled s.stamp (no_claims s.claims)
              (idle.not_back (ground (arith, aside))) over))
          (λ _ zero. absurd (ground (arith, aside, zero))))

check_slots-Hashes :
    (algo : PowAlgo) (job_since now limit slot : ℕ) (slots : List Slot)
    → All (Idle algo job_since now limit) slots
    → ¬ Hashes algo (check_slots (some algo) true job_since now limit slot slots).0
unfolding check_slots
check_slots-Hashes algo job_since now limit slot [] idle h = h
check_slots-Hashes algo job_since now limit slot (s ∷ slots) idle (inl (hashes, claims)) =
    absurd
      (false≢true (sym (check_slot-Aside algo job_since now limit slot s idle.0 hashes) ∙ claims))
check_slots-Hashes algo job_since now limit slot (s ∷ slots) idle (inr h) =
    check_slots-Hashes algo job_since now limit (slot + 1) slots idle.1 h

pub check_gpu_stalls-IsCounted :
    (algo : Option PowAlgo) (has_job : Bool) (job_since now limit : ℕ) (g : Gpus)
    → IsCounted g
    → IsCounted (check_gpu_stalls algo has_job job_since now limit g).0
unfolding check_gpu_stalls
check_gpu_stalls-IsCounted algo has_job job_since now limit g counted b =
    counted b ∙ sym (check_slots-claimants b algo has_job job_since now limit 0 g.slots)

-- Where the counters are the numbers of claims and there is a job of a PoW: if every card that
-- claims it has shown no sign for longer than the limit and none that was set aside is back, then
-- after a check the GPUs do not count as mining it, so that the stand-in threads do.
pub check_gpu_stalls-releases :
    (algo : PowAlgo) (job_since now limit : ℕ) (g : Gpus)
    → IsCounted g
    → All (Idle algo job_since now limit) g.slots
    → gpus_mine (check_gpu_stalls (some algo) true job_since now limit g).0 algo ≡ false
unfolding check_gpu_stalls
check_gpu_stalls-releases algo job_since now limit g counted idle =
    let r = (check_gpu_stalls (some algo) true job_since now limit g).0 in
    elim (Bool-cases (gpus_mine r algo)) [
      | inl mined ↦ absurd (
          check_slots-Hashes algo job_since now limit 0 g.slots idle (
            (gpus_mine_iff r algo
                (check_gpu_stalls-IsCounted (some algo) true job_since now limit g counted)).0
              mined))
      | inr not_mined ↦ not_mined
    ]
