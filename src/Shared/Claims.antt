-- ===== src/Shared/Claims.antt =====
-- src/shared.rs: the claims of the GPU workers - `GpuCapability::set`, `Shared::gpus_mine`,
-- `stalled_claims` and `check_gpu_stalls`. A mask with a bit per PoW is a test of the PoW. Times
-- are microseconds.
pub mod Counts
pub mod Stalls
use bc3_online_miner.Common.{
  ℕ, zero, suc, ◌+◌, ◌-◌, ◌/◌, ◌%◌, ◌^◌, ◌++◌, max, Bool, true, false, not, ◌&&◌, ◌||◌, Option,
  none, some, List, [], ◌∷◌, ltb, ◌==◌, if◌then◌else◌, u32_mod,
}
use bc3_online_miner.Consensus.Pow.{PowAlgo, sha256d, sha3t, bc3_hash, algo_eq}

abbrev pub gpu_stall_secs : ℕ
gpu_stall_secs = 90

-- One GPU slot: an entry of each of `gpu_slot_claims`, `gpu_slot_claimed_at`,
-- `gpu_slot_stalled` and `gpu_slot_stamp`.
pub record Slot : Type 0 where
  pub claims : PowAlgo → Bool
  pub claimed_at : ℕ
  pub stalled : ℕ
  pub stamp : ℕ

pub record Gpus : Type 0 where
  pub capable : PowAlgo → ℕ
  pub slots : List Slot

unfoldable pub no_claims : (PowAlgo → Bool) → Bool
no_claims claims = not (claims sha256d || claims sha3t || claims bc3_hash)

-- What is stored at one PoW.
unfoldable pub store {ℓ} : {A : Type ℓ} → PowAlgo → A → (PowAlgo → A) → PowAlgo → A
store algo x old b = if algo_eq b algo then x else old b

unfoldable pub set_claim : PowAlgo → Bool → ℕ → Slot → Slot
unfolding store
set_claim algo capable now s = record s {
  claims = store algo capable s.claims;
  claimed_at = if capable then now else s.claimed_at;
}

-- The slot at an index, changed; past the end, nothing is.
unfoldable pub update_at : ℕ → (Slot → Slot) → List Slot → List Slot
update_at n f [] = []
update_at zero f (s ∷ slots) = f s ∷ slots
update_at (suc n) f (s ∷ slots) = s ∷ update_at n f slots

-- `fetch_add(1)` and `fetch_sub(1)` on a `u32`.
unfoldable pub count_claim : Bool → ℕ → ℕ
count_claim true n = (n + 1) % u32_mod
count_claim false n = (n + (u32_mod - 1)) % u32_mod

-- `GpuCapability::set` up to the announcement: what the worker holds, and the shared counts.
unfoldable pub set : PowAlgo → Bool → ℕ → ℕ → (PowAlgo → Bool) × Gpus → (PowAlgo → Bool) × Gpus
unfolding store set_claim update_at count_claim
set algo capable slot now (held, g) =
    if (if capable then held algo else not (held algo)) then (held, g) else (
      store algo capable held,
      record {
        capable = store algo (count_claim capable (g.capable algo)) g.capable;
        slots = update_at slot (set_claim algo capable now) g.slots;
      },
    )

-- Claims held by the slots that are set aside.
unfoldable pub stalled_claims : PowAlgo → List Slot → ℕ
stalled_claims algo [] = 0
stalled_claims algo (s ∷ slots) =
    (if not (s.stalled == 0) && s.claims algo then 1 else 0) + stalled_claims algo slots

unfoldable pub gpus_mine : Gpus → PowAlgo → Bool
unfolding stalled_claims
gpus_mine g algo = ltb (stalled_claims algo g.slots) (g.capable algo)

pub data GpuStall : Type 0 where
  set_aside : (slot idle_secs : ℕ) → GpuStall
  resumed : (slot : ℕ) → GpuStall

-- When the slot last did anything that counts.
abbrev pub last_sign : ℕ → Slot → ℕ
last_sign job_since s = max (max s.stamp s.claimed_at) job_since

-- A slot that is set aside.
abbrev pub check_stalled : ℕ → Slot → Slot × List GpuStall
check_stalled slot s =
    if ltb s.stalled s.stamp || no_claims s.claims
    then (record s { stalled = 0 }, (if no_claims s.claims then [] else resumed slot ∷ []))
    else (s, [])

-- A slot that counts.
abbrev pub check_active : PowAlgo → Bool → ℕ → ℕ → ℕ → ℕ → Slot → Slot × List GpuStall
check_active algo has_job job_since now limit slot s =
    let last = last_sign job_since s in
    if has_job && s.claims algo && ltb limit (now - last)
    then (record s { stalled = max now 1 }, set_aside slot ((now - last) / 10 ^ 6) ∷ [])
    else (s, [])

-- One round of the loop of `check_gpu_stalls`; `algo` is the current PoW.
unfoldable pub check_slot : Option PowAlgo → Bool → ℕ → ℕ → ℕ → ℕ → Slot → Slot × List GpuStall
unfolding no_claims
check_slot algo has_job job_since now limit slot s =
    if s.stalled == 0
    then (elim algo [ none ↦ (s, []) | some a ↦ check_active a has_job job_since now limit slot s ])
    else check_stalled slot s

unfoldable pub check_slots :
    Option PowAlgo → Bool → ℕ → ℕ → ℕ → ℕ → List Slot → List Slot × List GpuStall
unfolding check_slot
check_slots algo has_job job_since now limit slot [] = ([], [])
check_slots algo has_job job_since now limit slot (s ∷ slots) =
    let one = check_slot algo has_job job_since now limit slot s in
    let rest = check_slots algo has_job job_since now limit (slot + 1) slots in
    (one.0 ∷ rest.0, one.1 ++ rest.1)

-- The slots after the check and the changes found, before they are announced.
unfoldable pub check_gpu_stalls : Option PowAlgo → Bool → ℕ → ℕ → ℕ → Gpus → Gpus × List GpuStall
unfolding check_slots
check_gpu_stalls algo has_job job_since now limit g =
    let r = check_slots algo has_job job_since now limit 0 g.slots in
    (record { capable = g.capable; slots = r.0 }, r.1)
