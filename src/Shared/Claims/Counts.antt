-- ===== src/Shared/Claims/Counts.antt =====
-- The counter of a PoW is the number of the slots that claim it, so `gpus_mine` says whether one
-- of them hashes.
use bc3_online_miner.Common.{
  ℕ, zero, suc, ◌+◌, ◌≤◌, ◌<◌, Bool, true, false, not, some, List, [], ◌∷◌, ◌≡◌, refl, ap, sym, ◌∙◌,
  arith, if◌then◌else◌, u32_mod, length, get_elem?, ◌↔◌, ◌⊎◌, if_cases,
}
use bc3_online_miner.Consensus.Pow.{PowAlgo, algo_eq}
use bc3_online_miner.Consensus.Pow.Version.{algo_eq_iff}
use bc3_online_miner.Shared.Claims.{
  Slot, Gpus, store, set_claim, update_at, count_claim, set, stalled_claims, gpus_mine,
}

abbrev pub claimed : Bool → ℕ
claimed true = 1
claimed false = 0

-- The slots that claim a PoW.
abbrev pub claimants : PowAlgo → List Slot → ℕ
claimants algo [] = 0
claimants algo (s ∷ slots) = claimed (s.claims algo) + claimants algo slots

abbrev pub IsCounted : Gpus → Type 0
IsCounted g = (algo : PowAlgo) → g.capable algo ≡ claimants algo g.slots

-- A slot that claims a PoW and is not set aside.
abbrev pub Hashes : PowAlgo → List Slot → Type 0
Hashes algo [] = ⊥
Hashes algo (s ∷ slots) = ((s.stalled ≡ 0) × (s.claims algo ≡ true)) ⊎ Hashes algo slots

stalled-le : (algo : PowAlgo) (slots : List Slot) → stalled_claims algo slots ≤ claimants algo slots
unfolding stalled_claims
stalled-le algo [] = omega arith
stalled-le algo (s ∷ slots) = ground (arith, stalled-le algo slots)

Hashes-iff :
    (algo : PowAlgo) (slots : List Slot)
    → (stalled_claims algo slots < claimants algo slots) ↔ Hashes algo slots
unfolding stalled_claims
Hashes-iff algo [] = ((λ h. omega arith), λ h. absurd h)
Hashes-iff algo (s ∷ slots) = (
  (λ h. ground (arith, Hashes-iff algo slots, stalled-le algo slots)),
  λ h. ground (arith, Hashes-iff algo slots, stalled-le algo slots),
)

-- Where the counters are the numbers of claims, the GPUs mine a PoW exactly if some slot claims it
-- and is not set aside.
pub gpus_mine_iff :
    (g : Gpus) (algo : PowAlgo) → IsCounted g → (gpus_mine g algo ≡ true) ↔ Hashes algo g.slots
unfolding gpus_mine
gpus_mine_iff g algo counted = rw (counted algo) (
  (λ h. (Hashes-iff algo g.slots).0 (ground arith)),
  λ h. ground (arith, (Hashes-iff algo g.slots).1 h),
)

claimants-update :
    (a : PowAlgo) (n : ℕ) (f : Slot → Slot) (slots : List Slot) (s : Slot)
    → get_elem? slots n ≡ some s
    → claimants a (update_at n f slots) + claimed (s.claims a)
      ≡ claimants a slots + claimed ((f s).claims a)
unfolding update_at
claimants-update a n f [] s e = cc
claimants-update a zero f (x ∷ slots) s e = let same : x ≡ s = cc in rw same (omega arith)
claimants-update a (suc n) f (x ∷ slots) s e = omega (arith, claimants-update a n f slots s e)

claimants-le : (a : PowAlgo) (slots : List Slot) → claimants a slots ≤ length slots
claimants-le a [] = omega arith
claimants-le a (s ∷ slots) = ground (arith, claimants-le a slots)

get_elem?-update :
    (n : ℕ) (f : Slot → Slot) (slots : List Slot) (s : Slot)
    → get_elem? slots n ≡ some s
    → get_elem? (update_at n f slots) n ≡ some (f s)
unfolding update_at
get_elem?-update n f [] s e = cc
get_elem?-update zero f (x ∷ slots) s e = let same : x ≡ s = cc in ap (λ t. some (f t)) same
get_elem?-update (suc n) f (x ∷ slots) s e = get_elem?-update n f slots s e

-- What a worker holds is what its slot claims.
abbrev pub IsHeld : ℕ → (PowAlgo → Bool) × Gpus → Type 0
IsHeld slot (held, g) =
    (s : Slot) × (get_elem? g.slots slot ≡ some s) × ((a : PowAlgo) → held a ≡ s.claims a)

counted_at :
    (here capable claims claims_here : Bool) (count count_here n : ℕ)
    → (here ≡ true → (claims ≡ claims_here) × (count ≡ count_here))
    → claims_here ≡ not capable
    → n + claimed claims ≡ count + claimed (if here then capable else claims)
    → count < u32_mod
    → n < u32_mod
    → (if here then count_claim capable count_here else count) ≡ n
unfolding count_claim
counted_at false capable claims claims_here count count_here n at h e small small' =
    omega (arith, e)
counted_at true true claims claims_here count count_here n at h e small small' =
    let off : claims ≡ false = (at refl).0 ∙ h in
    omega (arith, e, ap claimed off, (at refl).1, small, small')
counted_at true false claims claims_here count count_here n at h e small small' =
    let on : claims ≡ true = (at refl).0 ∙ h in
    omega (arith, e, ap claimed on, (at refl).1, small, small')

length-update :
    (n : ℕ) (f : Slot → Slot) (slots : List Slot) → length (update_at n f slots) ≡ length slots
unfolding update_at
length-update n f [] = refl
length-update zero f (s ∷ slots) = refl
length-update (suc n) f (s ∷ slots) = omega (arith, length-update n f slots)

if_agree :
    (b capable : Bool) {x y : Bool}
    → x ≡ y
    → (if b then capable else x) ≡ (if b then capable else y)
if_agree b capable e = ap (λ t. if b then capable else t) e

changes : (capable held : Bool) → (if capable then held else not held) ≡ false → held ≡ not capable
changes true held h = h
changes false true h = refl
changes false false h = cc

-- With fewer than 2^32 slots: where the counters are the numbers of claims and a worker holds what
-- its slot claims, claiming or releasing a PoW keeps both.
pub set-IsCounted :
    (algo : PowAlgo) (capable : Bool) (slot now : ℕ) (held : PowAlgo → Bool) (g : Gpus)
    → length g.slots < u32_mod
    → IsCounted g
    → IsHeld slot (held, g)
    → let r = set algo capable slot now (held, g) in IsCounted r.1 × IsHeld slot r
unfolding set store set_claim
set-IsCounted algo capable slot now held g few counted (s, at, same) =
    let f = set_claim algo capable now in
    let slots = update_at slot f g.slots in
    if_cases (λ r. IsCounted r.1 × IsHeld slot r) (if capable then held algo else not (held algo))
      (λ _. (counted, (s, at, same)))
      (λ off. (
        (λ a.
            counted_at (algo_eq a algo) capable (s.claims a) (s.claims algo) (g.capable a)
              (g.capable algo) (claimants a slots)
              (λ here.
                let e : a ≡ algo = (algo_eq_iff a algo).0 here in (ap s.claims e, ap g.capable e))
              (sym (same algo) ∙ changes capable (held algo) off)
              (omega (arith, claimants-update a slot f g.slots s at, counted a))
              (omega (arith, counted a, claimants-le a g.slots, few))
              (omega (arith, claimants-le a slots, length-update slot f g.slots, few))),
        (
          f s,
          get_elem?-update slot f g.slots s at,
          λ a. if_agree (algo_eq a algo) capable (same a),
        ),
      ))
