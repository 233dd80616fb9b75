-- ===== src/Gpu/Cursor/Steps.antt =====
-- A launch moves the cursor over exactly the positions it covers.
use bc3_online_miner.Common.{
  ℕ, zero, suc, ◌+◌, ◌-◌, ◌≤◌, ◌<◌, min, max, ◌==◌, leb, if◌then◌else◌, u32_mod, ◌≡◌, refl, ap, ◌∙◌,
  sym, arith, inl, inr, Bool-cases,
}
use bc3_online_miner.Worker.Extranonce.{saturating_add}
use bc3_online_miner.Gpu.Cursor.{Cursor, take_launch}

-- One position further: the next nonce, and after the last one the next extranonce2 of the worker.
unfoldable pub step_on : ℕ → Cursor → Cursor
step_on stride c =
    if suc c.nonce == u32_mod
    then record { en2 = saturating_add c.en2 stride; nonce = 0 }
    else record { en2 = c.en2; nonce = suc c.nonce }

-- So many positions further.
unfoldable pub walk : ℕ → ℕ → Cursor → Cursor
walk stride zero c = c
walk stride (suc n) c = walk stride n (step_on stride c)

pub walk-add :
    (stride m n : ℕ) (c : Cursor) → walk stride (m + n) c ≡ walk stride n (walk stride m c)
unfolding walk
walk-add stride zero n c = let e : 0 + n ≡ n = omega arith in ap (λ k. walk stride k c) e
walk-add stride (suc m) n c =
    let e : suc m + n ≡ suc (m + n) = omega arith in
    ap (λ k. walk stride k c) e ∙ walk-add stride m n (step_on stride c)

module _ (stride : ℕ) where
  walk-within :
      (n en2 nonce : ℕ)
      → nonce + n < u32_mod
      → walk stride n (record { en2 = en2; nonce = nonce })
        ≡ record { en2 = en2; nonce = nonce + n }
  unfolding walk step_on
  walk-within zero en2 nonce h = ground arith
  walk-within (suc n) en2 nonce h = ground (arith, walk-within n en2 (suc nonce))

  walk-over :
      (n en2 nonce : ℕ)
      → nonce < u32_mod
      → nonce + n ≡ u32_mod
      → walk stride n (record { en2 = en2; nonce = nonce })
        ≡ record { en2 = saturating_add en2 stride; nonce = 0 }
  unfolding walk step_on
  walk-over zero en2 nonce h e = absurd (omega arith)
  walk-over (suc zero) en2 nonce h e = ground arith
  walk-over (suc (suc n)) en2 nonce h e = ground (arith, walk-over (suc n) en2 (suc nonce))

  -- What `take_launch` gives for a cursor within the nonces.
  pub record IsTaken (c : Cursor) (most : ℕ) (taken : Cursor × ℕ × ℕ × ℕ) : Type 0 where
    pub from_en2 : taken.1 ≡ c.en2
    pub from_nonce : taken.2 ≡ c.nonce
    pub some_nonces : 0 < taken.3
    pub few_enough : taken.3 ≤ max most 1
    pub stays_within : c.nonce + taken.3 ≤ u32_mod
    pub moves : taken.0 ≡ walk stride taken.3 c
    pub small : taken.0.nonce < u32_mod

  pub take_launch-IsTaken :
      (c : Cursor) (most : ℕ) → c.nonce < u32_mod → IsTaken c most (take_launch c most stride)
  unfolding take_launch
  take_launch-IsTaken c most h =
      let count = min (max most 1) (u32_mod - c.nonce) in
      elim (Bool-cases (leb u32_mod (c.nonce + count))) [
        | inl wrapped ↦ rw wrapped (record {
          from_en2 = refl;
          from_nonce = refl;
          some_nonces = omega arith;
          few_enough = omega arith;
          stays_within = omega arith;
          moves = sym (walk-over count c.en2 c.nonce h (ground arith));
          small = omega arith;
        })
        | inr more ↦ rw more (record {
          from_en2 = refl;
          from_nonce = refl;
          some_nonces = omega arith;
          few_enough = omega arith;
          stays_within = omega arith;
          moves = sym (walk-within count c.en2 c.nonce (ground arith));
          small = ground arith;
        })
      ]
