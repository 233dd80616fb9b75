-- ===== src/Gpu/Autotune/Waves.antt =====
-- The launch size stays a whole number of waves between its bounds.
use native.Mathlib.Nat.{le-div_iff_mul-le, div-mul-le_self, mul-le-mul_right}
use bc3_online_miner.Common.{
  ℕ, ◌*◌, ◌/◌, ◌≤◌, ◌<◌, min, max, Bool, ltb, ◌&&◌, u32_mod, ◌≡◌, refl, arith, if_cases, true,
  false,
}
use bc3_online_miner.Gpu.Autotune.{
  resize, autotune, clamp, min_batch, max_batch, first_batch, bc3_min_batch,
}

-- A whole number of waves within the bounds.
pub record IsWhole (granule low high batch : ℕ) : Type 0 where
  pub waves : (k : ℕ) × (batch ≡ k * granule)
  pub at_least : low ≤ batch
  pub at_most : batch ≤ high

&&-left : (a b : Bool) → (a && b) ≡ true → a ≡ true
&&-left true b e = refl
&&-left false b e = e

&&-right : (a b : Bool) → (a && b) ≡ true → b ≡ true
&&-right true b e = e
&&-right false b e = ground (arith, e)

-- Doubled, halved or kept, the size stays within the bounds.
resize-within :
    (batch took target low high : ℕ)
    → low ≤ batch
    → batch ≤ high
    → high < u32_mod
    → (low ≤ resize batch took target low high) × (resize batch took target low high ≤ high)
unfolding resize
resize-within batch took target low high above below word =
    if_cases (λ r. (low ≤ r) × (r ≤ high)) (ltb took (target / 2) && ltb batch high)
      (λ e. (omega arith, omega arith))
      (λ _.
        if_cases (λ r. (low ≤ r) × (r ≤ high)) (ltb (target * 5 / 2) took && ltb low batch)
          (λ e. (omega arith, omega arith)) (λ _. (above, below)))

-- Rounding down to whole waves stays above a bound that is itself whole.
round_down :
    (granule low high x m : ℕ)
    → 0 < granule
    → 0 < m
    → low ≡ m * granule
    → low ≤ x
    → x ≤ high
    → IsWhole granule low high (max (x / granule) 1 * granule)
round_down granule low high x m pos some_waves whole above below =
    let q = x / granule in
    let more : m ≤ q = (le-div_iff_mul-le pos).1 (omega (arith, whole)) in
    let down : q * granule ≤ x = div-mul-le_self x granule in
    let one : max q 1 ≡ q = omega (arith, more) in
    let up : m * granule ≤ q * granule = mul-le-mul_right granule more in
    rw one (record {
      waves = (q, refl);
      at_least = omega (arith, whole, up);
      at_most = omega (arith, down);
    })

clamp-inside : (x low high : ℕ) → low ≤ x → x ≤ high → clamp x (min low high) high ≡ x
clamp-inside x low high above below = omega arith

autotune-IsWhole :
    (batch took target granule low high m : ℕ)
    → 0 < granule
    → 0 < m
    → low ≡ m * granule
    → high < u32_mod
    → low ≤ batch
    → batch ≤ high
    → IsWhole granule low high (autotune batch took target granule low high)
unfolding autotune
autotune-IsWhole batch took target granule low high m pos some_waves whole word above below =
    let within = resize-within batch took target low high above below word in
    let sized =
      round_down granule low high (resize batch took target low high) m pos some_waves whole
        within.0 within.1 in
    let one : max granule 1 ≡ granule = omega arith in
    rw
      (
        one,
        clamp-inside (max (resize batch took target low high / granule) 1 * granule) low high
            sized.at_least sized.at_most,
      )
      sized

-- The least size is a whole wave at least.
min_batch-waves :
    (granule : ℕ)
    → 0 < granule
    → (0 < max bc3_min_batch granule / granule) × (min_batch granule ≤ max bc3_min_batch granule)
unfolding min_batch
min_batch-waves granule pos =
    ((le-div_iff_mul-le pos).1 (omega arith), div-mul-le_self (max bc3_min_batch granule) granule)

-- For a card with a launch granule of at least 1, in 32 bits, whatever launch size was left from
-- before: the size a job starts with is a whole number of granules between the least and the
-- greatest size of that granule; and if a size is, then so is what `autotune` makes of it, however
-- long the launch took.
pub first_batch-autotune-IsWhole :
    (granule left_over took target : ℕ)
    → 0 < granule
    → granule < u32_mod
    → IsWhole granule (min_batch granule) (max_batch granule) (first_batch granule left_over)
      × ((batch : ℕ)
          → IsWhole granule (min_batch granule) (max_batch granule) batch
          → IsWhole granule
              (min_batch granule)
              (max_batch granule)
              (autotune batch took target granule (min_batch granule) (max_batch granule)))
unfolding first_batch max_batch min_batch
first_batch-autotune-IsWhole granule left_over took target pos word =
    let (some_waves, below) = min_batch-waves granule pos in
    let m = max bc3_min_batch granule / granule in
    (
      round_down granule (min_batch granule) (max_batch granule)
          (clamp left_over (min_batch granule) (max_batch granule)) m pos some_waves refl
          (omega arith) (omega arith),
      λ batch h.
          autotune-IsWhole batch took target granule (min_batch granule) (max_batch granule) m pos
            some_waves refl (omega (arith, below)) h.at_least h.at_most,
    )
