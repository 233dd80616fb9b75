-- ===== src/Tuning/Layout/Cover.antt =====
-- The rows of a table cut the 256 bits of a scalar, and the largest window that fits is chosen.
use bc3_online_miner.Common.{
  ℕ, zero, suc, ◌+◌, ◌-◌, ◌*◌, ◌^◌, ◌≤◌, ◌<◌, min, false, ◌&&◌, Option, none, some, List, [], ◌∷◌,
  ◌≡◌, refl, arith, leb, ◌==◌, ◌⊎◌, inl, inr, Bool-cases, leb→le, leb-false, All, ◌++◌, ◌/◌,
  replicate,
}
use native.Mathlib.Nat.{pow-le-pow_right, one-le-pow, le_refl, div-mul-le_self, lt-div-mul-add}
use bc3_online_miner.Tuning.Layout.{
  div_ceil, rows, rows_from, Row, table_bytes, largest_fitting, first_fitting, bigger, vram_spare,
  start_window,
}

-- The rows start at `pos` and follow one another up to bit 256; a row has room for its points.
abbrev pub Cut : ℕ → List Row → Type 0
Cut pos [] = pos ≡ 256
Cut pos (r ∷ rs) =
    (bits : ℕ) × (r.pos ≡ pos)
    × (0 < bits)
    × (r.points + 1 ≡ 2 ^ bits)
    × (r.points ≤ r.places)
    × Cut (pos + bits) rs

-- Widths that reach bit 256 with the last of them.
abbrev Reaches : ℕ → List ℕ → Type 0
Reaches pos [] = 256 ≤ pos
Reaches pos (w ∷ ws) = (pos < 256) × (0 < w) × Reaches (pos + w) ws

Reaches-clipped :
    (pos w : ℕ) (ws : List ℕ)
    → pos < 256
    → Reaches (pos + w) ws
    → Reaches (pos + min w (256 - pos)) ws
Reaches-clipped pos w [] h r = omega arith
Reaches-clipped pos w (v ∷ ws) h r =
    let e : pos + min w (256 - pos) ≡ pos + w = omega (arith, r.0) in rw e r

rows_from-Cut : (pos : ℕ) (ws : List ℕ) → pos ≤ 256 → Reaches pos ws → Cut pos (rows_from pos ws)
unfolding rows_from
rows_from-Cut pos [] h r = omega arith
rows_from-Cut pos (w ∷ ws) h r =
    let bits = min w (256 - pos) in
    let room : 2 ^ bits ≤ 2 ^ w =
      pow-le-pow_right {n = 2} (omega arith) {i = bits} {j = w} (omega arith) in
    let some_points : 1 ≤ 2 ^ bits = one-le-pow bits 2 (omega arith) in
    (
      bits,
      refl,
      omega (arith, r.0, r.1),
      omega arith,
      omega arith,
      rows_from-Cut (pos + bits) ws (omega arith) (Reaches-clipped pos w ws r.0 r.2),
    )

replicate-Reaches :
    (n w pos : ℕ) → 0 < w → pos + n * w < 256 + w → 256 ≤ pos + n * w → Reaches pos (replicate n w)
replicate-Reaches zero w pos h k l = omega arith
replicate-Reaches (suc n) w pos h k l =
    (omega arith, h, replicate-Reaches n w (pos + w) h (omega arith) (omega arith))

uniform-Reaches : (w : ℕ) → 0 < w → Reaches 0 (replicate (div_ceil 256 w) w)
unfolding div_ceil
uniform-Reaches w h =
    replicate-Reaches ((256 + w - 1) / w) w 0 h (omega (arith, div-mul-le_self (256 + w - 1) w))
      (omega (arith, lt-div-mul-add {a = 256 + w - 1} {b = w} h))

zero_le_256 : 0 ≤ 256
zero_le_256 = omega arith

abbrev widths_22 : List ℕ
widths_22 = replicate 8 21 ++ replicate 4 22

widths_22-Reaches : Reaches 0 widths_22
widths_22-Reaches = omega arith

abbrev widths_24 : List ℕ
widths_24 = replicate 8 23 ++ replicate 3 24

widths_24-Reaches : Reaches 0 widths_24
widths_24-Reaches = omega arith

-- For every window, the rows of its table cut the 256 bits of a scalar from bit 0 on, without gap
-- or overlap; a window without a table is 0, 1, 21, 23 or above 24.
pub rows-Cut :
    (window : ℕ)
    → ((rows window ≡ none) × ((window < 2) ⊎ (window ≡ 21) ⊎ (window ≡ 23) ⊎ (24 < window)))
      ⊎ ((rs : List Row) × (rows window ≡ some rs) × Cut 0 rs)
unfolding rows
rows-Cut window = elim (Bool-cases (leb 2 window && leb window 20)) [
  | inl uniform ↦
      let ws = replicate (div_ceil 256 window) window in
      rw uniform (
        inr (
          rows_from 0 ws,
          refl,
          rows_from-Cut 0 ws (omega arith) (uniform-Reaches window (ground arith)),
        ))
  | inr other ↦ rw other (elim (Bool-cases (window == 22)) [
    | inl at_22 ↦
        rw at_22 (
          inr
            (rows_from 0 widths_22, refl, rows_from-Cut 0 widths_22 zero_le_256 widths_22-Reaches))
    | inr not_22 ↦ rw not_22 (elim (Bool-cases (window == 24)) [
      | inl at_24 ↦ rw at_24 (
          inr
            (rows_from 0 widths_24, refl, rows_from-Cut 0 widths_24 zero_le_256 widths_24-Reaches))
      | inr not_24 ↦ rw not_24 (inl (refl, ground arith))
    ])
  ])
]

-- The windows above the start that a card has room for.
abbrev pub HasRoom : ℕ → ℕ → Type 0
HasRoom free_vram w = table_bytes w + vram_spare ≤ free_vram

no_room :
    (free_vram w : ℕ) → (leb (table_bytes w + vram_spare) free_vram ≡ false) → ¬ HasRoom free_vram w
no_room free_vram w h r = omega (arith, leb-false (table_bytes w + vram_spare) free_vram h, r)

-- Along a list of windows, largest first.
abbrev Descending : List ℕ → Type 0
Descending [] = Unit
Descending (w ∷ ws) = (start_window < w) × All (λ v. v ≤ w) ws × Descending ws

abbrev pub Chosen : ℕ → List ℕ → Option ℕ → Type 0
Chosen free_vram windows none = All (λ w. ¬ HasRoom free_vram w) windows
Chosen free_vram windows (some w) =
    (start_window < w) × HasRoom free_vram w × All (λ v. HasRoom free_vram v → v ≤ w) windows

below-All :
    (w free_vram : ℕ) (ws : List ℕ)
    → All (λ v. v ≤ w) ws
    → All (λ v. HasRoom free_vram v → v ≤ w) ws
below-All w free_vram [] h = tt
below-All w free_vram (v ∷ ws) h = ((λ _. h.0), below-All w free_vram ws h.1)

Chosen-skip :
    (free_vram w : ℕ) (ws : List ℕ) (chosen : Option ℕ)
    → ¬ HasRoom free_vram w
    → Chosen free_vram ws chosen
    → Chosen free_vram (w ∷ ws) chosen
Chosen-skip free_vram w ws none h c = (h, c)
Chosen-skip free_vram w ws (some v) h c = (c.0, c.1, ((λ r. absurd (h r)), c.2))

first_fitting-Chosen :
    (free_vram : ℕ) (windows : List ℕ)
    → Descending windows
    → Chosen free_vram windows (first_fitting free_vram windows)
unfolding first_fitting
first_fitting-Chosen free_vram [] h = tt
first_fitting-Chosen free_vram (w ∷ ws) h =
    elim (Bool-cases (leb (table_bytes w + vram_spare) free_vram)) [
      | inl fits ↦ rw fits (
        h.0,
        leb→le (table_bytes w + vram_spare) free_vram fits,
        ((λ _. le_refl w), below-All w free_vram ws h.1),
      )
      | inr not_fits ↦ rw not_fits (
          Chosen-skip free_vram w ws (first_fitting free_vram ws) (no_room free_vram w not_fits)
            (first_fitting-Chosen free_vram ws h.2))
    ]

-- If nothing is chosen, no window tried has room; what is chosen is above the start window, has
-- room and is at least as large as every other window tried that has.
pub largest_fitting-Chosen : (free_vram : ℕ) → Chosen free_vram bigger (largest_fitting free_vram)
unfolding largest_fitting
largest_fitting-Chosen free_vram = first_fitting-Chosen free_vram bigger (omega arith)
