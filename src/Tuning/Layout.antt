-- ===== src/Tuning/Layout.antt =====
-- src/tuning.rs: `digits`, `rows`, `table_bytes`, `largest_fitting`.
pub mod Cover
pub mod Sizes
use bc3_online_miner.Common.{
  ℕ, zero, suc, ◌+◌, ◌-◌, ◌*◌, ◌/◌, ◌^◌, min, Bool, ◌&&◌, Option, none, some, List, [], ◌∷◌, ◌++◌,
  replicate, leb, ltb, ◌==◌, if◌then◌else◌, ◌>>=◌,
}

abbrev pub start_window : ℕ
start_window = 16

abbrev pub bigger : List ℕ
bigger = 24 ∷ 22 ∷ 20 ∷ 19 ∷ 18 ∷ []

abbrev pub vram_spare : ℕ
vram_spare = 2 ^ 30

-- `256u32.div_ceil(window)`
unfoldable pub div_ceil : ℕ → ℕ → ℕ
div_ceil n d = (n + d - 1) / d

unfoldable pub digits : ℕ → Option (List ℕ)
unfolding div_ceil
digits window =
    if leb 2 window && leb window 20
    then some (replicate (div_ceil 256 window) window)
    else if window == 22
    then some (replicate 8 21 ++ replicate 4 22)
    else if window == 24
    then some (replicate 8 23 ++ replicate 3 24)
    else none

pub record Row : Type 0 where
  pub pos : ℕ
  pub places : ℕ
  pub points : ℕ

-- The rows from the bit `pos` on.
unfoldable pub rows_from : ℕ → List ℕ → List Row
rows_from pos [] = []
rows_from pos (width ∷ widths) =
    let bits = min width (256 - pos) in
    record { pos = pos; places = 2 ^ width - 1; points = 2 ^ bits - 1 }
    ∷ rows_from (pos + bits) widths

unfoldable pub rows : ℕ → Option (List Row)
unfolding digits rows_from
rows window = do widths ← digits window; some (rows_from 0 widths)

abbrev pub power_tables_u64 : ℕ
power_tables_u64 = 8 * 256 + 16 * 256 * 2 + 32 * 256 * 4

unfoldable pub all_places : List Row → ℕ
all_places [] = 0
all_places (r ∷ rs) = r.places + all_places rs

unfoldable pub table_bytes : ℕ → ℕ
unfolding rows all_places
table_bytes window = elim (rows window) [
  | none ↦ 0
  | some rs ↦ (power_tables_u64 + 4 * all_places rs * 8) * 8
]

-- `find` of the first window whose tables fit.
unfoldable pub first_fitting : ℕ → List ℕ → Option ℕ
first_fitting free_vram [] = none
first_fitting free_vram (w ∷ ws) =
    if leb (table_bytes w + vram_spare) free_vram then some w else first_fitting free_vram ws

unfoldable pub largest_fitting : ℕ → Option ℕ
unfolding first_fitting table_bytes
largest_fitting free_vram = first_fitting free_vram bigger
