-- ===== src/Gpu/Autotune.antt =====
-- src/gpu_worker.rs: `autotune` and the launch sizes that `mine_job` starts from.
pub mod Waves
use bc3_online_miner.Common.{
  ℕ, ◌+◌, ◌*◌, ◌/◌, ◌^◌, ◌-◌, min, max, Bool, ltb, ◌&&◌, if◌then◌else◌, u32_mod,
}

abbrev pub bc3_min_batch : ℕ
bc3_min_batch = 2 ^ 8

abbrev pub bc3_max_batch : ℕ
bc3_max_batch = 2 ^ 24

abbrev pub bc3_start_batch : ℕ
bc3_start_batch = 2 ^ 8

-- 400 ms; durations are nanoseconds
abbrev pub bc3_target_launch : ℕ
bc3_target_launch = 400 * 1000000

-- `x.clamp(low, high)`
abbrev pub clamp : ℕ → ℕ → ℕ → ℕ
clamp x low high = min (max x low) high

-- `if took < target / 2 && batch < max ... else if took > target * 5 / 2 && batch > min ...`
unfoldable pub resize : ℕ → ℕ → ℕ → ℕ → ℕ → ℕ
resize batch took target low high =
    if ltb took (target / 2) && ltb batch high
    then min (min (batch * 2) (u32_mod - 1)) high
    else if ltb (target * 5 / 2) took && ltb low batch
    then max (batch / 2) low
    else batch

unfoldable pub autotune : ℕ → ℕ → ℕ → ℕ → ℕ → ℕ → ℕ
unfolding resize
autotune batch took target granule low high =
    let whole = max granule 1 in
    clamp (max (resize batch took target low high / whole) 1 * whole) (min low high) high

-- What `mine_job` sets for a launch granule: the least size, the greatest, and the first one.
unfoldable pub min_batch : ℕ → ℕ
min_batch granule = max bc3_min_batch granule / granule * granule

unfoldable pub max_batch : ℕ → ℕ
unfolding min_batch
max_batch granule = max bc3_max_batch (min_batch granule)

unfoldable pub first_batch : ℕ → ℕ → ℕ
unfolding min_batch max_batch
first_batch granule batch =
    max (clamp batch (min_batch granule) (max_batch granule) / granule) 1 * granule
