-- ===== src/Gpu/Devices.antt =====
-- src/backend/mod.rs: `GpuDevice`, `select_gpu` and `pick_opencl_for_cuda`. The comparison of names
-- and the search of a vendor's text are the standard library's, and so parameters.
pub mod Positions
pub mod Picks
use Prim.Native.String.{String}
use bc3_online_miner.Common.{
  ℕ, zero, suc, ◌+◌, Bool, true, false, ◌&&◌, Option, none, some, List, [], ◌∷◌, ◌==◌, leb, length,
  get_elem?, take, drop, if◌then◌else◌, ◌>>=◌,
}
use bc3_online_miner.Common.Results.{Result, ok, err}

pub data GpuDevice : Type 0 where
  cuda : ℕ → String → GpuDevice
  -- platform, device, name and vendor
  opencl : ℕ → ℕ → String → String → GpuDevice

unfoldable pub is_cuda : GpuDevice → Bool
is_cuda (cuda index name) = true
is_cuda (opencl platform device name vendor) = false

pub data SelectError : Type 0 where
  -- the id, and how many devices there are
  out_of_range : ℕ → ℕ → SelectError

-- One device of those found, if the command line names one.
unfoldable pub select_gpu : List GpuDevice → Option ℕ → Result SelectError (List GpuDevice)
select_gpu found none = ok found
select_gpu [] (some id) = ok []
select_gpu (d ∷ ds) (some id) =
    if leb (length (d ∷ ds)) id
    then err (out_of_range id (length (d ∷ ds)))
    else ok (take 1 (drop id (d ∷ ds)))

module _ (eq_ignore_ascii_case : String → String → Bool) (names_nvidia : String → Bool) where
  abbrev pub is_cuda_named : String → GpuDevice → Bool
  is_cuda_named name (cuda index n) = eq_ignore_ascii_case n name
  is_cuda_named name (opencl platform device n vendor) = false

  abbrev pub is_opencl_named : String → GpuDevice → Bool
  is_opencl_named name (cuda index n) = false
  is_opencl_named name (opencl platform device n vendor) = eq_ignore_ascii_case n name

  abbrev pub is_nvidia : GpuDevice → Bool
  is_nvidia (cuda index n) = false
  is_nvidia (opencl platform device n vendor) = names_nvidia vendor

  abbrev pub has_index : ℕ → GpuDevice → Bool
  has_index index (cuda i n) = i == index
  has_index index (opencl platform device n vendor) = false

  -- `filter(..).position(..)`: how many that pass the first test come before the one that passes
  -- both, if there is one.
  unfoldable pub rank_from : String → ℕ → ℕ → List GpuDevice → Option ℕ
  rank_from name index before [] = none
  rank_from name index before (d ∷ ds) =
      let next = rank_from name index (before + 1) ds in
      let same = rank_from name index before ds in
      if is_cuda_named name d then (if has_index index d then some before else next) else same

  -- `enumerate().filter(..).map(|(i, _)| i)`
  unfoldable pub positions : (GpuDevice → Bool) → ℕ → List GpuDevice → List ℕ
  positions test n [] = []
  positions test n (d ∷ ds) =
      let rest = positions test (n + 1) ds in if test d then n ∷ rest else rest

  unfoldable pub by_rank : List GpuDevice → List GpuDevice → ℕ → String → Option ℕ
  unfolding rank_from positions
  by_rank cudas opencls index name = do
    rank ← rank_from name index 0 cudas
    get_elem? (positions (is_opencl_named name) 0 opencls) rank

  -- Where no name matches: the only card of its vendor, or the only one.
  unfoldable pub by_elimination : List GpuDevice → List GpuDevice → Option ℕ
  unfolding positions
  by_elimination cudas opencls =
      let nvidia = positions is_nvidia 0 opencls in
      if (length nvidia == 1) && (length cudas == 1)
      then get_elem? nvidia 0
      else if (length opencls == 1) && (length cudas == 1)
      then some 0
      else none

  abbrev pub or_else : Option ℕ → Option ℕ → Option ℕ
  or_else none other = other
  or_else (some i) other = some i

  unfoldable pub pick_opencl_for_cuda : List GpuDevice → List GpuDevice → ℕ → String → Option ℕ
  unfolding by_rank by_elimination
  pick_opencl_for_cuda cudas opencls index name =
      or_else (by_rank cudas opencls index name) (by_elimination cudas opencls)
