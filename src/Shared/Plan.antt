-- ===== src/Shared/Plan.antt =====
-- src/shared.rs: `MiningPlan` and `PowDevices`, and `plan_cpu` of src/main.rs: where the jobs of a
-- PoW are hashed and what the user is told of it. A message is its kind; the name of the PoW in it
-- is left out.
pub mod Told
use bc3_online_miner.Common.{
  ℕ, Bool, true, false, not, ◌&&◌, ◌||◌, Option, none, some, List, ◌+◌, ◌-◌, max, ◌==◌, replicate,
  ltb, if◌then◌else◌,
}
use Prim.Native.String.{String}
use bc3_online_miner.Consensus.Pow.{PowAlgo, PowFn}
use bc3_online_miner.Worker.Role.{
  HashStatus, Unavailable, CpuRole, all_jobs, gpu_fallback, cpu_supports, cpu_unavailable,
}

pub record MiningPlan : Type 0 where
  pub gpus : ℕ
  pub cpu_threads : ℕ
  pub cpu_fallback_threads : ℕ
  pub gpu_kernel : PowAlgo → Bool

pub record PowDevices : Type 0 where
  pub gpu : Bool
  pub cpu : Bool

unfoldable pub label : PowDevices → String
label d = if d.gpu then (if d.cpu then "gpu+cpu" else "gpu") else (if d.cpu then "cpu" else "none")

-- The texts of `status`.
pub data Message : Type 0 where
  on_gpu_and_cpu on_gpu on_cpu_gpu_not_ready on_cpu : Message
  not_mining : Option Unavailable → Message
  no_device : Message
  on_cpu_until_gpu waiting_for_gpu : Message

module _ (build : Option PowFn) (hash : HashStatus) where
  unfoldable pub devices_for : MiningPlan → PowAlgo → Bool → PowDevices
  devices_for plan algo gpu = record {
    gpu = gpu;
    cpu =
        cpu_supports build hash algo
        && (ltb 0 plan.cpu_threads || (ltb 0 plan.cpu_fallback_threads && not gpu));
  }

  unfoldable pub plan_status : MiningPlan → PowAlgo → Bool → Bool × Message
  unfolding devices_for
  plan_status plan algo gpu =
      let d = devices_for plan algo gpu in
      if d.gpu
      then (true, (if d.cpu then on_gpu_and_cpu else on_gpu))
      else if d.cpu
      then (true, (if plan.gpu_kernel algo then on_cpu_gpu_not_ready else on_cpu))
      else if not (cpu_supports build hash algo)
      then (false, not_mining (cpu_unavailable build hash algo))
      else (false, no_device)

  -- `Shared::status`: `gpu` is `gpus_mine`, `opened` the workers past opening their device.
  unfoldable pub status : MiningPlan → ℕ → PowAlgo → Bool → Bool × Message
  unfolding plan_status
  status plan opened algo gpu =
      if not gpu && plan.gpu_kernel algo && ltb opened plan.gpus
      then (true, (if (devices_for plan algo false).cpu then on_cpu_until_gpu else waiting_for_gpu))
      else plan_status plan algo gpu

pub data BackendKind : Type 0 where
  auto cuda opencl cpu_only : BackendKind

abbrev for_gpus : BackendKind → ℕ → ℕ × CpuRole
for_gpus auto all_cores = (all_cores, gpu_fallback)
for_gpus _ all_cores = (0, all_jobs)

abbrev threads_for : BackendKind → ℕ → Option ℕ → ℕ → ℕ × CpuRole
threads_for backend gpus none all_cores =
    if gpus == 0 then (all_cores, all_jobs) else for_gpus backend all_cores
threads_for backend gpus (some n) all_cores =
    if n == 0
    then ((if gpus == 0 then all_cores else max (all_cores - (gpus + 1)) 1), all_jobs)
    else (n, all_jobs)

-- `plan_cpu` of main.rs: how many CPU threads, and what all of them mine.
unfoldable pub plan_cpu : BackendKind → ℕ → Option ℕ → ℕ → ℕ × CpuRole
plan_cpu backend gpus threads all_cores = threads_for backend gpus threads all_cores

-- The plan that main tells the rest of.
abbrev pub plan_of : ℕ → (PowAlgo → Bool) → ℕ × CpuRole → MiningPlan
plan_of gpus gpu_kernel (threads, all_jobs) = record {
  gpus = gpus;
  cpu_threads = threads;
  cpu_fallback_threads = 0;
  gpu_kernel = gpu_kernel;
}
plan_of gpus gpu_kernel (threads, gpu_fallback) = record {
  gpus = gpus;
  cpu_threads = 0;
  cpu_fallback_threads = threads;
  gpu_kernel = gpu_kernel;
}
