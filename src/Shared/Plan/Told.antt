-- ===== src/Shared/Plan/Told.antt =====
-- What the user is told is so.
use bc3_online_miner.Common.{
  ℕ, ◌<◌, ◌≡◌, arith, Bool, true, Option, ◌⊎◌, ◌↔◌, inl, inr, if_cases, some, none, ◌==◌, false,
}
use bc3_online_miner.Consensus.Pow.{PowAlgo, PowFn}
use bc3_online_miner.Worker.Role.{HashStatus, CpuRole, all_jobs, gpu_fallback, takes, cpu_supports}
use bc3_online_miner.Shared.Plan.{
  devices_for, status, plan_status, plan_of, for_gpus, plan_cpu, BackendKind, auto, cuda, opencl,
  cpu_only,
}

module _ (build : Option PowFn) (hash : HashStatus) (gpu_kernel : PowAlgo → Bool) (gpus : ℕ) where
  devices_for-Takes :
      (threads : ℕ) (role : CpuRole) (algo : PowAlgo) (gpu : Bool)
      → ((devices_for build hash (plan_of gpus gpu_kernel (threads, role)) algo gpu).cpu ≡ true)
        ↔ ((cpu_supports build hash algo ≡ true) × (0 < threads) × (takes role gpu ≡ true))
  unfolding devices_for takes
  devices_for-Takes threads all_jobs algo gpu = ground arith
  devices_for-Takes threads gpu_fallback algo gpu = ground arith

  told-mined :
      (threads : ℕ) (role : CpuRole) (algo : PowAlgo) (gpu : Bool)
      → let plan = plan_of gpus gpu_kernel (threads, role) in
        ((plan_status build hash plan algo gpu).0 ≡ true)
        ↔ ((gpu ≡ true) ⊎ ((devices_for build hash plan algo gpu).cpu ≡ true))
  unfolding plan_status devices_for
  told-mined threads all_jobs algo gpu = ground arith
  told-mined threads gpu_fallback algo gpu = ground arith

  status-told :
      (threads : ℕ) (role : CpuRole) (opened : ℕ) (algo : PowAlgo) (gpu : Bool)
      → let plan = plan_of gpus gpu_kernel (threads, role) in
        ((status build hash plan opened algo gpu).0 ≡ true) ↔ (
          (gpu ≡ true)
          ⊎ ((gpu_kernel algo ≡ true) × (opened < gpus))
          ⊎ ((plan_status build hash plan algo gpu).0 ≡ true))
  unfolding status plan_status devices_for
  status-told threads all_jobs opened algo gpu = ground arith
  status-told threads gpu_fallback opened algo gpu = ground arith

-- When the CPU is meant to mine jobs that the GPUs mine or do not: with threads asked for by number;
-- with `--threads 0`, if there is a GPU - one thread at least - or a core; with nothing asked for,
-- if there are cores, and either no GPU, or in auto one that does not take the job.
abbrev pub CpuMines : BackendKind → ℕ → Option ℕ → ℕ → Bool → Type 0
CpuMines backend gpus (some n) all_cores gpu = (0 < n) ⊎ (0 < gpus) ⊎ (0 < all_cores)
CpuMines backend gpus none all_cores gpu =
    (0 < all_cores) × ((gpus ≡ 0) ⊎ ((backend ≡ auto) × (gpu ≡ false)))

-- A thread that is started takes the job.
abbrev Started : Bool → ℕ × CpuRole → Type 0
Started gpu (threads, role) = (0 < threads) × (takes role gpu ≡ true)

for_gpus-Started :
    (backend : BackendKind) (all_cores : ℕ) (gpu : Bool)
    → Started gpu (for_gpus backend all_cores)
      ↔ ((0 < all_cores) × (backend ≡ auto) × (gpu ≡ false))
unfolding takes
for_gpus-Started auto all_cores gpu = ground arith
for_gpus-Started cuda all_cores gpu = ground arith
for_gpus-Started opencl all_cores gpu = ground arith
for_gpus-Started cpu_only all_cores gpu = ground arith

plan_cpu-Started :
    (backend : BackendKind) (gpus : ℕ) (threads : Option ℕ) (all_cores : ℕ) (gpu : Bool)
    → Started gpu (plan_cpu backend gpus threads all_cores)
      ↔ CpuMines backend gpus threads all_cores gpu
unfolding plan_cpu takes
plan_cpu-Started backend gpus none all_cores gpu =
    if_cases (λ p. Started gpu p ↔ CpuMines backend gpus none all_cores gpu) (gpus == 0)
      (λ e. ground arith) (λ e. let g = for_gpus-Started backend all_cores gpu in ground (arith, g))
plan_cpu-Started backend gpus (some n) all_cores gpu = ground arith

module _ (build : Option PowFn) (hash : HashStatus) (gpu_kernel : PowAlgo → Bool)
    (backend : BackendKind) (gpus : ℕ) (threads : Option ℕ) (all_cores : ℕ) where
  cpu-CpuMines :
      (algo : PowAlgo) (gpu : Bool)
      → let plan = plan_of gpus gpu_kernel (plan_cpu backend gpus threads all_cores) in
        ((devices_for build hash plan algo gpu).cpu ≡ true)
        ↔ ((cpu_supports build hash algo ≡ true) × CpuMines backend gpus threads all_cores gpu)
  cpu-CpuMines algo gpu =
      let (count, role) = plan_cpu backend gpus threads all_cores in
      let devices = devices_for-Takes build hash gpu_kernel gpus count role algo gpu in
      let started = plan_cpu-Started backend gpus threads all_cores gpu in
      (
        λ h. let d = devices.0 h in (d.0, started.0 (d.1, d.2)),
        λ h. let t = started.1 h.1 in devices.1 (h.0, t.0, t.1),
      )

  -- Whatever the command line asks for, the machine has and the GPUs have opened, and whether they
  -- take the PoW or not: the devices that are named for a PoW have the CPU among them just when the
  -- CPU can hash it, as far as is known, and is meant to mine such jobs; and the user is told that a
  -- PoW is mined just when the GPUs take it, or they have a kernel for it and not all of them are
  -- past opening, or the CPU mines it. The second is the message that the CPU mines until the GPU is
  -- ready, or that it is waited for: then nothing may mine yet.
  pub status-CpuMines :
      (opened : ℕ) (algo : PowAlgo) (gpu : Bool)
      → let plan = plan_of gpus gpu_kernel (plan_cpu backend gpus threads all_cores) in
        let by_cpu =
          (cpu_supports build hash algo ≡ true) × CpuMines backend gpus threads all_cores gpu in
        (((devices_for build hash plan algo gpu).cpu ≡ true) ↔ by_cpu)
        × (((status build hash plan opened algo gpu).0 ≡ true)
            ↔ ((gpu ≡ true) ⊎ ((gpu_kernel algo ≡ true) × (opened < gpus)) ⊎ by_cpu))
  status-CpuMines opened algo gpu =
      let (count, role) = plan_cpu backend gpus threads all_cores in
      let cpu = cpu-CpuMines algo gpu in
      let said = status-told build hash gpu_kernel gpus count role opened algo gpu in
      let mined = told-mined build hash gpu_kernel gpus count role algo gpu in
      (
        cpu,
        (
          λ h. elim (said.0 h) [
            | inl g ↦ inl g
            | inr r ↦ elim r [
              | inl waits ↦ inr (inl waits)
              | inr p ↦ elim (mined.0 p) [ inl g ↦ inl g | inr c ↦ inr (inr (cpu.0 c)) ]
            ]
          ],
          λ h. elim h [
            | inl g ↦ said.1 (inl g)
            | inr r ↦ elim r [
              | inl waits ↦ said.1 (inr (inl waits))
              | inr c ↦ said.1 (inr (inr (mined.1 (inr (cpu.1 c)))))
            ]
          ],
        ),
      )
