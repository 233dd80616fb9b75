-- ===== src/Gpu/Run/Resume.antt =====
-- Where the worker goes on after a job: at the first position it has not counted.
use Prim.Native.String.{String}
use bc3_online_miner.Common.{
  ℕ, ◌+◌, ◌<◌, List, [], ◌≡◌, refl, ap, ◌∙◌, sym, subst, arith, Option, u32_mod, All, if_either,
  ◌⊎◌, inl, inr,
}
use bc3_online_miner.Shared.Job.{MinerJob}
use bc3_online_miner.Worker.Mine.Shares.{IsShare}
use bc3_online_miner.Gpu.Cursor.{Cursor}
use bc3_online_miner.Gpu.Cursor.Steps.{walk, walk-add}
use bc3_online_miner.Gpu.Run.{Outside, Setup, State, InFlight, JobEnd, device_gone}
use bc3_online_miner.Gpu.Run.Loop.{Ended, ended, hungry, begin, mine_job, is_new}
use bc3_online_miner.Gpu.Run.Chain.{begins, Chain, Chain-walk, IsLaunch, nonces}
use bc3_online_miner.Gpu.Run.Coverage.{Covers, pump-Covers}
use bc3_online_miner.Gpu.Run.Launches.{IsSound}

-- The state before a job: nothing counted yet.
pub record IsFresh (s : State) : Type 0 where
  pub within : s.cursor.nonce < u32_mod
  pub no_launches : s.finished ≡ []
  pub no_finds : s.finds ≡ []
  pub no_hashes : s.hashes ≡ 0

module _ (sha256 : List ℕ → List ℕ) (setup : Setup) (start : Cursor) where
  -- The launches that came back are launches of the job, one behind the other from `start` on, as
  -- many positions as hashes are counted, and what they led to are shares.
  pub record IsInOrder (s : State) : Type 0 where
    pub in_order : Chain setup.stride start s.finished (walk setup.stride s.hashes start)
    pub launches : All (IsLaunch sha256 setup.job) s.finished
    pub shares : All (IsShare sha256 setup.verify setup.job) s.finds

  -- Where the worker goes on: at the first position not counted; or, on a device that is gone while
  -- launches are queued ahead, one launch further.
  abbrev pub Resumes : JobEnd → State → Type 0
  Resumes e s =
      (walk setup.stride s.hashes start ≡ s.cursor)
      ⊎ ((e ≡ device_gone)
          × (1 < setup.depth)
          × (l : InFlight) × IsLaunch sha256 setup.job l
          × (begins l ≡ walk setup.stride s.hashes start)
          × (walk setup.stride (s.hashes + l.count) start ≡ s.cursor))

  abbrev pub Accounts : Ended → Type 0
  Accounts (ended e s) = IsInOrder s × Resumes e s
  Accounts (hungry s) = IsInOrder s

  sound-IsInOrder :
      (done base : Cursor) (s : State)
      → IsSound sha256 setup start done base s
      → (walk setup.stride s.hashes start ≡ done) × IsInOrder s
  sound-IsInOrder done base s sound =
      let counted : walk setup.stride s.hashes start ≡ done =
        ap (λ n. walk setup.stride n start) sound.counted
        ∙ Chain-walk setup.stride start s.finished done sound.finished in
      (
        counted,
        record {
          in_order = subst (Chain setup.stride start s.finished) (sym counted) sound.finished;
          launches = sound.came_back;
          shares = sound.shares;
        },
      )

  Covers-Accounts :
      (hex_encode : List ℕ → String) (outside : Outside) (r : Ended)
      → Covers sha256 hex_encode outside setup start r
      → Accounts r
  Covers-Accounts hex_encode outside (ended e s) (done, base, sound, empty, where_on) =
      let (counted, order) = sound-IsInOrder done base s sound in
      let at : base ≡ s.cursor =
        subst (λ ls. Chain setup.stride base ls s.cursor) empty sound.inflight in
      elim where_on [
        | inl same ↦ (order, inl (counted ∙ same ∙ at))
        | inr (away, (deep, l, launch, begun, moves)) ↦ (
          order,
          inr (
            away,
            deep,
            l,
            launch,
            begun ∙ sym counted,
            walk-add setup.stride s.hashes l.count start
                ∙ ap (walk setup.stride l.count) counted
                ∙ moves
                ∙ at,
          ),
        )
      ]
  Covers-Accounts hex_encode outside (hungry s) (done, base, sound) =
      (sound-IsInOrder done base s sound).1

begin-within :
    (setup : Setup) (prev : Option MinerJob) (worker_index : ℕ) (s : State)
    → s.cursor.nonce < u32_mod
    → (begin setup prev worker_index s).cursor.nonce < u32_mod
unfolding begin
begin-within setup prev worker_index s within =
    if_either (λ (c : Cursor). c.nonce < u32_mod) (is_new prev setup.job) (omega arith) within

-- From a state with nothing counted yet, whatever the device answers and whenever the job changes,
-- also if the model's fuel runs out: the launches that `mine_job` has finished are launches of the
-- job that follow one another from the cursor it started with, each position once, as many as are
-- counted as hashes, and every share submitted names the job and has a hash that meets the target.
-- When it ends, nothing is skipped: the cursor stands behind the positions counted. The one
-- exception is a device that is gone with a queue deeper than one; then the cursor may stand behind
-- one more launch, which was collected but not finished.
pub mine_job-Accounts :
    (sha256 : List ℕ → List ℕ) (hex_encode : List ℕ → String) (outside : Outside) (setup : Setup)
    (fuel : ℕ) (prev : Option MinerJob) (worker_index : ℕ) (s : State)
    → IsFresh s
    → Accounts sha256 setup
        (begin setup prev worker_index s).cursor
        (mine_job sha256 hex_encode outside setup fuel prev worker_index s)
unfolding mine_job begin nonces
mine_job-Accounts sha256 hex_encode outside setup fuel prev worker_index s fresh =
    let begun = begin setup prev worker_index s in
    Covers-Accounts sha256 setup begun.cursor hex_encode outside _ (
      pump-Covers sha256 hex_encode outside setup begun.cursor fuel begun begun.cursor (record {
        finished =
            subst (λ ls. Chain setup.stride begun.cursor ls begun.cursor) (sym fresh.no_launches)
              refl;
        inflight = refl;
        within = begin-within setup prev worker_index s fresh.within;
        launches = tt;
        came_back = subst (All (IsLaunch sha256 setup.job)) (sym fresh.no_launches) tt;
        cached = tt;
        shares = subst (All (IsShare sha256 setup.verify setup.job)) (sym fresh.no_finds) tt;
        counted = fresh.no_hashes ∙ sym (ap nonces fresh.no_launches);
      }))
