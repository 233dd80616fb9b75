-- ===== src/Gpu/Run/Launches.antt =====
-- `top_up` and `device_error` keep the launches in flight a chain that ends at the cursor.
use bc3_online_miner.Common.{
  ℕ, zero, suc, ◌+◌, ◌<◌, max, List, [], ◌∷◌, ◌==◌, ◌≡◌, refl, ap, ◌∙◌, sym, arith, true, Option,
  none, some, u32_mod, All, All-append, length, if_cases, if_either, ltb, leb, ==_iff,
}
use bc3_online_miner.Worker.Extranonce.{en2_fits}
use bc3_online_miner.Worker.Mine.{header_of}
use bc3_online_miner.Worker.Mine.Shares.{IsShare}
use bc3_online_miner.Gpu.Budget.{chunk}
use bc3_online_miner.Gpu.Cursor.{Cursor, take_launch}
use bc3_online_miner.Gpu.Cursor.Steps.{IsTaken, take_launch-IsTaken}
use bc3_online_miner.Gpu.Run.{
  Outside, Setup, State, InFlight, En2Header, en2_header, header_or_new, JobEnd, max_scan_errors,
}
use bc3_online_miner.Gpu.Run.Loop.{
  Recovery, recovered, unrecovered, Step, go, gone, starved, Round, over, again, lost, oldest,
  device_error, queue_launch, round, top_up, retry, recover, is_open, after_round,
}
use bc3_online_miner.Gpu.Run.Chain.{
  begins, Chain, Chain-last, oldest-Chain, IsLaunch, Cached, nonces,
}

-- What holds of the state after a step, and after a round; nothing is in flight on a device that
-- is gone.
abbrev pub OnStep {ℓ} : (State → Type ℓ) → Step → Type ℓ
OnStep P (go s) = P s
OnStep P (gone s) = P s × (s.inflight ≡ [])
OnStep P (starved s) = P s

abbrev pub OnRound {ℓ} : (State → Type ℓ) → Round → Type ℓ
OnRound P (over s) = P s
OnRound P (again s) = P s
OnRound P (lost s) = P s × (s.inflight ≡ [])

abbrev pub OnRecovery {ℓ} : (State → Type ℓ) → Recovery → Type ℓ
OnRecovery P (recovered s) = P s
OnRecovery P (unrecovered s) = P s × (s.inflight ≡ [])

module _ (sha256 : List ℕ → List ℕ) (setup : Setup) (start : Cursor) where
  -- The launches that came back go from `start` to `done`, those in flight from `base` to the
  -- cursor. Every share is one, and every nonce of a launch that came back is counted.
  pub record IsSound (done base : Cursor) (s : State) : Type 0 where
    pub finished : Chain setup.stride start s.finished done
    pub inflight : Chain setup.stride base s.inflight s.cursor
    pub within : s.cursor.nonce < u32_mod
    pub launches : All (IsLaunch sha256 setup.job) s.inflight
    pub came_back : All (IsLaunch sha256 setup.job) s.finished
    pub cached : Cached sha256 setup.job s.header
    pub shares : All (IsShare sha256 setup.verify setup.job) s.finds
    pub counted : s.hashes ≡ nonces s.finished

  module _ (done base : Cursor) where
    -- Everything in flight is given up; the cursor goes back to where it began.
    pub device_error-IsSound :
        (s : State) (restart : Cursor)
        → Chain setup.stride start s.finished done
        → All (IsLaunch sha256 setup.job) s.finished
        → Cached sha256 setup.job s.header
        → All (IsShare sha256 setup.verify setup.job) s.finds
        → s.hashes ≡ nonces s.finished
        → base ≡ restart
        → restart.nonce < u32_mod
        → OnRecovery (IsSound done base) (device_error s restart)
    unfolding device_error
    device_error-IsSound s restart finished came_back cached shares counted back within =
        let sound : (errors : ℕ)
            → IsSound done base (record s {
              inflight = [];
              cursor = restart;
              last_collect = none;
              errors = errors;
            }) =
          λ errors. record {
            finished = finished;
            inflight = back;
            within = within;
            launches = tt;
            came_back = came_back;
            cached = cached;
            shares = shares;
            counted = counted;
          } in
        if_either (OnRecovery (IsSound done base)) (leb max_scan_errors (s.errors + 1))
          (sound 0, refl) (sound (s.errors + 1))

    retry-IsSound :
        (r : Recovery) → OnRecovery (IsSound done base) r → OnRound (IsSound done base) (retry r)
    retry-IsSound (recovered s) h = h
    retry-IsSound (unrecovered s) h = h

    pub recover-IsSound :
        (r : Recovery) → OnRecovery (IsSound done base) r → OnStep (IsSound done base) (recover r)
    recover-IsSound (recovered s) h = h
    recover-IsSound (unrecovered s) h = h

    -- The header of a launch, kept or built.
    header_or_new-eq :
        (en2 : ℕ) (kept : Option En2Header)
        → Cached sha256 setup.job kept
        → header_or_new sha256 setup.job en2 kept ≡ en2_header sha256 setup.job en2
    header_or_new-eq en2 none h = refl
    header_or_new-eq en2 (some kept) h =
        if_cases (λ r. r ≡ en2_header sha256 setup.job en2) (kept.en2 == en2)
          (λ same. h ∙ ap (en2_header sha256 setup.job) ((==_iff kept.en2 en2).0 same))
          (λ other. refl)

    oldest_within :
        (xs : List InFlight) (c : Cursor)
        → All (IsLaunch sha256 setup.job) xs
        → c.nonce < u32_mod
        → (oldest xs c).nonce < u32_mod
    oldest_within [] c launches h = h
    oldest_within (l ∷ ls) c launches h = omega (arith, launches.0.within, launches.0.some_nonces)

    -- The end of a job changes nothing of this.
    asked :
        (s : State) (e : Option JobEnd)
        → IsSound done base s
        → IsSound done base (record s { ending = e; turns = s.turns + 1 })
    asked s e sound = record {
      finished = sound.finished;
      inflight = sound.inflight;
      within = sound.within;
      launches = sound.launches;
      came_back = sound.came_back;
      cached = sound.cached;
      shares = sound.shares;
      counted = sound.counted;
    }

    module _ (outside : Outside) where
      -- The launch that `take_launch` gave goes behind the others, or everything is given up.
      queue_launch-IsSound :
          (s : State) (most : ℕ) (taken : Cursor × ℕ × ℕ × ℕ)
          → IsSound done base s
          → en2_fits s.cursor.en2 setup.job.extranonce2_size ≡ true
          → IsTaken setup.stride s.cursor most taken
          → OnRound (IsSound done base) (queue_launch sha256 outside setup s taken)
      unfolding queue_launch en2_header
      queue_launch-IsSound s most taken sound fits taking =
          let en2 = taken.1 in
          let h = header_or_new sha256 setup.job en2 s.header in
          let e : h ≡ en2_header sha256 setup.job en2 =
            header_or_new-eq en2 s.header sound.cached in
          let kept : h ≡ en2_header sha256 setup.job h.en2 =
            e ∙ ap (en2_header sha256 setup.job) (sym (ap (λ k. k.en2) e)) in
          let launch : InFlight = record {
            en2 = en2;
            extranonce2 = h.extranonce2;
            header = h.header;
            start = taken.2;
            count = taken.3;
            queued = outside.clock (s.turns + 1);
          } in
          let at : begins launch ≡ s.cursor =
            ap (λ n. record { en2 = n; nonce = taken.2 }) taking.from_en2
            ∙ ap (λ n. record { en2 = s.cursor.en2; nonce = n }) taking.from_nonce in
          if_cases (OnRound (IsSound done base))
            (outside.enqueue (s.turns + 1) (record {
              algo = setup.algo;
              header76 = h.header76;
              start = taken.2;
              count = taken.3;
              target = setup.job.share_target;
            }))
            (λ queued. record {
              finished = sound.finished;
              inflight =
                  Chain-last setup.stride base s.inflight s.cursor launch taken.0 sound.inflight at
                    (sym taking.moves);
              within = taking.small;
              launches =
                  All-append (IsLaunch sha256 setup.job) s.inflight (launch ∷ []) sound.launches (
                    record {
                      encodes = ap (λ k. k.extranonce2) e;
                      heads =
                          ap (λ k. k.header) e
                          ∙ ap (λ x. header_of sha256 setup.job x 0)
                              (sym (ap (λ k. k.extranonce2) e));
                      fits = ap (λ n. en2_fits n setup.job.extranonce2_size) taking.from_en2 ∙ fits;
                      some_nonces = taking.some_nonces;
                      within = omega (arith, taking.stays_within, taking.from_nonce);
                    },
                    tt,
                  );
              came_back = sound.came_back;
              cached = kept;
              shares = sound.shares;
              counted = sound.counted;
            })
            (λ failed. retry-IsSound _ (
              device_error-IsSound
                (record s { cursor = taken.0; header = some h; turns = s.turns + 2 })
                (oldest s.inflight s.cursor) sound.finished sound.came_back kept sound.shares
                sound.counted
                (sym (oldest-Chain setup.stride base s.inflight s.cursor sound.inflight))
                (oldest_within s.inflight s.cursor sound.launches sound.within)))

      round-IsSound :
          (s : State)
          → IsSound done base s
          → OnRound (IsSound done base) (round sha256 outside setup s)
      unfolding round
      round-IsSound s sound =
          let most = max (chunk s.budget s.batch) 1 in
          if_either (OnRound (IsSound done base)) (is_open s.ending)
            (if_either (OnRound (IsSound done base)) (ltb (length s.inflight) setup.depth)
              (if_either (OnRound (IsSound done base)) (outside.has_changed s.turns)
                (asked s _ sound)
                (if_cases (OnRound (IsSound done base))
                  (en2_fits s.cursor.en2 setup.job.extranonce2_size)
                  (λ fits.
                    queue_launch-IsSound s most (take_launch s.cursor most setup.stride) sound fits
                      (take_launch-IsTaken setup.stride s.cursor most sound.within))
                  (λ no. asked s _ sound)))
              sound)
            sound

      after_round-IsSound :
          (onward : State → Step) (r : Round)
          → ((s : State) → IsSound done base s → OnStep (IsSound done base) (onward s))
          → OnRound (IsSound done base) r
          → OnStep (IsSound done base) (after_round sha256 outside setup onward r)
      after_round-IsSound onward (over s) k h = h
      after_round-IsSound onward (again s) k h = k s h
      after_round-IsSound onward (lost s) k h = h

      pub top_up-IsSound :
          (fuel : ℕ) (s : State)
          → IsSound done base s
          → OnStep (IsSound done base) (top_up sha256 outside setup fuel s)
      unfolding top_up
      top_up-IsSound zero s sound = sound
      top_up-IsSound (suc fuel) s sound =
          after_round-IsSound (top_up sha256 outside setup fuel) (round sha256 outside setup s)
            (top_up-IsSound fuel) (round-IsSound s sound)
