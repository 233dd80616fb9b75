-- ===== src/Shared/Feed/Latest.antt =====
-- A worker that waits in `wait_for_job_after` of src/shared.rs does not sleep through a job.
use bc3_online_miner.Common.{
  ℕ, ◌+◌, ◌<◌, List, [], ◌∷◌, ◌++◌, u64_mod, ◌≡◌, ◌≢◌, refl, ◌∙◌, subst, sym, arith, length, suc,
  All, inl, inr, ◌⊎◌,
}
use bc3_online_miner.Shared.Job.{MinerJob}
use bc3_online_miner.Shared.Feed.{
  Feed, Waiter, looking, asleep, returned, run_waiter, Turn, notify, feed_turn, waiter_turn, turns,
  publish_turns, weave, store_job, notify_all,
}
use bc3_online_miner.Shared.Feed.Others.{
  HasJob, Here, other-Here, other-HasJob, other-Notified, run-returns,
}
use bc3_online_miner.Shared.Feed.Turns.{
  Slept, Notified, Before, turns-Before, IsOther, IsReturned, Slept-more, turn-Slept,
  notify-Notified,
}

turns-append :
    (seen : ℕ) (xs ys : List Turn) (s : Feed × Waiter)
    → turns seen (xs ++ ys) s ≡ turns seen ys (turns seen xs s)
unfolding turns
turns-append seen [] ys s = refl
turns-append seen (t ∷ xs) ys (f, w) =
    turns-append seen xs ys (feed_turn t f, waiter_turn seen t f w)

module _ (seen : ℕ) (small_seen : seen < u64_mod) (job : MinerJob) where
  -- What each turn of the others keeps, while it adds one to the bound, all of them keep.
  others-keep :
      (P : ℕ → Feed × Waiter → Type 0)
      → ((n : ℕ) (t : Turn) (f : Feed) (w : Waiter)
          → n < u64_mod
          → IsOther t
          → P n (f, w)
          → P (suc n) (feed_turn t f, waiter_turn seen t f w))
      → (n : ℕ) (ts : List Turn) (f : Feed) (w : Waiter) → n + length ts < u64_mod
      → All IsOther ts
      → P n (f, w)
      → P (n + length ts) (turns seen ts (f, w))
  unfolding turns
  others-keep P step n [] f w few o h = subst (λ k. P k (f, w)) (omega arith) h
  others-keep P step n (t ∷ ts) f w few (o, rest) h =
      subst (λ k. P k (turns seen ts (feed_turn t f, waiter_turn seen t f w))) (omega arith)
        (others-keep P step (suc n) ts (feed_turn t f) (waiter_turn seen t f w) (omega (arith, few))
          rest (step n t f w (omega (arith, few)) o h))

  -- The job is stored; and those who sleep have been told.
  abbrev Stored : ℕ → Feed × Waiter → Type 0
  Stored n s = Here seen small_seen job n s.0 × HasJob seen small_seen job s.1 × Slept s.0 s.1

  abbrev Told : ℕ → Feed × Waiter → Type 0
  Told n s = Here seen small_seen job n s.0 × HasJob seen small_seen job s.1 × Notified s.0 s.1

  step-Stored :
      (n : ℕ) (t : Turn) (f : Feed) (w : Waiter)
      → n < u64_mod
      → IsOther t
      → Stored n (f, w)
      → Stored (suc n) (feed_turn t f, waiter_turn seen t f w)
  step-Stored n t f w few o (here, has, slept) = (
    other-Here seen small_seen job n t f o here,
    other-HasJob seen small_seen job n t f w few o here has,
    turn-Slept seen t f w slept,
  )

  step-Told :
      (n : ℕ) (t : Turn) (f : Feed) (w : Waiter)
      → n < u64_mod
      → IsOther t
      → Told n (f, w)
      → Told (suc n) (feed_turn t f, waiter_turn seen t f w)
  step-Told n t f w few o (here, has, told) = (
    other-Here seen small_seen job n t f o here,
    other-HasJob seen small_seen job n t f w few o here has,
    other-Notified seen small_seen job n t f w few o here has told,
  )

  notify-Told : (n : ℕ) (s : Feed × Waiter) → Stored n s → Told n (notify_all s.0, s.1)
  notify-Told n s (here, has, slept) = (here, has, notify-Notified s.0 s.1 slept)

  -- From the state in which the job has been stored.
  Stored-Told :
      (n : ℕ) (mid after : List Turn) (f : Feed) (w : Waiter)
      → All IsOther mid
      → All IsOther after
      → n + (length mid + length after) < u64_mod
      → Stored n (f, w)
      → Told (n + length mid + length after) (turns seen (mid ++ (notify ∷ (after ++ []))) (f, w))
  unfolding turns
  Stored-Told n mid after f w o o' few h =
      let s = turns seen mid (f, w) in
      let told =
        notify-Told (n + length mid) s
          (others-keep Stored step-Stored n mid f w (omega (arith, few)) o h) in
      subst (Told (n + length mid + length after))
        (sym (
          turns-append seen mid (notify ∷ (after ++ [])) (f, w)
          ∙ turns-append seen after [] (notify_all s.0, s.1)))
        (others-keep Told step-Told (n + length mid) after (notify_all s.0) s.1 (omega (arith, few))
          o' told)

  waits-HasJob : (w : Waiter) → ¬ IsReturned w → HasJob seen small_seen job w
  waits-HasJob looking h = tt
  waits-HasJob (asleep since) h = tt
  waits-HasJob (returned g j) h = absurd (h tt)

  Stored-new :
      (n now : ℕ) (f : Feed) (w : Waiter)
      → Before seen n (f, w)
      → ¬ IsReturned w
      → Stored (suc n) (store_job job now f, w)
  Stored-new n now f w ((k, l, h, e), slept) waits = (
    (refl, (suc k, omega arith, omega (arith, h), omega (arith, e))),
    waits-HasJob w waits,
    Slept-more f (store_job job now f) w (omega arith) slept,
  )

IsReturned-decided : (w : Waiter) → IsReturned w ⊎ (¬ IsReturned w)
IsReturned-decided looking = inr (λ h. h)
IsReturned-decided (asleep since) = inr (λ h. h)
IsReturned-decided (returned g j) = inl tt

-- A worker waits in `wait_for_job_after` for a generation other than the one it has seen, and in any
-- order with its own runs and wake-ups come the turns of the others: whatever they do before; the
-- section of `publish_job` under the lock; then nudges, notifications and runs of the worker; the
-- notification of `publish_job`; and nudges, notifications and runs again. If there are fewer turns
-- than a 64-bit counter has values, then either the worker had returned before the job was stored,
-- or when it gets to run at the end it has returned, or returns, the new job, with a generation
-- other than the one it had seen: it does not sleep through the job.
pub run_waiter-publish :
    (f : Feed) (job : MinerJob) (now : ℕ) (before mid after : List Turn)
    → f.generation < u64_mod
    → All IsOther mid
    → All IsOther after
    → length before + suc (length mid + suc (length after)) < u64_mod
    → let seen = f.generation in
      let own = weave (publish_turns job now) (mid ∷ after ∷ []) in
      let s = turns seen (before ++ own) (f, looking) in
      IsReturned (turns seen before (f, looking)).1
      ⊎ ((g : ℕ) × (run_waiter seen s.0 s.1 ≡ returned g job) × (g ≢ seen))
unfolding turns
run_waiter-publish f job now before mid after small o o' few =
    let seen = f.generation in
    let own = weave (publish_turns job now) (mid ∷ after ∷ []) in
    let s = turns seen before (f, looking) in
    let n = length before in
    let m = suc n + length mid + length after in
    let start : Before seen n (s.0, s.1) =
      subst (λ k. Before seen k (s.0, s.1)) (omega arith)
        (turns-Before seen 0 before f looking
          ((0, omega arith, omega arith, omega (arith, small)), tt)) in
    elim (IsReturned-decided s.1) [
      | inl back ↦ inl back
      | inr waits ↦
          let told =
            Stored-Told seen small job (suc n) mid after (store_job job now s.0) s.1 o o'
              (omega (arith, few)) (Stored-new seen small job n now s.0 s.1 start waits) in
          inr (
            subst (λ e. (g : ℕ) × (run_waiter seen e.0 e.1 ≡ returned g job) × (g ≢ seen))
              (sym (turns-append seen before own (f, looking)))
              (let e = turns seen (mid ++ (notify ∷ (after ++ []))) (store_job job now s.0, s.1) in
                run-returns seen small job m e.0 e.1 (omega (arith, few)) told.0 told.1 told.2))
    ]
