-- ===== src/Gpu/Run/Ends.antt =====
-- Once the job has changed, its run ends: what is in flight is collected, and no more is queued.
use bc3_online_miner.Common.{
  ℕ, zero, suc, ◌+◌, ◌-◌, ◌*◌, ◌≤◌, ◌<◌, max, List, [], ◌∷◌, ◌++◌, ◌≡◌, refl, ap, arith, true,
  false, Option, some, length, length-append, if_cases, if_either, ltb, leb, ltb→lt, leb→le,
  Bool-cases, leb-false, inl, inr,
}
use native.Mathlib.Nat.{mul-le-mul}
use bc3_online_miner.Worker.Extranonce.{en2_fits}
use bc3_online_miner.Gpu.Budget.{chunk}
use bc3_online_miner.Gpu.Cursor.{Cursor, take_launch}
use bc3_online_miner.Gpu.Run.{
  Outside, Setup, State, InFlight, JobEnd, changed, exhausted, header_or_new, max_scan_errors,
}
use bc3_online_miner.Gpu.Run.Loop.{
  Step, go, gone, starved, Round, over, again, lost, device_error, retry, recover, is_open,
  queue_launch, round, top_up, rounds, after_round, oldest,
}

module _ (sha256 : List ℕ → List ℕ) (outside : Outside) (setup : Setup) (last : ℕ)
    (changes : (t : ℕ) → last ≤ t → outside.has_changed t ≡ true) where
  -- Not too much in flight, and errors left before the device counts as gone.
  abbrev pub Ready : State → Type 0
  Ready s = (length s.inflight ≤ setup.depth) × (s.errors < max_scan_errors)

  -- Later than `s`, and after the job's last turn with no more in flight.
  abbrev pub Since : State → State → Type 0
  Since s s' = (s.turns ≤ s'.turns) × (last ≤ s.turns → length s'.inflight ≤ length s.inflight)

  -- So many rounds are enough: `k` errors are left, and the queue has room.
  abbrev pub Spare : ℕ → State → Type 0
  Spare fuel s =
      (k : ℕ) × (s.errors + k ≡ 4)
      × (k * (setup.depth + 1) + (setup.depth + 1 - length s.inflight) ≤ fuel)

  abbrev RoundEnds : ℕ → State → Round → Type 0
  RoundEnds fuel s (over s') = Ready s' × Since s s'
  RoundEnds fuel s (again s') =
      (length s'.inflight ≤ setup.depth) × Spare fuel s' × (s.turns ≤ s'.turns) × (s.turns < last)
  RoundEnds fuel s (lost s') = Unit

  abbrev pub StepEnds : State → Step → Type 0
  StepEnds s (go s') = Ready s' × Since s s'
  StepEnds s (gone s') = Unit
  StepEnds s (starved s') = ⊥

  -- An error uses up one of those that are left.
  error_ends :
      (fuel : ℕ) (s asked : State) (restart : Cursor)
      → length s.inflight < setup.depth
      → Spare (suc fuel) s
      → s.turns < last
      → asked.errors ≡ s.errors
      → s.turns ≤ asked.turns
      → RoundEnds fuel s (retry (device_error asked restart))
  unfolding device_error
  error_ends fuel s asked restart room (zero, left, enough) early same later =
      let all : leb max_scan_errors (asked.errors + 1) ≡ true = ground (arith, left, same) in
      rw all tt
  error_ends fuel s asked restart room (suc k, left, enough) early same later =
      let more : leb max_scan_errors (asked.errors + 1) ≡ false = ground (arith, left, same) in
      let fits : k * (setup.depth + 1) + (setup.depth + 1 - 0) ≤ fuel =
        grind (arith, enough, room) in
      rw more (omega arith, (k, omega (arith, left, same), fits), later, early)

  -- A launch more is in flight.
  queued_ends :
      (fuel : ℕ) (s asked : State) (l : InFlight)
      → length s.inflight < setup.depth
      → Spare (suc fuel) s
      → s.turns < last
      → asked.inflight ≡ s.inflight ++ (l ∷ [])
      → asked.errors ≡ s.errors
      → s.turns ≤ asked.turns
      → RoundEnds fuel s (again asked)
  queued_ends fuel s asked l room (k, left, enough) early behind same later =
      let more : length asked.inflight ≡ suc (length s.inflight) =
        omega (arith, ap length behind, length-append s.inflight (l ∷ [])) in
      (
        omega (arith, more, room),
        (k, omega (arith, left, same), omega (arith, more, enough, room)),
        later,
        early,
      )

  queue_ends :
      (fuel : ℕ) (s : State) (taken : Cursor × ℕ × ℕ × ℕ)
      → length s.inflight < setup.depth
      → Spare (suc fuel) s
      → s.turns < last
      → RoundEnds fuel s (queue_launch sha256 outside setup s taken)
  unfolding queue_launch
  queue_ends fuel s taken room spare early =
      let h = header_or_new sha256 setup.job taken.1 s.header in
      let asked : State = record s { cursor = taken.0; header = some h; turns = s.turns + 2 } in
      let l : InFlight = record {
        en2 = taken.1;
        extranonce2 = h.extranonce2;
        header = h.header;
        start = taken.2;
        count = taken.3;
        queued = outside.clock (s.turns + 1);
      } in
      if_cases (RoundEnds fuel s) (outside.enqueue (s.turns + 1) _)
        (λ queued.
          queued_ends fuel s (record asked { inflight = s.inflight ++ (l ∷ []) }) l room spare early
            refl refl (omega arith))
        (λ failed.
          error_ends fuel s asked (oldest s.inflight s.cursor) room spare early refl (omega arith))

  Spare-Ready : (fuel : ℕ) (s : State) → length s.inflight ≤ setup.depth → Spare fuel s → Ready s
  Spare-Ready fuel s room (k, left, enough) = (room, omega (arith, left))

  round_ends :
      (fuel : ℕ) (s : State)
      → length s.inflight ≤ setup.depth
      → Spare (suc fuel) s
      → RoundEnds fuel s (round sha256 outside setup s)
  unfolding round
  round_ends fuel s held spare =
      let stop : (e : Option JobEnd)
          → RoundEnds fuel s (over (record s { ending = e; turns = s.turns + 1 })) =
        λ e. (Spare-Ready (suc fuel) s held spare, (omega arith, λ _. omega arith)) in
      let still : RoundEnds fuel s (over s) =
        (Spare-Ready (suc fuel) s held spare, (omega arith, λ _. omega arith)) in
      if_either (RoundEnds fuel s) (is_open s.ending)
        (if_cases (RoundEnds fuel s) (ltb (length s.inflight) setup.depth)
          (λ room.
            if_cases (RoundEnds fuel s) (outside.has_changed s.turns) (λ e. stop (some changed))
              (λ same.
                let early : s.turns < last = elim (Bool-cases (leb last s.turns)) [
                  | inl late ↦ ground (arith, changes s.turns (leb→le last s.turns late), same)
                  | inr soon ↦ leb-false last s.turns soon
                ] in
                if_either (RoundEnds fuel s) (en2_fits s.cursor.en2 setup.job.extranonce2_size)
                  (queue_ends fuel s
                    (take_launch s.cursor (max (chunk s.budget s.batch) 1) setup.stride)
                    (ltb→lt (length s.inflight) setup.depth room) spare early)
                  (stop (some exhausted))))
          (λ full. still))
        still

  since_start :
      (s s' : State) (r : Step) → s.turns ≤ s'.turns → s.turns < last → StepEnds s' r → StepEnds s r
  since_start s s' (go s'') later early (ready, (onward, few)) =
      (ready, (omega arith, λ late. absurd (omega arith)))
  since_start s s' (gone s'') later early h = tt
  since_start s s' (starved s'') later early h = h

  after_round_ends :
      (fuel : ℕ) (s : State) (r : Round)
      → ((s' : State)
          → length s'.inflight ≤ setup.depth
          → Spare fuel s'
          → StepEnds s' (top_up sha256 outside setup fuel s'))
      → RoundEnds fuel s r
      → StepEnds s (after_round sha256 outside setup (top_up sha256 outside setup fuel) r)
  after_round_ends fuel s (over s') k h = h
  after_round_ends fuel s (again s') k (held, spare, later, early) =
      since_start s s' (top_up sha256 outside setup fuel s') later early (k s' held spare)
  after_round_ends fuel s (lost s') k h = tt

  -- `top_up` has rounds enough.
  pub top_up_ends :
      (fuel : ℕ) (s : State)
      → length s.inflight ≤ setup.depth
      → Spare fuel s
      → StepEnds s (top_up sha256 outside setup fuel s)
  unfolding top_up
  top_up_ends zero s held (k, left, enough) = absurd (omega (arith, held, enough))
  top_up_ends (suc fuel) s held spare =
      after_round_ends fuel s (round sha256 outside setup s) (top_up_ends fuel)
        (round_ends fuel s held spare)

  pub Spare-rounds : (s : State) → Ready s → Spare (rounds sha256 outside setup) s
  Spare-rounds s (held, few) =
      let k = 4 - s.errors in
      let most : k * (setup.depth + 1) ≤ 4 * (setup.depth + 1) =
        mul-le-mul (omega arith) (omega arith) in
      (k, omega arith, omega (arith, most))

  pub error-StepEnds :
      (s : State) (restart : Cursor) → Ready s → StepEnds s (recover (device_error s restart))
  unfolding device_error
  error-StepEnds s restart (held, few) =
      if_cases (λ r. StepEnds s (recover r)) (leb max_scan_errors (s.errors + 1)) (λ all. tt)
        (λ more. (
          (omega arith, omega (arith, leb-false max_scan_errors (s.errors + 1) more)),
          (omega arith, λ _. omega arith),
        ))
