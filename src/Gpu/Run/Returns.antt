-- ===== src/Gpu/Run/Returns.antt =====
-- The run of a job returns once the job has changed.
use Prim.Native.String.{String}
use bc3_online_miner.Common.{
  ℕ, zero, suc, ◌+◌, ◌-◌, ◌≤◌, ◌<◌, List, [], ◌∷◌, ◌≡◌, refl, ap, arith, true, Option, none, some,
  length, if_either, ltb, leb, leb→le, Bool-cases, leb-false, ◌⊎◌, inl, inr,
}
use bc3_online_miner.Shared.Job.{MinerJob}
use bc3_online_miner.Gpu.Run.{
  Outside, Setup, State, InFlight, Scan, JobEnd, finish, max_scan_errors,
}
use bc3_online_miner.Gpu.Run.Loop.{
  Step, go, gone, starved, Ended, ended, hungry, top_up, rounds, collect_one, settle, receive,
  pop_front, after_top_up, pump, begin, mine_job,
}
use bc3_online_miner.Gpu.Run.Ends.{
  Ready, Since, StepEnds, Spare-rounds, error-StepEnds, top_up_ends,
}

-- The run returns, and does not run out of the model's fuel.
abbrev pub Returns : Ended → Type 0
Returns (ended e s) = Unit
Returns (hungry s) = ⊥

-- The result of a run that returns.
result : (r : Ended) → Returns r → (e : JobEnd) × (s' : State) × (r ≡ ended e s')
result (ended e s) h = (e, s, refl)
result (hungry s) h = absurd h

module _ (sha256 : List ℕ → List ℕ) (outside : Outside) (setup : Setup) (last : ℕ)
    (changes : (t : ℕ) → last ≤ t → outside.has_changed t ≡ true) where
  module _ (hex_encode : List ℕ → String) where
    settle_ends :
        (s : State) (l : InFlight) (scan : Scan) (topped : Step)
        → StepEnds sha256 outside setup last changes s topped
        → StepEnds sha256 outside setup last changes s
            (settle sha256 outside setup hex_encode l scan topped)
    unfolding finish
    settle_ends s l scan (go s') (ready, (later, fewer)) = (ready, (omega arith, fewer))
    settle_ends s l scan (gone s') h = tt
    settle_ends s l scan (starved s') h = h

    receive_ends :
        (s : State) (l : InFlight) (answer : Option Scan)
        → Ready sha256 outside setup last changes s
        → StepEnds sha256 outside setup last changes s
            (receive sha256 outside setup hex_encode s l answer)
    unfolding collect_one
    receive_ends s l none ready =
        error-StepEnds sha256 outside setup last changes s (record { en2 = l.en2; nonce = l.start })
          ready
    receive_ends s l (some scan) (held, few) =
        let fine : State = record s { errors = 0 } in
        settle_ends s l scan _ (
          if_either (StepEnds sha256 outside setup last changes s) (ltb 1 setup.depth)
            (top_up_ends sha256 outside setup last changes (rounds sha256 outside setup) fine held
              (Spare-rounds sha256 outside setup last changes fine (held, omega arith)))
            ((held, omega arith), (omega arith, λ _. omega arith)))

    -- Fuel enough: a round for each turn until the last change, one for each launch in flight.
    abbrev pub Enough : ℕ → State → Type 0
    Enough fuel s =
        (last - s.turns + setup.depth + 1 ≤ fuel)
        ⊎ ((last ≤ s.turns) × (length s.inflight + 1 ≤ fuel))

    within_fuel :
        (fuel : ℕ) (s : State)
        → length s.inflight ≤ setup.depth
        → Enough (suc fuel) s
        → last ≤ s.turns
        → length s.inflight ≤ fuel
    within_fuel fuel s held (inl enough) passed = omega arith
    within_fuel fuel s held (inr (late, enough)) passed = omega arith

    after_receive_ends :
        (fuel : ℕ) (s s' : State) (behind : ℕ) (r : Step)
        → StepEnds sha256 outside setup last changes s' r
        → length s.inflight ≤ setup.depth
        → Enough (suc fuel) s
        → s.turns + 1 ≤ s'.turns
        → length s'.inflight ≡ behind
        → (last ≤ s.turns → behind + 1 ≤ length s.inflight)
        → ((t : State)
            → Ready sha256 outside setup last changes t
            → Enough fuel t
            → Returns (pump sha256 outside setup hex_encode fuel t))
        → Returns (after_top_up sha256 outside setup (pump sha256 outside setup hex_encode fuel) r)
    after_receive_ends fuel s s' behind (gone t) h held enough later e fewer k = tt
    after_receive_ends fuel s s' behind (starved t) h held enough later e fewer k = h
    after_receive_ends fuel s s' behind (go t) (ready, (onward, few)) held enough later e fewer k =
        k t ready (elim (Bool-cases (leb last s.turns)) [
          | inl late ↦
              let passed : last ≤ s.turns = leb→le last s.turns late in
              inr (
                omega arith,
                omega
                    (arith, fewer passed, few (omega arith), within_fuel fuel s held enough passed),
              )
          | inr soon ↦ elim enough [
            | inl a ↦ inl (omega (arith, leb-false last s.turns soon))
            | inr a ↦ absurd (omega (arith, leb-false last s.turns soon, a.0))
          ]
        ])

    pop_front_ends :
        (fuel : ℕ) (s s' : State) (waiting : List InFlight)
        → s'.inflight ≡ waiting
        → Ready sha256 outside setup last changes s'
        → Since sha256 outside setup last changes s s'
        → length s.inflight ≤ setup.depth
        → Enough (suc fuel) s
        → ((t : State)
            → Ready sha256 outside setup last changes t
            → Enough fuel t
            → Returns (pump sha256 outside setup hex_encode fuel t))
        → Returns (
            pop_front sha256 outside setup hex_encode
              (pump sha256 outside setup hex_encode fuel)
              s'
              waiting)
    pop_front_ends fuel s s' [] e ready since held enough k = tt
    pop_front_ends fuel s s' (l ∷ behind) e (room, few) (later, fewer) held enough k =
        let popped : State = record s' { inflight = behind; turns = s'.turns + 1 } in
        let count : length s'.inflight ≡ suc (length behind) = ap length e in
        after_receive_ends fuel s popped (length behind) _
          (receive_ends popped l (outside.collect s'.turns) (omega (arith, count), few)) held enough
          (omega arith) refl (λ late. omega (arith, count, fewer late)) k

    after_first :
        (fuel : ℕ) (s : State) (r : Step)
        → StepEnds sha256 outside setup last changes s r
        → length s.inflight ≤ setup.depth
        → Enough (suc fuel) s
        → ((t : State)
            → Ready sha256 outside setup last changes t
            → Enough fuel t
            → Returns (pump sha256 outside setup hex_encode fuel t))
        → Returns (
            after_top_up sha256 outside setup
              (λ s'.
                pop_front sha256 outside setup hex_encode
                  (pump sha256 outside setup hex_encode fuel)
                  s'
                  s'.inflight)
              r)
    after_first fuel s (go s') (ready, since) held enough k =
        pop_front_ends fuel s s' s'.inflight refl ready since held enough k
    after_first fuel s (gone s') h held enough k = tt
    after_first fuel s (starved s') h held enough k = h

    pub pump_ends :
        (fuel : ℕ) (s : State)
        → Ready sha256 outside setup last changes s
        → Enough fuel s
        → Returns (pump sha256 outside setup hex_encode fuel s)
    unfolding pump
    pump_ends zero s ready (inl enough) = absurd (omega arith)
    pump_ends zero s ready (inr (late, enough)) = absurd (omega arith)
    pump_ends (suc fuel) s ready enough =
        after_first fuel s (top_up sha256 outside setup (rounds sha256 outside setup) s)
          (top_up_ends sha256 outside setup last changes (rounds sha256 outside setup) s ready.0
            (Spare-rounds sha256 outside setup last changes s ready))
          ready.0 enough (pump_ends fuel)

-- If fewer than five errors have been counted and the job has changed at the turn `last` and at
-- every later one, then with fuel for the turns until then and for what is in flight `mine_job`
-- returns, whatever the device answers; its inner loop `top_up` never runs out of rounds.
pub mine_job-Returns :
    (sha256 : List ℕ → List ℕ) (hex_encode : List ℕ → String) (outside : Outside) (setup : Setup)
    (last : ℕ) (changes : (t : ℕ) → last ≤ t → outside.has_changed t ≡ true) (fuel : ℕ)
    (prev : Option MinerJob) (worker_index : ℕ) (s : State)
    → s.errors < max_scan_errors
    → last - s.turns + setup.depth + 1 ≤ fuel
    → (e : JobEnd) × (s' : State) × (mine_job sha256 hex_encode outside setup fuel prev worker_index
          s
        ≡ ended e s')
unfolding mine_job begin
mine_job-Returns sha256 hex_encode outside setup last changes fuel prev worker_index s few enough =
    result _ (
      pump_ends sha256 outside setup last changes hex_encode fuel (begin setup prev worker_index s)
        (omega arith, few) (inl enough))
