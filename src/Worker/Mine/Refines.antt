-- ===== src/Worker/Mine/Refines.antt =====
-- `mine_job` is the search of one position after another, and it ends.
use Prim.Native.String.{String}
use bc3_online_miner.Common.{
  ℕ, zero, suc, ◌+◌, ◌*◌, ◌^◌, ◌≤◌, ◌<◌, Bool, true, false, List, [], ◌++◌, u32_mod, u64_mod, ◌≡◌,
  ◌≢◌, refl, sym, arith, ◌⊎◌, inl, inr, Bool-cases,
}
use bc3_online_miner.Consensus.Pow.{PowFn}
use bc3_online_miner.Shared.Job.{MinerJob}
use bc3_online_miner.Worker.Extranonce.{encode_extranonce2, en2_fits}
use bc3_online_miner.Worker.Mine.{
  Progress, Outcome, exhausted, interrupted, out_of_fuel, sweep, mine_job, header_of,
}
use bc3_online_miner.Consensus.Header.{serialize}
use bc3_online_miner.Worker.Mine.Search.{Position, advance, finds_along}
use bc3_online_miner.Worker.Mine.Batch.{IsJob, GivesHashes}
use bc3_online_miner.Worker.Mine.Looks.{sweep-looks}
use bc3_online_miner.Worker.Mine.Sweep.{position, Searches, Searches-then, IsSweep, sweep-IsSweep}

Outcome-cases : (o : Outcome) → (o ≢ out_of_fuel) → (o ≡ exhausted) ⊎ (o ≡ interrupted)
Outcome-cases exhausted h = inl refl
Outcome-cases interrupted h = inr refl
Outcome-cases out_of_fuel h = absurd (h refl)

module _ (sha256 : List ℕ → List ℕ) (hex_encode : List ℕ → String) (pow : PowFn) (job : MinerJob)
    (hashes : GivesHashes sha256) (fits : IsJob job) (changed : ℕ → Bool) (batch stride : ℕ)
    (working : 0 < batch) (fuel : ℕ) (enough : u32_mod ≤ fuel) where
  abbrev SearchesFrom : Position → Progress → Type 0
  SearchesFrom = Searches sha256 hex_encode pow job hashes fits changed batch stride working

  abbrev mined : ℕ → ℕ → ℕ → ℕ → Progress
  mined = mine_job hex_encode pow job sha256 changed batch stride fuel

  -- What a run of at most `rounds` extranonce2 values gives.
  pub record IsMined (rounds : ℕ) (start : Position) (r : Progress) : Type 0 where
    pub searches : SearchesFrom start r
    pub covers : r.outcome ≡ exhausted → en2_fits r.en2 job.extranonce2_size ≡ false
    pub ends :
        0 < rounds
        → job.extranonce2_size < 8
        → 2 ^ (8 * job.extranonce2_size) + stride ≤ start.en2 + rounds * stride
        → r.outcome ≢ out_of_fuel

  nothing :
      (start : Position) (r : Progress)
      → r.finds ≡ []
      → r.hashes ≡ 0
      → position r ≡ start
      → SearchesFrom start r
  unfolding advance finds_along
  nothing start r f h p = record { finds = rw h f; resumes = rw h p }

  -- A counter that fits a size below 8 is below the number of values.
  fits-lt :
      (en2 : ℕ)
      → en2_fits en2 job.extranonce2_size ≡ true
      → job.extranonce2_size < 8
      → en2 < 2 ^ (8 * job.extranonce2_size)
  unfolding en2_fits
  fits-lt en2 e narrow = ground arith

  then_rest :
      (k en2 nonce : ℕ) (swept rest : Progress)
      → IsSweep sha256 hex_encode pow job hashes fits changed batch stride working
          (record { en2 = en2; nonce = nonce })
          swept
      → swept.outcome ≡ exhausted
      → en2_fits en2 job.extranonce2_size ≡ true
      → IsMined k (position swept) rest
      → IsMined
          (suc k)
          (record { en2 = en2; nonce = nonce })
          (record rest { finds = swept.finds ++ rest.finds; hashes = swept.hashes + rest.hashes })
  then_rest k en2 nonce swept rest s e in_space ih = record {
    searches =
        Searches-then sha256 hex_encode pow job hashes fits changed batch stride working _
          (position swept) swept.hashes swept.finds rest s.searches.finds (sym s.searches.resumes)
          ih.searches;
    covers = ih.covers;
    ends = λ _ narrow bound.
        let below = fits-lt en2 in_space narrow in
        let moved = s.moves_on e in
        ih.ends (grind (arith, moved, below)) narrow (grind (arith, moved));
  }

  pub mine_job-IsMined :
      (rounds en2 nonce checks : ℕ)
      → nonce < u32_mod
      → en2 + rounds * stride < u64_mod
      → IsMined rounds (record { en2 = en2; nonce = nonce }) (mined rounds en2 nonce checks)
  unfolding mine_job
  mine_job-IsMined zero en2 nonce checks small room = record {
    searches = nothing _ _ refl refl refl;
    covers = λ e. cc;
    ends = λ some_rounds. absurd (omega arith);
  }
  mine_job-IsMined (suc k) en2 nonce checks small room =
      let extranonce2 = encode_extranonce2 en2 job.extranonce2_size in
      let swept =
        sweep hex_encode pow job sha256 changed batch stride fuel extranonce2
          (serialize (header_of sha256 job extranonce2 0)) en2 nonce checks in
      let s =
        sweep-IsSweep sha256 hex_encode pow job hashes fits changed batch stride working en2
          (omega arith) fuel nonce checks small (omega arith) in
      elim (Bool-cases (en2_fits en2 job.extranonce2_size)) [
        | inl in_space ↦ elim (Outcome-cases swept.outcome s.ends) [
          | inl e ↦
              let moved = s.moves_on e in
              let rest =
                mine_job-IsMined k swept.en2 swept.nonce swept.checks (omega (arith, moved))
                  (omega (arith, moved)) in
              rw (in_space, e) (then_rest k en2 nonce swept _ s e in_space rest)
          | inr e ↦
              rw (in_space, e)
                (record { searches = s.searches; covers = λ k. cc; ends = λ _ _ _ k. cc })
        ]
        | inr past ↦ rw past (record {
          searches = nothing _ _ refl refl refl;
          covers = λ _. past;
          ends = λ _ _ _ k. cc;
        })
      ]

  -- With SHA-256 giving 32 bytes, a job of the right widths, at least one hash a batch, fuel for
  -- every nonce and room in 64 bits for the extranonce2 counter: wherever `mine_job` starts and
  -- whenever the job changes, what it submits is what the positions from the start on give, one
  -- after another with none left out, it resumes at the position after them, and it calls the
  -- search space exhausted only once the counter does not fit the extranonce2.
  pub mine_job-Searches :
      (rounds en2 nonce checks : ℕ)
      → nonce < u32_mod
      → en2 + rounds * stride < u64_mod
      → let r = mined rounds en2 nonce checks in
        SearchesFrom (record { en2 = en2; nonce = nonce }) r
        × (r.outcome ≡ exhausted → en2_fits r.en2 job.extranonce2_size ≡ false)
  mine_job-Searches rounds en2 nonce checks small room =
      let m = mine_job-IsMined rounds en2 nonce checks small room in (m.searches, m.covers)

  returns_if_changed :
      (rounds en2 nonce checks last : ℕ)
      → nonce < u32_mod
      → en2 + rounds * stride < u64_mod
      → checks ≤ last
      → changed last ≡ true
      → last < checks + rounds
      → (mined rounds en2 nonce checks).outcome ≢ out_of_fuel
  unfolding mine_job
  returns_if_changed zero en2 nonce checks last small room le there soon = absurd (omega arith)
  returns_if_changed (suc k) en2 nonce checks last small room le there soon =
      let extranonce2 = encode_extranonce2 en2 job.extranonce2_size in
      let header = serialize (header_of sha256 job extranonce2 0) in
      let swept =
        sweep hex_encode pow job sha256 changed batch stride fuel extranonce2 header en2 nonce
          checks in
      let s =
        sweep-IsSweep sha256 hex_encode pow job hashes fits changed batch stride working en2
          (omega arith) fuel nonce checks small (omega arith) in
      elim (Bool-cases (en2_fits en2 job.extranonce2_size)) [
        | inl in_space ↦ elim (Outcome-cases swept.outcome s.ends) [
          | inl e ↦
              let moved = s.moves_on e in
              let looked =
                sweep-looks hex_encode pow job sha256 changed batch stride fuel extranonce2 header
                  en2 nonce checks last le there e in
              rw (in_space, e)
                (returns_if_changed k swept.en2 swept.nonce swept.checks last (omega (arith, moved))
                  (omega (arith, moved)) looked.1 there (omega (arith, looked)))
          | inr e ↦ rw (in_space, e) (λ k. cc)
        ]
        | inr past ↦ rw past (λ k. cc)
      ]

  -- Under the same conditions `mine_job` returns: for an extranonce2 of less than 8 bytes, with as
  -- many rounds as the counter has steps left in it, whether the job changes or not; and for one of
  -- any size, once the job has changed at some look at it, with more rounds than there are looks up
  -- to that one. (The counter of 8 bytes or more always fits, and without another job the search
  -- does not end.)
  pub mine_job-ends :
      (rounds en2 nonce checks : ℕ)
      → nonce < u32_mod
      → en2 + rounds * stride < u64_mod
      → ((0 < rounds)
          × (job.extranonce2_size < 8)
          × (2 ^ (8 * job.extranonce2_size) + stride ≤ en2 + rounds * stride))
        ⊎ ((last : ℕ) × (checks ≤ last) × (changed last ≡ true) × (last < checks + rounds))
      → (mined rounds en2 nonce checks).outcome ≢ out_of_fuel
  mine_job-ends rounds en2 nonce checks small room (inl (some_rounds, narrow, enough_rounds)) =
      (mine_job-IsMined rounds en2 nonce checks small room).ends some_rounds narrow enough_rounds
  mine_job-ends rounds en2 nonce checks small room (inr (last, le, there, soon)) =
      returns_if_changed rounds en2 nonce checks last small room le there soon
