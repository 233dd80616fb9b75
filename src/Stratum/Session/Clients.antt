-- ===== src/Stratum/Session/Clients.antt =====
-- Over all its connections the client's job is well formed.
use bc3_online_miner.Common.{
  List, [], ◌∷◌, refl, inl, arith, if_either, Float, Option, some, ◌≡◌, ◌↔◌, subst, sym,
}
use bc3_online_miner.Consensus.Pow.{PowFn, hash_fn}
use bc3_online_miner.Consensus.Pow.Version.{bit, hash_fn-for_version}
use bc3_online_miner.Shared.Job.{MinerJob}
use bc3_online_miner.Shared.Feed.{clear_job, drop_job, bump}
use bc3_online_miner.Stratum.Report as Report
use bc3_online_miner.Stratum.Report.{HashrateReport}
use bc3_online_miner.Stratum.Lines.{next_line}
use bc3_online_miner.Stratum.Messages.{Json}
use bc3_online_miner.Stratum.Messages.Jobs.{GivesWords}
use bc3_online_miner.Stratum.Session.{State, Turn, Outcome, going, failed}
use bc3_online_miner.Stratum.Session.Connections.{
  turn_once, run_turns, Connection, fresh, session, Client, after_session, run_client,
}
use bc3_online_miner.Stratum.Session.Fed.{
  IsFed, IsWellFormed, IsSession, OnOutcome, bind, hello-IsSession, report_rate-IsSession,
  submit_all-IsSession,
}
use bc3_online_miner.Stratum.Session.Answers.{on_next-IsSession}

module _ (float : Float) (json : Json float.F64) (words : GivesWords float json) where
  open float use {F64, of_nat}
  open json use {Value, from_line, key, at, as_u64, as_str, as_array, is_number}

  turn_once-IsSession :
      (turn : Turn) (s : State F64)
      → IsSession float json words s
      → OnOutcome float json words (turn_once float json turn s)
  unfolding turn_once
  turn_once-IsSession turn s h =
      bind float json words _ _
        (report_rate-IsSession float json words turn (Report.due turn.now turn.hashes s.report) _ h)
        (λ s1 h1.
          bind float json words _ _ (submit_all-IsSession float json words turn turn.shares s1 h1)
            (λ s2 h2. on_next-IsSession float json words turn (next_line s2.reads s2.rx_buf) s2 h2))

  run_turns-IsSession :
      (turns : List Turn) (s : State F64)
      → IsSession float json words s
      → OnOutcome float json words (run_turns float json turns s)
  unfolding run_turns
  run_turns-IsSession [] s h = h
  run_turns-IsSession (turn ∷ turns) s h =
      bind float json words _ _ (turn_once-IsSession turn s h)
        (λ s' h'. run_turns-IsSession turns s' h')

  session-IsFed :
      (c : Connection float json) (s : State F64)
      → IsFed float json words s.feed.job
      → OnOutcome float json words (session float json c s)
  unfolding session fresh
  session-IsFed c s fed =
      if_either (OnOutcome float json words) c.opens
        (bind float json words _ _
          (hello-IsSession float json words c.opening c.suggestion (fresh float json c s)
            (fed, inl refl, λ on. ground (arith, on)))
          (λ s' h'. run_turns-IsSession c.loop s' h'))
        fed

  after_session-IsFed :
      (c : Connection float json) (client : Client float json) (o : Outcome F64)
      (onward : Client float json → Client float json)
      → OnOutcome float json words o
      → ((client : Client float json)
          → IsFed float json words client.state.feed.job
          → IsFed float json words (onward client).state.feed.job)
      → IsFed float json words (after_session float json c client o onward).state.feed.job
  unfolding clear_job drop_job bump
  after_session-IsFed c client (going s) onward h k = h.0
  after_session-IsFed c client (failed e s) onward h k = k _ tt

run_client-keeps :
    (float : Float) (json : Json float.F64) (words : GivesWords float json)
    (cs : List (Connection float json)) (client : Client float json)
    → IsFed float json words client.state.feed.job
    → IsFed float json words (run_client float json cs client).state.feed.job
unfolding run_client
run_client-keeps float json words [] client fed = fed
run_client-keeps float json words (c ∷ cs) client fed =
    after_session-IsFed float json words c client (session float json c client.state)
      (run_client float json cs) (session-IsFed float json words c client.state fed)
      (run_client-keeps float json words cs)

-- The jobs among the well-formed ones that are hashed.
IsFed-hashed :
    (float : Float) (json : Json float.F64) (words : GivesWords float json) (fed : Option MinerJob)
    → IsFed float json words fed
    → (build : PowFn) (job : MinerJob) → fed ≡ some job
    → (hash_fn (some build) job.algo ≡ some build) ↔ (bit 11 job.version ≡ 1)
IsFed-hashed float json words fed kept build job e =
    let well : IsWellFormed float json words job = subst (IsFed float json words) e kept in
    subst (λ a. (hash_fn (some build) a ≡ some build) ↔ (bit 11 job.version ≡ 1))
      (sym well.notified.proof_of_work) (hash_fn-for_version build job.version)

-- Over any connections, whatever the pool sends and whenever a connection fails, with hex decoding
-- of a `u32` giving 32 bits: if the job at the start, where there is one, is well formed, so is the
-- job of the shared state at the end. That is, its fields have the widths of a header's, its merkle
-- steps have 32 bytes each, its proof of work is the one of its version, its height is the one of
-- its coinbase, its target is that of 1 or of a finite difficulty above 0 that was set before, its
-- extranonce1 has at most 32 bytes, and its extranonce2 between 1 and 16. With a hash function for
-- BC3Hash, the workers have one for the job just when bit 11 of its version is set; a job without
-- it is fed to them, and mined by nobody.
pub run_client-IsFed :
    (float : Float) (json : Json float.F64) (words : GivesWords float json)
    (cs : List (Connection float json)) (client : Client float json)
    → IsFed float json words client.state.feed.job
    → let fed = (run_client float json cs client).state.feed.job in
      IsFed float json words fed
      × ((build : PowFn) (job : MinerJob)
          → fed ≡ some job
          → (hash_fn (some build) job.algo ≡ some build) ↔ (bit 11 job.version ≡ 1))
run_client-IsFed float json words cs client fed =
    let kept = run_client-keeps float json words cs client fed in
    (kept, IsFed-hashed float json words (run_client float json cs client).state.feed.job kept)
